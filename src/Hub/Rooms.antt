-- ===== src/Hub/Rooms.antt =====
-- Chat rooms: `Room` and `rooms` of hub/room.go, with `leaveRooms` and `nextSID` of hub/hub.go.
-- A pointer to a room is the session identifier of the room, which no other room or peer has; so is
-- a peer that of the peer. The events that are sent to peers are left out. Each call runs whole,
-- under the locks that it takes.
pub mod Membership
pub mod Naming
use go_dcpp.Adc.Sid.{Sid, sid_eq, sid_from_int}
use go_dcpp.Base.{
  ℕ, ◌+◌, ◌%◌, ◌^◌, Bool, false, not, Option, none, some, List, [], ◌∷◌, ◌++◌, map, if◌then◌else◌,
  ◌==◌, nat_eq, list_eq, is_some, Bytes, codes, length, replicate, Map, lookup, insert, remove,
}

pub record Room : Type 0 where
  pub name : Bytes
  pub peers : Map Sid (Unit {0})

pub record Rooms : Type 0 where
  -- the rooms that exist, the global chat among them
  pub heap : Map Sid Room
  pub by_name : Map Bytes Sid
  pub by_sid : Map Sid Sid
  -- `rooms.list` of each peer
  pub joined : Map Sid (List Sid)
  -- `lastSID`
  pub last_sid : ℕ

pub data Error : Type 0 where
  bad_name room_exists : Error

pub data Result {ℓ} (A : Type ℓ) : Type ℓ where
  ok : A → Result A
  err : Error → Result A

-- `nextSID`: the counter has 32 bits
pub next_sid : Rooms → Rooms × Sid
next_sid h = let v = (h.last_sid + 1) % 2 ^ 32 in (record h { last_sid = v }, sid_from_int v)

-- `newRoom`
pub make_room : Bytes → Rooms → Rooms × Sid
unfolding next_sid
make_room name h =
    let (h', id) = next_sid h in
    (record h' { heap = insert id (record { name = name; peers = [] }) h'.heap }, id)

-- strings.HasPrefix(name, "#")
pub has_hash : Bytes → Bool
has_hash [] = false
has_hash (c ∷ s) = c == b'#'

-- `NewRoom`
pub new_room : Bytes → Rooms → Result (Rooms × Sid)
new_room name h =
    if not (has_hash name)
    then err bad_name
    else if is_some (lookup name h.by_name)
    then err room_exists
    else let (h', r) = make_room name h in
      ok (record h' { by_name = insert name r h'.by_name; by_sid = insert r r h'.by_sid }, r)

-- `Hub.Room`
pub room : Bytes → Rooms → Option Sid
room name h = lookup name h.by_name

-- `Hub.roomBySID`
pub room_by_sid : Sid → Rooms → Option Sid
room_by_sid id h = lookup id h.by_sid

-- `InRoom`
pub in_room : Sid → Sid → Rooms → Bool
in_room r p h = elim (lookup r h.heap) [ none ↦ false | some x ↦ is_some (lookup p x.peers) ]

-- `Users`
pub users : Sid → Rooms → ℕ
users r h = elim (lookup r h.heap) [ none ↦ 0 | some x ↦ length x.peers ]

-- `rooms.list` of a peer
pub rooms_of : Sid → Rooms → List Sid
rooms_of p h = elim (lookup p h.joined) [ none ↦ [] | some l ↦ l ]

-- `Room.Join`
pub join : Sid → Sid → Rooms → Rooms
unfolding rooms_of
join r p h = elim (lookup r h.heap) [
  | none ↦ h
  | some x ↦ if is_some (lookup p x.peers) then h else record h {
    heap = insert r (record x { peers = insert p tt x.peers }) h.heap;
    joined = insert p (rooms_of p h ++ r ∷ []) h.joined;
  }
]

-- `Room.Leave`: the list of the peer keeps the room
pub leave : Sid → Sid → Rooms → Rooms
leave r p h = elim (lookup r h.heap) [
  | none ↦ h
  | some x ↦
      if is_some (lookup p x.peers)
      then record h { heap = insert r (record x { peers = remove p x.peers }) h.heap }
      else h
]

-- for _, r := range pb.rooms.list { r.Leave(peer) }
leave_each : List Sid → Sid → Rooms → Rooms
leave_each [] p h = h
leave_each (r ∷ rs) p h = leave_each rs p (leave r p h)

-- `leaveRooms`; `global` is the global chat
pub leave_rooms : Sid → Sid → Rooms → Rooms
leave_rooms global p h =
    let h' = leave_each (rooms_of p h) p (leave global p h) in
    record h' { joined = insert p [] h'.joined }

-- `Hub.Rooms`: the list is made with one nil for each room, and the rooms are appended to those
pub list_rooms : Rooms → List (Option Sid)
list_rooms h = replicate (length h.by_name) none ++ map (λ (e : Bytes × Sid). some e.1) h.by_name

-- r.Name(); `none` is the panic on a nil room
name_of : Rooms → Option Sid → Option Bytes
name_of h none = none
name_of h (some r) = elim (lookup r h.heap) [ none ↦ none | some x ↦ some x.name ]

-- the loop of `cmdRooms` in hub/cmds.go, which writes the name of each room on a line
write_names : Rooms → List (Option Sid) → Bytes → Option Bytes
unfolding name_of
write_names h [] out = some out
write_names h (r ∷ rs) out = elim (name_of h r) [
  | none ↦ none
  | some n ↦ write_names h rs (out ++ (n ++ b'\n' ∷ []))
]

-- `cmdRooms` in hub/cmds.go: the text that it builds
pub cmd_rooms : Rooms → Option Bytes
unfolding write_names list_rooms
cmd_rooms h = write_names h (list_rooms h) (codes "available chat rooms:\n")
