-- ===== src/Hub/Rooms/Naming.antt =====
-- The names of the rooms: creation and lookup in hub/room.go, and the list of `cmdRooms` in
-- hub/cmds.go.
use go_dcpp.Adc.Sid.{Sid, sid_eq, sid_from_int}
use go_dcpp.Hub.Rooms.{
  Room, Rooms, ok, next_sid, make_room, has_hash, new_room, room, room_by_sid, in_room, list_rooms,
  name_of, write_names, cmd_rooms,
}
use go_dcpp.Base.{
  ◌+◌, ◌%◌, ◌^◌, ◌≡◌, refl, true, not, ◌&&◌, Option, none, some, List, [], ◌∷◌, ◌++◌, map, arith,
  if◌then◌else◌, ◌==◌, nat_eq, ==_iff, list_eq, is_some, Bytes, length, replicate, Map, lookup,
  lookup-insert,
}

-- When `NewRoom` succeeds, the name starts with a hash and no room had it; the room is then found by
-- its name and by its session, every other one as before, and nobody is in it.
pub room-new_room :
    (name other : Bytes) (r s p : Sid) (h h' : Rooms)
    → new_room name h ≡ ok (h', r)
    → (has_hash name ≡ true)
      × (room name h ≡ none)
      × (room other h' ≡ (if name == other then some r else room other h))
      × (room_by_sid s h' ≡ (if r == s then some r else room_by_sid s h))
      × (in_room s p h' ≡ (in_room s p h && not (r == s)))
unfolding new_room room room_by_sid make_room next_sid in_room is_some lookup
room-new_room name other r s p h h' e =
    let id = sid_from_int ((h.last_sid + 1) % 2 ^ 32) in
    let made : Room = record { name = name; peers = [] } in
    (
      ground arith,
      ground arith,
      ground (arith, lookup-insert name other id h.by_name),
      ground (arith, lookup-insert id s id h.by_sid),
      ground (arith, lookup-insert id s made h.heap, ==_iff id s),
    )

list_rooms-starts :
    (h : Rooms) (e : Bytes × Sid) (m : Map Bytes Sid)
    → h.by_name ≡ e ∷ m
    → (l : List (Option Sid)) × (list_rooms h ≡ none ∷ l)
unfolding list_rooms
list_rooms-starts h e m eq =
    rw eq (replicate (length m) none ++ map (λ (x : Bytes × Sid). some x.1) (e ∷ m), refl)

cmd_rooms_nil :
    (h : Rooms) (e : Bytes × Sid) (m : Map Bytes Sid) → h.by_name ≡ e ∷ m → cmd_rooms h ≡ none
unfolding cmd_rooms write_names name_of
cmd_rooms_nil h e m eq = let (l, starts) = list_rooms-starts h e m eq in rw starts refl

lookup_nonempty :
    (name : Bytes) (r : Sid) (m : Map Bytes Sid)
    → lookup name m ≡ some r
    → (e : Bytes × Sid) × (l : Map Bytes Sid) × (m ≡ e ∷ l)
unfolding lookup
lookup_nonempty name r [] e = ground arith
lookup_nonempty name r (x ∷ m) e = (x, m, refl)

-- When some room has a name, `cmdRooms` panics: it asks for the name of a nil room.
pub cmd_rooms_panics :
    (name : Bytes) (r : Sid) (h : Rooms) → room name h ≡ some r → cmd_rooms h ≡ none
unfolding room
cmd_rooms_panics name r h e =
    let (x, m, eq) = lookup_nonempty name r h.by_name e in cmd_rooms_nil h x m eq
