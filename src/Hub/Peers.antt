-- ===== src/Hub/Peers.antt =====
-- The peers of the hub: `Hub.peers` of hub/hub.go with `adcPeers` of hub/hub_adc.go. `to_lower` is
-- strings.ToLower. A call runs whole, under the lock that it takes. Left out are the metrics, the
-- log and what is sent to the peers.
pub mod Index
pub mod Chat
pub mod Agree
pub mod Steps
pub mod Reach
pub mod Listed
pub mod Tests
use go_dcpp.Adc.Sid.{Sid, sid_eq}
use go_dcpp.Hub.Rooms.{Rooms, join, leave_rooms, make_room}
use go_dcpp.Base.{
  ℕ, ◌+◌, ◌-◌, ◌/◌, ◌%◌, ◌^◌, Bool, not, ◌&&◌, ◌||◌, Option, none, some, List, [], map,
  if◌then◌else◌, nat_eq, list_eq, is_some, Bytes, Map, lookup, insert, remove,
}

-- adc.CID
abbrev pub Cid : Type 0
Cid = Bytes

-- `Peer`: what the hub keeps its peers by. Only a peer of ADC has a CID.
pub record Peer : Type 0 where
  pub sid : Sid
  pub name : Bytes
  pub cid : Option Cid

pub record Hub : Type 0 where
  pub reserved : Map Bytes (Unit {0})
  pub by_name : Map Bytes Peer
  pub by_sid : Map Sid Peer
  pub logging_cid : Map Cid (Unit {0})
  pub by_cid : Map Cid Peer
  -- `curList`; `none` is nil
  pub cur_list : Option (List Peer)
  -- `share`, an int64 in two's complement
  pub share : ℕ
  pub rooms : Rooms
  -- `globalChat`
  pub global : Sid

-- `incShare`
unfoldable pub inc_share : ℕ → Hub → Hub
inc_share v h = record h { share = (h.share + v / 1048576) % 2 ^ 64 }

-- `decShare`
unfoldable pub dec_share : ℕ → Hub → Hub
dec_share v h = record h { share = (h.share + (2 ^ 64 - v / 1048576 % 2 ^ 64)) % 2 ^ 64 }

-- `listPeers`, and `cacheList`
unfoldable pub list_peers : Hub → Hub × List Peer
list_peers h = elim h.cur_list [
  | some l ↦ (h, l)
  | none ↦ let l = map (λ (e : Bytes × Peer). e.1) h.by_name in (record h { cur_list = some l }, l)
]

-- `invalidateList`
unfoldable pub invalidate_list : Hub → Hub
invalidate_list h = record h { cur_list = none }

-- `peerBySID`
unfoldable pub peer_by_sid : Sid → Hub → Option Peer
peer_by_sid id h = lookup id h.by_sid

module _ (to_lower : Bytes → Bytes) where
  -- `PeerByName`
  unfoldable pub peer_by_name : Bytes → Hub → Option Peer
  peer_by_name name h = lookup (to_lower name) h.by_name

  -- `nameAvailable`, without a callback
  unfoldable pub name_available : Bytes → Hub → Bool
  name_available name h =
      not (is_some (lookup (to_lower name) h.reserved))
      && not (is_some (lookup (to_lower name) h.by_name))

  -- `reserveName`; `bind` is `none` when the callback returns false
  unfoldable pub reserve_name : Bytes → (Hub → Option Hub) → Hub → Option Hub
  unfolding name_available
  reserve_name name bind h =
      if name_available name h
      then elim (bind h) [
        | none ↦ none
        | some h' ↦ some (record h' { reserved = insert (to_lower name) tt h'.reserved })
      ]
      else none

  -- the function that `reserveName` returns
  unfoldable pub unbind_name : Bytes → (Hub → Hub) → Hub → Hub
  unbind_name name unbind h = unbind (record h { reserved = remove (to_lower name) h.reserved })

  -- `acceptPeer`; `v` is the share of the peer
  unfoldable pub accept_peer : Peer → ℕ → (Hub → Hub) → Hub → Hub
  unfolding invalidate_list inc_share
  accept_peer p v pre h =
      let h1 = pre (record h { reserved = remove (to_lower p.name) h.reserved }) in
      let h2 = invalidate_list (record h1 {
        by_sid = insert p.sid p h1.by_sid;
        by_name = insert (to_lower p.name) p h1.by_name;
      }) in
      inc_share v (record h2 { rooms = join h2.global p.sid h2.rooms })

  -- `leave` and `leaveCID` up to the lists of the CIDs and the peers to notify
  unfoldable pub forget : Peer → Hub → Hub
  unfolding invalidate_list
  forget p h =
      invalidate_list
        (record h { by_name = remove (to_lower p.name) h.by_name; by_sid = remove p.sid h.by_sid })

  -- if notify == nil { notify = h.listPeers() }
  unfoldable pub to_notify : Option (List Peer) → Hub → Hub × List Peer
  to_notify none h = list_peers h
  to_notify (some l) h = (h, l)

  -- `Hub.leave`, given the list of the peers to notify, nil for all of them, and the share of the
  -- peer; the second component is who is notified
  unfoldable pub leave : Peer → ℕ → Option (List Peer) → Hub → Hub × List Peer
  unfolding forget to_notify dec_share
  leave p v notify h =
      let h1 = forget p h in
      let (h2, l) = to_notify notify h1 in
      (dec_share v (record h2 { rooms = leave_rooms h2.global p.sid h2.rooms }), l)

  -- `Hub.leaveCID`
  pub leave_cid : Peer → Cid → ℕ → Hub → Hub × List Peer
  unfolding forget dec_share
  leave_cid p c v h =
      let h1 = forget p h in
      let (h2, l) = list_peers (record h1 { by_cid = remove c h1.by_cid }) in
      (dec_share v (record h2 { rooms = leave_rooms h2.global p.sid h2.rooms }), l)

-- the callbacks of `adcStageIdentity`: the CID is bound with the name
unfoldable pub bind_cid : Cid → Hub → Option Hub
bind_cid c h =
    if is_some (lookup c h.logging_cid) || is_some (lookup c h.by_cid)
    then none
    else some (record h { logging_cid = insert c tt h.logging_cid })

unfoldable pub unbind_cid : Cid → Hub → Hub
unbind_cid c h = record h { logging_cid = remove c h.logging_cid }

unfoldable pub accept_cid : Cid → Peer → Hub → Hub
accept_cid c p h =
    (list_peers (record h { logging_cid = remove c h.logging_cid; by_cid = insert c p h.by_cid })).0

-- the peers and rooms of `NewHub`, before the bot of the hub is accepted
unfoldable pub new_hub : Hub
new_hub =
    let (rooms, global) =
      make_room [] (record { heap = []; by_name = []; by_sid = []; joined = []; last_sid = 0 }) in
    record {
      reserved = [];
      by_name = [];
      by_sid = [];
      logging_cid = [];
      by_cid = [];
      cur_list = none;
      share = 0;
      rooms = rooms;
      global = global;
    }
