-- ===== src/Hub/Peers/Tests.antt =====
-- A hub at which the theorems on its peers are applied: a peer of ADC connects.
use go_dcpp.Adc.Sid.{Sid, sid, sid_eq}
use go_dcpp.Hub.Rooms.{in_room}
use go_dcpp.Hub.Peers.{
  Cid, Peer, Hub, list_peers, peer_by_sid, peer_by_name, name_available, reserve_name, accept_peer,
  bind_cid, accept_cid, new_hub, invalidate_list, inc_share,
}
use go_dcpp.Hub.Peers.Steps.{reserve_with, accept_with, Run, stop, then_step}
use go_dcpp.Hub.Peers.Reach.{peer_by_name_found, cid_unique, list_peers-in_room}
use go_dcpp.Base.{
  ◌+◌, ◌≡◌, refl, true, false, ◌&&◌, none, some, [], ◌∷◌, map, arith, leb, if◌then◌else◌, nat_eq,
  ==_iff, list_eq, is_some, Bytes, codes, replicate, lookup, insert, remove,
}

-- strings.ToLower of ASCII
abbrev pub lower : Bytes → Bytes
lower s = map (λ c. if leb 65 c && leb c 90 then c + 32 else c) s

abbrev pub bob_cid : Cid
bob_cid = replicate 24 7

abbrev pub bob : Peer
bob = record { sid = sid b'A' b'A' b'A' b'C'; name = codes "Bob"; cid = some bob_cid }

abbrev reserved_hub : Hub
reserved_hub = record new_hub {
  reserved = (codes "bob", tt) ∷ [];
  logging_cid = (bob_cid, tt) ∷ [];
}

reserve_bob : reserve_name lower (codes "Bob") (bind_cid bob_cid) new_hub ≡ some reserved_hub
unfolding reserve_name name_available bind_cid new_hub lookup insert is_some
reserve_bob = refl

abbrev pub bob_hub : Hub
bob_hub = accept_peer lower bob 3145728 (accept_cid bob_cid bob) reserved_hub

no_bob_yet : lookup bob.sid new_hub.by_sid ≡ none
unfolding new_hub lookup
no_bob_yet = refl

bob_reserved :
    (is_some (lookup (codes "bob") reserved_hub.reserved) ≡ true)
    × (is_some (lookup bob_cid reserved_hub.logging_cid) ≡ true)
unfolding lookup is_some
bob_reserved = (refl, refl)

pub bob_connects : Run lower new_hub bob_hub
bob_connects =
    then_step (then_step stop (reserve_with (codes "Bob") bob_cid reserve_bob))
      (accept_with bob bob_cid 3145728 bob_reserved.0 bob_reserved.1 no_bob_yet refl)

pub find_bob :
    (peer_by_name lower (codes "BOB") bob_hub ≡ some bob) × (peer_by_sid bob.sid bob_hub ≡ some bob)
unfolding peer_by_name peer_by_sid accept_peer accept_cid list_peers new_hub invalidate_list
    inc_share lookup insert remove
find_bob = (refl, ground (arith, ==_iff bob.sid bob.sid))

peer_by_name_found_example :
    (lower (codes "BOB") ≡ lower bob.name) × (peer_by_sid bob.sid bob_hub ≡ some bob)
peer_by_name_found_example =
    peer_by_name_found lower bob_hub (codes "BOB") bob bob_connects find_bob.0

cid_unique_example : (bob ≡ bob) × (is_some (lookup bob_cid bob_hub.logging_cid) ≡ false)
cid_unique_example =
    cid_unique lower bob_hub bob bob bob_cid bob_connects find_bob.1 find_bob.1 refl refl

list_peers-in_room_example :
    ((list_peers bob_hub).1 ≡ map (λ (e : Bytes × Peer). e.1) bob_hub.by_name)
    × ((s : Sid) → in_room bob_hub.global s bob_hub.rooms ≡ is_some (peer_by_sid s bob_hub))
list_peers-in_room_example = list_peers-in_room lower bob_hub bob_connects
