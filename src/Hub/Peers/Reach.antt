-- ===== src/Hub/Peers/Reach.antt =====
-- What holds of the hub in every state that its calls lead to from `NewHub`.
use go_dcpp.Adc.Sid.{Sid, sid_eq}
use go_dcpp.Hub.Rooms.{Rooms, in_room}
use go_dcpp.Hub.Rooms.Membership.{in_room-make_room, heap-make_room, in_room_missing}
use go_dcpp.Hub.Peers.{
  Cid, Peer, Hub, list_peers, peer_by_sid, peer_by_name, name_available, reserve_name, unbind_name,
  accept_peer, leave, forget, to_notify, inc_share, dec_share, invalidate_list, new_hub,
}
use go_dcpp.Hub.Peers.Agree.{IsAgreed, list_peers_lem}
use go_dcpp.Hub.Peers.Steps.{Run, Run-IsAgreed}
use go_dcpp.Base.{
  ℕ, ◌^◌, ◌<◌, ◌≡◌, refl, ap, inl, inr, false, not, ◌&&◌, Option, none, some, List, [], map, arith,
  ◌==◌, nat_eq, ==_iff, list_eq, Bool-cases, is_some, Bytes, lookup, insert, lookup-insert,
  lookup-remove,
}

module _ (to_lower : Bytes → Bytes) where
  in_room-new_hub : (r p : Sid) → in_room r p new_hub.rooms ≡ false
  unfolding new_hub lookup is_some
  in_room-new_hub r p =
      let empty : Rooms = record {
        heap = [];
        by_name = [];
        by_sid = [];
        joined = [];
        last_sid = 0;
      } in
      ground (arith, in_room-make_room [] r p empty, in_room_missing r p empty refl)

  pub new_hub-IsAgreed : IsAgreed to_lower new_hub
  unfolding new_hub lookup is_some
  new_hub-IsAgreed = record {
    index = record {
      unbound = λ k e. refl;
      named = λ k p e. ground arith;
      found = λ s p e. ground arith;
      of_cid = λ c p e. ground arith;
      with_cid = λ s p c e f. ground arith;
      logging_in = λ c e. refl;
    };
    cached = λ l e. ground arith;
    chat = record {
      tracked = record { listed = λ r p e. ground (arith, in_room-new_hub r p) };
      is_there =
          heap-make_room []
            (record { heap = []; by_name = []; by_sid = []; joined = []; last_sid = 0 });
      connected = λ s. in_room-new_hub new_hub.global s;
    };
  }

  -- In every state that the hub gets to, the peer that `PeerByName` finds has that name but for its
  -- case, and `peerBySID` finds it by its own session.
  pub peer_by_name_found :
      (h : Hub) (name : Bytes) (p : Peer)
      → Run to_lower new_hub h
      → peer_by_name to_lower name h ≡ some p
      → (to_lower name ≡ to_lower p.name) × (peer_by_sid p.sid h ≡ some p)
  unfolding peer_by_name peer_by_sid
  peer_by_name_found h name p r e =
      (Run-IsAgreed to_lower r new_hub-IsAgreed).index.named (to_lower name) p e

  -- In every state that the hub gets to, the peer that `peerBySID` finds has that session, and
  -- `PeerByName` finds it by its own name.
  pub peer_by_sid_found :
      (h : Hub) (s : Sid) (p : Peer)
      → Run to_lower new_hub h
      → peer_by_sid s h ≡ some p
      → (s ≡ p.sid) × (peer_by_name to_lower p.name h ≡ some p)
  unfolding peer_by_name peer_by_sid
  peer_by_sid_found h s p r e = (Run-IsAgreed to_lower r new_hub-IsAgreed).index.found s p e

  -- In every state that the hub gets to, two connected peers of ADC with the same CID are the same
  -- peer, and no handshake has that CID bound.
  pub cid_unique :
      (h : Hub) (p q : Peer) (c : Cid)
      → Run to_lower new_hub h
      → peer_by_sid p.sid h ≡ some p
      → peer_by_sid q.sid h ≡ some q
      → p.cid ≡ some c
      → q.cid ≡ some c
      → (p ≡ q) × (is_some (lookup c h.logging_cid) ≡ false)
  unfolding peer_by_sid is_some
  cid_unique h p q c r e f g k =
      let v = Run-IsAgreed to_lower r new_hub-IsAgreed in
      (
        ground (arith, v.index.with_cid p.sid p c e g, v.index.with_cid q.sid q c f k),
        ground (arith, v.index.with_cid p.sid p c e g, v.index.logging_in c),
      )

  -- In every state that the hub gets to, `listPeers` returns the peers that are connected, whatever
  -- was cached, and the members of the global chat are just those peers.
  pub list_peers-in_room :
      (h : Hub)
      → Run to_lower new_hub h
      → ((list_peers h).1 ≡ map (λ (e : Bytes × Peer). e.1) h.by_name)
        × ((s : Sid) → in_room h.global s h.rooms ≡ is_some (peer_by_sid s h))
  unfolding peer_by_sid
  list_peers-in_room h r =
      let v = Run-IsAgreed to_lower r new_hub-IsAgreed in
      (ap (λ (x : Hub × List Peer). x.1) (list_peers_lem to_lower h v.cached), v.chat.connected)

  -- When `reserveName` succeeds, no spelling of the name is available until it is given back, and to
  -- give it back makes available what was available before and nothing else.
  pub reserve_name-unbind_name :
      (name other : Bytes) (h h' : Hub)
      → reserve_name to_lower name some h ≡ some h'
      → (name_available to_lower other h'
          ≡ (name_available to_lower other h && not (to_lower name == to_lower other)))
        × (name_available to_lower other (unbind_name to_lower name (λ x. x) h')
            ≡ name_available to_lower other h)
  unfolding reserve_name name_available unbind_name is_some
  reserve_name-unbind_name name other h h' e = elim (Bool-cases (name_available to_lower name h)) [
    | inl free ↦
        let made : h' ≡ record h { reserved = insert (to_lower name) tt h.reserved } =
          ground arith in
        rw made (
          ground (
            arith,
            lookup-insert (to_lower name) (to_lower other) tt h.reserved,
            lookup-remove (to_lower name) (to_lower other) (insert (to_lower name) tt h.reserved),
            ==_iff (to_lower name) (to_lower other),
          ))
    | inr taken ↦ ground arith
  ]

  -- When a peer is accepted and then leaves with the share that it had, the share of the hub is what it was.
  pub share-leave :
      (p : Peer) (v : ℕ) (notify : Option (List Peer)) (h : Hub)
      → h.share < 2 ^ 64
      → (leave to_lower p v notify (accept_peer to_lower p v (λ x. x) h)).0.share ≡ h.share
  unfolding leave accept_peer forget to_notify list_peers dec_share inc_share invalidate_list
  share-leave p v none h lt = omega arith
  share-leave p v (some l) h lt = omega arith
