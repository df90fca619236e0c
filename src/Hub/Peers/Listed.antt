-- ===== src/Hub/Peers/Listed.antt =====
-- The list of the peers that hub/hub.go passes around: each peer in it is connected.
use go_dcpp.Adc.Sid.{sid_eq}
use go_dcpp.Hub.Peers.{
  Cid, Peer, Hub, list_peers, peer_by_sid, reserve_name, unbind_name, accept_peer, leave, leave_cid,
  forget, to_notify, inc_share, dec_share, invalidate_list, bind_cid, unbind_cid, accept_cid,
  new_hub,
}
use go_dcpp.Hub.Peers.Steps.{
  Step, reserve, reserve_with, give_back, give_back_with, accept, accept_with, go, go_with, look,
  enter_room, exit_room, Run, Run-IsAgreed, stop, then_step,
}
use go_dcpp.Hub.Peers.Reach.{new_hub-IsAgreed, list_peers-in_room}
use go_dcpp.Base.{
  ℕ, ◌≡◌, refl, sym, ap, subst, inl, inr, Option, none, some, List, [], ◌∷◌, map, arith, nat_eq,
  ==_iff, ==_refl, list_eq, Option-cases, Bytes, All, Map, lookup, insert, remove, IsMap,
  insert-IsMap, remove-IsMap,
}

list_peers-by_name : (h : Hub) → (list_peers h).0.by_name ≡ h.by_name
unfolding list_peers
list_peers-by_name h = ground arith

module _ (to_lower : Bytes → Bytes) where
  reserve_name-by_name :
      (name : Bytes) (bind : Hub → Option Hub) (h h' : Hub)
      → ((a b : Hub) → bind a ≡ some b → b.by_name ≡ a.by_name)
      → reserve_name to_lower name bind h ≡ some h'
      → h'.by_name ≡ h.by_name
  unfolding reserve_name
  reserve_name-by_name name bind h h' keeps e = elim (Option-cases (bind h)) [
    | inl failed ↦ ground arith
    | inr (b, bound) ↦ ground (arith, keeps h b bound)
  ]

  bind_cid-by_name : (c : Cid) (a b : Hub) → bind_cid c a ≡ some b → b.by_name ≡ a.by_name
  unfolding bind_cid
  bind_cid-by_name c a b e = ground arith

  leave-by_name :
      (p : Peer) (v : ℕ) (notify : Option (List Peer)) (h : Hub)
      → (leave to_lower p v notify h).0.by_name ≡ remove (to_lower p.name) h.by_name
  unfolding leave forget to_notify dec_share invalidate_list
  leave-by_name p v none h = list_peers-by_name (forget to_lower p h)
  leave-by_name p v (some l) h = refl

  leave_cid-by_name :
      (p : Peer) (c : Cid) (v : ℕ) (h : Hub)
      → (leave_cid to_lower p c v h).0.by_name ≡ remove (to_lower p.name) h.by_name
  unfolding leave_cid forget dec_share invalidate_list
  leave_cid-by_name p c v h =
      list_peers-by_name (record (forget to_lower p h) { by_cid = remove c h.by_cid })

  pub leave_cid-by_sid :
      (p : Peer) (c : Cid) (v : ℕ) (h : Hub)
      → (leave_cid to_lower p c v h).0.by_sid ≡ remove p.sid h.by_sid
  unfolding leave_cid forget dec_share invalidate_list list_peers
  leave_cid-by_sid p c v h = refl

  accept-by_name :
      (p : Peer) (c : Cid) (v : ℕ) (h : Hub)
      → (accept_peer to_lower p v (accept_cid c p) h).by_name ≡ insert (to_lower p.name) p h.by_name
  unfolding accept_peer accept_cid invalidate_list inc_share
  accept-by_name p c v h = ap (insert (to_lower p.name) p) (list_peers-by_name _)

  Step-IsMap : {h h' : Hub} → Step to_lower h h' → IsMap h.by_name → IsMap h'.by_name
  unfolding unbind_name unbind_cid accept_peer invalidate_list inc_share
  Step-IsMap {h} {h'} (reserve name e) m =
      subst IsMap (sym (reserve_name-by_name name some h h' (λ a b f. ground arith) e)) m
  Step-IsMap {h} {h'} (reserve_with name c e) m =
      subst IsMap (sym (reserve_name-by_name name (bind_cid c) h h' (bind_cid-by_name c) e)) m
  Step-IsMap (give_back name) m = m
  Step-IsMap (give_back_with name c) m = m
  Step-IsMap {h} (accept p v _ _ _) m = insert-IsMap (to_lower p.name) p h.by_name m
  Step-IsMap {h} (accept_with p c v _ _ _ _) m =
      subst IsMap (sym (accept-by_name p c v h)) (insert-IsMap (to_lower p.name) p h.by_name m)
  Step-IsMap {h} (go p v notify _ _) m =
      subst IsMap (sym (leave-by_name p v notify h)) (remove-IsMap (to_lower p.name) h.by_name m)
  Step-IsMap {h} (go_with p c v _ _) m =
      subst IsMap (sym (leave_cid-by_name p c v h)) (remove-IsMap (to_lower p.name) h.by_name m)
  Step-IsMap {h} look m = subst IsMap (sym (list_peers-by_name h)) m
  Step-IsMap (enter_room r p _) m = m
  Step-IsMap (exit_room r p _) m = m

  Run-IsMap : {h h' : Hub} → Run to_lower h h' → IsMap h.by_name → IsMap h'.by_name
  Run-IsMap stop m = m
  Run-IsMap (then_step r e) m = Step-IsMap e (Run-IsMap r m)

  values-All :
      (P : Peer → Type 0) (m : Map Bytes Peer)
      → IsMap m
      → ((k : Bytes) (p : Peer) → lookup k m ≡ some p → P p)
      → All P (map (λ (e : Bytes × Peer). e.1) m)
  unfolding lookup
  values-All P [] unique holds = tt
  values-All P ((k, p) ∷ m) unique holds = (
    holds k p (ground (arith, ==_refl k)),
    values-All P m unique.1 (λ j q e. holds j q (ground (arith, ==_iff k j, unique.0))),
  )

  -- In every state that the hub gets to, `peerBySID` finds each peer of the list by its own session.
  pub list_peers-peer_by_sid :
      (h : Hub) → Run to_lower new_hub h → All (λ p. peer_by_sid p.sid h ≡ some p) (list_peers h).1
  unfolding new_hub peer_by_sid
  list_peers-peer_by_sid h r =
      subst (All (λ p. peer_by_sid p.sid h ≡ some p)) (sym (list_peers-in_room to_lower h r).0) (
        values-All (λ p. peer_by_sid p.sid h ≡ some p) h.by_name (Run-IsMap r tt)
          (λ k p e. ((Run-IsAgreed to_lower r (new_hub-IsAgreed to_lower)).index.named k p e).1))
