-- ===== src/Hub/Adc/Routing/Sources.antt =====
-- Who gets the packets that hub/hub_adc.go routes, and from whom.
use go_dcpp.Adc.Sid.{Sid, sid_eq}
use go_dcpp.Adc.Packet.{
  MsgType, Packet, info, hub, client, broadcast, direct, echo, feature_cast, udp,
}
use go_dcpp.Hub.Commands.{Text, chat, ignored, command, is_command}
use go_dcpp.Hub.Peers.{Peer, Hub, peer_by_sid, new_hub}
use go_dcpp.Hub.Peers.Steps.{Run}
use go_dcpp.Hub.Peers.Reach.{new_hub-IsAgreed}
use go_dcpp.Hub.Peers.Steps.{Run-IsAgreed}
use go_dcpp.Hub.Peers.Listed.{list_peers-peer_by_sid}
use go_dcpp.Hub.Rooms.{room_by_sid}
use go_dcpp.Hub.Adc.Routing.{
  Message, chat_message, search_request, search_result, connect_request, rev_connect_request,
  other_message, Effect, passes, says, Sender, Outside, address_of, is_adc, pass_each, run_text,
  hub_message, adc_hub, broadcast_message, adc_broadcast, room_message, peer_message, adc_direct,
  checked, handle_packet,
}
use go_dcpp.Base.{
  ◌≡◌, refl, sym, ap, subst, inl, inr, Bool, true, false, Option, none, some, List, [], ◌∷◌, ◌==◌,
  nat_eq, ==_iff, list_eq, Bool-cases, Option-cases, Bytes, All, lookup,
}

-- the session that a packet names as its source
abbrev pub source_of : Packet → Option Sid
source_of (broadcast name d id) = some id
source_of (direct name d id target) = some id
source_of (echo name d id target) = some id
source_of (feature_cast name d id features) = some id
source_of p = none

-- An effect that passes a packet to a peer, which is connected and speaks ADC, has `id` as its source.
abbrev pub IsFair : Hub → Sid → Effect → Type 0
IsFair h id (passes q p) =
    (source_of p ≡ some id) × ((r : Peer) × (peer_by_sid q h ≡ some r) × (is_adc r ≡ true))
IsFair h id e = Unit {0}

module _ (to_lower : Bytes → Bytes) (x : Outside) (h : Hub) (reached : Run to_lower new_hub h) where
  pass_each-IsFair :
      (p : Packet) (id : Sid) (l : List Peer)
      → source_of p ≡ some id
      → All (λ q. peer_by_sid q.sid h ≡ some q) l
      → All (IsFair h id) (pass_each p l)
  unfolding pass_each
  pass_each-IsFair p id [] e a = tt
  pass_each-IsFair p id (q ∷ l) e a = elim (Bool-cases (is_adc q)) [
    | inl yes_adc ↦ rw yes_adc ((e, (q, a.0, yes_adc)), pass_each-IsFair p id l e a.1)
    | inr other ↦ rw other (pass_each-IsFair p id l e a.1)
  ]

  text-IsFair :
      (id : Sid) (t : Text) (effects : List Effect)
      → All (IsFair h id) effects
      → All (IsFair h id) (run_text x t effects)
  unfolding run_text
  text-IsFair id chat effects a = a
  text-IsFair id ignored effects a = tt
  text-IsFair id (command cmd args) effects a = (tt, tt)

  hub_message-IsFair : (id : Sid) (m : Option Message) → All (IsFair h id) (hub_message x m)
  unfolding hub_message
  hub_message-IsFair id (some (chat_message text me)) =
      text-IsFair id (is_command x.starts_letter text) [] tt
  hub_message-IsFair id none = tt
  hub_message-IsFair id (some (search_request m)) = tt
  hub_message-IsFair id (some (search_result m)) = tt
  hub_message-IsFair id (some (connect_request p q t)) = tt
  hub_message-IsFair id (some (rev_connect_request p t)) = tt
  hub_message-IsFair id (some other_message) = tt

  broadcast_message-IsFair :
      (id : Sid) (p : Packet) (m : Option Message)
      → source_of p ≡ some id
      → All (IsFair h id) (broadcast_message x p h m)
  unfolding broadcast_message
  broadcast_message-IsFair id p none e = tt
  broadcast_message-IsFair id p (some (chat_message text me)) e =
      text-IsFair id (is_command x.starts_letter text) (says text me ∷ []) (tt, tt)
  broadcast_message-IsFair id p (some (search_request m)) e = (tt, tt)
  broadcast_message-IsFair id p (some (search_result m)) e =
      pass_each-IsFair p id _ e (list_peers-peer_by_sid to_lower h reached)
  broadcast_message-IsFair id p (some (connect_request a b t)) e =
      pass_each-IsFair p id _ e (list_peers-peer_by_sid to_lower h reached)
  broadcast_message-IsFair id p (some (rev_connect_request a t)) e =
      pass_each-IsFair p id _ e (list_peers-peer_by_sid to_lower h reached)
  broadcast_message-IsFair id p (some other_message) e =
      pass_each-IsFair p id _ e (list_peers-peer_by_sid to_lower h reached)

  room_message-IsFair : (id r : Sid) (m : Option Message) → All (IsFair h id) (room_message x r m)
  unfolding room_message
  room_message-IsFair id r (some (chat_message text me)) = (tt, tt)
  room_message-IsFair id r none = tt
  room_message-IsFair id r (some (search_request m)) = tt
  room_message-IsFair id r (some (search_result m)) = tt
  room_message-IsFair id r (some (connect_request p q t)) = tt
  room_message-IsFair id r (some (rev_connect_request p t)) = tt
  room_message-IsFair id r (some other_message) = tt

  peer_message-IsFair :
      (from : Sender) (id : Sid) (p : Packet) (q : Peer) (m : Option Message)
      → source_of p ≡ some id
      → peer_by_sid q.sid h ≡ some q
      → All (IsFair h id) (peer_message x from p q m)
  unfolding peer_message
  peer_message-IsFair from id p q none e f = tt
  peer_message-IsFair from id p q (some (chat_message text me)) e f = (tt, tt)
  peer_message-IsFair from id p q (some (search_request m)) e f = (tt, tt)
  peer_message-IsFair from id p q (some (search_result m)) e f = (tt, tt)
  peer_message-IsFair from id p q (some (connect_request a port t)) e f =
      elim (Option-cases (address_of x from port)) [
        | inl no_address ↦ rw (no_address, All) tt
        | inr (addr, there) ↦ rw (there, All) (tt, tt)
      ]
  peer_message-IsFair from id p q (some (rev_connect_request a t)) e f = (tt, tt)
  peer_message-IsFair from id p q (some other_message) e f = elim (Bool-cases (is_adc q)) [
    | inl yes_adc ↦ rw yes_adc ((e, (q, f, yes_adc)), tt)
    | inr other ↦ rw other tt
  ]

  direct-IsFair :
      (from : Sender) (name : MsgType) (d : Bytes) (id target : Sid)
      → All (IsFair h id) (adc_direct x from name d id target h)
  unfolding adc_direct lookup peer_by_sid
  direct-IsFair from name d id target = elim (Option-cases (peer_by_sid target h)) [
    | inr (q, found) ↦
        let (same, by_name) =
          (Run-IsAgreed to_lower reached (new_hub-IsAgreed to_lower)).index.found target q found in
        rw (found, All)
          (peer_message-IsFair from id (direct name d id target) q (x.decode name d) refl
            (subst (λ t. peer_by_sid t h ≡ some q) same found))
    | inl missing ↦ elim (Option-cases (room_by_sid target h.rooms)) [
      | inl no_room ↦ rw (missing, no_room, All) tt
      | inr (r, there) ↦ rw (missing, there, All) (room_message-IsFair id r (x.decode name d))
    ]
  ]

  checked-IsFair :
      (id : Sid) (b : Bool) (effects : List Effect)
      → (b ≡ true → All (IsFair h id) effects)
      → All (IsFair h id) (checked x b effects).1
  unfolding checked
  checked-IsFair id true effects a = a refl
  checked-IsFair id false effects a = tt

  -- In every state that the hub gets to, whatever a connected peer of ADC sends: a packet that the hub
  -- passes on names the sender's own session as its source, and goes to a peer that is connected and
  -- speaks ADC.
  pub handle_packet-IsFair :
      (from : Sender) (p : Packet) (own : Peer)
      → peer_by_sid from.sid h ≡ some own
      → is_adc own ≡ true
      → All (IsFair h from.sid) (handle_packet x from p h).1
  unfolding handle_packet adc_broadcast adc_hub
  handle_packet-IsFair from (broadcast name d id) own here adc =
      checked-IsFair from.sid (from.sid == id) _ (λ e.
        broadcast_message-IsFair from.sid _ (x.decode name d)
          (ap some (sym ((==_iff from.sid id).0 e))))
  handle_packet-IsFair from (feature_cast name d id features) own here adc =
      checked-IsFair from.sid (from.sid == id) _ (λ e.
        broadcast_message-IsFair from.sid _ (x.decode name d)
          (ap some (sym ((==_iff from.sid id).0 e))))
  handle_packet-IsFair from (echo name d id target) own here adc =
      checked-IsFair from.sid (from.sid == id) _ (λ e.
        let same = (==_iff from.sid id).0 e in
        (
          (ap some (sym same), (own, here, adc)),
          subst (λ t. All (IsFair h from.sid) (adc_direct x from name d t target h)) same
              (direct-IsFair from name d from.sid target),
        ))
  handle_packet-IsFair from (direct name d id target) own here adc =
      checked-IsFair from.sid (from.sid == id) _ (λ e.
        let same = (==_iff from.sid id).0 e in
        subst (λ t. All (IsFair h from.sid) (adc_direct x from name d t target h)) same
          (direct-IsFair from name d from.sid target))
  handle_packet-IsFair from (hub name d) own here adc =
      hub_message-IsFair from.sid (x.decode name d)
  handle_packet-IsFair from (client name d) own here adc = tt
  handle_packet-IsFair from (udp name d cid) own here adc = tt
  handle_packet-IsFair from (info name d) own here adc = tt
