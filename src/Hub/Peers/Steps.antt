-- ===== src/Hub/Peers/Steps.antt =====
-- The steps of the hub, after the calls of hub/hub.go and hub/hub_adc.go, and what they lead to.
use go_dcpp.Adc.Sid.{Sid, sid_eq}
use go_dcpp.Hub.Rooms.{Room, Rooms, in_room}
use go_dcpp.Hub.Rooms as R
use go_dcpp.Hub.Peers.{
  Cid, Peer, Hub, list_peers, reserve_name, unbind_name, accept_peer, leave, leave_cid, bind_cid,
  unbind_cid, accept_cid,
}
use go_dcpp.Hub.Peers.Chat.{enter-IsChat, exit-IsChat}
use go_dcpp.Hub.Peers.Agree.{
  IsAgreed, reserved-IsAgreed, reserved_with-IsAgreed, unbind-IsAgreed, unbind_with-IsAgreed,
  accept-IsAgreed, accept_with-IsAgreed, leave-IsAgreed, leave_cid-IsAgreed, list-IsAgreed,
}
use go_dcpp.Base.{
  ℕ, ◌≡◌, ◌≢◌, true, Option, none, some, List, nat_eq, list_eq, is_some, Bytes, lookup,
}

module _ (to_lower : Bytes → Bytes) where
  -- The steps of the hub: a handshake reserves a name, with a CID if the peer is one of ADC, and gives
  -- it back or is accepted, with a session that no connected peer has; a peer that is connected leaves;
  -- the list is read; a peer enters or leaves a chat room other than the global chat.
  pub data Step : Hub → Hub → Type 0 where
    reserve : {h h' : Hub} (name : Bytes) → reserve_name to_lower name some h ≡ some h' → Step h h'
    reserve_with :
        {h h' : Hub} (name : Bytes) (c : Cid)
        → reserve_name to_lower name (bind_cid c) h ≡ some h'
        → Step h h'
    give_back : {h : Hub} (name : Bytes) → Step h (unbind_name to_lower name (λ x. x) h)
    give_back_with :
        {h : Hub} (name : Bytes) (c : Cid) → Step h (unbind_name to_lower name (unbind_cid c) h)
    accept :
        {h : Hub} (p : Peer) (v : ℕ)
        → is_some (lookup (to_lower p.name) h.reserved) ≡ true
        → lookup p.sid h.by_sid ≡ none
        → p.cid ≡ none
        → Step h (accept_peer to_lower p v (λ x. x) h)
    accept_with :
        {h : Hub} (p : Peer) (c : Cid) (v : ℕ)
        → is_some (lookup (to_lower p.name) h.reserved) ≡ true
        → is_some (lookup c h.logging_cid) ≡ true
        → lookup p.sid h.by_sid ≡ none
        → p.cid ≡ some c
        → Step h (accept_peer to_lower p v (accept_cid c p) h)
    go :
        {h : Hub} (p : Peer) (v : ℕ) (notify : Option (List Peer))
        → lookup p.sid h.by_sid ≡ some p
        → p.cid ≡ none
        → Step h (leave to_lower p v notify h).0
    go_with :
        {h : Hub} (p : Peer) (c : Cid) (v : ℕ)
        → lookup p.sid h.by_sid ≡ some p
        → p.cid ≡ some c
        → Step h (leave_cid to_lower p c v h).0
    look : {h : Hub} → Step h (list_peers h).0
    enter_room :
        {h : Hub} (r p : Sid) → r ≢ h.global → Step h (record h { rooms = R.join r p h.rooms })
    exit_room :
        {h : Hub} (r p : Sid) → r ≢ h.global → Step h (record h { rooms = R.leave r p h.rooms })

  Step-IsAgreed : {h h' : Hub} → Step h h' → IsAgreed to_lower h → IsAgreed to_lower h'
  Step-IsAgreed (reserve name e) v = reserved-IsAgreed to_lower name _ _ e v
  Step-IsAgreed (reserve_with name c e) v = reserved_with-IsAgreed to_lower name c _ _ e v
  Step-IsAgreed {h} (give_back name) v = unbind-IsAgreed to_lower name h v
  Step-IsAgreed {h} (give_back_with name c) v = unbind_with-IsAgreed to_lower name c h v
  Step-IsAgreed {h} (accept p share reserved new no_cid) v =
      accept-IsAgreed to_lower p share h reserved new no_cid v
  Step-IsAgreed {h} (accept_with p c share reserved logging new has_cid) v =
      accept_with-IsAgreed to_lower p c share h reserved logging new has_cid v
  Step-IsAgreed {h} (go p share notify here no_cid) v =
      leave-IsAgreed to_lower p share notify h here no_cid v
  Step-IsAgreed {h} (go_with p c share here has_cid) v =
      leave_cid-IsAgreed to_lower p c share h here has_cid v
  Step-IsAgreed {h} look v = list-IsAgreed to_lower h v
  Step-IsAgreed (enter_room r p other) v = record {
    index = v.index;
    cached = v.cached;
    chat = enter-IsChat v.chat r p other;
  }
  Step-IsAgreed (exit_room r p other) v = record {
    index = v.index;
    cached = v.cached;
    chat = exit-IsChat v.chat r p other;
  }

  -- Any number of steps.
  pub data Run : Hub → Hub → Type 0 where
    stop : {h : Hub} → Run h h
    then_step : {h h' h'' : Hub} → Run h h' → Step h' h'' → Run h h''

  pub Run-IsAgreed : {h h' : Hub} → Run h h' → IsAgreed to_lower h → IsAgreed to_lower h'
  Run-IsAgreed stop v = v
  Run-IsAgreed (then_step r s) v = Step-IsAgreed s (Run-IsAgreed r v)
