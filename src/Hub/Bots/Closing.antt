-- ===== src/Hub/Bots/Closing.antt =====
-- Bots that come and do not go, and what closing a peer twice does: hub/bots.go and hub/peer.go.
use go_dcpp.Adc.Sid.{Sid, sid_eq}
use go_dcpp.Hub.Peers.{
  Peer, Hub, list_peers, name_available, reserve_name, accept_peer, Cid, peer_by_name, peer_by_sid,
  invalidate_list, inc_share,
}
use go_dcpp.Hub.Peers.Steps.{reserve, accept, go_with, Run, stop, then_step}
use go_dcpp.Hub.Users.Names.{NameError, Strings, validate_user_name}
use go_dcpp.Hub.Bots.{
  made, bot_peer, keep_list, reserved, validated, new_bot, run_closers, close_with, ConnError,
  bot_close, adc_close,
}
use go_dcpp.Base.{
  ℕ, ◌≡◌, refl, sym, ap, subst, ◌∙◌, inl, inr, Bool, true, false, Option, none, some, List, arith,
  nat_eq, ==_refl, list_eq, Bool-cases, Option-cases, is_some, Bytes, lookup, lookup-insert,
}

module _ {ℓ κ} {S : Type ℓ} {E : Type κ} where
  closed_twice :
      (closers : List (S → S × Option E)) (offline : Bool) (s : S)
      → close_with closers (close_with closers offline s).0.0 (close_with closers offline s).0.1
        ≡ ((close_with closers offline s).0, none)
  unfolding close_with
  closed_twice closers true s = refl
  closed_twice closers false s = refl

-- Closing a peer of ADC a second time changes nothing; the first time, a peer that is connected leaves the
-- hub by a call of the hub, with the error that closing the connection gives.
pub adc_close-Run :
    (to_lower : Bytes → Bytes) (p : Peer) (c : Cid) (v : ℕ) (e : Option ConnError) (h : Hub)
    → lookup p.sid h.by_sid ≡ some p
    → p.cid ≡ some c
    → Run to_lower h (adc_close to_lower p c v e false h).0.1
      × ((adc_close to_lower p c v e false h).1 ≡ e)
      × (adc_close to_lower p c v e
            (adc_close to_lower p c v e false h).0.0
            (adc_close to_lower p c v e false h).0.1
          ≡ ((adc_close to_lower p c v e false h).0, none))
unfolding adc_close close_with run_closers
adc_close-Run to_lower p c v none h here has_cid =
    (then_step stop (go_with p c v here has_cid), refl, refl)
adc_close-Run to_lower p c v (some e) h here has_cid =
    (then_step stop (go_with p c v here has_cid), refl, refl)

module _ (to_lower : Bytes → Bytes) (strings : Strings) where
  accept-keep_list :
      (p : Peer) (h : Hub)
      → accept_peer to_lower p 0 (keep_list to_lower strings) h
        ≡ accept_peer to_lower p 0 (λ x. x) h
  unfolding accept_peer keep_list list_peers invalidate_list
  accept-keep_list p h = elim (Option-cases h.cur_list) [
    | inl no_list ↦ ground arith
    | inr (l, there) ↦ ground arith
  ]

  -- how `newBot` ends well
  record IsMade (name : Bytes) (session : Sid) (h : Hub) (p : Peer) (h' : Hub) : Type 0 where
    bound : Hub
    has_name : reserve_name to_lower name some h ≡ some bound
    peer_is : p ≡ bot_peer to_lower strings name session
    hub_is : h' ≡ accept_peer to_lower (bot_peer to_lower strings name session) 0 (λ x. x) bound

  reserved-IsMade :
      (name : Bytes) (session : Sid) (h : Hub) (r : Option Hub) (p : Peer) (h' : Hub)
      → reserve_name to_lower name some h ≡ r
      → reserved to_lower strings name session r ≡ made p h'
      → IsMade name session h p h'
  unfolding reserved
  reserved-IsMade name session h none p h' f e = ground arith
  reserved-IsMade name session h (some b) p h' f e = record {
    bound = b;
    has_name = f;
    peer_is = ground arith;
    hub_is = ground (arith, accept-keep_list (bot_peer to_lower strings name session) b);
  }

  validated-IsMade :
      (name : Bytes) (session : Sid) (h : Hub) (v : Option NameError) (p : Peer) (h' : Hub)
      → validated to_lower strings name session h v ≡ made p h'
      → IsMade name session h p h'
  unfolding validated
  validated-IsMade name session h (some n) p h' = λ e. ground arith
  validated-IsMade name session h none p h' = elim (Bool-cases (name_available to_lower name h)) [
    | inl free ↦
        rw free (reserved-IsMade name session h (reserve_name to_lower name some h) p h' refl)
    | inr taken ↦ rw taken (λ e. ground arith)
  ]

  bound-fields :
      (name : Bytes) (h b : Hub)
      → reserve_name to_lower name some h ≡ some b
      → (is_some (lookup (to_lower name) b.reserved) ≡ true) × (b.by_sid ≡ h.by_sid)
  unfolding reserve_name is_some
  bound-fields name h b e =
      ground (
        arith,
        lookup-insert (to_lower name) (to_lower name) tt h.reserved,
        ==_refl (to_lower name),
      )

  accepted_found :
      (p : Peer) (b : Hub)
      → (peer_by_name to_lower p.name (accept_peer to_lower p 0 (λ x. x) b) ≡ some p)
        × (peer_by_sid p.sid (accept_peer to_lower p 0 (λ x. x) b) ≡ some p)
  unfolding peer_by_name peer_by_sid accept_peer invalidate_list inc_share
  accepted_found p b = (
    rw (lookup-insert (to_lower p.name) (to_lower p.name) p b.by_name, ==_refl (to_lower p.name)),
    rw (lookup-insert p.sid p.sid p b.by_sid, ==_refl p.sid),
  )

  -- A bot that `newBot` makes has come to the hub by calls of the hub, if its session is new, and its name
  -- and its session find it.
  pub new_bot-Run :
      (name : Bytes) (session : Sid) (h : Hub) (p : Peer) (h' : Hub)
      → lookup session h.by_sid ≡ none
      → new_bot to_lower strings name session h ≡ made p h'
      → Run to_lower h h'
        × (peer_by_name to_lower name h' ≡ some p)
        × (peer_by_sid session h' ≡ some p)
  unfolding new_bot bot_peer
  new_bot-Run name session h p h' new e =
      let m = validated-IsMade name session h (validate_user_name strings name) p h' e in
      let bot = bot_peer to_lower strings name session in
      let (has_name, same_sids) = bound-fields name h m.bound m.has_name in
      let (by_name, by_sid) = accepted_found bot m.bound in
      (
        subst (Run to_lower h) (sym m.hub_is) (
            then_step (then_step stop (reserve name m.has_name))
              (accept bot 0 has_name (ap (λ sids. lookup session sids) same_sids ∙ new) refl)),
        ap (peer_by_name to_lower name) m.hub_is ∙ by_name ∙ ap some (sym m.peer_is),
        ap (peer_by_sid session) m.hub_is ∙ by_sid ∙ ap some (sym m.peer_is),
      )

  -- `Bot.Close` leaves the hub as it is: the bot is still found by its name, and the name is
  -- not available to others.
  pub bot_close_stays :
      (name : Bytes) (session : Sid) (h : Hub) (p : Peer) (h' : Hub)
      → lookup session h.by_sid ≡ none
      → new_bot to_lower strings name session h ≡ made p h'
      → ((bot_close false h').0 ≡ (true, h'))
        × (peer_by_name to_lower name (bot_close false h').0.1 ≡ some p)
        × (name_available to_lower name (bot_close false h').0.1 ≡ false)
  unfolding bot_close close_with run_closers name_available peer_by_name is_some
  bot_close_stays name session h p h' new e =
      let (run, by_name, by_sid) = new_bot-Run name session h p h' new e in
      (refl, by_name, ground arith)
