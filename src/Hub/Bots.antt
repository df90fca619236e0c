-- ===== src/Hub/Bots.antt =====
-- Bots: hub/bots.go, with `closeWith` of hub/peer.go. What is sent to the other peers is left out.
pub mod Closing
mod Tests
use go_dcpp.Adc.Sid.{Sid}
use go_dcpp.Hub.Peers.{
  Peer, Hub, list_peers, name_available, reserve_name, accept_peer, leave_cid, Cid,
}
use go_dcpp.Hub.Users.Names.{NameError, Strings, validate_user_name}
use go_dcpp.Base.{
  ℕ, Bool, true, false, not, Option, none, some, List, [], ◌∷◌, if◌then◌else◌, Bytes,
}

pub data Made : Type 0 where
  bad_name : NameError → Made
  nick_taken : Made
  made : Peer → Hub → Made

module _ (to_lower : Bytes → Bytes) (strings : Strings) where
  pub bot_peer : Bytes → Sid → Peer
  bot_peer name session = record { sid = session; name = name; cid = none }

  -- the callback of `newBot`, which takes the list of the peers to notify
  keep_list : Hub → Hub
  keep_list h = (list_peers h).0

  reserved : Bytes → Sid → Option Hub → Made
  unfolding bot_peer keep_list
  reserved name session none = nick_taken
  reserved name session (some h) =
      made (bot_peer name session) (accept_peer to_lower (bot_peer name session) 0 keep_list h)

  validated : Bytes → Sid → Hub → Option NameError → Made
  unfolding reserved
  validated name session h (some e) = bad_name e
  validated name session h none =
      if not (name_available to_lower name h)
      then nick_taken
      else reserved name session (reserve_name to_lower name some h)

  -- `newBot`, given the session that `newBasePeer` takes
  pub new_bot : Bytes → Sid → Hub → Made
  unfolding validated
  new_bot name session h = validated name session h (validate_user_name strings name)

module _ {ℓ κ} {S : Type ℓ} {E : Type κ} where
  -- for _, fnc := range closers { ... }; the error is the last one
  unfoldable pub run_closers : List (S → S × Option E) → S → Option E → S × Option E
  run_closers [] s e = (s, e)
  run_closers (fnc ∷ closers) s e =
      let (s', failed) = fnc s in
      run_closers closers s' (elim failed [ none ↦ e | some e' ↦ some e' ])

  -- `closeWith`: whether the peer is offline, the state that the closers change, and the error
  unfoldable pub close_with : List (S → S × Option E) → Bool → S → (Bool × S) × Option E
  unfolding run_closers
  close_with closers true s = ((true, s), none)
  close_with closers false s = let (s', e) = run_closers closers s none in ((true, s'), e)

-- errors of connections, as numbers
abbrev pub ConnError : Type 0
ConnError = ℕ

-- `Bot.Close`
pub bot_close : Bool → Hub → (Bool × Hub) × Option ConnError
unfolding close_with
bot_close offline h = close_with [] offline h

-- `adcPeer.Close`, given the error of closing the connection; `v` is the share of the peer
unfoldable pub adc_close :
    (Bytes → Bytes)
    → Peer
    → Cid
    → ℕ
    → Option ConnError
    → Bool
    → Hub
    → (Bool × Hub) × Option ConnError
unfolding close_with
adc_close to_lower p c v conn_error offline h =
    close_with ((λ s. (s, conn_error)) ∷ (λ s. ((leave_cid to_lower p c v s).0, none)) ∷ []) offline
      h
