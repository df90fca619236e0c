-- ===== src/Hub/Adc/Login/Locked.antt =====
-- A handshake of hub/hub_adc.go whose last flush fails.
use go_dcpp.Adc.Sid.{sid_eq}
use go_dcpp.Hub.Peers.{Hub, list_peers, name_available, reserve_name, bind_cid, peer_by_name}
use go_dcpp.Hub.Users.Names.{validate_user_name}
use go_dcpp.Hub.Adc.Line.{
  message, io_error, nick_taken, Action, write, flush, switch_zlib, hub_info, status_ok, Line, act,
  act_all,
}
use go_dcpp.Hub.Adc.Login.{
  Info, Setting, Client, Others, stage_verify, greetings, finish, listed, informed, verified,
  refuse, bound, named, stage_identity,
}
use go_dcpp.Hub.Adc.Login.Outcomes.{finish_lost}
use go_dcpp.Hub.Adc.Login.Traces.{alone}
use go_dcpp.Base.{
  ◌≡◌, refl, ◌∙◌, Bool, true, false, ◌||◌, none, some, List, [], ◌∷◌, ◌++◌, arith, ◌==◌, nat_eq,
  ==_iff, list_eq, is_some, length, replicate, lookup,
}

act_succeeds :
    (a : Action) (l : Line) (oks : List Bool)
    → l.oks ≡ true ∷ oks
    → (l' : Line) × (act a l ≡ (l', true)) × (l'.oks ≡ oks)
unfolding act
act_succeeds (write m) l oks e = (record { oks = oks; sent = l.sent ++ m ∷ [] }, ground arith, refl)
act_succeeds switch_zlib l oks e = (record l { oks = oks }, ground arith, refl)
act_succeeds flush l oks e = (record l { oks = oks }, ground arith, refl)

-- As many actions as the connection still takes are taken.
act_all_succeeds :
    (actions : List Action) (l : Line) (oks : List Bool)
    → l.oks ≡ replicate (length actions) true ++ oks
    → (l' : Line) × (act_all actions l ≡ (l', true)) × (l'.oks ≡ oks)
unfolding act_all
act_all_succeeds [] l oks e = (l, refl, e)
act_all_succeeds (a ∷ more) l oks e =
    let (l1, first, rest) = act_succeeds a l (replicate (length more) true ++ oks) e in
    let (l2, all, left) = act_all_succeeds more l1 oks rest in
    (l2, rw (first, act_all) (rw first all), left)

finish_locked :
    (s : Setting) (c again : Client) (o : Others) (u : Info) (h : Hub) (l l' : Line)
    (oks : List Bool)
    → l.oks ≡ false ∷ oks
    → u.id ≡ s.hash u.pid
    → validate_user_name s.strings u.name ≡ none
    → ((finish s c u h l).failure ≡ some io_error)
      × ((stage_identity s again o (message u) (finish s c u h l).hub l').failure ≡ some nick_taken)
unfolding stage_identity named refuse name_available peer_by_name is_some
finish_locked s c again o u h l l' oks e known valid =
    let (failed_with, (by_sid, by_name, by_cid)) = finish_lost s c u h l oks e in
    (failed_with, rw valid (ground (arith, ==_iff u.id (s.hash u.pid))))

reserve_name-free :
    (s : Setting) (u : Info) (h h1 : Hub)
    → reserve_name s.to_lower u.name (bind_cid u.id) h ≡ some h1
    → (name_available s.to_lower u.name h ≡ true)
      × ((is_some (lookup u.id h.logging_cid) || is_some (lookup u.id h.by_cid)) ≡ false)
unfolding reserve_name bind_cid is_some
reserve_name-free s u h h1 e = (ground arith, ground arith)

module _ (s : Setting) (c : Client) (u : Info) where
  -- The connection takes everything up to the last flush.
  verified-finish :
      (h : Hub) (l : Line) (oks : List Bool)
      → l.oks
        ≡ true ∷ true ∷ replicate (length (greetings s c u (list_peers h).1)) true ++ false ∷ oks
      → (l3 : Line) × (verified s c alone u h (l, none) ≡ finish s c u (list_peers h).0 l3)
        × (l3.oks ≡ false ∷ oks)
  unfolding verified informed listed
  verified-finish h l oks e =
      let (h', peers) = list_peers h in
      let greets = replicate (length (greetings s c u peers)) true ++ false ∷ oks in
      let (l1, info, e1) = act_all_succeeds (write hub_info ∷ []) l (true ∷ greets) e in
      let (l2, status, e2) = act_all_succeeds (write status_ok ∷ []) l1 greets e1 in
      let (l3, greeted, e3) = act_all_succeeds (greetings s c u peers) l2 (false ∷ oks) e2 in
      (l3, rw (info, informed) (rw info (rw status (rw (greeted, listed) (rw greeted refl)))), e3)

  -- what the handshake is when the connection takes all but the last flush
  stage_identity-verified :
      (h h1 : Hub) (l l0 : Line)
      → u.id ≡ s.hash u.pid
      → validate_user_name s.strings u.name ≡ none
      → reserve_name s.to_lower u.name (bind_cid u.id) h ≡ some h1
      → stage_verify s c u.name l ≡ (l0, none)
      → stage_identity s c alone (message u) h l ≡ verified s c alone u h1 (l0, none)
  unfolding stage_identity named bound
  stage_identity-verified h h1 l l0 known valid reserved proved =
      let (free, fresh) = reserve_name-free s u h h1 reserved in
      let same : (u.id == s.hash u.pid) ≡ true = (==_iff u.id (s.hash u.pid)).1 known in
      rw (same, stage_identity)
        (rw (valid, named) (rw free (rw fresh (rw (reserved, bound) (rw proved refl)))))

-- A handshake, that nobody else meddles in, whose name and CID are free, whose user has a valid
-- name and proves its password if it is registered, and whose connection takes everything but the
-- last flush, returns an error; and yet the next one of the same user, on a good connection too, is
-- refused since the name is taken.
pub stage_identity_locked :
    (s : Setting) (c again : Client) (o : Others) (u : Info) (h h1 : Hub) (l l0 l' : Line)
    (oks : List Bool)
    → u.id ≡ s.hash u.pid
    → validate_user_name s.strings u.name ≡ none
    → reserve_name s.to_lower u.name (bind_cid u.id) h ≡ some h1
    → stage_verify s c u.name l ≡ (l0, none)
    → l0.oks
      ≡ true ∷ true ∷ replicate (length (greetings s c u (list_peers h1).1)) true ++ false ∷ oks
    → ((stage_identity s c alone (message u) h l).failure ≡ some io_error)
      × ((stage_identity s again o
            (message u)
            (stage_identity s c alone (message u) h l).hub
            l').failure
          ≡ some nick_taken)
stage_identity_locked s c again o u h h1 l l0 l' oks known valid reserved proved e =
    let (l3, same, left) = verified-finish s c u h1 l0 oks e in
    rw (stage_identity-verified s c u h h1 l l0 known valid reserved proved ∙ same)
      (finish_locked s c again o u (list_peers h1).0 l3 l' oks left known valid)
