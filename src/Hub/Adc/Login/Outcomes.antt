-- ===== src/Hub/Adc/Login/Outcomes.antt =====
-- How a handshake of hub/hub_adc.go ends.
use go_dcpp.Adc.Sid.{sid_eq}
use go_dcpp.Hub.Peers.{
  Hub, list_peers, name_available, reserve_name, accept_peer, bind_cid, accept_cid, peer_by_sid,
  peer_by_name, invalidate_list, inc_share,
}
use go_dcpp.Hub.Users.{get_user}
use go_dcpp.Hub.Users.Names.{NameError, validate_user_name}
use go_dcpp.Hub.Adc.Line.{message, Failure, io_error, Line, act, act_all}
use go_dcpp.Hub.Adc.Login.{
  Info, Setting, Client, Others, Outcome, peer_of, give_back, flushed, finish, listed, informed,
  verified, refuse, bound, named, stage_identity, stage_verify,
}
use go_dcpp.Hub.Adc.Login.Verify.{proves, stage_verify-proves}
use go_dcpp.Base.{
  ◌≡◌, refl, ap, ◌∙◌, inl, inr, Bool, true, false, ◌||◌, Option, none, some, List, ◌∷◌, arith, ◌==◌,
  nat_eq, ==_iff, ==_refl, list_eq, Bool-cases, is_some, lookup, insert, remove, lookup-insert,
}

module _ (s : Setting) (c : Client) (u : Info) where
  -- The peer of the client is on the hub, by its session, its name and its CID.
  abbrev pub IsOn : Hub → Type 0
  IsOn h =
      (peer_by_sid c.sid h ≡ some (peer_of s c u))
      × (peer_by_name s.to_lower u.name h ≡ some (peer_of s c u))
      × (lookup u.id h.by_cid ≡ some (peer_of s c u))

  pub list_peers-fields :
      (h : Hub)
      → ((list_peers h).0.by_sid ≡ h.by_sid)
        × ((list_peers h).0.by_name ≡ h.by_name)
        × ((list_peers h).0.by_cid ≡ h.by_cid)
        × ((list_peers h).0.reserved ≡ h.reserved)
        × ((list_peers h).0.logging_cid ≡ h.logging_cid)
  unfolding list_peers
  list_peers-fields h = ground arith

  accepted-IsOn :
      (h : Hub)
      → IsOn (accept_peer s.to_lower (peer_of s c u) u.share (accept_cid u.id (peer_of s c u)) h)
  unfolding peer_by_sid peer_by_name peer_of accept_peer accept_cid invalidate_list inc_share
  accepted-IsOn h =
      let p = peer_of s c u in
      let key = s.to_lower u.name in
      let kept = list_peers-fields (record h {
        reserved = remove key h.reserved;
        logging_cid = remove u.id h.logging_cid;
        by_cid = insert u.id p h.by_cid;
      }) in
      (
        rw (lookup-insert c.sid c.sid p _, ==_refl c.sid),
        rw (lookup-insert key key p _, ==_refl key),
        ap (λ m. lookup u.id m) kept.2 ∙ rw (lookup-insert u.id u.id p h.by_cid, ==_refl u.id),
      )

  pub finish-IsOn : (h : Hub) (l : Line) → IsOn (finish s c u h l).hub
  unfolding finish flushed
  finish-IsOn h l = accepted-IsOn h

  -- When the last flush fails after the peer is accepted, the handshake returns an error and so nobody
  -- closes the peer, but it stays on the hub.
  pub finish_lost :
      (h : Hub) (l : Line) (oks : List Bool)
      → l.oks ≡ false ∷ oks
      → ((finish s c u h l).failure ≡ some io_error) × IsOn (finish s c u h l).hub
  unfolding finish flushed act_all act
  finish_lost h l oks e = (ground arith, finish-IsOn h l)

module _ (s : Setting) (c : Client) (o : Others) (u : Info) where
  -- If there is no error, the peer is on the hub.
  Succeeds : Outcome → Type 0
  Succeeds x = x.failure ≡ none → IsOn s c u x.hub

  listed-Succeeds : (h : Hub) (l : Line × Bool) → Succeeds (listed s c o u h l)
  unfolding listed give_back Succeeds
  listed-Succeeds h (l, false) e = ground arith
  listed-Succeeds h (l, true) e = finish-IsOn s c u (o.late h) l

  informed-Succeeds : (h : Hub) (l : Line × Bool) → Succeeds (informed s c o u h l)
  unfolding informed give_back Succeeds
  informed-Succeeds h (l, false) e = ground arith
  informed-Succeeds h (l, true) e = listed-Succeeds (list_peers h).0 _ e

  verified-Succeeds :
      (h : Hub) (l : Line × Option Failure)
      → (verified s c o u h l).failure ≡ none
      → IsOn s c u (verified s c o u h l).hub × (l.1 ≡ none)
  unfolding verified give_back Succeeds
  verified-Succeeds h (l, some f) e = ground arith
  verified-Succeeds h (l, none) e = (informed-Succeeds h _ e, refl)

  bound-Succeeds :
      (h : Hub) (l : Line) (r : Option Hub)
      → (bound s c o u h l r).failure ≡ none
      → IsOn s c u (bound s c o u h l r).hub × ((stage_verify s c u.name l).1 ≡ none)
  unfolding bound refuse
  bound-Succeeds h l none e = ground arith
  bound-Succeeds h l (some h') e = verified-Succeeds (o.during h') (stage_verify s c u.name l) e

  named-Succeeds :
      (h : Hub) (l : Line) (v : Option NameError)
      → (named s c o u h l v).failure ≡ none
      → IsOn s c u (named s c o u h l v).hub × (v ≡ none) × ((stage_verify s c u.name l).1 ≡ none)
  unfolding named refuse
  named-Succeeds h l (some v) = λ e. ground arith
  named-Succeeds h l none = elim (Bool-cases (name_available s.to_lower u.name h)) [
    | inr taken ↦ λ e. ground arith
    | inl free ↦
        elim (Bool-cases (is_some (lookup u.id h.logging_cid) || is_some (lookup u.id h.by_cid))) [
          | inl same ↦ λ e. ground arith
          | inr fresh ↦
              let r = reserve_name s.to_lower u.name (bind_cid u.id) (o.before h) in
              rw (free, fresh)
                (λ e. let (on, passed) = bound-Succeeds (o.before h) l r e in (on, refl, passed))
        ]
  ]

  -- If the second stage of a handshake, having read the info of a user, ends without an error, then the CID
  -- of the user is the hash of its PID, its name is valid, and it is on the hub, where its session, its
  -- name and its CID find it; and if the name is registered, the connection is secure and the client has sent the hash of
  -- the password and the salt.
  pub stage_identity-IsOn :
      (h : Hub) (l : Line)
      → (stage_identity s c o (message u) h l).failure ≡ none
      → IsOn s c u (stage_identity s c o (message u) h l).hub
        × (u.id ≡ s.hash u.pid)
        × (validate_user_name s.strings u.name ≡ none)
        × (proves s c (get_user u.name s.profiles s.db) ≡ true)
  unfolding stage_identity refuse
  stage_identity-IsOn h l = elim (Bool-cases (u.id == s.hash u.pid)) [
    | inr other ↦ λ e. ground arith
    | inl same ↦ rw same (λ e.
        let (on, valid, passed) = named-Succeeds h l (validate_user_name s.strings u.name) e in
        (on, (==_iff u.id (s.hash u.pid)).0 same, valid, stage_verify-proves s c u.name l passed))
  ]
