-- ===== src/Hub/Adc/Login/Traces.antt =====
-- What a handshake of hub/hub_adc.go that fails leaves on the hub.
use go_dcpp.Adc.Sid.{sid_eq}
use go_dcpp.Hub.Peers.{
  Cid, Hub, list_peers, name_available, reserve_name, unbind_name, bind_cid, unbind_cid,
}
use go_dcpp.Hub.Users.Names.{NameError, validate_user_name}
use go_dcpp.Hub.Adc.Line.{
  Read, read_failed, wrong_kind, wrong_name, undecodable, message, Failure, io_error, nick_taken,
  cid_taken, bad_name, bad_pid, Line, act_all, flush,
}
use go_dcpp.Hub.Adc.Login.{
  Info, Setting, Client, Others, Outcome, give_back, finish, flushed, listed, informed, verified,
  refuse, bound, named, stage_identity,
}
use go_dcpp.Hub.Adc.Login.Outcomes.{IsOn, list_peers-fields, finish-IsOn}
use go_dcpp.Base.{
  ℕ, ◌≡◌, refl, ◌∙◌, ◌⊎◌, inl, inr, Bool, true, false, ◌||◌, Option, none, some, [], ◌∷◌, arith,
  ◌==◌, nat_eq, ==_iff, list_eq, Bool-cases, is_some, Bytes, lookup, insert, lookup-insert,
  lookup-remove,
}

-- nobody else does anything
abbrev pub alone : Others
alone = record { before = λ h. h; during = λ h. h; late = λ h. h }

-- Names, sessions and CIDs are found, and are taken, on the one as on the other.
pub record IsSame (h h' : Hub) : Type 0 where
  pub reserved : (k : Bytes) → lookup k h'.reserved ≡ lookup k h.reserved
  pub logging : (k : Cid) → lookup k h'.logging_cid ≡ lookup k h.logging_cid
  pub by_name : h'.by_name ≡ h.by_name
  pub by_sid : h'.by_sid ≡ h.by_sid
  pub by_cid : h'.by_cid ≡ h.by_cid

unchanged-IsSame : (h : Hub) → IsSame h h
unchanged-IsSame h = record {
  reserved = λ k. refl;
  logging = λ k. refl;
  by_name = refl;
  by_sid = refl;
  by_cid = refl;
}

module _ (s : Setting) (c : Client) (u : Info) (start : Hub) where
  -- The name and the CID of the client are bound over the state at the start.
  record HasBound (h : Hub) : Type 0 where
    free_name : lookup (s.to_lower u.name) start.reserved ≡ none
    free_cid : lookup u.id start.logging_cid ≡ none
    reserved : h.reserved ≡ insert (s.to_lower u.name) tt start.reserved
    logging : h.logging_cid ≡ insert u.id tt start.logging_cid
    by_name : h.by_name ≡ start.by_name
    by_sid : h.by_sid ≡ start.by_sid
    by_cid : h.by_cid ≡ start.by_cid

  list-HasBound : (h : Hub) → HasBound h → HasBound (list_peers h).0
  list-HasBound h b =
      let (sids, names, cids, reserved, logging) = list_peers-fields s c u h in
      record {
        free_name = b.free_name;
        free_cid = b.free_cid;
        reserved = reserved ∙ b.reserved;
        logging = logging ∙ b.logging;
        by_name = names ∙ b.by_name;
        by_sid = sids ∙ b.by_sid;
        by_cid = cids ∙ b.by_cid;
      }

  reserve-HasBound :
      (h' : Hub) → reserve_name s.to_lower u.name (bind_cid u.id) start ≡ some h' → HasBound h'
  unfolding reserve_name bind_cid is_some name_available
  reserve-HasBound h' e = record {
    free_name = ground arith;
    free_cid = ground arith;
    reserved = ground arith;
    logging = ground arith;
    by_name = ground arith;
    by_sid = ground arith;
    by_cid = ground arith;
  }

  give_back-IsSame :
      (f : Failure) (h : Hub) (l : Line) → HasBound h → IsSame start (give_back s c u f h l).hub
  unfolding give_back unbind_name unbind_cid
  give_back-IsSame f h l b = record {
    reserved = λ k. ground (
      arith,
      b.reserved,
      b.free_name,
      lookup-remove (s.to_lower u.name) k h.reserved,
      lookup-insert (s.to_lower u.name) k tt start.reserved,
      ==_iff (s.to_lower u.name) k,
    );
    logging = λ k. ground (
      arith,
      b.logging,
      b.free_cid,
      lookup-remove u.id k h.logging_cid,
      lookup-insert u.id k tt start.logging_cid,
      ==_iff u.id k,
    );
    by_name = b.by_name;
    by_sid = b.by_sid;
    by_cid = b.by_cid;
  }

  -- If there is an error, the hub is as it was, or the error is that the last flush failed and the peer is
  -- on the hub.
  abbrev Fails : Outcome → Type 0
  Fails x =
      (f : Failure) → x.failure ≡ some f → IsSame start x.hub ⊎ ((f ≡ io_error) × IsOn s c u x.hub)

  flushed-Fails : (h : Hub) (l : Line × Bool) → IsOn s c u h → Fails (flushed s c h l)
  unfolding flushed
  flushed-Fails h (l, true) on f e = ground arith
  flushed-Fails h (l, false) on f e = inr (ground arith, on)

  finish-Fails : (h : Hub) (l : Line) → Fails (finish s c u h l)
  unfolding finish
  finish-Fails h l = flushed-Fails _ (act_all (flush ∷ []) l) (finish-IsOn s c u h l)

  listed-Fails : (h : Hub) (l : Line × Bool) → HasBound h → Fails (listed s c alone u h l)
  unfolding listed
  listed-Fails h (l, false) b = λ f e. inl (give_back-IsSame io_error h l b)
  listed-Fails h (l, true) b = finish-Fails h l

  informed-Fails : (h : Hub) (l : Line × Bool) → HasBound h → Fails (informed s c alone u h l)
  unfolding informed
  informed-Fails h (l, false) b = λ f e. inl (give_back-IsSame io_error h l b)
  informed-Fails h (l, true) b = listed-Fails (list_peers h).0 _ (list-HasBound h b)

  verified-Fails :
      (h : Hub) (l : Line × Option Failure) → HasBound h → Fails (verified s c alone u h l)
  unfolding verified
  verified-Fails h (l, some g) b = λ f e. inl (give_back-IsSame g h l b)
  verified-Fails h (l, none) b = informed-Fails h _ b

  refuse-Fails : (code : ℕ) (g : Failure) (l : Line) → Fails (refuse s c alone start code g l)
  unfolding refuse
  refuse-Fails code g l f e = inl (unchanged-IsSame start)

  bound-Fails :
      (l : Line) (r : Option Hub)
      → reserve_name s.to_lower u.name (bind_cid u.id) start ≡ r
      → Fails (bound s c alone u start l r)
  unfolding bound
  bound-Fails l none e = elim (Bool-cases (name_available s.to_lower u.name start)) [
    | inl free ↦ rw free (refuse-Fails 24 cid_taken l)
    | inr taken ↦ rw taken (refuse-Fails 22 nick_taken l)
  ]
  bound-Fails l (some h) e = verified-Fails h _ (reserve-HasBound h e)

  named-Fails : (l : Line) (v : Option NameError) → Fails (named s c alone u start l v)
  unfolding named
  named-Fails l (some v) = refuse-Fails 21 (bad_name v) l
  named-Fails l none = elim (Bool-cases (name_available s.to_lower u.name start)) [
    | inr taken ↦ rw taken (refuse-Fails 22 nick_taken l)
    | inl free ↦
        elim (Bool-cases
          (is_some (lookup u.id start.logging_cid) || is_some (lookup u.id start.by_cid))) [
            | inl same ↦ rw (free, same) (refuse-Fails 24 cid_taken l)
            | inr fresh ↦
                rw (free, fresh)
                  (bound-Fails l (reserve_name s.to_lower u.name (bind_cid u.id) start) refl)
          ]
  ]

  told-Fails : (l : Line) → Fails (stage_identity s c alone (message u) start l)
  unfolding stage_identity
  told-Fails l = elim (Bool-cases (u.id == s.hash u.pid)) [
    | inl same ↦ rw same (named-Fails l (validate_user_name s.strings u.name))
    | inr other ↦ rw other (refuse-Fails 27 bad_pid l)
  ]

module _ (s : Setting) (c : Client) (start : Hub) where
  -- The info was read, and the peer that it is of is on the hub.
  abbrev pub HasEntered : Read Info → Hub → Type 0
  HasEntered told h = (u : Info) × (told ≡ message u) × IsOn s c u h

  -- When the second stage of a handshake, that nobody else meddles in, ends with an error, also that of
  -- reading or decoding the info, then the hub finds the same peers, and holds the same names and CIDs, as
  -- before; or the error is that the last flush has failed, and the info was read and its peer is on the hub.
  pub stage_identity_fails :
      (told : Read Info) (l : Line) (f : Failure)
      → (stage_identity s c alone told start l).failure ≡ some f
      → IsSame start (stage_identity s c alone told start l).hub
        ⊎ ((f ≡ io_error) × HasEntered told (stage_identity s c alone told start l).hub)
  unfolding stage_identity
  stage_identity_fails (message u) l = λ f e. elim (told-Fails s c u start l f e) [
    | inl same ↦ inl same
    | inr (io, on) ↦ inr (io, (u, refl, on))
  ]
  stage_identity_fails read_failed l = λ f e. inl (unchanged-IsSame start)
  stage_identity_fails wrong_kind l = λ f e. inl (unchanged-IsSame start)
  stage_identity_fails wrong_name l = λ f e. inl (unchanged-IsSame start)
  stage_identity_fails undecodable l = λ f e. inl (unchanged-IsSame start)
