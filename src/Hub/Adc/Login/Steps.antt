-- ===== src/Hub/Adc/Login/Steps.antt =====
-- What the handshake of hub/hub_adc.go does to the peers of the hub, as calls of hub/hub.go.
use go_dcpp.Adc.Sid.{sid_eq}
use go_dcpp.Hub.Peers.{Hub, list_peers, name_available, reserve_name, bind_cid}
use go_dcpp.Hub.Peers.Steps as S
use go_dcpp.Hub.Peers.Steps.{Step, Run, stop, then_step}
use go_dcpp.Hub.Users.Names.{NameError, validate_user_name}
use go_dcpp.Hub.Adc.Line.{
  Read, read_failed, wrong_kind, wrong_name, undecodable, message, Failure, io_error, nick_taken,
  cid_taken, bad_name, bad_pid, Line,
}
use go_dcpp.Hub.Adc.Login.{
  Info, Setting, Client, Others, Outcome, peer_of, give_back, flushed, finish, listed, informed,
  verified, refuse, bound, named, stage_identity,
}
use go_dcpp.Base.{
  ℕ, ◌≡◌, refl, inl, inr, Bool, true, false, ◌||◌, Option, none, some, arith, ◌==◌, nat_eq, ==_refl,
  list_eq, Bool-cases, is_some, Bytes, lookup, lookup-insert,
}

-- What others do while a client logs in: calls of the hub, by peers with other sessions and with other
-- names and CIDs.
pub record IsOther (s : Setting) (c : Client) (u : Info) (f : Hub → Hub) : Type 0 where
  pub runs : (h : Hub) → Run s.to_lower h (f h)
  pub keeps_name :
      (h : Hub)
      → is_some (lookup (s.to_lower u.name) h.reserved) ≡ true
      → is_some (lookup (s.to_lower u.name) (f h).reserved) ≡ true
  pub keeps_cid :
      (h : Hub)
      → is_some (lookup u.id h.logging_cid) ≡ true
      → is_some (lookup u.id (f h).logging_cid) ≡ true
  pub no_session : (h : Hub) → lookup c.sid h.by_sid ≡ none → lookup c.sid (f h).by_sid ≡ none

append-Run :
    {to_lower : Bytes → Bytes} {h h' h'' : Hub}
    → Run to_lower h h'
    → Run to_lower h' h''
    → Run to_lower h h''
append-Run r stop = r
append-Run r (then_step r' e) = then_step (append-Run r r') e

module _ (s : Setting) (c : Client) (u : Info) where
  -- The name and the CID are bound, and the session is new.
  record IsBound (h : Hub) : Type 0 where
    has_name : is_some (lookup (s.to_lower u.name) h.reserved) ≡ true
    has_cid : is_some (lookup u.id h.logging_cid) ≡ true
    is_new : lookup c.sid h.by_sid ≡ none

  other-IsBound : (f : Hub → Hub) (h : Hub) → IsOther s c u f → IsBound h → IsBound (f h)
  other-IsBound f h i b = record {
    has_name = i.keeps_name h b.has_name;
    has_cid = i.keeps_cid h b.has_cid;
    is_new = i.no_session h b.is_new;
  }

  list-IsBound : (h : Hub) → IsBound h → IsBound (list_peers h).0
  unfolding list_peers
  list-IsBound h b = record {
    has_name = ground (arith, b.has_name);
    has_cid = ground (arith, b.has_cid);
    is_new = ground (arith, b.is_new);
  }

  reserve-IsBound :
      (h h' : Hub)
      → lookup c.sid h.by_sid ≡ none
      → reserve_name s.to_lower u.name (bind_cid u.id) h ≡ some h'
      → IsBound h'
  unfolding reserve_name bind_cid is_some
  reserve-IsBound h h' new e = record {
    has_name = ground (
      arith,
      lookup-insert (s.to_lower u.name) (s.to_lower u.name) tt h.reserved,
      ==_refl (s.to_lower u.name),
    );
    has_cid = ground (arith, lookup-insert u.id u.id tt h.logging_cid, ==_refl u.id);
    is_new = ground arith;
  }

  module _ (o : Others) (before : IsOther s c u o.before) (during : IsOther s c u o.during)
      (late : IsOther s c u o.late) where
    Runs : Hub → Outcome → Type 0
    Runs h x = Run s.to_lower h x.hub

    give_back-Runs : (f : Failure) (h : Hub) (l : Line) → Runs h (give_back s c u f h l)
    unfolding give_back Runs
    give_back-Runs f h l = then_step stop (S.give_back_with u.name u.id)

    finish-Runs : (h : Hub) (l : Line) → IsBound h → Runs h (finish s c u h l)
    unfolding finish Runs peer_of flushed
    finish-Runs h l b =
        then_step stop
          (S.accept_with (peer_of s c u) u.id u.share b.has_name b.has_cid b.is_new refl)

    listed-Runs : (h : Hub) (l : Line × Bool) → IsBound h → Runs h (listed s c o u h l)
    unfolding listed Runs
    listed-Runs h (l, false) b = give_back-Runs io_error h l
    listed-Runs h (l, true) b =
        append-Run (late.runs h) (finish-Runs (o.late h) l (other-IsBound o.late h late b))

    informed-Runs : (h : Hub) (l : Line × Bool) → IsBound h → Runs h (informed s c o u h l)
    unfolding informed Runs
    informed-Runs h (l, false) b = give_back-Runs io_error h l
    informed-Runs h (l, true) b =
        append-Run (then_step stop S.look) (listed-Runs (list_peers h).0 _ (list-IsBound h b))

    verified-Runs :
        (h : Hub) (l : Line × Option Failure) → IsBound h → Runs h (verified s c o u h l)
    unfolding verified Runs
    verified-Runs h (l, some f) b = give_back-Runs f h l
    verified-Runs h (l, none) b = informed-Runs h _ b

    refuse-Runs : (h : Hub) (code : ℕ) (f : Failure) (l : Line) → Runs h (refuse s c o h code f l)
    unfolding refuse Runs
    refuse-Runs h code f l = stop

    bound-Runs :
        (h : Hub) (l : Line) (r : Option Hub)
        → lookup c.sid h.by_sid ≡ none
        → reserve_name s.to_lower u.name (bind_cid u.id) h ≡ r
        → Runs h (bound s c o u h l r)
    unfolding bound Runs
    bound-Runs h l none new e = elim (Bool-cases (name_available s.to_lower u.name h)) [
      | inl free ↦ rw free (refuse-Runs h 24 cid_taken l)
      | inr taken ↦ rw taken (refuse-Runs h 22 nick_taken l)
    ]
    bound-Runs h l (some h') new e =
        let b = reserve-IsBound h h' new e in
        append-Run (append-Run (then_step stop (S.reserve_with u.name u.id e)) (during.runs h'))
          (verified-Runs (o.during h') _ (other-IsBound o.during h' during b))

    named-Runs :
        (h : Hub) (l : Line) (e : Option NameError)
        → lookup c.sid h.by_sid ≡ none
        → Runs h (named s c o u h l e)
    unfolding named Runs
    named-Runs h l (some e) new = refuse-Runs h 21 (bad_name e) l
    named-Runs h l none new = elim (Bool-cases (name_available s.to_lower u.name h)) [
      | inr taken ↦ rw taken (refuse-Runs h 22 nick_taken l)
      | inl free ↦
          elim (Bool-cases
            (is_some (lookup u.id h.logging_cid) || is_some (lookup u.id h.by_cid))) [
              | inl same ↦ rw (free, same) (refuse-Runs h 24 cid_taken l)
              | inr fresh ↦
                  rw (free, fresh)
                    (append-Run (before.runs h) (
                      bound-Runs (o.before h) l
                        (reserve_name s.to_lower u.name (bind_cid u.id) (o.before h))
                        (before.no_session h new) refl))
            ]
    ]

    told-Runs :
        (h : Hub) (l : Line)
        → lookup c.sid h.by_sid ≡ none
        → Runs h (stage_identity s c o (message u) h l)
    unfolding stage_identity Runs
    told-Runs h l new = elim (Bool-cases (u.id == s.hash u.pid)) [
      | inl same ↦ rw same (named-Runs h l (validate_user_name s.strings u.name) new)
      | inr other ↦ rw other (refuse-Runs h 27 bad_pid l)
    ]

module _ (s : Setting) (c : Client) where
  -- Where the info of a user is read, others let this user alone all the time.
  pub record AreOther (told : Read Info) (o : Others) : Type 0 where
    pub before : (u : Info) → told ≡ message u → IsOther s c u o.before
    pub during : (u : Info) → told ≡ message u → IsOther s c u o.during
    pub late : (u : Info) → told ≡ message u → IsOther s c u o.late

  -- The second stage of a handshake with a new session, whatever the client sends, and also when nothing can
  -- be read or decoded, and whichever actions on the connection fail, changes the hub by calls that the
  -- hub's steps allow, if what others do meanwhile are such calls, and leave the session, the name and the
  -- CID of the client alone. So what holds in every state of the hub holds after it.
  pub stage_identity-Run :
      (told : Read Info) (o : Others) (h : Hub) (l : Line)
      → AreOther told o
      → lookup c.sid h.by_sid ≡ none
      → Run s.to_lower h (stage_identity s c o told h l).hub
  unfolding stage_identity Runs
  stage_identity-Run (message u) o h l a new =
      told-Runs s c u o (a.before u refl) (a.during u refl) (a.late u refl) h l new
  stage_identity-Run read_failed o h l a new = stop
  stage_identity-Run wrong_kind o h l a new = stop
  stage_identity-Run wrong_name o h l a new = stop
  stage_identity-Run undecodable o h l a new = stop
