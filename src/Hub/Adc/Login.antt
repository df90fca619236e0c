-- ===== src/Hub/Adc/Login.antt =====
-- The second stage of the handshake of ADC: `adcStageIdentity` and `adcStageVerify` of hub/hub_adc.go.
-- The addresses in the info of the user are left out, and so is the notice to the other peers.
pub mod Verify
pub mod Outcomes
pub mod Traces
pub mod Locked
pub mod Steps
mod Tests
use go_dcpp.Adc.ModFeatures.{ModFeatures, is_set}
use go_dcpp.Adc.Sid.{Sid}
use go_dcpp.Hub.Adc.Line.{
  Read, message, Failure, unread, io_error, bad_pid, nick_taken, cid_taken, insecure,
  wrong_password, bad_name, Sent, status_ok, hub_info, user_command, get_password, user, Action,
  write, flush, Line, act_all, send_error, fea_ucmd, fea_ucm0,
}
use go_dcpp.Hub.Peers.{
  Cid, Peer, Hub, list_peers, name_available, reserve_name, unbind_name, accept_peer, bind_cid,
  unbind_cid, accept_cid,
}
use go_dcpp.Hub.Profiles as Profiles
use go_dcpp.Hub.Users.{UserRecord, MemDb, get_user}
use go_dcpp.Hub.Users.Names.{NameError, Strings, validate_user_name}
use go_dcpp.Base.{
  ℕ, Bool, true, false, not, ◌||◌, Option, none, some, List, [], ◌∷◌, ◌++◌, map, if◌then◌else◌,
  ◌==◌, nat_eq, list_eq, is_some, Bytes, replicate, lookup,
}

-- `adc.User`, of which the handshake reads these fields; a client that sends no PID is left out
pub record Info : Type 0 where
  pub id : Cid
  pub pid : Bytes
  pub name : Bytes
  pub share : ℕ

-- what a hub brings to a handshake: strings.ToLower, the hash of package tiger, the strings of
-- `validateUserName`, the profiles, the database, and the number of commands for the user
pub record Setting : Type 0 where
  pub to_lower : Bytes → Bytes
  pub hash : Bytes → Bytes
  pub strings : Strings
  pub profiles : Profiles.Profiles
  pub db : Option MemDb
  pub commands : ℕ

-- What a client and its connection bring: the session, the features that both sides support, whether the
-- connection is secure (`none` is a nil ConnInfo), the salt that is drawn, and the password that is read.
pub record Client : Type 0 where
  pub sid : Sid
  pub features : Option ModFeatures
  pub secure : Option Bool
  pub salt : Bytes
  pub password : Read Bytes

-- What others do to the hub meanwhile: before the name is reserved, while it is, and while the peers
-- are sent to the client.
pub record Others : Type 0 where
  pub before : Hub → Hub
  pub during : Hub → Hub
  pub late : Hub → Hub

-- What is left: the hub, the connection, and the error, if there is one.
pub record Outcome : Type 0 where
  pub hub : Hub
  pub line : Line
  pub failure : Option Failure

abbrev is_insecure : Option Bool → Bool
is_insecure none = false
is_insecure (some secure) = not secure

module _ (s : Setting) (c : Client) where
  -- `adcCheckUserPass`, for a hub with a database
  pub check_user_pass : UserRecord → Bytes → Bool
  check_user_pass rec given = s.hash (rec.pass ++ c.salt) == given

  check_password : UserRecord → Read Bytes → Line → Line × Option Failure
  unfolding check_user_pass send_error
  check_password rec (message given) l =
      if check_user_pass rec given then (l, none) else (send_error 23 l, some wrong_password)
  check_password rec _ l = (l, some unread)

  ask_password : UserRecord → Line × Bool → Line × Option Failure
  unfolding check_password
  ask_password rec (l, false) = (l, some io_error)
  ask_password rec (l, true) = check_password rec c.password l

  verify_user : Option (UserRecord × Option Profiles.UserProfile) → Line → Line × Option Failure
  unfolding ask_password
  verify_user none l = (l, none)
  verify_user (some (rec, profile)) l =
      if is_insecure c.secure
      then (l, some insecure)
      else ask_password rec (act_all (write (get_password c.salt) ∷ flush ∷ []) l)

  -- `adcStageVerify`
  pub stage_verify : Bytes → Line → Line × Option Failure
  unfolding verify_user
  stage_verify name l = verify_user (get_user name s.profiles s.db) l

  unfoldable pub peer_of : Info → Peer
  peer_of u = record { sid = c.sid; name = u.name; cid = some u.id }

  -- unbind(); return err
  pub give_back : Info → Failure → Hub → Line → Outcome
  give_back u f h l = record {
    hub = unbind_name s.to_lower u.name (unbind_cid u.id) h;
    line = l;
    failure = some f;
  }

  flushed : Hub → Line × Bool → Outcome
  flushed h (l, ok) = record { hub = h; line = l; failure = if ok then none else some io_error }

  -- h.acceptPeer; return peer.c.Flush()
  pub finish : Info → Hub → Line → Outcome
  unfolding flushed peer_of
  finish u h l =
      flushed (accept_peer s.to_lower (peer_of u) u.share (accept_cid u.id (peer_of u)) h)
        (act_all (flush ∷ []) l)

  -- the list of users, his own info, and the commands
  pub greetings : Info → List Peer → List Action
  unfolding peer_of
  greetings u peers =
      map (λ p. write (user p)) peers
      ++ write (user (peer_of u))
        ∷ (if is_set fea_ucmd c.features || is_set fea_ucm0 c.features
            then replicate s.commands (write user_command)
            else [])

module _ (s : Setting) (c : Client) (o : Others) where
  listed : Info → Hub → Line × Bool → Outcome
  unfolding give_back finish
  listed u h (l, false) = give_back s c u io_error h l
  listed u h (l, true) = finish s c u (o.late h) l

  informed : Info → Hub → Line × Bool → Outcome
  unfolding give_back greetings listed
  informed u h (l, false) = give_back s c u io_error h l
  informed u h (l, true) =
      let (h', peers) = list_peers h in
      listed u h' (act_all (greetings s c u peers) (act_all (write status_ok ∷ []) l).0)

  verified : Info → Hub → Line × Option Failure → Outcome
  unfolding give_back informed
  verified u h (l, some f) = give_back s c u f h l
  verified u h (l, none) = informed u h (act_all (write hub_info ∷ []) l)

  refuse : Hub → ℕ → Failure → Line → Outcome
  unfolding send_error
  refuse h code f l = record { hub = h; line = send_error code l; failure = some f }

  -- what follows `reserveName`
  bound : Info → Hub → Line → Option Hub → Outcome
  unfolding verified refuse
  bound u h l none =
      if name_available s.to_lower u.name h
      then refuse h 24 cid_taken l
      else refuse h 22 nick_taken l
  bound u h l (some h') = verified u (o.during h') (stage_verify s c u.name l)

  -- what follows `validateUserName`
  named : Info → Hub → Line → Option NameError → Outcome
  unfolding refuse bound
  named u h l (some e) = refuse h 21 (bad_name e) l
  named u h l none =
      if not (name_available s.to_lower u.name h)
      then refuse h 22 nick_taken l
      else if is_some (lookup u.id h.logging_cid) || is_some (lookup u.id h.by_cid)
      then refuse h 24 cid_taken l
      else bound u (o.before h) l (reserve_name s.to_lower u.name (bind_cid u.id) (o.before h))

  -- `adcStageIdentity`
  unfoldable pub stage_identity : Read Info → Hub → Line → Outcome
  unfolding refuse named
  stage_identity (message u) h l =
      if u.id == s.hash u.pid
      then named u h l (validate_user_name s.strings u.name)
      else refuse h 27 bad_pid l
  stage_identity _ h l = record { hub = h; line = l; failure = some unread }
