-- ===== src/Hub/Adc/Login/Verify.antt =====
-- Who passes `adcStageVerify` of hub/hub_adc.go.
use go_dcpp.Adc.Feature.{feature_eq}
use go_dcpp.Hub.Profiles as Profiles
use go_dcpp.Hub.Users.{UserRecord, get_user}
use go_dcpp.Hub.Adc.Line.{
  Read, read_failed, wrong_kind, wrong_name, undecodable, message, Line, act_all, write, flush,
  get_password,
}
use go_dcpp.Hub.Adc.Login.{
  Setting, Client, is_insecure, check_user_pass, check_password, ask_password, verify_user,
  stage_verify,
}
use go_dcpp.Base.{
  ◌≡◌, refl, inl, inr, Bool, true, false, not, ◌&&◌, Option, none, some, [], ◌∷◌, ◌++◌, arith, ◌==◌,
  nat_eq, ==_iff, ==_refl, list_eq, Bool-cases, Bytes,
}

module _ (s : Setting) (c : Client) where
  -- the client sends the hash of the password and the salt, over a connection that is secure
  abbrev pub Knows : UserRecord → Type 0
  Knows rec = (is_insecure c.secure ≡ false) × (c.password ≡ message (s.hash (rec.pass ++ c.salt)))

  -- the same, if the name is registered, as a test
  abbrev has_sent : Bytes → Read Bytes → Bool
  has_sent h (message given) = given == h
  has_sent h r = false

  abbrev pub proves : Option (UserRecord × Option Profiles.UserProfile) → Bool
  proves none = true
  proves (some (rec, profile)) =
      not (is_insecure c.secure) && has_sent (s.hash (rec.pass ++ c.salt)) c.password

  checked-Knows :
      (rec : UserRecord) (r : Read Bytes) (l : Line)
      → (check_password s c rec r l).1 ≡ none
      → r ≡ message (s.hash (rec.pass ++ c.salt))
  unfolding check_password check_user_pass
  checked-Knows rec (message given) l e = ground (arith, ==_iff (s.hash (rec.pass ++ c.salt)) given)
  checked-Knows rec read_failed l e = ground arith
  checked-Knows rec wrong_kind l e = ground arith
  checked-Knows rec wrong_name l e = ground arith
  checked-Knows rec undecodable l e = ground arith

  asked-Knows :
      (rec : UserRecord) (l : Line × Bool)
      → (ask_password s c rec l).1 ≡ none
      → c.password ≡ message (s.hash (rec.pass ++ c.salt))
  unfolding ask_password
  asked-Knows rec (l, true) e = checked-Knows rec c.password l e
  asked-Knows rec (l, false) e = ground arith

  -- A client with the name of a registered user passes `adcStageVerify` only over a connection that is
  -- secure, and only if it sends the hash of the password of that user followed by the salt.
  stage_verify-Knows :
      (name : Bytes) (rec : UserRecord) (profile : Option Profiles.UserProfile) (l : Line)
      → get_user name s.profiles s.db ≡ some (rec, profile)
      → (stage_verify s c name l).1 ≡ none
      → Knows rec
  unfolding stage_verify verify_user
  stage_verify-Knows name rec profile l registered passed =
      elim (Bool-cases (is_insecure c.secure)) [
        | inl open_line ↦ ground arith
        | inr closed ↦ (
          closed,
          asked-Knows rec (act_all (write (get_password c.salt) ∷ flush ∷ []) l) (ground arith),
        )
      ]

  verified-proves :
      (r : Option (UserRecord × Option Profiles.UserProfile))
      → ((rec : UserRecord) (profile : Option Profiles.UserProfile)
          → r ≡ some (rec, profile)
          → Knows rec)
      → proves r ≡ true
  verified-proves none knows = refl
  verified-proves (some (rec, profile)) knows =
      let (secure, sent) = knows rec profile refl in
      rw (secure, sent, ==_refl (s.hash (rec.pass ++ c.salt)))

  -- A client that passes `adcStageVerify`, if its name is registered, has a connection that is secure, and
  -- has sent the hash of the password of that user followed by the salt.
  pub stage_verify-proves :
      (name : Bytes) (l : Line)
      → (stage_verify s c name l).1 ≡ none
      → proves (get_user name s.profiles s.db) ≡ true
  stage_verify-proves name l passed =
      verified-proves (get_user name s.profiles s.db)
        (λ rec profile registered. stage_verify-Knows name rec profile l registered passed)
