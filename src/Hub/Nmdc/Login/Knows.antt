-- ===== src/Hub/Nmdc/Login/Knows.antt =====
-- Whom `nmdcAccept` of hub/hub_nmdc.go lets through.
use go_dcpp.Adc.Sid.{sid_eq}
use go_dcpp.Hub.Profiles as Profiles
use go_dcpp.Hub.Users.{UserRecord, get_user}
use go_dcpp.Hub.Adc.Login.{Others}
use go_dcpp.Hub.Nmdc.Line.{
  Incoming, supports, key, validate_nick, my_pass, version, my_info, get_nick_list, bot_info,
  another, Ext, Failure, insecure, Sent, hub_name, get_pass, Talk, Answer, got, fails, M, goes_on,
  ◌>>=◌, ◌>>◌, raise, guard, write, flush, read,
}
use go_dcpp.Hub.Nmdc.Line.Along.{Change}
use go_dcpp.Hub.Nmdc.Login.{
  Setting, Client, View, is_insecure, check_user_pass, refuse_pass, ask_pass, check_user, log_in,
  as_pass, nmdc_accept,
}
use go_dcpp.Base.{
  ℕ, ◌≡◌, refl, subst, inl, inr, Bool, true, false, not, ◌&&◌, ◌||◌, Option, none, some, List, [],
  ◌∷◌, arith, ◌==◌, nat_eq, ==_iff, list_eq, Option-cases, Bytes,
}

abbrev is_pass : Bytes → Incoming → Bool
is_pass p (my_pass q) = p == q
is_pass p _ = false

-- the password is among the messages
abbrev pub brings : Bytes → List Incoming → Bool
brings p [] = false
brings p (m ∷ l) = is_pass p m || brings p l

-- a user that is registered has a connection that is secure, and sends its password
abbrev pub knows :
    Option Bool → Option (UserRecord × Option Profiles.UserProfile) → List Incoming → Bool
knows secure none l = true
knows secure (some (rec, profile)) l = not (is_insecure secure) && brings rec.pass l

pub told :
    (A : Type 0) (f : Incoming → Option A) (t : Talk) (p : Bytes)
    → brings p (read f t).0.incoming ≡ true
    → brings p t.incoming ≡ true
unfolding read
told A f t p e = ground arith

pub unwritten :
    (m : Sent) (t : Talk) (p : Bytes)
    → brings p (write m t).0.incoming ≡ true
    → brings p t.incoming ≡ true
unfolding write
unwritten m t p e = ground arith

pub unflushed :
    (t : Talk) (p : Bytes) → brings p (flush t).0.incoming ≡ true → brings p t.incoming ≡ true
unfolding flush
unflushed t p e = e

-- a password that is still to come has been to come before
abbrev pub telling : Change
telling = record {
  Holds = λ t t'. (p : Bytes) → brings p t'.incoming ≡ true → brings p t.incoming ≡ true;
  idle = λ t p e. e;
  chain = λ t t' t'' a b p e. a p (b p e);
  writes = unwritten;
  flushes = unflushed;
  reads = λ {A} f t. told A f t;
}

-- The inversion of a part that succeeds.
goes_on-got :
    {A B : Type 0} (f : A → M B) (r : Talk × Answer A) (t' : Talk) (b : B)
    → goes_on f r ≡ (t', got b)
    → (t1 : Talk) × (a : A) × (r ≡ (t1, got a)) × (f a t1 ≡ (t', got b))
goes_on-got f (t1, got a) t' b e = (t1, a, refl, e)
goes_on-got f (t1, fails x) t' b e = cc

guard-got :
    (b : Bool) (x : Failure) (t t' : Talk) → guard b x t ≡ (t', got tt) → (b ≡ true) × (t' ≡ t)
unfolding guard
guard-got b x t t' e = ground arith

write-got : (m : Sent) (t t' : Talk) → write m t ≡ (t', got tt) → t'.incoming ≡ t.incoming
unfolding write
write-got m t t' e = ground arith

pass_of : (m : Incoming) (p : Bytes) → as_pass m ≡ some p → is_pass p m ≡ true
pass_of (my_pass q) p e = ground (arith, ==_iff p q)
pass_of (supports l) p e = cc
pass_of (key k) p e = cc
pass_of (validate_nick k) p e = cc
pass_of (version k) p e = cc
pass_of (my_info k) p e = cc
pass_of get_nick_list p e = cc
pass_of bot_info p e = cc
pass_of another p e = cc

first_of :
    (l : List Incoming) (t t' : Talk) (p : Bytes)
    → t.incoming ≡ l
    → read as_pass t ≡ (t', got p)
    → brings p l ≡ true
unfolding read
first_of [] t t' p at e = ground arith
first_of (m ∷ l) t t' p at e = elim (Option-cases (as_pass m)) [
  | inl other ↦ ground arith
  | inr (q, sent) ↦ ground (arith, pass_of m q sent)
]

module _ (s : Setting) (c : Client) (o : Others) (v : View) where
  refuse_pass-got : (b : Bool) (t t' : Talk) → refuse_pass s c o v b t ≡ (t', got tt) → b ≡ true
  unfolding refuse_pass write raise
  refuse_pass-got true t t' e = refl
  refuse_pass-got false t t' e = ground arith

  ask_pass-brings :
      (rec : UserRecord) (t t' : Talk)
      → ask_pass s c o v rec t ≡ (t', got tt)
      → brings rec.pass t.incoming ≡ true
  unfolding ask_pass check_user_pass
  ask_pass-brings rec t t' e =
      let last = λ (pass : Bytes). refuse_pass s c o v (rec.pass == pass) in
      let (t1, _, w, e1) = goes_on-got (λ _. read as_pass >>= last) (write get_pass t) t' tt e in
      let (t2, pass, r, e2) = goes_on-got last (read as_pass t1) t' tt e1 in
      let brought = first_of t1.incoming t1 t2 pass refl r in
      let right = refuse_pass-got (rec.pass == pass) t2 t' e2 in
      ground (arith, write-got get_pass t t1 w, ==_iff rec.pass pass)

  check_user-knows :
      (r : Option (UserRecord × Option Profiles.UserProfile)) (t t' : Talk)
      → check_user s c o v r t ≡ (t', got tt)
      → knows c.secure r t.incoming ≡ true
  unfolding check_user
  check_user-knows none t t' e = refl
  check_user-knows (some (rec, profile)) t t' e =
      let secure = not (is_insecure c.secure) in
      let (t1, _, g, e1) =
        goes_on-got (λ _. ask_pass s c o v rec) (guard secure insecure t) t' tt e in
      let (closed, same) = guard-got secure insecure t t1 g in
      ground (arith, ask_pass-brings rec t1 t' e1)

  -- who gets through `nmdcAccept`
  pub nmdc_accept-knows :
      (name : Bytes) (fea : List Ext) (t t' : Talk) (share : ℕ)
      → nmdc_accept s c o v name fea t ≡ (t', got share)
      → knows c.secure (get_user name s.profiles s.db) t.incoming ≡ true
  unfolding nmdc_accept
  nmdc_accept-knows name fea t t' share e =
      let r = get_user name s.profiles s.db in
      let (t1, _, w, e1) =
        goes_on-got (λ _. check_user s c o v r >> log_in s c o v name fea) (write hub_name t) t'
          share e in
      let (t2, _, k, e2) =
        goes_on-got (λ _. log_in s c o v name fea) (check_user s c o v r t1) t' share e1 in
      subst (λ l. knows c.secure (get_user name s.profiles s.db) l ≡ true)
        (write-got hub_name t t1 w) (check_user-knows (get_user name s.profiles s.db) t1 t2 k)
