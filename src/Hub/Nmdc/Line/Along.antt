-- ===== src/Hub/Nmdc/Line/Along.antt =====
-- What holds between the states before and after a part of a conversation.
use go_dcpp.Hub.Peers.{Hub}
use go_dcpp.Hub.Nmdc.Line.{
  Incoming, Failure, Sent, Talk, Answer, got, fails, M, goes_on, ◌>>=◌, pure, raise, guard, write,
  flush, read, nmdc_lock,
}
use go_dcpp.Base.{◌≡◌, refl, sym, subst, Bool, true, false, Option, arith, nat_eq, list_eq, Bytes}

-- A relation of the states before and after: it holds when nothing is done, over two parts in turn, and
-- over what is done to the connection.
pub record Change : Type 1 where
  pub Holds : Talk → Talk → Type 0
  pub idle : (t : Talk) → Holds t t
  pub chain : (t t' t'' : Talk) → Holds t t' → Holds t' t'' → Holds t t''
  pub writes : (m : Sent) (t : Talk) → Holds t (write m t).0
  pub flushes : (t : Talk) → Holds t (flush t).0
  pub reads : {A : Type 0} → (wanted : Incoming → Option A) → (t : Talk) → Holds t (read wanted t).0

pub write-hub : (m : Sent) (t : Talk) → (write m t).0.hub ≡ t.hub
unfolding write
write-hub m t = ground arith

pub read-hub :
    {A : Type 0} (wanted : Incoming → Option A) (t : Talk) → (read wanted t).0.hub ≡ t.hub
unfolding read
read-hub wanted t = ground arith

pub flush-hub : (t : Talk) → (flush t).0.hub ≡ t.hub
unfolding flush
flush-hub t = refl

-- a relation of the hubs
abbrev pub on_hubs :
    (R : Hub → Hub → Type 0)
    → ((h : Hub) → R h h)
    → ((h h' h'' : Hub) → R h h' → R h' h'' → R h h'')
    → Change
on_hubs R idle chain =
    let still = λ (t t' : Talk) (e : t'.hub ≡ t.hub). subst (R t.hub) (sym e) (idle t.hub) in
    record {
      Holds = λ t t'. R t.hub t'.hub;
      idle = λ t. idle t.hub;
      chain = λ t t' t''. chain t.hub t'.hub t''.hub;
      writes = λ m t. still t (write m t).0 (write-hub m t);
      flushes = λ t. still t (flush t).0 (flush-hub t);
      reads = λ wanted t. still t (read wanted t).0 (read-hub wanted t);
    }

module _ (ch : Change) where
  open ch use {Holds, idle, chain}

  -- the states before and after a part are related
  abbrev pub Along : {A : Type 0} → M A → Type 0
  Along m = (t : Talk) → Holds t (m t).0

  goes_on-Along :
      {A B : Type 0} (f : A → M B) (t : Talk) (r : Talk × Answer A)
      → ((a : A) → Along (f a))
      → Holds t r.0
      → Holds t (goes_on f r).0
  goes_on-Along f t (t', got a) k first = chain t t' (f a t').0 first (k a t')
  goes_on-Along f t (t', fails e) k first = first

  pub >>=-Along :
      {A B : Type 0} (m : M A) (f : A → M B) → Along m → ((a : A) → Along (f a)) → Along (m >>= f)
  >>=-Along m f first k t = goes_on-Along f t (m t) k (first t)

  pub write-Along : (m : Sent) → Along (write m)
  write-Along m = ch.writes m

  pub flush-Along : Along flush
  flush-Along = ch.flushes

  pub read-Along : {A : Type 0} (wanted : Incoming → Option A) → Along (read wanted)
  read-Along wanted = ch.reads wanted

  pub pure-Along : {A : Type 0} (a : A) → Along (pure a)
  unfolding pure
  pure-Along a t = idle t

  pub raise-Along : (A : Type 0) (e : Failure) → Along (raise {A = A} e)
  unfolding raise
  raise-Along A e t = idle t

  pub guard-Along : (b : Bool) (e : Failure) → Along (guard b e)
  unfolding guard
  guard-Along true e t = idle t
  guard-Along false e t = idle t

  pub nmdc_lock-Along : (lock_key : Bytes) → Along (nmdc_lock lock_key)
  unfolding nmdc_lock
  nmdc_lock-Along lock_key =
      search (>>=-Along, write-Along, read-Along, guard-Along, pure-Along) depth 20
