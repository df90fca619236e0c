-- ===== src/Base/Lists.antt =====
-- Slices as lists: measured and indexed by native numbers, under the library's names.
use Prim.Native.Nat.{ℕ, zero, suc, ◌+◌, ◌-◌, min}
use Prim.Native.Char.{code}
use Prim.Native.String.{String}
use mathlib.Core.Path.{◌≡◌, refl, ap}
use mathlib.Core.Logic.{◌≢◌}
use mathlib.Core.List.{List, [], ◌∷◌, ◌++◌}
use native.Mathlib.Omega.{arith}

-- Go's `string` and `[]byte`: bytes, each below 256.
abbrev pub Bytes : Type 0
Bytes = List ℕ

-- The bytes of an ASCII literal.
abbrev pub codes : String → Bytes
codes String.[] = []
codes (String.◌∷◌ c s) = code c ∷ codes s

module _ {ℓ} {A : Type ℓ} where
  abbrev pub length : List A → ℕ
  length [] = 0
  length (x ∷ xs) = suc (length xs)

  abbrev pub take : ℕ → List A → List A
  take zero xs = []
  take (suc n) [] = []
  take (suc n) (x ∷ xs) = x ∷ take n xs

  abbrev pub drop : ℕ → List A → List A
  drop zero xs = xs
  drop (suc n) [] = []
  drop (suc n) (x ∷ xs) = drop n xs

  abbrev pub replicate : ℕ → A → List A
  replicate zero a = []
  replicate (suc n) a = a ∷ replicate n a

  abbrev pub set : List A → ℕ → A → List A
  set [] i v = []
  set (x ∷ xs) zero v = v ∷ xs
  set (x ∷ xs) (suc i) v = x ∷ set xs i v

  abbrev pub get_or : List A → ℕ → A → A
  get_or [] i d = d
  get_or (x ∷ xs) zero d = x
  get_or (x ∷ xs) (suc i) d = get_or xs i d

  pub length-append : (xs ys : List A) → length (xs ++ ys) ≡ length xs + length ys
  length-append [] ys = omega arith
  length-append (x ∷ xs) ys = omega (arith, length-append xs ys)

  pub length-take : (n : ℕ) (xs : List A) → length (take n xs) ≡ min n (length xs)
  length-take zero xs = omega arith
  length-take (suc n) [] = omega arith
  length-take (suc n) (x ∷ xs) = omega (arith, length-take n xs)

  pub length-drop : (n : ℕ) (xs : List A) → length (drop n xs) ≡ length xs - n
  length-drop zero xs = omega arith
  length-drop (suc n) [] = omega arith
  length-drop (suc n) (x ∷ xs) = omega (arith, length-drop n xs)

  pub take-append-drop : (n : ℕ) (xs : List A) → take n xs ++ drop n xs ≡ xs
  take-append-drop zero xs = refl
  take-append-drop (suc n) [] = refl
  take-append-drop (suc n) (x ∷ xs) = ap (◌∷◌ x) (take-append-drop n xs)

  pub length-replicate : (n : ℕ) (a : A) → length (replicate n a) ≡ n
  length-replicate zero a = refl
  length-replicate (suc n) a = ap suc (length-replicate n a)

  pub replicate-add : (m n : ℕ) (x : A) → replicate (m + n) x ≡ replicate m x ++ replicate n x
  replicate-add zero n x = let e : zero + n ≡ n = omega arith in ap (λ k. replicate k x) e
  replicate-add (suc m) n x =
      let e : suc m + n ≡ suc (m + n) = omega arith in
      cc (ap (λ k. replicate k x) e, replicate-add m n x)

module _ {ℓ} {A : Type ℓ} where
  pub take-append : (xs ys : List A) → take (length xs) (xs ++ ys) ≡ xs
  take-append [] ys = refl
  take-append (x ∷ xs) ys = ap (◌∷◌ x) (take-append xs ys)

  pub drop-append : (xs ys : List A) → drop (length xs) (xs ++ ys) ≡ ys
  drop-append [] ys = refl
  drop-append (x ∷ xs) ys = drop-append xs ys

  pub drop-suc-append : (xs ys : List A) → drop (suc (length xs)) (xs ++ ys) ≡ drop 1 ys
  drop-suc-append [] ys = refl
  drop-suc-append (x ∷ xs) ys = drop-suc-append xs ys

  pub get_or-append : (xs ys : List A) (d : A) → get_or (xs ++ ys) (length xs) d ≡ get_or ys 0 d
  get_or-append [] ys d = refl
  get_or-append (x ∷ xs) ys d = get_or-append xs ys d

module _ {ℓ} {A : Type ℓ} where
  -- copy(buf, src): as many elements as both hold
  unfoldable pub overlay : List A → List A → List A
  overlay [] buf = buf
  overlay (x ∷ xs) [] = []
  overlay (x ∷ xs) (b ∷ buf) = x ∷ overlay xs buf

  -- copy(buf[off:], src)
  unfoldable pub copy_at : ℕ → List A → List A → List A
  unfolding overlay
  copy_at zero src buf = overlay src buf
  copy_at (suc off) src [] = []
  copy_at (suc off) src (b ∷ buf) = b ∷ copy_at off src buf

  pub copy_at-append :
      (pre src buf : List A) → copy_at (length pre) src (pre ++ buf) ≡ pre ++ overlay src buf
  unfolding copy_at
  copy_at-append [] src buf = refl
  copy_at-append (c ∷ pre) src buf = ap (◌∷◌ c) (copy_at-append pre src buf)

  pub copy_at-append_cons :
      (pre src buf : List A) (d : A)
      → copy_at (suc (length pre)) src (pre ++ d ∷ buf) ≡ pre ++ d ∷ overlay src buf
  unfolding copy_at
  copy_at-append_cons [] src buf d = refl
  copy_at-append_cons (c ∷ pre) src buf d = ap (◌∷◌ c) (copy_at-append_cons pre src buf d)

  pub overlay-append : (w s : List A) (d : A) → overlay w (replicate (length w) d ++ s) ≡ w ++ s
  unfolding overlay
  overlay-append [] s d = refl
  overlay-append (c ∷ w) s d = ap (◌∷◌ c) (overlay-append w s d)

module _ {ℓ κ} {A : Type ℓ} where
  -- `P` holds of every element.
  abbrev pub All : (A → Type κ) → List A → Type κ
  All P [] = Unit
  All P (x ∷ xs) = P x × All P xs

  pub All-append : (P : A → Type κ) (xs ys : List A) → All P xs → All P ys → All P (xs ++ ys)
  All-append P [] ys _ hy = hy
  All-append P (x ∷ xs) ys (px, hx) hy = (px, All-append P xs ys hx hy)

-- The byte does not occur.
abbrev pub Lacks : ℕ → Bytes → Type 0
Lacks b = All (λ c. c ≢ b)
