-- ===== src/Adc/Sid/Distinct.antt =====
-- Which integers share an identifier of `SIDFromInt`.
use go_dcpp.Adc.Sid.{Sid, sid, base32_enc, digit, sid_from_int}
use go_dcpp.Base.{
  ℕ, zero, suc, ◌+◌, ◌-◌, ◌*◌, ◌/◌, ◌%◌, ◌^◌, ◌<◌, ◌≡◌, refl, ap, ◌↔◌, Bool, true, ◌&&◌, arith, leb,
  if◌then◌else◌, ◌==◌, nat_eq, ==_iff, list_eq, get_or,
}

-- The place of a character in `base32Enc`.
value : ℕ → ℕ
value c = if leb b'A' c then c - b'A' else c - b'2' + 26

-- a test that holds of the numbers below a bound
passes : (ℕ → Bool) → ℕ → Bool
passes test zero = true
passes test (suc m) = passes test m && test m

passes_below : (test : ℕ → Bool) (m v : ℕ) → v < m → passes test m ≡ true → test v ≡ true
unfolding passes
passes_below test zero v below all = absurd (omega arith)
passes_below test (suc m) v below all = ground (arith, passes_below test m v)

value_table : passes (λ d. value (get_or base32_enc d 0) == d) 32 ≡ true
unfolding passes value
value_table = refl

value-digit : (v : ℕ) → value (digit v) ≡ v % 32
unfolding digit
value-digit v = (==_iff _ _).0 (passes_below _ 32 (v % 32) (omega arith) value_table)

number : Sid → ℕ
number (sid a b c d) = ((value a * 32 + value b) * 32 + value c) * 32 + value d

number-sid_from_int : (v : ℕ) → number (sid_from_int v) ≡ v % 2 ^ 20
unfolding number sid_from_int
number-sid_from_int v =
    let a = value-digit (v / 32 / 32 / 32) in
    let b = value-digit (v / 32 / 32) in
    let c = value-digit (v / 32) in let d = value-digit v in rw (a, b, c, d) (omega arith)

digit_cong : (v w : ℕ) → v % 32 ≡ w % 32 → digit v ≡ digit w
unfolding digit
digit_cong v w e = ap (λ k. get_or base32_enc k 0) e

sid_from_int_mod : (v : ℕ) → sid_from_int v ≡ sid_from_int (v % 2 ^ 20)
unfolding sid_from_int
sid_from_int_mod v =
    let w : ℕ = v % 2 ^ 20 in
    cc (
      digit_cong (v / 32 / 32 / 32) (w / 32 / 32 / 32) (omega arith),
      digit_cong (v / 32 / 32) (w / 32 / 32) (omega arith),
      digit_cong (v / 32) (w / 32) (omega arith),
      digit_cong v w (omega arith),
    )

-- `SIDFromInt` gives two integers the same identifier exactly when they agree modulo 2^20: among
-- the 20-bit integers no two share one, and each further block of 2^20 integers repeats them all.
pub sid_from_int_eq_iff : (v w : ℕ) → (sid_from_int v ≡ sid_from_int w) ↔ (v % 2 ^ 20 ≡ w % 2 ^ 20)
sid_from_int_eq_iff v w = (
  λ e. cc (number-sid_from_int v, number-sid_from_int w),
  λ e. cc (sid_from_int_mod v, sid_from_int_mod w, ap sid_from_int e),
)
