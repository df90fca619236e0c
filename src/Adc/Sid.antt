-- ===== src/Adc/Sid.antt =====
-- Session identifiers of adc/types/types.go: `SID`, `SIDFromInt` and its text form.
pub mod Distinct
use go_dcpp.Base.{
  ℕ, ◌/◌, ◌%◌, ◌≡◌, ◌↔◌, Bool, true, ◌&&◌, Option, none, some, [], ◌∷◌, arith, Eq, ◌==◌, nat_eq,
  list_eq, Bytes, codes, get_or,
}

-- `SID` is `[4]byte`.
pub data Sid : Type 0 where
  sid : ℕ → ℕ → ℕ → ℕ → Sid

abbrev pub base32_enc : Bytes
base32_enc = codes "ABCDEFGHIJKLMNOPQRSTUVWXYZ234567"

-- base32Enc[v%32]
unfoldable pub digit : ℕ → ℕ
digit v = get_or base32_enc (v % 32) 0

-- The loop runs from the last byte to the first, and divides `v` by 32 in each round.
unfoldable pub sid_from_int : ℕ → Sid
unfolding digit
sid_from_int v = sid (digit (v / 32 / 32 / 32)) (digit (v / 32 / 32)) (digit (v / 32)) (digit v)

-- `MarshalAdc`: id[:]
unfoldable pub marshal_sid : Sid → Bytes
marshal_sid (sid a b c d) = a ∷ b ∷ c ∷ d ∷ []

-- `UnmarshalAdc`: exactly four bytes.
unfoldable pub unmarshal_sid : Bytes → Option Sid
unmarshal_sid (a ∷ b ∷ c ∷ d ∷ []) = some (sid a b c d)
unmarshal_sid _ = none

pub sid_beq : Sid → Sid → Bool
sid_beq (sid a b c d) (sid e f g h) = a == e && b == f && c == g && d == h

pub sid_beq_iff : (s t : Sid) → (sid_beq s t ≡ true) ↔ (s ≡ t)
unfolding sid_beq
sid_beq_iff (sid a b c d) (sid e f g h) = ground arith

instance abbrev pub sid_eq : Eq Sid
unfolding sid_beq
sid_eq = record { beq = sid_beq; beq_iff = sid_beq_iff }
