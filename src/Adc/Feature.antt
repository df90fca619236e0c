-- ===== src/Adc/Feature.antt =====
-- `Feature` of adc/proto.go.
use go_dcpp.Base.{ℕ, ◌≡◌, ◌↔◌, Bool, true, ◌&&◌, [], ◌∷◌, arith, Eq, ◌==◌, nat_eq, list_eq, Bytes}

-- `Feature` is `[4]byte`.
pub data Feature : Type 0 where
  feature : ℕ → ℕ → ℕ → ℕ → Feature

abbrev pub feature_beq : Feature → Feature → Bool
feature_beq (feature a b c d) (feature e f g h) = a == e && b == f && c == g && d == h

pub feature_beq_iff : (s t : Feature) → (feature_beq s t ≡ true) ↔ (s ≡ t)
feature_beq_iff (feature a b c d) (feature e f g h) = ground arith

instance abbrev pub feature_eq : Eq Feature
feature_eq = record { beq = feature_beq; beq_iff = feature_beq_iff }

-- `Feature.MarshalAdc`
unfoldable pub marshal_feature : Feature → Bytes
marshal_feature (feature a b c d) = a ∷ b ∷ c ∷ d ∷ []
