-- ===== src/Hub/Nmdc/Search/Words.antt =====
-- strings.Split and strings.Join, with a separator of one byte.
use go_dcpp.Base.{
  ℕ, ◌≡◌, refl, ap, ◌∙◌, ◌≢◌, inl, inr, List, [], ◌∷◌, ◌++◌, arith, if◌then◌else◌, ◌==◌, nat_eq,
  ==_iff, list_eq, Bool-cases, Bytes, All, Lacks,
}

-- one more byte in front of the first part
abbrev onto_first : ℕ → List Bytes → List Bytes
onto_first c [] = (c ∷ []) ∷ []
onto_first c (p ∷ ps) = (c ∷ p) ∷ ps

unfoldable pub split : Bytes → ℕ → List Bytes
split [] sep = [] ∷ []
split (c ∷ s) sep = let rest = split s sep in if c == sep then [] ∷ rest else onto_first c rest

unfoldable pub join : List Bytes → ℕ → Bytes
join [] sep = []
join (p ∷ []) sep = p
join (p ∷ q ∷ ps) sep = p ++ sep ∷ join (q ∷ ps) sep

split_one : (p : Bytes) (sep : ℕ) → Lacks sep p → split p sep ≡ p ∷ []
unfolding split
split_one [] sep lacks = refl
split_one (c ∷ p) sep lacks = ground (arith, split_one p sep)

split_first : (p s : Bytes) (sep : ℕ) → Lacks sep p → split (p ++ sep ∷ s) sep ≡ p ∷ split s sep
unfolding split
split_first [] s sep lacks = ground arith
split_first (c ∷ p) s sep lacks = ground (arith, split_first p s sep)

-- Parts without the separator, at least one, come back.
pub split-join :
    (sep : ℕ) (p : Bytes) (ps : List Bytes)
    → All (Lacks sep) (p ∷ ps)
    → split (join (p ∷ ps) sep) sep ≡ p ∷ ps
unfolding join
split-join sep p [] lacks = split_one p sep lacks.0
split-join sep p (q ∷ ps) lacks =
    split_first p (join (q ∷ ps) sep) sep lacks.0 ∙ ap (◌∷◌ p) (split-join sep q ps lacks.1)

onto_first-join : (c sep : ℕ) (l : List Bytes) → l ≢ [] → join (onto_first c l) sep ≡ c ∷ join l sep
unfolding join
onto_first-join c sep [] some_part = absurd (some_part refl)
onto_first-join c sep (p ∷ []) some_part = refl
onto_first-join c sep (p ∷ q ∷ ps) some_part = refl

onto_first-ne-nil : (c : ℕ) (l : List Bytes) → onto_first c l ≢ []
onto_first-ne-nil c [] = λ e. cc
onto_first-ne-nil c (p ∷ ps) = λ e. cc

split-ne-nil : (s : Bytes) (sep : ℕ) → split s sep ≢ []
unfolding split
split-ne-nil [] sep = λ e. cc
split-ne-nil (c ∷ s) sep = elim (Bool-cases (c == sep)) [
  | inl same ↦ rw same (λ e. cc)
  | inr other ↦ rw other (onto_first-ne-nil c (split s sep))
]

empty_first-join : (sep : ℕ) (l : List Bytes) → l ≢ [] → join ([] ∷ l) sep ≡ sep ∷ join l sep
unfolding join
empty_first-join sep [] some_part = absurd (some_part refl)
empty_first-join sep (p ∷ ps) some_part = refl

-- The parts of a text make the text.
pub join-split : (s : Bytes) (sep : ℕ) → join (split s sep) sep ≡ s
unfolding split
join-split [] sep = unfold join in refl
join-split (c ∷ s) sep = elim (Bool-cases (c == sep)) [
  | inl same ↦ rw same (
      empty_first-join sep (split s sep) (split-ne-nil s sep)
      ∙ ground (arith, join-split s sep, ==_iff c sep))
  | inr other ↦
      rw other
        (onto_first-join c sep (split s sep) (split-ne-nil s sep) ∙ ap (◌∷◌ c) (join-split s sep))
]
