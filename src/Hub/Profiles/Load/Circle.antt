-- ===== src/Hub/Profiles/Load/Circle.antt =====
-- A stored profile can close a circle of parents.
use go_dcpp.Hub.Profiles.{
  text, UserProfile, Profiles, profile_parent, name_root, name_guest, name_registered,
  name_operator, get, as_string,
}
use go_dcpp.Hub.Profiles.Chain.{IsLoop, get-none_of_loop}
use go_dcpp.Hub.Profiles.Load.{Flags, Fetched, found, default_profiles, load}
use mathlib.Core.Option.{some-injective}
use go_dcpp.Base.{
  ℕ, ◌≡◌, refl, sym, ap, ◌∙◌, inl, inr, Bool, ◌||◌, Option, none, some, List, [], ◌∷◌, arith, ◌==◌,
  nat_eq, ==_iff, list_eq, Bool-cases, is_some, Bytes, lookup, insert,
}

-- The database has one profile: that of registered users, under operators.
abbrev pub under_operators : Option (List (Bytes × Fetched))
under_operators = some ((name_registered, found ((profile_parent, text name_operator) ∷ [])) ∷ [])

-- The flags of a default profile.
abbrev pub flags_of : Bytes → Flags
flags_of id = elim (lookup id default_profiles) [ none ↦ [] | some m ↦ m ]

abbrev registered_flags : Flags
registered_flags = insert profile_parent (text name_operator) (flags_of name_registered)

pub loaded : Profiles
loaded =
    (name_root, record { id = name_root; flags = flags_of name_root; parent = none })
    ∷ (
      name_operator,
      record { id = name_operator; flags = flags_of name_operator; parent = some name_registered },
    )
    ∷ (
      name_registered,
      record { id = name_registered; flags = registered_flags; parent = some name_operator },
    )
    ∷ (name_guest, record { id = name_guest; flags = flags_of name_guest; parent = none })
    ∷ []

pub load-loaded : load under_operators ≡ some loaded
unfolding load get as_string loaded lookup insert is_some
load-loaded = refl

in_circle : Bytes → Bool
in_circle q = q == name_operator || q == name_registered

operator_found :
    (u : UserProfile) × (lookup name_operator loaded ≡ some u)
    × (u.flags ≡ flags_of name_operator)
    × (u.parent ≡ some name_registered)
unfolding loaded lookup
operator_found = (_, refl, refl, refl)

registered_found :
    (u : UserProfile) × (lookup name_registered loaded ≡ some u)
    × (u.flags ≡ registered_flags)
    × (u.parent ≡ some name_operator)
unfolding loaded lookup
registered_found = (_, refl, refl, refl)

registered_misses :
    (key : Bytes)
    → lookup key (flags_of name_registered) ≡ none
    → lookup key registered_flags ≡ none
unfolding lookup insert
registered_misses key h = ground arith

circle-IsLoop :
    (key : Bytes)
    → lookup key (flags_of name_operator) ≡ none
    → lookup key (flags_of name_registered) ≡ none
    → IsLoop loaded key in_circle
unfolding in_circle
circle-IsLoop key op reg = record {
  next = λ q h.
      let (u, at_u, flags_u, up_u) = operator_found in
      let (v, at_v, flags_v, up_v) = registered_found in
      elim (Bool-cases (q == name_operator)) [
        | inl e ↦
            let here = (==_iff q name_operator).0 e in
            (
              u,
              name_registered,
              ap (λ k. lookup k loaded) here ∙ at_u,
              ap (λ m. lookup key m) flags_u ∙ op,
              up_u,
              refl,
            )
        | inr e ↦
            let here : q ≡ name_registered = (==_iff q name_registered).0 (rw e at h) in
            (
              v,
              name_operator,
              ap (λ k. lookup k loaded) here ∙ at_v,
              ap (λ m. lookup key m) flags_v ∙ registered_misses key reg,
              up_v,
              refl,
            )
      ];
}

-- In the profiles that are loaded when a stored profile puts registered users under operators, `Get`
-- of a key that neither of the two profiles has never ends, for an operator and for a registered
-- user alike.
pub get_never_ends :
    (s : Profiles) (key : Bytes)
    → load under_operators ≡ some s
    → lookup key (flags_of name_operator) ≡ none
    → lookup key (flags_of name_registered) ≡ none
    → (fuel : ℕ)
    → (get fuel s key (some name_operator) ≡ none) × (get fuel s key (some name_registered) ≡ none)
unfolding in_circle
get_never_ends s key e op reg fuel =
    let same : loaded ≡ s = some-injective loaded s (sym load-loaded ∙ e) in
    let l = circle-IsLoop key op reg in
    rw (← same) (
      get-none_of_loop loaded key in_circle name_operator l refl fuel,
      get-none_of_loop loaded key in_circle name_registered l refl fuel,
    )
