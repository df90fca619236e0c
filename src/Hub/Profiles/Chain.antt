-- ===== src/Hub/Profiles/Chain.antt =====
-- Where the walk up the parents ends, and what it finds.
use go_dcpp.Hub.Profiles.{Value, UserProfile, Profiles, get, has_parent}
use go_dcpp.Base.{
  ℕ, zero, suc, ◌<◌, ◌≡◌, refl, Bool, true, false, ◌||◌, Option, none, some, List, [], ◌∷◌, arith,
  ◌==◌, nat_eq, list_eq, Bytes, length, lookup,
}

-- `ps` are the profiles from `p` up, to the one that has no parent.
abbrev pub IsChain : Profiles → Option Bytes → List UserProfile → Type 0
IsChain s p [] = p ≡ none
IsChain s p (u ∷ us) = (q : Bytes) × (p ≡ some q) × (lookup q s ≡ some u) × IsChain s u.parent us

-- The value in the nearest profile that has the key.
abbrev pub nearest : Bytes → List UserProfile → Option Value
nearest key [] = none
nearest key (u ∷ us) = elim (lookup key u.flags) [ some v ↦ some v | none ↦ nearest key us ]

abbrev pub has_id : Bytes → List UserProfile → Bool
has_id id [] = false
has_id id (u ∷ us) = u.id == id || has_id id us

-- On a chain of parents that ends, with more fuel than there are profiles on it, `Get` ends, with the
-- value of the nearest profile that has the key, if one has it.
pub get-nearest :
    (s : Profiles) (key : Bytes) (us : List UserProfile) (p : Option Bytes) (fuel : ℕ)
    → IsChain s p us
    → length us < fuel
    → get fuel s key p ≡ some (nearest key us)
unfolding get
get-nearest s key us p zero c h = absurd (omega arith)
get-nearest s key [] p (suc fuel) c h = rw c refl
get-nearest s key (u ∷ us) p (suc fuel) (q, e, found, c) h =
    ground (arith, get-nearest s key us u.parent fuel c)

-- On a chain of parents that ends, with more fuel than there are profiles on it, `HasParent` ends, and
-- tells whether the id is that of a profile on the chain.
pub has_parent-has_id :
    (s : Profiles) (id : Bytes) (us : List UserProfile) (p : Option Bytes) (fuel : ℕ)
    → IsChain s p us
    → length us < fuel
    → has_parent fuel s id p ≡ some (has_id id us)
unfolding has_parent
has_parent-has_id s id us p zero c h = absurd (omega arith)
has_parent-has_id s id [] p (suc fuel) c h = rw c refl
has_parent-has_id s id (u ∷ us) p (suc fuel) (q, e, found, c) h =
    ground (arith, has_parent-has_id s id us u.parent fuel c)

-- Profiles whose parents are again among them, and none of which has the key.
pub record IsLoop (s : Profiles) (key : Bytes) (In : Bytes → Bool) : Type 0 where
  pub next :
      (q : Bytes)
      → In q ≡ true
      → (u : UserProfile) × (r : Bytes) × (lookup q s ≡ some u)
        × (lookup key u.flags ≡ none)
        × (u.parent ≡ some r)
        × (In r ≡ true)

-- Where the parents run in a circle and no profile on it has the key, `Get` never ends.
pub get-none_of_loop :
    (s : Profiles) (key : Bytes) (In : Bytes → Bool) (q : Bytes)
    → IsLoop s key In
    → In q ≡ true
    → (fuel : ℕ) → get fuel s key (some q) ≡ none
unfolding get
get-none_of_loop s key In q l h zero = refl
get-none_of_loop s key In q l h (suc fuel) =
    let (u, r, found, misses, up, inside) = l.next q h in
    ground (arith, get-none_of_loop s key In r l inside fuel)
