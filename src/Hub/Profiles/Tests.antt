-- ===== src/Hub/Profiles/Tests.antt =====
-- Profiles at which the theorems on hub/profiles.go are applied.
use go_dcpp.Hub.Profiles.{boolean, UserProfile, Profiles, name_operator, name_registered, get}
use go_dcpp.Hub.Profiles.Chain.{IsChain, nearest, get-nearest}
use go_dcpp.Hub.Profiles.Load.Circle.{flags_of, loaded, load-loaded, get_never_ends}
use go_dcpp.Base.{◌≡◌, refl, true, none, some, [], ◌∷◌, arith, nat_eq, list_eq, codes, lookup}

abbrev vip : UserProfile
vip = record {
  id = codes "vip";
  flags = (codes "color", boolean true) ∷ [];
  parent = some name_registered;
}

abbrev plain_user : UserProfile
plain_user = record {
  id = name_registered;
  flags = (codes "chat", boolean true) ∷ [];
  parent = none;
}

abbrev two : Profiles
two = (codes "vip", vip) ∷ (name_registered, plain_user) ∷ []

two-IsChain : IsChain two (some (codes "vip")) (vip ∷ plain_user ∷ [])
unfolding lookup
two-IsChain = (codes "vip", refl, refl, (name_registered, refl, refl, refl))

get-nearest_example :
    get 3 two (codes "chat") (some (codes "vip"))
    ≡ some (nearest (codes "chat") (vip ∷ plain_user ∷ []))
get-nearest_example =
    get-nearest two (codes "chat") (vip ∷ plain_user ∷ []) (some (codes "vip")) 3 two-IsChain
      (omega arith)

no_color :
    (lookup (codes "color") (flags_of name_operator) ≡ none)
    × (lookup (codes "color") (flags_of name_registered) ≡ none)
unfolding lookup
no_color = (refl, refl)

get_never_ends_example :
    (get 1000 loaded (codes "color") (some name_operator) ≡ none)
    × (get 1000 loaded (codes "color") (some name_registered) ≡ none)
get_never_ends_example =
    get_never_ends loaded (codes "color") load-loaded no_color.0 no_color.1 1000
