-- ===== src/Adc/ModFeatures.antt =====
-- The features that a peer adds and removes: `ModFeatures` of adc/proto.go. `none` is the nil map. Of
-- `UnmarshalAdc` what follows the decoding of the two lists of names is modelled.
use go_dcpp.Adc.Feature.{Feature, feature, feature_eq}
use go_dcpp.Base.{
  ◌≡◌, refl, Bool, true, false, ◌&&◌, ◌||◌, Option, none, some, List, [], ◌∷◌, arith, if◌then◌else◌,
  nat_eq, ==_iff, list_eq, is_some, Bytes, Map, lookup, insert, lookup-insert, IsMap,
}

abbrev pub ModFeatures : Type 0
ModFeatures = Map Feature Bool

-- `Feature.UnmarshalAdc`
pub unmarshal_feature : Bytes → Option Feature
unmarshal_feature (a ∷ b ∷ c ∷ d ∷ []) = some (feature a b c d)
unmarshal_feature _ = none

-- `IsSet`
unfoldable pub is_set : Feature → Option ModFeatures → Bool
is_set s none = false
is_set s (some f) = is_some (lookup s f)

-- for name, add := range fp { fi[name] = add }
set_each : ModFeatures → ModFeatures → ModFeatures
set_each [] fi = fi
set_each ((name, add) ∷ fp) fi = set_each fp (insert name add fi)

as_map : Option ModFeatures → ModFeatures
as_map none = []
as_map (some f) = f

-- `SetFrom`
pub set_from : Option ModFeatures → Option ModFeatures → Option ModFeatures
set_from none none = none
set_from f fp = some (set_each (as_map fp) (as_map f))

-- if sup, ok := fp[name]; sup && ok
unfoldable pub supports : Feature → ModFeatures → Bool
supports s fp = elim (lookup s fp) [ none ↦ false | some v ↦ v ]

-- the loop of `Intersect`
intersect_each : ModFeatures → ModFeatures → ModFeatures → ModFeatures
intersect_each [] fp fi = fi
intersect_each ((name, add) ∷ f) fp fi =
    let rest = intersect_each f fp in
    if add && supports name fp then rest (insert name true fi) else rest fi

-- `Intersect`
pub intersect : Option ModFeatures → Option ModFeatures → Option ModFeatures
intersect none fp = none
intersect (some f) none = none
intersect (some f) (some fp) = some (intersect_each f fp [])

-- The loops of `UnmarshalAdc`; the second component tells whether a name was refused.
mark_each : Bool → List Bytes → ModFeatures → ModFeatures × Bool
mark_each v [] m = (m, false)
mark_each v (name ∷ names) m = elim (unmarshal_feature name) [
  | none ↦ (m, true)
  | some s ↦ mark_each v names (insert s v m)
]

-- `UnmarshalAdc`, given the names that are added and those that are removed
pub unmarshal_changes : List Bytes → List Bytes → ModFeatures → ModFeatures × Bool
unmarshal_changes adds removes m = go (mark_each false removes m)
  where
    go : ModFeatures × Bool → ModFeatures × Bool
    go (m', failed) = if failed then (m', true) else mark_each true adds m'

set_each-lookup :
    (s : Feature) (fp fi : ModFeatures)
    → IsMap fp
    → lookup s (set_each fp fi)
      ≡ elim (lookup s fp) as (λ x. Option Bool) [ none ↦ lookup s fi | some v ↦ some v ]
unfolding set_each lookup
set_each-lookup s [] fi h = refl
set_each-lookup s ((k, v) ∷ fp) fi h =
    ground
      (arith, set_each-lookup s fp (insert k v fi) h.1, lookup-insert k s v fi, ==_iff k s, h.0)

intersect_each-lookup :
    (s : Feature) (f fp fi : ModFeatures)
    → IsMap f
    → lookup s (intersect_each f fp fi)
      ≡ (if supports s f && supports s fp then some true else lookup s fi)
unfolding intersect_each lookup supports
intersect_each-lookup s [] fp fi h = refl
intersect_each-lookup s ((k, v) ∷ f) fp fi h = ground (
  arith,
  intersect_each-lookup s f fp fi h.1,
  intersect_each-lookup s f fp (insert k true fi) h.1,
  lookup-insert k s true fi,
  ==_iff k s,
  h.0,
)

-- With each feature once in the first map, a feature is set in the intersection of two maps just when both map it to true, and it is then
-- mapped to true.
pub lookup-intersect :
    (s : Feature) (f fp : ModFeatures)
    → IsMap f
    → (m : ModFeatures) × (intersect (some f) (some fp) ≡ some m)
      × (lookup s m ≡ (if supports s f && supports s fp then some true else none))
      × (is_set s (some m) ≡ (supports s f && supports s fp))
unfolding intersect is_set is_some lookup
lookup-intersect s f fp h =
    let e = intersect_each-lookup s f fp [] h in
    (intersect_each f fp [], refl, e, ground (arith, e))

-- With each feature once in the second map, `SetFrom` gives a feature the state that the second map has for it, and else that of the first; so
-- `IsSet` holds of it just when it holds in one of the maps, also if the second maps it to false.
pub lookup-set_from :
    (s : Feature) (f fp : ModFeatures)
    → IsMap fp
    → (m : ModFeatures) × (set_from (some f) (some fp) ≡ some m)
      × (lookup s m
          ≡ elim (lookup s fp) as (λ x. Option Bool) [ none ↦ lookup s f | some v ↦ some v ])
      × (is_set s (some m) ≡ (is_set s (some f) || is_set s (some fp)))
unfolding set_from is_set is_some as_map
lookup-set_from s f fp h =
    let e = set_each-lookup s fp f h in (set_each fp f, refl, e, ground (arith, e))
