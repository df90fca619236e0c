-- ===== src/Hub/Profiles.antt =====
-- User profiles and permissions: hub/profiles.go, and the permission tests of `User` in hub/users.go.
-- A profile is named by its id: every pointer to one points into `h.profiles.m`, whose entries are
-- not replaced. The walk up the parents is a `for p != nil` loop; it has fuel, and `none` means that
-- it has not ended yet.
pub mod Chain
pub mod Load
mod Tests
use go_dcpp.Base.{
  ℕ, zero, suc, Bool, true, false, Option, none, some, [], ◌==◌, nat_eq, list_eq, Bytes, codes, Map,
  lookup, insert, remove,
}

-- interface{}: the types that the code asks for, and the others
pub data Value : Type 0 where
  boolean : Bool → Value
  text : Bytes → Value
  other : ℕ → Value

pub record UserProfile : Type 0 where
  pub id : Bytes
  pub flags : Map Bytes Value
  pub parent : Option Bytes

abbrev pub Profiles : Type 0
Profiles = Map Bytes UserProfile

abbrev pub profile_parent : Bytes
profile_parent = codes "parent"

abbrev pub perm_owner : Bytes
perm_owner = codes "owner"

abbrev pub name_root : Bytes
name_root = codes "root"

abbrev pub name_registered : Bytes
name_registered = codes "user"

abbrev pub name_operator : Bytes
name_operator = codes "op"

abbrev pub name_guest : Bytes
name_guest = codes "guest"

-- The loop of `Get`: the value of the nearest profile on the way up that has the key.
pub get : ℕ → Profiles → Bytes → Option Bytes → Option (Option Value)
get zero s key p = none
get (suc fuel) s key none = some none
get (suc fuel) s key (some id) = elim (lookup id s) [
  | none ↦ some none
  | some p ↦ elim (lookup key p.flags) [ some v ↦ some (some v) | none ↦ get fuel s key p.parent ]
]

-- The loop of `HasParent`.
pub has_parent : ℕ → Profiles → Bytes → Option Bytes → Option Bool
has_parent zero s id p = none
has_parent (suc fuel) s id none = some false
has_parent (suc fuel) s id (some q) = elim (lookup q s) [
  | none ↦ some false
  | some p ↦ elim (p.id == id) [ true ↦ some true | false ↦ has_parent fuel s id p.parent ]
]

-- `GetBool`: v, ok := p.Get(key); b, _ := v.(bool)
pub as_bool : Option Value → Bool
as_bool (some (boolean b)) = b
as_bool _ = false

-- `GetString`
pub as_string : Option Value → Bytes
as_string (some (text t)) = t
as_string _ = []

unfoldable pub map_result {ℓ κ} : {A : Type ℓ} {B : Type κ} → (A → B) → Option A → Option B
map_result f none = none
map_result f (some a) = some (f a)

-- `Has`
pub has : ℕ → Profiles → Bytes → Option Bytes → Option Bool
unfolding as_bool map_result
has fuel s flag p = map_result as_bool (get fuel s flag p)

-- `ID`; a nil profile has the empty id
pub profile_id : Profiles → Option Bytes → Bytes
profile_id s none = []
profile_id s (some q) = elim (lookup q s) [ none ↦ [] | some p ↦ p.id ]

-- `UserProfile.IsOwner`: p.ID() == ProfileNameRoot || p.Has(PermOwner)
pub is_owner : ℕ → Profiles → Option Bytes → Option Bool
unfolding profile_id
is_owner fuel s p = elim (profile_id s p == name_root) [
  | true ↦ some true
  | false ↦ has fuel s perm_owner p
]

-- a || b, where `b` is not asked if `a` holds
pub or_else : Option Bool → Option Bool → Option Bool
or_else none b = none
or_else (some true) b = some true
or_else (some false) b = b

-- `User.HasPerm`, for the profile of the user
pub has_perm : ℕ → Profiles → Bytes → Option Bytes → Option Bool
unfolding or_else
has_perm fuel s perm p = elim (perm == []) [
  | true ↦ some true
  | false ↦ or_else (is_owner fuel s p) (has fuel s perm p)
]

-- `User.IsOp`
pub is_op : ℕ → Profiles → Option Bytes → Option Bool
unfolding or_else
is_op fuel s none = some false
is_op fuel s (some q) =
    or_else (is_owner fuel s (some q)) (has_parent fuel s name_operator (some q))

-- `User.IsRegistered`
pub is_registered : ℕ → Profiles → Option Bytes → Option Bool
unfolding or_else
is_registered fuel s none = some false
is_registered fuel s (some q) = or_else (is_owner fuel s (some q)) (
    or_else (has_parent fuel s name_operator (some q)) (has_parent fuel s name_registered (some q)))

-- `SetParent` of the profile `q`
pub set_parent : Bytes → Option Bytes → Profiles → Profiles
set_parent q par s = elim (lookup q s) [
  | none ↦ s
  | some p ↦ elim par [
    | none ↦ insert q (record p { parent = none; flags = remove profile_parent p.flags }) s
    | some r ↦
        insert q (record p { parent = some r; flags = insert profile_parent (text r) p.flags }) s
  ]
]
