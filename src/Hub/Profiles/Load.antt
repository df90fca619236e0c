-- ===== src/Hub/Profiles/Load.antt =====
-- `DefaultProfiles` and `loadProfiles` of hub/profiles.go.
pub mod Circle
use go_dcpp.Hub.Profiles.{
  Value, boolean, text, UserProfile, Profiles, profile_parent, perm_owner, name_root,
  name_registered, name_operator, name_guest, get, as_string,
}
use go_dcpp.Base.{
  true, Option, none, some, List, [], ◌∷◌, ◌++◌, if◌then◌else◌, nat_eq, list_eq, is_some, Bytes,
  codes, drop, Map, lookup, insert,
}

abbrev pub Flags : Type 0
Flags = Map Bytes Value

abbrev flag : Bytes → Bytes × Value
flag key = (key, boolean true)

-- The order is one of those in which Go may visit the map.
abbrev pub default_profiles : Map Bytes Flags
default_profiles =
    (name_root, flag perm_owner ∷ flag (codes "icon.op") ∷ [])
    ∷ (
      name_operator,
      (profile_parent, text name_registered)
          ∷ flag (codes "icon.op")
          ∷ flag (codes "rooms.list")
          ∷ flag (codes "hub.broadcast")
          ∷ flag (codes "user.drop")
          ∷ flag (codes "user.ip")
          ∷ flag (codes "ban.ip")
          ∷ [],
    )
    ∷ (
      name_registered,
      (profile_parent, text name_guest) ∷ flag (codes "icon.reg") ∷ flag (codes "rooms.join") ∷ [],
    )
    ∷ (name_guest, [])
    ∷ []

-- What `db.GetProfile(id)` returns: an error, nil, or a profile.
pub data Fetched : Type 0 where
  failed absent : Fetched
  found : Flags → Fetched

-- the two variables that the loops fill
pub record Loading : Type 0 where
  pub m : Profiles
  pub need_parent : List Bytes

-- a new profile, noted in `needParent` if it names a parent
add_profile : Bytes → Flags → Loading → Loading
add_profile id v l = record {
  m = insert id (record { id = id; flags = v; parent = none }) l.m;
  need_parent =
      if is_some (lookup profile_parent v) then l.need_parent ++ id ∷ [] else l.need_parent;
}

add_defaults : Map Bytes Flags → Loading → Loading
unfolding add_profile
add_defaults [] l = l
add_defaults ((id, v) ∷ rest) l = add_defaults rest (add_profile id v l)

-- for k, v := range pr { p.m[k] = v }
merge : Flags → Flags → Flags
merge [] m = m
merge ((k, v) ∷ rest) m = merge rest (insert k v m)

add_stored : Bytes → Flags → Loading → Loading
unfolding add_profile merge
add_stored id pr l = elim (lookup id l.m) [
  | some p ↦ record l { m = insert id (record p { flags = merge pr p.flags }) l.m }
  | none ↦ add_profile id pr l
]

-- The loop over `ids`; `none` is the error that ends it.
add_all_stored : List (Bytes × Fetched) → Loading → Option Loading
unfolding add_stored
add_all_stored [] l = some l
add_all_stored ((id, failed) ∷ rest) l = none
add_all_stored ((id, absent) ∷ rest) l = add_all_stored rest l
add_all_stored ((id, found pr) ∷ rest) l = add_all_stored rest (add_stored id pr l)

-- par, ok := m[p.GetString(ProfileParent)]; a profile in `needParent` has the key itself, so the
-- walk of `GetString` ends at once
link : Bytes → Profiles → Profiles
link q s = elim (get 1 s profile_parent (some q)) [
  | none ↦ s
  | some v ↦ elim (lookup q s) [
    | none ↦ s
    | some p ↦ elim (lookup (as_string v) s) [
      | none ↦ s
      | some par ↦ insert q (record p { parent = some (as_string v) }) s
    ]
  ]
]

link_all : List Bytes → Profiles → Profiles
unfolding link
link_all [] s = s
link_all (q ∷ qs) s = link_all qs (link q s)

-- `loadProfiles`, with what the database has, if there is one.
pub load : Option (List (Bytes × Fetched)) → Option Profiles
unfolding add_defaults add_all_stored link_all
load db =
    let start = add_defaults default_profiles (record { m = []; need_parent = [] }) in
    let stored : Option Loading = elim db [
      | none ↦ some start
      | some ids ↦ add_all_stored ids start
    ] in
    elim stored [ none ↦ none | some l ↦ some (link_all l.need_parent l.m) ]
