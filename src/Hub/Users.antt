-- ===== src/Hub/Users.antt =====
-- Registered users: the in-memory database `memDB` of hub/users.go, and the operations of the hub on
-- its users there. Each call runs whole, under the lock that it takes; a value that `Clone` copies is
-- the same value.
pub mod Names
pub mod Records
use go_dcpp.Hub.Bans.{BanKey, Ban}
use go_dcpp.Hub.Profiles as Profiles
use go_dcpp.Base.{
  ℕ, Bool, true, false, Option, none, some, List, [], ◌∷◌, map, if◌then◌else◌, ◌==◌, nat_eq,
  list_eq, is_some, Bytes, Map, lookup, insert, remove,
}

pub record UserRecord : Type 0 where
  pub name : Bytes
  pub pass : Bytes
  pub profile : Bytes

-- `memDB`
pub record MemDb : Type 0 where
  pub users : Map Bytes UserRecord
  pub profiles : Map Bytes (Map Bytes Profiles.Value)
  pub bans : Map BanKey Ban

-- `NewDatabase`
unfoldable pub new_database : MemDb
new_database = record { users = []; profiles = []; bans = [] }

pub data Error : Type 0 where
  reg_disabled not_found name_changed name_taken : Error
  -- those of hub/hubdb/hubdb.go
  bad_format bad_index store_failed : Error
  -- an error of the caller's function
  failed : ℕ → Error

pub data Result {ℓ} (A : Type ℓ) : Type ℓ where
  ok : A → Result A
  err : Error → Result A

-- the methods of `memDB` on users
unfoldable pub db_is_registered : Bytes → MemDb → Bool
db_is_registered name db = is_some (lookup name db.users)

unfoldable pub db_get_user : Bytes → MemDb → Option UserRecord
db_get_user name db = lookup name db.users

pub db_list_users : MemDb → List UserRecord
db_list_users db = map (λ (e : Bytes × UserRecord). e.1) db.users

unfoldable pub db_create_user : UserRecord → MemDb → MemDb
db_create_user u db = record db { users = insert u.name u db.users }

unfoldable pub db_delete_user : Bytes → MemDb → MemDb
db_delete_user name db = record db { users = remove name db.users }

-- A function that `UpdateUser` is given: the record as it leaves it, and whether to store it.
abbrev pub Update : Type 0
Update = Option UserRecord → Result (Option UserRecord × Bool)

-- if err != nil || !update { return err }; db.users[name] = u
unfoldable pub store_update :
    Bytes → Result (Option UserRecord × Bool) → MemDb → MemDb × Result (Unit {0})
store_update name (err e) db = (db, err e)
store_update name (ok (u, false)) db = (db, ok tt)
store_update name (ok (none, true)) db = (db, ok tt)
store_update name (ok (some u, true)) db = (record db { users = insert name u db.users }, ok tt)

-- _, err := fnc(nil); return err
unfoldable pub only_error : Result (Option UserRecord × Bool) → Result (Unit {0})
only_error (err e) = err e
only_error (ok r) = ok tt

unfoldable pub db_update_user : Bytes → Update → MemDb → MemDb × Result (Unit {0})
unfolding store_update only_error
db_update_user name fnc db = elim (lookup name db.users) [
  | none ↦ (db, only_error (fnc none))
  | some u ↦ store_update name (fnc (some u)) db
]

-- the methods of `memDB` on profiles
pub db_get_profile : Bytes → MemDb → Option (Map Bytes Profiles.Value)
db_get_profile id db = lookup id db.profiles

pub db_put_profile : Bytes → Map Bytes Profiles.Value → MemDb → MemDb
db_put_profile id m db = record db { profiles = insert id m db.profiles }

pub db_del_profile : Bytes → MemDb → MemDb
db_del_profile id db = record db { profiles = remove id db.profiles }

pub db_list_profiles : MemDb → List Bytes
db_list_profiles db = map (λ (e : Bytes × Map Bytes Profiles.Value). e.0) db.profiles

-- the methods of `memDB` on bans
pub db_list_bans : MemDb → List Ban
db_list_bans db = map (λ (e : BanKey × Ban). e.1) db.bans

unfoldable pub db_get_ban : BanKey → MemDb → Option Ban
db_get_ban k db = lookup k db.bans

unfoldable pub put_all : List Ban → Map BanKey Ban → Map BanKey Ban
put_all [] m = m
put_all (b ∷ bans) m = put_all bans (insert b.key b m)

unfoldable pub db_put_bans : List Ban → MemDb → MemDb
db_put_bans bans db = record db { bans = put_all bans db.bans }

unfoldable pub del_all : List BanKey → Map BanKey Ban → Map BanKey Ban
del_all [] m = m
del_all (k ∷ keys) m = del_all keys (remove k m)

unfoldable pub db_del_bans : List BanKey → MemDb → MemDb
db_del_bans keys db = record db { bans = del_all keys db.bans }

unfoldable pub db_clear_bans : MemDb → MemDb
db_clear_bans db = record db { bans = [] }

-- `Hub.RegisterUser`; the database is `none` when the hub has none
pub register_user : Bytes → Bytes → Option MemDb → Option MemDb × Result (Unit {0})
register_user name pass none = (none, err reg_disabled)
register_user name pass (some db) =
    (some (db_create_user (record { name = name; pass = pass; profile = [] }) db), ok tt)

-- `Hub.DeleteUser`
pub delete_user : Bytes → Option MemDb → Option MemDb × Result (Unit {0})
delete_user name none = (none, ok tt)
delete_user name (some db) = (some (db_delete_user name db), ok tt)

-- the function that `Hub.UpdateUser` gives to the database
unfoldable pub check_update : Bytes → (UserRecord → Result (UserRecord × Bool)) → Update
check_update name fnc none = err not_found
check_update name fnc (some u) = elim (fnc u) [
  | err e ↦ ok (some u, false)
  | ok (u', update) ↦ if u'.name == name then ok (some u', update) else err name_changed
]

-- `Hub.UpdateUser`
pub update_user :
    Bytes
    → (UserRecord → Result (UserRecord × Bool))
    → Option MemDb
    → Option MemDb × Result (Unit {0})
unfolding check_update
update_user name fnc none = (none, err reg_disabled)
update_user name fnc (some db) =
    let (db', r) = db_update_user name (check_update name fnc) db in (some db', r)

-- `Hub.IsRegistered`
unfoldable pub is_registered : Bytes → Option MemDb → Bool
is_registered name none = false
is_registered name (some db) = db_is_registered name db

-- `Hub.getUser`: the record and the id of the profile of the user; `profiles` are those of the hub,
-- and the profile is nil when neither the stored one nor that of registered users is there
unfoldable pub get_user :
    Bytes → Profiles.Profiles → Option MemDb → Option (UserRecord × Option Profiles.UserProfile)
get_user name profiles none = none
get_user name profiles (some db) = elim (db_get_user name db) [
  | none ↦ none
  | some rec ↦ elim (lookup rec.profile profiles) [
    | some p ↦ some (rec, some p)
    | none ↦ some (rec, lookup Profiles.name_registered profiles)
  ]
]
