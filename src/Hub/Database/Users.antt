-- ===== src/Hub/Database/Users.antt =====
-- The users in the tables of hub/hubdb/hubdb.go: a table by number, and an index of it by name.
pub mod Agree
pub mod Refine
mod Tests
use go_dcpp.Hub.Users.{
  UserRecord, Error, name_taken, bad_format, bad_index, store_failed, Result, ok, err, Update,
}
use go_dcpp.Hub.Database.{
  Value, string, uint, Data, Table, Io, read_tx, write_tx, as_user_rec, from_user_rec,
}
use go_dcpp.Base.{
  Bool, true, false, Option, none, some, List, [], ◌∷◌, if◌then◌else◌, ◌==◌, nat_eq, list_eq,
  is_some, Bytes, length, insert,
}

-- what the values of two tables are when a call returns early with no error, or goes on
module _ (U X : Table) where
  pub record UserTables : Type 0 where
    pub users : U.State
    pub users_by_name : X.State

module _ (U X : Table) (sortable : Value → Bool) where
  -- id, ok := data[0].(tuple.Sortable); a row without data, where the index is out of range, does not
  -- occur
  index_key : Data → Result (Option Value)
  index_key [] = err bad_index
  index_key (v ∷ d) = if sortable v then ok (some v) else err bad_index

  -- `lookupUser`; `ok none` is ErrNotFound
  pub lookup_user : Bytes → UserTables U X → Result (Option Value)
  unfolding index_key
  lookup_user name db = elim (X.get (string name) db.users_by_name) [
    | none ↦ ok none
    | some d ↦ index_key d
  ]

  was_found : Result (Option Value) → Result Bool
  was_found (err e) = err e
  was_found (ok k) = ok (is_some k)

  -- `IsRegistered`
  pub is_registered : Io → Bytes → UserTables U X → Result Bool
  unfolding was_found
  is_registered io name db = read_tx io (λ d. was_found (lookup_user name d)) db

  -- rec, err := asUserRec(data); name != rec.Name
  check_name : Bytes → Result UserRecord → Result (Option UserRecord)
  check_name name (err e) = err e
  check_name name (ok u) = if name == u.name then ok (some u) else err bad_index

  get_body : Bytes → UserTables U X → Result (Option Value) → Result (Option UserRecord)
  unfolding check_name
  get_body name db (err e) = err e
  get_body name db (ok none) = ok none
  get_body name db (ok (some key)) = elim (U.get key db.users) [
    | none ↦ ok none
    | some d ↦ check_name name (as_user_rec d)
  ]

  -- `GetUser`
  pub get_user : Io → Bytes → UserTables U X → Result (Option UserRecord)
  unfolding get_body
  get_user io name db = read_tx io (λ d. get_body name d (lookup_user name d)) db

  list_rows : List (Value × Data) → Result (List UserRecord)
  list_rows [] = ok []
  list_rows ((k, d) ∷ rows) =
      if length d == 3
      then elim (as_user_rec d) [
        | err e ↦ err e
        | ok u ↦ elim (list_rows rows) [ err e ↦ err e | ok us ↦ ok (u ∷ us) ]
      ]
      else err bad_format

  -- `ListUsers`
  pub list_users : Io → UserTables U X → Result (List UserRecord)
  unfolding list_rows
  list_users io db = read_tx io (λ d. list_rows (U.scan d.users)) db

  create_body :
      UserRecord → UserTables U X → Result (Option Value) → Result (Option (UserTables U X))
  create_body u db (err e) = err e
  create_body u db (ok (some key)) = err name_taken
  create_body u db (ok none) =
      let (key, users) = U.insert_auto (from_user_rec u) db.users in
      elim (X.insert (string u.name) (key ∷ []) db.users_by_name) [
        | none ↦ err name_taken
        | some index ↦ ok (some (record { users = users; users_by_name = index }))
      ]

  -- `CreateUser`
  pub create_user : Io → UserRecord → UserTables U X → UserTables U X × Result (Unit {0})
  unfolding create_body
  create_user io u db = write_tx io (λ d. create_body u d (lookup_user u.name d)) db

  delete_body : Bytes → UserTables U X → Result (Option Value) → Result (Option (UserTables U X))
  delete_body name db (err e) = err e
  delete_body name db (ok none) = ok none
  delete_body name db (ok (some key)) = ok (
      some (record {
        users = U.delete key db.users;
        users_by_name = X.delete (string name) db.users_by_name;
      }))

  -- `DeleteUser`
  pub delete_user : Io → Bytes → UserTables U X → UserTables U X × Result (Unit {0})
  unfolding delete_body
  delete_user io name db = write_tx io (λ d. delete_body name d (lookup_user name d)) db

  -- _, err = fnc(nil); return err
  only_call : Result (Option UserRecord × Bool) → Result (Option (UserTables U X))
  only_call (err e) = err e
  only_call (ok r) = ok none

  -- ok, err := fnc(rec); if err != nil || !ok { return err }; users.UpdateTuple
  store_body :
      Value → UserTables U X → Result (Option UserRecord × Bool) → Result (Option (UserTables U X))
  store_body key db (err e) = err e
  store_body key db (ok (u, false)) = ok none
  store_body key db (ok (none, true)) = ok none
  store_body key db (ok (some u, true)) = elim (U.update key (from_user_rec u) db.users) [
    | none ↦ err store_failed
    | some users ↦ ok (some (record db { users = users }))
  ]

  change_body :
      Value → Update → UserTables U X → Result UserRecord → Result (Option (UserTables U X))
  unfolding store_body
  change_body key fnc db (err e) = err e
  change_body key fnc db (ok u) = store_body key db (fnc (some u))

  update_body : Update → UserTables U X → Result (Option Value) → Result (Option (UserTables U X))
  unfolding only_call change_body
  update_body fnc db (err e) = err e
  update_body fnc db (ok none) = only_call (fnc none)
  update_body fnc db (ok (some key)) = elim (U.get key db.users) [
    | none ↦ only_call (fnc none)
    | some d ↦ change_body key fnc db (as_user_rec d)
  ]

  -- `UpdateUser`
  pub update_user : Io → Bytes → Update → UserTables U X → UserTables U X × Result (Unit {0})
  unfolding update_body
  update_user io name fnc db = write_tx io (λ d. update_body fnc d (lookup_user name d)) db
