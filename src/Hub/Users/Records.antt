-- ===== src/Hub/Users/Records.antt =====
-- What the operations of hub/users.go on registered users do to the stored records.
use go_dcpp.Hub.Users.{
  UserRecord, MemDb, Error, name_changed, Result, ok, err, db_create_user, db_delete_user,
  store_update, db_update_user, register_user, delete_user, check_update, update_user,
}
use go_dcpp.Base.{
  ◌≡◌, refl, ◌⊎◌, inl, inr, Bool, ◌&&◌, Option, none, some, [], arith, if◌then◌else◌, ◌==◌, nat_eq,
  ==_iff, list_eq, Option-cases, Bytes, lookup, lookup-insert, lookup-remove,
}

-- the record that is stored for a name
abbrev pub stored : Bytes → Option MemDb → Option UserRecord
stored name none = none
stored name (some db) = lookup name db.users

-- Registration, if the hub has a database, stores the name and the password and no profile, also
-- over a user that is there, and deletion removes the record; neither touches another user.
pub register_user-delete_user :
    (name pass other : Bytes) (db : MemDb)
    → (stored other (register_user name pass (some db)).0 ≡ (
        if name == other
        then some (record { name = name; pass = pass; profile = [] })
        else stored other (some db)))
      × (stored other (delete_user name (some db)).0
          ≡ (if name == other then none else stored other (some db)))
unfolding register_user delete_user db_create_user db_delete_user
register_user-delete_user name pass other db =
    let made : UserRecord = record { name = name; pass = pass; profile = [] } in
    (lookup-insert name other made db.users, lookup-remove name other db.users)

-- `UpdateUser` of a user that is there, by a function that succeeds: it returns an error just when
-- the function changes the name, and it stores the new record, for that user alone, just when the
-- function keeps the name and asks for it.
pub update_user_lem :
    (name other : Bytes) (fnc : UserRecord → Result (UserRecord × Bool)) (db : MemDb)
    (u u' : UserRecord) (update : Bool)
    → lookup name db.users ≡ some u
    → fnc u ≡ ok (u', update)
    → ((update_user name fnc (some db)).1 ≡ (if u'.name == name then ok tt else err name_changed))
      × (stored other (update_user name fnc (some db)).0 ≡ (
          if name == other && (update && u'.name == name) then some u' else stored other (some db)))
unfolding update_user db_update_user store_update check_update
update_user_lem name other fnc db u u' update there result =
    (ground arith, ground (arith, lookup-insert name other u' db.users))

-- `UpdateUser` of a user that is there, by a function that fails, changes nothing and returns no
-- error.
pub update_user_fails :
    (name : Bytes) (fnc : UserRecord → Result (UserRecord × Bool)) (db : MemDb) (u : UserRecord)
    (e : Error)
    → lookup name db.users ≡ some u
    → fnc u ≡ err e
    → update_user name fnc (some db) ≡ (some db, ok tt)
unfolding update_user db_update_user store_update check_update
update_user_fails name fnc db u e there failed_with = ground arith

-- Every record is stored under its own name.
abbrev pub IsNamed : Option MemDb → Type 0
IsNamed db = (k : Bytes) (u : UserRecord) → stored k db ≡ some u → u.name ≡ k

pub Result-cases {ℓ} :
    {A : Type ℓ} (r : Result A) → ((e : Error) × (r ≡ err e)) ⊎ ((a : A) × (r ≡ ok a))
Result-cases (err e) = inl (e, refl)
Result-cases (ok a) = inr (a, refl)

update-IsNamed :
    (name : Bytes) (fnc : UserRecord → Result (UserRecord × Bool)) (db : MemDb)
    → IsNamed (some db)
    → IsNamed (update_user name fnc (some db)).0
unfolding update_user db_update_user store_update check_update
update-IsNamed name fnc db v k u = elim (Option-cases (lookup name db.users)) [
  | inl absent ↦ λ e. ground (arith, v k u)
  | inr (old, there) ↦ elim (Result-cases (fnc old)) [
    | inl (e, failed_with) ↦ λ e'. ground (arith, v k u)
    | inr ((now, update), result) ↦ λ e.
        ground
          (arith, v k u, lookup-insert name k now db.users, ==_iff name k, ==_iff now.name name)
  ]
]

-- Registration, deletion and an update by any function keep every record under its own name.
pub update_user-IsNamed :
    (name pass : Bytes) (fnc : UserRecord → Result (UserRecord × Bool)) (db : Option MemDb)
    → IsNamed db
    → IsNamed (register_user name pass db).0
      × IsNamed (delete_user name db).0
      × IsNamed (update_user name fnc db).0
unfolding register_user delete_user db_create_user db_delete_user update_user
update_user-IsNamed name pass fnc none v = (v, v, v)
update_user-IsNamed name pass fnc (some db) v =
    let made : UserRecord = record { name = name; pass = pass; profile = [] } in
    (
      λ k u e. ground (arith, v k u, lookup-insert name k made db.users, ==_iff name k),
      λ k u e. ground (arith, v k u, lookup-remove name k db.users, ==_iff name k),
      update-IsNamed name fnc db v,
    )
