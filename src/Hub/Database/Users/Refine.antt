-- ===== src/Hub/Database/Users/Refine.antt =====
-- A run of calls of tupleDatabase in hub/hubdb/hubdb.go against the same run of `memDB`.
use go_dcpp.Hub.Users.{
  UserRecord, not_found, name_changed, name_taken, Result, ok, err, MemDb, new_database,
  db_is_registered, db_get_user, db_create_user, db_delete_user, db_update_user, store_update,
  only_error, check_update,
}
use go_dcpp.Hub.Database.{
  Value, string, value_eq, Table, IsTable, IsAuto, as_user_rec, from_user_rec,
}
use go_dcpp.Hub.Database.Users.{
  UserTables, get_user, create_body, create_user, delete_body, delete_user, store_body, change_body,
  update_body, only_call, update_user,
}
use go_dcpp.Hub.Database.Users.Agree.{
  online, Represents, get_user-lookup, lookup_user-none, lookup_user-some, create_user_taken,
  added-Represents, removed-Represents, changed-Represents, unknown-Represents,
}
use go_dcpp.Hub.Users.Records.{Result-cases}
use go_dcpp.Base.{
  ◌≡◌, refl, ap, ◌∙◌, inl, inr, Bool, true, none, some, List, [], ◌∷◌, arith, if◌then◌else◌, ◌==◌,
  nat_eq, ==_iff, list_eq, Bool-cases, Option-cases, is_some, Bytes, lookup, insert,
}

pub data Call : Type 0 where
  register : UserRecord → Call
  forget : Bytes → Call
  change : Bytes → (UserRecord → Result (UserRecord × Bool)) → Call

-- one call of memDB; a registration of a name that is taken is refused
abbrev pub mem_call : Call → MemDb → MemDb × Result (Unit {0})
mem_call (register u) db =
    if db_is_registered u.name db then (db, err name_taken) else (db_create_user u db, ok tt)
mem_call (forget name) db = (db_delete_user name db, ok tt)
mem_call (change name fnc) db = db_update_user name (check_update name fnc) db

abbrev pub mem_run : List Call → MemDb → MemDb × List (Result (Unit {0}))
mem_run [] db = (db, [])
mem_run (c ∷ cs) db =
    let (db', r) = mem_call c db in let (end, rs) = mem_run cs db' in (end, r ∷ rs)

module _ (U X : Table) (sortable : Value → Bool) where
  abbrev pub disk_call : Call → UserTables U X → UserTables U X × Result (Unit {0})
  disk_call (register u) db = create_user U X sortable online u db
  disk_call (forget name) db = delete_user U X sortable online name db
  disk_call (change name fnc) db = update_user U X sortable online name (check_update name fnc) db

  abbrev pub disk_run : List Call → UserTables U X → UserTables U X × List (Result (Unit {0}))
  disk_run [] db = (db, [])
  disk_run (c ∷ cs) db =
      let (db', r) = disk_call c db in let (end, rs) = disk_run cs db' in (end, r ∷ rs)

module _ (U X : Table) (sortable : Value → Bool) (lu : IsTable U) (lx : IsTable X)
    (auto : IsAuto U sortable) where
  -- One call gives the same result on both sides, and what the tables stand for stays the map.
  abbrev Agrees : Call → UserTables U X → MemDb → Type 0
  Agrees c db m =
      ((disk_call U X sortable c db).1 ≡ (mem_call c m).1)
      × Represents U X sortable (disk_call U X sortable c db).0 (mem_call c m).0.users

  agree_by :
      (c : Call) (db : UserTables U X) (m : MemDb) (db' : UserTables U X) (m' : MemDb)
      (r : Result (Unit {0}))
      → disk_call U X sortable c db ≡ (db', r)
      → mem_call c m ≡ (m', r)
      → Represents U X sortable db' m'.users
      → Agrees c db m
  agree_by c db m db' m' r e f v = (rw (e, f), rw (e, f) v)

  module _ (db : UserTables U X) (m : MemDb) (v : Represents U X sortable db m.users) where
    register_taken : (u w : UserRecord) → lookup u.name m.users ≡ some w → Agrees (register u) db m
    unfolding db_is_registered is_some
    register_taken u w e =
        agree_by (register u) db m db m (err name_taken)
          (create_user_taken U X sortable db m.users v u w e) (ground arith) v

    register_new : (u : UserRecord) → lookup u.name m.users ≡ none → Agrees (register u) db m
    unfolding create_user create_body is_some db_is_registered db_create_user
    register_new u e =
        let row = from_user_rec u in
        let (id, users) = U.insert_auto row db.users in
        let unknown = lookup_user-none U X sortable db m.users v u.name e in
        elim (Option-cases (X.insert (string u.name) (id ∷ []) db.users_by_name)) [
          | inl full ↦
              ground (
                arith,
                lx.insert_some (string u.name) (id ∷ []) db.users_by_name,
                v.absent u.name e,
              )
          | inr (index, made) ↦
              agree_by (register u) db m (record { users = users; users_by_name = index })
                (db_create_user u m) (ok tt) (ground arith) (ground arith)
                (added-Represents U X sortable db m.users v u id users index e
                  (auto.auto_sortable row db.users) (auto.auto_fresh row db.users)
                  (λ j. auto.get_auto j row db.users)
                  (λ k. lx.get_insert (string u.name) k (id ∷ []) db.users_by_name index made))
        ]

    forget_unknown : (name : Bytes) → lookup name m.users ≡ none → Agrees (forget name) db m
    unfolding delete_user delete_body db_delete_user
    forget_unknown name e =
        let unknown = lookup_user-none U X sortable db m.users v name e in
        agree_by (forget name) db m db (db_delete_user name m) (ok tt) (ground arith) (ground arith)
          (unknown-Represents U X sortable db m.users v name e)

    forget_known :
        (name : Bytes) (u : UserRecord) → lookup name m.users ≡ some u → Agrees (forget name) db m
    unfolding delete_user delete_body db_delete_user
    forget_known name u e =
        let (id, found, able, at, row, own) = lookup_user-some U X sortable db m.users v name u e in
        agree_by (forget name) db m
          (record {
            users = U.delete id db.users;
            users_by_name = X.delete (string name) db.users_by_name;
          })
          (db_delete_user name m) (ok tt) (ground arith) (ground arith)
          (removed-Represents U X sortable db m.users v name id u (U.delete id db.users)
            (X.delete (string name) db.users_by_name) e at row own
            (λ j. lu.get_delete id j db.users)
            (λ k. lx.get_delete (string name) k db.users_by_name))

    change_unknown :
        (name : Bytes) (fnc : UserRecord → Result (UserRecord × Bool))
        → lookup name m.users ≡ none
        → Agrees (change name fnc) db m
    unfolding update_user update_body only_call check_update db_update_user only_error
    change_unknown name fnc e =
        let unknown = lookup_user-none U X sortable db m.users v name e in
        agree_by (change name fnc) db m db m (err not_found) (ground arith) (ground arith) v

    -- Nothing is stored on either side.
    change_nothing :
        (name : Bytes) (fnc : UserRecord → Result (UserRecord × Bool)) (r : Result (Unit {0}))
        → disk_call U X sortable (change name fnc) db ≡ (db, r)
        → mem_call (change name fnc) m ≡ (m, r)
        → Agrees (change name fnc) db m
    change_nothing name fnc r e f = agree_by (change name fnc) db m db m r e f v

    change_stored :
        (name : Bytes) (fnc : UserRecord → Result (UserRecord × Bool)) (u w : UserRecord)
        → lookup name m.users ≡ some u
        → fnc u ≡ ok (w, true)
        → (w.name == name) ≡ true
        → Agrees (change name fnc) db m
    unfolding is_some update_user update_body change_body store_body check_update db_update_user
        store_update as_user_rec from_user_rec
    change_stored name fnc u w e result kept =
        let (id, found, able, at, row, own) = lookup_user-some U X sortable db m.users v name u e in
        let d = from_user_rec w in
        elim (Option-cases (U.update id d db.users)) [
          | inl gone ↦ ground (arith, lu.update_some id d db.users)
          | inr (users, stored) ↦
              agree_by (change name fnc) db m (record db { users = users })
                (record m { users = insert name w m.users }) (ok tt) (ground arith) (ground arith)
                (changed-Represents U X sortable db m.users v name id u w users e at able row own
                  ((==_iff w.name name).0 kept) (λ j. lu.get_update id j d db.users users stored))
        ]

    change_known :
        (name : Bytes) (fnc : UserRecord → Result (UserRecord × Bool)) (u : UserRecord)
        → lookup name m.users ≡ some u
        → Agrees (change name fnc) db m
    unfolding update_user update_body change_body store_body check_update db_update_user
        store_update as_user_rec from_user_rec
    change_known name fnc u e =
        let (id, found, able, at, row, own) = lookup_user-some U X sortable db m.users v name u e in
        elim (Result-cases (fnc u)) [
          | inl (why, failed_with) ↦ change_nothing name fnc (ok tt) (ground arith) (ground arith)
          | inr ((w, update), result) ↦ elim (Bool-cases (w.name == name)) [
            | inr different ↦
                change_nothing name fnc (err name_changed) (ground arith) (ground arith)
            | inl kept ↦ elim (Bool-cases update) [
              | inl asked ↦ change_stored name fnc u w e (result ∙ ap (λ b. ok (w, b)) asked) kept
              | inr left ↦ change_nothing name fnc (ok tt) (ground arith) (ground arith)
            ]
          ]
        ]

    call-Agrees : (c : Call) → Agrees c db m
    call-Agrees (register u) = elim (Option-cases (lookup u.name m.users)) [
      | inl e ↦ register_new u e
      | inr (w, e) ↦ register_taken u w e
    ]
    call-Agrees (forget name) = elim (Option-cases (lookup name m.users)) [
      | inl e ↦ forget_unknown name e
      | inr (u, e) ↦ forget_known name u e
    ]
    call-Agrees (change name fnc) = elim (Option-cases (lookup name m.users)) [
      | inl e ↦ change_unknown name fnc e
      | inr (u, e) ↦ change_known name fnc u e
    ]

  run-Represents :
      (cs : List Call) (db : UserTables U X) (m : MemDb)
      → Represents U X sortable db m.users
      → ((disk_run U X sortable cs db).1 ≡ (mem_run cs m).1)
        × Represents U X sortable (disk_run U X sortable cs db).0 (mem_run cs m).0.users
  run-Represents [] db m v = (refl, v)
  run-Represents (c ∷ cs) db m v =
      let (same, kept) = call-Agrees db m v c in
      let (rest, end) = run-Represents cs (disk_call U X sortable c db).0 (mem_call c m).0 kept in
      (rw (same, rest), end)

  -- From empty tables, where the database opens and commits every transaction, a sequence of CreateUser,
  -- of DeleteUser and of UpdateUser by functions that `Hub.UpdateUser` makes returns the results that
  -- `memDB` returns, but that a name that is taken is refused, and after it GetUser of every name finds the record that
  -- `memDB` has.
  pub disk_run-mem_run :
      (cs : List Call) (db : UserTables U X)
      → ((k : Value) → U.get k db.users ≡ none)
      → ((k : Value) → X.get k db.users_by_name ≡ none)
      → ((disk_run U X sortable cs db).1 ≡ (mem_run cs new_database).1)
        × ((name : Bytes)
            → get_user U X sortable online name (disk_run U X sortable cs db).0
              ≡ ok (db_get_user name (mem_run cs new_database).0))
  unfolding new_database lookup db_get_user
  disk_run-mem_run cs db empty empty_index =
      let start : Represents U X sortable db [] = record {
        by_name = λ name u e. ground arith;
        absent = λ name e. empty_index (string name);
        by_id = λ id d e. ground (arith, empty id);
      } in
      let (same, end) = run-Represents cs db new_database start in
      (
        same,
        λ name.
            get_user-lookup U X sortable (disk_run U X sortable cs db).0
              (mem_run cs new_database).0.users end name,
      )
