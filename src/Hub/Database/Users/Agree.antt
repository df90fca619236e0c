-- ===== src/Hub/Database/Users/Agree.antt =====
-- The tables of users against the map of users that they stand for, which is what `memDB` of
-- hub/users.go keeps.
use go_dcpp.Hub.Users.{UserRecord, name_taken, ok, err}
use go_dcpp.Hub.Database.{Value, string, value_eq, Data, Table, Io, as_user_rec, from_user_rec}
use go_dcpp.Hub.Database.Users.{
  UserTables, index_key, lookup_user, check_name, get_body, get_user, create_body, create_user,
}
use go_dcpp.Base.{
  ◌≡◌, inl, inr, Bool, true, false, none, some, [], ◌∷◌, arith, if◌then◌else◌, ◌==◌, nat_eq, ==_iff,
  ==_refl, list_eq, Bool-cases, Option-cases, Bytes, Map, lookup, insert, remove, lookup-insert,
  lookup-remove,
}

abbrev pub online : Io
online = record { begins = true; commits = true }

module _ (U X : Table) (sortable : Value → Bool) where
  -- The users of the map are the rows of the table, and the index has their numbers.
  pub record Represents (db : UserTables U X) (m : Map Bytes UserRecord) : Type 0 where
    pub by_name :
        (name : Bytes) (u : UserRecord)
        → lookup name m ≡ some u
        → (id : Value) × (X.get (string name) db.users_by_name ≡ some (id ∷ []))
          × (sortable id ≡ true)
          × (U.get id db.users ≡ some (from_user_rec u))
          × (u.name ≡ name)
    pub absent : (name : Bytes) → lookup name m ≡ none → X.get (string name) db.users_by_name ≡ none
    pub by_id :
        (id : Value) (d : Data)
        → U.get id db.users ≡ some d
        → (u : UserRecord) × (d ≡ from_user_rec u)
          × (X.get (string u.name) db.users_by_name ≡ some (id ∷ []))
          × (lookup u.name m ≡ some u)

  module _ (db : UserTables U X) (m : Map Bytes UserRecord) (v : Represents db m) where
    pub lookup_user-none :
        (name : Bytes) → lookup name m ≡ none → lookup_user U X sortable name db ≡ ok none
    unfolding lookup_user
    lookup_user-none name e = ground (arith, v.absent name e)

    pub lookup_user-some :
        (name : Bytes) (u : UserRecord)
        → lookup name m ≡ some u
        → (id : Value) × (lookup_user U X sortable name db ≡ ok (some id))
          × (sortable id ≡ true)
          × (X.get (string name) db.users_by_name ≡ some (id ∷ []))
          × (U.get id db.users ≡ some (from_user_rec u))
          × (u.name ≡ name)
    unfolding lookup_user index_key
    lookup_user-some name u e =
        let (id, at, can, row, own) = v.by_name name u e in (id, ground arith, can, at, row, own)

    pub get_user-lookup : (name : Bytes) → get_user U X sortable online name db ≡ ok (lookup name m)
    unfolding get_user get_body as_user_rec from_user_rec check_name
    get_user-lookup name = elim (Option-cases (lookup name m)) [
      | inl e ↦ ground (arith, lookup_user-none name e)
      | inr (u, e) ↦
          let (id, found, able, at, row, own) = lookup_user-some name u e in
          ground (arith, ==_iff name u.name)
    ]

    pub create_user_taken :
        (u w : UserRecord)
        → lookup u.name m ≡ some w
        → create_user U X sortable online u db ≡ (db, err name_taken)
    unfolding create_user create_body
    create_user_taken u w e =
        let (id, found, able, at, row, own) = lookup_user-some u.name w e in ground arith

    pub added-Represents :
        (u : UserRecord) (id : Value) (users : U.State) (index : X.State)
        → lookup u.name m ≡ none
        → sortable id ≡ true
        → U.get id db.users ≡ none
        → ((j : Value)
            → U.get j users ≡ (if id == j then some (from_user_rec u) else U.get j db.users))
        → ((k : Value)
            → X.get k index
              ≡ (if string u.name == k then some (id ∷ []) else X.get k db.users_by_name))
        → Represents (record { users = users; users_by_name = index }) (insert u.name u m)
    added-Represents u id users index new can fresh rows names = record {
      by_name = λ name w e. elim (Bool-cases (u.name == name)) [
        | inl same ↦
            let own = (==_iff u.name name).0 same in
            let e' : some u ≡ some w = ground (arith, lookup-insert u.name name u m) in
            (
              id,
              ground (arith, names (string name)),
              can,
              ground (arith, rows id, ==_refl id),
              ground arith,
            )
        | inr different ↦
            let e' : lookup name m ≡ some w = ground (arith, lookup-insert u.name name u m) in
            let (j, at, able, row, own) = v.by_name name w e' in
            (j, ground (arith, names (string name)), able, ground (arith, rows j, ==_iff id j), own)
      ];
      absent = λ name e.
          ground (arith, names (string name), lookup-insert u.name name u m, v.absent name);
      by_id = λ j d e. elim (Bool-cases (id == j)) [
        | inl same ↦ (
          u,
          ground (arith, rows j),
          ground (arith, names (string u.name), ==_refl u.name, ==_iff id j),
          ground (arith, lookup-insert u.name u.name u m, ==_refl u.name),
        )
        | inr different ↦
            let (w, is, at, known) = v.by_id j d (ground (arith, rows j)) in
            (
              w,
              is,
              ground (arith, names (string w.name), ==_iff u.name w.name),
              ground (arith, lookup-insert u.name w.name u m, ==_iff u.name w.name),
            )
      ];
    }

    -- The numbers of two names differ.
    id_ne :
        (name other : Bytes) (id j : Value) (u w : UserRecord)
        → U.get id db.users ≡ some (from_user_rec u)
        → u.name ≡ name
        → U.get j db.users ≡ some (from_user_rec w)
        → w.name ≡ other
        → (name == other) ≡ false
        → (id == j) ≡ false
    unfolding from_user_rec
    id_ne name other id j u w row own row' own' different =
        ground (arith, ==_iff name other, ==_iff id j)

    -- The names of two numbers differ.
    name_ne :
        (name other : Bytes) (id j : Value)
        → X.get (string name) db.users_by_name ≡ some (id ∷ [])
        → X.get (string other) db.users_by_name ≡ some (j ∷ [])
        → (id == j) ≡ false
        → (name == other) ≡ false
    name_ne name other id j at at' different = ground (arith, ==_iff name other, ==_iff id j)

    -- the map after the deletion of a user, present or not
    pub removed-Represents :
        (name : Bytes) (id : Value) (u : UserRecord) (users : U.State) (index : X.State)
        → lookup name m ≡ some u
        → X.get (string name) db.users_by_name ≡ some (id ∷ [])
        → U.get id db.users ≡ some (from_user_rec u)
        → u.name ≡ name
        → ((j : Value) → U.get j users ≡ (if id == j then none else U.get j db.users))
        → ((k : Value)
            → X.get k index ≡ (if string name == k then none else X.get k db.users_by_name))
        → Represents (record { users = users; users_by_name = index }) (remove name m)
    unfolding from_user_rec
    removed-Represents name id u users index there at row own rows names = record {
      by_name = λ other w e. elim (Bool-cases (name == other)) [
        | inl same ↦ ground (arith, lookup-remove name other m)
        | inr different ↦
            let e' : lookup other m ≡ some w = ground (arith, lookup-remove name other m) in
            let (j, at', able, row', own') = v.by_name other w e' in
            (
              j,
              ground (arith, names (string other)),
              able,
              ground (arith, rows j, id_ne name other id j u w row own row' own' different),
              own',
            )
      ];
      absent = λ other e. elim (Bool-cases (name == other)) [
        | inl same ↦ ground (arith, names (string other))
        | inr different ↦
            ground (arith, names (string other), lookup-remove name other m, v.absent other)
      ];
      by_id = λ j d e. elim (Bool-cases (id == j)) [
        | inl same ↦ ground (arith, rows j)
        | inr different ↦
            let (w, is, at', known) = v.by_id j d (ground (arith, rows j)) in
            let ne : (name == w.name) ≡ false = name_ne name w.name id j at at' different in
            (
              w,
              is,
              ground (arith, names (string w.name)),
              ground (arith, lookup-remove name w.name m),
            )
      ];
    }

    pub changed-Represents :
        (name : Bytes) (id : Value) (u w : UserRecord) (users : U.State)
        → lookup name m ≡ some u
        → X.get (string name) db.users_by_name ≡ some (id ∷ [])
        → sortable id ≡ true
        → U.get id db.users ≡ some (from_user_rec u)
        → u.name ≡ name
        → w.name ≡ name
        → ((j : Value)
            → U.get j users ≡ (if id == j then some (from_user_rec w) else U.get j db.users))
        → Represents (record db { users = users }) (insert name w m)
    changed-Represents name id u w users there at able row own kept rows = record {
      by_name = λ other x e. elim (Bool-cases (name == other)) [
        | inl same ↦
            let e' : some w ≡ some x = ground (arith, lookup-insert name other w m) in
            (
              id,
              ground (arith, ==_iff name other),
              able,
              ground (arith, rows id, ==_refl id),
              ground (arith, ==_iff name other),
            )
        | inr different ↦
            let e' : lookup other m ≡ some x = ground (arith, lookup-insert name other w m) in
            let (j, at', able', row', own') = v.by_name other x e' in
            (
              j,
              at',
              able',
              ground (arith, rows j, id_ne name other id j u x row own row' own' different),
              own',
            )
      ];
      absent = λ other e. ground (arith, lookup-insert name other w m, v.absent other);
      by_id = λ j d e. elim (Bool-cases (id == j)) [
        | inl same ↦ (
          w,
          ground (arith, rows j),
          ground (arith, ==_iff id j),
          ground (arith, lookup-insert name w.name w m, ==_refl name),
        )
        | inr different ↦
            let (x, is, at', known) = v.by_id j d (ground (arith, rows j)) in
            let ne : (name == x.name) ≡ false = name_ne name x.name id j at at' different in
            (x, is, at', ground (arith, lookup-insert name x.name w m))
      ];
    }

    -- A deletion of a name that is not there changes nothing.
    pub unknown-Represents : (name : Bytes) → lookup name m ≡ none → Represents db (remove name m)
    unknown-Represents name absent = record {
      by_name = λ other w e. v.by_name other w (ground (arith, lookup-remove name other m));
      absent = λ other e. elim (Bool-cases (name == other)) [
        | inl same ↦ ground (arith, v.absent name, ==_iff name other)
        | inr different ↦ ground (arith, v.absent other, lookup-remove name other m)
      ];
      by_id = λ j d e.
          let (w, is, at, known) = v.by_id j d e in
          (w, is, at, ground (arith, lookup-remove name w.name m, ==_iff name w.name));
    }
