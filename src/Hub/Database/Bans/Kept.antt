-- ===== src/Hub/Database/Bans/Kept.antt =====
-- What the tables of bans and profiles of hub/hubdb/hubdb.go keep.
use go_dcpp.Hub.Bans.{BanKey, Ban}
use go_dcpp.Hub.Profiles as Profiles
use go_dcpp.Hub.Users.{
  bad_format, Result, ok, err, MemDb, new_database, db_get_ban, db_put_bans, db_del_bans,
  db_clear_bans, put_all, del_all,
}
use go_dcpp.Hub.Database.{Value, string, bytes, value_eq, Data, Table, IsTable}
use go_dcpp.Hub.Database.Users.Agree.{online}
use go_dcpp.Hub.Database.Bans.{
  decode_ban, encode_ban, first_ban, list_bans, found, get_ban, put_each, put_bans, del_each,
  del_bans, clear_bans, decode_profile, get_profile, put_profile,
}
use go_dcpp.Base.{
  ◌≤◌, ◌≡◌, refl, ap, ◌∙◌, ◌≢◌, inl, inr, Option, none, some, List, [], ◌∷◌, arith, ◌==◌, nat_eq,
  ==_iff, ==_refl, list_eq, Bool-cases, Option-cases, Bytes, length, Map, lookup, insert, remove,
  lookup-insert, lookup-remove,
}

pub data Call : Type 0 where
  put : List Ban → Call
  del : List BanKey → Call
  clear : Call

abbrev pub mem_call : Call → MemDb → MemDb
mem_call (put bans) db = db_put_bans bans db
mem_call (del keys) db = db_del_bans keys db
mem_call clear db = db_clear_bans db

abbrev pub mem_run : List Call → MemDb → MemDb
mem_run [] db = db
mem_run (c ∷ cs) db = mem_run cs (mem_call c db)

module _ (B : Table) where
  abbrev pub disk_call : Call → B.State → B.State × Result (Unit {0})
  disk_call (put bans) s = put_bans B online bans s
  disk_call (del keys) s = del_bans B online keys s
  disk_call clear s = clear_bans B online s

  abbrev pub disk_run : List Call → B.State → B.State
  disk_run [] s = s
  disk_run (c ∷ cs) s = disk_run cs (disk_call c s).0

  -- The rows are the bans of the map, each under its key.
  record Represents (s : B.State) (m : Map BanKey Ban) : Type 0 where
    there :
        (k : BanKey) (b : Ban)
        → lookup k m ≡ some b
        → (B.get (bytes k) s ≡ some (encode_ban b)) × (b.key ≡ k)
    absent : (k : BanKey) → lookup k m ≡ none → B.get (bytes k) s ≡ none
    is_ban :
        (v : Value) (d : Data)
        → B.get v s ≡ some d
        → (b : Ban) × (v ≡ bytes b.key) × (d ≡ encode_ban b)

module _ (B : Table) (laws : IsTable B) where
  put-Represents :
      (b : Ban) (s : B.State) (m : Map BanKey Ban)
      → Represents B s m
      → Represents B (B.upsert (bytes b.key) (encode_ban b) s) (insert b.key b m)
  put-Represents b s m v = record {
    there = λ k c e. elim (Bool-cases (b.key == k)) [
      | inl same ↦
          let e' : some b ≡ some c = ground (arith, lookup-insert b.key k b m) in
          ground (arith, laws.get_upsert (bytes b.key) (bytes k) (encode_ban b) s, ==_iff b.key k)
      | inr different ↦
          let e' : lookup k m ≡ some c = ground (arith, lookup-insert b.key k b m) in
          ground (arith, laws.get_upsert (bytes b.key) (bytes k) (encode_ban b) s, v.there k c)
    ];
    absent = λ k e. ground (
      arith,
      laws.get_upsert (bytes b.key) (bytes k) (encode_ban b) s,
      lookup-insert b.key k b m,
      v.absent k,
    );
    is_ban = λ w d e. elim (Bool-cases (bytes b.key == w)) [
      | inl same ↦ (
        b,
        ground (arith, ==_iff (bytes b.key) w),
        ground (arith, laws.get_upsert (bytes b.key) w (encode_ban b) s),
      )
      | inr different ↦
          v.is_ban w d (ground (arith, laws.get_upsert (bytes b.key) w (encode_ban b) s))
    ];
  }

  del-Represents :
      (j : BanKey) (s : B.State) (m : Map BanKey Ban)
      → Represents B s m
      → Represents B (B.delete (bytes j) s) (remove j m)
  del-Represents j s m v = record {
    there = λ k c e.
        ground (arith, laws.get_delete (bytes j) (bytes k) s, v.there k c, lookup-remove j k m);
    absent = λ k e.
        ground (arith, laws.get_delete (bytes j) (bytes k) s, v.absent k, lookup-remove j k m);
    is_ban = λ w d e. v.is_ban w d (ground (arith, laws.get_delete (bytes j) w s));
  }

  clear-Represents : (s : B.State) → Represents B (B.clear s) []
  unfolding lookup
  clear-Represents s = record {
    there = λ k c e. ground arith;
    absent = λ k e. laws.get_clear (bytes k) s;
    is_ban = λ w d e. ground (arith, laws.get_clear w s);
  }

  put_each-Represents :
      (bans : List Ban) (s : B.State) (m : Map BanKey Ban)
      → Represents B s m
      → Represents B (put_each B bans s) (put_all bans m)
  unfolding put_each put_all
  put_each-Represents [] s m v = v
  put_each-Represents (b ∷ bans) s m v = put_each-Represents bans _ _ (put-Represents b s m v)

  del_each-Represents :
      (keys : List BanKey) (s : B.State) (m : Map BanKey Ban)
      → Represents B s m
      → Represents B (del_each B keys s) (del_all keys m)
  unfolding del_each del_all
  del_each-Represents [] s m v = v
  del_each-Represents (k ∷ keys) s m v = del_each-Represents keys _ _ (del-Represents k s m v)

  run-Represents :
      (cs : List Call) (s : B.State) (m : MemDb)
      → Represents B s m.bans
      → Represents B (disk_run B cs s) (mem_run cs m).bans
  unfolding put_bans db_put_bans del_bans db_del_bans del_all clear_bans db_clear_bans
  run-Represents [] s m v = v
  run-Represents (put bans ∷ cs) s m v = run-Represents cs _ _ (put_each-Represents bans s m.bans v)
  run-Represents (del [] ∷ cs) s m v = run-Represents cs _ _ v
  run-Represents (del (k ∷ keys) ∷ cs) s m v =
      run-Represents cs _ _ (del_each-Represents (k ∷ keys) s m.bans v)
  run-Represents (clear ∷ cs) s m v = run-Represents cs _ _ (clear-Represents s)

  -- The first row that is read is a ban.
  first_ban_ok :
      (s : B.State) (m : Map BanKey Ban)
      → Represents B s m
      → (l : List Ban) × (first_ban B (B.scan s) ≡ ok l)
  unfolding first_ban decode_ban encode_ban lookup
  first_ban_ok s m v = go (B.scan s) (λ k. laws.get_scan k s)
    where
      go :
          (rows : List (Value × Data))
          → ((k : Value) → lookup k rows ≡ B.get k s)
          → (l : List Ban) × (first_ban B rows ≡ ok l)
      go [] same = ([], refl)
      go ((k, d) ∷ rows) same =
          let (b, key, is) = v.is_ban k d (ground (arith, same k, ==_refl k)) in
          (b ∷ [], ground arith)

  get_ban-lookup :
      (k : BanKey) (s : B.State) (m : Map BanKey Ban)
      → Represents B s m
      → get_ban B online k s ≡ ok (lookup k m)
  unfolding get_ban found decode_ban encode_ban
  get_ban-lookup k s m v = elim (Option-cases (lookup k m)) [
    | inl e ↦ ground (arith, v.absent k e)
    | inr (b, e) ↦
        let (l, first) = first_ban_ok s m v in let (row, own) = v.there k b e in ground arith
  ]

  -- From an empty table, where the database opens and commits every transaction, after any sequence
  -- of PutBans, DelBans and ClearBans GetBan of a key gives what `memDB` has after the same calls.
  pub get_ban-db_get_ban :
      (cs : List Call) (k : BanKey) (s : B.State)
      → ((v : Value) → B.get v s ≡ none)
      → get_ban B online k (disk_run B cs s) ≡ ok (db_get_ban k (mem_run cs new_database))
  unfolding new_database lookup db_get_ban
  get_ban-db_get_ban cs k s empty =
      get_ban-lookup k (disk_run B cs s) (mem_run cs new_database).bans (
        run-Represents cs s new_database (record {
          there = λ j b e. ground arith;
          absent = λ j e. empty (bytes j);
          is_ban = λ v d e. ground (arith, empty v);
        }))

  first_ban_short :
      (rows : List (Value × Data)) (l : List Ban) → first_ban B rows ≡ ok l → length l ≤ 1
  unfolding first_ban
  first_ban_short [] l e = ground arith
  first_ban_short ((k, d) ∷ rows) l e = ground (arith, decode_ban k d)

  put_bans-Represents :
      (bans : List Ban) (s : B.State)
      → ((v : Value) → B.get v s ≡ none)
      → Represents B (put_bans B online bans s).0 (put_all bans [])
  unfolding put_bans lookup
  put_bans-Represents bans s empty = put_each-Represents bans s [] (record {
    there = λ j b e. ground arith;
    absent = λ j e. empty (bytes j);
    is_ban = λ v d e. ground (arith, empty v);
  })

  first_ban_stored :
      (s : B.State) (m : Map BanKey Ban) (k : BanKey) (a : Ban) (rows : List (Value × Data))
      → Represents B s m
      → lookup k m ≡ some a
      → ((w : Value) → lookup w rows ≡ B.get w s)
      → (b : Ban) × (first_ban B rows ≡ ok (b ∷ [])) × ((c : Ban) × (lookup b.key m ≡ some c))
  unfolding first_ban decode_ban encode_ban lookup
  first_ban_stored s m k a [] v has same =
      absurd (ground (arith, (v.there k a has).0, same (bytes k)))
  first_ban_stored s m k a ((w, d) ∷ rows) v has same =
      let (b, key, is) = v.is_ban w d (ground (arith, same w, ==_refl w)) in
      elim (Option-cases (lookup b.key m)) [
        | inl e ↦ absurd (ground (arith, v.absent b.key e, same w, ==_refl w))
        | inr (c, e) ↦ (b, ground arith, (c, e))
      ]

  -- After calls on an empty table that leave a ban, ListBans gives one ban, of a key that has one, and no error.
  pub list_bans-one :
      (cs : List Call) (k : BanKey) (a : Ban) (s : B.State)
      → ((v : Value) → B.get v s ≡ none)
      → lookup k (mem_run cs new_database).bans ≡ some a
      → (b : Ban) × (list_bans B online (disk_run B cs s) ≡ ok (b ∷ []))
        × ((c : Ban) × (lookup b.key (mem_run cs new_database).bans ≡ some c))
  unfolding list_bans new_database lookup
  list_bans-one cs k a s empty has =
      let kept : Represents B (disk_run B cs s) (mem_run cs new_database).bans =
        run-Represents cs s new_database (record {
          there = λ j b e. ground arith;
          absent = λ j e. empty (bytes j);
          is_ban = λ v d e. ground (arith, empty v);
        }) in
      first_ban_stored (disk_run B cs s) (mem_run cs new_database).bans k a
        (B.scan (disk_run B cs s)) kept has (λ w. laws.get_scan w (disk_run B cs s))

  two : Ban → Ban → Map BanKey Ban
  two a b = put_all (a ∷ b ∷ []) []

  lookup-two :
      (a b : Ban)
      → a.key ≢ b.key
      → (lookup a.key (two a b) ≡ some a) × (lookup b.key (two a b) ≡ some b)
  unfolding two put_all lookup insert
  lookup-two a b differ = ground (arith, ==_iff a.key b.key, ==_refl a.key, ==_refl b.key)

  -- After PutBans has stored two bans with different keys in an empty table, GetBan finds both, but
  -- ListBans, which the hub loads its blocks from, gives at most one ban, and no error.
  pub list_bans_short :
      (a b : Ban) (s : B.State)
      → ((v : Value) → B.get v s ≡ none)
      → a.key ≢ b.key
      → (l : List Ban) × (list_bans B online (put_bans B online (a ∷ b ∷ []) s).0 ≡ ok l)
        × (length l ≤ 1)
        × (get_ban B online a.key (put_bans B online (a ∷ b ∷ []) s).0 ≡ ok (some a))
        × (get_ban B online b.key (put_bans B online (a ∷ b ∷ []) s).0 ≡ ok (some b))
  unfolding list_bans two
  list_bans_short a b s empty differ =
      let kept = put_bans-Represents (a ∷ b ∷ []) s empty in
      let (l, listed) = first_ban_ok (put_bans B online (a ∷ b ∷ []) s).0 (two a b) kept in
      let (found_a, found_b) = lookup-two a b differ in
      (
        l,
        listed,
        first_ban_short (B.scan (put_bans B online (a ∷ b ∷ []) s).0) l listed,
        get_ban-lookup a.key _ (two a b) kept ∙ ap ok found_a,
        get_ban-lookup b.key _ (two a b) kept ∙ ap ok found_b,
      )

module _ (P : Table) (laws : IsTable P) (marshal : Map Bytes Profiles.Value → Option Bytes)
    (unmarshal : Bytes → Option (Map Bytes Profiles.Value)) where
  -- If json.Unmarshal refuses a target that is not a pointer, as its documentation says, then after
  -- PutProfile has stored a profile, GetProfile of it fails.
  pub get_profile-put_profile :
      (id : Bytes) (m : Map Bytes Profiles.Value) (s s' : P.State)
      → ((text : Bytes) → unmarshal text ≡ none)
      → put_profile P marshal unmarshal online id m s ≡ (s', ok tt)
      → get_profile P marshal unmarshal online id s' ≡ err bad_format
  unfolding get_profile put_profile decode_profile
  get_profile-put_profile id m s s' refuses stored = elim (Option-cases (marshal m)) [
    | inl e ↦ ground arith
    | inr (text, e) ↦
        let row = laws.get_upsert (string id) (string id) (string text ∷ []) s in
        ground (arith, ==_refl (string id), refuses text)
  ]
