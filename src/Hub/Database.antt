-- ===== src/Hub/Database.antt =====
-- The database on disk: `tupleDatabase` of hub/hubdb/hubdb.go. The store of tuples is a package outside
-- the repository; a table of it is a parameter, `Table`, with the laws `IsTable`. A transaction that
-- cannot be begun or committed is an input; other failures of the store are left out, and so are
-- opening and migrating the tables.
pub mod Users
pub mod Bans
pub mod Listed
use go_dcpp.Hub.Bans.{BanKey, Ban}
use go_dcpp.Hub.Profiles as Profiles
use go_dcpp.Hub.Users.{
  UserRecord, Error, name_taken, bad_format, bad_index, store_failed, Result, ok, err, Update,
  only_error,
}
use go_dcpp.Base.{
  ℕ, ◌≡◌, ◌↔◌, Bool, true, false, not, Option, none, some, List, [], ◌∷◌, arith, Eq, if◌then◌else◌,
  ◌==◌, nat_eq, ==_iff, list_eq, is_some, Bytes, lookup, insert,
}

-- the values of package values that the tables hold
pub data Value : Type 0 where
  string bytes : Bytes → Value
  uint time : ℕ → Value
  bool : Bool → Value

abbrev pub value_beq : Value → Value → Bool
value_beq (string a) (string b) = a == b
value_beq (bytes a) (bytes b) = a == b
value_beq (uint a) (uint b) = a == b
value_beq (time a) (time b) = a == b
value_beq (bool true) (bool true) = true
value_beq (bool false) (bool false) = true
value_beq a b = false

pub value_beq_iff : (a b : Value) → (value_beq a b ≡ true) ↔ (a ≡ b)
value_beq_iff (string a) (string b) = ground (arith, ==_iff a b)
value_beq_iff (bytes a) (bytes b) = ground (arith, ==_iff a b)
value_beq_iff a b = ground arith

instance abbrev pub value_eq : Eq Value
value_eq = record { beq = value_beq; beq_iff = value_beq_iff }

abbrev pub Data : Type 0
Data = List Value

-- `tuple.Table`, with keys of one field: `none` is ErrNotFound of GetTuple and ErrExists of
-- InsertTuple; `upsert` is UpdateTuple with that option, and `insert_auto` InsertTuple with AutoKey.
pub record Table : Type 1 where
  pub State : Type 0
  pub get : Value → State → Option Data
  pub insert : Value → Data → State → Option State
  pub insert_auto : Data → State → Value × State
  pub update : Value → Data → State → Option State
  pub upsert : Value → Data → State → State
  pub delete : Value → State → State
  pub clear : State → State
  pub scan : State → List (Value × Data)

-- What the documentation of the store says of a table.
pub record IsTable (t : Table) : Type 0 where
  pub insert_some :
      (k : Value) (d : Data) (s : t.State) → is_some (t.insert k d s) ≡ not (is_some (t.get k s))
  pub get_insert :
      (k j : Value) (d : Data) (s s' : t.State)
      → t.insert k d s ≡ some s'
      → t.get j s' ≡ (if k == j then some d else t.get j s)
  pub update_some :
      (k : Value) (d : Data) (s : t.State) → is_some (t.update k d s) ≡ is_some (t.get k s)
  pub get_update :
      (k j : Value) (d : Data) (s s' : t.State)
      → t.update k d s ≡ some s'
      → t.get j s' ≡ (if k == j then some d else t.get j s)
  pub get_upsert :
      (k j : Value) (d : Data) (s : t.State)
      → t.get j (t.upsert k d s) ≡ (if k == j then some d else t.get j s)
  pub get_delete :
      (k j : Value) (s : t.State) → t.get j (t.delete k s) ≡ (if k == j then none else t.get j s)
  pub get_clear : (j : Value) (s : t.State) → t.get j (t.clear s) ≡ none
  pub get_scan : (j : Value) (s : t.State) → lookup j (t.scan s) ≡ t.get j s

-- What it says of a table with keys of its own making (AutoKey); `sortable` tells the values that are
-- tuple.Sortable.
pub record IsAuto (t : Table) (sortable : Value → Bool) : Type 0 where
  pub auto_fresh : (d : Data) (s : t.State) → t.get (t.insert_auto d s).0 s ≡ none
  pub get_auto :
      (j : Value) (d : Data) (s : t.State)
      → t.get j (t.insert_auto d s).1 ≡ (if (t.insert_auto d s).0 == j then some d else t.get j s)
  pub auto_sortable : (d : Data) (s : t.State) → sortable (t.insert_auto d s).0 ≡ true

-- Whether a transaction can be begun, and whether it can be committed.
pub record Io : Type 0 where
  pub begins : Bool
  pub commits : Bool

-- a call in a read transaction
abbrev pub read_tx {ℓ κ} : {D : Type ℓ} {A : Type κ} → Io → (D → Result A) → D → Result A
read_tx io body db = if io.begins then body db else err store_failed

-- tx.Commit, unless the call has returned before it
abbrev commit {ℓ} : {D : Type ℓ} → Io → Result (Option D) → D → D × Result (Unit {0})
commit io (err e) db = (db, err e)
commit io (ok none) db = (db, ok tt)
commit io (ok (some db')) db = if io.commits then (db', ok tt) else (db, err store_failed)

-- a call in a write transaction: what it gives is the new state, if it comes to be committed
abbrev pub write_tx {ℓ} : {D : Type ℓ} → Io → (D → Result (Option D)) → D → D × Result (Unit {0})
write_tx io body db = if io.begins then commit io (body db) db else (db, err store_failed)

-- `asUserRec`; more fields than three are ignored, and fewer do not occur
pub as_user_rec : Data → Result UserRecord
as_user_rec (string name ∷ string pass ∷ string profile ∷ rest) =
    ok (record { name = name; pass = pass; profile = profile })
as_user_rec d = err bad_format

-- `fromUserRec`
pub from_user_rec : UserRecord → Data
from_user_rec u = string u.name ∷ string u.pass ∷ string u.profile ∷ []
