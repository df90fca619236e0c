-- ===== src/Hub/Database/Listed.antt =====
-- A table of the store that keeps its rows in a list: an instance of the laws of tables, on which the
-- tests of hub/hubdb/hubdb.go run.
use go_dcpp.Hub.Database.{Value, string, uint, value_eq, Data, Table, IsTable, IsAuto}
use go_dcpp.Base.{
  ℕ, ◌+◌, ◌≤◌, ◌≡◌, refl, Bool, true, false, none, some, [], ◌∷◌, arith, if◌then◌else◌, nat_eq,
  ==_iff, list_eq, is_some, Map, lookup, insert, remove, lookup-insert, lookup-remove,
}

-- a number that no row has as its key
abbrev unused : Map Value Data → ℕ
unused [] = 0
unused ((uint n, d) ∷ m) = n + 1 + unused m
unused ((k, d) ∷ m) = unused m

unused_fresh : (m : Map Value Data) (j : ℕ) → unused m ≤ j → lookup (uint j) m ≡ none
unfolding lookup
unused_fresh [] j le = refl
unused_fresh ((uint n, d) ∷ m) j le = ground (arith, unused_fresh m j, ==_iff n j)
unused_fresh ((k, d) ∷ m) j le = ground (arith, unused_fresh m j)

abbrev pub listed : Table
listed = record {
  State = Map Value Data;
  get = λ k m. lookup k m;
  insert = λ k d m. if is_some (lookup k m) then none else some (insert k d m);
  insert_auto = λ d m. (uint (unused m), insert (uint (unused m)) d m);
  update = λ k d m. if is_some (lookup k m) then some (insert k d m) else none;
  upsert = λ k d m. insert k d m;
  delete = λ k m. remove k m;
  clear = λ m. [];
  scan = λ m. m;
}

abbrev pub sortable : Value → Bool
sortable (uint n) = true
sortable (string s) = true
sortable v = false

pub listed-IsTable : IsTable listed
unfolding is_some lookup
listed-IsTable = record {
  insert_some = λ k d m. ground arith;
  get_insert = λ k j d m m' e. ground (arith, lookup-insert k j d m);
  update_some = λ k d m. ground arith;
  get_update = λ k j d m m' e. ground (arith, lookup-insert k j d m);
  get_upsert = λ k j d m. lookup-insert k j d m;
  get_delete = λ k j m. lookup-remove k j m;
  get_clear = λ j m. refl;
  get_scan = λ j m. refl;
}

pub listed-IsAuto : IsAuto listed sortable
listed-IsAuto = record {
  auto_fresh = λ d m. unused_fresh m (unused m) (omega arith);
  get_auto = λ j d m. lookup-insert (uint (unused m)) j d m;
  auto_sortable = λ d m. refl;
}
