-- ===== src/Hub/Search/Matching.antt =====
-- Which results `Match` of hub/search.go lets through, and which peers `Hub.Search` asks.
use go_dcpp.Hub.Search.{Tth, FileSearch, file_search, file, match_name, refuses_size, matches}
use go_dcpp.Base.{ℕ, ◌≤◌, ◌≡◌, ◌↔◌, ◌⊎◌, true, Option, arith, nat_eq, list_eq, Bytes}

-- A search for files lets a file through just when the search lacks one of the two limits of size, or
-- the size is within both: a search with one limit only lets every size through.
pub matches-file :
    {P : Type 0} (s : FileSearch) (peer : P) (path : Bytes) (size : ℕ) (tth : Option Tth)
    → (matches (file_search s) (file peer path size tth) ≡ true)
      ↔ ((s.min_size ≡ 0) ⊎ (s.max_size ≡ 0) ⊎ ((s.min_size ≤ size) × (size ≤ s.max_size)))
unfolding matches refuses_size match_name
matches-file s peer path size tth = ground arith
