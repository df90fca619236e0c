-- ===== src/Hub/Search.antt =====
-- Searches: hub/search.go, and their form in ADC, which hub/hub_adc.go reads and writes. Numbers of
-- 64 bits stand by their bits, so that int64 and uint64 of one another are the same number. `P` is the
-- type of the peers. Sending is left out.
pub mod Matching
pub mod Wire
pub mod Tokens
mod Tests
use go_dcpp.Base.{
  ℕ, Bool, true, false, not, ◌&&◌, Option, none, some, List, [], ◌∷◌, ltb, Eq, if◌then◌else◌, ◌==◌,
  nat_eq, list_eq, Bytes,
}

-- `TTH`
abbrev pub Tth : Type 0
Tth = Bytes

pub data FileType : Type 0 where
  any picture audio video compressed documents executable : FileType

pub record NameSearch : Type 0 where
  pub and : List Bytes
  pub not_in : List Bytes

pub record FileSearch : Type 0 where
  pub name : NameSearch
  pub ext : List Bytes
  pub no_ext : List Bytes
  pub file_type : FileType
  pub min_size : ℕ
  pub max_size : ℕ

pub data SearchRequest : Type 0 where
  name_search dir_search : NameSearch → SearchRequest
  tth_search : Tth → SearchRequest
  file_search : FileSearch → SearchRequest

pub data SearchResult (P : Type 0) : Type 0 where
  file : (peer : P) (path : Bytes) (size : ℕ) (tth : Option Tth) → SearchResult P
  dir : (peer : P) (path : Bytes) → SearchResult P

-- `NameSearch.MatchName`
unfoldable pub match_name : NameSearch → Bytes → Bool
match_name f name = true

-- the sizes that `FileSearch.Match` refuses
unfoldable pub refuses_size : ℕ → ℕ → ℕ → Bool
refuses_size min max size =
    if not (min == 0) && not (max == 0)
    then if not (min == 0) && ltb size min then true else not (max == 0) && ltb max size
    else false

-- The methods `Match`.
unfoldable pub matches : {P : Type 0} → SearchRequest → SearchResult P → Bool
unfolding match_name refuses_size
matches (name_search f) (file peer path size tth) = match_name f path
matches (name_search f) (dir peer path) = match_name f path
matches (tth_search h) (file peer path size none) = true
matches (tth_search h) (file peer path size (some t)) = h == t
matches (tth_search h) (dir peer path) = true
matches (file_search s) (file peer path size tth) =
    if refuses_size s.min_size s.max_size size then false else match_name s.name path
matches (file_search s) (dir peer path) = false
matches (dir_search s) (dir peer path) = match_name s path
matches (dir_search s) (file peer path size tth) = false

module _ {P : Type 0} ⦃same : Eq P⦄ where
  -- for _, p := range peers { ... }
  ask_each : (P → Bool) → P → List P → List P
  ask_each searchable peer [] = []
  ask_each searchable peer (p ∷ ps) =
      let rest = ask_each searchable peer ps in
      if p == peer then rest else if not (searchable p) then rest else p ∷ rest

  -- The peers that `Hub.Search` passes the search on to; `peers` is `none` when it is nil, and `all`
  -- are those of the hub.
  pub search_targets : (P → Bool) → P → Option (List P) → List P → List P
  unfolding ask_each
  search_targets searchable peer none all = ask_each searchable peer all
  search_targets searchable peer (some peers) all = ask_each searchable peer peers
