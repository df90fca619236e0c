-- ===== src/Hub/Nmdc/Runs.antt =====
-- The searches that a peer of NMDC has been asked: `search` of `nmdcPeer` in hub/hub_nmdc.go, by which its
-- results find their way back, and the results themselves. `O` is the type of the searches of other peers
-- (`Search`), `P` that of the peers, and times are in seconds. A run is kept in a store, since the map and
-- the list share it.
pub mod Lost
pub mod Again
use go_dcpp.Hub.Search.{SearchRequest, SearchResult, file, dir, matches}
use go_dcpp.Hub.Nmdc.Handle.{Result}
use go_dcpp.Hub.Nmdc.Search.Words.{split, join}
use go_dcpp.Base.{
  ℕ, ◌+◌, ◌-◌, ◌/◌, Bool, true, false, not, ◌&&◌, Option, none, some, List, [], ◌∷◌, ◌++◌, ltb, Eq,
  if◌then◌else◌, nat_eq, list_eq, Bytes, length, take, drop, Map, lookup, insert, remove,
}

-- searchTimeout, in seconds
abbrev pub search_timeout : ℕ
search_timeout = 60

-- `nmdcSearchRun`
pub record SearchRun (O : Type 0) : Type 0 where
  pub last : ℕ
  pub request : SearchRequest
  pub out : O

-- `search` of `nmdcPeer`, with the store of the runs, and the searches that have been closed. The map is
-- `none` when it is nil.
pub record Searches (P O : Type 0) : Type 0 where
  pub heap : Map ℕ (SearchRun O)
  pub fresh : ℕ
  pub peers : Option (Map P ℕ)
  pub sorted : List ℕ
  pub closed : List O

module _ {P O : Type 0} ⦃same : Eq P⦄ (peer_of : O → P) where
  -- p.search.peers[p2]
  pub current : P → Searches P O → Option ℕ
  current p st = elim st.peers [ none ↦ none | some m ↦ lookup p m ]

  -- s.out.Close()
  pub close_run : ℕ → Searches P O → Searches P O
  close_run id st = elim (lookup id st.heap) [
    | none ↦ st
    | some r ↦ record st { closed = st.closed ++ r.out ∷ [] }
  ]

  -- delete(p.search.peers, s.out.Peer())
  delete_peer : ℕ → Searches P O → Searches P O
  delete_peer id st = elim (lookup id st.heap) [
    | none ↦ st
    | some r ↦ record st {
      peers = elim st.peers [ none ↦ none | some m ↦ some (remove (peer_of r.out) m) ];
    }
  ]

  unfoldable pub is_expired : ℕ → Map ℕ (SearchRun O) → ℕ → Bool
  is_expired now heap id = elim (lookup id heap) [
    | none ↦ false
    | some r ↦ ltb (r.last + search_timeout) now
  ]

  -- the number of runs at the front that are expired, which is last + 1
  unfoldable pub expired : ℕ → Map ℕ (SearchRun O) → List ℕ → ℕ
  unfolding is_expired
  expired now heap [] = 0
  expired now heap (id ∷ l) =
      let rest = expired now heap l in if is_expired now heap id then rest + 1 else 0

  -- for _, s := range ... { s.out.Close(); delete(...) }
  pub drop_runs : List ℕ → Searches P O → Searches P O
  unfolding close_run delete_peer
  drop_runs [] st = st
  drop_runs (id ∷ l) st = drop_runs l (delete_peer id (close_run id st))

  -- last < 1000 && last < len(p.search.sorted)/40, for last = n - 1
  unfoldable pub is_few : ℕ → ℕ → Bool
  is_few n len = ltb n 1001 && ltb n (len / 40 + 1)

  -- `gcSearches`
  pub gc_searches : ℕ → Searches P O → Searches P O
  unfolding drop_runs
  gc_searches now st =
      let n = expired now st.heap st.sorted in
      if is_few n (length st.sorted)
      then st
      else record (drop_runs (take (n - 1) st.sorted) st) { sorted = drop (n - 1) st.sorted }

  close_current : Option ℕ → Searches P O → Searches P O
  unfolding close_run
  close_current none st = st
  close_current (some id) st = close_run id st

  -- if p.search.peers == nil { ... } else { p.gcSearches() }
  prepare : ℕ → Searches P O → Option (Map P ℕ) → Searches P O
  unfolding gc_searches
  prepare now st none = record st { peers = some [] }
  prepare now st (some m) = gc_searches now st

  -- `setActiveSearch`
  pub set_active_search : ℕ → O → SearchRequest → Searches P O → Searches P O
  unfolding current close_current prepare
  set_active_search now out req st =
      let st1 = close_current (current (peer_of out) st) st in
      let st2 = prepare now st1 st1.peers in
      record st2 {
        heap = insert st2.fresh (record { last = now; request = req; out = out }) st2.heap;
        fresh = st2.fresh + 1;
        peers = elim st2.peers [ none ↦ none | some m ↦ some (insert (peer_of out) st2.fresh m) ];
        sorted = st2.sorted ++ st2.fresh ∷ [];
      }

  -- `dropSearches`
  pub drop_searches : Searches P O → Searches P O
  drop_searches st = record st { peers = none }

  -- the result in a message
  unfoldable pub of_sr : P → Result → SearchResult P
  of_sr from m =
      let path = join m.path b'/' in if m.is_dir then dir from path else file from path m.size m.tth

  -- The run that a result is for, in `nmdcHandleResult`, has its time set; the second component is the search
  -- whose `SendResult` is called with the result, which may fail.
  answer :
      ℕ
      → P
      → Result
      → (SearchResult P → Bool)
      → Searches P O
      → ℕ
      → SearchRun O
      → Searches P O × Option O
  unfolding close_run of_sr
  answer now from m sends st id r =
      let st' = record st { heap = insert id (record r { last = now }) st.heap } in
      let res = of_sr from m in
      if not (matches r.request res)
      then (st', none)
      else (if sends res then st' else close_run id st', some r.out)

  -- `nmdcHandleResult`, for a result of the peer `from` to the peer `to`; `sends` tells whether `SendResult`
  -- gives no error
  pub nmdc_handle_result :
      ℕ → P → P → Result → (SearchResult P → Bool) → Searches P O → Searches P O × Option O
  unfolding current answer
  nmdc_handle_result now from to m sends st = elim (current to st) [
    | none ↦ (st, none)
    | some id ↦ elim (lookup id st.heap) [
      | none ↦ (st, none)
      | some r ↦ answer now from m sends st id r
    ]
  ]

-- The result that `SendResult` of `nmdcSearch` sends, for a peer that is online: `from` is the
-- name of the peer that found it, and nobody is named as the receiver. The slots and the name and address of the hub are left out.
pub to_sr : {P : Type 0} → Bytes → SearchResult P → Result
to_sr from (file peer path size tth) = record {
  from = from;
  to = [];
  path = split path b'/';
  is_dir = false;
  size = size;
  tth = tth;
}
to_sr from (dir peer path) = record {
  from = from;
  to = [];
  path = split path b'/';
  is_dir = true;
  size = 0;
  tth = none;
}
