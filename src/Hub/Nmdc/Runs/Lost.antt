-- ===== src/Hub/Nmdc/Runs/Lost.antt =====
-- Results in the form of NMDC, and the searches whose results `gcSearches` of hub/hub_nmdc.go loses.
use go_dcpp.Hub.Search.{SearchResult, file, dir}
use go_dcpp.Hub.Nmdc.Handle.{Result}
use go_dcpp.Hub.Nmdc.Search.Words.{join-split}
use go_dcpp.Hub.Nmdc.Runs.{
  SearchRun, Searches, current, close_run, delete_peer, expired, drop_runs, is_few, gc_searches,
  of_sr, to_sr, nmdc_handle_result,
}
use go_dcpp.Base.{
  ℕ, ◌-◌, ◌≡◌, ap, ◌∙◌, inl, inr, Bool, false, none, some, List, [], ◌∷◌, ◌++◌, arith, Eq, nat_eq,
  ==_refl, list_eq, Option-cases, Bytes, length, take, lookup, lookup-remove,
}

-- A result that the hub sends in NMDC, read as `nmdcHandleResult` reads it, is that result, found by the peer
-- that sends it: a file with its path, its size and its hash, or a directory with its path.
pub of_sr-to_sr :
    {P O : Type 0} ⦃same : Eq P⦄ (peer_of : O → P) (from : Bytes) (sender : P) (r : SearchResult P)
    → of_sr peer_of sender (to_sr from r)
      ≡ elim r [ file p path size tth ↦ file sender path size tth | dir p path ↦ dir sender path ]
unfolding of_sr to_sr
of_sr-to_sr peer_of from sender (file p path size tth) =
    ap (λ s. file sender s size tth) (join-split path b'/')
of_sr-to_sr peer_of from sender (dir p path) = ap (dir sender) (join-split path b'/')

module _ {P O : Type 0} ⦃same : Eq P⦄ (peer_of : O → P) where
  pub close_run-same :
      (id : ℕ) (st : Searches P O)
      → ((close_run peer_of id st).heap ≡ st.heap) × ((close_run peer_of id st).peers ≡ st.peers)
  unfolding close_run
  close_run-same id st = ground arith

  delete_peer-heap : (id : ℕ) (st : Searches P O) → (delete_peer peer_of id st).heap ≡ st.heap
  unfolding delete_peer
  delete_peer-heap id st = ground arith

  -- what closing and deleting a run keeps of the store
  one-heap :
      (id : ℕ) (st : Searches P O)
      → (delete_peer peer_of id (close_run peer_of id st)).heap ≡ st.heap
  one-heap id st = delete_peer-heap id (close_run peer_of id st) ∙ (close_run-same id st).0

  one_gone :
      (id : ℕ) (r : SearchRun O) (st : Searches P O)
      → lookup id st.heap ≡ some r
      → current peer_of (peer_of r.out) (delete_peer peer_of id (close_run peer_of id st)) ≡ none
  unfolding current delete_peer close_run
  one_gone id r st e = elim (Option-cases st.peers) [
    | inl no_map ↦ ground (arith, e)
    | inr (m, there) ↦
        ground (arith, e, lookup-remove (peer_of r.out) (peer_of r.out) m, ==_refl (peer_of r.out))
  ]

  stays_gone :
      (p : P) (id : ℕ) (st : Searches P O)
      → current peer_of p st ≡ none
      → current peer_of p (delete_peer peer_of id (close_run peer_of id st)) ≡ none
  unfolding current delete_peer close_run
  stays_gone p id st e = elim (Option-cases (lookup id st.heap)) [
    | inl unknown ↦ ground (arith, e, unknown)
    | inr (r, known) ↦ elim (Option-cases st.peers) [
      | inl no_map ↦ ground (arith, known)
      | inr (m, there) ↦ ground (arith, e, known, lookup-remove (peer_of r.out) p m)
    ]
  ]

  pub drop_runs-gone :
      (p : P) (l : List ℕ) (st : Searches P O)
      → current peer_of p st ≡ none
      → current peer_of p (drop_runs peer_of l st) ≡ none
  unfolding drop_runs
  drop_runs-gone p [] st e = e
  drop_runs-gone p (id ∷ l) st e = drop_runs-gone p l _ (stays_gone p id st e)

  dropped :
      (front back : List ℕ) (id : ℕ) (r : SearchRun O) (st : Searches P O)
      → lookup id st.heap ≡ some r
      → current peer_of (peer_of r.out) (drop_runs peer_of (front ++ id ∷ back) st) ≡ none
  unfolding drop_runs
  dropped [] back id r st e = drop_runs-gone (peer_of r.out) back _ (one_gone id r st e)
  dropped (i ∷ front) back id r st e =
      dropped front back id r _ (ap (λ h. lookup id h) (one-heap i st) ∙ e)

  -- Without an entry no result is answered.
  pub unanswered :
      (now : ℕ) (from to : P) (m : Result) (sends : SearchResult P → Bool) (st : Searches P O)
      → current peer_of to st ≡ none
      → (nmdc_handle_result peer_of now from to m sends st).1 ≡ none
  unfolding nmdc_handle_result
  unanswered now from to m sends st e = ground arith

  -- The peer of a run that is dropped has no entry.
  pub collected :
      (now : ℕ) (front back : List ℕ) (id : ℕ) (r : SearchRun O) (st : Searches P O)
      → is_few peer_of (expired peer_of now st.heap st.sorted) (length st.sorted) ≡ false
      → take (expired peer_of now st.heap st.sorted - 1) st.sorted ≡ front ++ id ∷ back
      → lookup id st.heap ≡ some r
      → current peer_of (peer_of r.out) (gc_searches peer_of now st) ≡ none
  unfolding gc_searches
  collected now front back id r st many taken known =
      rw (many, taken) (unfold current in dropped front back id r st known)
