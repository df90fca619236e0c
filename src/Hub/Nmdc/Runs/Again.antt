-- ===== src/Hub/Nmdc/Runs/Again.antt =====
-- What follows when `gcSearches` of hub/hub_nmdc.go has dropped a run, up to the next search of its peer.
use go_dcpp.Hub.Search.{SearchRequest, SearchResult, matches}
use go_dcpp.Hub.Nmdc.Handle.{Result}
use go_dcpp.Hub.Nmdc.Runs.{
  SearchRun, Searches, current, close_run, close_current, delete_peer, prepare, expired, drop_runs,
  is_few, gc_searches, set_active_search, drop_searches, of_sr, answer, nmdc_handle_result,
}
use go_dcpp.Hub.Nmdc.Runs.Lost.{close_run-same, drop_runs-gone, unanswered, collected}
use go_dcpp.Base.{
  ℕ, ◌-◌, ◌≡◌, refl, subst, ◌∙◌, inl, inr, Bool, true, false, Option, none, some, List, [], ◌∷◌,
  ◌++◌, map, arith, Eq, ◌==◌, nat_eq, ==_refl, list_eq, Bool-cases, Option-cases, length, take, All,
  Map, lookup, remove, lookup-insert,
}

-- What happens to the searches that a peer has been asked: another one, a result for anybody, or the end.
pub data Event (P O : Type 0) : Type 0 where
  asked : ℕ → O → SearchRequest → Event P O
  answered : ℕ → P → P → Result → (SearchResult P → Bool) → Event P O
  ended : Event P O

module _ {P O : Type 0} ⦃same : Eq P⦄ (peer_of : O → P) where
  abbrev pub happen : Event P O → Searches P O → Searches P O
  happen (asked now out req) st = set_active_search peer_of now out req st
  happen (answered now from to m sends) st = (nmdc_handle_result peer_of now from to m sends st).0
  happen ended st = drop_searches peer_of st

  abbrev pub happen_all : List (Event P O) → Searches P O → Searches P O
  happen_all [] st = st
  happen_all (e ∷ es) st = happen_all es (happen e st)

  -- The event is not a search of `p`.
  abbrev pub IsElse : P → Event P O → Type 0
  IsElse p (asked now out req) = (peer_of out == p) ≡ false
  IsElse p (answered now from to m sends) = Unit {0}
  IsElse p ended = Unit {0}

  close_current-peers :
      (r : Option ℕ) (st : Searches P O) → (close_current peer_of r st).peers ≡ st.peers
  unfolding close_current
  close_current-peers none st = refl
  close_current-peers (some id) st = (close_run-same peer_of id st).1

  current-same :
      (p : P) (st st' : Searches P O)
      → st'.peers ≡ st.peers
      → current peer_of p st' ≡ current peer_of p st
  unfolding current
  current-same p st st' e = rw e refl

  gc_searches-gone :
      (p : P) (now : ℕ) (st : Searches P O)
      → current peer_of p st ≡ none
      → current peer_of p (gc_searches peer_of now st) ≡ none
  unfolding gc_searches
  gc_searches-gone p now st e =
      elim (Bool-cases
        (is_few peer_of (expired peer_of now st.heap st.sorted) (length st.sorted))) [
          | inl few ↦ rw few e
          | inr many ↦ rw many (
              unfold current in
              drop_runs-gone peer_of p (take (expired peer_of now st.heap st.sorted - 1) st.sorted)
                st e)
        ]

  prepare-gone :
      (p : P) (now : ℕ) (st : Searches P O) (m : Option (Map P ℕ))
      → current peer_of p st ≡ none
      → current peer_of p (prepare peer_of now st m) ≡ none
  unfolding prepare current lookup
  prepare-gone p now st none e = refl
  prepare-gone p now st (some m) e = gc_searches-gone p now st e

  gone_when_asked :
      (p : P) (now : ℕ) (out : O) (req : SearchRequest) (st : Searches P O)
      → (peer_of out == p) ≡ false
      → current peer_of p st ≡ none
      → current peer_of p (set_active_search peer_of now out req st) ≡ none
  unfolding set_active_search current
  gone_when_asked p now out req st other gone =
      let st1 = close_current peer_of (current peer_of (peer_of out) st) st in
      let st2 = prepare peer_of now st1 st1.peers in
      let still : current peer_of p st2 ≡ none = prepare-gone p now st1 st1.peers (
        current-same p st st1 (close_current-peers (current peer_of (peer_of out) st) st) ∙ gone) in
      elim (Option-cases st2.peers) [
        | inl no_map ↦ rw no_map refl
        | inr (m, e) ↦
            rw e (ground (arith, e, still, other, lookup-insert (peer_of out) p st2.fresh m))
      ]

  answered-peers :
      (now : ℕ) (from to : P) (m : Result) (sends : SearchResult P → Bool) (st : Searches P O)
      → (nmdc_handle_result peer_of now from to m sends st).0.peers ≡ st.peers
  unfolding nmdc_handle_result answer close_run
  answered-peers now from to m sends st = ground arith

  gone_after_event :
      (p : P) (e : Event P O) (st : Searches P O)
      → IsElse p e
      → current peer_of p st ≡ none
      → current peer_of p (happen e st) ≡ none
  unfolding drop_searches current
  gone_after_event p (asked now out req) st other gone = gone_when_asked p now out req st other gone
  gone_after_event p (answered now from to m sends) st other gone =
      current-same p st (happen (answered now from to m sends) st)
        (answered-peers now from to m sends st)
      ∙ gone
  gone_after_event p ended st other gone = refl

  gone_after :
      (p : P) (es : List (Event P O)) (st : Searches P O)
      → All (IsElse p) es
      → current peer_of p st ≡ none
      → current peer_of p (happen_all es st) ≡ none
  gone_after p [] st others gone = gone
  gone_after p (e ∷ es) st (other, others) gone =
      gone_after p es (happen e st) others (gone_after_event p e st other gone)

  -- the map is there
  HasMap : Searches P O → Type 0
  HasMap st = (m : Map P ℕ) × (st.peers ≡ some m)

  drop_runs-HasMap : (l : List ℕ) (st : Searches P O) → HasMap st → HasMap (drop_runs peer_of l st)
  unfolding drop_runs HasMap delete_peer close_run
  drop_runs-HasMap [] st h = h
  drop_runs-HasMap (id ∷ l) st (m, is) = elim (Option-cases (lookup id st.heap)) [
    | inl unknown ↦ drop_runs-HasMap l _ (m, ground (arith, unknown))
    | inr (r, known) ↦ drop_runs-HasMap l _ (remove (peer_of r.out) m, ground (arith, known))
  ]

  prepare-HasMap :
      (now : ℕ) (st : Searches P O) (r : Option (Map P ℕ))
      → st.peers ≡ r
      → HasMap (prepare peer_of now st r)
  unfolding prepare HasMap gc_searches
  prepare-HasMap now st none e = ([], refl)
  prepare-HasMap now st (some m) e =
      elim (Bool-cases
        (is_few peer_of (expired peer_of now st.heap st.sorted) (length st.sorted))) [
          | inl few ↦ rw few (m, e)
          | inr many ↦ rw many (
              drop_runs-HasMap (take (expired peer_of now st.heap st.sorted - 1) st.sorted) st
                (m, e))
        ]

  -- A search that is asked is the one that a result for its peer goes to.
  asked_answered :
      (now later : ℕ) (out : O) (req : SearchRequest) (from : P) (m : Result)
      (sends : SearchResult P → Bool) (st : Searches P O)
      → matches req (of_sr peer_of from m) ≡ true
      → (nmdc_handle_result peer_of later from
          (peer_of out)
          m
          sends
          (set_active_search peer_of now out req st)).1
        ≡ some out
  unfolding set_active_search nmdc_handle_result answer current HasMap
  asked_answered now later out req from m sends st fits =
      let st1 = close_current peer_of (current peer_of (peer_of out) st) st in
      let st2 = prepare peer_of now st1 st1.peers in
      let (map, e) = prepare-HasMap now st1 st1.peers refl in
      let r : SearchRun O = record { last = now; request = req; out = out } in
      ground (
        arith,
        e,
        lookup-insert (peer_of out) (peer_of out) st2.fresh map,
        ==_refl (peer_of out),
        lookup-insert st2.fresh st2.fresh r st2.heap,
        ==_refl st2.fresh,
      )

  -- When `gcSearches` drops a run, the peer whose search it was gets no result from this peer, whatever
  -- results and searches of others come meanwhile, until it searches again, whichever run is the one in the
  -- map: also where that is a newer search of it, that is not expired. When it searches again, a result that
  -- the search matches goes to that search.
  pub gc_searches_forgets :
      (now later again : ℕ) (front back : List ℕ) (id : ℕ) (r : SearchRun O) (st : Searches P O)
      (es : List (Event P O)) (from : P) (m : Result) (sends : SearchResult P → Bool) (out : O)
      (req : SearchRequest)
      → is_few peer_of (expired peer_of now st.heap st.sorted) (length st.sorted) ≡ false
      → take (expired peer_of now st.heap st.sorted - 1) st.sorted ≡ front ++ id ∷ back
      → lookup id st.heap ≡ some r
      → All (IsElse (peer_of r.out)) es
      → peer_of out ≡ peer_of r.out
      → matches req (of_sr peer_of from m) ≡ true
      → ((nmdc_handle_result peer_of later from
            (peer_of r.out)
            m
            sends
            (happen_all es (gc_searches peer_of now st))).1
          ≡ none)
        × ((nmdc_handle_result peer_of later from (peer_of r.out) m sends (
              set_active_search peer_of again out req
                (happen_all es (gc_searches peer_of now st)))).1
            ≡ some out)
  gc_searches_forgets now later again front back id r st es from m sends out req many taken known
        others own fits =
      let after = happen_all es (gc_searches peer_of now st) in
      (
        unanswered peer_of later from (peer_of r.out) m sends after (
            gone_after (peer_of r.out) es (gc_searches peer_of now st) others
              (collected peer_of now front back id r st many taken known)),
        subst
            (λ p.
              (nmdc_handle_result peer_of later from p m sends
                (set_active_search peer_of again out req after)).1
              ≡ some out)
            own (asked_answered again later out req from m sends after fits),
      )
