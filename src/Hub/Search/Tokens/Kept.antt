-- ===== src/Hub/Search/Tokens/Kept.antt =====
-- Which searches keep their tokens in hub/hub_adc.go, and get the results with them.
use go_dcpp.Hub.Search.Tokens.{
  search_timeout, SearchToken, Tokens, AdcResult, gc_tokens, search_token, handle_result,
}
use go_dcpp.Base.{
  ℕ, ◌+◌, ◌-◌, ◌≤◌, ◌≡◌, refl, ◌∙◌, inl, inr, Bool, true, false, Option, none, some, List, [], ◌∷◌,
  arith, ltb, if◌then◌else◌, ◌==◌, nat_eq, ==_iff, ==_refl, list_eq, Bool-cases, Option-cases,
  Bytes, lookup, insert, remove, lookup-insert, lookup-remove, IsMap, insert-IsMap, remove-IsMap,
}

-- What happens to the tokens of a peer: it is asked another search, or it sends a result.
pub data Event (S : Type 0) : Type 0 where
  asked : Bytes → ℕ → S → Event S
  answered : (S → Bool) → ℕ → AdcResult → Event S

module _ {S : Type 0} where
  gc_tokens-lookup :
      (now : ℕ) (k : Bytes) (m : Tokens S)
      → IsMap m
      → lookup k (gc_tokens now m).0 ≡ elim (lookup k m) [
        | none ↦ none
        | some t ↦ if ltb search_timeout (now - t.last) then none else some t
      ]
  unfolding gc_tokens lookup
  gc_tokens-lookup now k [] h = refl
  gc_tokens-lookup now k ((j, t) ∷ m) h = ground (arith, gc_tokens-lookup now k m h.1, ==_iff j k)

  gc_tokens-IsMap : (now : ℕ) (m : Tokens S) → IsMap m → IsMap (gc_tokens now m).0
  unfolding gc_tokens
  gc_tokens-IsMap now [] h = tt
  gc_tokens-IsMap now ((j, t) ∷ m) h =
      ground (arith, gc_tokens-lookup now j m h.1, gc_tokens-IsMap now m h.1)

  abbrev pub happen : Event S → Option (Tokens S) → Option (Tokens S)
  happen (asked token now out) m = (search_token token now out m).0
  happen (answered sends now r) m = (handle_result sends now r m).0

  abbrev pub happen_all : List (Event S) → Option (Tokens S) → Option (Tokens S)
  happen_all [] m = m
  happen_all (e ∷ es) m = happen_all es (happen e m)

  -- The event is within a minute of `start`, draws another token than `token`, and `out` takes the
  -- results that it is sent.
  abbrev pub IsWithin : ℕ → Bytes → S → Event S → Type 0
  IsWithin start token out (asked other now s) =
      (start ≤ now) × (now ≤ start + search_timeout) × ((other == token) ≡ false)
  IsWithin start token out (answered sends now r) =
      (start ≤ now) × (now ≤ start + search_timeout) × (sends out ≡ true)

  abbrev pub AreWithin : ℕ → Bytes → S → List (Event S) → Type 0
  AreWithin start token out [] = Unit {0}
  AreWithin start token out (e ∷ es) = IsWithin start token out e × AreWithin start token out es

  record Has (start : ℕ) (token : Bytes) (out : S) (m : Option (Tokens S)) : Type 0 where
    tokens : Tokens S
    is : m ≡ some tokens
    unique : IsMap tokens
    entry : SearchToken S
    there : lookup token tokens ≡ some entry
    recent : start ≤ entry.last
    same : entry.search ≡ out

  -- The entry is untouched in other tokens.
  untouched-Has :
      {start : ℕ} {token : Bytes} {out : S} {m : Option (Tokens S)} (h : Has start token out m)
      (m' : Option (Tokens S)) (tokens : Tokens S)
      → m' ≡ some tokens
      → IsMap tokens
      → lookup token tokens ≡ lookup token h.tokens
      → Has start token out m'
  untouched-Has h m' tokens e unique same_entry = record {
    tokens = tokens;
    is = e;
    unique = unique;
    entry = h.entry;
    there = same_entry ∙ h.there;
    recent = h.recent;
    same = h.same;
  }

  asked-Has :
      (start : ℕ) (token other : Bytes) (out s : S) (now : ℕ) (m : Option (Tokens S))
      → IsWithin start token out (asked other now s)
      → Has start token out m
      → Has start token out (happen (asked other now s) m)
  unfolding search_token
  asked-Has start token other out s now m w h =
      let t : SearchToken S = record { last = now; search = s } in
      let kept = (gc_tokens now h.tokens).0 in
      untouched-Has h (happen (asked other now s) m) (insert other t kept) (rw h.is refl)
        (insert-IsMap other t kept (gc_tokens-IsMap now h.tokens h.unique))
        (ground (
          arith,
          gc_tokens-lookup now token h.tokens h.unique,
          lookup-insert other token t kept,
          h.there,
          h.recent,
        ))

  -- A result with the token itself, which its search takes.
  mine-Has :
      (start : ℕ) (token : Bytes) (out : S) (sends : S → Bool) (now : ℕ) (r : AdcResult)
      (m : Option (Tokens S))
      → start ≤ now
      → sends out ≡ true
      → (r.token == token) ≡ true
      → Has start token out m
      → Has start token out (happen (answered sends now r) m)
  unfolding handle_result
  mine-Has start token out sends now r m le takes mine h =
      let own = (==_iff r.token token).0 mine in
      record {
        tokens = insert r.token (record h.entry { last = now }) h.tokens;
        is = ground (arith, h.is, h.there, h.same);
        unique = insert-IsMap r.token _ h.tokens h.unique;
        entry = record h.entry { last = now };
        there =
            ground (arith, lookup-insert r.token token (record h.entry { last = now }) h.tokens);
        recent = le;
        same = h.same;
      }

  answered-Has :
      (start : ℕ) (token : Bytes) (out : S) (sends : S → Bool) (now : ℕ) (r : AdcResult)
      (m : Option (Tokens S))
      → IsWithin start token out (answered sends now r)
      → Has start token out m
      → Has start token out (happen (answered sends now r) m)
  unfolding handle_result
  answered-Has start token out sends now r m w h = elim (Bool-cases (r.token == token)) [
    | inl mine ↦ mine-Has start token out sends now r m w.0 w.2 mine h
    | inr other ↦
        let untouched = untouched-Has h (happen (answered sends now r) m) in
        elim (Option-cases (lookup r.token h.tokens)) [
          | inl unknown ↦ untouched h.tokens (ground (arith, h.is)) h.unique refl
          | inr (t, e) ↦ elim (Bool-cases (sends t.search)) [
            | inl taken ↦
                let refreshed : SearchToken S = record t { last = now } in
                untouched (insert r.token refreshed h.tokens) (ground (arith, h.is))
                  (insert-IsMap r.token refreshed h.tokens h.unique)
                  (ground (arith, lookup-insert r.token token refreshed h.tokens))
            | inr failed ↦
                untouched (remove r.token h.tokens) (ground (arith, h.is))
                  (remove-IsMap r.token h.tokens h.unique)
                  (ground (arith, lookup-remove r.token token h.tokens))
          ]
        ]
  ]

  all-Has :
      (start : ℕ) (token : Bytes) (out : S) (es : List (Event S)) (m : Option (Tokens S))
      → AreWithin start token out es
      → Has start token out m
      → Has start token out (happen_all es m)
  all-Has start token out [] m w h = h
  all-Has start token out (asked other now s ∷ es) m w h =
      all-Has start token out es _ w.1 (asked-Has start token other out s now m w.0 h)
  all-Has start token out (answered sends now r ∷ es) m w h =
      all-Has start token out es _ w.1 (answered-Has start token out sends now r m w.0 h)

  result-Has :
      (start : ℕ) (token : Bytes) (out : S) (sends : S → Bool) (now : ℕ) (r : AdcResult)
      (m : Option (Tokens S))
      → r.token ≡ token
      → Has start token out m
      → (handle_result sends now r m).1 ≡ some out
  unfolding handle_result
  result-Has start token out sends now r m mine h = ground (arith, h.is, h.there, h.same)

  -- No token stands twice in the map of the peer, which may be nil.
  abbrev pub AreUnique : Option (Tokens S) → Type 0
  AreUnique none = Unit {0}
  AreUnique (some m) = IsMap m

  drawn-Has :
      (token : Bytes) (start : ℕ) (out : S) (m : Option (Tokens S))
      → AreUnique m
      → Has start token out (search_token token start out m).0
  unfolding search_token lookup
  drawn-Has token start out none unique = record {
    tokens = (token, record { last = start; search = out }) ∷ [];
    is = refl;
    unique = (refl, tt);
    entry = record { last = start; search = out };
    there = ground (arith, ==_refl token);
    recent = omega arith;
    same = refl;
  }
  drawn-Has token start out (some m) unique =
      let t : SearchToken S = record { last = start; search = out } in
      let kept = (gc_tokens start m).0 in
      record {
        tokens = insert token t kept;
        is = refl;
        unique = insert-IsMap token t kept (gc_tokens-IsMap start m unique);
        entry = t;
        there = ground (arith, lookup-insert token token t kept, ==_refl token);
        recent = omega arith;
        same = refl;
      }

  -- Where no token stands twice among those of a peer: a search that draws a token, the first of
  -- the peer too, keeps it for a minute, whatever other searches and results there are in that
  -- time, if the others draw other tokens and the search takes the results that it is sent: a
  -- result with the token is sent to that search.
  pub handle_result-search_token :
      (token : Bytes) (start now : ℕ) (out : S) (es : List (Event S)) (sends : S → Bool)
      (r : AdcResult) (m : Option (Tokens S))
      → AreUnique m
      → AreWithin start token out es
      → r.token ≡ token
      → (handle_result sends now r (happen_all es (search_token token start out m).0)).1 ≡ some out
  handle_result-search_token token start now out es sends r m unique w is =
      result-Has start token out sends now r _ is
        (all-Has start token out es _ w (drawn-Has token start out m unique))
