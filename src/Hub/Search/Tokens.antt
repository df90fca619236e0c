-- ===== src/Hub/Search/Tokens.antt =====
-- The searches that a peer of ADC has been asked: the tokens of `adcPeer` in hub/hub_adc.go, by which
-- its results find their way back. `S` is the type of the searches of other peers, and times are in
-- nanoseconds. What a result becomes for a search is what `SendResult` is called with.
pub mod Kept
use go_dcpp.Hub.Search.{Tth, SearchResult, file, dir}
use go_dcpp.Base.{
  ℕ, ◌-◌, Bool, true, false, Option, none, some, List, [], ◌∷◌, ltb, if◌then◌else◌, ◌==◌, nat_eq,
  list_eq, Bytes, Map, lookup, insert, remove,
}

-- searchTimeout: a minute
abbrev pub search_timeout : ℕ
search_timeout = 60000000000

-- `adcSearchToken`
pub record SearchToken (S : Type 0) : Type 0 where
  pub last : ℕ
  pub search : S

abbrev pub Tokens : Type 0 → Type 0
Tokens S = Map Bytes (SearchToken S)

-- `adc.SearchResult`, less the slots
pub record AdcResult : Type 0 where
  pub token : Bytes
  pub path : Bytes
  pub size : ℕ
  pub tth : Option Tth

-- strings.TrimPrefix(path, "/")
pub trim_slash : Bytes → Bytes
trim_slash [] = []
trim_slash (c ∷ path) = if c == 47 then path else c ∷ path

-- if !strings.HasPrefix(path, "/") { path = "/" + path }
pub with_slash : Bytes → Bytes
with_slash [] = 47 ∷ []
with_slash (c ∷ path) = if c == 47 then c ∷ path else 47 ∷ c ∷ path

-- What `SendResult` of `adcSearch` sends, for a peer that is online.
pub to_adc_result : {P : Type 0} → Bytes → SearchResult P → AdcResult
unfolding with_slash
to_adc_result token (file peer path size tth) = record {
  token = token;
  path = with_slash path;
  size = size;
  tth = tth;
}
to_adc_result token (dir peer path) = record {
  token = token;
  path = with_slash path;
  size = 0;
  tth = none;
}

-- The result that `adcHandleResult` makes of a message of `peer`.
pub of_adc_result : {P : Type 0} → P → AdcResult → SearchResult P
unfolding trim_slash
of_adc_result peer r = elim r.tth [
  | some h ↦ file peer (trim_slash r.path) r.size (some h)
  | none ↦ dir peer (trim_slash r.path)
]

module _ {S : Type 0} where
  -- `gcTokens`; the second component is the searches that are closed
  pub gc_tokens : ℕ → Tokens S → Tokens S × List S
  gc_tokens now [] = ([], [])
  gc_tokens now ((token, t) ∷ m) =
      let (kept, closed) = gc_tokens now m in
      if ltb search_timeout (now - t.last)
      then (kept, t.search ∷ closed)
      else ((token, t) ∷ kept, closed)

  -- `searchToken`, given the token that is drawn; `none` is the nil map
  pub search_token : Bytes → ℕ → S → Option (Tokens S) → Option (Tokens S) × List S
  unfolding gc_tokens
  search_token token now out none = (some ((token, record { last = now; search = out }) ∷ []), [])
  search_token token now out (some m) =
      let (kept, closed) = gc_tokens now m in
      (some (insert token (record { last = now; search = out }) kept), closed)

  -- `adcHandleResult`, for a peer that is not one of ADC: `sends` tells whether `SendResult` succeeds.
  -- The second component is the search that the result is sent to, and the third whether it is closed.
  pub handle_result :
      (S → Bool) → ℕ → AdcResult → Option (Tokens S) → Option (Tokens S) × Option S × Bool
  handle_result sends now r none = (none, none, false)
  handle_result sends now r (some m) = elim (lookup r.token m) [
    | none ↦ (some m, none, false)
    | some t ↦
        if sends t.search
        then (some (insert r.token (record t { last = now }) m), some t.search, false)
        else (some (remove r.token m), some t.search, true)
  ]
