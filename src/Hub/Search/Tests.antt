-- ===== src/Hub/Search/Tests.antt =====
-- Runs of the searches of hub/search.go and hub/hub_adc.go.
use go_dcpp.Hub.Search.{audio, NameSearch, FileSearch, file_search}
use go_dcpp.Hub.Search.Wire.{to_adc, of_adc, of_adc-to_adc}
use go_dcpp.Hub.Search.Tokens.{AdcResult, search_token, handle_result}
use go_dcpp.Hub.Search.Tokens.Kept.{Event, asked, answered, happen_all, handle_result-search_token}
use go_dcpp.Base.{
  ℕ, ◌≡◌, refl, Bool, true, none, some, List, [], ◌∷◌, arith, nat_eq, list_eq, codes,
}

abbrev words : NameSearch
words = record { and = codes "linux" ∷ []; not_in = [] }

abbrev large : FileSearch
large = record {
  name = words;
  ext = [];
  no_ext = [];
  file_type = audio;
  min_size = 1000;
  max_size = 0;
}

of_adc-to_adc_example : of_adc (to_adc (codes "t1") (file_search large)) ≡ file_search large
of_adc-to_adc_example = of_adc-to_adc (codes "t1") (file_search large)

abbrev result : AdcResult
result = record { token = codes "t1"; path = codes "/a"; size = 7; tth = none }

-- the searches are numbers, of which all take what they are sent
abbrev taken : ℕ → Bool
taken s = true

abbrev events : List (Event ℕ)
events =
    asked (codes "t2") 2000 22
    ∷ answered taken 3000 (record result { token = codes "t2" })
    ∷ answered taken 4000 result
    ∷ []

handle_result-search_token_example :
    (handle_result taken 5000 result
      (happen_all events (search_token (codes "t1") 1000 11 none).0)).1
    ≡ some 11
handle_result-search_token_example =
    handle_result-search_token (codes "t1") 1000 5000 11 events taken result none tt (ground arith)
      refl
