-- ===== src/Hub/Nmdc/Tests.antt =====
-- Messages, searches and results of NMDC: hub/hub_nmdc.go.
use go_dcpp.Hub.Peers.Tests.{lower, bob, bob_hub}
use go_dcpp.Hub.Search.{
  SearchRequest, file_search, audio, SearchResult, file, matches, match_name, refuses_size,
}
use go_dcpp.Hub.Commands.{has_prefix}
use go_dcpp.Hub.Nmdc.Chat.{parse_me, with_me, with_me-parse_me}
use go_dcpp.Hub.Nmdc.Search.{asks, to_nmdc}
use go_dcpp.Hub.Nmdc.Search.Back.{read_back, what_is_left, of_nmdc-to_nmdc}
use go_dcpp.Hub.Nmdc.Search.Words.{join}
use go_dcpp.Hub.Nmdc.Handle.{Message, private_message, Self, Result, Outside, nmdc_handle}
use go_dcpp.Hub.Nmdc.Handle.Own.{IsFair, nmdc_handle-IsFair}
use go_dcpp.Hub.Nmdc.Serve.{Types, max_of, serve_peer, reset}
use go_dcpp.Hub.Nmdc.Serve.Flood.{number, in_a_minute, serve_peer-limit}
use go_dcpp.Hub.Nmdc.Runs.{
  SearchRun, Searches, of_sr, to_sr, set_active_search, gc_searches, nmdc_handle_result, is_few,
  expired, is_expired,
}
use go_dcpp.Hub.Nmdc.Runs.Lost.{of_sr-to_sr}
use go_dcpp.Hub.Nmdc.Runs.Again.{Event, asked, answered, happen_all, gc_searches_forgets}
use go_dcpp.Base.{
  ℕ, ◌≡◌, refl, Bool, true, false, none, some, List, [], ◌∷◌, arith, nat_eq, list_eq, Bytes, codes,
  replicate, lookup,
}

with_me-parse_me_example :
    with_me (parse_me (codes "/me /me x")).0 (parse_me (codes "/me /me x")).1 ≡ codes "/me x"
unfolding has_prefix
with_me-parse_me_example = with_me-parse_me (codes "/me /me x")

abbrev wanted : SearchRequest
wanted = file_search (record {
  name = record { and = codes "a" ∷ codes "b" ∷ []; not_in = codes "c" ∷ [] };
  ext = codes "mp3" ∷ [];
  no_ext = [];
  file_type = audio;
  min_size = 1;
  max_size = 2;
})

of_nmdc-to_nmdc_example :
    read_back (λ b. b) (to_nmdc false (codes "bob") wanted) ≡ asks (what_is_left wanted)
unfolding join
of_nmdc-to_nmdc_example =
    of_nmdc-to_nmdc (λ b. b) false (codes "bob") wanted (refl, (λ e. cc), omega arith)

abbrev outside : Outside
outside = record {
  split_host_port = λ a. some (a, codes "80");
  starts_letter = λ b. true;
  trim = λ b. b;
  to_lower = lower;
  is_nmdc = λ p. true;
}

abbrev self : Self
self = record { sid = bob.sid; name = bob.name; ip = codes "1.2.3.4"; client = []; has_tths = true }

abbrev note : Message
note = private_message bob.name bob.name bob.name (codes "/me waves")

nmdc_handle-IsFair_example : IsFair outside self bob_hub (nmdc_handle outside self note bob_hub)
nmdc_handle-IsFair_example = nmdc_handle-IsFair outside self bob_hub note

-- the types by one letter; a message is its type
abbrev types : Types
types = record {
  my_info = codes "I";
  tth_passive = codes "P";
  tth_active = codes "A";
  search = codes "S";
  result = codes "R";
  connect_to_me = codes "C";
  rev_connect_to_me = codes "V";
}

abbrev known : Bytes → Bool
known typ = true

abbrev never : Bytes → Bool
never m = false

serve_peer-limit_example :
    number types
      (λ m. m)
      known
      never
      (codes "S")
      (serve_peer types
        (λ m. m)
        known
        never
        (in_a_minute types (λ m. m) known never (replicate 20 (codes "S")))
        (reset []))
    ≡ 14
unfolding max_of lookup
serve_peer-limit_example =
    serve_peer-limit types (λ m. m) known never (codes "S") (replicate 20 (codes "S")) [] refl
      (λ m. refl) (omega arith)

-- a peer is its number, and a search the number of its peer
abbrev own_number : ℕ → ℕ
own_number o = o

abbrev found : SearchResult ℕ
found = file 3 (codes "a/b") 10 none

of_sr-to_sr_example : of_sr own_number 4 (to_sr (codes "ann") found) ≡ file 4 (codes "a/b") 10 none
of_sr-to_sr_example = of_sr-to_sr own_number (codes "ann") 4 found

abbrev run_at : ℕ → ℕ → SearchRun ℕ
run_at last out = record { last = last; request = wanted; out = out }

-- peer 3 has searched at 0 and again at 90, and peer 5 at 1
abbrev searched : Searches ℕ ℕ
searched = record {
  heap = (0, run_at 0 3) ∷ (1, run_at 1 5) ∷ (2, run_at 90 3) ∷ [];
  fresh = 3;
  peers = some ((3, 2) ∷ (5, 1) ∷ []);
  sorted = 0 ∷ 1 ∷ 2 ∷ [];
  closed = 3 ∷ [];
}

abbrev works : SearchResult ℕ → Bool
works r = true

-- peer 3 sends a result, and then peer 5 searches again
abbrev meanwhile : List (Event ℕ ℕ)
meanwhile = answered 101 4 3 (to_sr (codes "ann") found) works ∷ asked 102 5 wanted ∷ []

abbrev told : Result
told = record {
  from = codes "ann";
  to = [];
  path = codes "ab.mp3" ∷ [];
  is_dir = false;
  size = 2;
  tth = none;
}

told-fits : matches wanted (of_sr own_number 4 told) ≡ true
unfolding matches match_name refuses_size of_sr
told-fits = refl

gc_searches_forgets_example :
    ((nmdc_handle_result own_number 103 4 3 told works
        (happen_all own_number meanwhile (gc_searches own_number 100 searched))).1
      ≡ none)
    × ((nmdc_handle_result own_number 103 4 3 told works (
          set_active_search own_number 104 3 wanted
            (happen_all own_number meanwhile (gc_searches own_number 100 searched)))).1
        ≡ some 3)
unfolding expired is_expired is_few lookup
gc_searches_forgets_example =
    gc_searches_forgets own_number 100 103 104 [] [] 0 (run_at 0 3) searched meanwhile 4 told works
      3 wanted refl refl refl (tt, (refl, tt)) refl told-fits
