-- ===== src/Hub/Nmdc/Serve/Flood.antt =====
-- How many messages of a type `nmdcServePeer` of hub/hub_nmdc.go handles in a minute.
use Prim.Native.Nat.{min}
use go_dcpp.Hub.Nmdc.Serve.{
  Types, max_per_min_cmd, max_of, Counts, count_of, reset, admit, serve_peer,
}
use go_dcpp.Base.{
  ℕ, suc, ◌+◌, ◌-◌, ◌%◌, ◌^◌, ◌<◌, ◌≡◌, refl, ap, ◌∙◌, inl, inr, Bool, true, false, not, List, [],
  ◌∷◌, map, arith, leb, if◌then◌else◌, ◌==◌, nat_eq, ==_iff, ==_refl, list_eq, Bool-cases, Bytes,
  length, lookup, insert, lookup-insert,
}

module _ {Msg : Type 0} (t : Types) (type_of : Msg → Bytes) (registered : Bytes → Bool)
    (fails : Msg → Bool) where
  -- how many messages are of a type
  abbrev pub number : Bytes → List Msg → ℕ
  number typ [] = 0
  number typ (m ∷ ms) = if type_of m == typ then suc (number typ ms) else number typ ms

  -- without a tick
  abbrev pub in_a_minute : List Msg → List (Msg × Bool)
  in_a_minute ms = map (λ m. (m, false)) ms

  count_of-insert :
      (j k : Bytes) (n : ℕ) (cnt : Counts)
      → count_of k (insert j n cnt) ≡ (if j == k then n else count_of k cnt)
  unfolding count_of
  count_of-insert j k n cnt = ground (arith, lookup-insert j k n cnt)

  admit_other :
      (typ : Bytes) (m : Msg) (cnt : Counts)
      → (type_of m == typ) ≡ false
      → count_of typ (admit t type_of registered fails false m cnt).0 ≡ count_of typ cnt
  unfolding admit
  admit_other typ m cnt other = elim (Bool-cases (registered (type_of m))) [
    | inr unknown ↦ rw unknown refl
    | inl known ↦ rw known (count_of-insert (type_of m) typ _ cnt ∙ rw other refl)
  ]

  admit_same :
      (typ : Bytes) (m : Msg) (cnt : Counts)
      → registered typ ≡ true
      → type_of m ≡ typ
      → count_of typ cnt + 1 < 2 ^ 64
      → (count_of typ (admit t type_of registered fails false m cnt).0 ≡ count_of typ cnt + 1)
        × ((admit t type_of registered fails false m cnt).1
            ≡ not (leb (max_of t typ) (count_of typ cnt + 1)))
  unfolding admit
  admit_same typ m cnt known e word =
      let n = (count_of typ cnt + 1) % 2 ^ 64 in
      let small : n ≡ count_of typ cnt + 1 = omega arith in
      rw (e, known)
        (
          count_of-insert typ typ n cnt ∙ rw (==_refl typ) small,
          ap (λ k. not (leb (max_of t typ) k)) small,
        )

  serve_peer-number :
      (typ : Bytes) (ms : List Msg) (cnt : Counts)
      → registered typ ≡ true
      → ((m : Msg) → fails m ≡ false)
      → 0 < max_of t typ
      → count_of typ cnt + length ms < 2 ^ 64
      → number typ (serve_peer t type_of registered fails (in_a_minute ms) cnt)
        ≡ min (number typ ms) (max_of t typ - 1 - count_of typ cnt)
  unfolding serve_peer
  serve_peer-number typ [] cnt known fine some_max word = omega arith
  serve_peer-number typ (m ∷ ms) cnt known fine some_max word =
      let cnt' = (admit t type_of registered fails false m cnt).0 in
      elim (Bool-cases (type_of m == typ)) [
        | inr other ↦
            let same = admit_other typ m cnt other in
            let ih = serve_peer-number typ ms cnt' known fine some_max (omega (arith, same)) in
            ground (arith, same, ih, fine m, other)
        | inl mine ↦
            let (counted, passes) =
              admit_same typ m cnt known ((==_iff (type_of m) typ).0 mine) (omega arith) in
            let ih = serve_peer-number typ ms cnt' known fine some_max (omega (arith, counted)) in
            ground (arith, counted, passes, ih, fine m, mine)
      ]

max_of-pos : (t : Types) (typ : Bytes) → 0 < max_of t typ
unfolding max_of max_per_min_cmd lookup
max_of-pos t typ = ground arith

count_of-reset : (typ : Bytes) (cnt : Counts) → count_of typ (reset cnt) ≡ 0
unfolding count_of reset lookup
count_of-reset typ [] = refl
count_of-reset typ ((k, n) ∷ cnt) = ground (arith, count_of-reset typ cnt)

-- Between two ticks, after the counts have been reset, and if no message ends the connection: of the
-- messages of a type that is registered as many are handled as have come, but one less than the limit of
-- the type at most, in the order and with the others as they may be.
pub serve_peer-limit :
    {Msg : Type 0} (t : Types) (type_of : Msg → Bytes) (registered : Bytes → Bool)
    (fails : Msg → Bool) (typ : Bytes) (ms : List Msg) (cnt : Counts)
    → registered typ ≡ true
    → ((m : Msg) → fails m ≡ false)
    → length ms < 2 ^ 64
    → number t type_of registered fails typ (
        serve_peer t type_of registered fails
          (in_a_minute t type_of registered fails ms)
          (reset cnt))
      ≡ min (number t type_of registered fails typ ms) (max_of t typ - 1)
serve_peer-limit t type_of registered fails typ ms cnt known fine word =
    let none_yet = count_of-reset typ cnt in
    omega (
      arith,
      none_yet,
      serve_peer-number t type_of registered fails typ ms (reset cnt) known fine (max_of-pos t typ)
          (omega (arith, none_yet)),
    )
