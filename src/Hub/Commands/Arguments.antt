-- ===== src/Hub/Commands/Arguments.antt =====
-- How an argument of a command is read: `cmdParseString`, `cmdParsePeer` and the functions over
-- them, of hub/cmds.go, and `cmdUnquoteSplit` of hub/strconv.go. `unquote_char` is
-- strconv.UnquoteChar: the bytes of the next character, and the rest. The numbers and durations are
-- those of packages strconv and time.
pub mod Joined
pub mod Typed
use go_dcpp.Adc.Sid.{Sid, sid_eq, unmarshal_sid}
use go_dcpp.Hub.Peers.{Peer, Hub, peer_by_sid, peer_by_name}
use go_dcpp.Hub.Commands.{cut_space}
use go_dcpp.Base.{
  ℕ, zero, suc, ◌+◌, ◌<◌, ◌≡◌, refl, ◌≢◌, inl, inr, true, false, ◌||◌, Option, none, some, [], ◌∷◌,
  ◌++◌, arith, if◌then◌else◌, ◌==◌, nat_eq, list_eq, Option-cases, Bytes, length,
}

-- A value and the text that follows; `unfinished` is a loop that has run out of fuel.
pub data Parsed (A : Type 0) : Type 0 where
  parsed : A → Bytes → Parsed A
  invalid unfinished : Parsed A

abbrev pub parse_then : {A B : Type 0} → (A → Bytes → Parsed B) → Parsed A → Parsed B
parse_then f (parsed a rest) = f a rest
parse_then f invalid = invalid
parse_then f unfinished = unfinished

module _ (unquote_char : Bytes → Option (Bytes × Bytes)) where
  -- the loop of `cmdUnquoteSplit`; `buf` is what has been read
  unquote_loop : ℕ → Bytes → Bytes → Parsed Bytes
  unquote_loop zero s buf = unfinished
  unquote_loop (suc fuel) [] buf = invalid
  unquote_loop (suc fuel) (c ∷ s) buf = elim (c == b'"') [
    | true ↦ parsed buf s
    | false ↦ elim (unquote_char (c ∷ s)) [
      | none ↦ invalid
      | some (d, rest) ↦ unquote_loop fuel rest (buf ++ d)
    ]
  ]

  -- `cmdUnquoteSplit`
  pub unquote_split : Bytes → Parsed Bytes
  unfolding unquote_loop
  unquote_split [] = invalid
  unquote_split (c ∷ []) = invalid
  unquote_split (c ∷ d ∷ s) =
      if c == b'"' then unquote_loop (length (d ∷ s) + 1) (d ∷ s) [] else invalid

  -- after a quoted text comes the end, or a space
  after_quote : Bytes → Bytes → Parsed Bytes
  after_quote v [] = parsed v []
  after_quote v (c ∷ rest) = if c == b' ' then parsed v rest else invalid

  -- `cmdParseString`
  pub cmd_parse_string : Bytes → Parsed Bytes
  unfolding after_quote
  cmd_parse_string [] = invalid
  cmd_parse_string (c ∷ text) =
      if c == b'"' || c == b'`'
      then parse_then after_quote (unquote_split (c ∷ text))
      else elim (cut_space (c ∷ text)) [
        | none ↦ parsed (c ∷ text) []
        | some (v, rest) ↦ parsed v rest
      ]

  -- `cmdParseInt`, `cmdParseUint` and `cmdParseDur`, by what reads the text of one
  pub cmd_parse_by : {A : Type 0} → (Bytes → Option A) → Bytes → Parsed A
  unfolding cmd_parse_string
  cmd_parse_by read text =
      parse_then (λ s rest. elim (read s) [ none ↦ invalid | some v ↦ parsed v rest ])
        (cmd_parse_string text)

  -- the peer with this session or name
  find_peer : (Bytes → Bytes) → Hub → Bytes → Option Peer
  find_peer to_lower h v =
      if length v == 4
      then elim (unmarshal_sid v) [
        | none ↦ peer_by_name to_lower v h
        | some id ↦ elim (peer_by_sid id h) [ some p ↦ some p | none ↦ peer_by_name to_lower v h ]
      ]
      else peer_by_name to_lower v h

  -- `cmdParsePeer`
  pub cmd_parse_peer : (Bytes → Bytes) → Hub → Bytes → Parsed Peer
  unfolding cmd_parse_string find_peer
  cmd_parse_peer to_lower h text =
      parse_then
        (λ v rest. elim (find_peer to_lower h v) [ none ↦ invalid | some p ↦ parsed p rest ])
        (cmd_parse_string text)

  -- As its documentation says, UnquoteChar takes at least one byte of the text.
  abbrev pub IsUnquoter : Type 0
  IsUnquoter = (s d rest : Bytes) → unquote_char s ≡ some (d, rest) → length rest < length s

  unquote_loop-ne-unfinished :
      IsUnquoter
      → (fuel : ℕ) (s buf : Bytes) → length s < fuel
      → unquote_loop fuel s buf ≢ unfinished
  unfolding unquote_loop
  unquote_loop-ne-unfinished takes zero s buf enough = absurd (omega arith)
  unquote_loop-ne-unfinished takes (suc fuel) [] buf enough = λ e. ground arith
  unquote_loop-ne-unfinished takes (suc fuel) (c ∷ s) buf enough =
      elim (Option-cases (unquote_char (c ∷ s))) [
        | inl bad ↦ λ e. ground arith
        | inr ((d, rest), good) ↦ λ e. ground (
          arith,
          takes (c ∷ s) d rest good,
          unquote_loop-ne-unfinished takes fuel rest (buf ++ d),
        )
      ]

  after_quote-ne-unfinished : (v rest : Bytes) → after_quote v rest ≢ unfinished
  unfolding after_quote
  after_quote-ne-unfinished v [] = λ e. ground arith
  after_quote-ne-unfinished v (c ∷ rest) = λ e. ground arith

  parse_then-ne-unfinished :
      {A B : Type 0} (f : A → Bytes → Parsed B) (r : Parsed A)
      → ((a : A) (rest : Bytes) → f a rest ≢ unfinished)
      → r ≢ unfinished
      → parse_then f r ≢ unfinished
  parse_then-ne-unfinished f (parsed a rest) ends reads = ends a rest
  parse_then-ne-unfinished f invalid ends reads = λ e. ground arith
  parse_then-ne-unfinished f unfinished ends reads = absurd (reads refl)

  unquote_split-ne-unfinished : IsUnquoter → (text : Bytes) → unquote_split text ≢ unfinished
  unfolding unquote_split
  unquote_split-ne-unfinished takes [] = λ e. ground arith
  unquote_split-ne-unfinished takes (c ∷ []) = λ e. ground arith
  unquote_split-ne-unfinished takes (c ∷ d ∷ s) = λ e.
      ground (arith, unquote_loop-ne-unfinished takes (length (d ∷ s) + 1) (d ∷ s) [] (omega arith))

  -- The fuel of the loop over a quoted argument is enough, for every text.
  pub cmd_parse_string-ne-unfinished :
      IsUnquoter → (text : Bytes) → cmd_parse_string text ≢ unfinished
  unfolding cmd_parse_string
  cmd_parse_string-ne-unfinished takes [] = λ e. ground arith
  cmd_parse_string-ne-unfinished takes (c ∷ text) = elim (Option-cases (cut_space (c ∷ text))) [
    | inl whole ↦ λ e. ground (
      arith,
      parse_then-ne-unfinished after_quote (unquote_split (c ∷ text)) after_quote-ne-unfinished
          (unquote_split-ne-unfinished takes (c ∷ text)),
    )
    | inr ((v, rest), cut) ↦ λ e. ground (
      arith,
      parse_then-ne-unfinished after_quote (unquote_split (c ∷ text)) after_quote-ne-unfinished
          (unquote_split-ne-unfinished takes (c ∷ text)),
    )
  ]
