-- ===== src/Hub/Commands/Arguments/Typed.antt =====
-- How the arguments of a command are read by their types: `toCommandFunc` of hub/cmds.go. A Go type is one of
-- the kinds below. `Readers` has the functions of other packages: strconv.UnquoteChar, the lower case of
-- a name, ParseInt, ParseUint and ParseDuration.
use go_dcpp.Hub.Peers.{Peer, Hub}
use go_dcpp.Hub.Commands.Arguments.{
  Parsed, parsed, invalid, unfinished, parse_then, parse_then-ne-unfinished, cmd_parse_string,
  cmd_parse_by, cmd_parse_peer, find_peer, IsUnquoter, cmd_parse_string-ne-unfinished,
}
use go_dcpp.Base.{
  ℕ, ◌+◌, ◌-◌, refl, ◌≢◌, inl, inr, Bool, true, false, ◌&&◌, ◌||◌, Option, none, some, List, [],
  ◌∷◌, arith, if◌then◌else◌, ◌==◌, nat_eq, list_eq, Bool-cases, Option-cases, is_some, Bytes,
  length, ℤ,
}

pub data Kind : Type 0 where
  peer_kind duration_kind int_kind uint_kind string_kind raw_kind other_kind : Kind

pub data Value : Type 0 where
  self_value : Value
  peer_value : Peer → Value
  duration_value int_value : ℤ → Value
  uint_value : ℕ → Value
  string_value raw_value : Bytes → Value

pub record Readers : Type 0 where
  pub unquote_char : Bytes → Option (Bytes × Bytes)
  pub to_lower : Bytes → Bytes
  pub parse_int : Bytes → Option ℤ
  pub parse_uint : Bytes → Option ℕ
  pub parse_duration : Bytes → Option ℤ

-- Which argument is the caller, if any (`selfInd`), and `opt.OnUser`.
pub record Shape : Type 0 where
  pub self : Option ℕ
  pub on_user : Bool

-- case reflPeer, when the argument is not the caller
unfoldable pub other_peer : ℕ → Shape → Shape
other_peer argc sh =
    if argc == 1 || (argc == 2 && is_some sh.self) then record sh { on_user = true } else sh

-- one turn of the loop over the types; `none` is a panic
unfoldable pub check_kind : ℕ → ℕ → Shape → Kind → Option Shape
unfolding other_peer
check_kind argc i sh peer_kind =
    if is_some sh.self then some (other_peer argc sh) else some (record sh { self = some i })
check_kind argc i sh duration_kind = some sh
check_kind argc i sh int_kind = some sh
check_kind argc i sh uint_kind = some sh
check_kind argc i sh string_kind = some sh
check_kind argc i sh raw_kind = if i + 1 == argc then some sh else none
check_kind argc i sh other_kind = none

unfoldable pub check_kinds : ℕ → ℕ → Shape → List Kind → Option Shape
unfolding check_kind
check_kinds argc i sh [] = some sh
check_kinds argc i sh (k ∷ ks) = elim (check_kind argc i sh k) [
  | none ↦ none
  | some sh' ↦ check_kinds argc (i + 1) sh' ks
]

-- the loop of `toCommandFunc` over the types of the handler
unfoldable pub shape_of : List Kind → Option Shape
unfolding check_kinds
shape_of ks = check_kinds (length ks) 0 (record { self = none; on_user = false }) ks

-- The values that the handler is called with, or which argument is wrong; `unsupported` is the default
-- case of the switch, and `stuck` is a loop that has run out of fuel.
pub data Arguments : Type 0 where
  call_with : List Value → Arguments
  bad_argument : ℕ → Arguments
  unsupported stuck : Arguments

unfoldable pub in_front : Value → Arguments → Arguments
in_front v (call_with vs) = call_with (v ∷ vs)
in_front v (bad_argument n) = bad_argument n
in_front v unsupported = unsupported
in_front v stuck = stuck

unfoldable pub as_value : {A : Type 0} → (A → Value) → Parsed A → Parsed Value
as_value f r = parse_then (λ a rest. parsed (f a) rest) r

module _ (readers : Readers) (h : Hub) where
  -- the raw text, which stays as it is, and switch t
  unfoldable pub read_value : Kind → Bytes → Option (Parsed Value)
  unfolding as_value
  read_value peer_kind args =
      some (as_value peer_value (cmd_parse_peer readers.unquote_char readers.to_lower h args))
  read_value string_kind args =
      some (as_value string_value (cmd_parse_string readers.unquote_char args))
  read_value int_kind args =
      some (as_value int_value (cmd_parse_by readers.unquote_char readers.parse_int args))
  read_value uint_kind args =
      some (as_value uint_value (cmd_parse_by readers.unquote_char readers.parse_uint args))
  read_value duration_kind args =
      some (as_value duration_value (cmd_parse_by readers.unquote_char readers.parse_duration args))
  read_value raw_kind args = some (parsed (raw_value args) args)
  read_value other_kind args = none

  -- the number that an error about the argument `i` has
  arg_number : Option ℕ → ℕ → ℕ
  arg_number none i = i + 1
  arg_number (some self) i = i + 1 - 1

  -- what is read for the argument `i`, before those that `next` reads
  unfoldable pub then_read : Option ℕ → ℕ → Option (Parsed Value) → (Bytes → Arguments) → Arguments
  unfolding in_front arg_number
  then_read self i none next = unsupported
  then_read self i (some (parsed v rest)) next = in_front v (next rest)
  then_read self i (some invalid) next = bad_argument (arg_number self i)
  then_read self i (some unfinished) next = stuck

  -- if i == selfInd
  unfoldable pub is_self : Option ℕ → ℕ → Bool
  is_self none i = false
  is_self (some self) i = i == self

  -- the loop of the function that `toCommandFunc` makes
  unfoldable pub read_arguments : Option ℕ → ℕ → List Kind → Bytes → Arguments
  unfolding then_read is_self read_value
  read_arguments self i [] args = call_with []
  read_arguments self i (k ∷ ks) args = elim (is_self self i) [
    | true ↦ in_front self_value (read_arguments self (i + 1) ks args)
    | false ↦ then_read self i (read_value k args) (read_arguments self (i + 1) ks)
  ]

  -- the function that `toCommandFunc` makes of a handler with these types; `none` is a panic
  unfoldable pub to_command_func : List Kind → Bytes → Option Arguments
  to_command_func kinds args = elim (shape_of kinds) [
    | none ↦ none
    | some sh ↦ some (read_arguments sh.self 0 kinds args)
  ]

  cmd_parse_by-ne-unfinished :
      {A : Type 0} (read : Bytes → Option A) (text : Bytes)
      → IsUnquoter readers.unquote_char
      → cmd_parse_by readers.unquote_char read text ≢ unfinished
  unfolding cmd_parse_by
  cmd_parse_by-ne-unfinished read text takes =
      parse_then-ne-unfinished readers.unquote_char _ (cmd_parse_string readers.unquote_char text)
        (λ s rest. elim (Option-cases (read s)) [
          | inl bad ↦ λ e. ground arith
          | inr (v, good) ↦ λ e. ground arith
        ])
        (cmd_parse_string-ne-unfinished readers.unquote_char takes text)

  cmd_parse_peer-ne-unfinished :
      (text : Bytes)
      → IsUnquoter readers.unquote_char
      → cmd_parse_peer readers.unquote_char readers.to_lower h text ≢ unfinished
  unfolding cmd_parse_peer
  cmd_parse_peer-ne-unfinished text takes =
      parse_then-ne-unfinished readers.unquote_char _ (cmd_parse_string readers.unquote_char text)
        (λ v rest. elim (Option-cases (find_peer readers.unquote_char readers.to_lower h v)) [
          | inl bad ↦ λ e. ground arith
          | inr (p, good) ↦ λ e. ground arith
        ])
        (cmd_parse_string-ne-unfinished readers.unquote_char takes text)

  as_value-ne-unfinished :
      {A : Type 0} (f : A → Value) (r : Parsed A)
      → r ≢ unfinished
      → some (as_value f r) ≢ some unfinished
  unfolding as_value
  as_value-ne-unfinished f (parsed v rest) ends = λ e. ground arith
  as_value-ne-unfinished f invalid ends = λ e. ground arith
  as_value-ne-unfinished f unfinished ends = absurd (ends refl)

  read_value-ne-unfinished :
      (k : Kind) (args : Bytes)
      → IsUnquoter readers.unquote_char
      → read_value k args ≢ some unfinished
  unfolding read_value
  read_value-ne-unfinished peer_kind args takes =
      as_value-ne-unfinished peer_value _ (cmd_parse_peer-ne-unfinished args takes)
  read_value-ne-unfinished duration_kind args takes =
      as_value-ne-unfinished duration_value _
        (cmd_parse_by-ne-unfinished readers.parse_duration args takes)
  read_value-ne-unfinished int_kind args takes =
      as_value-ne-unfinished int_value _ (cmd_parse_by-ne-unfinished readers.parse_int args takes)
  read_value-ne-unfinished uint_kind args takes =
      as_value-ne-unfinished uint_value _ (cmd_parse_by-ne-unfinished readers.parse_uint args takes)
  read_value-ne-unfinished string_kind args takes =
      as_value-ne-unfinished string_value _
        (cmd_parse_string-ne-unfinished readers.unquote_char takes args)
  read_value-ne-unfinished raw_kind args takes = λ e. ground arith
  read_value-ne-unfinished other_kind args takes = λ e. ground arith

  in_front-ne-stuck : (v : Value) (a : Arguments) → a ≢ stuck → in_front v a ≢ stuck
  unfolding in_front
  in_front-ne-stuck v (call_with vs) ends = λ e. ground arith
  in_front-ne-stuck v (bad_argument n) ends = λ e. ground arith
  in_front-ne-stuck v unsupported ends = λ e. ground arith
  in_front-ne-stuck v stuck ends = absurd (ends refl)

  then_read-ne-stuck :
      (self : Option ℕ) (i : ℕ) (r : Option (Parsed Value)) (next : Bytes → Arguments)
      → r ≢ some unfinished
      → ((rest : Bytes) → next rest ≢ stuck)
      → then_read self i r next ≢ stuck
  unfolding then_read
  then_read-ne-stuck self i none next reads ends = λ e. ground arith
  then_read-ne-stuck self i (some (parsed v rest)) next reads ends =
      in_front-ne-stuck v (next rest) (ends rest)
  then_read-ne-stuck self i (some invalid) next reads ends = λ e. ground arith
  then_read-ne-stuck self i (some unfinished) next reads ends = absurd (reads refl)

  -- Reading the arguments of a handler ends, whatever the types are and the text is, for a function that
  -- unquotes characters and takes at least one byte each time: the fuel of the loop over a quoted argument
  -- is enough.
  pub read_arguments-ne-stuck :
      (self : Option ℕ) (i : ℕ) (kinds : List Kind) (args : Bytes)
      → IsUnquoter readers.unquote_char
      → read_arguments self i kinds args ≢ stuck
  unfolding read_arguments
  read_arguments-ne-stuck self i [] args takes = λ e. ground arith
  read_arguments-ne-stuck self i (k ∷ ks) args takes = elim (Bool-cases (is_self self i)) [
    | inl here ↦
        rw (here, read_arguments)
          (in_front-ne-stuck self_value (read_arguments self (i + 1) ks args)
            (read_arguments-ne-stuck self (i + 1) ks args takes))
    | inr other ↦
        rw (other, read_arguments)
          (then_read-ne-stuck self i (read_value k args) (read_arguments self (i + 1) ks)
            (read_value-ne-unfinished k args takes)
            (λ rest. read_arguments-ne-stuck self (i + 1) ks rest takes))
  ]
