-- ===== src/Hub/Commands/Arguments/Joined.antt =====
-- Words with a space between them, as the arguments of a command of hub/cmds.go.
use go_dcpp.Hub.Peers.{Hub}
use go_dcpp.Hub.Commands.{cut_space}
use go_dcpp.Hub.Commands.Arguments.{parsed, cmd_parse_string}
use go_dcpp.Hub.Commands.Arguments.Typed.{
  Kind, peer_kind, string_kind, self_value, string_value, Readers, call_with, in_front, as_value,
  read_value, then_read, is_self, read_arguments, to_command_func, shape_of, check_kinds,
  check_kind, Shape,
}
use go_dcpp.Base.{
  ℕ, suc, ◌+◌, ◌<◌, ◌≡◌, refl, ap, ◌∙◌, ◌≢◌, inl, inr, false, Option, none, some, List, [], ◌∷◌,
  ◌++◌, map, arith, nat_eq, list_eq, Option-cases, is_some, Bytes, length, All, Lacks,
}

-- A text that is an argument of its own: it is not empty, it has no space, and it does not start with a quote.
abbrev pub IsWord : Bytes → Type 0
IsWord [] = ⊥
IsWord (c ∷ w) = (c ≢ b'"') × (c ≢ b'`') × Lacks b' ' (c ∷ w)

abbrev pub joined : List Bytes → Bytes
joined [] = []
joined (w ∷ []) = w
joined (w ∷ v ∷ ws) = w ++ b' ' ∷ joined (v ∷ ws)

cut_space-append : (w rest : Bytes) → Lacks b' ' w → cut_space (w ++ b' ' ∷ rest) ≡ some (w, rest)
unfolding cut_space
cut_space-append [] rest lacks = elim (Option-cases (cut_space rest)) [
  | inl end ↦ ground (arith, end)
  | inr (cut, e) ↦ ground (arith, e)
]
cut_space-append (c ∷ w) rest (other, lacks) = ground (arith, cut_space-append w rest lacks)

cut_space-none : (w : Bytes) → Lacks b' ' w → cut_space w ≡ none
unfolding cut_space
cut_space-none [] lacks = refl
cut_space-none (c ∷ w) (other, lacks) = ground (arith, cut_space-none w lacks)

module _ (unquote_char : Bytes → Option (Bytes × Bytes)) where
  cmd_parse_string-append :
      (w rest : Bytes) → IsWord w → cmd_parse_string unquote_char (w ++ b' ' ∷ rest) ≡ parsed w rest
  unfolding cmd_parse_string
  cmd_parse_string-append [] rest word = absurd word
  cmd_parse_string-append (c ∷ w) rest (quote, tick, lacks) =
      ground (arith, cut_space-append (c ∷ w) rest lacks)

  cmd_parse_string-word : (w : Bytes) → IsWord w → cmd_parse_string unquote_char w ≡ parsed w []
  unfolding cmd_parse_string
  cmd_parse_string-word [] word = absurd word
  cmd_parse_string-word (c ∷ w) (quote, tick, lacks) = ground (arith, cut_space-none (c ∷ w) lacks)

module _ (readers : Readers) (h : Hub) where
  is_self-after : (self i : ℕ) → self < i → is_self readers h (some self) i ≡ false
  unfolding is_self
  is_self-after self i later = ground arith

  -- An argument that is a text is read, and then the others.
  read_arguments-parsed :
      (self i : ℕ) (kinds : List Kind) (args w rest : Bytes)
      → self < i
      → cmd_parse_string readers.unquote_char args ≡ parsed w rest
      → read_arguments readers h (some self) i (string_kind ∷ kinds) args
        ≡ in_front (string_value w) (read_arguments readers h (some self) (i + 1) kinds rest)
  unfolding read_arguments then_read read_value as_value
  read_arguments-parsed self i kinds args w rest later reads =
      rw (is_self-after self i later, read_arguments) (rw reads refl)

  read_arguments-joined_from :
      (self i : ℕ) (words : List Bytes)
      → self < i
      → All IsWord words
      → read_arguments readers h (some self) i (map (λ w. string_kind) words) (joined words)
        ≡ call_with (map string_value words)
  unfolding read_arguments then_read is_self read_value as_value in_front
  read_arguments-joined_from self i [] later all = refl
  read_arguments-joined_from self i (w ∷ []) later (word, all) =
      read_arguments-parsed self i [] w w [] later
        (cmd_parse_string-word readers.unquote_char w word)
  read_arguments-joined_from self i (w ∷ v ∷ ws) later (word, all) =
      let rest = joined (v ∷ ws) in
      read_arguments-parsed self i (map (λ w. string_kind) (v ∷ ws)) (joined (w ∷ v ∷ ws)) w rest
        later (cmd_parse_string-append readers.unquote_char w rest word)
      ∙ ap (in_front (string_value w))
          (read_arguments-joined_from self (i + 1) (v ∷ ws) (omega arith) all)

  read_arguments-joined :
      (words : List Bytes)
      → All IsWord words
      → read_arguments readers h
          (some 0)
          0
          (peer_kind ∷ map (λ w. string_kind) words)
          (joined words)
        ≡ call_with (self_value ∷ map string_value words)
  unfolding read_arguments then_read is_self in_front
  read_arguments-joined words all =
      ap (in_front self_value) (read_arguments-joined_from 0 1 words (omega arith) all)

check_kinds-strings :
    (argc i : ℕ) (sh : Shape) (words : List Bytes)
    → check_kinds argc i sh (map (λ w. string_kind) words) ≡ some sh
unfolding check_kinds check_kind
check_kinds-strings argc i sh [] = refl
check_kinds-strings argc i sh (w ∷ words) = check_kinds-strings argc (i + 1) sh words

shape_of-strings :
    (words : List Bytes)
    → shape_of (peer_kind ∷ map (λ w. string_kind) words)
      ≡ some (record { self = some 0; on_user = false })
unfolding shape_of check_kinds check_kind is_some
shape_of-strings words =
    check_kinds-strings (suc (length (map (λ w. string_kind) words))) 1
      (record { self = some 0; on_user = false }) words

module _ (readers : Readers) (h : Hub) where
  -- A handler that takes its caller and then texts is registered without a panic, and is called with the
  -- caller and exactly the words that stand, with a space between them, after the command. A word is not
  -- empty, has no space and does not start with a quote.
  pub to_command_func-joined :
      (words : List Bytes)
      → All IsWord words
      → to_command_func readers h (peer_kind ∷ map (λ w. string_kind) words) (joined words)
        ≡ some (call_with (self_value ∷ map string_value words))
  unfolding to_command_func
  to_command_func-joined words all =
      rw (shape_of-strings words, to_command_func)
        (ap some (read_arguments-joined readers h words all))
