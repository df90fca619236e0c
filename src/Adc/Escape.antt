-- ===== src/Adc/Escape.antt =====
-- `escaper` and `unescaper` of adc/codec.go.
-- A `strings.Replacer` reads its input from the left; at each place it writes the new text of the
-- first old text that stands there and goes on behind it, or copies one byte.
use go_dcpp.Base.{
  ℕ, ◌≡◌, refl, ap, ◌≢◌, Option, none, some, [], ◌∷◌, ◌++◌, arith, if◌then◌else◌, ◌==◌, nat_eq,
  list_eq, Bytes, All, All-append,
}

-- strings.NewReplacer(`\`, `\\`, " ", `\s`, "\n", `\n`), at one byte
escape_byte : ℕ → Bytes
escape_byte c =
    if c == b'\\'
    then b'\\' ∷ b'\\' ∷ []
    else if c == b' '
    then b'\\' ∷ b's' ∷ []
    else if c == b'\n'
    then b'\\' ∷ b'n' ∷ []
    else c ∷ []

unfoldable pub escape : Bytes → Bytes
unfolding escape_byte
escape [] = []
escape (c ∷ s) = escape_byte c ++ escape s

-- strings.NewReplacer(`\s`, " ", `\n`, "\n", `\\`, `\`): the byte that the old text `c d` stands for
unescape_pair : ℕ → ℕ → Option ℕ
unescape_pair c d =
    if c == b'\\'
    then if d == b's'
      then some b' '
      else if d == b'n'
      then some b'\n'
      else if d == b'\\'
      then some b'\\'
      else none
    else none

unfoldable pub unescape : Bytes → Bytes
unfolding unescape_pair
unescape [] = []
unescape (c ∷ []) = c ∷ []
unescape (c ∷ d ∷ s) = elim (unescape_pair c d) [
  | some x ↦ x ∷ unescape s
  | none ↦ c ∷ unescape (d ∷ s)
]

unescape-escape_byte : (c : ℕ) (s : Bytes) → unescape (escape_byte c ++ s) ≡ c ∷ unescape s
unfolding unescape escape_byte
unescape-escape_byte c [] = ground arith
unescape-escape_byte c (d ∷ s) = ground arith

-- `unescape` undoes `escape`, for every text.
pub unescape-escape : (s : Bytes) → unescape (escape s) ≡ s
unfolding escape
unescape-escape [] = unfold unescape in refl
unescape-escape (c ∷ s) = rw (unescape-escape_byte c (escape s)) (ap (◌∷◌ c) (unescape-escape s))

-- What separates fields and lines.
abbrev pub IsToken : Bytes → Type 0
IsToken = All (λ c. (c ≢ b' ') × (c ≢ b'\n'))

escape_byte-IsToken : (c : ℕ) → IsToken (escape_byte c)
unfolding escape_byte
escape_byte-IsToken c = ground arith

-- An escaped text holds neither the separator of fields nor the end of a line.
pub escape-IsToken : (s : Bytes) → IsToken (escape s)
unfolding escape
escape-IsToken [] = tt
escape-IsToken (c ∷ s) =
    All-append _ (escape_byte c) (escape s) (escape_byte-IsToken c) (escape-IsToken s)
