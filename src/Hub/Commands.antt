-- ===== src/Hub/Commands.antt =====
-- Which texts of a chat are commands: `isCommand` of hub/cmds.go. `starts_letter` is unicode.IsLetter of
-- the first rune, by package utf8.
pub mod Arguments
pub mod Table
mod Tests
pub mod Run
use go_dcpp.Base.{
  ℕ, ◌≡◌, refl, ◌≢◌, ◌⊎◌, inl, inr, Bool, true, false, not, ◌||◌, Option, none, some, [], ◌∷◌, ◌++◌,
  arith, if◌then◌else◌, ◌==◌, nat_eq, ==_iff, list_eq, Option-cases, Bytes, codes,
}

-- strings.IndexByte(cmd, ' '), as the text before it and the text after it
pub cut_space : Bytes → Option (Bytes × Bytes)
cut_space [] = none
cut_space (c ∷ s) = elim (cut_space s) [
  | none ↦ if c == b' ' then some ([], s) else none
  | some (before, after) ↦ if c == b' ' then some ([], s) else some (c ∷ before, after)
]

-- strings.HasPrefix
unfoldable pub has_prefix : Bytes → Bytes → Bool
has_prefix s [] = true
has_prefix [] (c ∷ p) = false
has_prefix (d ∷ s) (c ∷ p) = let rest = has_prefix s p in if d == c then rest else false

-- A text is for the chat, or it is swallowed, or it is a command with its arguments.
pub data Text : Type 0 where
  chat ignored : Text
  command : Bytes → Bytes → Text

module _ (starts_letter : Bytes → Bool) where
  -- what follows the sign, split at its first space, unless the space comes first
  split_args : Bytes → Option (Bytes × Bytes) → Bytes × Bytes
  split_args cmd none = (cmd, [])
  split_args cmd (some ([], args)) = (cmd, [])
  split_args cmd (some (c ∷ before, args)) = (c ∷ before, args)

  after_sign : Bytes → Text
  unfolding split_args
  after_sign text =
      let (cmd, args) = split_args text (cut_space text) in
      if cmd == [] then chat else if not (starts_letter cmd) then chat else command cmd args

  -- `isCommand`; it returns false for `chat`, and runs the command for `command`
  pub is_command : Bytes → Text
  unfolding after_sign
  is_command [] = ignored
  is_command (c ∷ text) =
      if c ∷ text == codes "/fav"
      then ignored
      else if text == []
      then chat
      else if c == b'/'
      then if c ∷ text == codes "/me" || has_prefix text (codes "me ")
        then chat
        else after_sign text
      else if c == b'!' || c == b'+'
      then after_sign text
      else chat

cut_space_lem :
    (s before after : Bytes) → cut_space s ≡ some (before, after) → s ≡ before ++ b' ' ∷ after
unfolding cut_space
cut_space_lem [] before after = λ e. ground arith
cut_space_lem (c ∷ s) before after = elim (Option-cases (cut_space s)) [
  | inl stop ↦ λ e. ground arith
  | inr ((b, a), cut) ↦ λ e. ground (arith, cut_space_lem s b a cut)
]

-- The text is the sign, the command, and a space and the arguments if there are any.
abbrev pub IsSplit : ℕ → Bytes → Bytes → Bytes → Type 0
IsSplit c text cmd args =
    (cmd ≢ []) × ((c ∷ text ≡ c ∷ cmd ++ b' ' ∷ args) ⊎ ((c ∷ text ≡ c ∷ cmd) × (args ≡ [])))

module _ (starts_letter : Bytes → Bool) where
  split_args_lem :
      (text : Bytes) (cut : Option (Bytes × Bytes)) (cmd args : Bytes)
      → cut_space text ≡ cut
      → split_args starts_letter text cut ≡ (cmd, args)
      → (text ≡ cmd ++ b' ' ∷ args) ⊎ ((text ≡ cmd) × (args ≡ []))
  unfolding split_args
  split_args_lem text none cmd args e f = ground arith
  split_args_lem text (some ([], after)) cmd args e f = ground arith
  split_args_lem text (some (c ∷ before, after)) cmd args e f =
      ground (arith, cut_space_lem text (c ∷ before) after e)

  after_sign_lem :
      (c : ℕ) (text cmd args : Bytes)
      → after_sign starts_letter text ≡ command cmd args
      → IsSplit c text cmd args × (starts_letter cmd ≡ true)
  unfolding after_sign
  after_sign_lem c text cmd args e =
      let (cmd', args') = split_args starts_letter text (cut_space text) in
      let split = split_args_lem text (cut_space text) cmd' args' refl refl in
      ground (arith, split, ==_iff cmd' [])

  -- A text that is run as a command starts with one of the three signs, then comes the command, which is not empty
  -- and starts with a letter, and the arguments after a space, if there is one.
  pub is_command_lem :
      (c : ℕ) (text cmd args : Bytes)
      → is_command starts_letter (c ∷ text) ≡ command cmd args
      → ((c ≡ b'/') ⊎ (c ≡ b'!') ⊎ (c ≡ b'+'))
        × IsSplit c text cmd args
        × (starts_letter cmd ≡ true)
  unfolding is_command
  is_command_lem c text cmd args e = ground (arith, after_sign_lem c text cmd args)
