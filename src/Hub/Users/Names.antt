-- ===== src/Hub/Users/Names.antt =====
-- The names that `validateUserName` of hub/users.go accepts. What it takes from packages strings,
-- unicode and encoding are parameters: the string without the spaces at its ends, its runes, the
-- runes that are graphic, and, if the hub has a fallback encoding, whether that encodes the name.
use go_dcpp.Base.{
  ℕ, ◌≤◌, ◌≡◌, ◌≢◌, Bool, false, not, ◌||◌, Option, none, some, List, [], ◌∷◌, arith, ltb,
  if◌then◌else◌, ◌==◌, nat_eq, ==_iff, list_eq, Bytes, codes, length, All,
}

pub data NameError : Type 0 where
  name_empty name_too_long name_too_short name_invalid_prefix name_padding name_invalid_chars :
      NameError
  name_encoding : NameError

abbrev pub user_name_min : ℕ
user_name_min = 3

abbrev pub user_name_max : ℕ
user_name_max = 256

unfoldable pub one_of : Bytes → ℕ → Bool
one_of [] c = false
one_of (d ∷ ds) c = c == d || one_of ds c

unfoldable pub any_of : (ℕ → Bool) → Bytes → Bool
any_of p [] = false
any_of p (c ∷ s) = p c || any_of p s

-- the bytes that no name starts with
abbrev pub bad_prefix : Bytes
bad_prefix = codes " #!+/"

-- "\x00 <>"
abbrev pub bad_chars : Bytes
bad_chars = 0 ∷ codes " <>"

unfoldable pub first_of : Bytes → ℕ
first_of [] = 0
first_of (c ∷ s) = c

pub record Strings : Type 0 where
  pub trim_space : Bytes → Bytes
  pub runes : Bytes → List ℕ
  pub is_graphic : ℕ → Bool
  pub fallback : Option (Bytes → Bool)

-- h.fallback != nil, and the encoder fails
unfoldable pub fails_to_encode : Option (Bytes → Bool) → Bytes → Bool
fails_to_encode none name = false
fails_to_encode (some encodes) name = not (encodes name)

-- `validateUserName`: the error, if there is one
unfoldable pub validate_user_name : Strings → Bytes → Option NameError
validate_user_name t name =
    if name == []
    then some name_empty
    else if ltb user_name_max (length name)
    then some name_too_long
    else if ltb (length name) user_name_min
    then some name_too_short
    else if one_of bad_prefix (first_of name)
    then some name_invalid_prefix
    else if not (name == t.trim_space name)
    then some name_padding
    else if any_of (one_of bad_chars) name
    then some name_invalid_chars
    else if any_of (λ r. ltb r b' ' || not (t.is_graphic r)) (t.runes name)
    then some name_invalid_chars
    else if fails_to_encode t.fallback name
    then some name_encoding
    else none

-- a byte that a name may hold, by the bytes that it may not
abbrev pub IsNameByte : ℕ → Type 0
IsNameByte c = (c ≢ 0) × (c ≢ b' ') × (c ≢ b'<') × (c ≢ b'>')

one_of-IsNameByte : (c : ℕ) → one_of bad_chars c ≡ false → IsNameByte c
unfolding one_of
one_of-IsNameByte c e = ground arith

any_of-All : (s : Bytes) → any_of (one_of bad_chars) s ≡ false → All IsNameByte s
unfolding any_of
any_of-All [] e = tt
any_of-All (c ∷ s) e =
    let here : one_of bad_chars c ≡ false = ground arith in
    let later : any_of (one_of bad_chars) s ≡ false = ground arith in
    (one_of-IsNameByte c here, any_of-All s later)

-- A name that `validateUserName` accepts has 3 to 256 bytes, none of them NUL, a space or an angle
-- bracket; it starts with none of " #!+/", has no spaces at its ends, and the fallback encoding, if
-- the hub has one, encodes it.
pub validate_user_name_lem :
    (t : Strings) (name : Bytes)
    → validate_user_name t name ≡ none
    → (3 ≤ length name)
      × (length name ≤ 256)
      × All IsNameByte name
      × (one_of bad_prefix (first_of name) ≡ false)
      × (t.trim_space name ≡ name)
      × (fails_to_encode t.fallback name ≡ false)
unfolding validate_user_name
validate_user_name_lem t name e =
    let clean : any_of (one_of bad_chars) name ≡ false = ground arith in
    let padded = ==_iff name (t.trim_space name) in
    (
      ground arith,
      ground arith,
      any_of-All name clean,
      ground arith,
      ground (arith, padded),
      ground arith,
    )
