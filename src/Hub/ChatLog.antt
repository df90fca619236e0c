-- ===== src/Hub/ChatLog.antt =====
-- The chat history of a room: `chatBuffer` of hub/room.go, a ring that keeps the last messages.
pub mod Window
pub mod Ring
pub mod History
mod Tests
use go_dcpp.Base.{
  ℕ, ◌+◌, ◌-◌, ◌||◌, Option, none, some, List, [], ◌∷◌, ◌++◌, ltb, leb, if◌then◌else◌, ◌==◌, nat_eq,
  list_eq, length, take, drop, replicate, set, overlay, copy_at, ℤ, pos, negsuc,
}

-- `ring[start]` is the oldest message once the ring is full.
pub record ChatBuffer {ℓ} (A : Type ℓ) : Type ℓ where
  pub start : ℕ
  pub limit : ℕ
  pub ring : List A

-- if n <= 0 || n > len(c.ring) { n = len(c.ring) }
pub clamp : ℤ → ℕ → ℕ
clamp (pos n) size = if n == 0 || ltb size n then size else n
clamp (negsuc n) size = size

-- c.start++; if c.start >= len(c.ring) { c.start = 0 }
pub next_start : ℕ → ℕ → ℕ
next_start start size = if leb size (start + 1) then 0 else start + 1

module _ {ℓ} {A : Type ℓ} where
  -- ring[i:j]
  pub slice : ℕ → ℕ → List A → List A
  slice i j ring = take (j - i) (drop i ring)

  -- The body of `Get` behind the clamp. `zero_value` fills the new slice `out`; `i` may be negative,
  -- so the test on it is `n < start`.
  pub window : ChatBuffer A → A → ℕ → List A
  unfolding slice
  window c zero_value n =
      let out = replicate n zero_value in
      if ltb n c.start
      then copy_at 0 (slice (c.start - n) c.start c.ring) out
      else let i = n - c.start in
        let out' = copy_at i (slice 0 c.start c.ring) out in
        if i == 0
        then out'
        else let j = length c.ring - i in overlay (take i (slice j (j + i) c.ring)) out'

  -- `Get`
  pub get : ChatBuffer A → A → ℤ → List A
  unfolding clamp window
  get c zero_value n = window c zero_value (clamp n (length c.ring))

  -- `Append`; `none` is the panic of an index out of range
  pub append : A → ChatBuffer A → Option (ChatBuffer A)
  unfolding next_start
  append m c =
      if ltb (length c.ring) c.limit
      then some (record c { ring = c.ring ++ m ∷ [] })
      else if ltb c.start (length c.ring)
      then some
          (record c { ring = set c.ring c.start m; start = next_start c.start (length c.ring) })
      else none

  -- A new buffer, `chatBuffer{limit: limit}`.
  pub empty : ℕ → ChatBuffer A
  empty limit = record { start = 0; limit = limit; ring = [] }
