-- ===== src/Adc/Packet.antt =====
-- Packets of adc/packets.go: the eight kinds, `DecodePacket`, and `UnmarshalPacket` and
-- `MarshalPacket` of each kind.
-- A nil and an empty `Data` are one value here. `UDPPacket` holds a `CID`, whose text form is that
-- of the tiger package; it enters as `Base32`.
pub mod Marshal
pub mod RoundTrip
pub mod Accepts
pub mod Tests
use go_dcpp.Adc.Sid.{Sid, unmarshal_sid}
use go_dcpp.Adc.Feature.{Feature, feature, feature_eq}
use go_dcpp.Base.{
  ℕ, ◌+◌, ◌-◌, Bool, true, false, not, ◌||◌, Option, none, some, [], ◌∷◌, leb, if◌then◌else◌, ◌==◌,
  nat_eq, list_eq, Bytes, length, take, drop, get_or, Map, insert,
}

-- `MsgType` is `[3]byte`.
pub data MsgType : Type 0 where
  msg_type : ℕ → ℕ → ℕ → MsgType

pub data Packet : Type 0 where
  info hub client : MsgType → Bytes → Packet
  broadcast : MsgType → Bytes → Sid → Packet
  direct echo : MsgType → Bytes → Sid → Sid → Packet
  feature_cast : MsgType → Bytes → Sid → Map Feature Bool → Packet
  udp : MsgType → Bytes → Bytes → Packet

pub data Error : Type 0 where
  too_short null_characters unknown_kind name_separator short_command : Error
  invalid_delimiter separator_expected short_feature wrong_sid wrong_cid : Error
  -- an index out of range while the error is written
  panics : Error

pub data Result {ℓ} (A : Type ℓ) : Type ℓ where
  ok : A → Result A
  err : Error → Result A

infixl 5 ◌>>=◌ ◌>>◌
-- x, e := first; if e != nil { return e }; next(x)
abbrev pub ◌>>=◌ {ℓ κ} : {S : Type ℓ} {T : Type κ} → Result S → (S → Result T) → Result T
err reason >>= next = err reason
ok x >>= next = next x

-- the same, for a call that has no result but its error
abbrev pub ◌>>◌ {ℓ} : {T : Type ℓ} → Result (Unit {0}) → Result T → Result T
first >> second = first >>= λ done. second

-- if !test { return error }
abbrev pub require : Bool → Error → Result (Unit {0})
require true e = ok tt
require false e = err e

abbrev pub or_fail {ℓ} : {A : Type ℓ} → Option A → Error → Result A
or_fail none e = err e
or_fail (some a) e = ok a

-- `ToBase32` and `FromBase32` of a CID.
pub record Base32 : Type 0 where
  pub to_base32 : Bytes → Bytes
  pub from_base32 : Bytes → Option Bytes

abbrev pub delim : ℕ
delim = b'\n'

-- data[len(data)-1]
abbrev pub last : Bytes → ℕ
last [] = 0
last (c ∷ []) = c
last (c ∷ d ∷ s) = last (d ∷ s)

-- data[:len(data)-1]
abbrev pub drop_last : Bytes → Bytes
drop_last [] = []
drop_last (c ∷ []) = []
drop_last (c ∷ d ∷ s) = c ∷ drop_last (d ∷ s)

-- data[i:j]; behind the end of a shortened slice this reads on in the array that the slice is of
abbrev pub slice : ℕ → ℕ → Bytes → Bytes
slice i j s = take (j - i) (drop i s)

-- `InfoPacket.UnmarshalPacket`
unmarshal_info : MsgType → Bytes → Result Packet
unmarshal_info name body = do
  require (length body == 0 || last body == delim) invalid_delimiter
  ok (info name (drop_last body))

-- `HubPacket.UnmarshalPacket`, `ClientPacket.UnmarshalPacket`
unmarshal_plain : (MsgType → Bytes → Packet) → MsgType → Bytes → Result Packet
unmarshal_plain kind name body = do
  require (leb 1 (length body)) short_command
  require (last body == delim) invalid_delimiter
  ok (kind name (drop_last body))

-- `n` bytes, then a space or the end of the line
separated : ℕ → Bytes → Bool
separated n body = leb (length body) n || get_or body n 0 == b' ' || get_or body n 0 == delim

-- `BroadcastPacket.UnmarshalPacket`. The identifier is read from `data[0:4]` after the last byte is
-- cut off, with no new test of the length: `body`, not the shortened slice, holds those bytes.
unmarshal_broadcast : MsgType → Bytes → Result Packet
unfolding separated
unmarshal_broadcast name body = do
  require (leb 4 (length body)) short_command
  require (last body == delim) invalid_delimiter
  require (separated 4 body) separator_expected
  id ← or_fail (unmarshal_sid (slice 0 4 body)) wrong_sid
  ok (broadcast name (drop 5 (drop_last body)) id)

-- the body of `DirectPacket.UnmarshalPacket` and `EchoPacket.UnmarshalPacket`
unmarshal_targeted : (MsgType → Bytes → Sid → Sid → Packet) → MsgType → Bytes → Result Packet
unfolding separated
unmarshal_targeted kind name body = do
  require (leb 9 (length body)) short_command
  require (last body == delim) invalid_delimiter
  require (get_or body 4 0 == b' ') separator_expected
  require (separated 9 body) separator_expected
  id ← or_fail (unmarshal_sid (slice 0 4 body)) wrong_sid
  targ ← or_fail (unmarshal_sid (slice 5 9 body)) wrong_sid
  ok (kind name (drop 10 (drop_last body)) id targ)

-- `DirectPacket.UnmarshalPacket`
abbrev unmarshal_direct : MsgType → Bytes → Result Packet
unmarshal_direct name body = unmarshal_targeted direct name body

-- `EchoPacket.UnmarshalPacket`
abbrev unmarshal_echo : MsgType → Bytes → Result Packet
unmarshal_echo name body = unmarshal_targeted echo name body

-- `HubPacket.UnmarshalPacket`
abbrev unmarshal_hub : MsgType → Bytes → Result Packet
unmarshal_hub name body = unmarshal_plain hub name body

-- `ClientPacket.UnmarshalPacket`
abbrev unmarshal_client : MsgType → Bytes → Result Packet
unmarshal_client name body = unmarshal_plain client name body

-- the sign of a feature: what the map holds for it
sign : ℕ → Option Bool
sign c = if c == b'+' then some true else if c == b'-' then some false else none

-- A feature with fewer than four bytes behind its sign. The error quotes `data[i:i+5]`: the
-- delimiter that was cut off and `spare` bytes of capacity behind it can be read, no more.
short : ℕ → Bytes → Error
short spare rest = if leb 5 (length rest + 1 + spare) then short_feature else panics

-- The loop of `FeaturePacket.UnmarshalPacket`, over `data[i:]`. The code moves `data` or `i` on;
-- `if i+1 == len(data) { data = nil }` is the case of nothing left.
scan_features : ℕ → Bytes → Map Feature Bool → Result (Map Feature Bool × Bytes)
unfolding sign short
scan_features spare [] m = ok (m, [])
scan_features spare (c ∷ a ∷ b ∷ d ∷ e ∷ s) m = elim (sign c) [
  | some v ↦ scan_features spare s (insert (feature a b d e) v m)
  | none ↦ elim (c == b' ') [
    | true ↦ scan_features spare (a ∷ b ∷ d ∷ e ∷ s) m
    | false ↦ ok (m, c ∷ a ∷ b ∷ d ∷ e ∷ s)
  ]
]
scan_features spare (c ∷ s) m = elim (sign c) [
  | some v ↦ err (short spare (c ∷ s))
  | none ↦ elim (c == b' ') [ true ↦ scan_features spare s m | false ↦ ok (m, c ∷ s) ]
]

-- `FeaturePacket.UnmarshalPacket`
unmarshal_feature_cast : ℕ → MsgType → Bytes → Result Packet
unfolding separated
unmarshal_feature_cast spare name body = do
  require (leb 4 (length body)) short_command
  require (last body == delim) invalid_delimiter
  require (separated 4 body) separator_expected
  id ← or_fail (unmarshal_sid (slice 0 4 body)) wrong_sid
  found ← scan_features spare (drop 5 (drop_last body)) []
  ok (feature_cast name found.1 id found.0)

-- `UDPPacket.UnmarshalPacket`; 39 is the length of a CID in base32
unmarshal_udp : Base32 → MsgType → Bytes → Result Packet
unfolding separated
unmarshal_udp h name body = do
  require (leb 39 (length body)) short_command
  require (last body == delim) invalid_delimiter
  require (separated 39 body) separator_expected
  id ← or_fail (h.from_base32 (slice 0 39 body)) wrong_cid
  ok (udp name (drop 40 (drop_last body)) id)

-- bytes.ContainsAny(p, "\x00")
abbrev pub has_null : Bytes → Bool
has_null [] = false
has_null (c ∷ s) = c == 0 || has_null s

-- the switch of `DecodePacket`, with the call of `m.UnmarshalPacket(cname, raw)` in each case
unmarshal : Base32 → ℕ → ℕ → MsgType → Bytes → Result Packet
unmarshal h spare kind name raw =
    if kind == b'I'
    then unmarshal_info name raw
    else if kind == b'H'
    then unmarshal_hub name raw
    else if kind == b'E'
    then unmarshal_echo name raw
    else if kind == b'D'
    then unmarshal_direct name raw
    else if kind == b'B'
    then unmarshal_broadcast name raw
    else if kind == b'F'
    then unmarshal_feature_cast spare name raw
    else if kind == b'C'
    then unmarshal_client name raw
    else if kind == b'U'
    then unmarshal_udp h name raw
    else err unknown_kind

is_kind : ℕ → Bool
is_kind c =
    c == b'I'
    || c == b'H'
    || c == b'E'
    || c == b'D'
    || c == b'B'
    || c == b'F'
    || c == b'C'
    || c == b'U'

-- What follows the name: behind a space the rest of the line, at the delimiter nothing.
raw_data : ℕ → Bytes → Result Bytes
raw_data sep rest =
    if sep == b' ' then ok rest else if sep == delim then ok [] else err name_separator

-- `DecodePacket`; the slice that it is given has `spare` bytes of capacity behind its end
pub decode : Base32 → ℕ → Bytes → Result Packet
unfolding is_kind raw_data
decode h spare (kind ∷ a ∷ b ∷ c ∷ sep ∷ rest) = do
  require (not (has_null (kind ∷ a ∷ b ∷ c ∷ sep ∷ rest))) null_characters
  require (is_kind kind) unknown_kind
  raw ← raw_data sep rest
  unmarshal h spare kind (msg_type a b c) raw
decode h spare _ = err too_short
