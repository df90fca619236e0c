-- ===== src/Adc/Packet/Accepts.antt =====
-- What `DecodePacket` accepts, and the lines on which its tests and its reads do not agree.
use go_dcpp.Adc.Sid.{Sid, sid, unmarshal_sid}
use go_dcpp.Adc.Packet.{
  MsgType, msg_type, Packet, hub, client, broadcast, direct, echo, ok, err, short_command,
  short_feature, panics, Base32, delim, drop_last, has_null, scan_features, decode, unmarshal,
  unmarshal_info, unmarshal_plain, unmarshal_broadcast, unmarshal_targeted, unmarshal_feature_cast,
  unmarshal_udp,
}
use go_dcpp.Adc.Packet.Marshal.{marshal}
use go_dcpp.Adc.Packet.Marshal.Wire.{kind_of, marshal-wire}
use go_dcpp.Base.{
  ℕ, ◌+◌, ◌≤◌, ◌<◌, ◌≡◌, refl, false, [], ◌∷◌, ◌++◌, arith, leb, if◌then◌else◌, nat_eq, list_eq,
  Bytes, length, get_or,
}

info-kind :
    (n : MsgType) (raw : Bytes) (p : Packet) → unmarshal_info n raw ≡ ok p → b'I' ≡ kind_of p
unfolding unmarshal_info
info-kind n raw p e = ground arith

plain-kind :
    (k : ℕ) (make : MsgType → Bytes → Packet) (n : MsgType) (raw : Bytes) (p : Packet)
    → ((t : Bytes) → k ≡ kind_of (make n t))
    → unmarshal_plain make n raw ≡ ok p
    → k ≡ kind_of p
unfolding unmarshal_plain
plain-kind k make n raw p kinds e = ground (arith, kinds (drop_last raw))

broadcast-kind :
    (n : MsgType) (raw : Bytes) (p : Packet) → unmarshal_broadcast n raw ≡ ok p → b'B' ≡ kind_of p
unfolding unmarshal_broadcast
broadcast-kind n raw p e = ground arith

direct-kind :
    (k : ℕ) (make : MsgType → Bytes → Sid → Sid → Packet) (n : MsgType) (raw : Bytes) (p : Packet)
    → ((t : Bytes) (i j : Sid) → k ≡ kind_of (make n t i j))
    → unmarshal_targeted make n raw ≡ ok p
    → k ≡ kind_of p
unfolding unmarshal_targeted
direct-kind k make n raw p kinds e = grind (arith, kinds)

feature_cast-kind :
    (spare : ℕ) (n : MsgType) (raw : Bytes) (p : Packet)
    → unmarshal_feature_cast spare n raw ≡ ok p
    → b'F' ≡ kind_of p
unfolding unmarshal_feature_cast
feature_cast-kind spare n raw p e = ground arith

udp-kind :
    (h : Base32) (n : MsgType) (raw : Bytes) (p : Packet)
    → unmarshal_udp h n raw ≡ ok p
    → b'U' ≡ kind_of p
unfolding unmarshal_udp
udp-kind h n raw p e = ground arith

unmarshal-kind :
    (h : Base32) (spare k : ℕ) (n : MsgType) (raw : Bytes) (p : Packet)
    → unmarshal h spare k n raw ≡ ok p
    → k ≡ kind_of p
unfolding unmarshal
unmarshal-kind h spare k n raw p e = ground (
  arith,
  info-kind n raw p,
  plain-kind b'H' hub n raw p (λ t. refl),
  plain-kind b'C' client n raw p (λ t. refl),
  broadcast-kind n raw p,
  direct-kind b'D' direct n raw p (λ t i j. refl),
  direct-kind b'E' echo n raw p (λ t i j. refl),
  feature_cast-kind spare n raw p,
  udp-kind h n raw p,
)

module _ (h : Base32) (spare : ℕ) where
  -- A line that `DecodePacket` accepts has five bytes or more, none of them null, and its first byte
  -- is the kind of the packet that it gives.
  pub decode_sound :
      (line : Bytes) (p : Packet)
      → decode h spare line ≡ ok p
      → (5 ≤ length line) × (has_null line ≡ false) × (get_or line 0 0 ≡ kind_of p)
  unfolding decode
  decode_sound [] p e = cc
  decode_sound (k ∷ []) p e = cc
  decode_sound (k ∷ a ∷ []) p e = cc
  decode_sound (k ∷ a ∷ b ∷ []) p e = cc
  decode_sound (k ∷ a ∷ b ∷ c ∷ []) p e = cc
  decode_sound (k ∷ a ∷ b ∷ c ∷ sep ∷ rest) p e = ground (
    arith,
    unmarshal-kind h spare k (msg_type a b c) rest p,
    unmarshal-kind h spare k (msg_type a b c) [] p,
  )

  -- A broadcast line without null bytes whose identifier has three bytes is accepted: the delimiter, which was cut off
  -- before the identifier is read, is taken for its fourth byte.
  pub decode_short_sid :
      (a b c d e f : ℕ)
      → has_null (a ∷ b ∷ c ∷ d ∷ e ∷ f ∷ []) ≡ false
      → decode h spare (b'B' ∷ a ∷ b ∷ c ∷ b' ' ∷ d ∷ e ∷ f ∷ delim ∷ [])
        ≡ ok (broadcast (msg_type a b c) [] (sid d e f delim))
  unfolding decode unmarshal unmarshal_broadcast unmarshal_sid
  decode_short_sid a b c d e f n = ground arith

  -- A hub packet without payload, and without null bytes in its name, is marshalled to a line that is refused as too short.
  pub decode_bare_hub :
      (a b c : ℕ)
      → has_null (a ∷ b ∷ c ∷ []) ≡ false
      → decode h spare (marshal h (hub (msg_type a b c) [])) ≡ err short_command
  unfolding decode unmarshal unmarshal_plain
  decode_bare_hub a b c n = rw (marshal-wire h (hub (msg_type a b c) []) tt) (ground arith)

  -- A feature packet without null bytes that ends inside its first feature is refused: the text of the error reads five bytes from
  -- the sign on, and the decoder panics if the array ends before them.
  pub decode_short_feature :
      (a b c d e f g : ℕ) (s : Bytes)
      → length s < 4
      → has_null (b'F' ∷ a ∷ b ∷ c ∷ b' ' ∷ d ∷ e ∷ f ∷ g ∷ b' ' ∷ b'+' ∷ (s ++ delim ∷ [])) ≡ false
      → decode h spare (b'F' ∷ a ∷ b ∷ c ∷ b' ' ∷ d ∷ e ∷ f ∷ g ∷ b' ' ∷ b'+' ∷ (s ++ delim ∷ []))
        ≡ err (if leb 5 (length s + 2 + spare) then short_feature else panics)
  unfolding decode unmarshal unmarshal_feature_cast unmarshal_sid scan_features
  decode_short_feature a b c d e f g [] l n = rw n (ground arith)
  decode_short_feature a b c d e f g (x ∷ []) l n = rw n (ground arith)
  decode_short_feature a b c d e f g (x ∷ y ∷ []) l n = rw n (ground arith)
  decode_short_feature a b c d e f g (x ∷ y ∷ z ∷ []) l n = rw n (ground arith)
  decode_short_feature a b c d e f g (x ∷ y ∷ z ∷ w ∷ s) l n = absurd (omega arith)
