-- ===== src/Adc/Packet/Marshal.antt =====
-- `MarshalPacket` of each kind in adc/packets.go: a buffer of the computed size is filled in place.
pub mod Wire
use go_dcpp.Adc.Sid.{Sid, marshal_sid}
use go_dcpp.Adc.Feature.{Feature, marshal_feature}
use go_dcpp.Adc.Packet.{
  MsgType, msg_type, Packet, info, hub, client, broadcast, direct, echo, feature_cast, udp, Base32,
  delim,
}
use go_dcpp.Base.{
  ℕ, suc, ◌+◌, Bool, true, false, [], ◌∷◌, if◌then◌else◌, Bytes, length, replicate, copy_at, Map,
}

-- buf[len(buf)-1] = c
set_last : ℕ → Bytes → Bytes
set_last c [] = []
set_last c (b ∷ []) = c ∷ []
set_last c (b ∷ d ∷ buf) = b ∷ set_last c (d ∷ buf)

name_bytes : MsgType → Bytes
name_bytes (msg_type a b c) = a ∷ b ∷ c ∷ []

-- len(p.Data) > 0
abbrev pub has_data : Bytes → Bool
has_data [] = false
has_data (c ∷ s) = true

-- n := base; if len(p.Data) > 0 { n += 1 + len(p.Data) }; buf := make([]byte, n + extra)
frame : ℕ → ℕ → Bytes → Bytes
frame base extra payload =
    replicate (base + (if has_data payload then 1 + length payload else 0) + extra) 0

-- if len(p.Data) > 0 { buf[off] = ' '; copy(buf[off+1:], p.Data) }; buf[len(buf)-1] = lineDelim
finish : ℕ → Bytes → Bytes → Bytes
unfolding copy_at set_last
finish off payload buf =
    set_last delim
      (if has_data payload then copy_at (suc off) payload (copy_at off (b' ' ∷ []) buf) else buf)

-- buf[0] = p.Kind(); copy(buf[1:], p.Name[:])
head_of : ℕ → MsgType → Bytes → Bytes
unfolding copy_at name_bytes
head_of kind name buf = copy_at 1 (name_bytes name) (copy_at 0 (kind ∷ []) buf)

-- buf[off] = ' '; copy(buf[off+1:], id[:])
put_word : ℕ → Bytes → Bytes → Bytes
unfolding copy_at
put_word off word buf = copy_at (suc off) word (copy_at off (b' ' ∷ []) buf)

marshal_plain : ℕ → MsgType → Bytes → Bytes
marshal_plain kind name payload = finish 4 payload (head_of kind name (frame 5 0 payload))

marshal_broadcast : MsgType → Bytes → Sid → Bytes
marshal_broadcast name payload id =
    finish 9 payload (put_word 4 (marshal_sid id) (head_of b'B' name (frame 10 0 payload)))

marshal_targeted : ℕ → MsgType → Bytes → Sid → Sid → Bytes
marshal_targeted kind name payload id targ = finish 14 payload (
    put_word 9 (marshal_sid targ)
      (put_word 4 (marshal_sid id) (head_of kind name (frame 15 0 payload))))

-- buf[off] = ' '; buf[off+1] = '+' or '-'; off += 2 + copy(buf[off+2:], k[:])
put_features : ℕ → Map Feature Bool → Bytes → Bytes
unfolding copy_at marshal_feature
put_features off [] buf = buf
put_features off ((k, v) ∷ m) buf = put_features (off + (2 + 4)) m (
    copy_at (off + 2) (marshal_feature k)
      (copy_at (off + 1) ((if v then b'+' else b'-') ∷ []) (copy_at off (b' ' ∷ []) buf)))

-- for k := range p.Features { n += 2 + len(k) }
features_size : Map Feature Bool → ℕ
features_size [] = 0
features_size (k ∷ m) = 2 + 4 + features_size m

marshal_feature_cast : MsgType → Bytes → Sid → Map Feature Bool → Bytes
marshal_feature_cast name payload id features = finish (9 + features_size features) payload (
    put_features 9 features
      (put_word 4 (marshal_sid id) (head_of b'F' name (frame 10 (features_size features) payload))))

marshal_udp : Base32 → MsgType → Bytes → Bytes → Bytes
marshal_udp h name payload id =
    finish 44 payload (put_word 4 (h.to_base32 id) (head_of b'U' name (frame 45 0 payload)))

-- `InfoPacket.MarshalPacket`
abbrev marshal_info : MsgType → Bytes → Bytes
marshal_info name payload = marshal_plain b'I' name payload

-- `HubPacket.MarshalPacket`
abbrev marshal_hub : MsgType → Bytes → Bytes
marshal_hub name payload = marshal_plain b'H' name payload

-- `ClientPacket.MarshalPacket`
abbrev marshal_client : MsgType → Bytes → Bytes
marshal_client name payload = marshal_plain b'C' name payload

-- `DirectPacket.MarshalPacket`
abbrev marshal_direct : MsgType → Bytes → Sid → Sid → Bytes
marshal_direct name payload id targ = marshal_targeted b'D' name payload id targ

-- `EchoPacket.MarshalPacket`
abbrev marshal_echo : MsgType → Bytes → Sid → Sid → Bytes
marshal_echo name payload id targ = marshal_targeted b'E' name payload id targ

-- `MarshalPacket`
pub marshal : Base32 → Packet → Bytes
marshal h (info name payload) = marshal_info name payload
marshal h (hub name payload) = marshal_hub name payload
marshal h (client name payload) = marshal_client name payload
marshal h (broadcast name payload id) = marshal_broadcast name payload id
marshal h (direct name payload id targ) = marshal_direct name payload id targ
marshal h (echo name payload id targ) = marshal_echo name payload id targ
marshal h (feature_cast name payload id features) = marshal_feature_cast name payload id features
marshal h (udp name payload id) = marshal_udp h name payload id
