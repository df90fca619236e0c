-- ===== src/Adc/Packet/Marshal/Wire.antt =====
-- What a marshalled packet is on the wire.
use go_dcpp.Adc.Sid.{Sid, sid, marshal_sid}
use go_dcpp.Adc.Feature.{Feature, feature, marshal_feature}
use go_dcpp.Adc.Packet.{
  MsgType, msg_type, Packet, info, hub, client, broadcast, direct, echo, feature_cast, udp, Base32,
  delim,
}
use go_dcpp.Adc.Packet.Marshal.{
  has_data, set_last, name_bytes, frame, finish, head_of, put_word, put_features, features_size,
  marshal_plain, marshal_broadcast, marshal_targeted, marshal_feature_cast, marshal_udp, marshal,
}
use go_dcpp.Base.{
  ℕ, suc, ◌+◌, ◌≡◌, refl, ap, ◌∙◌, Bool, [], ◌∷◌, ◌++◌, append_assoc, arith, if◌then◌else◌, nat_eq,
  list_eq, Bytes, length, replicate, length-append, replicate-add, overlay, copy_at, copy_at-append,
  copy_at-append_cons, overlay-append, Map,
}

abbrev pub kind_of : Packet → ℕ
kind_of (info _ _) = b'I'
kind_of (hub _ _) = b'H'
kind_of (client _ _) = b'C'
kind_of (broadcast _ _ _) = b'B'
kind_of (direct _ _ _ _) = b'D'
kind_of (echo _ _ _ _) = b'E'
kind_of (feature_cast _ _ _ _) = b'F'
kind_of (udp _ _ _) = b'U'

-- The payload behind a space, if there is one, and the end of the line.
abbrev pub rest_of : Bytes → Bytes
rest_of [] = delim ∷ []
rest_of (c ∷ s) = b' ' ∷ c ∷ (s ++ delim ∷ [])

abbrev pub word : Bytes → Bytes → Bytes
word w s = b' ' ∷ (w ++ s)

abbrev pub feature_words : Map Feature Bool → Bytes → Bytes
feature_words [] s = s
feature_words ((feature a b c d, v) ∷ m) s =
    b' ' ∷ (if v then b'+' else b'-') ∷ a ∷ b ∷ c ∷ d ∷ feature_words m s

abbrev named : MsgType → Bytes → Bytes
named (msg_type a b c) s = a ∷ b ∷ c ∷ s

abbrev sid_word : Sid → Bytes → Bytes
sid_word (sid a b c d) s = b' ' ∷ a ∷ b ∷ c ∷ d ∷ s

-- The line format of the protocol, kind by kind.
abbrev pub wire : Base32 → Packet → Bytes
wire h (info n s) = b'I' ∷ named n (rest_of s)
wire h (hub n s) = b'H' ∷ named n (rest_of s)
wire h (client n s) = b'C' ∷ named n (rest_of s)
wire h (broadcast n s id) = b'B' ∷ named n (sid_word id (rest_of s))
wire h (direct n s id targ) = b'D' ∷ named n (sid_word id (sid_word targ (rest_of s)))
wire h (echo n s id targ) = b'E' ∷ named n (sid_word id (sid_word targ (rest_of s)))
wire h (feature_cast n s id m) = b'F' ∷ named n (sid_word id (feature_words m (rest_of s)))
wire h (udp n s id) = b'U' ∷ named n (word (h.to_base32 id) (rest_of s))

-- the buffer behind the words
abbrev room : Bytes → Bytes
room s = replicate (if has_data s then 1 + length s else 0) 0 ++ 0 ∷ []

set_last-append : (s : Bytes) (c d : ℕ) → set_last c (s ++ d ∷ []) ≡ s ++ c ∷ []
unfolding set_last
set_last-append [] c d = refl
set_last-append (a ∷ []) c d = refl
set_last-append (a ∷ b ∷ s) c d = ap (◌∷◌ a) (set_last-append (b ∷ s) c d)

set_last-append_cons :
    (pre s : Bytes) (c d : ℕ) → set_last c (pre ++ d ∷ s) ≡ pre ++ set_last c (d ∷ s)
unfolding set_last
set_last-append_cons [] s c d = refl
set_last-append_cons (a ∷ []) s c d = refl
set_last-append_cons (a ∷ b ∷ pre) s c d = ap (◌∷◌ a) (set_last-append_cons (b ∷ pre) s c d)

room-cons : (c : ℕ) (s : Bytes) → room (c ∷ s) ≡ 0 ∷ (replicate (length (c ∷ s)) 0 ++ 0 ∷ [])
room-cons c s =
    let e : 1 + suc (length s) ≡ suc (suc (length s)) = omega arith in
    ap {A = ℕ} {B = Bytes} (λ n. replicate n 0 ++ 0 ∷ []) e

finish-append : (pre s : Bytes) → finish (length pre) s (pre ++ room s) ≡ pre ++ rest_of s
unfolding finish
finish-append pre [] = set_last-append pre delim 0
finish-append pre (c ∷ s) =
    rw (room-cons c s, copy_at-append pre (b' ' ∷ []), overlay)
      (rw (copy_at-append_cons pre (c ∷ s), overlay-append (c ∷ s))
        (set_last-append_cons pre (c ∷ (s ++ 0 ∷ [])) delim b' '
          ∙ ap (λ t. pre ++ t) (set_last-append (b' ' ∷ c ∷ s) delim 0)))

finish_at :
    (pre s : Bytes) (off : ℕ) → length pre ≡ off → finish off s (pre ++ room s) ≡ pre ++ rest_of s
finish_at pre s off e = rw (← e) (finish-append pre s)

copy_at_inner :
    (pre mid src buf : Bytes) (off : ℕ)
    → length pre + length mid ≡ off
    → copy_at off src (pre ++ (mid ++ buf)) ≡ pre ++ (mid ++ overlay src buf)
copy_at_inner pre mid src buf off e =
    rw
      (
        ← append_assoc pre mid buf,
        ← append_assoc pre mid (overlay src buf),
        ← e,
        ← length-append pre mid,
      )
      (copy_at-append (pre ++ mid) src buf)

put_word-append :
    (pre w s : Bytes)
    → put_word (length pre) w (pre ++ 0 ∷ (replicate (length w) 0 ++ s)) ≡ pre ++ word w s
unfolding put_word
put_word-append pre w s =
    rw (copy_at-append pre (b' ' ∷ []), overlay)
      (rw (copy_at-append_cons pre w, overlay-append w) refl)

feature_words-append :
    (m : Map Feature Bool) (s : Bytes) → feature_words m s ≡ feature_words m [] ++ s
feature_words-append [] s = refl
feature_words-append ((feature a b c d, v) ∷ m) s =
    ap (λ t. b' ' ∷ (if v then b'+' else b'-') ∷ a ∷ b ∷ c ∷ d ∷ t) (feature_words-append m s)

length-feature_words : (m : Map Feature Bool) → length (feature_words m []) ≡ features_size m
unfolding features_size
length-feature_words [] = refl
length-feature_words ((feature a b c d, v) ∷ m) = omega (arith, length-feature_words m)

put_features-append :
    (pre : Bytes) (off : ℕ) (m : Map Feature Bool) (s : Bytes)
    → length pre ≡ off
    → put_features off m (pre ++ (replicate (features_size m) 0 ++ s)) ≡ pre ++ feature_words m s
unfolding put_features features_size marshal_feature
put_features-append pre off [] s e = refl
put_features-append pre off ((feature a b c d, v) ∷ m) s e =
    let sgn : ℕ = if v then b'+' else b'-' in
    let z : Bytes = replicate (features_size m) 0 ++ s in
    let size : 6 + features_size m ≡ suc (suc (suc (suc (suc (suc (features_size m)))))) =
      omega arith in
    let six : Bytes = b' ' ∷ sgn ∷ a ∷ b ∷ c ∷ d ∷ [] in
    rw size (
      rw (copy_at_inner pre [] (b' ' ∷ []) (0 ∷ 0 ∷ 0 ∷ 0 ∷ 0 ∷ 0 ∷ z) off (omega arith), overlay)
        (rw
          (
            copy_at_inner pre (b' ' ∷ []) (sgn ∷ []) (0 ∷ 0 ∷ 0 ∷ 0 ∷ 0 ∷ z) (off + 1)
                (omega arith),
            overlay,
          )
          (rw
            (
              copy_at_inner pre (b' ' ∷ sgn ∷ []) (a ∷ b ∷ c ∷ d ∷ []) (0 ∷ 0 ∷ 0 ∷ 0 ∷ z) (off + 2)
                  (omega arith),
              overlay,
            )
            (rw (← append_assoc pre six z, ← append_assoc pre six (feature_words m s))
              (put_features-append (pre ++ six) (off + (2 + 4)) m s
                (omega (arith, length-append pre six)))))))

frame-split :
    (n extra : ℕ) (s : Bytes)
    → frame (n + 1) extra s ≡ replicate n 0 ++ (replicate extra 0 ++ room s)
unfolding frame
frame-split n extra s =
    let size = if has_data s then 1 + length s else 0 in
    let e : n + 1 + size + extra ≡ n + (extra + (size + 1)) = omega arith in
    rw e (
      replicate-add n _ 0
      ∙ ap (λ t. replicate n 0 ++ t)
          (replicate-add extra _ 0 ∙ ap (λ t. replicate extra 0 ++ t) (replicate-add size 1 0)))

marshal_plain-wire :
    (kind : ℕ) (n : MsgType) (s : Bytes) → marshal_plain kind n s ≡ kind ∷ named n (rest_of s)
unfolding marshal_plain head_of name_bytes
marshal_plain-wire kind (msg_type a b c) s =
    rw (frame-split 4 0 s) (finish-append (kind ∷ a ∷ b ∷ c ∷ []) s)

marshal_broadcast-wire :
    (n : MsgType) (s : Bytes) (id : Sid)
    → marshal_broadcast n s id ≡ b'B' ∷ named n (sid_word id (rest_of s))
unfolding marshal_broadcast head_of name_bytes put_word marshal_sid
marshal_broadcast-wire (msg_type a b c) s (sid d e f g) =
    rw (frame-split 9 0 s) (finish-append (b'B' ∷ a ∷ b ∷ c ∷ b' ' ∷ d ∷ e ∷ f ∷ g ∷ []) s)

marshal_direct-wire :
    (kind : ℕ) (n : MsgType) (s : Bytes) (id targ : Sid)
    → marshal_targeted kind n s id targ ≡ kind ∷ named n (sid_word id (sid_word targ (rest_of s)))
unfolding marshal_targeted head_of name_bytes put_word marshal_sid
marshal_direct-wire kind (msg_type a b c) s (sid d e f g) (sid d' e' f' g') =
    rw (frame-split 14 0 s)
      (finish-append (kind ∷ a ∷ b ∷ c ∷ b' ' ∷ d ∷ e ∷ f ∷ g ∷ b' ' ∷ d' ∷ e' ∷ f' ∷ g' ∷ []) s)

marshal_udp-wire :
    (h : Base32) (n : MsgType) (s id : Bytes)
    → length (h.to_base32 id) ≡ 39
    → marshal_udp h n s id ≡ b'U' ∷ named n (word (h.to_base32 id) (rest_of s))
unfolding marshal_udp head_of name_bytes
marshal_udp-wire h (msg_type a b c) s id k =
    let w : Bytes = h.to_base32 id in
    let pre : Bytes = b'U' ∷ a ∷ b ∷ c ∷ [] in
    let filled : put_word 4 w (pre ++ 0 ∷ (replicate 39 0 ++ room s)) ≡ pre ++ word w (room s) =
      rw k at (put_word-append pre w (room s)) in
    rw (frame-split 44 0 s)
      (ap (finish 44 s) filled ∙ finish_at (pre ++ b' ' ∷ w) s 44 (omega (arith, k)))

feature_cast-wire :
    (n : MsgType) (s : Bytes) (id : Sid) (m : Map Feature Bool)
    → marshal_feature_cast n s id m ≡ b'F' ∷ named n (sid_word id (feature_words m (rest_of s)))
unfolding marshal_feature_cast head_of name_bytes put_word marshal_sid
feature_cast-wire (msg_type a b c) s (sid d e f g) m =
    let pre : Bytes = b'F' ∷ a ∷ b ∷ c ∷ b' ' ∷ d ∷ e ∷ f ∷ g ∷ [] in
    rw (frame-split 9 (features_size m) s, put_features-append pre 9 m (room s) refl)
      (rw (feature_words-append m (room s), feature_words-append m (rest_of s))
        (finish_at (pre ++ feature_words m []) s (9 + features_size m)
          (omega (arith, length-feature_words m))))

-- The CID of the packet, if it has one, has 39 bytes in base32, as one of 24 bytes has.
abbrev pub IsWide : Base32 → Packet → Type 0
IsWide h (udp n s id) = length (h.to_base32 id) ≡ 39
IsWide h _ = Unit

-- If a CID in the packet has 39 bytes in base32, `MarshalPacket` writes exactly the line of the
-- packet: the size that it computes leaves no byte unwritten and cuts none off.
pub marshal-wire : (h : Base32) (p : Packet) → IsWide h p → marshal h p ≡ wire h p
unfolding marshal
marshal-wire h (info n s) k = marshal_plain-wire b'I' n s
marshal-wire h (hub n s) k = marshal_plain-wire b'H' n s
marshal-wire h (client n s) k = marshal_plain-wire b'C' n s
marshal-wire h (broadcast n s id) k = marshal_broadcast-wire n s id
marshal-wire h (direct n s id targ) k = marshal_direct-wire b'D' n s id targ
marshal-wire h (echo n s id targ) k = marshal_direct-wire b'E' n s id targ
marshal-wire h (feature_cast n s id m) k = feature_cast-wire n s id m
marshal-wire h (udp n s id) k = marshal_udp-wire h n s id k
