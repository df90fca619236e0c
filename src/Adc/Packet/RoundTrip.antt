-- ===== src/Adc/Packet/RoundTrip.antt =====
-- Decoding what `MarshalPacket` wrote.
use go_dcpp.Adc.Sid.{Sid, sid, unmarshal_sid}
use go_dcpp.Adc.Feature.{Feature, feature, feature_eq}
use go_dcpp.Adc.Packet.{
  MsgType, msg_type, Packet, info, hub, client, broadcast, direct, echo, feature_cast, udp, ok,
  Base32, delim, last, drop_last, has_null, scan_features, sign, decode, unmarshal, unmarshal_info,
  unmarshal_plain, unmarshal_broadcast, unmarshal_targeted, unmarshal_feature_cast, unmarshal_udp,
}
use go_dcpp.Adc.Packet.Marshal.{marshal}
use go_dcpp.Adc.Packet.Marshal.Wire.{wire, rest_of, word, feature_words, marshal-wire, IsWide}
use go_dcpp.Base.{
  ℕ, ◌≡◌, refl, sym, ap, ◌∙◌, ◌≢◌, ◌⊎◌, inl, inr, Bool, true, false, some, [], ◌∷◌, ◌++◌,
  append_assoc, append-nil, arith, if◌then◌else◌, nat_eq, list_eq, Bytes, length, take, drop,
  get_or, length-append, take-append, drop-suc-append, get_or-append, Map, insert, IsMap,
  insert_fresh, lookup_before,
}

last-append : (s : Bytes) (c : ℕ) → last (s ++ c ∷ []) ≡ c
last-append [] c = refl
last-append (a ∷ []) c = refl
last-append (a ∷ b ∷ s) c = last-append (b ∷ s) c

drop_last-append : (s : Bytes) (c : ℕ) → drop_last (s ++ c ∷ []) ≡ s
drop_last-append [] c = refl
drop_last-append (a ∷ []) c = refl
drop_last-append (a ∷ b ∷ s) c = ap (◌∷◌ a) (drop_last-append (b ∷ s) c)

decode_plain :
    (h : Base32) (spare kind a b c d : ℕ) (s : Bytes)
    → has_null (kind ∷ a ∷ b ∷ c ∷ b' ' ∷ d ∷ (s ++ delim ∷ [])) ≡ false
    → (make : MsgType → Bytes → Packet)
    → ((kind ≡ b'I') × (make ≡ info))
      ⊎ ((kind ≡ b'H') × (make ≡ hub))
      ⊎ ((kind ≡ b'C') × (make ≡ client))
    → decode h spare (kind ∷ a ∷ b ∷ c ∷ b' ' ∷ d ∷ (s ++ delim ∷ []))
      ≡ ok (make (msg_type a b c) (d ∷ s))
unfolding decode unmarshal unmarshal_info unmarshal_plain unmarshal_broadcast unmarshal_targeted
    unmarshal_feature_cast
decode_plain h spare kind a b c d s n make k =
    ground (arith, last-append (d ∷ s) delim, drop_last-append (d ∷ s) delim)

decode_broadcast :
    (h : Base32) (spare a b c d e f g : ℕ) (s : Bytes)
    → has_null (b'B' ∷ a ∷ b ∷ c ∷ b' ' ∷ d ∷ e ∷ f ∷ g ∷ rest_of s) ≡ false
    → decode h spare (b'B' ∷ a ∷ b ∷ c ∷ b' ' ∷ d ∷ e ∷ f ∷ g ∷ rest_of s)
      ≡ ok (broadcast (msg_type a b c) s (sid d e f g))
unfolding decode unmarshal unmarshal_info unmarshal_plain unmarshal_broadcast unmarshal_targeted
    unmarshal_feature_cast unmarshal_sid
decode_broadcast h spare a b c d e f g [] n = rw n refl
decode_broadcast h spare a b c d e f g (x ∷ s) n =
    ground (arith, last-append (x ∷ s) delim, drop_last-append (x ∷ s) delim)

decode_direct :
    (h : Base32) (spare a b c d e f g d' e' f' g' : ℕ) (s : Bytes) (kind : ℕ)
    → (make : MsgType → Bytes → Sid → Sid → Packet)
    → ((kind ≡ b'D') × (make ≡ direct)) ⊎ ((kind ≡ b'E') × (make ≡ echo))
    → has_null (kind ∷ a ∷ b ∷ c ∷ b' ' ∷ d ∷ e ∷ f ∷ g ∷ b' ' ∷ d' ∷ e' ∷ f' ∷ g' ∷ rest_of s)
      ≡ false
    → decode h spare
        (kind ∷ a ∷ b ∷ c ∷ b' ' ∷ d ∷ e ∷ f ∷ g ∷ b' ' ∷ d' ∷ e' ∷ f' ∷ g' ∷ rest_of s)
      ≡ ok (make (msg_type a b c) s (sid d e f g) (sid d' e' f' g'))
unfolding decode unmarshal unmarshal_info unmarshal_plain unmarshal_broadcast unmarshal_targeted
    unmarshal_feature_cast unmarshal_sid
decode_direct h spare a b c d e f g d' e' f' g' [] kind make k n = ground arith
decode_direct h spare a b c d e f g d' e' f' g' (x ∷ s) kind make k n =
    ground (arith, last-append (x ∷ s) delim, drop_last-append (x ∷ s) delim)

-- The payload of a feature packet is told from the features by its first byte.
abbrev pub IsPayload : Bytes → Type 0
IsPayload [] = Unit
IsPayload (c ∷ s) = (c ≢ b'+') × (c ≢ b'-') × (c ≢ b' ')

-- The payload behind its separator.
abbrev tail_of : Bytes → Bytes
tail_of [] = []
tail_of (c ∷ s) = b' ' ∷ c ∷ s

scan_payload :
    (spare : ℕ) (s : Bytes) (m : Map Feature Bool)
    → IsPayload s
    → scan_features spare (tail_of s) m ≡ ok (m, s)
unfolding scan_features sign
scan_payload spare [] m h = refl
scan_payload spare (c ∷ []) m h = ground arith
scan_payload spare (c ∷ a ∷ []) m h = ground arith
scan_payload spare (c ∷ a ∷ b ∷ []) m h = ground arith
scan_payload spare (c ∷ a ∷ b ∷ d ∷ []) m h = ground arith
scan_payload spare (c ∷ a ∷ b ∷ d ∷ e ∷ s) m h = ground arith

-- scanning from a space is scanning from behind it
scan_word :
    (spare : ℕ) (f : Feature) (v : Bool) (a : ℕ) (s : Bytes) (l : Map Feature Bool)
    → scan_features spare (feature_words ((f, v) ∷ []) s) l ≡ scan_features spare s (insert f v l)
unfolding scan_features sign
scan_word spare (feature a b c d) true _ s l = refl
scan_word spare (feature a b c d) false _ s l = refl

scan_words :
    (spare : ℕ) (m l : Map Feature Bool) (s : Bytes)
    → IsMap (l ++ m)
    → IsPayload s
    → scan_features spare (feature_words m (tail_of s)) l ≡ ok (l ++ m, s)
scan_words spare [] l s u h = rw append-nil (scan_payload spare s l h)
scan_words spare ((feature a b c d, v) ∷ m) l s u h =
    let k : Feature = feature a b c d in
    scan_word spare k v 0 (feature_words m (tail_of s)) l
    ∙ rw (insert_fresh k v l (lookup_before k v l m u)) (
        scan_words spare m (l ++ (k, v) ∷ []) s (rw append_assoc u) h
        ∙ ap (λ (t : Map Feature Bool). ok (t, s)) (append_assoc l ((k, v) ∷ []) m))

scan_space :
    (spare : ℕ) (s : Bytes) (l : Map Feature Bool)
    → scan_features spare (b' ' ∷ s) l ≡ scan_features spare s l
unfolding scan_features sign
scan_space spare [] l = refl
scan_space spare (c ∷ []) l = refl
scan_space spare (c ∷ a ∷ []) l = refl
scan_space spare (c ∷ a ∷ b ∷ []) l = refl
scan_space spare (c ∷ a ∷ b ∷ d ∷ s) l = refl

rest-tail : (s : Bytes) → rest_of s ≡ tail_of s ++ delim ∷ []
rest-tail [] = refl
rest-tail (c ∷ s) = refl

feature_words-snoc :
    (m : Map Feature Bool) (s t : Bytes) → feature_words m (s ++ t) ≡ feature_words m s ++ t
feature_words-snoc [] s t = refl
feature_words-snoc ((feature a b c d, v) ∷ m) s t =
    ap (λ r. b' ' ∷ (if v then b'+' else b'-') ∷ a ∷ b ∷ c ∷ d ∷ r) (feature_words-snoc m s t)

-- nothing, or words behind their spaces
abbrev IsWords : Bytes → Type 0
IsWords [] = Unit
IsWords (c ∷ s) = c ≡ b' '

feature_words-IsWords : (m : Map Feature Bool) (s : Bytes) → IsWords (feature_words m (tail_of s))
feature_words-IsWords [] [] = tt
feature_words-IsWords [] (c ∷ s) = refl
feature_words-IsWords ((feature a b c d, v) ∷ m) s = refl

decode_features :
    (h : Base32) (spare a b c d e f g : ℕ) (t : Bytes) (m : Map Feature Bool) (s : Bytes)
    → IsWords t
    → has_null (b'F' ∷ a ∷ b ∷ c ∷ b' ' ∷ d ∷ e ∷ f ∷ g ∷ (t ++ delim ∷ [])) ≡ false
    → scan_features spare t [] ≡ ok (m, s)
    → decode h spare (b'F' ∷ a ∷ b ∷ c ∷ b' ' ∷ d ∷ e ∷ f ∷ g ∷ (t ++ delim ∷ []))
      ≡ ok (feature_cast (msg_type a b c) s (sid d e f g) m)
unfolding decode unmarshal unmarshal_info unmarshal_plain unmarshal_broadcast unmarshal_targeted
    unmarshal_feature_cast unmarshal_sid
decode_features h spare a b c d e f g [] m s w n found = ground arith
decode_features h spare a b c d e f g (x ∷ t) m s w n found =
    ground (arith, last-append (x ∷ t) delim, drop_last-append (x ∷ t) delim, scan_space spare t [])

drop-tail_of : (s : Bytes) → drop 1 (tail_of s) ≡ s
drop-tail_of [] = refl
drop-tail_of (c ∷ s) = refl

rest_of_starts : (s : Bytes) → (get_or (rest_of s) 0 0 ≡ b' ') ⊎ (get_or (rest_of s) 0 0 ≡ delim)
rest_of_starts [] = inr refl
rest_of_starts (c ∷ s) = inl refl

unmarshal_udp-wire :
    (h : Base32) (n : MsgType) (w s id : Bytes)
    → length w ≡ 39
    → h.from_base32 w ≡ some id
    → unmarshal_udp h n (w ++ rest_of s) ≡ ok (udp n s id)
unfolding unmarshal_udp
unmarshal_udp-wire h n w s id l u =
    let body : w ++ rest_of s ≡ (w ++ tail_of s) ++ delim ∷ [] =
      ap (◌++◌ w) (rest-tail s) ∙ sym (append_assoc w (tail_of s) (delim ∷ [])) in
    let at_end : last (w ++ rest_of s) ≡ delim =
      ap last body ∙ last-append (w ++ tail_of s) delim in
    let cut : drop_last (w ++ rest_of s) ≡ w ++ tail_of s =
      ap drop_last body ∙ drop_last-append (w ++ tail_of s) delim in
    let id_word : take 39 (w ++ rest_of s) ≡ w = rw l at (take-append w (rest_of s)) in
    let next : get_or (w ++ rest_of s) 39 0 ≡ get_or (rest_of s) 0 0 =
      rw l at (get_or-append w (rest_of s) 0) in
    let payload : drop 40 (w ++ tail_of s) ≡ s =
      rw l at (drop-suc-append w (tail_of s)) ∙ drop-tail_of s in
    ground
      (arith, length-append w (rest_of s), at_end, cut, id_word, next, payload, rest_of_starts s)

decode_udp :
    (h : Base32) (spare a b c : ℕ) (w s id : Bytes)
    → length w ≡ 39
    → h.from_base32 w ≡ some id
    → has_null (b'U' ∷ a ∷ b ∷ c ∷ word w (rest_of s)) ≡ false
    → decode h spare (b'U' ∷ a ∷ b ∷ c ∷ word w (rest_of s)) ≡ ok (udp (msg_type a b c) s id)
unfolding decode unmarshal unmarshal_info unmarshal_plain unmarshal_broadcast unmarshal_targeted
    unmarshal_feature_cast
decode_udp h spare a b c w s id l u n = rw n (unmarshal_udp-wire h (msg_type a b c) w s id l u)

-- What a packet must be for its line to be read back: a hub or client packet has a payload, the
-- payload of a feature packet starts like no feature, each feature stands once in the map, and a CID
-- has 24 bytes.
abbrev pub IsReadable : Packet → Type 0
IsReadable (hub n s) = s ≢ []
IsReadable (client n s) = s ≢ []
IsReadable (feature_cast n s id m) = IsMap m × IsPayload s
IsReadable (udp n s id) = length id ≡ 24
IsReadable _ = Unit

-- The laws of the base32 form of a CID, which has 24 bytes.
pub record IsBase32 (h : Base32) : Type 0 where
  pub from_to : (id : Bytes) → length id ≡ 24 → h.from_base32 (h.to_base32 id) ≡ some id
  pub length_to : (id : Bytes) → length id ≡ 24 → length (h.to_base32 id) ≡ 39

decode-wire :
    (h : Base32) (spare : ℕ) (p : Packet)
    → IsBase32 h
    → IsReadable p
    → has_null (wire h p) ≡ false
    → decode h spare (wire h p) ≡ ok p
unfolding decode unmarshal unmarshal_info unmarshal_plain unmarshal_broadcast unmarshal_targeted
    unmarshal_feature_cast
decode-wire h spare (info (msg_type a b c) []) l r n = rw n refl
decode-wire h spare (info (msg_type a b c) (x ∷ s)) l r n =
    decode_plain h spare b'I' a b c x s n info (inl (refl, refl))
decode-wire h spare (hub (msg_type a b c) []) l r n = absurd (r refl)
decode-wire h spare (hub (msg_type a b c) (x ∷ s)) l r n =
    decode_plain h spare b'H' a b c x s n hub (inr (inl (refl, refl)))
decode-wire h spare (client (msg_type a b c) []) l r n = absurd (r refl)
decode-wire h spare (client (msg_type a b c) (x ∷ s)) l r n =
    decode_plain h spare b'C' a b c x s n client (inr (inr (refl, refl)))
decode-wire h spare (broadcast (msg_type a b c) s (sid d e f g)) l r n =
    decode_broadcast h spare a b c d e f g s n
decode-wire h spare (direct (msg_type a b c) s (sid d e f g) (sid d' e' f' g')) l r n =
    decode_direct h spare a b c d e f g d' e' f' g' s b'D' direct (inl (refl, refl)) n
decode-wire h spare (echo (msg_type a b c) s (sid d e f g) (sid d' e' f' g')) l r n =
    decode_direct h spare a b c d e f g d' e' f' g' s b'E' echo (inr (refl, refl)) n
decode-wire h spare (feature_cast (msg_type a b c) s (sid d e f g) m) l r n =
    let t : Bytes = feature_words m (tail_of s) in
    let e' : feature_words m (rest_of s) ≡ t ++ delim ∷ [] =
      ap (feature_words m) (rest-tail s) ∙ feature_words-snoc m (tail_of s) (delim ∷ []) in
    rw e' (
      decode_features h spare a b c d e f g t m s (feature_words-IsWords m s) (rw e' at n)
        (scan_words spare m [] s r.0 r.1))
decode-wire h spare (udp (msg_type a b c) s id) l r n =
    decode_udp h spare a b c (h.to_base32 id) s id (l.length_to id r) (l.from_to id r) n

readable-IsWide : (h : Base32) (p : Packet) → IsBase32 h → IsReadable p → IsWide h p
readable-IsWide h (info n s) l r = tt
readable-IsWide h (hub n s) l r = tt
readable-IsWide h (client n s) l r = tt
readable-IsWide h (broadcast n s id) l r = tt
readable-IsWide h (direct n s id targ) l r = tt
readable-IsWide h (echo n s id targ) l r = tt
readable-IsWide h (feature_cast n s id m) l r = tt
readable-IsWide h (udp n s id) l r = l.length_to id r

-- `DecodePacket` reads back what `MarshalPacket` wrote, for all eight kinds, if the packet is
-- readable and its line holds no null byte.
pub decode-marshal :
    (h : Base32) (spare : ℕ) (p : Packet)
    → IsBase32 h
    → IsReadable p
    → has_null (marshal h p) ≡ false
    → decode h spare (marshal h p) ≡ ok p
decode-marshal h spare p l r n =
    rw (marshal-wire h p (readable-IsWide h p l r))
      (decode-wire h spare p l r (rw (← marshal-wire h p (readable-IsWide h p l r)) n))
