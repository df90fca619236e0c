-- ===== src/Adc/Packet/Tests.antt =====
-- Packets at which the theorems on adc/packets.go are applied.
use go_dcpp.Adc.Sid.{sid}
use go_dcpp.Adc.Feature.{feature, feature_eq}
use go_dcpp.Adc.Packet.{msg_type, Packet, feature_cast, udp, Base32, ok, decode, has_null}
use go_dcpp.Adc.Packet.Marshal.{marshal}
use go_dcpp.Adc.Packet.Marshal.Wire.{wire, marshal-wire}
use go_dcpp.Adc.Packet.RoundTrip.{IsBase32, IsReadable, decode-marshal}
use go_dcpp.Base.{
  ◌+◌, ◌≡◌, refl, sym, ap, ◌∙◌, true, false, some, [], ◌∷◌, ◌++◌, arith, nat_eq, list_eq, codes,
  take, replicate, length-append, take-append, lookup,
}

-- a text form of a CID, for the tests: the bytes, and 15 more
abbrev plain : Base32
plain = record { to_base32 = λ id. id ++ replicate 15 b'='; from_base32 = λ s. some (take 24 s) }

plain-IsBase32 : IsBase32 plain
plain-IsBase32 = record {
  from_to = λ id e. ap some (rw (sym e) (take-append id (replicate 15 b'=')));
  length_to = λ id e. length-append id (replicate 15 b'=') ∙ ap (λ n. n + 15) e;
}

-- FINF AAAB +TCP4 -UDP4 x
abbrev cast : Packet
cast =
    feature_cast (msg_type b'I' b'N' b'F') (codes "x") (sid b'A' b'A' b'A' b'B')
      ((feature b'T' b'C' b'P' b'4', true) ∷ (feature b'U' b'D' b'P' b'4', false) ∷ [])

cast-IsReadable : IsReadable cast
unfolding lookup
cast-IsReadable = ((refl, (refl, tt)), (λ e. omega arith, λ e. omega arith, λ e. omega arith))

cast_null : has_null (marshal plain cast) ≡ false
cast_null = rw (marshal-wire plain cast tt) refl

decode-marshal_example : decode plain 0 (marshal plain cast) ≡ ok cast
decode-marshal_example = decode-marshal plain 0 cast plain-IsBase32 cast-IsReadable cast_null

abbrev search_result : Packet
search_result = udp (msg_type b'R' b'E' b'S') (codes "ok") (replicate 24 b'C')

marshal-wire_example : marshal plain search_result ≡ wire plain search_result
marshal-wire_example = marshal-wire plain search_result refl
