-- ===== src/Hub/Serve/Protocols.antt =====
-- Which connections hub/hub.go serves as what.
use go_dcpp.Hub.Serve.{
  Peek, timed_out, peek_failed, peeked, Stream, without_tls, with_tls, ConnInfo, Served, nmdc, adc,
  read_error, is_hello, by_magic, by_alpn, starts_tls, serve, new_info,
}
use go_dcpp.Base.{
  ℕ, ◌≡◌, refl, ◌≢◌, ◌↔◌, ◌⊎◌, Bool, true, [], arith, if◌then◌else◌, ◌==◌, nat_eq, ==_iff, list_eq,
  Bytes, codes,
}

-- Of what is left after a handshake of TLS, no further one is made, since the version is not 0.
abbrev pub first_peek : Stream → Peek
first_peek (without_tls p) = p
first_peek (with_tls p version alpn inside) = p

serve_again :
    (tls : Bool) (cinfo : ConnInfo) (s : Stream)
    → cinfo.tls_vers ≢ 0
    → serve tls cinfo s ≡ elim (first_peek s) [
      | timed_out ↦ (nmdc, cinfo)
      | peek_failed ↦ (read_error, cinfo)
      | peeked buf ↦ (by_magic buf, cinfo)
    ]
unfolding serve starts_tls
serve_again tls cinfo (without_tls timed_out) v = refl
serve_again tls cinfo (without_tls peek_failed) v = refl
serve_again tls cinfo (without_tls (peeked buf)) v = ground (arith, ==_iff cinfo.tls_vers 0)
serve_again tls cinfo (with_tls timed_out version alpn inside) v = refl
serve_again tls cinfo (with_tls peek_failed version alpn inside) v = refl
serve_again tls cinfo (with_tls (peeked buf) version alpn inside) v =
    ground (arith, ==_iff cinfo.tls_vers 0)

-- The info of a new connection says that it is secure only if the hub has a configuration of TLS, the
-- first bytes are those of a handshake of TLS, and that has succeeded.
pub serve-secure :
    (tls : Bool) (s : Stream)
    → (serve tls new_info s).1.secure ≡ true
    → (tls ≡ true)
      × ((buf : Bytes) × (version : ℕ) × (alpn : Bytes) × (inside : Stream) × (s
            ≡ with_tls (peeked buf) version alpn inside)
          × (is_hello buf ≡ true))
unfolding serve starts_tls
serve-secure tls (without_tls timed_out) e = ground arith
serve-secure tls (without_tls peek_failed) e = ground arith
serve-secure tls (without_tls (peeked buf)) e = ground arith
serve-secure tls (with_tls timed_out version alpn inside) e = ground arith
serve-secure tls (with_tls peek_failed version alpn inside) e = ground arith
serve-secure tls (with_tls (peeked buf) version alpn inside) e =
    (ground arith, (buf, version, alpn, inside, refl, ground arith))

by_magic-adc : (buf : Bytes) → (by_magic buf ≡ adc) ↔ (buf ≡ codes "HSUP")
unfolding by_magic
by_magic-adc buf = ground (arith, ==_iff buf (codes "HSUP"))

by_alpn-adc : (proto : Bytes) → (by_alpn proto ≡ adc) ↔ (proto ≡ codes "adc")
unfolding by_alpn
by_alpn-adc proto = ground (arith, ==_iff proto (codes "nmdc"), ==_iff proto (codes "adc"))

again-adc :
    (tls : Bool) (cinfo : ConnInfo) (s : Stream)
    → cinfo.tls_vers ≢ 0
    → ((serve tls cinfo s).0 ≡ adc) ↔ (first_peek s ≡ peeked (codes "HSUP"))
again-adc tls cinfo s v = rw (serve_again tls cinfo s v) (go (first_peek s))
  where
    go :
        (p : Peek)
        → ((elim p as (λ q. Served × ConnInfo) [
          | timed_out ↦ (nmdc, cinfo)
          | peek_failed ↦ (read_error, cinfo)
          | peeked buf ↦ (by_magic buf, cinfo)
        ]).0
            ≡ adc)
          ↔ (p ≡ peeked (codes "HSUP"))
    go timed_out = ground arith
    go peek_failed = ground arith
    go (peeked buf) = ground (arith, by_magic-adc buf)

-- A new connection without a handshake of TLS is served as ADC just when its first four bytes are
-- HSUP; one with a handshake, just when ALPN gives adc, or gives nothing and the first four bytes
-- inside are HSUP. The version of TLS is not 0.
pub serve-adc :
    (inside : Stream) (buf hello : Bytes) (version : ℕ) (alpn : Bytes)
    → version ≢ 0
    → is_hello hello ≡ true
    → (((serve true new_info (without_tls (peeked buf))).0 ≡ adc) ↔ (buf ≡ codes "HSUP"))
      × (((serve true new_info (with_tls (peeked hello) version alpn inside)).0 ≡ adc)
          ↔ ((alpn ≡ codes "adc") ⊎ ((alpn ≡ []) × (first_peek inside ≡ peeked (codes "HSUP")))))
unfolding serve starts_tls is_hello
serve-adc inside buf hello version alpn v h =
    let secured : ConnInfo = record {
      secure = true;
      tls_vers = version;
      alpn = if alpn == [] then new_info.alpn else alpn;
    } in
    (
      ground (arith, by_magic-adc buf),
      ground (arith, by_alpn-adc alpn, again-adc true secured inside v, ==_iff alpn []),
    )
