-- ===== src/Hub/Serve/Tests.antt =====
-- Connections as hub/hub.go finds their protocol.
use go_dcpp.Hub.Serve.{
  peeked, Stream, without_tls, with_tls, is_hello, serve, starts_tls, Conn, peek_conn,
}
use go_dcpp.Hub.Serve.Protocols.{serve-secure}
use go_dcpp.Hub.Serve.Peeking.{flat, to_come, reads, reads-peek_conn}
use go_dcpp.Base.{ℕ, ◌≡◌, refl, true, [], ◌∷◌, ◌++◌, nat_eq, list_eq, Bytes, codes}

abbrev hello : Bytes
hello = 22 ∷ 3 ∷ 1 ∷ 0 ∷ []

-- ALPN gives nothing
abbrev no_alpn : Bytes
no_alpn = []

abbrev inside : Stream
inside = without_tls (peeked (codes "HSUP"))

abbrev stream : Stream
stream = with_tls (peeked hello) 771 no_alpn inside

serve-secure_example :
    (true ≡ true)
    × ((buf : Bytes) × (version : ℕ) × (alpn : Bytes) × (inner : Stream) × (stream
          ≡ with_tls (peeked buf) version alpn inner)
        × (is_hello buf ≡ true))
unfolding serve starts_tls is_hello
serve-secure_example = serve-secure true stream refl

-- the first four bytes in two segments
abbrev segments : Conn
segments = codes "HS" ∷ codes "UP ADBASE" ∷ []

reads-peek_conn_example :
    flat segments
    ≡ (reads (1 ∷ 100 ∷ []) (peek_conn 4 segments).1).0
      ++ to_come (reads (1 ∷ 100 ∷ []) (peek_conn 4 segments).1).1
reads-peek_conn_example = reads-peek_conn 4 (1 ∷ 100 ∷ []) segments
