-- ===== src/Hub/Serve/Peeking.antt =====
-- What peeking at a connection in hub/peek_conn.go keeps, and when it sees too little.
use go_dcpp.Hub.Serve.{
  peeked, without_tls, unknown, by_magic, is_hello, serve, starts_tls, new_info, Conn, read_conn,
  PeekedConn, peek_conn, read,
}
use go_dcpp.Base.{
  ℕ, ◌<◌, ◌≡◌, refl, sym, ap, ◌∙◌, inl, inr, Bool, true, false, List, [], ◌∷◌, ◌++◌, append_assoc,
  arith, leb, ◌==◌, nat_eq, ==_iff, list_eq, Bool-cases, Bytes, codes, length, take, drop,
  take-append-drop,
}

-- all the bytes that are still to come
abbrev pub flat : Conn → Bytes
flat [] = []
flat (chunk ∷ rest) = chunk ++ flat rest

abbrev pub to_come : PeekedConn → Bytes
to_come c = c.buf ++ flat c.conn

read_conn-flat : (n : ℕ) (c : Conn) → flat c ≡ (read_conn n c).0 ++ flat (read_conn n c).1
unfolding read_conn
read_conn-flat n [] = refl
read_conn-flat n (chunk ∷ rest) = elim (Bool-cases (leb (length chunk) n)) [
  | inl short ↦ ground arith
  | inr long ↦
      ground
        (arith, take-append-drop n chunk, append_assoc (take n chunk) (drop n chunk) (flat rest))
]

peek_conn-to_come : (n : ℕ) (c : Conn) → to_come (peek_conn n c).1 ≡ flat c
unfolding peek_conn
peek_conn-to_come n c = sym (read_conn-flat n c)

read-to_come : (n : ℕ) (c : PeekedConn) → to_come c ≡ (read n c).0 ++ to_come (read n c).1
unfolding read
read-to_come n c = elim (Bool-cases (c.buf == [])) [
  | inl empty ↦ ground (arith, ==_iff c.buf [], read_conn-flat n c.conn)
  | inr left ↦
      ground
        (arith, take-append-drop n c.buf, append_assoc (take n c.buf) (drop n c.buf) (flat c.conn))
]

-- what calls of `Read` give, for buffers of the given sizes
abbrev pub reads : List ℕ → PeekedConn → Bytes × PeekedConn
reads [] c = ([], c)
reads (n ∷ ns) c =
    let (chunk, c') = read n c in let (chunks, end) = reads ns c' in (chunk ++ chunks, end)

reads-to_come :
    (ns : List ℕ) (c : PeekedConn) → to_come c ≡ (reads ns c).0 ++ to_come (reads ns c).1
reads-to_come [] c = refl
reads-to_come (n ∷ ns) c =
    read-to_come n c
    ∙ ap (λ s. (read n c).0 ++ s) (reads-to_come ns (read n c).1)
    ∙ sym (append_assoc (read n c).0 (reads ns (read n c).1).0 (to_come (reads ns (read n c).1).1))

-- Whatever number of bytes is peeked at, and for buffers of any sizes, the reads that follow give the
-- bytes of the connection in their order, from the first one on, and none is lost.
pub reads-peek_conn :
    (peek : ℕ) (ns : List ℕ) (c : Conn)
    → flat c ≡ (reads ns (peek_conn peek c).1).0 ++ to_come (reads ns (peek_conn peek c).1).1
reads-peek_conn peek ns c = sym (peek_conn-to_come peek c) ∙ reads-to_come ns (peek_conn peek c).1

short_ne : (s t : Bytes) → length s < 4 → length t ≡ 4 → (s == t) ≡ false
short_ne s t short four = ground (arith, ==_iff s t)

by_magic_short : (s : Bytes) → length s < 4 → by_magic s ≡ unknown s
unfolding by_magic
by_magic_short s short =
    let ne = λ (t : Bytes) (four : length t ≡ 4). short_ne s t short four in
    rw (
      ne (codes "HSUP") refl,
      ne (codes "NICK") refl,
      ne (codes "HEAD") refl,
      ne (codes "GET ") refl,
      ne (codes "POST") refl,
      ne (codes "PUT ") refl,
      ne (codes "DELE") refl,
      ne (codes "OPTI") refl,
    )

starts_no_tls :
    (tls : Bool) (buf : Bytes) → is_hello buf ≡ false → starts_tls tls new_info buf ≡ false
unfolding starts_tls
starts_no_tls tls buf bare = ground arith

fits : (s : Bytes) → length s < 4 → leb (length s) 4 ≡ true
fits s short = ground arith

-- When the first read gives fewer bytes than four, and these are not the start of a handshake of TLS, the
-- protocol is not found, whatever bytes follow.
pub serve_short :
    (tls : Bool) (chunk : Bytes) (rest : Conn)
    → length chunk < 4
    → is_hello chunk ≡ false
    → serve tls new_info (without_tls (peeked (peek_conn 4 (chunk ∷ rest)).0))
      ≡ (unknown chunk, new_info)
unfolding serve peek_conn read_conn
serve_short tls chunk rest short bare =
    rw (fits chunk short, starts_no_tls tls chunk bare, by_magic_short chunk short)
