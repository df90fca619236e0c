-- ===== src/Hub/Serve.antt =====
-- How the hub finds the protocol of a connection: `serve` of hub/hub.go, with `peekCoon` and
-- `peekedConn` of hub/peek_conn.go. The connection and the handshake of TLS are inputs. Metrics, the log
-- and the closing of connections are left out.
pub mod Protocols
pub mod Peeking
mod Tests
use go_dcpp.Base.{
  ℕ, Bool, true, false, ◌&&◌, ◌||◌, List, [], ◌∷◌, leb, if◌then◌else◌, ◌==◌, nat_eq, list_eq, Bytes,
  codes, length, take, drop,
}

-- What the peeking of four bytes gives.
pub data Peek : Type 0 where
  timed_out peek_failed : Peek
  peeked : Bytes → Peek

-- A connection: its first bytes, and what a handshake of TLS on it gives: an error, or the version, the
-- protocol of ALPN and the connection inside.
pub data Stream : Type 0 where
  without_tls : Peek → Stream
  with_tls : Peek → (version : ℕ) → (alpn : Bytes) → Stream → Stream

-- `ConnInfo`
pub record ConnInfo : Type 0 where
  pub secure : Bool
  pub tls_vers : ℕ
  pub alpn : Bytes

-- what serves the connection, or the error
pub data Served : Type 0 where
  nmdc adc irc http1 http2 : Served
  read_error tls_error : Served
  unsupported unknown : Bytes → Served

-- len(buf) >= 2 && string(buf[:2]) == "\x16\x03"
pub is_hello : Bytes → Bool
is_hello buf = leb 2 (length buf) && take 2 buf == 22 ∷ 3 ∷ []

-- switch string(buf)
pub by_magic : Bytes → Served
by_magic buf =
    if buf == codes "HSUP"
    then adc
    else if buf == codes "NICK"
    then irc
    else if buf == codes "HEAD"
        || buf == codes "GET "
        || buf == codes "POST"
        || buf == codes "PUT "
        || buf == codes "DELE"
        || buf == codes "OPTI"
    then http1
    else unknown buf

-- switch proto, but for the empty one
pub by_alpn : Bytes → Served
by_alpn proto =
    if proto == codes "nmdc"
    then nmdc
    else if proto == codes "adc"
    then adc
    else if proto == codes "http/0.9" || proto == codes "http/1.0" || proto == codes "http/1.1"
    then http1
    else if proto == codes "h2" || proto == codes "h2c"
    then http2
    else unsupported proto

-- cinfo.TLSVers == 0 && h.tls != nil && ...
starts_tls : Bool → ConnInfo → Bytes → Bool
unfolding is_hello
starts_tls tls cinfo buf = cinfo.tls_vers == 0 && tls && is_hello buf

-- `serve`; `tls` tells whether the hub has a configuration of TLS. The info is as the handler gets it.
pub serve : (tls : Bool) → ConnInfo → Stream → Served × ConnInfo
unfolding by_magic by_alpn starts_tls
serve tls cinfo (without_tls timed_out) = (nmdc, cinfo)
serve tls cinfo (without_tls peek_failed) = (read_error, cinfo)
serve tls cinfo (without_tls (peeked buf)) =
    if starts_tls tls cinfo buf then (tls_error, cinfo) else (by_magic buf, cinfo)
serve tls cinfo (with_tls timed_out version alpn inside) = (nmdc, cinfo)
serve tls cinfo (with_tls peek_failed version alpn inside) = (read_error, cinfo)
serve tls cinfo (with_tls (peeked buf) version alpn inside) =
    let secured : ConnInfo = record {
      secure = true;
      tls_vers = version;
      alpn = if alpn == [] then cinfo.alpn else alpn;
    } in
    let rest = serve tls secured inside in
    if starts_tls tls cinfo buf
    then if alpn == [] then rest else (by_alpn alpn, secured)
    else (by_magic buf, cinfo)

-- what a new connection starts with
abbrev pub new_info : ConnInfo
new_info = record { secure = false; tls_vers = 0; alpn = [] }

-- What the calls of `Read` on a connection give, each no more than is asked for.
abbrev pub Conn : Type 0
Conn = List Bytes

-- n bytes at most of the first chunk; what is left of it comes next
pub read_conn : ℕ → Conn → Bytes × Conn
read_conn n [] = ([], [])
read_conn n (chunk ∷ rest) =
    if leb (length chunk) n then (chunk, rest) else (take n chunk, drop n chunk ∷ rest)

-- `peekedConn`
pub record PeekedConn : Type 0 where
  pub buf : Bytes
  pub conn : Conn

-- `peekCoon`, when the read succeeds
pub peek_conn : ℕ → Conn → Bytes × PeekedConn
peek_conn peek conn =
    let (buf, rest) = read_conn peek conn in (buf, record { buf = buf; conn = rest })

-- `Read`
pub read : ℕ → PeekedConn → Bytes × PeekedConn
read n c =
    if c.buf == []
    then (let (chunk, rest) = read_conn n c.conn in (chunk, record c { conn = rest }))
    else (take n c.buf, record c { buf = drop n c.buf })
