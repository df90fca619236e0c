-- ===== src/Hub/Nmdc/Login.antt =====
-- What a client of NMDC goes through before it is on the hub: `nmdcAccept` of hub/hub_nmdc.go. Left out are
-- the texts of the topic and the like, and what is queued for the peer.
pub mod Accept
pub mod Knows
use go_dcpp.Adc.Sid.{Sid}
use go_dcpp.Hub.Peers.{
  Peer, Hub, list_peers, name_available, reserve_name, unbind_name, accept_peer, leave,
}
use go_dcpp.Hub.Profiles as Profiles
use go_dcpp.Hub.Users.{UserRecord, MemDb, get_user}
use go_dcpp.Hub.Users.Names.{NameError, Strings, validate_user_name}
use go_dcpp.Hub.Bots.{close_with, ConnError}
use go_dcpp.Hub.Adc.Login.{Others}
use go_dcpp.Hub.Nmdc.Line.{
  Info, Incoming, my_pass, version, my_info, get_nick_list, bot_info, Ext, bot_info_ext,
  user_ip_ext, user_command_ext, bot_list_ext, zpipe_ext, has_ext, hub_info_ext, Failure, io_error,
  not_tcp, nick_taken, insecure, wrong_password, bad_version, nick_mismatch, offline, bad_name,
  Sent, hub_name, get_pass, bad_pass, hub_topic, user_command, hub_info, zon, said, denied, hello,
  info_of, op_list, bot_list, user_ips, Talk, Answer, got, fails, M, goes_on, ◌>>=◌, ◌>>◌, pure,
  raise, guard, write, flush, read, on_hub, nmdc_lock,
}
use go_dcpp.Base.{
  ℕ, Bool, true, false, not, ◌&&◌, ◌||◌, Option, none, some, List, [], ◌∷◌, map, if◌then◌else◌,
  ◌==◌, nat_eq, list_eq, Bytes, codes, replicate,
}

-- what a hub brings to a handshake: strings.ToLower, the key to its lock, the strings of
-- `validateUserName`, the profiles, the database, whether there is a level for zlib, and the number of
-- commands for the user
pub record Setting : Type 0 where
  pub to_lower : Bytes → Bytes
  pub lock_key : Bytes
  pub strings : Strings
  pub profiles : Profiles.Profiles
  pub db : Option MemDb
  pub zlib : Bool
  pub commands : ℕ

-- What a client and its connection bring: the session, whether its address is one of TCP, whether the
-- connection is secure (`none` is a nil ConnInfo), the error of closing it, and whether the peer is online
-- when the hub first writes to its chat, and at the end of `nmdcAccept`.
pub record Client : Type 0 where
  pub sid : Sid
  pub tcp : Bool
  pub secure : Option Bool
  pub close_error : Option ConnError
  pub online : Bool
  pub stays : Bool

-- What is seen of the peers: who has the icon of an operator, who is a bot, whose address is known; and
-- whether the client may see the addresses.
pub record View : Type 0 where
  pub is_op : Peer → Bool
  pub is_bot : Peer → Bool
  pub has_ip : Peer → Bool
  pub sees_ips : Bool

abbrev pub as_pass : Incoming → Option Bytes
as_pass (my_pass p) = some p
as_pass _ = none

abbrev pub as_version : Incoming → Option Bytes
as_version (version v) = some v
as_version _ = none

abbrev pub as_info : Incoming → Option Info
as_info (my_info u) = some u
as_info _ = none

abbrev pub as_bot : Incoming → Option (Unit {0})
as_bot bot_info = some tt
as_bot _ = none

-- GetNickList, or at once the info
abbrev pub as_first : Incoming → Option (Option Info)
as_first get_nick_list = some none
as_first (my_info u) = some (some u)
as_first _ = none

write_all : List Sent → M (Unit {0})
write_all [] = pure tt
write_all (m ∷ l) = do write m; write_all l

when : Bool → M (Unit {0}) → M (Unit {0})
when true m = m
when false m = pure tt

unfoldable pub is_insecure : Option Bool → Bool
is_insecure none = false
is_insecure (some secure) = not secure

is_empty : List Bytes → Bool
is_empty [] = true
is_empty (x ∷ l) = false

-- the names of the peers that pass a test
names_of : (Peer → Bool) → List Peer → List Bytes
names_of test [] = []
names_of test (p ∷ ps) = let rest = names_of test ps in if test p then p.name ∷ rest else rest

module _ (s : Setting) (c : Client) (o : Others) (v : View) where
  unfoldable pub peer_of : Bytes → Peer
  peer_of name = record { sid = c.sid; name = name; cid = none }

  -- `nmdcCheckUserPass`, for a hub with a database
  check_user_pass : UserRecord → Bytes → Bool
  check_user_pass rec pass = rec.pass == pass

  refuse_pass : Bool → M (Unit {0})
  refuse_pass true = pure tt
  refuse_pass false = do write bad_pass; raise wrong_password

  ask_pass : UserRecord → M (Unit {0})
  unfolding check_user_pass refuse_pass
  ask_pass rec = do write get_pass; pass ← read as_pass; refuse_pass (check_user_pass rec pass)

  check_user : Option (UserRecord × Option Profiles.UserProfile) → M (Unit {0})
  unfolding ask_pass is_insecure
  check_user none = pure tt
  check_user (some (rec, profile)) = do guard (not (is_insecure c.secure)) insecure; ask_pass rec

  info_after : Option Info → M Info
  info_after none = read as_info
  info_after (some u) = pure u

  -- with zlib, ZOn flushes
  greet_end : Bool → M (Unit {0})
  greet_end true = write zon
  greet_end false = flush

  send_lists : Bytes → List Ext → List Peer → M (Unit {0})
  unfolding write_all when names_of is_empty peer_of
  send_lists name fea peers = do
    write_all (map (λ p. info_of p.name) peers)
    write (info_of name)
    write (op_list (names_of v.is_op (peer_of name ∷ peers)))
    let bots = names_of v.is_bot peers
    when (has_ext fea bot_list_ext && not (is_empty bots)) (write (bot_list bots))
    when (has_ext fea user_ip_ext) (write (user_ips (name ∷ [])))
    let ips = names_of v.has_ip peers
    when (has_ext fea user_ip_ext && v.sees_ips && not (is_empty ips)) (write (user_ips ips))

  -- `nmdcAccept` from the answer Hello on; it gives the share of the user
  log_in : Bytes → List Ext → M ℕ
  unfolding info_after greet_end when write_all send_lists
  log_in name fea = do
    write (hello name)
    greet_end (s.zlib && has_ext fea zpipe_ext)
    vers ← read as_version
    guard (vers == codes "1,0091" || vers == codes "1.0091" || vers == codes "1,0098") bad_version
    first ← read as_first
    u ← info_after first
    guard (name == u.name) nick_mismatch
    write hub_topic
    guard c.online offline
    when (has_ext fea user_command_ext) (write_all (replicate s.commands user_command))
    peers ← on_hub (λ h. list_peers (o.during h))
    send_lists name fea peers
    flush
    pure u.share

  -- `nmdcAccept`
  unfoldable pub nmdc_accept : Bytes → List Ext → M ℕ
  unfolding check_user log_in
  nmdc_accept name fea = do
    write hub_name
    check_user (get_user name s.profiles s.db)
    log_in name fea
