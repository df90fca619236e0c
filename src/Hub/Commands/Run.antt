-- ===== src/Hub/Commands/Run.antt =====
-- What the commands do to the users, rooms and bans of the hub: `cmdRegister`, `cmdJoin`, `cmdLeave`, `cmdBanIP`,
-- `cmdBanUserIP`, `cmdUnBanIP` and `cmdDrop` of hub/cmds.go. The texts that a command shows are the
-- messages below, and those it sends to rooms are left out. `parse_ip` is net.ParseIP.
pub mod Effects
use go_dcpp.Adc.Sid.{Sid}
use go_dcpp.Hub.Users as Users
use go_dcpp.Hub.Bans.{Bans, BanKey, min_ip_key, is_blocked, hard_block, hard_unblock}
use go_dcpp.Hub.Rooms as Rooms
use go_dcpp.Hub.Peers.{Peer}
use go_dcpp.Base.{
  Bool, true, false, not, Option, none, some, List, ◌∷◌, ltb, if◌then◌else◌, ◌==◌, nat_eq, list_eq,
  Bytes, length,
}

-- what the commands change; `closed` is the peers they have closed
pub record Server : Type 0 where
  pub db : Option Users.MemDb
  pub rooms : Rooms.Rooms
  pub bans : Bans
  pub closed : List Sid

pub data Message : Type 0 where
  short_password password_changed registered user_dropped : Message
  already_blocked blocked not_blocked unblocked : Message

pub data Error : Type 0 where
  insecure bad_room_name bad_ip not_ip : Error
  user_error : Users.Error → Error
  room_error : Rooms.Error → Error

-- A command ends with an error, or has shown a message, or is silent.
pub data Outcome : Type 0 where
  failed : Error → Outcome
  shows : Message → Outcome
  silent : Outcome

-- the function that `cmdRegister` gives to `UpdateUser`
change_password : Bytes → Users.UserRecord → Users.Result (Users.UserRecord × Bool)
change_password pass u =
    if pass == u.pass then Users.ok (u, false) else Users.ok (record u { pass = pass }, true)

with_db : Server → Message → Option Users.MemDb × Users.Result (Unit {0}) → Server × Outcome
with_db s m (db, Users.ok _) = (record s { db = db }, shows m)
with_db s m (db, Users.err e) = (record s { db = db }, failed (user_error e))

-- c != nil && !c.Secure; the argument is `Secure`, and `none` when `ConnInfo` is nil
unfoldable pub is_insecure : Option Bool → Bool
is_insecure none = false
is_insecure (some secure) = not secure

-- `cmdRegister`, past its checks
store_password : Bytes → Bytes → Server → Server × Outcome
unfolding change_password with_db
store_password name pass s =
    if Users.is_registered name s.db
    then with_db s password_changed (Users.update_user name (change_password pass) s.db)
    else with_db s registered (Users.register_user name pass s.db)

-- `cmdRegister`
pub cmd_register : Option Bool → Bytes → Bytes → Server → Server × Outcome
unfolding store_password is_insecure
cmd_register secure name args s =
    if is_insecure secure
    then (s, failed insecure)
    else if ltb (length args) 6
    then (s, shows short_password)
    else store_password name args s

-- `cmdJoin`
pub cmd_join : Sid → Bytes → Server → Server × Outcome
cmd_join p name s =
    if not (Rooms.has_hash name)
    then (s, failed bad_room_name)
    else elim (Rooms.room name s.rooms) [
      | some r ↦ (record s { rooms = Rooms.join r p s.rooms }, silent)
      | none ↦ elim (Rooms.new_room name s.rooms) [
        | Rooms.err e ↦ (s, failed (room_error e))
        | Rooms.ok (rooms, r) ↦ (record s { rooms = Rooms.join r p rooms }, silent)
      ]
    ]

-- `cmdLeave`
pub cmd_leave : Sid → Bytes → Server → Server × Outcome
cmd_leave p name s =
    if not (Rooms.has_hash name)
    then (s, failed bad_room_name)
    else elim (Rooms.room name s.rooms) [
      | none ↦ (s, silent)
      | some r ↦ (record s { rooms = Rooms.leave r p s.rooms }, silent)
    ]

-- `cmdDrop`
pub cmd_drop : Peer → Server → Server × Outcome
cmd_drop p2 s = (record s { closed = p2.sid ∷ s.closed }, shows user_dropped)

-- `cmdBanIPa`
pub cmd_ban_ipa : Option Bytes → Server → Server × Outcome
cmd_ban_ipa none s = (s, failed bad_ip)
cmd_ban_ipa (some ip) s =
    if is_blocked (min_ip_key ip) s.bans
    then (s, shows already_blocked)
    else (record s { bans = hard_block (min_ip_key ip) s.bans }, shows blocked)

-- `cmdBanUserIP`; the address of the peer is `none` when it is not one of TCP
pub cmd_ban_user_ip : Option (Option Bytes) → Peer → Server → Server × Outcome
cmd_ban_user_ip none p2 s = (s, failed not_ip)
cmd_ban_user_ip (some ip) p2 s =
    let (s', out) = cmd_ban_ipa ip s in
    elim out [
      | failed e ↦ (s', failed e)
      | shows m ↦ (record s' { closed = p2.sid ∷ s'.closed }, shows m)
      | silent ↦ (record s' { closed = p2.sid ∷ s'.closed }, silent)
    ]

module _ (parse_ip : Bytes → Option Bytes) where
  -- `cmdBanIP`
  pub cmd_ban_ip : Bytes → Server → Server × Outcome
  unfolding cmd_ban_ipa
  cmd_ban_ip args s = cmd_ban_ipa (parse_ip args) s

  -- `cmdUnBanIP`
  pub cmd_un_ban_ip : Bytes → Server → Server × Outcome
  cmd_un_ban_ip args s = elim (parse_ip args) [
    | none ↦ (s, failed bad_ip)
    | some ip ↦
        if not (is_blocked (min_ip_key ip) s.bans)
        then (s, shows not_blocked)
        else (record s { bans = hard_unblock (min_ip_key ip) s.bans }, shows unblocked)
  ]
