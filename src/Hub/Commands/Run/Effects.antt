-- ===== src/Hub/Commands/Run/Effects.antt =====
-- What `cmdRegister` of hub/cmds.go leaves in the database, and the commands for bans among the blocked
-- addresses.
use go_dcpp.Hub.Users.{
  UserRecord, MemDb, Result, ok, err, is_registered, db_is_registered, register_user, update_user,
}
use go_dcpp.Hub.Users.Records.{stored, IsNamed, register_user-delete_user, update_user_lem}
use go_dcpp.Hub.Bans.{min_ip_key, is_blocked}
use go_dcpp.Hub.Bans.Blocks.{is_blocked-hard_block, is_blocked-hard_unblock}
use go_dcpp.Hub.Commands.Run.{
  Server, Message, registered, password_changed, store_password, is_insecure, cmd_register,
  change_password, with_db, cmd_ban_ipa, cmd_ban_ip, cmd_un_ban_ip,
}
use go_dcpp.Base.{
  ◌≡◌, refl, ◌∙◌, ◌⊎◌, inl, inr, Bool, true, false, not, ◌&&◌, ◌||◌, Option, none, some, [], arith,
  leb, if◌then◌else◌, ◌==◌, nat_eq, ==_iff, list_eq, Bool-cases, Option-cases, is_some, Bytes,
  length, lookup,
}

abbrev pub profile_of : Option UserRecord → Bytes
profile_of none = []
profile_of (some u) = u.profile

-- whether `cmdRegister` goes on to the database
abbrev pub accepts : Option Bool → Bytes → Bool
accepts secure args = not (is_insecure secure) && leb 6 (length args)

-- The peer's user is stored with this password.
abbrev pub with_password : Bytes → Bytes → MemDb → UserRecord
with_password name args db = record {
  name = name;
  pass = args;
  profile = profile_of (stored name (some db));
}

stored-with_db :
    (s : Server) (m : Message) (other : Bytes) (r : Option MemDb × Result (Unit {0}))
    → stored other (with_db s m r).0.db ≡ stored other r.0
unfolding with_db
stored-with_db s m other (db, ok _) = refl
stored-with_db s m other (db, err e) = refl

-- The function that changes the password keeps all else of the record, and asks to store what is new.
change_password_lem :
    (pass : Bytes) (u : UserRecord)
    → change_password pass u ≡ ok (record u { pass = pass }, not (pass == u.pass))
unfolding change_password
change_password_lem pass u = ground (arith, ==_iff pass u.pass)

-- A user that is not there is registered with the password, and one that is there gets it.
stored-new_password :
    (name args other : Bytes) (db : MemDb)
    → IsNamed (some db)
    → ((is_registered name (some db) ≡ false)
        × (stored other (register_user name args (some db)).0 ≡ (
            if name == other then some (with_password name args db) else stored other (some db))))
      ⊎ ((is_registered name (some db) ≡ true)
          × (stored other (update_user name (change_password args) (some db)).0 ≡ (
              if name == other then some (with_password name args db) else stored other (some db))))
unfolding is_registered db_is_registered is_some
stored-new_password name args other db v = elim (Option-cases (lookup name db.users)) [
  | inl absent ↦
      inl (rw absent refl, ground (arith, absent, (register_user-delete_user name args other db).0))
  | inr (u, found) ↦
      let u' : UserRecord = record u { pass = args } in
      inr (
        rw found refl,
        ground (
          arith,
          found,
          v name u found,
          ==_iff u.name name,
          ==_iff args u.pass,
          ==_iff name other,
          (update_user_lem name other (change_password args) db u u' (not (args == u.pass)) found
              (change_password_lem args u)).1,
        ),
      )
]

stored-store_password :
    (name args other : Bytes) (s : Server) (db : MemDb)
    → s.db ≡ some db
    → IsNamed (some db)
    → stored other (store_password name args s).0.db
      ≡ (if name == other then some (with_password name args db) else stored other (some db))
unfolding store_password
stored-store_password name args other s db there v =
    rw there (elim (stored-new_password name args other db v) [
      | inl (absent, after) ↦
          rw absent (stored-with_db s registered other (register_user name args (some db)) ∙ after)
      | inr (found, after) ↦ rw found (
          stored-with_db s password_changed other
            (update_user name (change_password args) (some db))
          ∙ after)
    ])

-- Registration with a password of 6 bytes or more, on a connection that is not known to be insecure, stores
-- the password for the name of the peer: a user that is there keeps the profile, and a new one has none.
-- With a shorter password, or on an insecure connection, nothing is stored; no other user changes
-- in any case. The database is there, and its records are under their own names.
pub stored-cmd_register :
    (secure : Option Bool) (name args other : Bytes) (s : Server) (db : MemDb)
    → s.db ≡ some db
    → IsNamed (some db)
    → stored other (cmd_register secure name args s).0.db ≡ (
        if name == other && accepts secure args
        then some (with_password name args db)
        else stored other (some db))
unfolding cmd_register
stored-cmd_register secure name args other s db there v = elim (Bool-cases (accepts secure args)) [
  | inl accepted ↦ ground (arith, stored-store_password name args other s db there v)
  | inr other_wise ↦ ground arith
]

module _ (parse_ip : Bytes → Option Bytes) where
  -- After `banip` an address is blocked when it was, or when it is the one of the command; after
  -- `unbanip` the same addresses are blocked as before, the one of the command too.
  pub is_blocked-cmd_ban_ip :
      (args k : Bytes) (s : Server)
      → (is_blocked k (cmd_ban_ip parse_ip args s).0.bans ≡ (
          is_blocked k s.bans
          || elim (parse_ip args) [ none ↦ false | some ip ↦ min_ip_key ip == k ]))
        × (is_blocked k (cmd_un_ban_ip parse_ip args s).0.bans ≡ is_blocked k s.bans)
  unfolding cmd_ban_ip cmd_un_ban_ip cmd_ban_ipa
  is_blocked-cmd_ban_ip args k s = elim (Option-cases (parse_ip args)) [
    | inl bad ↦ (ground (arith, bad), ground (arith, bad))
    | inr (ip, good) ↦
        let key = min_ip_key ip in
        (
          ground (arith, good, is_blocked-hard_block key k s.bans, ==_iff key k),
          ground (arith, good, is_blocked-hard_unblock key k s.bans, ==_iff key k),
        )
  ]
