-- ===== src/Hub/Bans.antt =====
-- Bans by address: hub/ip_filter.go, with the ban table of the in-memory database in hub/users.go.
-- `sync.Map` is a map; each operation of the code on it is one step. Times are seconds since the
-- epoch.
pub mod Violations
pub mod Blocks
pub mod Load
mod Tests
use go_dcpp.Base.{
  ℕ, ◌+◌, ◌%◌, ◌^◌, Bool, true, false, ◌&&◌, ◌||◌, Option, none, some, List, [], ◌∷◌, ◌++◌, ltb,
  leb, if◌then◌else◌, ◌==◌, nat_eq, list_eq, is_some, Bytes, length, take, drop, replicate, Map,
  lookup, insert, remove,
}

-- `BanKey`: the bytes of an address
abbrev pub BanKey : Type 0
BanKey = Bytes

pub record Ban : Type 0 where
  pub key : BanKey
  pub hard : Bool
  pub until : ℕ
  pub reason : Bytes

pub record BanInfo : Type 0 where
  pub violations : ℕ
  pub last : ℕ

-- `bans` of the hub, and the bans in its database, if it has one
pub record Bans : Type 0 where
  pub blocked : Map BanKey (Unit {0})
  pub info : Map BanKey BanInfo
  pub db : Option (Map BanKey Ban)

-- maxViolations
abbrev pub max_violations : ℕ
max_violations = 100

-- forgetAfterSec: ten minutes
abbrev pub forget_after_sec : ℕ
forget_after_sec = 600

abbrev pub u64_mod : ℕ
u64_mod = 2 ^ 64

-- `MinIPKey` of an IPv6 address that holds an IPv4 one (`To4`): the last four bytes
abbrev pub mapped_prefix : Bytes
mapped_prefix = replicate 10 0 ++ 255 ∷ 255 ∷ []

pub min_ip_key : Bytes → BanKey
min_ip_key ip = if length ip == 16 && (take 12 ip == mapped_prefix) then drop 12 ip else ip

-- `BanKey.ToIP`
pub to_ip : BanKey → Option Bytes
to_ip k = if length k == 4 || length k == 16 then some k else none

-- `blockKey`, `hardBlockKey`
pub block_key : BanKey → Bans → Bans
block_key k s = record s { blocked = insert k tt s.blocked }

-- `unblockKey`
pub unblock_key : BanKey → Bans → Bans
unblock_key k s = record s { blocked = remove k s.blocked }

-- `IsHardBlocked`, `IsHardBlockedIP`
unfoldable pub is_blocked : BanKey → Bans → Bool
is_blocked k s = is_some (lookup k s.blocked)

-- `blockAndCheckKey`: LoadOrStore, and whether the key is new
pub block_and_check_key : BanKey → Bans → Bans × Bool
block_and_check_key k s = if is_blocked k s then (s, false) else (block_key k s, true)

-- `PutBans` of the in-memory database
put_bans : List Ban → Map BanKey Ban → Map BanKey Ban
put_bans [] m = m
put_bans (b ∷ bs) m = put_bans bs (insert b.key b m)

-- `saveBan`
pub save_ban : Ban → Bans → Bans
unfolding put_bans
save_ban b s = elim s.db [ none ↦ s | some m ↦ record s { db = some (put_bans (b ∷ []) m) } ]

-- `HardBlock`, `HardBlockIP`, at the key of the address
pub hard_block : BanKey → Bans → Bans
hard_block k s = save_ban (record { key = k; hard = true; until = 0; reason = [] }) (block_key k s)

-- `HardUnBlockIP`: as the code stands, it blocks the key and saves the ban
pub hard_unblock : BanKey → Bans → Bans
hard_unblock k s =
    save_ban (record { key = k; hard = true; until = 0; reason = [] }) (block_key k s)

-- `probableAttack` from the address of key `k`, at the time `now`
pub probable_attack : ℕ → BanKey → Bans → Bans
probable_attack now k s = if is_blocked k s then s else elim (lookup k s.info) [
  | none ↦ record s { info = insert k (record { violations = 1; last = 0 }) s.info }
  | some v ↦
      let n = (v.violations + 1) % u64_mod in
      let counted = record s { info = insert k (record v { violations = n }) s.info } in
      if leb max_violations n
      then (block_and_check_key k counted).0
      else record s { info = insert k (record { violations = n; last = now }) s.info }
]

-- What the minute's tick does to one entry: it forgets it, or resets its counter.
pub expire : ℕ → BanInfo → Option BanInfo
expire tsec v =
    if ltb (v.last + forget_after_sec) tsec then none else some (record v { violations = 0 })

expire_all : ℕ → Map BanKey BanInfo → Map BanKey BanInfo
unfolding expire
expire_all tsec [] = []
expire_all tsec ((k, v) ∷ m) =
    let rest = expire_all tsec m in elim (expire tsec v) [ none ↦ rest | some w ↦ (k, w) ∷ rest ]

-- one round of `bans.run`
pub tick : ℕ → Bans → Bans
unfolding expire_all
tick tsec s = record s { info = expire_all tsec s.info }
