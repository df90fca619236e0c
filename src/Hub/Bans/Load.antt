-- ===== src/Hub/Bans/Load.antt =====
-- How the hub loads its blocks from its database: `loadBans` of hub/ip_filter.go, for what `ListBans` of the
-- database gives.
use go_dcpp.Hub.Bans.{BanKey, Ban, Bans, block_key, is_blocked}
use go_dcpp.Hub.Bans.Blocks.{is_blocked-block_key}
use go_dcpp.Hub.Users.{Result, ok, err}
use go_dcpp.Base.{
  ◌≡◌, refl, Bool, false, ◌||◌, Option, none, some, List, [], ◌∷◌, arith, ◌==◌, nat_eq, list_eq,
}

-- for _, b := range bans { h.hardBlockKey(BanKey(b.Key)) }
load_all : List Ban → Bans → Bans
load_all [] s = s
load_all (b ∷ bans) s = load_all bans (block_key b.key s)

-- `loadBans`; the list is `none` when the hub has no database
pub load_bans : Option (Result (List Ban)) → Bans → Bans × Result (Unit {0})
unfolding load_all
load_bans none s = (s, ok tt)
load_bans (some (err e)) s = (s, err e)
load_bans (some (ok bans)) s = (load_all bans s, ok tt)

-- One of the bans is of this key.
abbrev pub has_ban : BanKey → List Ban → Bool
has_ban k [] = false
has_ban k (b ∷ bans) = b.key == k || has_ban k bans

load_all-is_blocked :
    (k : BanKey) (bans : List Ban) (s : Bans)
    → is_blocked k (load_all bans s) ≡ (has_ban k bans || is_blocked k s)
unfolding load_all
load_all-is_blocked k [] s = refl
load_all-is_blocked k (b ∷ bans) s =
    ground (arith, load_all-is_blocked k bans (block_key b.key s), is_blocked-block_key b.key k s)

-- Loading blocks the keys of the bans that are listed, and no others, and gives no error.
pub is_blocked-load_bans :
    (k : BanKey) (bans : List Ban) (s : Bans)
    → ((load_bans (some (ok bans)) s).1 ≡ ok tt)
      × (is_blocked k (load_bans (some (ok bans)) s).0 ≡ (has_ban k bans || is_blocked k s))
unfolding load_bans
is_blocked-load_bans k bans s = (refl, load_all-is_blocked k bans s)
