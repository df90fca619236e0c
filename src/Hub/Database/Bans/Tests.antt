-- ===== src/Hub/Database/Bans/Tests.antt =====
-- Runs of the bans and profiles of hub/hubdb/hubdb.go.
use go_dcpp.Hub.Bans.{Ban, Bans}
use go_dcpp.Hub.Users.{ok, new_database, db_get_ban}
use go_dcpp.Hub.Database.Listed.{listed, listed-IsTable}
use go_dcpp.Hub.Database.Users.Agree.{online}
use go_dcpp.Hub.Database.Bans.{list_bans, get_ban, put_bans}
use go_dcpp.Hub.Database.Bans.Kept.{
  Call, put, del, disk_run, mem_run, get_ban-db_get_ban, list_bans_short,
}
use go_dcpp.Base.{
  ◌≤◌, ◌≡◌, refl, true, none, some, List, [], ◌∷◌, arith, nat_eq, list_eq, codes, length, lookup,
}

abbrev first : Ban
first = record { key = 10 ∷ 0 ∷ 0 ∷ 1 ∷ []; hard = true; until = 0; reason = codes "flood" }

abbrev second : Ban
second = record { key = 10 ∷ 0 ∷ 0 ∷ 2 ∷ []; hard = true; until = 7; reason = [] }

abbrev no_rows : listed.State
no_rows = []

abbrev calls : List Call
calls = put (first ∷ second ∷ []) ∷ del (first.key ∷ []) ∷ []

get_ban-db_get_ban_example :
    get_ban listed online second.key (disk_run listed calls no_rows)
    ≡ ok (db_get_ban second.key (mem_run calls new_database))
unfolding lookup
get_ban-db_get_ban_example =
    get_ban-db_get_ban listed listed-IsTable calls second.key no_rows (λ k. refl)

list_bans_short_example :
    (l : List Ban) × (list_bans listed online
        (put_bans listed online (first ∷ second ∷ []) no_rows).0
      ≡ ok l)
    × (length l ≤ 1)
    × (get_ban listed online first.key (put_bans listed online (first ∷ second ∷ []) no_rows).0
        ≡ ok (some first))
    × (get_ban listed online second.key (put_bans listed online (first ∷ second ∷ []) no_rows).0
        ≡ ok (some second))
unfolding lookup
list_bans_short_example =
    list_bans_short listed listed-IsTable first second no_rows (λ k. refl) (λ e. ground arith)

-- a hub that starts, without blocks
abbrev fresh : Bans
fresh = record { blocked = []; info = []; db = none }
