-- ===== src/Hub/Database/Bans/Restart.antt =====
-- What is left of the blocks of a hub after a restart on the database of hub/hubdb/hubdb.go:
-- `saveBan` and `loadBans` of hub/ip_filter.go over it.
use go_dcpp.Hub.Bans.{BanKey, Ban, Bans}
use go_dcpp.Hub.Database.{Table, IsTable}
use go_dcpp.Hub.Database.Users.Agree.{online}
use go_dcpp.Hub.Database.Bans.{put_bans}
use go_dcpp.Hub.Database.Bans.Kept.{Call, put}
use go_dcpp.Base.{true, List, [], ◌∷◌, nat_eq, list_eq}

-- the ban that `hardBlockKey` saves
abbrev pub hard_ban : BanKey → Ban
hard_ban k = record { key = k; hard = true; until = 0; reason = [] }

abbrev calls : BanKey → BanKey → List Call
calls j k = put (hard_ban j ∷ []) ∷ put (hard_ban k ∷ []) ∷ []

module _ (B : Table) (laws : IsTable B) where
  -- what is stored after two addresses have been blocked
  abbrev pub two_blocks : BanKey → BanKey → B.State → B.State
  two_blocks j k s =
      (put_bans B online (hard_ban k ∷ []) (put_bans B online (hard_ban j ∷ []) s).0).0
