-- ===== src/Hub/Database/Users/Tests.antt =====
-- Runs of the users of hub/hubdb/hubdb.go.
use go_dcpp.Hub.Users.{UserRecord, ok, new_database, db_get_user}
use go_dcpp.Hub.Database.Listed.{listed, sortable, listed-IsTable, listed-IsAuto}
use go_dcpp.Hub.Database.Users.{UserTables, get_user}
use go_dcpp.Hub.Database.Users.Agree.{online}
use go_dcpp.Hub.Database.Users.Refine.{
  Call, register, forget, change, disk_run, mem_run, disk_run-mem_run,
}
use go_dcpp.Base.{◌≡◌, refl, true, List, [], ◌∷◌, nat_eq, list_eq, Bytes, codes, lookup}

abbrev alice : UserRecord
alice = record { name = codes "alice"; pass = codes "secret"; profile = codes "op" }

abbrev bob : UserRecord
bob = record { name = codes "bob"; pass = codes "x"; profile = [] }

-- two registrations, one that is refused, a new password, and a deletion
abbrev calls : List Call
calls =
    register alice
    ∷ register bob
    ∷ register alice
    ∷ change (codes "bob") (λ u. ok (record u { pass = codes "y" }, true))
    ∷ forget (codes "alice")
    ∷ []

abbrev no_users : UserTables listed listed
no_users = record { users = []; users_by_name = [] }

abbrev after : UserTables listed listed
after = (disk_run listed listed sortable calls no_users).0

disk_run-mem_run_example :
    ((disk_run listed listed sortable calls no_users).1 ≡ (mem_run calls new_database).1)
    × ((name : Bytes)
        → get_user listed listed sortable online name after
          ≡ ok (db_get_user name (mem_run calls new_database).0))
unfolding lookup
disk_run-mem_run_example =
    disk_run-mem_run listed listed sortable listed-IsTable listed-IsTable listed-IsAuto calls
      no_users (λ k. refl) (λ k. refl)
