-- ===== src/Hub/Bans/Tests.antt =====
-- Addresses at which the theorems on hub/ip_filter.go are applied.
use go_dcpp.Hub.Bans.{BanKey, Bans, max_violations, is_blocked}
use go_dcpp.Hub.Bans.Violations.{attacks, is_blocked-attacks}
use go_dcpp.Base.{
  ℕ, ◌≡◌, refl, false, none, some, List, [], ◌∷◌, leb, nat_eq, list_eq, is_some, length, replicate,
  lookup,
}

abbrev here : BanKey
here = 10 ∷ 0 ∷ 0 ∷ 1 ∷ []

abbrev times : List ℕ
times = replicate 100 1

abbrev quiet : Bans
quiet = record { blocked = []; info = []; db = some [] }

quiet_free : (is_blocked here quiet ≡ false) × (lookup here quiet.info ≡ none)
unfolding is_blocked lookup is_some
quiet_free = (refl, refl)

is_blocked-attacks_example :
    is_blocked here (attacks times here quiet) ≡ leb max_violations (length times)
is_blocked-attacks_example = is_blocked-attacks times here quiet quiet_free.0 quiet_free.1
