-- ===== src/Hub/Bans/Blocks.antt =====
-- Blocks that are set by hand.
use go_dcpp.Hub.Bans.{BanKey, Ban, Bans, block_key, is_blocked, save_ban, hard_block, hard_unblock}
use go_dcpp.Base.{
  ◌≡◌, ap, ◌∙◌, true, ◌||◌, [], arith, ◌==◌, nat_eq, ==_refl, list_eq, is_some, lookup-insert,
}

pub is_blocked-block_key :
    (k j : BanKey) (s : Bans) → is_blocked j (block_key k s) ≡ (k == j || is_blocked j s)
unfolding is_blocked block_key is_some
is_blocked-block_key k j s = ground (arith, lookup-insert k j tt s.blocked)

save_ban-blocked : (b : Ban) (j : BanKey) (s : Bans) → is_blocked j (save_ban b s) ≡ is_blocked j s
unfolding is_blocked save_ban
save_ban-blocked b j s = ground arith

-- A hard block blocks its key and no other.
pub is_blocked-hard_block :
    (k j : BanKey) (s : Bans) → is_blocked j (hard_block k s) ≡ (k == j || is_blocked j s)
unfolding hard_block
is_blocked-hard_block k j s =
    save_ban-blocked (record { key = k; hard = true; until = 0; reason = [] }) j (block_key k s)
    ∙ is_blocked-block_key k j s

-- The call that is to lift a hard block sets one: its key is blocked afterwards, whatever it was
-- before, and every other key keeps its state.
pub is_blocked-hard_unblock :
    (k j : BanKey) (s : Bans)
    → (is_blocked k (hard_unblock k s) ≡ true)
      × (is_blocked j (hard_unblock k s) ≡ (k == j || is_blocked j s))
unfolding hard_unblock
is_blocked-hard_unblock k j s =
    let at = λ (i : BanKey).
      save_ban-blocked (record { key = k; hard = true; until = 0; reason = [] }) i (block_key k s)
      ∙ is_blocked-block_key k i s in
    (at k ∙ ap (λ b. b || is_blocked k s) (==_refl k), at j)
