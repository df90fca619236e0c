-- ===== src/Hub/Bans/Violations.antt =====
-- How many protocol violations lead to a block.
use go_dcpp.Hub.Bans.{
  BanKey, BanInfo, Bans, max_violations, u64_mod, block_key, is_blocked, block_and_check_key,
  probable_attack, expire, expire_all, tick,
}
use go_dcpp.Base.{
  ℕ, suc, ◌+◌, ◌%◌, ◌<◌, ◌≡◌, refl, ◌∙◌, ◌≢◌, ◌⊎◌, inl, inr, true, false, none, some, List, [], ◌∷◌,
  arith, ltb, leb, nat_eq, ==_iff, ==_refl, list_eq, Bool-cases, Option-cases, is_some, length, Map,
  lookup, lookup-insert, IsMap,
}

-- `n` violations from one address, at the times `now`, with no tick of the minute among them.
pub attacks : List ℕ → BanKey → Bans → Bans
attacks [] k s = s
attacks (now ∷ times) k s = attacks times k (probable_attack now k s)

-- The counter of a key stands at `n`, and the key is not blocked.
record IsCounted (k : BanKey) (n : ℕ) (s : Bans) : Type 0 where
  free : is_blocked k s ≡ false
  counted :
      ((n ≡ 0) × (lookup k s.info ≡ none))
      ⊎ ((v : BanInfo) × (lookup k s.info ≡ some v) × (v.violations ≡ n))

below_limit :
    (now : ℕ) (k : BanKey) (n : ℕ) (s : Bans)
    → IsCounted k n s
    → suc n < max_violations
    → IsCounted k (suc n) (probable_attack now k s)
unfolding probable_attack is_blocked
below_limit now k n s c h = elim (Option-cases (lookup k s.info)) [
  | inl none_yet ↦
      let first : BanInfo = record { violations = 1; last = 0 } in
      record {
        free = ground (arith, c.free);
        counted = inr (
          first,
          ground (arith, c.free, lookup-insert k k first s.info, ==_refl k),
          ground (arith, c.counted),
        );
      }
  | inr (v, seen) ↦
      let more : BanInfo = record { violations = v.violations + 1; last = now } in
      let count : v.violations ≡ n = ground (arith, c.counted) in
      let fits : (v.violations + 1) % u64_mod ≡ v.violations + 1 = omega arith in
      record {
        free = ground (arith, c.free, fits);
        counted = inr (
          more,
          ground (arith, c.free, fits, lookup-insert k k more s.info, ==_refl k),
          omega arith,
        );
      }
]

at_limit :
    (now : ℕ) (k : BanKey) (n : ℕ) (s : Bans)
    → IsCounted k n s
    → suc n ≡ max_violations
    → is_blocked k (probable_attack now k s) ≡ true
unfolding probable_attack is_blocked is_some block_and_check_key block_key
at_limit now k n s c h =
    ground (arith, c.free, c.counted, lookup-insert k k tt s.blocked, ==_refl k)

stays_blocked :
    (now : ℕ) (k : BanKey) (s : Bans)
    → is_blocked k s ≡ true
    → is_blocked k (probable_attack now k s) ≡ true
unfolding probable_attack is_blocked
stays_blocked now k s h = rw h h

attacks_blocked :
    (times : List ℕ) (k : BanKey) (s : Bans)
    → is_blocked k s ≡ true
    → is_blocked k (attacks times k s) ≡ true
unfolding attacks
attacks_blocked [] k s h = h
attacks_blocked (now ∷ times) k s h = attacks_blocked times k _ (stays_blocked now k s h)

attacks_counted :
    (times : List ℕ) (k : BanKey) (n : ℕ) (s : Bans)
    → IsCounted k n s
    → n < max_violations
    → is_blocked k (attacks times k s) ≡ leb max_violations (n + length times)
unfolding attacks
attacks_counted [] k n s c h = ground (arith, c.free)
attacks_counted (now ∷ times) k n s c h =
    let t : Bans = probable_attack now k s in
    elim (Bool-cases (ltb (suc n) max_violations)) [
      | inl below ↦
          let fits : suc n < max_violations = ground arith in
          attacks_counted times k (suc n) t (below_limit now k n s c fits) fits ∙ ground arith
      | inr full ↦
          let reached : suc n ≡ max_violations = ground arith in
          attacks_blocked times k t (at_limit now k n s c reached) ∙ ground arith
    ]

-- From a key that is not blocked and has no violation yet, violations with no tick of the minute
-- among them block it exactly if `n` is `maxViolations` or more, whenever they come.
pub is_blocked-attacks :
    (times : List ℕ) (k : BanKey) (s : Bans)
    → is_blocked k s ≡ false
    → lookup k s.info ≡ none
    → is_blocked k (attacks times k s) ≡ leb max_violations (length times)
is_blocked-attacks times k s free none_yet =
    attacks_counted times k 0 s (record { free = free; counted = inl (refl, none_yet) })
      (omega arith)
    ∙ ground arith

attack_ne :
    (now : ℕ) (k j : BanKey) (s : Bans)
    → k ≢ j
    → (is_blocked j (probable_attack now k s) ≡ is_blocked j s)
      × (lookup j (probable_attack now k s).info ≡ lookup j s.info)
unfolding probable_attack is_blocked is_some block_and_check_key block_key
attack_ne now k j s h = elim (Option-cases (lookup k s.info)) [
  | inl none_yet ↦
      let first : BanInfo = record { violations = 1; last = 0 } in
      (ground arith, ground (arith, lookup-insert k j first s.info, ==_iff k j))
  | inr (v, seen) ↦
      let n : ℕ = (v.violations + 1) % u64_mod in
      let more : BanInfo = record { violations = n; last = now } in
      let full : BanInfo = record { violations = n; last = v.last } in
      (
        ground (arith, lookup-insert k j tt s.blocked, ==_iff k j),
        ground (arith, lookup-insert k j more s.info, lookup-insert k j full s.info, ==_iff k j),
      )
]

-- Violations from one address neither block another nor count for it.
pub attacks_ne :
    (times : List ℕ) (k j : BanKey) (s : Bans)
    → k ≢ j
    → (is_blocked j (attacks times k s) ≡ is_blocked j s)
      × (lookup j (attacks times k s).info ≡ lookup j s.info)
unfolding attacks
attacks_ne [] k j s h = (refl, refl)
attacks_ne (now ∷ times) k j s h =
    let (a, b) = attacks_ne times k j (probable_attack now k s) h in
    let (c, d) = attack_ne now k j s h in (a ∙ c, b ∙ d)

lookup-expire_all-none :
    (tsec : ℕ) (k : BanKey) (m : Map BanKey BanInfo)
    → lookup k m ≡ none
    → lookup k (expire_all tsec m) ≡ none
unfolding expire_all expire lookup
lookup-expire_all-none tsec k [] h = refl
lookup-expire_all-none tsec k ((j, v) ∷ m) h =
    ground (arith, ==_iff j k, lookup-expire_all-none tsec k m)

lookup-expire_all :
    (tsec : ℕ) (k : BanKey) (m : Map BanKey BanInfo)
    → IsMap m
    → lookup k (expire_all tsec m) ≡ elim (lookup k m) [ none ↦ none | some v ↦ expire tsec v ]
unfolding expire_all expire lookup
lookup-expire_all tsec k [] h = refl
lookup-expire_all tsec k ((j, v) ∷ m) h =
    ground (arith, ==_iff j k, lookup-expire_all tsec k m h.1, lookup-expire_all-none tsec j m h.0)

-- The tick of the minute keeps the blocks. With one counter for each address, it forgets an address whose last violation was counted
-- more than ten minutes before, and sets the counter of each other address to 0.
pub lookup-tick :
    (tsec : ℕ) (k j : BanKey) (s : Bans)
    → IsMap s.info
    → (is_blocked j (tick tsec s) ≡ is_blocked j s)
      × (lookup k (tick tsec s).info
          ≡ elim (lookup k s.info) [ none ↦ none | some v ↦ expire tsec v ])
unfolding tick is_blocked
lookup-tick tsec k j s u = (refl, lookup-expire_all tsec k s.info u)
