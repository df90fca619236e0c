-- ===== src/Hub/Commands/Table/Menus.antt =====
-- The order of the menus in `ListCommands` of hub/cmds.go.
use go_dcpp.Hub.Commands.Table.{menu_loop, menu_less}
use go_dcpp.Base.{
  ℕ, zero, suc, ◌<◌, ◌≡◌, refl, ◌↔◌, ◌⊎◌, inl, inr, Bool, none, List, [], ◌∷◌, ◌++◌, arith, nat_eq,
  ==_iff, ==_refl, list_eq, Bytes, length, length-append,
}

-- The first menu is the second one, or has more below it.
abbrev pub IsBelow : List Bytes → List Bytes → Type 0
IsBelow a b = (rest : List Bytes) × (a ≡ b ++ rest)

menu_loop-fails :
    (end : Bool) (turns : ℕ) (a b : List Bytes)
    → menu_loop end turns a b ≡ none
    → IsBelow a b ⊎ IsBelow b a
unfolding menu_loop
menu_loop-fails end zero a b = λ e. ground arith
menu_loop-fails end (suc turns) [] b = λ e. inr (b, refl)
menu_loop-fails end (suc turns) (x ∷ a) [] = λ e. inl (x ∷ a, refl)
menu_loop-fails end (suc turns) (x ∷ a) (y ∷ b) = λ e.
    let same : (x ≡ y) × (menu_loop end turns a b ≡ none) = ground (arith, ==_iff x y) in
    elim (menu_loop-fails end turns a b same.1) [
      | inl (rest, below) ↦ inl (rest, cc)
      | inr (rest, below) ↦ inr (rest, cc)
    ]

menu_loop-above :
    (end : Bool) (turns : ℕ) (a rest : List Bytes)
    → length a < turns
    → menu_loop end turns a (a ++ rest) ≡ none
unfolding menu_loop
menu_loop-above end zero a rest enough = absurd (omega arith)
menu_loop-above end (suc turns) [] rest enough = refl
menu_loop-above end (suc turns) (x ∷ a) rest enough =
    ground (arith, ==_refl x, menu_loop-above end turns a rest)

menu_loop-below :
    (end : Bool) (turns : ℕ) (a rest : List Bytes)
    → length a < turns
    → menu_loop end turns (a ++ rest) a ≡ none
unfolding menu_loop
menu_loop-below end zero a rest enough = absurd (omega arith)
menu_loop-below end (suc turns) [] [] enough = refl
menu_loop-below end (suc turns) [] (y ∷ rest) enough = refl
menu_loop-below end (suc turns) (x ∷ a) rest enough =
    ground (arith, ==_refl x, menu_loop-below end turns a rest)

menu_less-below : (a b : List Bytes) → IsBelow a b ⊎ IsBelow b a → menu_less a b ≡ none
unfolding menu_less
menu_less-below a b (inl (rest, e)) =
    rw e (menu_loop-below _ _ b rest (ground (arith, length-append b rest)))
menu_less-below a b (inr (rest, e)) =
    rw e (menu_loop-above _ _ a rest (ground (arith, length-append a rest)))

-- The comparison of two menus indexes one of them out of range exactly when they are equal or one is above the other,
-- like `Bans` and `Bans` / `List IPs`.
pub menu_less-none : (a b : List Bytes) → (menu_less a b ≡ none) ↔ (IsBelow a b ⊎ IsBelow b a)
unfolding menu_less
menu_less-none a b = (menu_loop-fails _ _ a b, menu_less-below a b)
