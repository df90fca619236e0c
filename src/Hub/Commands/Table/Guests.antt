-- ===== src/Hub/Commands/Table/Guests.antt =====
-- Which commands of hub/cmds.go need no permission.
use go_dcpp.Hub.Commands.Table.Initial.{init_commands, help_command, history_command, reg_command}
use go_dcpp.Hub.Commands.Arguments.Typed.{shape_of}
use go_dcpp.Hub.Commands.Table.{
  Command, Table, Answer, refused, runs, peer_has_perm, command_answer,
}
use go_dcpp.Base.{
  ◌≡◌, refl, ap, subst, ◌∙◌, inl, inr, Bool, true, false, not, ◌&&◌, ◌||◌, Option, none, some, [],
  ◌∷◌, arith, if◌then◌else◌, ◌==◌, nat_eq, ==_iff, list_eq, Bool-cases, Option-cases, is_some,
  Bytes, codes, Map, lookup, insert,
}

-- The names and aliases of the commands for everybody.
abbrev pub guest_commands : Map Bytes Command
guest_commands =
    (codes "help", help_command)
    ∷ (codes "h", help_command)
    ∷ (codes "history", history_command)
    ∷ (codes "log", history_command)
    ∷ (codes "reg", reg_command)
    ∷ (codes "register", reg_command)
    ∷ (codes "passwd", reg_command)
    ∷ (codes "regme", reg_command)
    ∷ []

-- the command that is found is run, if one is
abbrev pub run_found : Option Command → Answer
run_found none = refused
run_found (some c) = runs c

-- the commands that need no permission
open_part : Map Bytes Command → Map Bytes Command
open_part [] = []
open_part ((k, c) ∷ m) = let rest = open_part m in if c.require == [] then (k, c) ∷ rest else rest

-- A name of a command that needs a permission is not one of a later command that needs none.
is_covered : Map Bytes Command → Bool
unfolding open_part
is_covered [] = true
is_covered ((k, c) ∷ m) =
    (c.require == [] || not (is_some (lookup k (open_part m)))) && is_covered m

-- what a peer without permissions gets
guest_answer : (Bytes → Bool) → Option Command → Answer
unfolding peer_has_perm
guest_answer holds none = refused
guest_answer holds (some c) = if not (peer_has_perm holds c.require) then refused else runs c

guest_answer-open_part :
    (holds : Bytes → Bool) (m : Map Bytes Command) (cmd : Bytes)
    → ((perm : Bytes) → holds perm ≡ false)
    → is_covered m ≡ true
    → guest_answer holds (lookup cmd m) ≡ run_found (lookup cmd (open_part m))
unfolding guest_answer peer_has_perm is_covered open_part lookup is_some
guest_answer-open_part holds [] cmd guest every = refl
guest_answer-open_part holds ((k, c) ∷ m) cmd guest every =
    let rest = guest_answer-open_part holds m cmd guest in
    elim (Bool-cases (c.require == [])) [
      | inl free ↦ ground (arith, rest, free)
      | inr needs ↦ elim (Bool-cases (k == cmd)) [
        | inl same ↦ let own = (==_iff k cmd).0 same in ground (arith, needs, guest c.require, own)
        | inr other ↦ ground (arith, rest, needs)
      ]
    ]

IsOpenTable : Option Table → Type 0
IsOpenTable none = Unit {0}
IsOpenTable (some t) = (open_part t.by_name ≡ guest_commands) × (is_covered t.by_name ≡ true)

init_commands-IsOpenTable : IsOpenTable init_commands
unfolding IsOpenTable open_part is_covered init_commands shape_of is_some insert lookup
init_commands-IsOpenTable = (refl, refl)

command_answer_lem :
    (t : Table) (holds : Bytes → Bool) (cmd : Bytes)
    → command_answer t holds cmd ≡ guest_answer holds (lookup cmd t.by_name)
unfolding command_answer guest_answer
command_answer_lem t holds cmd = elim (Option-cases (lookup cmd t.by_name)) [
  | inl missing ↦ ground (arith, missing)
  | inr (c, found) ↦ ground (arith, found)
]

-- With the commands that `initCommands` registers, a peer whose user has no permission can run the
-- commands `help`, `history` and `reg` of the hub, by their names and aliases, and no other: each
-- other text is refused.
pub command_answer-guest :
    (t : Table) (holds : Bytes → Bool) (cmd : Bytes)
    → init_commands ≡ some t
    → ((perm : Bytes) → holds perm ≡ false)
    → command_answer t holds cmd ≡ run_found (lookup cmd guest_commands)
unfolding IsOpenTable
command_answer-guest t holds cmd init guest =
    let init_open : IsOpenTable (some t) = subst IsOpenTable init init_commands-IsOpenTable in
    command_answer_lem t holds cmd
    ∙ guest_answer-open_part holds t.by_name cmd guest init_open.1
    ∙ ap (λ m. run_found (lookup cmd m)) init_open.0
