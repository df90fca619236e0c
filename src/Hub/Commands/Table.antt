-- ===== src/Hub/Commands/Table.antt =====
-- The table of the commands of the hub: `Command`, `RegisterCommand`, `command` and `ListCommands` of
-- hub/cmds.go, less the texts of help. `holds` says which permissions `User.HasPerm` finds for the
-- user of the peer.
pub mod Guests
pub mod Initial
pub mod Menus
use go_dcpp.Hub.Commands.Arguments.Typed.{Kind, peer_kind, string_kind, raw_kind, Shape, shape_of}
use go_dcpp.Base.{
  ℕ, zero, suc, ◌+◌, Bool, true, false, not, ◌&&◌, Option, none, some, List, [], ◌∷◌, ltb, leb,
  if◌then◌else◌, ◌==◌, nat_eq, list_eq, Bytes, length, Map, lookup, insert,
}

-- A function of the type `CommandFunc`, which gets the text as it is, or one of these types.
pub data Handler : Type 0 where
  plain : Handler
  typed : List Kind → Handler

pub record Command : Type 0 where
  pub menu : List Bytes
  pub name : Bytes
  pub aliases : List Bytes
  pub require : Bytes
  pub handler : Handler
  pub on_user : Bool

-- `Hub.cmds`
pub record Table : Type 0 where
  pub by_name : Map Bytes Command
  pub names : Map Bytes (Unit {0})

-- the option that `toCommandFunc` sets; `none` is a panic
unfoldable pub handler_on_user : Handler → Option Bool
handler_on_user plain = some false
handler_on_user (typed kinds) = elim (shape_of kinds) [ none ↦ none | some sh ↦ some sh.on_user ]

unfoldable pub set_aliases : Command → List Bytes → Map Bytes Command → Map Bytes Command
set_aliases c [] m = m
set_aliases c (a ∷ aliases) m = set_aliases c aliases (insert a c m)

-- `RegisterCommand`
unfoldable pub register_command : Command → Table → Option Table
unfolding handler_on_user set_aliases
register_command cmd t = elim (handler_on_user cmd.handler) [
  | none ↦ none
  | some on ↦
      let c = record cmd { on_user = on } in
      some (record {
        names = insert c.name tt t.names;
        by_name = set_aliases c c.aliases (insert c.name c t.by_name);
      })
]

unfoldable pub register_all : List Command → Table → Option Table
unfolding register_command
register_all [] t = some t
register_all (c ∷ cs) t = elim (register_command c t) [ none ↦ none | some t' ↦ register_all cs t' ]

pub data Answer : Type 0 where
  refused : Answer
  runs : Command → Answer

-- `peerHasPerm`
unfoldable pub peer_has_perm : (Bytes → Bool) → Bytes → Bool
peer_has_perm holds perm = if perm == [] then true else holds perm

-- `Hub.command`
unfoldable pub command_answer : Table → (Bytes → Bool) → Bytes → Answer
unfolding peer_has_perm
command_answer t holds cmd = elim (lookup cmd t.by_name) [
  | none ↦ refused
  | some c ↦ if not (peer_has_perm holds c.require) then refused else runs c
]

-- the body of the loop of `ListCommands`
pub is_listed : Bool → (Bytes → Bool) → Command → Bool
is_listed is_owner holds c =
    if c.menu == []
    then false
    else if not (c.require == []) && not is_owner && not (holds c.require)
    then false
    else true

-- the order of strings in Go
pub bytes_less : Bytes → Bytes → Bool
bytes_less s [] = false
bytes_less [] (d ∷ t) = true
bytes_less (c ∷ s) (d ∷ t) = let rest = bytes_less s t in if c == d then rest else ltb c d

-- for n := 0; n <= l; n++ over the menus; `end` is what follows the loop, and `none` is an index out of range
menu_loop : Bool → ℕ → List Bytes → List Bytes → Option Bool
unfolding bytes_less
menu_loop end zero a b = some end
menu_loop end (suc turns) [] b = none
menu_loop end (suc turns) (x ∷ a) [] = none
menu_loop end (suc turns) (x ∷ a) (y ∷ b) =
    let rest = menu_loop end turns a b in if not (x == y) then some (bytes_less x y) else rest

-- the order of the menus in `ListCommands`
pub menu_less : List Bytes → List Bytes → Option Bool
unfolding menu_loop
menu_less a b =
    let l = if ltb (length b) (length a) then length b else length a in
    menu_loop (leb (length a) (length b)) (l + 1) a b
