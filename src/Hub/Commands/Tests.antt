-- ===== src/Hub/Commands/Tests.antt =====
-- Commands at which the theorems on hub/cmds.go are applied.
use go_dcpp.Hub.Users.{UserRecord, MemDb}
use go_dcpp.Hub.Users.Records.{stored, IsNamed}
use go_dcpp.Hub.Peers.{new_hub}
use go_dcpp.Hub.Commands.Arguments.Typed.{
  peer_kind, string_kind, self_value, string_value, Readers, call_with, to_command_func, shape_of,
}
use go_dcpp.Hub.Commands.Arguments.Joined.{joined, IsWord, to_command_func-joined}
use go_dcpp.Hub.Commands.Table.{Table, command_answer, menu_less}
use go_dcpp.Hub.Commands.Table.Initial.{init_commands}
use go_dcpp.Hub.Commands.Table.Guests.{guest_commands, run_found, command_answer-guest}
use go_dcpp.Hub.Commands.Table.Menus.{IsBelow, menu_less-none}
use go_dcpp.Hub.Commands.Run.{Server, cmd_register}
use go_dcpp.Hub.Commands.Run.Effects.{accepts, with_password, stored-cmd_register}
use go_dcpp.Base.{
  ◌≡◌, refl, ◌↔◌, ◌⊎◌, Bool, true, false, ◌&&◌, Option, none, some, List, [], ◌∷◌, map, arith,
  if◌then◌else◌, ◌==◌, nat_eq, ==_iff, list_eq, is_some, Bytes, codes, All, lookup, insert,
}

-- every byte is a character
abbrev next_byte : Bytes → Option (Bytes × Bytes)
next_byte [] = none
next_byte (c ∷ s) = some (c ∷ [], s)

abbrev readers : Readers
readers = record {
  unquote_char = next_byte;
  to_lower = λ s. s;
  parse_int = λ s. none;
  parse_uint = λ s. none;
  parse_duration = λ s. none;
}

abbrev words : List Bytes
words = codes "hub.name" ∷ codes "x" ∷ []

words-IsWord : All IsWord words
words-IsWord = ground arith

to_command_func-joined_example :
    to_command_func readers new_hub (peer_kind ∷ map (λ w. string_kind) words) (joined words)
    ≡ some (call_with (self_value ∷ map string_value words))
to_command_func-joined_example = to_command_func-joined readers new_hub words words-IsWord

abbrev table_of : Option Table → Table
table_of none = record { by_name = []; names = [] }
table_of (some t) = t

init_commands_there : init_commands ≡ some (table_of init_commands)
unfolding init_commands shape_of is_some insert
init_commands_there = refl

abbrev guest : Bytes → Bool
guest perm = false

command_answer-guest_example :
    command_answer (table_of init_commands) guest (codes "regme")
    ≡ run_found (lookup (codes "regme") guest_commands)
command_answer-guest_example =
    command_answer-guest (table_of init_commands) guest (codes "regme") init_commands_there
      (λ perm. refl)

menu_less-none_example :
    (menu_less (codes "Bans" ∷ []) (codes "Bans" ∷ codes "List IPs" ∷ []) ≡ none) ↔ (
      IsBelow (codes "Bans" ∷ []) (codes "Bans" ∷ codes "List IPs" ∷ [])
      ⊎ IsBelow (codes "Bans" ∷ codes "List IPs" ∷ []) (codes "Bans" ∷ []))
menu_less-none_example = menu_less-none (codes "Bans" ∷ []) (codes "Bans" ∷ codes "List IPs" ∷ [])

abbrev alice : UserRecord
alice = record { name = codes "alice"; pass = codes "old"; profile = codes "operator" }

abbrev alice_db : MemDb
alice_db = record { users = (codes "alice", alice) ∷ []; profiles = []; bans = [] }

abbrev server : Server
server = record {
  db = some alice_db;
  rooms = record { heap = []; by_name = []; by_sid = []; joined = []; last_sid = 0 };
  bans = record { blocked = []; info = []; db = none };
  closed = [];
}

alice_db-IsNamed : IsNamed (some alice_db)
unfolding lookup
alice_db-IsNamed k u = λ e. ground (arith, ==_iff (codes "alice") k)

stored-cmd_register_example :
    stored (codes "alice") (cmd_register (some true) (codes "alice") (codes "secret") server).0.db
    ≡ (if codes "alice" == codes "alice" && accepts (some true) (codes "secret")
        then some (with_password (codes "alice") (codes "secret") alice_db)
        else stored (codes "alice") (some alice_db))
stored-cmd_register_example =
    stored-cmd_register (some true) (codes "alice") (codes "secret") (codes "alice") server alice_db
      refl alice_db-IsNamed
