-- ===== src/Hub/Commands/Table/Initial.antt =====
-- The commands of the hub itself: `initCommands` of hub/cmds.go.
use go_dcpp.Hub.Commands.Arguments.Typed.{peer_kind, string_kind, raw_kind}
use go_dcpp.Hub.Commands.Table.{plain, typed, Command, Table, register_all}
use go_dcpp.Base.{false, Option, List, [], ◌∷◌, nat_eq, list_eq, codes}

-- the commands of `initCommands`, in its order
abbrev pub help_command : Command
help_command = record {
  menu = codes "Help" ∷ [];
  name = codes "help";
  aliases = codes "h" ∷ [];
  require = [];
  handler = plain;
  on_user = false;
}

abbrev pub history_command : Command
history_command = record {
  menu = codes "Chat history" ∷ [];
  name = codes "history";
  aliases = codes "log" ∷ [];
  require = [];
  handler = plain;
  on_user = false;
}

abbrev pub reg_command : Command
reg_command = record {
  menu = [];
  name = codes "reg";
  aliases = codes "register" ∷ codes "passwd" ∷ codes "regme" ∷ [];
  require = [];
  handler = plain;
  on_user = false;
}

abbrev join_command : Command
join_command = record {
  menu = [];
  name = codes "join";
  aliases = [];
  require = codes "rooms.join";
  handler = plain;
  on_user = false;
}

abbrev leave_command : Command
leave_command = record {
  menu = [];
  name = codes "leave";
  aliases = codes "part" ∷ [];
  require = codes "rooms.join";
  handler = plain;
  on_user = false;
}

abbrev rooms_command : Command
rooms_command = record {
  menu = codes "Chat rooms" ∷ [];
  name = codes "rooms";
  aliases = [];
  require = codes "rooms.list";
  handler = plain;
  on_user = false;
}

abbrev set_command : Command
set_command = record {
  menu = [];
  name = codes "set";
  aliases = [];
  require = codes "config.write";
  handler = typed (peer_kind ∷ string_kind ∷ string_kind ∷ []);
  on_user = false;
}

abbrev config_command : Command
config_command = record {
  menu = [];
  name = codes "config";
  aliases = codes "get" ∷ [];
  require = codes "config.read";
  handler = typed (peer_kind ∷ raw_kind ∷ []);
  on_user = false;
}

abbrev topic_command : Command
topic_command = record {
  menu = [];
  name = codes "topic";
  aliases = [];
  require = codes "hub.topic";
  handler = plain;
  on_user = false;
}

abbrev broadcast_command : Command
broadcast_command = record {
  menu = [];
  name = codes "broadcast";
  aliases = codes "hub" ∷ [];
  require = codes "hub.broadcast";
  handler = plain;
  on_user = false;
}

abbrev getip_command : Command
getip_command = record {
  menu = codes "IP" ∷ [];
  name = codes "getip";
  aliases = codes "gi" ∷ [];
  require = codes "user.ip";
  handler = typed (peer_kind ∷ peer_kind ∷ []);
  on_user = false;
}

abbrev drop_command : Command
drop_command = record {
  menu = codes "Drop" ∷ [];
  name = codes "drop";
  aliases = [];
  require = codes "user.drop";
  handler = typed (peer_kind ∷ peer_kind ∷ []);
  on_user = false;
}

abbrev banuserip_command : Command
banuserip_command = record {
  menu = codes "Ban IP" ∷ [];
  name = codes "banuserip";
  aliases = [];
  require = codes "ban.ip";
  handler = typed (peer_kind ∷ peer_kind ∷ []);
  on_user = false;
}

abbrev banip_command : Command
banip_command = record {
  menu = [];
  name = codes "banip";
  aliases = [];
  require = codes "ban.ip";
  handler = plain;
  on_user = false;
}

abbrev unbanip_command : Command
unbanip_command = record {
  menu = [];
  name = codes "unbanip";
  aliases = [];
  require = codes "ban.ip";
  handler = plain;
  on_user = false;
}

abbrev listbanip_command : Command
listbanip_command = record {
  menu = codes "Bans" ∷ codes "List IPs" ∷ [];
  name = codes "listbanip";
  aliases = codes "infoban_ipban_" ∷ [];
  require = codes "ban.ip";
  handler = plain;
  on_user = false;
}

abbrev sample_command : Command
sample_command = record {
  menu = [];
  name = codes "sample";
  aliases = [];
  require = codes "owner";
  handler = plain;
  on_user = false;
}

abbrev commands : List Command
commands =
    help_command ∷ history_command ∷ reg_command ∷ join_command ∷ leave_command ∷ rooms_command
    ∷ set_command ∷ config_command ∷ topic_command ∷ broadcast_command ∷ getip_command
    ∷ drop_command ∷ banuserip_command ∷ banip_command ∷ unbanip_command ∷ listbanip_command
    ∷ sample_command ∷ []

-- `initCommands`
unfoldable pub init_commands : Option Table
unfolding register_all
init_commands = register_all commands (record { by_name = []; names = [] })
