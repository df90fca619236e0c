-- ===== src/Hub/Adc/Session/Tests.antt =====
-- A connection of ADC that comes and goes: hub/hub_adc.go.
use go_dcpp.Adc.Packet.{msg_type, echo}
use go_dcpp.Adc.Sid.{sid_from_int}
use go_dcpp.Hub.Peers.{new_hub, peer_by_sid}
use go_dcpp.Hub.Users.Names.{Strings}
use go_dcpp.Hub.Adc.Line.{message, Line, fea_bas0, fea_tigr}
use go_dcpp.Adc.ModFeatures.{ModFeatures}
use go_dcpp.Hub.Adc.Login.{Info, Setting, Client}
use go_dcpp.Hub.Adc.Login.Traces.{alone}
use go_dcpp.Hub.Adc.Routing.{other_message, Outside}
use go_dcpp.Hub.Adc.Session.{Script, serve_adc}
use go_dcpp.Hub.Adc.Session.Ends.{IsOver, serve_adc-IsOver}
use go_dcpp.Base.{refl, true, false, none, some, [], ◌∷◌, nat_eq, list_eq, codes, lookup}

abbrev plain : Strings
plain = record { trim_space = λ b. b; runes = λ b. b; is_graphic = λ r. true; fallback = none }

-- a hub without a database
abbrev setting : Setting
setting = record {
  to_lower = λ b. b;
  hash = λ b. 9 ∷ b;
  strings = plain;
  profiles = [];
  db = none;
  commands = 0;
}

abbrev client : Client
client = record {
  sid = sid_from_int 5;
  features = none;
  secure = none;
  salt = [];
  password = message [];
}

abbrev info : Info
info = record { id = 9 ∷ 7 ∷ []; pid = 7 ∷ []; name = codes "alice"; share = 3 }

abbrev outside : Outside
outside = record {
  decode = λ name d. some other_message;
  starts_letter = λ s. true;
  itoa = λ n. n ∷ [];
}

abbrev offer : ModFeatures
offer = (fea_bas0, true) ∷ (fea_tigr, true) ∷ []

-- a client that supports all that it must, tells its info, and sends itself one packet
abbrev visit : Script
visit = record {
  support = message (some offer);
  info = message info;
  topic_sent = true;
  motd_sent = true;
  joined = true;
  packets = echo (msg_type b'M' b'S' b'G') [] client.sid client.sid ∷ [];
  ip4 = [];
  ip6 = [];
  close_error = none;
}

abbrev open_line : Line
open_line = record { oks = []; sent = [] }

serve_adc-IsOver_example :
    IsOver setting false client visit new_hub open_line
      (serve_adc setting false client alone outside visit new_hub open_line).0
unfolding peer_by_sid lookup new_hub
serve_adc-IsOver_example =
    serve_adc-IsOver setting false client outside visit new_hub open_line refl
