-- ===== src/Hub/Adc/Routing/Tests.antt =====
-- Packets that hub/hub_adc.go routes.
use go_dcpp.Adc.Packet.{msg_type, Packet, echo}
use go_dcpp.Hub.Peers.Tests.{lower, bob, bob_hub, bob_connects, find_bob}
use go_dcpp.Hub.Adc.Routing.{other_message, is_adc, Sender, Outside, address_of, handle_packet}
use go_dcpp.Hub.Adc.Routing.Sources.{IsFair, handle_packet-IsFair}
use go_dcpp.Hub.Adc.Routing.Connect.{
  Family, ipv4, connect_to, colons, IsSplitter, connect_to-address_of,
}
use go_dcpp.Base.{
  ℕ, ◌≤◌, ◌≡◌, refl, true, Option, none, some, [], ◌∷◌, ◌++◌, arith, if◌then◌else◌, ◌==◌, nat_eq,
  list_eq, is_some, Bytes, codes, All,
}

-- every message is of another kind, every byte is a letter, and ports are written as one byte
abbrev outside : Outside
outside = record {
  decode = λ name d. some other_message;
  starts_letter = λ s. true;
  itoa = λ n. n ∷ [];
}

abbrev from_bob : Sender
from_bob = record { sid = bob.sid; ip4 = codes "1.2.3.4"; ip6 = [] }

abbrev ping : Packet
ping = echo (msg_type b'M' b'S' b'G') [] bob.sid bob.sid

handle_packet-IsFair_example :
    All (IsFair bob_hub bob.sid) (handle_packet outside from_bob ping bob_hub).1
unfolding is_adc is_some
handle_packet-IsFair_example =
    handle_packet-IsFair lower outside bob_hub bob_connects from_bob ping bob find_bob.1 refl

-- an address split at its only colon
abbrev split_once : Bytes → Option (Bytes × Bytes)
split_once [] = none
split_once (c ∷ s) =
    let rest = split_once s in
    if c == b':'
    then if colons s == 0 then some ([], s) else none
    else elim rest [ none ↦ none | some (host, port) ↦ some (c ∷ host, port) ]

split_plain :
    (host port : Bytes)
    → colons host ≡ 0
    → colons port ≡ 0
    → split_once (host ++ b':' ∷ port) ≡ some (host, port)
unfolding colons
split_plain [] port e f = ground arith
split_plain (c ∷ host) port e f = ground (arith, split_plain host port)

split_too_many : (s : Bytes) → 2 ≤ colons s → split_once s ≡ none
unfolding colons
split_too_many [] e = ground arith
split_too_many (c ∷ s) e = ground (arith, split_too_many s)

split_once-IsSplitter : IsSplitter split_once
split_once-IsSplitter = record {
  plain = split_plain;
  too_many = λ c s bare many. split_too_many (c ∷ s) many;
}

-- a port of one byte, and a host that is IPv4
abbrev atoi : Bytes → Option ℕ
atoi [] = none
atoi (c ∷ s) = some c

abbrev host_of : Bytes → Option Family
host_of s = some ipv4

connect_to-address_of_example :
    (addr : Bytes) × (address_of outside from_bob 80 ≡ some addr)
    × (connect_to split_once atoi host_of addr [] true
        ≡ some (record {
          family = ipv4;
          host = codes "1.2.3.4";
          proto = codes "ADCS/0.10";
          port = 80;
          token = [];
        }))
unfolding colons
connect_to-address_of_example =
    connect_to-address_of split_once atoi host_of split_once-IsSplitter outside from_bob 80 [] true
      refl (λ e. ground arith) refl refl refl refl
