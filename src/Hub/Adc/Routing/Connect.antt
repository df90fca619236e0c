-- ===== src/Hub/Adc/Routing/Connect.antt =====
-- Requests to connect that hub/hub_adc.go passes from one peer to another: `adcDirect` builds an address,
-- which `adcPeer.ConnectTo` takes apart. `split_host_port` is net.SplitHostPort, and `host_of` tells
-- whether net.ParseIP accepts the host, and whether To4 has it as an IPv4 address.
use go_dcpp.Hub.Adc.Routing.{Sender, Outside, address_of}
use go_dcpp.Base.{
  ℕ, ◌+◌, ◌≤◌, ◌≡◌, ◌≢◌, Bool, true, false, Option, none, some, [], ◌∷◌, ◌++◌, arith, if◌then◌else◌,
  ◌==◌, nat_eq, ==_iff, list_eq, Bytes, codes,
}

pub data Family : Type 0 where
  ipv4 ipv6 : Family

-- What `ConnectTo` sends to its peer: an update of the address of the other, and a ConnectRequest.
pub record Connection : Type 0 where
  pub family : Family
  pub host : Bytes
  pub proto : Bytes
  pub port : ℕ
  pub token : Bytes

-- ProtoADC and ProtoADCS of adc/proto.go
abbrev pub proto_of : Bool → Bytes
proto_of true = codes "ADCS/0.10"
proto_of false = codes "ADC/1.0"

module _ (split_host_port : Bytes → Option (Bytes × Bytes)) (atoi : Bytes → Option ℕ)
    (host_of : Bytes → Option Family) where
  to_connection : Bytes → Bool → Option (Bytes × Bytes) → Option Connection
  to_connection token secure none = none
  to_connection token secure (some (host, port)) = elim (atoi port) [
    | none ↦ none
    | some n ↦ elim (host_of host) [
      | none ↦ none
      | some family ↦ some (record {
        family = family;
        host = host;
        proto = proto_of secure;
        port = n;
        token = token;
      })
    ]
  ]

  -- `ConnectTo`, for a peer that is online
  pub connect_to : Bytes → Bytes → Bool → Option Connection
  unfolding to_connection
  connect_to addr token secure = to_connection token secure (split_host_port addr)

-- the colons of a text
unfoldable pub colons : Bytes → ℕ
colons [] = 0
colons (c ∷ s) = if c == b':' then colons s + 1 else colons s

colons-append : (s t : Bytes) → colons (s ++ t) ≡ colons s + colons t
unfolding colons
colons-append [] t = ground arith
colons-append (c ∷ s) t = ground (arith, colons-append s t)

-- As its documentation says, `split_host_port` takes a host without colons and a port apart, and refuses
-- an address with more colons than one whose host is not in brackets.
pub record IsSplitter (split_host_port : Bytes → Option (Bytes × Bytes)) : Type 0 where
  pub plain :
      (host port : Bytes)
      → colons host ≡ 0
      → colons port ≡ 0
      → split_host_port (host ++ b':' ∷ port) ≡ some (host, port)
  pub too_many :
      (c : ℕ) (s : Bytes) → c ≢ b'[' → 2 ≤ colons (c ∷ s) → split_host_port (c ∷ s) ≡ none

module _ (split_host_port : Bytes → Option (Bytes × Bytes)) (atoi : Bytes → Option ℕ)
    (host_of : Bytes → Option Family) (splits : IsSplitter split_host_port) (x : Outside) where
  -- A request to connect reaches its peer with the address and the port of the sender, if that has an
  -- IPv4 address only, which is valid; Itoa and Atoi are taken as inverse, and a number has no colon.
  pub connect_to-address_of :
      (from : Sender) (port : ℕ) (token : Bytes) (secure : Bool)
      → from.ip6 ≡ []
      → from.ip4 ≢ []
      → colons from.ip4 ≡ 0
      → host_of from.ip4 ≡ some ipv4
      → colons (x.itoa port) ≡ 0
      → atoi (x.itoa port) ≡ some port
      → (addr : Bytes) × (address_of x from port ≡ some addr)
        × (connect_to split_host_port atoi host_of addr token secure
            ≡ some (record {
              family = ipv4;
              host = from.ip4;
              proto = proto_of secure;
              port = port;
              token = token;
            }))
  unfolding connect_to to_connection address_of
  connect_to-address_of from port token secure no_ip6 has_ip4 no_colon valid no_colon' inverse = (
    from.ip4 ++ b':' ∷ x.itoa port,
    ground (arith, ==_iff from.ip6 [], ==_iff from.ip4 []),
    ground (arith, splits.plain from.ip4 (x.itoa port) no_colon no_colon'),
  )

  -- A request to connect from a peer that has an IPv6 address, which is not in brackets and has a colon, never
  -- reaches its peer: the address has too many colons.
  pub connect_to_ipv6 :
      (from : Sender) (c : ℕ) (s : Bytes) (port : ℕ) (token : Bytes) (secure : Bool)
      → from.ip6 ≡ c ∷ s
      → c ≢ b'['
      → 1 ≤ colons (c ∷ s)
      → (addr : Bytes) × (address_of x from port ≡ some addr)
        × (connect_to split_host_port atoi host_of addr token secure ≡ none)
  unfolding connect_to to_connection address_of colons
  connect_to_ipv6 from c s port token secure is bare has_colon = (
    c ∷ s ++ b':' ∷ x.itoa port,
    ground (arith, ==_iff from.ip6 [], ==_iff (c ∷ s ++ b':' ∷ x.itoa port) []),
    ground (
      arith,
      splits.too_many c (s ++ b':' ∷ x.itoa port) bare,
      colons-append (c ∷ s) (b':' ∷ x.itoa port),
    ),
  )
