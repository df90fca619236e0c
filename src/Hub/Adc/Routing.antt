-- ===== src/Hub/Adc/Routing.antt =====
-- How the hub routes the packets of a peer: `adcHandlePacket`, `adcHub`, `adcBroadcast` and `adcDirect`
-- of hub/hub_adc.go. The message in a packet is what `Decode` gives, a parameter; what a handler
-- sends, starts or runs is an effect. Metrics and the log are left out.
pub mod Sources
pub mod Connect
mod Tests
use go_dcpp.Adc.Sid.{Sid, sid_eq}
use go_dcpp.Adc.Packet.{
  MsgType, Packet, info, hub, client, broadcast, direct, echo, feature_cast, udp,
}
use go_dcpp.Hub.Commands.{Text, chat, ignored, command, is_command, has_prefix}
use go_dcpp.Hub.Peers.{Peer, Hub, list_peers, peer_by_sid}
use go_dcpp.Hub.Rooms.{room_by_sid}
use go_dcpp.Hub.Search.Wire.{AdcSearch}
use go_dcpp.Hub.Search.Tokens.{AdcResult}
use go_dcpp.Base.{
  ℕ, Bool, true, false, Option, none, some, List, [], ◌∷◌, ◌++◌, if◌then◌else◌, ◌==◌, nat_eq,
  list_eq, is_some, Bytes, codes,
}

-- the messages that are told apart
pub data Message : Type 0 where
  chat_message : (text : Bytes) (me : Bool) → Message
  search_request : AdcSearch → Message
  search_result : AdcResult → Message
  connect_request : (proto : Bytes) (port : ℕ) (token : Bytes) → Message
  rev_connect_request : (proto token : Bytes) → Message
  other_message : Message

pub data Effect : Type 0 where
  -- `SendADC` of the packet to the peer with this session
  passes : Sid → Packet → Effect
  -- `SendChat` of the global chat, and of a room
  says : (text : Bytes) (me : Bool) → Effect
  says_in : (room : Sid) (text : Bytes) (me : Bool) → Effect
  -- `privateChat`, `connectReq`, `revConnectReq` and `adcHandleResult` to a peer
  whispers : Peer → Bytes → Effect
  connects : Peer → (addr token : Bytes) (secure : Bool) → Effect
  rev_connects : Peer → (token : Bytes) (secure : Bool) → Effect
  answers : Peer → AdcResult → Effect
  -- `adcHandleSearch`; the peers are `none` when they are nil
  searches : AdcSearch → Option (List Peer) → Effect
  runs_command : (cmd args : Bytes) → Effect

-- what the sender brings: its session, and the addresses in its info
pub record Sender : Type 0 where
  pub sid : Sid
  pub ip4 : Bytes
  pub ip6 : Bytes

-- the parts of `adcHandlePacket` that are elsewhere: `Decode`, the letters of package unicode, and
-- strconv.Itoa
pub record Outside : Type 0 where
  pub decode : MsgType → Bytes → Option Message
  pub starts_letter : Bytes → Bool
  pub itoa : ℕ → Bytes

-- if ip == "" { return }; ip+":"+strconv.Itoa(msg.Port)
pub address_of : Outside → Sender → ℕ → Option Bytes
address_of x from port =
    let ip = if from.ip6 == [] then from.ip4 else from.ip6 in
    if ip == [] then none else some (ip ++ b':' ∷ x.itoa port)

pub is_adc : Peer → Bool
is_adc p = is_some p.cid

-- if p2, ok := peer.(*adcPeer); ok { _ = p2.SendADC(p) }
pass_each : Packet → List Peer → List Effect
unfolding is_adc
pass_each p [] = []
pass_each p (q ∷ ps) = let rest = pass_each p ps in if is_adc q then passes q.sid p ∷ rest else rest

module _ (x : Outside) where
  run_text : Text → List Effect → List Effect
  run_text chat effects = effects
  run_text ignored effects = []
  run_text (command cmd args) effects = runs_command cmd args ∷ []

  hub_message : Option Message → List Effect
  unfolding run_text
  hub_message (some (chat_message text me)) = run_text (is_command x.starts_letter text) []
  hub_message _ = []

  -- `adcHub`
  pub adc_hub : MsgType → Bytes → List Effect
  unfolding hub_message
  adc_hub name data_of = hub_message (x.decode name data_of)

  broadcast_message : Packet → Hub → Option Message → List Effect
  unfolding run_text pass_each
  broadcast_message p h none = []
  broadcast_message p h (some (chat_message text me)) =
      run_text (is_command x.starts_letter text) (says text me ∷ [])
  broadcast_message p h (some (search_request m)) = searches m none ∷ []
  broadcast_message p h (some m) = pass_each p (list_peers h).1

  -- `adcBroadcast`
  pub adc_broadcast : MsgType → Bytes → Sid → Hub → List Effect
  unfolding broadcast_message
  adc_broadcast name data_of id h =
      broadcast_message (broadcast name data_of id) h (x.decode name data_of)

  room_message : Sid → Option Message → List Effect
  room_message r (some (chat_message text me)) = says_in r text me ∷ []
  room_message r _ = []

  abbrev secure_proto : Bytes → Bool
  secure_proto proto = has_prefix proto (codes "ADCS")

  peer_message : Sender → Packet → Peer → Option Message → List Effect
  unfolding is_adc address_of
  peer_message from p q none = []
  peer_message from p q (some (chat_message text me)) = whispers q text ∷ []
  peer_message from p q (some (connect_request proto port token)) = elim (address_of x from port) [
    | none ↦ []
    | some addr ↦ connects q addr token (secure_proto proto) ∷ []
  ]
  peer_message from p q (some (rev_connect_request proto token)) =
      rev_connects q token (secure_proto proto) ∷ []
  peer_message from p q (some (search_request m)) = searches m (some (q ∷ [])) ∷ []
  peer_message from p q (some (search_result r)) = answers q r ∷ []
  peer_message from p q (some other_message) = if is_adc q then passes q.sid p ∷ [] else []

  -- `adcDirect`
  pub adc_direct : Sender → MsgType → Bytes → Sid → Sid → Hub → List Effect
  unfolding room_message peer_message
  adc_direct from name data_of id target h = elim (peer_by_sid target h) [
    | some q ↦ peer_message from (direct name data_of id target) q (x.decode name data_of)
    | none ↦ elim (room_by_sid target h.rooms) [
      | none ↦ []
      | some r ↦ room_message r (x.decode name data_of)
    ]
  ]

  -- an error, by which the hub closes the connection, and the effects
  abbrev pub Handled : Type 0
  Handled = Bool × List Effect

  checked : Bool → List Effect → Handled
  checked true effects = (false, effects)
  checked false effects = (true, [])

  -- `adcHandlePacket`, for a peer that is online; a packet of another kind is written to the log
  pub handle_packet : Sender → Packet → Hub → Handled
  unfolding adc_hub adc_broadcast adc_direct checked
  handle_packet from (broadcast name data_of id) h =
      checked (from.sid == id) (adc_broadcast name data_of id h)
  handle_packet from (feature_cast name data_of id features) h =
      checked (from.sid == id) (adc_broadcast name data_of id h)
  handle_packet from (echo name data_of id target) h =
      checked (from.sid == id)
        (passes from.sid (echo name data_of id target) ∷ adc_direct from name data_of id target h)
  handle_packet from (direct name data_of id target) h =
      checked (from.sid == id) (adc_direct from name data_of id target h)
  handle_packet from (hub name data_of) h = (false, adc_hub name data_of)
  handle_packet from (client name data_of) h = (true, [])
  handle_packet from (udp name data_of cid) h = (true, [])
  handle_packet from (info name data_of) h = (false, [])
