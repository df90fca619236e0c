-- ===== src/Hub/Adc/Session.antt =====
-- A connection of ADC from its start to its end: `ServeADC`, `adcHandshake` and `adcServePeer` of
-- hub/hub_adc.go. The texts of the topic and of the message of the day, the replay of the chat, the writer of
-- the queue and what is sent to the peer in the meantime are left out.
pub mod Ends
mod Tests
use go_dcpp.Adc.ModFeatures.{ModFeatures}
use go_dcpp.Adc.Packet.{Packet}
use go_dcpp.Hub.Peers.{Hub}
use go_dcpp.Hub.Adc.Line.{Read, message, Line, Agreed, agreed, refused, stage_protocol}
use go_dcpp.Hub.Adc.Login.{Info, Setting, Client, Others, Outcome, stage_identity, peer_of}
use go_dcpp.Hub.Adc.Routing.{Effect, Sender, Outside, handle_packet}
use go_dcpp.Hub.Bots.{adc_close, ConnError}
use go_dcpp.Base.{Bool, false, not, Option, none, some, List, [], ◌∷◌, ◌++◌, if◌then◌else◌, Bytes}

-- What comes from the client: its features, its info, and its packets up to the end of the connection;
-- `topic_sent` and `motd_sent` tell whether `HubChatMsg` of the topic and `sendMOTD` give no error, `joined` is
-- what the hooks of `callOnJoined` say, `ip4` and `ip6` are addresses in the info.
pub record Script : Type 0 where
  pub support : Read (Option ModFeatures)
  pub info : Read Info
  pub topic_sent : Bool
  pub motd_sent : Bool
  pub joined : Bool
  pub packets : List Packet
  pub ip4 : Bytes
  pub ip6 : Bytes
  pub close_error : Option ConnError

-- The loop of `adcServePeer`, over the states that the hub has when a packet comes: up to the first
-- packet that `adcHandlePacket` refuses.
pub serve_packets : Outside → Sender → List Packet → Hub → List Effect
serve_packets x from [] h = []
serve_packets x from (p ∷ ps) h =
    let rest = serve_packets x from ps h in
    let (failed, effects) = handle_packet x from p h in if failed then effects else effects ++ rest

-- `adcServePeer`
pub serve_peer : Outside → Client → Script → Hub → List Effect
unfolding serve_packets
serve_peer x c t h =
    if t.joined
    then serve_packets x (record { sid = c.sid; ip4 = t.ip4; ip6 = t.ip6 }) t.packets h
    else []

module _ (s : Setting) (c : Client) (o : Others) (x : Outside) where
  -- When the handshake has given a peer, it is closed after it is served, or when the topic or the message of the
  -- day cannot be sent.
  pub closed : Script → Info → Outcome → Hub × List Effect
  unfolding serve_peer
  closed t u r = elim r.failure [
    | some f ↦ (r.hub, [])
    | none ↦
        let h = (adc_close s.to_lower (peer_of s c u) u.id u.share t.close_error false r.hub).0.1 in
        if not t.topic_sent
        then (h, [])
        else if not t.motd_sent
        then (h, [])
        else (h, serve_peer x c t r.hub)
  ]

  pub identified : Script → Read Info → Hub → Line → Hub × List Effect
  unfolding closed
  identified t (message u) h l = closed t u (stage_identity s c o (message u) h l)
  identified t r h l = ((stage_identity s c o r h l).hub, [])

-- after the first stage, that tells the features that both sides support
pub started : Setting → Client → Others → Outside → Script → Hub → Line → Agreed → Hub × List Effect
unfolding identified
started s c o x t h l (refused f) = (h, [])
started s c o x t h l (agreed shared) =
    identified s (record c { features = shared }) o x t t.info h l

-- `ServeADC`
pub serve_adc : Setting → Bool → Client → Others → Outside → Script → Hub → Line → Hub × List Effect
unfolding started
serve_adc s zlib c o x t h l =
    let (l', r) = stage_protocol zlib c.sid t.support l in started s c o x t h l' r
