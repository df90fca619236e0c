-- ===== src/Lib.antt =====
-- A verification library for the core of the go-dcpp hub: the packets of ADC, how the hub finds the
-- protocol of a connection, lets clients of ADC and NMDC in and routes their packets, messages and
-- searches, the state of the hub (peers, rooms, chat history, profiles, bans, registered users),
-- its database and its settings.
--
-- The parts and how they meet. The first bytes of a connection tell its protocol. A connection of
-- ADC reads lines; `DecodePacket` makes packets of them, and `MarshalPacket` lines of packets; one
-- of NMDC reads messages. A handshake reserves a name, and a CID with ADC, the hub accepts the peer
-- into its indexes and into the global chat, and takes it out again when it leaves. Rooms keep
-- their members and the last messages. Profiles give the users their permissions, bans keep
-- addresses out, and the database keeps users, profiles and bans. The settings say how the hub
-- presents itself.
--
-- Which file is about which code, as paths from the root of the repository:
--   Adc/Sid.antt             adc/types/types.go: SID, SIDFromInt; Adc/Sid/Distinct.antt: when two
--                            integers have one identifier
--   Adc/Escape.antt          adc/codec.go: escape, unescape
--   Adc/Feature.antt         adc/proto.go: Feature; Adc/ModFeatures.antt: ModFeatures
--   Adc/Packet.antt          adc/packets.go: DecodePacket and the UnmarshalPacket methods;
--                            Adc/Packet/Marshal.antt: the MarshalPacket methods, with the wire form in
--                            Marshal/Wire.antt; RoundTrip.antt and Accepts.antt: what is read back
--                            and what is accepted
--   Hub/ChatLog.antt         hub/room.go: chatBuffer; ChatLog/Window.antt, ChatLog/Ring.antt and
--                            ChatLog/History.antt
--   Hub/Chat.antt            hub/room.go: SendChat and ReplayChat, and hub/events.go: callOnChat;
--                            Chat/Replay.antt
--   Hub/Rooms.antt           hub/room.go, with leaveRooms and nextSID of hub/hub.go and cmdRooms of
--                            hub/cmds.go; Rooms/Membership.antt and Rooms/Naming.antt
--   Hub/Peers.antt           hub/hub.go: the peers of the hub, with what hub/hub_adc.go adds for
--                            CIDs; Peers/Index.antt, Peers/Chat.antt: the invariants;
--                            Peers/Agree.antt: each call keeps them; Peers/Steps.antt: the steps of
--                            the hub; Peers/Reach.antt and Peers/Listed.antt: what
--                            holds in every state that they lead to
--   Hub/Profiles.antt        hub/profiles.go and the permission tests of hub/users.go;
--                            Profiles/Chain.antt, Profiles/Load.antt and Load/Circle.antt
--   Hub/Bans.antt            hub/ip_filter.go; Bans/Violations.antt, Bans/Blocks.antt and
--                            Bans/Load.antt: loadBans
--   Hub/Users.antt           hub/users.go: memDB and the operations of the hub on its users;
--                            Users/Records.antt and Users/Names.antt
--   Hub/Database.antt        hub/hubdb/hubdb.go: the values in the tables and the laws of the tables,
--                            with an instance in Database/Listed.antt; Database/Users.antt: users,
--                            Users/Agree.antt and Users/Refine.antt: against memDB;
--                            Database/Bans.antt: bans and profiles, Bans/Kept.antt and
--                            Bans/Restart.antt
--   Hub/Serve.antt           hub/hub.go: serve, and hub/peek_conn.go; Serve/Protocols.antt and
--                            Serve/Peeking.antt
--   Hub/Adc/Line.antt        hub/hub_adc.go: the connection and adcStageProtocol; Line/Protocol.antt
--   Hub/Adc/Login.antt       hub/hub_adc.go: adcStageIdentity and adcStageVerify; Login/Verify.antt,
--                            Login/Outcomes.antt, Login/Traces.antt, Login/Locked.antt and
--                            Login/Steps.antt: who passes,
--                            and what a handshake does to the peers of the hub
--   Hub/Adc/Session.antt     hub/hub_adc.go: ServeADC, adcHandshake and adcServePeer, over the states
--                            that the hub has meanwhile; Session/Ends.antt: how a connection ends
--   Hub/Adc/Routing.antt     hub/hub_adc.go: adcHandlePacket and what it calls; Routing/Sources.antt:
--                            who gets a packet; Routing/Connect.antt: adcPeer.ConnectTo
--   Hub/Adc/Users.antt        hub/hub_adc.go: UserInfo and adc.User, with Normalize of
--                            adc/messages.go; Users/Infos.antt
--   Hub/Nmdc/Line.antt       hub/hub_nmdc.go: the connection as code with errors over a conversation, and
--                            nmdcLock; Line/Along.antt: what holds along such code
--   Hub/Nmdc/Login.antt      hub/hub_nmdc.go: nmdcAccept; Login/Accept.antt and Login/Knows.antt
--   Hub/Nmdc/Handshake.antt  hub/hub_nmdc.go: nmdcHandshake; Handshake/Like.antt and
--                            Handshake/Ends.antt: what it leaves; Handshake/Verify.antt: who gets in
--   Hub/Nmdc/Handle.antt     hub/hub_nmdc.go: nmdcHandle; Handle/Own.antt: in whose name it acts
--   Hub/Nmdc/Serve.antt      hub/hub_nmdc.go: nmdcServePeer; Serve/Flood.antt: its limits
--   Hub/Nmdc/Chat.antt       hub/hub_nmdc.go: chat, rooms and connections to a peer of NMDC
--   Hub/Nmdc/Search.antt     hub/hub_nmdc.go: searches in the form of NMDC; Search/Words.antt and
--                            Search/Back.antt
--   Hub/Nmdc/Runs.antt       hub/hub_nmdc.go: the searches that a peer has been asked, and their
--                            results; Runs/Lost.antt and Runs/Again.antt
--   Hub/Search.antt          hub/search.go; Search/Wire.antt and Search/Tokens.antt: searches and
--                            their results in hub/hub_adc.go; Search/Matching.antt and
--                            Search/Tokens/Kept.antt
--   Hub/Commands.antt        hub/cmds.go and hub/strconv.go: which texts are commands; Commands/Arguments.antt how
--                            arguments are read, Commands/Table.antt which commands there are and
--                            who may run them, Commands/Run.antt what some of them do
--   Hub/Bots.antt            hub/bots.go, with closeWith of hub/peer.go; Bots/Closing.antt
--   Hub/Config.antt          hub/config.go; Config/Lookup.antt, Config/Numbers.antt and
--                            Config/Merge.antt
--   Base.antt                names that the others share: tests, lists, maps, integers
-- The modules named Tests apply theorems at concrete inputs.
--
-- How code is modelled. A struct is a record and a map an association list; the code's iteration
-- order is unspecified, and the order of the list is one such order. A call that holds a lock is one
-- step. Strings and byte slices are lists of bytes. An error is a value, and so is a panic where one
-- can happen. A w-bit integer has its wrap-around written out; an int64 is an integer, or its two's
-- complement where it is added to. Pointers to peers and rooms are their session identifiers or
-- records that do not change. The loops that walk up the parents of a profile have fuel: `none` means
-- that the loop has not ended, and more fuel than there are profiles on the chain is enough.
--
-- The states of the hub are those that its steps lead to from `NewHub`: a peer is accepted under a name
-- that is reserved and with a session that no connected peer has, and only a connected peer leaves.
--
-- The connection of a handshake is a list that tells which of its actions succeed, and the packets of the
-- client are given as they are read and decoded. What others do to the hub meanwhile is a function, about
-- which a theorem says what it assumes. A wait of TLS or of the store has no length.
--
-- Parameters, for code of other packages: the store of tuples with its documented laws, package
-- json, the tiger hash, net.SplitHostPort with its documented laws, the base32 form of a CID,
-- strings.ToLower for the names of peers, strconv, fmt and floats for the settings, strconv,
-- package time and net.ParseIP for the arguments of commands, and package unicode and the fallback
-- encoding for the names of users.
--
-- Not modelled: connections, TLS, HTTP and IRC, which are input and output; the codec of ADC
-- messages, which is reflection over struct tags, so that a decoded message is an input; the
-- messages of NMDC, which are of another package, and of which the fields that the code looks at
-- are inputs; the broadcasts to peers, the metrics and the log; plugins, the migration of the
-- database, and the command lines.
pub mod Base
pub mod Adc
pub mod Hub
