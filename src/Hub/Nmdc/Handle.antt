-- ===== src/Hub/Nmdc/Handle.antt =====
-- The messages of a peer of NMDC: `nmdcHandle` of hub/hub_nmdc.go. What it sends, starts or runs is an
-- effect. Messages are given by the fields that it looks at; metrics and the log are left out.
pub mod Own
use go_dcpp.Adc.Sid.{Sid, sid_eq}
use go_dcpp.Hub.Commands.{Text, chat, ignored, command, is_command}
use go_dcpp.Hub.Peers.{Peer, Hub, list_peers, peer_by_name}
use go_dcpp.Hub.Rooms.{room, has_hash}
use go_dcpp.Hub.Search.{Tth, SearchRequest, tth_search}
use go_dcpp.Hub.Nmdc.Chat.{parse_me}
use go_dcpp.Hub.Nmdc.Search.{SearchMessage, Asked, panics, asks, of_nmdc}
use go_dcpp.Hub.Nmdc.Search as Search
use go_dcpp.Base.{
  ℕ, ◌+◌, ◌-◌, ◌*◌, Bool, true, false, not, ◌&&◌, Option, none, some, List, [], ◌∷◌, ltb, leb,
  if◌then◌else◌, ◌==◌, nat_eq, list_eq, Bytes,
}

-- `nmdcp.SR`
pub record Result : Type 0 where
  pub from : Bytes
  pub to : Bytes
  pub path : List Bytes
  pub is_dir : Bool
  pub size : ℕ
  pub tth : Option Tth

pub data Message : Type 0 where
  chat_message : (name text : Bytes) → Message
  get_nick_list : Message
  -- `active` is whether the kind is CTMActive
  connect_to_me : (targ address src : Bytes) (active secure : Bool) → Message
  rev_connect_to_me : (from to : Bytes) → Message
  private_message : (from name to text : Bytes) → Message
  search : SearchMessage → Message
  tth_active : (address : Bytes) → Tth → Message
  tth_passive : (user : Bytes) → Tth → Message
  result : Result → Message
  -- `client` stands for the name and version of the client
  my_info : (name client : Bytes) → Message
  other_message : Message

pub data Effect : Type 0 where
  runs_command : (cmd args : Bytes) → Effect
  -- `SendChat` of the global chat and of a room, and `privateChat`
  says : (name text : Bytes) (me : Bool) → Effect
  says_in : (in_room : Sid) (name text : Bytes) (me : Bool) → Effect
  whispers : Peer → (name text : Bytes) (me : Bool) → Effect
  -- `PeersJoin` of the peer itself
  lists : List Peer → Effect
  -- `connectReq`, `revConnectReq` (less whether the peer has TLS), and ConnectToMe as it came
  connects : Peer → (address : Bytes) (secure : Bool) → Effect
  rev_connects : Peer → Effect
  traverses : Peer → (address src : Bytes) → Effect
  searches : SearchRequest → Effect
  -- the nil TTH of a search is read
  crashes : Effect
  -- `nmdcHandleResult`
  answers : Peer → Result → Effect
  -- `SetInfo`, and the notice to the others
  updates : (name client : Bytes) → Effect

-- why an error is returned
pub data Problem : Type 0 where
  not_own_name not_own_address masquerade : Problem

pub data Handled : Type 0 where
  done : List Effect → Handled
  refused : Problem → Handled

-- the peer whose messages they are: `client` as in its info, and whether it supports SP
pub record Self : Type 0 where
  pub sid : Sid
  pub name : Bytes
  pub ip : Bytes
  pub client : Bytes
  pub has_tths : Bool

-- what is elsewhere: net.SplitHostPort, the letters of package unicode, strings.TrimSpace, strings.ToLower;
-- and which peers are of NMDC
pub record Outside : Type 0 where
  pub split_host_port : Bytes → Option (Bytes × Bytes)
  pub starts_letter : Bytes → Bool
  pub trim : Bytes → Bytes
  pub to_lower : Bytes → Bytes
  pub is_nmdc : Peer → Bool

-- strconv.ParseUint of base 10: the number of the digits, after `acc`
digits : Bytes → ℕ → Option ℕ
digits [] acc = some acc
digits (c ∷ s) acc =
    let rest = digits s (acc * 10 + (c - b'0')) in if leb b'0' c && leb c b'9' then rest else none

-- whether strconv.ParseUint takes a port of 16 bits
unfoldable pub is_port : Bytes → Bool
unfolding digits
is_port [] = false
is_port (c ∷ s) = elim (digits (c ∷ s) 0) [ none ↦ false | some n ↦ ltb n 65536 ]

module _ (x : Outside) (self : Self) where
  verify_parts : Option (Bytes × Bytes) → Bool
  verify_parts none = false
  verify_parts (some (host, port)) = is_port port && host == self.ip

  -- `verifyAddr`: whether there is no error
  pub verify_addr : Bytes → Bool
  unfolding verify_parts
  verify_addr addr = verify_parts (x.split_host_port addr)

  -- if !test { return err }
  unless : Bool → Problem → List Effect → Handled
  unless true e effects = done effects
  unless false e effects = refused e

  -- targ == nil || targ == peer
  other_than_self : Option Peer → Option Peer
  other_than_self none = none
  other_than_self (some q) = if q.sid == self.sid then none else some q

  run_text : Text → List Effect → List Effect
  run_text chat effects = effects
  run_text ignored effects = []
  run_text (command cmd args) effects = runs_command cmd args ∷ []

  asked : Asked → List Effect
  asked Search.ignored = []
  asked panics = crashes ∷ []
  asked (asks r) = searches r ∷ []

  -- `nmdcHandleSearch`
  handle_search : SearchMessage → List Effect
  unfolding asked
  handle_search m = asked (of_nmdc x.trim self.has_tths m)

  search_from : SearchMessage → Handled
  unfolding unless handle_search verify_addr
  search_from m =
      if not (m.address == [])
      then unless (verify_addr m.address) not_own_address (handle_search m)
      else if not (m.user == [])
      then unless (m.user == self.name) not_own_name (handle_search m)
      else done (handle_search m)

  -- ConnectToMe from behind NAT: p2.SendNMDC(msg)
  traverse : Peer → Bytes → Bytes → List Effect
  traverse q address src = if x.is_nmdc q then traverses q address src ∷ [] else []

  -- ConnectToMe with an address that is verified
  connect_by : Bool → Peer → Bytes → Bytes → Bool → Handled
  unfolding traverse
  connect_by true q address src secure = done (connects q address secure ∷ [])
  connect_by false q address src secure =
      if not (src == []) && not (src == self.name)
      then refused not_own_name
      else done (traverse q address src)

  -- ConnectToMe, once the target is found
  connect : Option Peer → Bytes → Bytes → Bool → Bool → Handled
  unfolding verify_addr connect_by
  connect none address src active secure = done []
  connect (some q) address src active secure =
      if not (verify_addr address)
      then refused not_own_address
      else connect_by active q address src secure

  -- a message to a room or to a peer
  send_to : Bytes → Bytes → Bool × Bytes → Hub → List Effect
  send_to to name (me, text) h =
      if has_hash to
      then elim (room to h.rooms) [ none ↦ [] | some r ↦ says_in r name text me ∷ [] ]
      else elim (peer_by_name x.to_lower to h) [ none ↦ [] | some q ↦ whispers q name text me ∷ [] ]

  said : Bytes → Bool × Bytes → List Effect
  said name (me, text) = says name text me ∷ []

  reversed : Option Peer → List Effect
  reversed none = []
  reversed (some q) = rev_connects q ∷ []

  answered : Option Peer → Result → List Effect
  answered none r = []
  answered (some q) r = answers q r ∷ []

  -- `nmdcHandle`
  pub nmdc_handle : Message → Hub → Handled
  unfolding unless other_than_self run_text handle_search search_from connect send_to said reversed
      answered verify_addr
  nmdc_handle (chat_message name text) h =
      unless (name == self.name) not_own_name
        (run_text (is_command x.starts_letter text) (said name (parse_me text)))
  nmdc_handle get_nick_list h = done (lists (list_peers h).1 ∷ [])
  nmdc_handle (connect_to_me targ address src active secure) h =
      connect (other_than_self (peer_by_name x.to_lower targ h)) address src active secure
  nmdc_handle (rev_connect_to_me from to) h =
      unless (from == self.name) not_own_name
        (reversed (other_than_self (peer_by_name x.to_lower to h)))
  nmdc_handle (private_message from name to text) h =
      unless (from == self.name && name == self.name) not_own_name
        (send_to to from (parse_me text) h)
  nmdc_handle (search m) h = search_from m
  nmdc_handle (tth_active address tth) h =
      unless (verify_addr address) not_own_address (searches (tth_search tth) ∷ [])
  nmdc_handle (tth_passive user tth) h =
      unless (user == self.name) not_own_name (searches (tth_search tth) ∷ [])
  nmdc_handle (result r) h =
      unless (r.from == self.name) not_own_name (answered (peer_by_name x.to_lower r.to h) r)
  nmdc_handle (my_info name client) h =
      if not (name == self.name)
      then refused not_own_name
      else unless (client == self.client) masquerade (updates name client ∷ [])
  nmdc_handle other_message h = done []
