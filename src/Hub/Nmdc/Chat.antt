-- ===== src/Hub/Nmdc/Chat.antt =====
-- Messages to a peer of NMDC: `ChatMsg`, `PrivateMsg`, `JoinRoom` and the like of hub/hub_nmdc.go, and the
-- texts that begin with /me, which `nmdcHandle` reads. A method gives the messages that it passes to
-- `SendNMDC`, `none` when the connection is closed.
use go_dcpp.Hub.Commands.{has_prefix}
use go_dcpp.Hub.Chat.{Message}
use go_dcpp.Base.{
  ℕ, ◌≡◌, Bool, true, false, not, ◌&&◌, Option, none, some, List, [], ◌∷◌, ◌++◌, arith,
  if◌then◌else◌, ◌==◌, nat_eq, list_eq, Bytes, codes, drop,
}

pub data Command : Type 0 where
  chat_message : (name text : Bytes) → Command
  private_message : (from name to text : Bytes) → Command
  room_info : (name : Bytes) (users : ℕ) → Command
  op_list : List Bytes → Command
  quit : Bytes → Command
  hub_topic : Bytes → Command
  connect_to_me : (targ address : Bytes) (secure : Bool) → Command
  rev_connect_to_me : (from to : Bytes) → Command

-- `SendNMDC`
pub send_nmdc : Bool → List Command → Option (List Command)
send_nmdc online l = if online then some l else none

abbrev pub me_word : Bytes
me_word = codes "/me"

-- the message that `nmdcHandle` makes of a text: whether it is an action, and the rest of the text
unfoldable pub parse_me : Bytes → Bool × Bytes
parse_me text =
    if text == me_word
    then (true, [])
    else if has_prefix text (codes "/me ")
    then (true, drop 4 text)
    else (false, text)

-- if msg.Me && !strings.HasPrefix(msg.Text, "/me") { msg.Text = "/me " + msg.Text }
unfoldable pub with_me : Bool → Bytes → Bytes
with_me me text = if me && not (has_prefix text me_word) then codes "/me " ++ text else text

-- `ToNMDCChatMsg`: the name and the text
unfoldable pub to_nmdc_chat : Bytes → Message → Bytes × Bytes
unfolding with_me
to_nmdc_chat from_name m = (if m.name == [] then from_name else m.name, with_me m.me m.text)

-- what a method knows of the peer that it is called on
pub record Receiver : Type 0 where
  pub online : Bool
  pub name : Bytes

-- `ChatMsg`; the room is `none` when it is nil, and `is_self` tells whether the message is the peer's own
pub chat_msg : Receiver → Option Bytes → Bool → Bytes → Message → Option (List Command)
unfolding send_nmdc
chat_msg p room is_self from_name m =
    let (name, text) = to_nmdc_chat from_name m in
    if not p.online then none else elim room [
      | none ↦ send_nmdc p.online (chat_message name text ∷ [])
      | some [] ↦ send_nmdc p.online (chat_message name text ∷ [])
      | some (r ∷ rs) ↦
          if is_self
          then some []
          else send_nmdc p.online (private_message (r ∷ rs) name p.name text ∷ [])
    ]

-- `PrivateMsg`
pub private_msg : Receiver → Message → Option (List Command)
unfolding send_nmdc
private_msg p m =
    if not p.online
    then none
    else send_nmdc p.online (private_message m.name m.name p.name (with_me m.me m.text) ∷ [])

-- `HubChatMsg`
pub hub_chat_msg : Receiver → Bytes → Message → Option (List Command)
unfolding send_nmdc
hub_chat_msg p hub_name m =
    if not p.online
    then none
    else send_nmdc p.online
        (chat_message (if m.name == [] then hub_name else m.name) (with_me m.me m.text) ∷ [])

-- `Topic`
pub topic : Receiver → Bytes → Option (List Command)
unfolding send_nmdc
topic p text = send_nmdc p.online (hub_topic text ∷ [])

-- `JoinRoom`, of a room with a name and a number of users
pub join_room : Receiver → Bytes → ℕ → Option (List Command)
unfolding send_nmdc
join_room p rname users =
    if not p.online
    then none
    else if rname == []
    then some []
    else send_nmdc p.online (
        room_info rname users
        ∷ op_list (rname ∷ [])
        ∷ private_message rname rname p.name (codes "/me joined")
        ∷ [])

-- `LeaveRoom`
pub leave_room : Receiver → Bytes → Option (List Command)
unfolding send_nmdc
leave_room p rname =
    if not p.online
    then none
    else if rname == []
    then some []
    else send_nmdc p.online
        (private_message rname rname p.name (codes "/me parted") ∷ quit rname ∷ [])

-- `ConnectTo`
pub connect_to : Receiver → Bytes → Bytes → Bool → Option (List Command)
unfolding send_nmdc
connect_to p peer_name addr secure =
    if not p.online then none else send_nmdc p.online (connect_to_me peer_name addr secure ∷ [])

-- `RevConnectTo`
pub rev_connect_to : Receiver → Bytes → Option (List Command)
unfolding send_nmdc
rev_connect_to p peer_name =
    if not p.online then none else send_nmdc p.online (rev_connect_to_me peer_name p.name ∷ [])

abbrev prefixed : Bytes → Bool
prefixed text = has_prefix text (codes "/me /me")

-- The text of a chat message as it comes out for the other peers of NMDC: it is the text that was sent,
-- but that a bare /me gets a space, and that of two /me in a row the first is lost.
pub with_me-parse_me :
    (text : Bytes)
    → with_me (parse_me text).0 (parse_me text).1
      ≡ (if text == me_word then codes "/me " else if prefixed text then drop 4 text else text)
unfolding with_me parse_me has_prefix
with_me-parse_me [] = ground arith
with_me-parse_me (a ∷ []) = ground arith
with_me-parse_me (a ∷ b ∷ []) = ground arith
with_me-parse_me (a ∷ b ∷ c ∷ []) = ground arith
with_me-parse_me (a ∷ b ∷ c ∷ d ∷ text) = ground arith
