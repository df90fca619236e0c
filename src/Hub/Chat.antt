-- ===== src/Hub/Chat.antt =====
-- Messages in a chat room: `SendChat` and `ReplayChat` of hub/room.go, with `callOnChat` of
-- hub/events.go. `P` is the type of the peers, and `clock` the format of a time by package time. Metrics
-- are left out.
pub mod Replay
mod Tests
use go_dcpp.Hub.ChatLog.{ChatBuffer, append, get}
use go_dcpp.Base.{
  ℕ, ◌*◌, Bool, true, false, not, ◌&&◌, Option, none, some, List, [], ◌∷◌, ◌++◌, map, ltb,
  if◌then◌else◌, ◌==◌, nat_eq, list_eq, Bytes, codes, ℤ,
}

-- `Message`
pub record Message : Type 0 where
  pub time : ℕ
  pub name : Bytes
  pub text : Bytes
  pub me : Bool

-- A call of `SendChat`: the sender, its name, the time, the message, and the members of the room then.
pub record Post (P : Type 0) : Type 0 where
  pub from : P
  pub from_name : Bytes
  pub now : ℕ
  pub message : Message
  pub peers : List P

module _ {P : Type 0} where
  -- `callOnChat`: the hooks up to the first that refuses
  pub call_on_chat : List (P → Message → Bool) → P → Message → Bool
  call_on_chat [] p m = true
  call_on_chat (fnc ∷ hooks) p m =
      let rest = call_on_chat hooks p m in if fnc p m then rest else false

  -- m.Time = time.Now().UTC(); if m.Name == "" { m.Name = from.Name() }
  pub stamp : Post P → Message
  stamp c = record c.message {
    time = c.now;
    name = if c.message.name == [] then c.from_name else c.message.name;
  }

  -- A message of the global chat that a hook refuses is dropped.
  pub is_dropped : List (P → Message → Bool) → Bool → Post P → Bool
  unfolding call_on_chat stamp
  is_dropped hooks is_global c = is_global && not (call_on_chat hooks c.from (stamp c))

  -- the messages that are delivered, with their receivers
  deliver :
      Message
      → Option (ChatBuffer Message)
      → List P
      → Option (ChatBuffer Message × List (P × Message))
  deliver m none peers = none
  deliver m (some log) peers = some (log, map (λ p. (p, m)) peers)

  -- `SendChat`; `chat_log` is the setting ChatLog, and `none` is a panic
  pub send_chat :
      List (P → Message → Bool)
      → (is_global : Bool) → (chat_log : ℕ) → Post P
      → ChatBuffer Message
      → Option (ChatBuffer Message × List (P × Message))
  unfolding is_dropped stamp deliver
  send_chat hooks is_global chat_log c log =
      if is_dropped hooks is_global c
      then some (log, [])
      else deliver (stamp c) (if ltb 0 chat_log then append (stamp c) log else some log) c.peers

-- the text in which a message is replayed
pub replay_line : (ℕ → Bytes) → Message → Message
replay_line clock m = record {
  time = m.time;
  name = [];
  text =
      if m.me
      then codes "[" ++ clock m.time ++ codes "] * " ++ m.name ++ codes " " ++ m.text
      else codes "[" ++ clock m.time ++ codes "] <" ++ m.name ++ codes "> " ++ m.text;
  me = false;
}

-- The lines up to the first that `HubChatMsg` refuses; from the end of the list on, it takes them all.
send_lines : List Bool → List Message → List Message
send_lines oks [] = []
send_lines [] (m ∷ ms) = m ∷ send_lines [] ms
send_lines (true ∷ oks) (m ∷ ms) = m ∷ send_lines oks ms
send_lines (false ∷ oks) (m ∷ ms) = []

abbrev no_message : Message
no_message = record { time = 0; name = []; text = []; me = false }

-- `ReplayChat`: what is sent to the peer
pub replay_chat : (ℕ → Bytes) → (chat_log : ℕ) → ℤ → List Bool → ChatBuffer Message → List Message
unfolding replay_line send_lines
replay_chat clock chat_log n oks log =
    if chat_log == 0 then [] else send_lines oks (map (replay_line clock) (get log no_message n))
