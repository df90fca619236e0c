-- ===== src/Hub/Chat/Tests.antt =====
-- Messages of a room with a history of two messages, one of which a hook refuses: hub/room.go.
use go_dcpp.Hub.ChatLog.{ChatBuffer, clamp, empty}
use go_dcpp.Hub.ChatLog.Window.{last_n}
use go_dcpp.Hub.Chat.{Message, Post, stamp, replay_line, replay_chat}
use go_dcpp.Hub.Chat.Replay.{accepted, delivered, send_all, replay_chat-send_all}
use go_dcpp.Base.{
  ℕ, ◌≡◌, Bool, true, false, not, some, List, [], ◌∷◌, map, arith, ◌==◌, nat_eq, list_eq, Bytes,
  codes, length, pos,
}

-- the text "spam" is refused
abbrev no_spam : ℕ → Message → Bool
no_spam p m = not (m.text == codes "spam")

abbrev said : Bytes → Post ℕ
said text = record {
  from = 1;
  from_name = codes "ann";
  now = 5;
  message = record { time = 0; name = []; text = text; me = false };
  peers = 1 ∷ 2 ∷ [];
}

abbrev posts : List (Post ℕ)
posts = said (codes "hi") ∷ said (codes "spam") ∷ said (codes "so") ∷ said (codes "bye") ∷ []

abbrev clock : ℕ → Bytes
clock t = t ∷ []

abbrev hooks : List (ℕ → Message → Bool)
hooks = no_spam ∷ []

replay_chat-send_all_example :
    (d : ChatBuffer Message) × (send_all hooks true 2 posts (empty 2)
      ≡ some (d, delivered hooks true 2 (accepted hooks true 2 posts)))
    × (replay_chat clock 2 (pos 1) [] d
        ≡ map (replay_line clock) (
            last_n
              (clamp (pos 1) (length (last_n 2 (map stamp (accepted hooks true 2 posts)))))
              (last_n 2 (map stamp (accepted hooks true 2 posts)))))
replay_chat-send_all_example = replay_chat-send_all hooks true 2 clock (pos 1) posts (omega arith)
