-- ===== src/Hub/Chat/Replay.antt =====
-- Which messages of a room a peer that comes later gets from hub/room.go.
use go_dcpp.Hub.ChatLog.{ChatBuffer, clamp, get, append, empty}
use go_dcpp.Hub.ChatLog.Window.{last_n}
use go_dcpp.Hub.ChatLog.History.{append_all, get-append_all}
use go_dcpp.Hub.Chat.{
  Message, Post, stamp, is_dropped, deliver, send_chat, replay_line, send_lines, no_message,
  replay_chat,
}
use go_dcpp.Base.{
  ℕ, ◌<◌, ◌≡◌, refl, ap, inl, inr, Bool, Option, none, some, List, [], ◌∷◌, ◌++◌, map, arith,
  if◌then◌else◌, nat_eq, ==_iff, list_eq, Bool-cases, Option-cases, Bytes, length, ℤ,
}

send_lines_all : (ms : List Message) → send_lines [] ms ≡ ms
unfolding send_lines
send_lines_all [] = refl
send_lines_all (m ∷ ms) = ap (λ l. m ∷ l) (send_lines_all ms)

module _ {P : Type 0} (hooks : List (P → Message → Bool)) (is_global : Bool) (chat_log : ℕ) where
  -- the posts that no hook drops
  abbrev pub accepted : List (Post P) → List (Post P)
  accepted [] = []
  accepted (c ∷ cs) =
      let rest = accepted cs in if is_dropped hooks is_global c then rest else c ∷ rest

  -- what the accepted posts deliver
  abbrev pub delivered : List (Post P) → List (P × Message)
  delivered [] = []
  delivered (c ∷ cs) = map (λ p. (p, stamp c)) c.peers ++ delivered cs

  abbrev after :
      Option (ChatBuffer Message × List (P × Message))
      → Option (ChatBuffer Message × List (P × Message))
      → Option (ChatBuffer Message × List (P × Message))
  after none r = none
  after (some (log, ms)) none = none
  after (some (log, ms)) (some (log', ms')) = some (log', ms ++ ms')

  -- the posts, one after the other
  abbrev pub send_all :
      List (Post P) → ChatBuffer Message → Option (ChatBuffer Message × List (P × Message))
  send_all [] log = some (log, [])
  send_all (c ∷ cs) log = elim (send_chat hooks is_global chat_log c log) [
    | none ↦ none
    | some (log', ms) ↦ after (some (log', ms)) (send_all cs log')
  ]

  send_all-append_all :
      (cs : List (Post P)) (log d : ChatBuffer Message)
      → 0 < chat_log
      → append_all (map stamp (accepted cs)) log ≡ some d
      → send_all cs log ≡ some (d, delivered (accepted cs))
  unfolding send_chat append_all deliver
  send_all-append_all [] log d p = λ e. ground arith
  send_all-append_all (c ∷ cs) log d p = elim (Bool-cases (is_dropped hooks is_global c)) [
    | inl dropped ↦ λ e. ground (arith, send_all-append_all cs log d p)
    | inr kept ↦ elim (Option-cases (append (stamp c) log)) [
      | inl full ↦ λ e. ground arith
      | inr (log', taken) ↦ λ e. ground (arith, send_all-append_all cs log' d p)
    ]
  ]

  -- In a new room with a history, no call of `SendChat` panics; every message that no hook refuses, and no
  -- other, is delivered to those who are then in the room; and a peer to which `ReplayChat` sends `n`
  -- messages, and which takes them, gets the last `n` of the last messages that the history has room for.
  pub replay_chat-send_all :
      (clock : ℕ → Bytes) (n : ℤ) (cs : List (Post P))
      → 0 < chat_log
      → (d : ChatBuffer Message) × (send_all cs (empty chat_log)
          ≡ some (d, delivered (accepted cs)))
        × (replay_chat clock chat_log n [] d
            ≡ map (replay_line clock) (
                last_n
                  (clamp n (length (last_n chat_log (map stamp (accepted cs)))))
                  (last_n chat_log (map stamp (accepted cs)))))
  unfolding replay_chat
  replay_chat-send_all clock n cs p =
      let (d, done, window) = get-append_all chat_log (map stamp (accepted cs)) p in
      (
        d,
        send_all-append_all cs (empty chat_log) d p done,
        ground (
          arith,
          window no_message n,
          send_lines_all (map (replay_line clock) (get d no_message n)),
          ==_iff chat_log 0,
        ),
      )
