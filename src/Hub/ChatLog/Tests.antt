-- ===== src/Hub/ChatLog/Tests.antt =====
-- Messages at which the theorems on the chat history are applied.
use go_dcpp.Hub.ChatLog.{ChatBuffer, clamp, get, empty}
use go_dcpp.Hub.ChatLog.Window.{last_n}
use go_dcpp.Hub.ChatLog.History.{append_all, get-append_all}
use go_dcpp.Base.{ℕ, ◌≡◌, some, List, [], ◌∷◌, arith, nat_eq, list_eq, length, ℤ}

abbrev said : List ℕ
said = 1 ∷ 2 ∷ 3 ∷ 4 ∷ 5 ∷ []

get-append_all_example :
    (d : ChatBuffer ℕ) × (append_all said (empty 3) ≡ some d)
    × ((z : ℕ) (n : ℤ) → get d z n ≡ last_n (clamp n (length (last_n 3 said))) (last_n 3 said))
get-append_all_example = get-append_all 3 said (omega arith)
