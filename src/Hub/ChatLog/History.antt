-- ===== src/Hub/ChatLog/History.antt =====
-- A chat history against the list of all messages that were sent.
use go_dcpp.Hub.ChatLog.{ChatBuffer, clamp, get, append, empty}
use go_dcpp.Hub.ChatLog.Window.{last_n, messages, IsRing, get-messages, drop-append_le}
use go_dcpp.Hub.ChatLog.Ring.{append-messages, empty-IsRing}
use go_dcpp.Base.{
  ℕ, zero, suc, ◌+◌, ◌-◌, ◌<◌, ◌≡◌, refl, sym, ap, subst, ◌∙◌, Option, none, some, List, [], ◌∷◌,
  ◌++◌, append_assoc, append-nil, arith, nat_eq, list_eq, length, take, drop, length-append,
  length-take, length-drop, ℤ,
}

module _ {ℓ} {A : Type ℓ} where
  -- The messages are appended one by one, as `SendChat` does with each.
  unfoldable pub append_all : List A → ChatBuffer A → Option (ChatBuffer A)
  append_all [] c = some c
  append_all (m ∷ ms) c = elim (append m c) [ none ↦ none | some d ↦ append_all ms d ]

  drop-nil : (n : ℕ) → drop {A = A} n [] ≡ []
  drop-nil zero = refl
  drop-nil (suc n) = refl

  drop-drop : (j k : ℕ) (xs : List A) → drop j (drop k xs) ≡ drop (k + j) xs
  drop-drop j zero xs = let e : j ≡ zero + j = omega arith in ap (λ n. drop n xs) e
  drop-drop j (suc k) [] = drop-nil j ∙ sym (drop-nil (suc k + j))
  drop-drop j (suc k) (x ∷ xs) =
      let e : suc (k + j) ≡ suc k + j = omega arith in
      drop-drop j k xs ∙ ap (λ n. drop n (x ∷ xs)) e

  last_n-last_n :
      (limit : ℕ) (xs : List A) (m : A)
      → last_n limit (last_n limit xs ++ m ∷ []) ≡ last_n limit (xs ++ m ∷ [])
  last_n-last_n limit xs m =
      let k : ℕ = length xs - limit in
      let kept : drop k xs ++ m ∷ [] ≡ drop k (xs ++ m ∷ []) =
        sym (drop-append_le k xs (m ∷ []) (omega arith)) in
      let size : length (drop k xs ++ m ∷ []) ≡ length xs - k + 1 =
        omega (arith, length-append (drop k xs) (m ∷ []), length-drop k xs) in
      rw (size, kept)
        (drop-drop (length xs - k + 1 - limit) k (xs ++ m ∷ [])
          ∙ ap (λ n. drop n (xs ++ m ∷ [])) (omega (arith, length-append xs (m ∷ []))))

  length-messages : (c : ChatBuffer A) → length (messages c) ≡ length c.ring
  length-messages c = omega (
    arith,
    length-append (drop c.start c.ring) (take c.start c.ring),
    length-drop c.start c.ring,
    length-take c.start c.ring,
  )

  -- what a buffer knows of the messages sent so far
  abbrev Keeps : ℕ → List A → ChatBuffer A → Type ℓ
  Keeps limit sent c = IsRing c × (c.limit ≡ limit) × (messages c ≡ last_n limit sent)

  append_all_step :
      (m : A) (ms : List A) (c d : ChatBuffer A)
      → append m c ≡ some d
      → append_all (m ∷ ms) c ≡ append_all ms d
  unfolding append_all
  append_all_step m ms c d e = rw (e, append_all) refl

  append_all-Keeps :
      (limit : ℕ) (sent ms : List A) (c : ChatBuffer A)
      → 0 < limit
      → Keeps limit sent c
      → (d : ChatBuffer A) × (append_all ms c ≡ some d) × Keeps limit (sent ++ ms) d
  append_all-Keeps limit sent [] c p h = (c, unfold append_all in refl, rw append-nil h)
  append_all-Keeps limit sent (m ∷ ms) c p (v, l, e) =
      let (d, ok, w, same, view) = append-messages c m v (subst (λ n. 0 < n) (sym l) p) in
      let now : messages d ≡ last_n limit (sent ++ m ∷ []) =
        view
        ∙ ap (λ n. last_n n (messages c ++ m ∷ [])) l
        ∙ ap (λ t. last_n limit (t ++ m ∷ [])) e
        ∙ last_n-last_n limit sent m in
      let (r, rest, keeps) = append_all-Keeps limit (sent ++ m ∷ []) ms d p (w, same ∙ l, now) in
      (
        r,
        append_all_step m ms c d ok ∙ rest,
        subst (λ t. Keeps limit t r) (append_assoc sent (m ∷ []) ms) keeps,
      )

  -- Whatever messages were sent to a new buffer with a positive limit, all of them are taken, and
  -- `Get n` returns the last `n` of the last `limit` messages in the order in which they were sent.
  pub get-append_all :
      (limit : ℕ) (ms : List A)
      → 0 < limit
      → (d : ChatBuffer A) × (append_all ms (empty limit) ≡ some d)
        × ((z : A) (n : ℤ)
            → get d z n ≡ last_n (clamp n (length (last_n limit ms))) (last_n limit ms))
  get-append_all limit ms p =
      let start : messages {A = A} (empty limit) ≡ last_n limit [] =
        unfold empty in sym (drop-nil (0 - limit)) in
      let same : (empty {A = A} limit).limit ≡ limit = unfold empty in refl in
      let (d, done, keeps) =
        append_all-Keeps limit [] ms (empty limit) p (empty-IsRing limit, same, start) in
      let size : length d.ring ≡ length (last_n limit ms) =
        sym (length-messages d) ∙ ap length keeps.2 in
      (
        d,
        done,
        λ z n.
            get-messages d z n keeps.0
            ∙ ap (λ k. last_n (clamp n k) (messages d)) size
            ∙ ap (last_n (clamp n (length (last_n limit ms)))) keeps.2,
      )
