-- ===== src/Hub/ChatLog/Window.antt =====
-- `Get` of hub/room.go gives the last of the messages, oldest first.
use go_dcpp.Hub.ChatLog.{ChatBuffer, clamp, window, get}
use go_dcpp.Base.{
  ℕ, zero, suc, ◌+◌, ◌-◌, ◌≤◌, ◌<◌, ◌≡◌, refl, sym, ap, ◌∙◌, ◌⊎◌, inl, inr, List, [], ◌∷◌, ◌++◌,
  append-nil, arith, ltb, ◌==◌, nat_eq, ==_iff, list_eq, lt→ltb, le→ltb, Bool-cases, length, take,
  drop, replicate, set, length-append, length-take, length-drop, take-append-drop, length-replicate,
  replicate-add, overlay, copy_at, copy_at-append, overlay-append, ℤ, pos, negsuc,
}

module _ {ℓ} {A : Type ℓ} where
  -- The last `n` of a list.
  abbrev pub last_n : ℕ → List A → List A
  last_n n xs = drop (length xs - n) xs

  -- The messages of a buffer, oldest first.
  abbrev pub messages : ChatBuffer A → List A
  messages c = drop c.start c.ring ++ take c.start c.ring

  -- The ring has room and starts at 0, or it is full and starts inside.
  pub record IsRing (c : ChatBuffer A) : Type 0 where
    pub fits : length c.ring ≤ c.limit
    pub placed : (c.start ≡ 0) ⊎ ((length c.ring ≡ c.limit) × (c.start < c.limit))

module _ {ℓ} {A : Type ℓ} where
  pub drop-append_le :
      (k : ℕ) (xs ys : List A) → k ≤ length xs → drop k (xs ++ ys) ≡ drop k xs ++ ys
  drop-append_le zero xs ys h = refl
  drop-append_le (suc k) [] ys h = absurd (omega arith)
  drop-append_le (suc k) (x ∷ xs) ys h = drop-append_le k xs ys (omega arith)

  drop-append_ge :
      (k : ℕ) (xs ys : List A) → length xs ≤ k → drop k (xs ++ ys) ≡ drop (k - length xs) ys
  drop-append_ge k [] ys h = let e : k ≡ k - 0 = omega arith in ap (λ n. drop n ys) e
  drop-append_ge zero (x ∷ xs) ys h = absurd (omega arith)
  drop-append_ge (suc k) (x ∷ xs) ys h =
      let e : k - length xs ≡ suc k - suc (length xs) = omega arith in
      drop-append_ge k xs ys (omega arith) ∙ ap (λ n. drop n ys) e

  take_all : (n : ℕ) (xs : List A) → length xs ≤ n → take n xs ≡ xs
  take_all zero [] h = refl
  take_all zero (x ∷ xs) h = absurd (omega arith)
  take_all (suc n) [] h = refl
  take_all (suc n) (x ∷ xs) h = ap (◌∷◌ x) (take_all n xs (omega arith))

  take-append_le : (k : ℕ) (xs ys : List A) → k ≤ length xs → take k (xs ++ ys) ≡ take k xs
  take-append_le zero xs ys h = refl
  take-append_le (suc k) [] ys h = absurd (omega arith)
  take-append_le (suc k) (x ∷ xs) ys h = ap (◌∷◌ x) (take-append_le k xs ys (omega arith))

  pub set-append : (xs ys : List A) (x m : A) → set (xs ++ x ∷ ys) (length xs) m ≡ xs ++ m ∷ ys
  set-append [] ys x m = refl
  set-append (a ∷ xs) ys x m = ap (◌∷◌ a) (set-append xs ys x m)

  nil_of_length : (xs : List A) → length xs ≡ 0 → xs ≡ []
  nil_of_length [] h = refl
  nil_of_length (x ∷ xs) h = absurd (omega arith)

  overlay_fit : (w out : List A) (d : A) (n : ℕ) → length w ≡ n → overlay w (replicate n d) ≡ w
  overlay_fit w out d n e =
      rw (← e, ← append-nil (replicate (length w) d)) (overlay-append w [] d ∙ append-nil w)

  copy_behind :
      (w : List A) (d : A) (i n : ℕ)
      → i + length w ≡ n
      → copy_at i w (replicate n d) ≡ replicate i d ++ w
  copy_behind w d i n e =
      rw (← e, replicate-add i (length w) d)
        (rw length-replicate at (copy_at-append (replicate i d) w (replicate (length w) d))
          ∙ ap (λ t. replicate i d ++ t) (overlay_fit w [] d (length w) refl))

module _ {ℓ} {A : Type ℓ} (z : A) (hd tl : List A) where
  -- fewer messages than stand before the start
  window_near :
      (n limit : ℕ)
      → n < length hd
      → window (record { start = length hd; limit = limit; ring = hd ++ tl }) z n
        ≡ last_n n (tl ++ hd)
  unfolding window copy_at
  window_near n limit h =
      let j : ℕ = length hd - n in
      let part : take (length hd - j) (drop j (hd ++ tl)) ≡ drop j hd =
        ap (take (length hd - j)) (drop-append_le j hd tl (omega arith))
        ∙ take-append_le (length hd - j) (drop j hd) tl (omega (arith, length-drop j hd))
        ∙ take_all (length hd - j) (drop j hd) (omega (arith, length-drop j hd)) in
      let whole : last_n n (tl ++ hd) ≡ drop j hd =
        drop-append_ge (length (tl ++ hd) - n) tl hd (omega (arith, length-append tl hd))
        ∙ ap (λ k. drop k hd) (omega (arith, length-append tl hd)) in
      rw (whole, lt→ltb n (length hd) h)
        (ap (λ w. overlay w (replicate n z)) part
          ∙ overlay_fit (drop j hd) [] z n (omega (arith, length-drop j hd)))

  -- all of them, and some of those behind
  window_far :
      (n limit : ℕ)
      → length hd ≤ n
      → n ≤ length hd + length tl
      → window (record { start = length hd; limit = limit; ring = hd ++ tl }) z n
        ≡ last_n n (tl ++ hd)
  unfolding window
  window_far n limit h k =
      let i : ℕ = n - length hd in
      let j : ℕ = length (hd ++ tl) - i in
      let w : List A = drop (length tl - i) tl in
      let size : length w ≡ i = omega (arith, length-drop (length tl - i) tl) in
      let newest : take (length hd - 0) (hd ++ tl) ≡ hd =
        take-append_le (length hd - 0) hd tl (omega arith)
        ∙ take_all (length hd - 0) hd (omega arith) in
      let older : take i (take (j + i - j) (drop j (hd ++ tl))) ≡ w =
        let tail : drop j (hd ++ tl) ≡ w =
          drop-append_ge j hd tl (omega (arith, length-append hd tl))
          ∙ ap (λ m. drop m tl) (omega (arith, length-append hd tl)) in
        ap (λ t. take i (take (j + i - j) t)) tail
        ∙ ap (take i) (take_all (j + i - j) w (omega (arith, size)))
        ∙ take_all i w (omega (arith, size)) in
      let whole : last_n n (tl ++ hd) ≡ w ++ hd =
        let m : length (tl ++ hd) - n ≡ length tl - i = omega (arith, length-append tl hd) in
        rw m (drop-append_le (length tl - i) tl hd (omega arith)) in
      let filled : copy_at i (take (length hd - 0) (hd ++ tl)) (replicate n z)
          ≡ replicate i z ++ hd =
        rw newest (copy_behind hd z i n (omega arith)) in
      let both : overlay w (replicate i z ++ hd) ≡ w ++ hd = rw size at (overlay-append w hd z) in
      elim (Bool-cases (i == 0)) [
        | inl e ↦
            let none_older : i ≡ 0 = (==_iff i 0).0 e in
            rw (le→ltb n (length hd) h, e, whole, filled)
              (ap (λ t. t ++ hd)
                (ap (λ m. replicate m z) none_older ∙ sym (nil_of_length w (size ∙ none_older))))
        | inr e ↦ rw (le→ltb n (length hd) h, e, whole, filled, older) both
      ]

clamp-le : (n : ℤ) (size : ℕ) → clamp n size ≤ size
unfolding clamp
clamp-le (pos n) size = ground arith
clamp-le (negsuc n) size = omega arith

module _ {ℓ} {A : Type ℓ} where
  window-messages :
      (c : ChatBuffer A) (z : A) (n : ℕ)
      → IsRing c
      → n ≤ length c.ring
      → window c z n ≡ last_n n (messages c)
  window-messages c z n v h =
      let hd : List A = take c.start c.ring in
      let tl : List A = drop c.start c.ring in
      let joined : hd ++ tl ≡ c.ring = take-append-drop c.start c.ring in
      let total : length hd + length tl ≡ length c.ring =
        sym (length-append hd tl) ∙ ap length joined in
      let start : length hd ≡ c.start =
        omega (arith, length-take c.start c.ring, v.placed, v.fits) in
      let shape : record { start = length hd; limit = c.limit; ring = hd ++ tl } ≡ c =
        λ i. record { start = start i; limit = c.limit; ring = joined i } in
      ap (λ b. window b z n) (sym shape) ∙ elim (Bool-cases (ltb n (length hd))) [
        | inl near ↦ window_near z hd tl n c.limit (ground arith)
        | inr far ↦ window_far z hd tl n c.limit (ground arith) (omega (arith, total))
      ]

  -- On a ring, `Get` gives the last `n` messages, oldest first, and all of them if `n` is not positive or
  -- larger than their number.
  pub get-messages :
      (c : ChatBuffer A) (z : A) (n : ℤ)
      → IsRing c
      → get c z n ≡ last_n (clamp n (length c.ring)) (messages c)
  unfolding get
  get-messages c z n v =
      window-messages c z (clamp n (length c.ring)) v (clamp-le n (length c.ring))
