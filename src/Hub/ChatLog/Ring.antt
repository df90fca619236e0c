-- ===== src/Hub/ChatLog/Ring.antt =====
-- The ring holds the last `limit` of the messages that were sent: `Append` of hub/room.go.
use go_dcpp.Hub.ChatLog.{ChatBuffer, next_start, append, empty}
use go_dcpp.Hub.ChatLog.Window.{set-append, last_n, messages, IsRing}
use go_dcpp.Base.{
  ℕ, ◌+◌, ◌-◌, ◌<◌, ◌≡◌, refl, sym, ap, subst, ◌∙◌, inl, inr, true, false, some, List, [], ◌∷◌,
  ◌++◌, append_assoc, append-nil, arith, ltb, nat_eq, list_eq, lt→ltb, le→ltb, Bool-cases, length,
  take, drop, length-append, length-take, length-drop, take-append-drop, take-append, drop-append,
}

module _ {ℓ} {A : Type ℓ} where
  rotated :
      (start : ℕ) (hd tl : List A)
      → length hd ≡ start
      → drop start (hd ++ tl) ++ take start (hd ++ tl) ≡ tl ++ hd
  rotated start hd tl e = rw (← e, drop-append hd tl, take-append hd tl)

  -- `Append` keeps the limit, and the last `limit` messages are kept in their order.
  abbrev pub Appends : ChatBuffer A → A → ChatBuffer A → Type ℓ
  Appends c m d =
      IsRing d × (d.limit ≡ c.limit) × (messages d ≡ last_n c.limit (messages c ++ m ∷ []))

  append_room :
      (limit : ℕ) (ring : List A) (m : A)
      → length ring < limit
      → Appends
          (record { start = 0; limit = limit; ring = ring })
          m
          (record { start = 0; limit = limit; ring = ring ++ m ∷ [] })
  append_room limit ring m h =
      let size = length-append ring (m ∷ []) in
      let none_old : length (ring ++ [] ++ m ∷ []) - limit ≡ 0 =
        omega (arith, length-append (ring ++ []) (m ∷ []), ap length (append-nil ring), size) in
      (
        record { fits = omega (arith, size); placed = inl refl },
        refl,
        rw (none_old, append-nil) (ap (λ t. t ++ m ∷ []) (sym (append-nil ring))),
      )

  -- the oldest message of a full ring is the one that goes
  oldest_dropped :
      (limit : ℕ) (a b : List A) (x m : A)
      → length (a ++ x ∷ b) ≡ limit
      → last_n limit
          (messages (record { start = length a; limit = limit; ring = a ++ x ∷ b }) ++ m ∷ [])
        ≡ (b ++ a) ++ m ∷ []
  oldest_dropped limit a b x m h =
      let one : length ((x ∷ b) ++ a ++ m ∷ []) - limit ≡ 1 = omega (
        arith,
        length-append ((x ∷ b) ++ a) (m ∷ []),
        length-append (x ∷ b) a,
        length-append a (x ∷ b),
      ) in
      rw (rotated (length a) a (x ∷ b) refl, one) refl

  append_full :
      (limit : ℕ) (a b : List A) (x m : A)
      → length (a ++ x ∷ b) ≡ limit
      → Appends
          (record { start = length a; limit = limit; ring = a ++ x ∷ b })
          m
          (record {
            start = next_start (length a) (length (a ++ x ∷ b));
            limit = limit;
            ring = a ++ m ∷ b;
          })
  unfolding next_start
  append_full limit a [] x m h =
      let size = length-append a (x ∷ []) in
      let wraps : next_start (length a) (length (a ++ x ∷ [])) ≡ 0 = ground (arith, size) in
      let old = oldest_dropped limit a [] x m h in
      rw (wraps, old)
        (
          record { fits = omega (arith, size, length-append a (m ∷ [])); placed = inl refl },
          refl,
          append-nil (a ++ m ∷ []),
        )
  append_full limit a (y ∷ b) x m h =
      let size = length-append a (x ∷ y ∷ b) in
      let moves : next_start (length a) (length (a ++ x ∷ y ∷ b)) ≡ length a + 1 =
        ground (arith, size) in
      let old = oldest_dropped limit a (y ∷ b) x m h in
      let size' = length-append a (m ∷ y ∷ b) in
      let turned : drop (length a + 1) (a ++ m ∷ y ∷ b) ++ take (length a + 1) (a ++ m ∷ y ∷ b)
          ≡ (y ∷ b) ++ (a ++ m ∷ []) =
        ap (λ t. drop (length a + 1) t ++ take (length a + 1) t)
          (sym (append_assoc a (m ∷ []) (y ∷ b)))
        ∙ rotated (length a + 1) (a ++ m ∷ []) (y ∷ b) (omega (arith, length-append a (m ∷ []))) in
      rw (moves, old)
        (
          record {
            fits = omega (arith, size, size');
            placed = inr (omega (arith, size, size'), omega (arith, size));
          },
          refl,
          turned ∙ sym (append_assoc (y ∷ b) a (m ∷ [])),
        )

  abbrev pub Succeeds : ChatBuffer A → A → Type ℓ
  Succeeds c m =
      (d : ChatBuffer A) × (append m c ≡ some d)
      × IsRing d
      × (d.limit ≡ c.limit)
      × (messages d ≡ last_n c.limit (messages c ++ m ∷ []))

  Succeeds-room :
      (limit : ℕ) (ring : List A) (m : A)
      → length ring < limit
      → Succeeds (record { start = 0; limit = limit; ring = ring }) m
  unfolding append
  Succeeds-room limit ring m h =
      let (v, l, e) = append_room limit ring m h in (_, rw (lt→ltb _ _ h), v, l, e)

  Succeeds-full :
      (limit : ℕ) (a b : List A) (x m : A)
      → length (a ++ x ∷ b) ≡ limit
      → Succeeds (record { start = length a; limit = limit; ring = a ++ x ∷ b }) m
  unfolding append
  Succeeds-full limit a b x m h =
      let (v, l, e) = append_full limit a b x m h in
      let full : ltb (length (a ++ x ∷ b)) limit ≡ false = le→ltb _ _ (omega arith) in
      let inside : ltb (length a) (length (a ++ x ∷ b)) ≡ true =
        lt→ltb _ _ (omega (arith, length-append a (x ∷ b))) in
      (_, rw (full, inside, set-append a b x m), v, l, e)

  inhabited : (xs : List A) → 0 < length xs → (x : A) × (b : List A) × (xs ≡ x ∷ b)
  inhabited [] h = absurd (omega arith)
  inhabited (x ∷ b) h = (x, b, refl)

  -- From a ring with a positive limit `Append` succeeds, gives a ring with that limit, and leaves the
  -- last `limit` of the messages with the new one.
  pub append-messages : (c : ChatBuffer A) (m : A) → IsRing c → 0 < c.limit → Succeeds c m
  append-messages c m v p = elim (Bool-cases (ltb (length c.ring) c.limit)) [
    | inl room ↦
        let first : c.start ≡ 0 = ground (arith, v.placed) in
        let c0 : record { start = 0; limit = c.limit; ring = c.ring } ≡ c =
          λ i. record { start = sym first i; limit = c.limit; ring = c.ring } in
        subst (λ b. Succeeds b m) c0 (Succeeds-room c.limit c.ring m (ground arith))
    | inr room ↦
        let full : length c.ring ≡ c.limit = ground (arith, v.fits) in
        let a : List A = take c.start c.ring in
        let size : length a ≡ c.start = omega (arith, length-take c.start c.ring, v.placed) in
        let (x, b, e) =
          inhabited (drop c.start c.ring) (omega (arith, length-drop c.start c.ring, v.placed)) in
        let ring : a ++ x ∷ b ≡ c.ring =
          ap (λ t. a ++ t) (sym e) ∙ take-append-drop c.start c.ring in
        let c1 : record { start = length a; limit = c.limit; ring = a ++ x ∷ b } ≡ c =
          λ i. record { start = size i; limit = c.limit; ring = ring i } in
        subst (λ b'. Succeeds b' m) c1 (Succeeds-full c.limit a b x m (ap length ring ∙ full))
  ]

  -- A new buffer is a ring without messages.
  pub empty-IsRing : (limit : ℕ) → IsRing (empty {A = A} limit)
  unfolding empty
  empty-IsRing limit = record { fits = omega arith; placed = inl refl }
