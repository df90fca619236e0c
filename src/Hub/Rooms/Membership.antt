-- ===== src/Hub/Rooms/Membership.antt =====
-- Who is in which room, and what a peer that leaves the hub leaves behind.
use go_dcpp.Adc.Sid.{Sid, sid_eq, sid_from_int}
use go_dcpp.Hub.Rooms.{
  next_sid, Room, Rooms, in_room, rooms_of, join, leave, leave_each, leave_rooms, make_room,
}
use go_dcpp.Base.{
  ◌+◌, ◌%◌, ◌^◌, ◌≡◌, refl, ◌∙◌, ◌≢◌, inl, inr, Bool, true, false, not, ◌&&◌, ◌||◌, none, List, [],
  ◌∷◌, ◌++◌, arith, if◌then◌else◌, ◌==◌, nat_eq, ==_iff, list_eq, Option-cases, is_some, Bytes,
  lookup, insert, remove, lookup-insert, lookup-remove,
}

-- After a join the peer is in the room, if there is such a room, and every other peer is in a room
-- just when it was.
pub in_room-join :
    (r p q s : Sid) (h : Rooms)
    → in_room s q (join r p h) ≡ (in_room s q h || r == s && (p == q && is_some (lookup r h.heap)))
unfolding in_room join is_some
in_room-join r p q s h = elim (Option-cases (lookup r h.heap)) [
  | inl absent ↦ ground (arith, ==_iff r s)
  | inr (x, there) ↦
      let now : Room = record x { peers = insert p tt x.peers } in
      ground
        (arith, lookup-insert r s now h.heap, lookup-insert p q tt x.peers, ==_iff r s, ==_iff p q)
]

-- After `Leave` the peer is not in the room, and nothing else has changed.
pub in_room-leave :
    (r p q s : Sid) (h : Rooms)
    → in_room s q (leave r p h) ≡ (in_room s q h && not (r == s && p == q))
unfolding in_room leave is_some
in_room-leave r p q s h = elim (Option-cases (lookup r h.heap)) [
  | inl absent ↦ ground (arith, ==_iff r s)
  | inr (x, there) ↦
      let now : Room = record x { peers = remove p x.peers } in
      ground
        (arith, lookup-insert r s now h.heap, lookup-remove p q x.peers, ==_iff r s, ==_iff p q)
]

abbrev member : Sid → List Sid → Bool
member r [] = false
member r (s ∷ l) = s == r || member r l

member-append : (r : Sid) (l m : List Sid) → member r (l ++ m) ≡ (member r l || member r m)
member-append r [] m = refl
member-append r (s ∷ l) m = ground (arith, member-append r l m)

-- Every room that a peer is in stands in the list of the peer.
pub record IsTracked (h : Rooms) : Type 0 where
  pub listed : (r p : Sid) → in_room r p h ≡ true → member r (rooms_of p h) ≡ true

rooms_of-leave : (r p q : Sid) (h : Rooms) → rooms_of q (leave r p h) ≡ rooms_of q h
unfolding rooms_of leave is_some
rooms_of-leave r p q h = ground arith

leave_each-joined :
    (l : List Sid) (p q : Sid) (h : Rooms) → rooms_of q (leave_each l p h) ≡ rooms_of q h
unfolding leave_each
leave_each-joined [] p q h = refl
leave_each-joined (r ∷ l) p q h = leave_each-joined l p q (leave r p h) ∙ rooms_of-leave r p q h

in_room-leave_each :
    (l : List Sid) (p q s : Sid) (h : Rooms)
    → in_room s q (leave_each l p h) ≡ (in_room s q h && not (member s l && p == q))
unfolding leave_each
in_room-leave_each [] p q s h = ground arith
in_room-leave_each (r ∷ l) p q s h =
    ground (arith, in_room-leave_each l p q s (leave r p h), in_room-leave r p q s h)

member-join :
    (r p s q : Sid) (h : Rooms)
    → member s (rooms_of q (join r p h)) ≡ (
        member s (rooms_of q h)
        || r == s && (p == q && (is_some (lookup r h.heap) && not (in_room r p h))))
unfolding rooms_of join in_room is_some
member-join r p s q h = elim (Option-cases (lookup r h.heap)) [
  | inl absent ↦ ground arith
  | inr (x, there) ↦ elim (Option-cases (lookup p h.joined)) [
    | inl none_yet ↦ ground (arith, lookup-insert p q (r ∷ []) h.joined, ==_iff p q)
    | inr (l, old) ↦
        ground
          (arith, lookup-insert p q (l ++ r ∷ []) h.joined, member-append s l (r ∷ []), ==_iff p q)
  ]
]

pub join-IsTracked : (r p : Sid) (h : Rooms) → IsTracked h → IsTracked (join r p h)
join-IsTracked r p h v = record {
  listed = λ s q e.
      ground (
        arith,
        in_room-join r p q s h,
        member-join r p s q h,
        v.listed s q,
        ==_iff r s,
        ==_iff p q,
      );
}

pub leave-IsTracked : (r p : Sid) (h : Rooms) → IsTracked h → IsTracked (leave r p h)
leave-IsTracked r p h v = record {
  listed = λ s q e. rw rooms_of-leave (v.listed s q (ground (arith, in_room-leave r p q s h)));
}

in_room-leave_rooms_lem :
    (global p q s : Sid) (h : Rooms)
    → in_room s q (leave_rooms global p h)
      ≡ (in_room s q h && not ((global == s || member s (rooms_of p h)) && p == q))
unfolding leave_rooms in_room
in_room-leave_rooms_lem global p q s h = ground (
  arith,
  in_room-leave_each (rooms_of p h) p q s (leave global p h),
  in_room-leave global p q s h,
)

-- If every room that a peer is in stands in the list of the peer, `leaveRooms` takes the peer out of
-- every room, the global chat included, and leaves every other peer in the rooms that it is in.
pub in_room-leave_rooms :
    (global p q s : Sid) (h : Rooms)
    → IsTracked h
    → in_room s q (leave_rooms global p h) ≡ (in_room s q h && not (p == q))
in_room-leave_rooms global p q s h v =
    ground (arith, in_room-leave_rooms_lem global p q s h, v.listed s p, ==_iff p q)

-- A room stays when peers join and leave.
pub join-heap :
    (r p s : Sid) (h : Rooms) → is_some (lookup s (join r p h).heap) ≡ is_some (lookup s h.heap)
unfolding join is_some
join-heap r p s h = elim (Option-cases (lookup r h.heap)) [
  | inl absent ↦ ground arith
  | inr (x, there) ↦
      let now : Room = record x { peers = insert p tt x.peers } in
      ground (arith, lookup-insert r s now h.heap, ==_iff r s)
]

pub leave-heap :
    (r p s : Sid) (h : Rooms) → is_some (lookup s (leave r p h).heap) ≡ is_some (lookup s h.heap)
unfolding leave is_some
leave-heap r p s h = elim (Option-cases (lookup r h.heap)) [
  | inl absent ↦ ground arith
  | inr (x, there) ↦
      let now : Room = record x { peers = remove p x.peers } in
      ground (arith, lookup-insert r s now h.heap, ==_iff r s)
]

leave_each-heap :
    (l : List Sid) (p s : Sid) (h : Rooms)
    → is_some (lookup s (leave_each l p h).heap) ≡ is_some (lookup s h.heap)
unfolding leave_each
leave_each-heap [] p s h = refl
leave_each-heap (r ∷ l) p s h = leave_each-heap l p s (leave r p h) ∙ leave-heap r p s h

pub leave_rooms-heap :
    (global p s : Sid) (h : Rooms)
    → is_some (lookup s (leave_rooms global p h).heap) ≡ is_some (lookup s h.heap)
unfolding leave_rooms
leave_rooms-heap global p s h =
    leave_each-heap (rooms_of p h) p s (leave global p h) ∙ leave-heap global p s h

rooms_of-reset :
    (p q : Sid) (h : Rooms)
    → rooms_of q (record h { joined = insert p [] h.joined })
      ≡ (if p == q then [] else rooms_of q h)
unfolding rooms_of
rooms_of-reset p q h = ground (arith, lookup-insert p q [] h.joined)

rooms_of-leave_rooms :
    (global p q : Sid) (h : Rooms) → p ≢ q → rooms_of q (leave_rooms global p h) ≡ rooms_of q h
unfolding leave_rooms
rooms_of-leave_rooms global p q h other = ground (
  arith,
  rooms_of-reset p q (leave_each (rooms_of p h) p (leave global p h)),
  leave_each-joined (rooms_of p h) p q (leave global p h),
  rooms_of-leave global p q h,
  ==_iff p q,
)

pub leave_rooms-IsTracked :
    (global p : Sid) (h : Rooms) → IsTracked h → IsTracked (leave_rooms global p h)
leave_rooms-IsTracked global p h v = record {
  listed = λ s q e. ground (
    arith,
    in_room-leave_rooms_lem global p q s h,
    rooms_of-leave_rooms global p q h,
    v.listed s q,
    v.listed s p,
    ==_iff p q,
  );
}

-- A room that is made is empty, and nothing else has changed.
pub in_room-make_room :
    (name : Bytes) (r p : Sid) (h : Rooms)
    → in_room r p (make_room name h).0 ≡ (in_room r p h && not ((make_room name h).1 == r))
unfolding in_room make_room next_sid is_some lookup
in_room-make_room name r p h =
    let id = sid_from_int ((h.last_sid + 1) % 2 ^ 32) in
    let made : Room = record { name = name; peers = [] } in
    ground (arith, lookup-insert id r made h.heap, ==_iff id r)

pub heap-make_room :
    (name : Bytes) (h : Rooms)
    → is_some (lookup (make_room name h).1 (make_room name h).0.heap) ≡ true
unfolding make_room next_sid is_some
heap-make_room name h =
    let id = sid_from_int ((h.last_sid + 1) % 2 ^ 32) in
    let made : Room = record { name = name; peers = [] } in
    ground (arith, lookup-insert id id made h.heap, ==_iff id id)

pub in_room_missing : (r p : Sid) (h : Rooms) → lookup r h.heap ≡ none → in_room r p h ≡ false
unfolding in_room
in_room_missing r p h e = ground arith
