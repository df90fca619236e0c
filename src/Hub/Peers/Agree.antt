-- ===== src/Hub/Peers/Agree.antt =====
-- What agrees in the hub, and that each call of hub/hub.go and hub/hub_adc.go keeps it: the indexes of
-- the peers, the cached list and the global chat.
use go_dcpp.Adc.Sid.{sid_eq}
use go_dcpp.Hub.Peers.{
  Cid, Peer, Hub, list_peers, name_available, reserve_name, unbind_name, accept_peer, leave,
  leave_cid, bind_cid, unbind_cid, accept_cid, forget, to_notify, inc_share, dec_share,
  invalidate_list,
}
use go_dcpp.Hub.Peers.Index.{
  IsIndexed, reserve-IsIndexed, unreserve-IsIndexed, bind-IsIndexed, unbind-IsIndexed,
  accept-IsIndexed, accept_cid-IsIndexed, forget-IsIndexed, forget_cid-IsIndexed,
}
use go_dcpp.Hub.Peers.Chat.{IsChat, accept-IsChat, forget-IsChat}
use go_dcpp.Base.{
  ℕ, ◌≡◌, refl, sym, ap, inl, inr, true, false, Option, none, some, List, map, arith, nat_eq,
  ==_iff, list_eq, Option-cases, is_some, Bytes, lookup, insert, remove, lookup-remove,
}

-- the peers that are connected
abbrev pub current : Hub → List Peer
current h = map (λ (e : Bytes × Peer). e.1) h.by_name

module _ (to_lower : Bytes → Bytes) where
  -- What agrees: the indexes, the list that is cached, and the members of the global chat.
  pub record IsAgreed (h : Hub) : Type 0 where
    pub index : IsIndexed to_lower h.reserved h.by_name h.by_sid h.logging_cid h.by_cid
    pub cached : (l : List Peer) → h.cur_list ≡ some l → l ≡ current h
    pub chat : IsChat h.global h.by_sid h.rooms

  pub list_peers_lem :
      (h : Hub)
      → ((l : List Peer) → h.cur_list ≡ some l → l ≡ current h)
      → list_peers h ≡ (record h { cur_list = some (current h) }, current h)
  unfolding list_peers
  list_peers_lem h v = elim (Option-cases h.cur_list) [
    | inl none_yet ↦ ground arith
    | inr (l, there) ↦ ground (arith, v l there)
  ]

  -- What `reserveName` asks for, and what it does.
  reserve_name-cases :
      (name : Bytes) (bind : Hub → Option Hub) (h h' : Hub)
      → reserve_name to_lower name bind h ≡ some h'
      → (name_available to_lower name h ≡ true)
        × (h1 : Hub) × (bind h ≡ some h1)
        × (h' ≡ record h1 { reserved = insert (to_lower name) tt h1.reserved })
  unfolding reserve_name
  reserve_name-cases name bind h h' e = elim (Option-cases (bind h)) [
    | inl refused ↦ ground arith
    | inr (h1, bound) ↦ (ground arith, h1, ground arith, ground arith)
  ]

  reserve-IsAgreed :
      (name : Bytes) (h1 : Hub)
      → is_some (lookup (to_lower name) h1.by_name) ≡ false
      → IsAgreed h1
      → IsAgreed (record h1 { reserved = insert (to_lower name) tt h1.reserved })
  reserve-IsAgreed name h1 free v = record {
    index = reserve-IsIndexed to_lower v.index (to_lower name) free;
    cached = v.cached;
    chat = v.chat;
  }

  pub reserved-IsAgreed :
      (name : Bytes) (h h' : Hub)
      → reserve_name to_lower name some h ≡ some h'
      → IsAgreed h
      → IsAgreed h'
  unfolding name_available
  reserved-IsAgreed name h h' e v =
      let (free, h1, same, made) = reserve_name-cases name some h h' e in
      let eq : h ≡ h1 = ground arith in
      let open_name : is_some (lookup (to_lower name) h1.by_name) ≡ false =
        rw (sym eq) (ground arith) in
      let v1 : IsAgreed h1 = rw (sym eq) v in rw made (reserve-IsAgreed name h1 open_name v1)

  bind_cid-IsAgreed :
      (c : Cid) (h h' : Hub)
      → bind_cid c h ≡ some h'
      → IsAgreed h
      → IsAgreed h' × (h'.by_name ≡ h.by_name)
  unfolding bind_cid
  bind_cid-IsAgreed c h h' e v =
      let made : h' ≡ record h { logging_cid = insert c tt h.logging_cid } = ground arith in
      let free : is_some (lookup c h.by_cid) ≡ false = ground arith in
      rw made (
        record { index = bind-IsIndexed to_lower v.index c free; cached = v.cached; chat = v.chat },
        refl,
      )

  pub reserved_with-IsAgreed :
      (name : Bytes) (c : Cid) (h h' : Hub)
      → reserve_name to_lower name (bind_cid c) h ≡ some h'
      → IsAgreed h
      → IsAgreed h'
  unfolding name_available
  reserved_with-IsAgreed name c h h' e v =
      let (free, h1, bound, made) = reserve_name-cases name (bind_cid c) h h' e in
      let (v1, same) = bind_cid-IsAgreed c h h1 bound v in
      let open_name : is_some (lookup (to_lower name) h1.by_name) ≡ false =
        rw same (ground arith) in
      rw made (reserve-IsAgreed name h1 open_name v1)

  pub unbind-IsAgreed :
      (name : Bytes) (h : Hub) → IsAgreed h → IsAgreed (unbind_name to_lower name (λ x. x) h)
  unfolding unbind_name
  unbind-IsAgreed name h v = record {
    index = unreserve-IsIndexed to_lower v.index (to_lower name);
    cached = v.cached;
    chat = v.chat;
  }

  pub unbind_with-IsAgreed :
      (name : Bytes) (c : Cid) (h : Hub)
      → IsAgreed h
      → IsAgreed (unbind_name to_lower name (unbind_cid c) h)
  unfolding unbind_name unbind_cid
  unbind_with-IsAgreed name c h v = record {
    index = unbind-IsIndexed to_lower (unreserve-IsIndexed to_lower v.index (to_lower name)) c;
    cached = v.cached;
    chat = v.chat;
  }

  pub accept-IsAgreed :
      (p : Peer) (share : ℕ) (h : Hub)
      → is_some (lookup (to_lower p.name) h.reserved) ≡ true
      → lookup p.sid h.by_sid ≡ none
      → p.cid ≡ none
      → IsAgreed h
      → IsAgreed (accept_peer to_lower p share (λ x. x) h)
  unfolding accept_peer inc_share invalidate_list is_some
  accept-IsAgreed p share h reserved new no_cid v =
      let key : lookup (to_lower p.name) h.by_name ≡ none =
        ground (arith, v.index.unbound (to_lower p.name) reserved) in
      let freed : lookup (to_lower p.name) (remove (to_lower p.name) h.reserved) ≡ none = ground (
        arith,
        lookup-remove (to_lower p.name) (to_lower p.name) h.reserved,
        ==_iff (to_lower p.name) (to_lower p.name),
      ) in
      record {
        index =
            accept-IsIndexed to_lower (unreserve-IsIndexed to_lower v.index (to_lower p.name)) p key
              new freed no_cid;
        cached = λ l e. ground arith;
        chat = accept-IsChat v.chat p;
      }

  pub leave-IsAgreed :
      (p : Peer) (share : ℕ) (notify : Option (List Peer)) (h : Hub)
      → lookup p.sid h.by_sid ≡ some p
      → p.cid ≡ none
      → IsAgreed h
      → IsAgreed (leave to_lower p share notify h).0
  unfolding leave forget to_notify list_peers dec_share invalidate_list
  leave-IsAgreed p share none h here no_cid v = record {
    index = forget-IsIndexed to_lower v.index p here no_cid;
    cached = λ l e. ground arith;
    chat = forget-IsChat v.chat p;
  }
  leave-IsAgreed p share (some told) h here no_cid v = record {
    index = forget-IsIndexed to_lower v.index p here no_cid;
    cached = λ l e. ground arith;
    chat = forget-IsChat v.chat p;
  }

  pub leave_cid-IsAgreed :
      (p : Peer) (c : Cid) (share : ℕ) (h : Hub)
      → lookup p.sid h.by_sid ≡ some p
      → p.cid ≡ some c
      → IsAgreed h
      → IsAgreed (leave_cid to_lower p c share h).0
  unfolding leave_cid forget list_peers dec_share invalidate_list
  leave_cid-IsAgreed p c share h here has_cid v = record {
    index = forget_cid-IsIndexed to_lower v.index p here c has_cid;
    cached = λ l e. ground arith;
    chat = forget-IsChat v.chat p;
  }

  pub list-IsAgreed : (h : Hub) → IsAgreed h → IsAgreed (list_peers h).0
  list-IsAgreed h v =
      rw (list_peers_lem h v.cached)
        (record { index = v.index; cached = λ l e. ground arith; chat = v.chat })

  accept_cid_lem :
      (c : Cid) (p : Peer) (h : Hub)
      → ((l : List Peer) → h.cur_list ≡ some l → l ≡ current h)
      → accept_cid c p h ≡ record h {
        logging_cid = remove c h.logging_cid;
        by_cid = insert c p h.by_cid;
        cur_list = some (current h);
      }
  unfolding accept_cid
  accept_cid_lem c p h v =
      let h1 : Hub = record h {
        logging_cid = remove c h.logging_cid;
        by_cid = insert c p h.by_cid;
      } in
      ap (λ (r : Hub × List Peer). r.0) (list_peers_lem h1 v)

  pub accept_with-IsAgreed :
      (p : Peer) (c : Cid) (share : ℕ) (h : Hub)
      → is_some (lookup (to_lower p.name) h.reserved) ≡ true
      → is_some (lookup c h.logging_cid) ≡ true
      → lookup p.sid h.by_sid ≡ none
      → p.cid ≡ some c
      → IsAgreed h
      → IsAgreed (accept_peer to_lower p share (accept_cid c p) h)
  unfolding accept_peer inc_share invalidate_list is_some
  accept_with-IsAgreed p c share h reserved logging new has_cid v =
      let key : lookup (to_lower p.name) h.by_name ≡ none =
        ground (arith, v.index.unbound (to_lower p.name) reserved) in
      let freed : lookup (to_lower p.name) (remove (to_lower p.name) h.reserved) ≡ none = ground (
        arith,
        lookup-remove (to_lower p.name) (to_lower p.name) h.reserved,
        ==_iff (to_lower p.name) (to_lower p.name),
      ) in
      let uncid : lookup c h.by_cid ≡ none = ground (arith, v.index.logging_in c logging) in
      let unlogged : lookup c (remove c h.logging_cid) ≡ none =
        ground (arith, lookup-remove c c h.logging_cid, ==_iff c c) in
      let h1 : Hub = record h { reserved = remove (to_lower p.name) h.reserved } in
      let index1 =
        unbind-IsIndexed to_lower (unreserve-IsIndexed to_lower v.index (to_lower p.name)) c in
      rw (accept_cid_lem c p h1 v.cached) (record {
        index = accept_cid-IsIndexed to_lower index1 p key new c freed has_cid unlogged uncid;
        cached = λ l e. ground arith;
        chat = accept-IsChat v.chat p;
      })
