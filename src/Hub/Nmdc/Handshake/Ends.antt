-- ===== src/Hub/Nmdc/Handshake/Ends.antt =====
-- What a handshake of hub/hub_nmdc.go leaves on the hub.
use go_dcpp.Adc.Sid.{sid_eq}
use go_dcpp.Hub.Peers.{
  Peer, Hub, list_peers, peer_by_sid, peer_by_name, name_available, reserve_name, unbind_name,
  accept_peer, leave, forget, to_notify, inc_share, dec_share, invalidate_list,
}
use go_dcpp.Hub.Bots.{close_with, run_closers}
use go_dcpp.Hub.Adc.Login.Traces.{alone}
use go_dcpp.Hub.Users.Names.{validate_user_name}
use go_dcpp.Hub.Nmdc.Line.{
  Ext, bot_info_ext, has_ext, Failure, not_tcp, nick_taken, offline, bad_name, Sent, said, denied,
  Talk, Answer, got, fails, write, flush, nmdc_lock,
}
use go_dcpp.Hub.Nmdc.Line.Along.{flush-hub, nmdc_lock-Along}
use go_dcpp.Hub.Nmdc.Login.{Setting, Client, View, peer_of}
use go_dcpp.Hub.Nmdc.Handshake.{
  ping, End, failed, no_peer, came, nmdc_close, last_words, flushed, finish, give_back, accepted,
  reserved, pinged, entered, named, addressed, locked, nmdc_handshake,
}
use go_dcpp.Hub.Nmdc.Login.Accept.{nmdc_accept-Along, accept_peer-finds}
use go_dcpp.Base.{
  ℕ, ◌^◌, ◌<◌, ◌≡◌, refl, sym, ap, subst, ◌∙◌, inl, inr, Bool, true, false, Option, none, some,
  List, arith, nat_eq, ==_iff, list_eq, Bool-cases, Option-cases, is_some, Bytes, lookup, insert,
  remove, lookup-insert, lookup-remove,
}
use go_dcpp.Hub.Nmdc.Handshake.Like.{
  IsLike, IsLike-refl, IsLike-trans, list_peers-IsLike, quiet, same_hub, IsAsBefore,
  IsLike-IsAsBefore, ping-IsLike,
}

module _ (s : Setting) (c : Client) (v : View) (start : Hub) where
  -- Either a peer with the session of the client is on the hub, where its session and its name find it, or
  -- the hub is as it was at the start.
  abbrev pub Settled : Talk × End → Type 0
  Settled (t, came p share) =
      (p.sid ≡ c.sid)
      × (peer_by_sid p.sid t.hub ≡ some p)
      × (peer_by_name s.to_lower p.name t.hub ≡ some p)
  Settled (t, _) = IsAsBefore start t.hub

  equal-IsLike : (h : Hub) → h ≡ start → IsLike start h
  equal-IsLike h e = subst (IsLike start) (sym e) (IsLike-refl start)

  -- the name is bound over the state at the start
  record HasBound (name : Bytes) (h : Hub) : Type 0 where
    free : lookup (s.to_lower name) start.reserved ≡ none
    unused : lookup (s.to_lower name) start.by_name ≡ none
    like : IsLike (record start { reserved = insert (s.to_lower name) tt start.reserved }) h

  reserve-HasBound :
      (name : Bytes) (h : Hub) → reserve_name s.to_lower name some start ≡ some h → HasBound name h
  unfolding reserve_name name_available is_some
  reserve-HasBound name h e = record {
    free = ground arith;
    unused = ground arith;
    like = record {
      reserved = ground arith;
      by_name = ground arith;
      by_sid = ground arith;
      share = ground arith;
      logging = ground arith;
      by_cid = ground arith;
    };
  }

  last_words-hub : (m : Sent) (e : End) (t : Talk) → (last_words s c alone v m e t).0.hub ≡ t.hub
  unfolding last_words write
  last_words-hub m e t = ground arith

  spoken :
      (m : Sent) (f : Failure) (t : Talk)
      → IsLike start t.hub
      → Settled (last_words s c alone v m (failed f) t)
  unfolding last_words
  spoken m f t a =
      subst (IsAsBefore start) (sym (last_words-hub m (failed f) t))
        (IsLike-IsAsBefore start t.hub a)

  unbound-IsAsBefore :
      (name : Bytes) (h : Hub)
      → HasBound name h
      → IsAsBefore start (unbind_name s.to_lower name (λ x. x) h)
  unfolding unbind_name
  unbound-IsAsBefore name h b = record {
    reserved = λ k. ground (
      arith,
      b.like.reserved,
      b.free,
      lookup-remove (s.to_lower name) k h.reserved,
      lookup-insert (s.to_lower name) k tt start.reserved,
      ==_iff (s.to_lower name) k,
    );
    by_name = λ k. ap (λ m. lookup k m) b.like.by_name;
    by_sid = λ id. ap (λ m. lookup id m) b.like.by_sid;
    share = b.like.share;
    logging = b.like.logging;
    by_cid = b.like.by_cid;
  }

  give_back-IsAsBefore :
      (name : Bytes) (e : Failure) (end : End) (t : Talk)
      → HasBound name t.hub
      → IsAsBefore start (give_back s c alone v name e end t).0.hub
  unfolding give_back
  give_back-IsAsBefore name e end t b =
      subst (IsAsBefore start) (sym (last_words-hub (said e) end _))
        (unbound-IsAsBefore name t.hub b)

  listed-IsAsBefore : (h : Hub) → IsAsBefore start h → IsAsBefore start (list_peers h).0
  listed-IsAsBefore h a =
      let l = list_peers-IsLike h in
      record {
        reserved = λ k. ap (λ m. lookup k m) l.reserved ∙ a.reserved k;
        by_name = λ k. ap (λ m. lookup k m) l.by_name ∙ a.by_name k;
        by_sid = λ id. ap (λ m. lookup id m) l.by_sid ∙ a.by_sid id;
        share = l.share ∙ a.share;
        logging = l.logging ∙ a.logging;
        by_cid = l.by_cid ∙ a.by_cid;
      }

  -- what `acceptPeer` and then `leave` do
  left-IsAsBefore :
      (name : Bytes) (share : ℕ) (l : List Peer) (h : Hub)
      → HasBound name h
      → lookup c.sid start.by_sid ≡ none
      → start.share < 2 ^ 64
      → IsAsBefore start
          (leave s.to_lower
            (peer_of s c alone v name)
            share
            (some l)
            (accept_peer s.to_lower (peer_of s c alone v name) share (λ x. (list_peers x).0) h)).0
  unfolding leave forget to_notify dec_share invalidate_list accept_peer inc_share peer_of
      unbind_name
  left-IsAsBefore name share l h b new word =
      let key = s.to_lower name in
      let p = peer_of s c alone v name in
      let h0 = record h { reserved = remove key h.reserved } in
      let g = (list_peers h0).0 in
      let a = listed-IsAsBefore h0 (unbound-IsAsBefore name h b) in
      record {
        reserved = a.reserved;
        by_name = λ k. ground (
          arith,
          a.by_name k,
          b.unused,
          lookup-remove key k (insert key p g.by_name),
          lookup-insert key k p g.by_name,
          ==_iff key k,
        );
        by_sid = λ id. ground (
          arith,
          a.by_sid id,
          new,
          lookup-remove c.sid id (insert c.sid p g.by_sid),
          lookup-insert c.sid id p g.by_sid,
          ==_iff c.sid id,
        );
        share = omega (arith, a.share);
        logging = a.logging;
        by_cid = a.by_cid;
      }

  module _ (new : lookup c.sid start.by_sid ≡ none) (word : start.share < 2 ^ 64) where
    flushed-Settled :
        (name : Bytes) (share : ℕ) (l : List Peer) (h : Hub) (r : Talk × Answer (Unit {0}))
        → HasBound name h
        → r.0.hub
          ≡ accept_peer s.to_lower (peer_of s c alone v name) share (λ x. (list_peers x).0) h
        → Settled (flushed s c alone v name share l r)
    unfolding flushed nmdc_close close_with run_closers
    flushed-Settled name share l h (t, got _) b e =
        accept_peer-finds s c alone v name share h t.hub e
    flushed-Settled name share l h (t, fails x) b e =
        subst
          (λ g. IsAsBefore start (leave s.to_lower (peer_of s c alone v name) share (some l) g).0)
          (sym e) (left-IsAsBefore name share l h b new word)

    finish-Settled :
        (name : Bytes) (share : ℕ) (t : Talk)
        → HasBound name t.hub
        → Settled (finish s c alone v name share t)
    unfolding finish
    finish-Settled name share t b =
        flushed-Settled name share (list_peers t.hub).1 t.hub (flush _) b (flush-hub _)

    accepted-Settled :
        (name : Bytes) (r : Talk × Answer ℕ)
        → HasBound name r.0.hub
        → Settled (accepted s c alone v name r)
    unfolding accepted
    accepted-Settled name (t, fails e) b = give_back-IsAsBefore name e (failed e) t b
    accepted-Settled name (t, got share) b = elim (Bool-cases c.stays) [
      | inl stays ↦ rw stays (finish-Settled name share t b)
      | inr goes ↦ rw goes (give_back-IsAsBefore name offline no_peer t b)
    ]

    like-HasBound : (name : Bytes) (h h' : Hub) → IsLike h h' → HasBound name h → HasBound name h'
    like-HasBound name h h' a b = record {
      free = b.free;
      unused = b.unused;
      like = IsLike-trans _ h h' b.like a;
    }

    reserved-Settled :
        (name : Bytes) (fea : List Ext) (t : Talk) (r : Option Hub)
        → t.hub ≡ start
        → reserve_name s.to_lower name some t.hub ≡ r
        → Settled (reserved s c alone v name fea t r)
    unfolding reserved
    reserved-Settled name fea t none e _ = spoken (denied name) nick_taken t (equal-IsLike t.hub e)
    reserved-Settled name fea t (some h) e bound = accepted-Settled name _ (
        like-HasBound name h _
          (nmdc_accept-Along quiet s c alone v (λ x. list_peers-IsLike x.hub) name fea
            (record t { hub = h }))
          (reserve-HasBound name h (ap (reserve_name s.to_lower name some) (sym e) ∙ bound)))

    pinged-Settled :
        (r : Talk × Answer (Unit {0})) → IsLike start r.0.hub → Settled (pinged s c alone v r)
    unfolding pinged
    pinged-Settled (t, got _) a = IsLike-IsAsBefore start t.hub a
    pinged-Settled (t, fails e) a = IsLike-IsAsBefore start t.hub a

    entered-Settled :
        (name : Bytes) (fea : List Ext) (t : Talk)
        → t.hub ≡ start
        → Settled (entered s c alone v name fea t)
    unfolding entered
    entered-Settled name fea t e = elim (Bool-cases (has_ext fea bot_info_ext)) [
      | inl pinger ↦ rw pinger (
          pinged-Settled (ping s c alone v name fea t)
            (IsLike-trans start t.hub _ (equal-IsLike t.hub e) (ping-IsLike s c v name fea t)))
      | inr user ↦ rw user (elim (Bool-cases (name_available s.to_lower name t.hub)) [
        | inr taken ↦ rw taken (spoken (denied name) nick_taken t (equal-IsLike t.hub e))
        | inl free ↦
            rw free (reserved-Settled name fea t (reserve_name s.to_lower name some t.hub) e refl)
      ])
    ]

    addressed-Settled :
        (tcp : Bool) (name : Bytes) (fea : List Ext) (t : Talk)
        → t.hub ≡ start
        → Settled (addressed s c alone v tcp name fea t)
    unfolding addressed named
    addressed-Settled false name fea t e = spoken (said not_tcp) not_tcp t (equal-IsLike t.hub e)
    addressed-Settled true name fea t e = elim (Option-cases (validate_user_name s.strings name)) [
      | inl valid ↦ rw valid (entered-Settled name fea t e)
      | inr (f, bad) ↦ rw bad (spoken (said (bad_name f)) (bad_name f) t (equal-IsLike t.hub e))
    ]

    locked-Settled :
        (r : Talk × Answer (List Ext × Bytes)) → r.0.hub ≡ start → Settled (locked s c alone v r)
    unfolding locked
    locked-Settled (t, fails f) e = spoken (said f) f t (equal-IsLike t.hub e)
    locked-Settled (t, got (fea, name)) e = addressed-Settled c.tcp name fea t e

-- A handshake of NMDC that nobody else meddles in, with a session that no peer has and a share of the hub
-- that fits in 64 bits, whatever the client sends and whichever write fails: either it ends with a peer,
-- that its session and its name find on the hub, or the hub finds the same peers, holds the same names
-- and CIDs and has the same share as before, also when the last flush fails, after the peer is accepted.
pub nmdc_handshake-Settled :
    (s : Setting) (c : Client) (v : View) (t : Talk)
    → lookup c.sid t.hub.by_sid ≡ none
    → t.hub.share < 2 ^ 64
    → Settled s c v t.hub (nmdc_handshake s c alone v t)
unfolding nmdc_handshake
nmdc_handshake-Settled s c v t new word =
    locked-Settled s c v t.hub new word (nmdc_lock s.lock_key t)
      (nmdc_lock-Along same_hub s.lock_key t)
