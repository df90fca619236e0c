-- ===== src/Hub/Nmdc/Handshake/Verify.antt =====
-- Whom the handshake of hub/hub_nmdc.go lets in.
use go_dcpp.Adc.Sid.{sid_eq}
use go_dcpp.Hub.Peers.{
  Peer, Hub, list_peers, peer_by_sid, peer_by_name, accept_peer, name_available,
}
use go_dcpp.Hub.Profiles as Profiles
use go_dcpp.Hub.Users.{UserRecord, get_user}
use go_dcpp.Hub.Users.Names.{validate_user_name}
use go_dcpp.Hub.Adc.Login.{Others}
use go_dcpp.Hub.Nmdc.Line.{
  Incoming, Ext, bot_info_ext, has_ext, Talk, Answer, got, fails, flush, nmdc_lock,
}
use go_dcpp.Hub.Nmdc.Line.Along.{flush-hub, nmdc_lock-Along}
use go_dcpp.Hub.Nmdc.Login.Accept.{accept_peer-finds}
use go_dcpp.Hub.Nmdc.Login.{Setting, Client, View, peer_of, nmdc_accept}
use go_dcpp.Hub.Nmdc.Handshake.{
  ping, End, came, last_words, flushed, finish, give_back, accepted, reserved, pinged, entered,
  named, addressed, locked, nmdc_handshake,
}
use go_dcpp.Base.{
  ℕ, ◌≡◌, refl, subst, inl, inr, Bool, true, false, Option, none, some, List, arith, nat_eq,
  list_eq, Bool-cases, Option-cases, Bytes,
}
use go_dcpp.Hub.Nmdc.Login.Knows.{brings, knows, telling, nmdc_accept-knows}

module _ (s : Setting) (c : Client) (o : Others) (v : View) where
  module _ (l : List Incoming) where
    -- the name is valid, and whoever has it as a registered user has sent the password
    abbrev IsRight : Bytes → Type 0
    IsRight name =
        (validate_user_name s.strings name ≡ none)
        × (knows c.secure (get_user name s.profiles s.db) l ≡ true)

    abbrev pub Admits : Talk × End → Type 0
    Admits (t, came p share) =
        IsRight p.name
        × ((p.sid ≡ c.sid)
            × (peer_by_sid p.sid t.hub ≡ some p)
            × (peer_by_name s.to_lower p.name t.hub ≡ some p))
    Admits (t, _) = Unit

    flushed-Admits :
        (name : Bytes) (share : ℕ) (peers : List Peer) (h : Hub) (r : Talk × Answer (Unit {0}))
        → IsRight name
        → r.0.hub ≡ accept_peer s.to_lower (peer_of s c o v name) share (λ x. (list_peers x).0) h
        → Admits (flushed s c o v name share peers r)
    unfolding flushed peer_of
    flushed-Admits name share peers h (t, fails x) right e = tt
    flushed-Admits name share peers h (t, got _) right e =
        (right, accept_peer-finds s c o v name share h t.hub e)

    accepted-Admits :
        (name : Bytes) (r : Talk × Answer ℕ)
        → validate_user_name s.strings name ≡ none
        → ((t : Talk) (share : ℕ)
            → r ≡ (t, got share)
            → knows c.secure (get_user name s.profiles s.db) l ≡ true)
        → Admits (accepted s c o v name r)
    unfolding accepted give_back last_words finish
    accepted-Admits name (t, fails e) valid known = tt
    accepted-Admits name (t, got share) valid known = elim (Bool-cases c.stays) [
      | inl stays ↦ rw stays (
          flushed-Admits name share (list_peers (o.late t.hub)).1 (o.late t.hub) (flush _)
            (valid, known t share refl) (flush-hub _))
      | inr goes ↦ rw goes tt
    ]

    -- the passwords that are to come in a state have been so in `l`
    abbrev IsLater : Talk → Type 0
    IsLater t = (p : Bytes) → brings p t.incoming ≡ true → brings p l ≡ true

    knows_later :
        (t : Talk) (r : Option (UserRecord × Option Profiles.UserProfile))
        → IsLater t
        → knows c.secure r t.incoming ≡ true
        → knows c.secure r l ≡ true
    knows_later t none later e = refl
    knows_later t (some (rec, profile)) later e = ground (arith, later rec.pass)

    reserved-Admits :
        (name : Bytes) (fea : List Ext) (t : Talk) (r : Option Hub)
        → validate_user_name s.strings name ≡ none
        → IsLater t
        → Admits (reserved s c o v name fea t r)
    unfolding reserved last_words
    reserved-Admits name fea t none valid later = tt
    reserved-Admits name fea t (some h) valid later =
        let t' = record t { hub = h } in
        accepted-Admits name (nmdc_accept s c o v name fea t') valid (λ t1 share e.
          knows_later t' (get_user name s.profiles s.db) later
            (nmdc_accept-knows s c o v name fea t' t1 share e))

    pinged-Admits : (r : Talk × Answer (Unit {0})) → Admits (pinged s c o v r)
    unfolding pinged
    pinged-Admits (t, got _) = tt
    pinged-Admits (t, fails e) = tt

    entered-Admits :
        (name : Bytes) (fea : List Ext) (t : Talk)
        → validate_user_name s.strings name ≡ none
        → IsLater t
        → Admits (entered s c o v name fea t)
    unfolding entered last_words
    entered-Admits name fea t valid later = elim (Bool-cases (has_ext fea bot_info_ext)) [
      | inl pinger ↦ rw pinger (pinged-Admits (ping s c o v name fea t))
      | inr user ↦ rw user (elim (Bool-cases (name_available s.to_lower name t.hub)) [
        | inr taken ↦ rw taken tt
        | inl free ↦
            rw free (reserved-Admits name fea (record t { hub = o.before t.hub }) _ valid later)
      ])
    ]

    addressed-Admits :
        (tcp : Bool) (name : Bytes) (fea : List Ext) (t : Talk)
        → IsLater t
        → Admits (addressed s c o v tcp name fea t)
    unfolding addressed named last_words
    addressed-Admits false name fea t later = tt
    addressed-Admits true name fea t later =
        elim (Option-cases (validate_user_name s.strings name)) [
          | inl valid ↦ rw valid (entered-Admits name fea t valid later)
          | inr (f, bad) ↦ rw bad tt
        ]

    locked-Admits : (r : Talk × Answer (List Ext × Bytes)) → IsLater r.0 → Admits (locked s c o v r)
    unfolding locked last_words
    locked-Admits (t, fails f) later = tt
    locked-Admits (t, got (fea, name)) later = addressed-Admits c.tcp name fea t later

-- A handshake of NMDC that ends with a peer, whatever others do meanwhile: the peer has a valid name, and
-- its session and its name find it on the hub; and if its name is registered, the connection is secure and
-- the password of that user is among the messages that the client has sent.
pub nmdc_handshake-Admits :
    (s : Setting) (c : Client) (o : Others) (v : View) (t t' : Talk) (p : Peer) (share : ℕ)
    → nmdc_handshake s c o v t ≡ (t', came p share)
    → Admits s c o v t.incoming (t', came p share)
unfolding nmdc_handshake
nmdc_handshake-Admits s c o v t t' p share e = subst (Admits s c o v t.incoming) e (
    locked-Admits s c o v t.incoming (nmdc_lock s.lock_key t)
      (nmdc_lock-Along telling s.lock_key t))
