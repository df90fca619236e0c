-- ===== src/Hub/Nmdc/Handle/Own.antt =====
-- In whose name `nmdcHandle` of hub/hub_nmdc.go acts, and which messages it refuses.
use go_dcpp.Adc.Sid.{sid_eq}
use go_dcpp.Hub.Commands.{Text, chat, ignored, command, is_command}
use go_dcpp.Hub.Peers.{Peer, Hub, list_peers, peer_by_name}
use go_dcpp.Hub.Rooms.{room, has_hash}
use go_dcpp.Hub.Nmdc.Chat.{parse_me}
use go_dcpp.Hub.Nmdc.Search.{SearchMessage, Asked, panics, asks, of_nmdc}
use go_dcpp.Hub.Nmdc.Search as Search
use go_dcpp.Hub.Nmdc.Handle.{
  Result, Message, chat_message, get_nick_list, connect_to_me, rev_connect_to_me, private_message,
  search, tth_active, tth_passive, result, my_info, other_message, Effect, runs_command, says,
  says_in, whispers, lists, connects, rev_connects, traverses, searches, crashes, answers, updates,
  Problem, not_own_name, not_own_address, masquerade, Handled, done, refused, Self, Outside,
  verify_addr, unless, asked, traverse, connect_by, other_than_self, run_text, handle_search,
  search_from, connect, send_to, said, reversed, answered, nmdc_handle,
}
use go_dcpp.Base.{
  ◌≡◌, refl, ◌⊎◌, inl, inr, Bool, true, false, ◌&&◌, Option, none, some, List, [], ◌∷◌, arith, ◌==◌,
  nat_eq, ==_iff, list_eq, Bool-cases, Option-cases, Bytes, All,
}

module _ (x : Outside) (self : Self) (h : Hub) where
  abbrev pub IsOn : Peer → Type 0
  IsOn q = (name : Bytes) × (peer_by_name x.to_lower name h ≡ some q)

  -- What is done is done in the name of the peer, with its address, towards peers of the hub.
  abbrev pub IsOwn : Effect → Type 0
  IsOwn (runs_command cmd args) = Unit
  IsOwn (says name text me) = name ≡ self.name
  IsOwn (says_in r name text me) = name ≡ self.name
  IsOwn (whispers q name text me) = (name ≡ self.name) × IsOn q
  IsOwn (lists peers) = peers ≡ (list_peers h).1
  IsOwn (connects q address secure) =
      (verify_addr x self address ≡ true) × IsOn q × ((q.sid == self.sid) ≡ false)
  IsOwn (rev_connects q) = IsOn q × ((q.sid == self.sid) ≡ false)
  IsOwn (traverses q address src) =
      (verify_addr x self address ≡ true)
      × ((src ≡ []) ⊎ (src ≡ self.name))
      × IsOn q
      × ((q.sid == self.sid) ≡ false)
  IsOwn (searches r) = Unit
  IsOwn crashes = Unit
  IsOwn (answers q r) = (r.from ≡ self.name) × IsOn q
  IsOwn (updates name client) = (name ≡ self.name) × (client ≡ self.client)

  abbrev pub IsFair : Handled → Type 0
  IsFair (done effects) = All IsOwn effects
  IsFair (refused e) = Unit

  unless-IsFair :
      (test : Bool) (e : Problem) (effects : List Effect)
      → (test ≡ true → All IsOwn effects)
      → IsFair (unless x self test e effects)
  unfolding unless
  unless-IsFair true e effects own = own refl
  unless-IsFair false e effects own = tt

  text-All :
      (t : Text) (effects : List Effect) → All IsOwn effects → All IsOwn (run_text x self t effects)
  unfolding run_text
  text-All chat effects own = own
  text-All ignored effects own = tt
  text-All (command cmd args) effects own = (tt, tt)

  asked-All : (a : Asked) → All IsOwn (asked x self a)
  unfolding asked
  asked-All Search.ignored = tt
  asked-All panics = (tt, tt)
  asked-All (asks r) = (tt, tt)

  search_from-IsFair : (m : SearchMessage) → IsFair (search_from x self m)
  unfolding search_from handle_search
  search_from-IsFair m =
      let own = asked-All (of_nmdc x.trim self.has_tths m) in
      elim (Bool-cases (m.address == [])) [
        | inr some_address ↦ rw some_address (
            unless-IsFair (verify_addr x self m.address) not_own_address (handle_search x self m)
              (λ _. own))
        | inl none_given ↦ rw none_given (elim (Bool-cases (m.user == [])) [
          | inr some_user ↦
              rw some_user (
                unless-IsFair (m.user == self.name) not_own_name (handle_search x self m)
                  (λ _. own))
          | inl nobody ↦ rw nobody own
        ])
      ]

  -- another peer of the hub
  abbrev IsOther : Peer → Type 0
  IsOther q = IsOn q × ((q.sid == self.sid) ≡ false)

  traverse-All :
      (q : Peer) (address src : Bytes)
      → verify_addr x self address ≡ true
      → (src ≡ []) ⊎ (src ≡ self.name)
      → IsOther q
      → All IsOwn (traverse x self q address src)
  unfolding traverse
  traverse-All q address src good named there = elim (Bool-cases (x.is_nmdc q)) [
    | inl speaks ↦ rw speaks ((good, named, there.0, there.1), tt)
    | inr other ↦ rw other tt
  ]

  connect_by-IsFair :
      (q : Peer) (address src : Bytes) (active secure : Bool)
      → verify_addr x self address ≡ true
      → IsOther q
      → IsFair (connect_by x self active q address src secure)
  unfolding connect_by
  connect_by-IsFair q address src true secure good there = ((good, there.0, there.1), tt)
  connect_by-IsFair q address [] false secure good there =
      traverse-All q address [] good (inl refl) there
  connect_by-IsFair q address (d ∷ src) false secure good there =
      elim (Bool-cases (d ∷ src == self.name)) [
        | inr foreign ↦ rw foreign tt
        | inl own ↦
            rw own (
              traverse-All q address (d ∷ src) good (inr ((==_iff (d ∷ src) self.name).0 own))
                there)
      ]

  connect-IsFair :
      (found : Option Peer) (address src : Bytes) (active secure : Bool)
      → ((q : Peer) → found ≡ some q → IsOther q)
      → IsFair (connect x self found address src active secure)
  unfolding connect
  connect-IsFair none address src active secure there = tt
  connect-IsFair (some q) address src active secure there =
      elim (Bool-cases (verify_addr x self address)) [
        | inr bad ↦ rw bad tt
        | inl good ↦ rw good (connect_by-IsFair q address src active secure good (there q refl))
      ]

  other_than_self-IsOther :
      (name : Bytes) (r : Option Peer) (q : Peer)
      → peer_by_name x.to_lower name h ≡ r
      → other_than_self x self r ≡ some q
      → IsOther q
  unfolding other_than_self
  other_than_self-IsOther name none q e f = ground arith
  other_than_self-IsOther name (some p) q e f = ((name, ground arith), ground arith)

  send_to-All :
      (to name text : Bytes) (me : Bool)
      → name ≡ self.name
      → All IsOwn (send_to x self to name (me, text) h)
  unfolding send_to
  send_to-All to name text me own = elim (Bool-cases (has_hash to)) [
    | inl to_room ↦ rw to_room (elim (Option-cases (room to h.rooms)) [
      | inl nowhere ↦ rw nowhere tt
      | inr (r, there) ↦ rw there (own, tt)
    ])
    | inr to_peer ↦ rw to_peer (elim (Option-cases (peer_by_name x.to_lower to h)) [
      | inl nobody ↦ rw nobody tt
      | inr (q, there) ↦ rw there ((own, (to, there)), tt)
    ])
  ]

  rev-All :
      (found : Option Peer)
      → ((q : Peer) → found ≡ some q → IsOther q)
      → All IsOwn (reversed x self found)
  unfolding reversed
  rev-All none there = tt
  rev-All (some q) there = (there q refl, tt)

  answered-All :
      (found : Option Peer) (r : Result)
      → r.from ≡ self.name
      → ((q : Peer) → found ≡ some q → IsOn q)
      → All IsOwn (answered x self found r)
  unfolding answered
  answered-All none r own there = tt
  answered-All (some q) r own there = ((own, there q refl), tt)

-- Whatever message comes, what the hub does on it is done in the name of the peer that it comes from and
-- towards peers that are on the hub: chat, private messages, results and changes of the info bear its name,
-- a connection is asked of another peer and for the address of the connection, or for its own name, and the
-- client in its info stays.
pub nmdc_handle-IsFair :
    (x : Outside) (self : Self) (h : Hub) (m : Message) → IsFair x self h (nmdc_handle x self m h)
unfolding nmdc_handle said
nmdc_handle-IsFair x self h (chat_message name text) =
    unless-IsFair x self h (name == self.name) not_own_name _ (λ own.
      text-All x self h (is_command x.starts_letter text) _ ((==_iff name self.name).0 own, tt))
nmdc_handle-IsFair x self h get_nick_list = (refl, tt)
nmdc_handle-IsFair x self h (connect_to_me targ address src active secure) =
    connect-IsFair x self h (other_than_self x self (peer_by_name x.to_lower targ h)) address src
      active secure
      (λ q. other_than_self-IsOther x self h targ (peer_by_name x.to_lower targ h) q refl)
nmdc_handle-IsFair x self h (rev_connect_to_me from to) =
    unless-IsFair x self h (from == self.name) not_own_name _ (λ own.
      rev-All x self h (other_than_self x self (peer_by_name x.to_lower to h))
        (λ q. other_than_self-IsOther x self h to (peer_by_name x.to_lower to h) q refl))
nmdc_handle-IsFair x self h (private_message from name to text) =
    unless-IsFair x self h (from == self.name && name == self.name) not_own_name _ (λ own.
      send_to-All x self h to from (parse_me text).1 (parse_me text).0
        (ground (arith, ==_iff from self.name)))
nmdc_handle-IsFair x self h (search m) = search_from-IsFair x self h m
nmdc_handle-IsFair x self h (tth_active address tth) =
    unless-IsFair x self h (verify_addr x self address) not_own_address _ (λ own. (tt, tt))
nmdc_handle-IsFair x self h (tth_passive user tth) =
    unless-IsFair x self h (user == self.name) not_own_name _ (λ own. (tt, tt))
nmdc_handle-IsFair x self h (result r) =
    unless-IsFair x self h (r.from == self.name) not_own_name _ (λ own.
      answered-All x self h (peer_by_name x.to_lower r.to h) r ((==_iff r.from self.name).0 own)
        (λ q there. (r.to, there)))
nmdc_handle-IsFair x self h (my_info name client) = elim (Bool-cases (name == self.name)) [
  | inr other ↦ rw other tt
  | inl own ↦ rw own (
      unless-IsFair x self h (client == self.client) masquerade _
        (λ same. (((==_iff name self.name).0 own, (==_iff client self.client).0 same), tt)))
]
nmdc_handle-IsFair x self h other_message = tt
