-- ===== src/Hub/Nmdc/Handshake.antt =====
-- The handshake of NMDC: `nmdcHandshake` of hub/hub_nmdc.go. The notice to the other peers and the replay of
-- the chat are left out.
pub mod Like
pub mod Ends
pub mod Verify
mod Tests
use go_dcpp.Adc.Sid.{Sid}
use go_dcpp.Hub.Peers.{
  Peer, Hub, list_peers, name_available, reserve_name, unbind_name, accept_peer, leave,
}
use go_dcpp.Hub.Profiles as Profiles
use go_dcpp.Hub.Users.{UserRecord, MemDb, get_user}
use go_dcpp.Hub.Users.Names.{NameError, Strings, validate_user_name}
use go_dcpp.Hub.Bots.{close_with, ConnError}
use go_dcpp.Hub.Adc.Login.{Others}
use go_dcpp.Hub.Nmdc.Line.{
  Info, Incoming, my_pass, version, my_info, get_nick_list, bot_info, Ext, bot_info_ext,
  user_ip_ext, user_command_ext, bot_list_ext, zpipe_ext, has_ext, hub_info_ext, Failure, io_error,
  not_tcp, nick_taken, insecure, wrong_password, bad_version, nick_mismatch, offline, bad_name,
  Sent, hub_name, get_pass, bad_pass, hub_topic, user_command, hub_info, zon, said, denied, hello,
  info_of, op_list, bot_list, user_ips, Talk, Answer, got, fails, M, goes_on, ◌>>=◌, ◌>>◌, pure,
  raise, guard, write, flush, read, on_hub, nmdc_lock,
}
use go_dcpp.Base.{
  ℕ, Bool, true, false, not, Option, none, some, List, [], ◌∷◌, if◌then◌else◌, Bytes,
}
use go_dcpp.Hub.Nmdc.Login.{Setting, Client, View, peer_of, as_bot, nmdc_accept}

-- How a handshake ends: with an error, with no peer, or with a peer on the hub, that has a share.
pub data End : Type 0 where
  failed : Failure → End
  no_peer : End
  came : Peer → ℕ → End

-- `closeOn`, given the error of closing the connection; `v` is the share of the peer
unfoldable pub nmdc_close :
    (Bytes → Bytes)
    → Peer
    → ℕ
    → Option (List Peer)
    → Option ConnError
    → Bool
    → Hub
    → (Bool × Hub) × Option ConnError
unfolding close_with
nmdc_close to_lower p v notify conn_error is_offline h =
    close_with ((λ s. (s, conn_error)) ∷ (λ s. ((leave to_lower p v notify s).0, none)) ∷ [])
      is_offline h

module _ (s : Setting) (c : Client) (o : Others) (v : View) where
  -- a last message, whose own error is ignored
  last_words : Sent → End → Talk → Talk × End
  last_words m e t = ((write m t).0, e)

  flushed : Bytes → ℕ → List Peer → Talk × Answer (Unit {0}) → Talk × End
  unfolding peer_of
  flushed name share l (t, got _) = (t, came (peer_of s c o v name) share)
  flushed name share l (t, fails e) = (
    record t {
      hub =
          (nmdc_close s.to_lower (peer_of s c o v name) share (some l) c.close_error false
            t.hub).0.1;
    },
    failed e,
  )

  -- h.acceptPeer, up to the end; the list of the peers is made under its lock
  finish : Bytes → ℕ → Talk → Talk × End
  unfolding flushed
  finish name share t =
      let l = (list_peers t.hub).1 in
      let h = accept_peer s.to_lower (peer_of s c o v name) share (λ x. (list_peers x).0) t.hub in
      flushed name share l (flush (record t { hub = h }))

  -- unbind()
  give_back : Bytes → Failure → End → Talk → Talk × End
  unfolding last_words
  give_back name e end t =
      last_words (said e) end (record t { hub = unbind_name s.to_lower name (λ x. x) t.hub })

  accepted : Bytes → Talk × Answer ℕ → Talk × End
  unfolding give_back finish
  accepted name (t, fails e) = give_back name e (failed e) t
  accepted name (t, got share) =
      if c.stays
      then finish name share (record t { hub = o.late t.hub })
      else give_back name offline no_peer t

  reserved : Bytes → List Ext → Talk → Option Hub → Talk × End
  unfolding accepted last_words
  reserved name fea t none = last_words (denied name) (failed nick_taken) t
  reserved name fea t (some h) = accepted name (nmdc_accept s c o v name fea (record t { hub = h }))

  -- a client that asks for the info of the hub is not accepted as a peer
  pub ping : Bytes → List Ext → M (Unit {0})
  ping name fea = do
    _ ← nmdc_accept s c o v name (hub_info_ext ∷ fea)
    _ ← read as_bot
    write hub_info
    flush

  pinged : Talk × Answer (Unit {0}) → Talk × End
  pinged (t, got _) = (t, no_peer)
  pinged (t, fails e) = (t, failed e)

  entered : Bytes → List Ext → Talk → Talk × End
  unfolding reserved last_words ping pinged
  entered name fea t =
      if has_ext fea bot_info_ext
      then pinged (ping name fea t)
      else if not (name_available s.to_lower name t.hub)
      then last_words (denied name) (failed nick_taken) t
      else let h = o.before t.hub in
        reserved name fea (record t { hub = h }) (reserve_name s.to_lower name some h)

  named : Bytes → List Ext → Talk → Option NameError → Talk × End
  unfolding entered last_words
  named name fea t (some e) = last_words (said (bad_name e)) (failed (bad_name e)) t
  named name fea t none = entered name fea t

  -- whether the address is one of TCP
  addressed : Bool → Bytes → List Ext → Talk → Talk × End
  unfolding named last_words
  addressed false name fea t = last_words (said not_tcp) (failed not_tcp) t
  addressed true name fea t = named name fea t (validate_user_name s.strings name)

  locked : Talk × Answer (List Ext × Bytes) → Talk × End
  unfolding addressed last_words
  locked (t, fails e) = last_words (said e) (failed e) t
  locked (t, got (fea, name)) = addressed c.tcp name fea t

  -- `nmdcHandshake`
  pub nmdc_handshake : Talk → Talk × End
  unfolding locked
  nmdc_handshake t = locked (nmdc_lock s.lock_key t)
