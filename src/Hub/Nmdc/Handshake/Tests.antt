-- ===== src/Hub/Nmdc/Handshake/Tests.antt =====
-- Handshakes of NMDC: hub/hub_nmdc.go.
use go_dcpp.Adc.Sid.{sid_from_int, sid_eq}
use go_dcpp.Hub.Peers.{
  new_hub, list_peers, name_available, reserve_name, accept_peer, inc_share, invalidate_list,
}
use go_dcpp.Hub.Users.{UserRecord, get_user, db_get_user}
use go_dcpp.Hub.Users.Names.{Strings, validate_user_name, one_of, any_of, first_of, fails_to_encode}
use go_dcpp.Hub.Adc.Login.Traces.{alone}
use go_dcpp.Hub.Nmdc.Line.{
  Incoming, supports, key, validate_nick, my_pass, version, my_info, get_nick_list, no_hello_ext,
  no_get_info_ext, Talk, nmdc_lock, write, read, flush, guard, pure, on_hub, has_ext, common,
  same_ext,
}
use go_dcpp.Hub.Nmdc.Login.{Setting, Client, View, nmdc_accept, peer_of, is_insecure}
use go_dcpp.Hub.Nmdc.Handshake.{
  End, came, accepted, addressed, entered, finish, flushed, last_words, locked, named, reserved,
  nmdc_handshake,
}
use go_dcpp.Hub.Nmdc.Handshake.Ends.{Settled, nmdc_handshake-Settled}
use go_dcpp.Hub.Nmdc.Handshake.Verify.{Admits, nmdc_handshake-Admits}
use go_dcpp.Base.{
  refl, Bool, true, false, none, some, List, [], ◌∷◌, ◌++◌, arith, nat_eq, list_eq, is_some, Bytes,
  codes, replicate, lookup, insert, remove,
}

abbrev plain : Strings
plain = record { trim_space = λ b. b; runes = λ b. b; is_graphic = λ r. true; fallback = none }

abbrev alice : UserRecord
alice = record { name = codes "alice"; pass = codes "pw"; profile = [] }

-- a hub with one registered user
abbrev setting : Setting
setting = record {
  to_lower = λ b. b;
  lock_key = codes "key";
  strings = plain;
  profiles = [];
  db = some (record { users = (codes "alice", alice) ∷ []; profiles = []; bans = [] });
  zlib = false;
  commands = 0;
}

abbrev client : Client
client = record {
  sid = sid_from_int 5;
  tcp = true;
  secure = some true;
  close_error = none;
  online = true;
  stays = true;
}

abbrev view : View
view = record { is_op = λ p. true; is_bot = λ p. false; has_ip = λ p. true; sees_ips = false }

-- what a client sends that has a name and gives a password
abbrev letters : Bytes → Bytes → List Incoming
letters name pass =
    supports (no_hello_ext ∷ no_get_info_ext ∷ [])
    ∷ key (codes "key")
    ∷ validate_nick name
    ∷ my_pass pass
    ∷ version (codes "1,0091")
    ∷ get_nick_list
    ∷ my_info (record { name = name; share = 7 })
    ∷ []

abbrev talk : List Bool → Bytes → Talk
talk oks pass = record {
  oks = oks;
  incoming = letters (codes "alice") pass;
  sent = [];
  hub = new_hub;
}

-- every write works but the flush at the end
abbrev cut_off : List Bool
cut_off = replicate 11 true ++ false ∷ []

nmdc_handshake-Settled_example :
    Settled setting client view new_hub
      (nmdc_handshake setting client alone view (talk cut_off (codes "pw")))
unfolding new_hub lookup
nmdc_handshake-Settled_example =
    nmdc_handshake-Settled setting client view (talk cut_off (codes "pw")) refl (omega arith)

abbrev done : Talk × End
done = nmdc_handshake setting client alone view (talk [] (codes "pw"))

nmdc_handshake-Admits_example :
    Admits setting client alone view
      (letters (codes "alice") (codes "pw"))
      (done.0, came (peer_of setting client alone view (codes "alice")) 7)
unfolding nmdc_handshake nmdc_lock write read guard has_ext pure validate_user_name one_of first_of
    any_of fails_to_encode common name_available is_some lookup new_hub reserve_name insert remove
    accepted addressed entered finish flushed last_words locked named reserved flush on_hub same_ext
    is_insecure nmdc_accept peer_of accept_peer inc_share invalidate_list list_peers db_get_user
    get_user
nmdc_handshake-Admits_example =
    nmdc_handshake-Admits setting client alone view (talk [] (codes "pw")) done.0
      (peer_of setting client alone view (codes "alice")) 7 refl
