-- ===== src/Hub/Nmdc/Login/Accept.antt =====
-- What `nmdcAccept` of hub/hub_nmdc.go does to the hub, and whom it lets through.
use go_dcpp.Adc.Sid.{sid_eq}
use go_dcpp.Hub.Peers.{
  Peer, Hub, list_peers, accept_peer, peer_by_sid, peer_by_name, inc_share, invalidate_list,
}
use go_dcpp.Hub.Profiles as Profiles
use go_dcpp.Hub.Users.{UserRecord}
use go_dcpp.Hub.Adc.Login.{Others}
use go_dcpp.Hub.Nmdc.Line.{Info, Ext, Sent, Talk, M, write, on_hub}
use go_dcpp.Hub.Nmdc.Line.Along.{
  Change, Along, >>=-Along, write-Along, flush-Along, read-Along, pure-Along, raise-Along,
  guard-Along,
}
use go_dcpp.Hub.Nmdc.Login.{
  Setting, Client, View, write_all, when, peer_of, refuse_pass, ask_pass, check_user, info_after,
  greet_end, send_lists, log_in, nmdc_accept,
}
use go_dcpp.Base.{
  ℕ, ◌≡◌, refl, ap, ◌∙◌, Bool, true, false, Option, none, some, List, [], ◌∷◌, nat_eq, ==_refl,
  list_eq, Bytes, lookup, lookup-insert,
}

module _ (ch : Change) where
  write_all-Along : (l : List Sent) → Along ch (write_all l)
  unfolding write_all
  write_all-Along [] = pure-Along ch tt
  write_all-Along (m ∷ l) =
      >>=-Along ch (write m) (λ _. write_all l) (write-Along ch m) (λ _. write_all-Along l)

  when-Along : (b : Bool) (m : M (Unit {0})) → Along ch m → Along ch (when b m)
  unfolding when
  when-Along true m a = a
  when-Along false m a = pure-Along ch tt

  module _ (s : Setting) (c : Client) (o : Others) (v : View) where
    refuse_pass-Along : (b : Bool) → Along ch (refuse_pass s c o v b)
    unfolding refuse_pass
    refuse_pass-Along true = pure-Along ch tt
    refuse_pass-Along false = search (>>=-Along ch, write-Along ch, raise-Along ch)

    ask_pass-Along : (rec : UserRecord) → Along ch (ask_pass s c o v rec)
    unfolding ask_pass
    ask_pass-Along rec =
        search (>>=-Along ch, write-Along ch, read-Along ch, refuse_pass-Along) depth 20

    check_user-Along :
        (r : Option (UserRecord × Option Profiles.UserProfile)) → Along ch (check_user s c o v r)
    unfolding check_user
    check_user-Along none = pure-Along ch tt
    check_user-Along (some (rec, profile)) = search (>>=-Along ch, guard-Along ch, ask_pass-Along)

    info_after-Along : (r : Option Info) → Along ch (info_after s c o v r)
    unfolding info_after
    info_after-Along none = search (read-Along ch)
    info_after-Along (some u) = search (pure-Along ch)

    greet_end-Along : (b : Bool) → Along ch (greet_end s c o v b)
    unfolding greet_end
    greet_end-Along true = search (write-Along ch)
    greet_end-Along false = search (flush-Along ch)

    send_lists-Along :
        (name : Bytes) (fea : List Ext) (peers : List Peer)
        → Along ch (send_lists s c o v name fea peers)
    unfolding send_lists
    send_lists-Along name fea peers =
        search (>>=-Along ch, write-Along ch, when-Along, write_all-Along) depth 20

    module _
        (looks : (t : Talk) → ch.Holds t (record t { hub = (list_peers (o.during t.hub)).0 })) where
      look-Along : Along ch (on_hub (λ h. list_peers (o.during h)))
      unfolding on_hub
      look-Along t = looks t

      log_in-Along : (name : Bytes) (fea : List Ext) → Along ch (log_in s c o v name fea)
      unfolding log_in
      log_in-Along name fea =
          search
            (
              >>=-Along ch,
              write-Along ch,
              flush-Along ch,
              read-Along ch,
              pure-Along ch,
              guard-Along ch,
              when-Along,
              write_all-Along,
              greet_end-Along,
              info_after-Along,
              send_lists-Along,
              look-Along,
            )
            depth 60 fits 4000

      pub nmdc_accept-Along :
          (name : Bytes) (fea : List Ext) → Along ch (nmdc_accept s c o v name fea)
      unfolding nmdc_accept
      nmdc_accept-Along name fea =
          search (>>=-Along ch, write-Along ch, check_user-Along, log_in-Along) depth 20

-- A peer that is accepted is found.
pub accept_peer-finds :
    (s : Setting) (c : Client) (o : Others) (v : View) (name : Bytes) (share : ℕ) (h h' : Hub)
    → h' ≡ accept_peer s.to_lower (peer_of s c o v name) share (λ x. (list_peers x).0) h
    → ((peer_of s c o v name).sid ≡ c.sid)
      × (peer_by_sid c.sid h' ≡ some (peer_of s c o v name))
      × (peer_by_name s.to_lower (peer_of s c o v name).name h' ≡ some (peer_of s c o v name))
unfolding accept_peer invalidate_list inc_share peer_of peer_by_sid peer_by_name
accept_peer-finds s c o v name share h h' e =
    let key = s.to_lower name in
    let p = peer_of s c o v name in
    (
      refl,
      ap (λ x. lookup c.sid x.by_sid) e ∙ rw (lookup-insert c.sid c.sid p _, ==_refl c.sid),
      ap (λ x. lookup key x.by_name) e ∙ rw (lookup-insert key key p _, ==_refl key),
    )
