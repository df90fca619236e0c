-- ===== src/Hub/Adc/Session/Ends.antt =====
-- What a connection of ADC leaves on the hub when it ends: hub/hub_adc.go.
use go_dcpp.Adc.Sid.{sid_eq}
use go_dcpp.Adc.ModFeatures.{ModFeatures}
use go_dcpp.Hub.Peers.{Peer, Cid, Hub, leave_cid, peer_by_sid}
use go_dcpp.Hub.Peers.Listed.{leave_cid-by_sid}
use go_dcpp.Hub.Adc.Line.{
  Read, read_failed, wrong_kind, wrong_name, undecodable, message, io_error, Line, Agreed, agreed,
  refused, stage_protocol, Failure,
}
use go_dcpp.Hub.Adc.Login.{Info, Setting, Client, Outcome, stage_identity, peer_of}
use go_dcpp.Hub.Adc.Login.Traces.{alone, stage_identity_fails}
use go_dcpp.Hub.Adc.Routing.{Outside}
use go_dcpp.Hub.Bots.{adc_close, ConnError, close_with, run_closers}
use go_dcpp.Hub.Adc.Session.{Script, closed, identified, started, serve_adc}
use go_dcpp.Base.{
  ℕ, ◌≡◌, refl, ap, ◌∙◌, inl, inr, Bool, false, Option, none, some, nat_eq, ==_refl, list_eq,
  Bool-cases, Option-cases, Bytes, lookup, lookup-remove,
}

-- The hub `h` is left when the connection of the client ends: no peer has its session; or, after the first
-- stage with this connection has agreed on features, the second stage with what is left of the connection
-- has failed because an action on it did, and left this hub.
pub data IsOver (s : Setting) (zlib : Bool) (c : Client) (t : Script) (start : Hub) (l : Line)
    (h : Hub) : Type 0 where
  gone : peer_by_sid c.sid h ≡ none → IsOver s zlib c t start l h
  lost :
      (shared : Option ModFeatures) (u : Info) (l' : Line)
      → stage_protocol zlib c.sid t.support l ≡ (l', agreed shared)
      → t.info ≡ message u
      → (stage_identity s (record c { features = shared }) alone (message u) start l').failure
        ≡ some io_error
      → h ≡ (stage_identity s (record c { features = shared }) alone (message u) start l').hub
      → IsOver s zlib c t start l h

left-by_sid :
    (to_lower : Bytes → Bytes) (p : Peer) (c : Cid) (v : ℕ) (h : Hub)
    → peer_by_sid p.sid (leave_cid to_lower p c v h).0 ≡ none
unfolding peer_by_sid
left-by_sid to_lower p c v h =
    ap (λ m. lookup p.sid m) (leave_cid-by_sid to_lower p c v h)
    ∙ rw (lookup-remove p.sid p.sid h.by_sid, ==_refl p.sid)

close-by_sid :
    (to_lower : Bytes → Bytes) (p : Peer) (c : Cid) (v : ℕ) (e : Option ConnError) (h : Hub)
    → peer_by_sid p.sid (adc_close to_lower p c v e false h).0.1 ≡ none
unfolding adc_close close_with run_closers
close-by_sid to_lower p c v none h = left-by_sid to_lower p c v h
close-by_sid to_lower p c v (some e) h = left-by_sid to_lower p c v h

module _ (s : Setting) (zlib : Bool) (c : Client) (x : Outside) (t : Script) (h : Hub)
    (l : Line) where
  closed-by_sid :
      (c' : Client) (u : Info) (r : Outcome)
      → r.failure ≡ none
      → peer_by_sid c'.sid (closed s c' alone x t u r).0 ≡ none
  unfolding closed peer_of
  closed-by_sid c' u r ok =
      let p = peer_of s c' u in
      rw ok (elim (Bool-cases t.topic_sent) [
        | inr unsent ↦ rw unsent (close-by_sid s.to_lower p u.id u.share t.close_error r.hub)
        | inl told ↦ rw told (elim (Bool-cases t.motd_sent) [
          | inr unsent ↦ rw unsent (close-by_sid s.to_lower p u.id u.share t.close_error r.hub)
          | inl sent ↦ rw sent (close-by_sid s.to_lower p u.id u.share t.close_error r.hub)
        ])
      ])

  closed_failed :
      (c' : Client) (u : Info) (r : Outcome) (f : Failure)
      → r.failure ≡ some f
      → (closed s c' alone x t u r).0 ≡ r.hub
  unfolding closed
  closed_failed c' u r f failed = rw failed refl

  -- after the handshake with a client whose info is `u`
  served-IsOver :
      (shared : Option ModFeatures) (u : Info) (l' : Line)
      → stage_protocol zlib c.sid t.support l ≡ (l', agreed shared)
      → t.info ≡ message u
      → peer_by_sid c.sid h ≡ none
      → let c' = record c { features = shared } in
        IsOver s zlib c t h l
          (closed s c' alone x t u (stage_identity s c' alone (message u) h l')).0
  unfolding peer_by_sid
  served-IsOver shared u l' said told fresh =
      let c' = record c { features = shared } in
      let r = stage_identity s c' alone (message u) h l' in
      elim (Option-cases r.failure) [
        | inl ok ↦ gone (closed-by_sid c' u r ok)
        | inr (f, failed) ↦
            let left = closed_failed c' u r f failed in
            elim (stage_identity_fails s c' h (message u) l' f failed) [
              | inl same ↦
                  gone (ap (peer_by_sid c.sid) left ∙ ap (λ m. lookup c.sid m) same.by_sid ∙ fresh)
              | inr (io, on) ↦ lost shared u l' said told (failed ∙ ap some io) left
            ]
      ]

  identified-IsOver :
      (shared : Option ModFeatures) (told : Read Info) (l' : Line)
      → stage_protocol zlib c.sid t.support l ≡ (l', agreed shared)
      → t.info ≡ told
      → peer_by_sid c.sid h ≡ none
      → IsOver s zlib c t h l (identified s (record c { features = shared }) alone x t told h l').0
  unfolding identified stage_identity
  identified-IsOver shared (message u) l' said told fresh =
      served-IsOver shared u l' said told fresh
  identified-IsOver shared read_failed l' said told fresh = gone fresh
  identified-IsOver shared wrong_kind l' said told fresh = gone fresh
  identified-IsOver shared wrong_name l' said told fresh = gone fresh
  identified-IsOver shared undecodable l' said told fresh = gone fresh

  started-IsOver :
      (l' : Line) (a : Agreed)
      → stage_protocol zlib c.sid t.support l ≡ (l', a)
      → peer_by_sid c.sid h ≡ none
      → IsOver s zlib c t h l (started s c alone x t h l' a).0
  unfolding started
  started-IsOver l' (refused f) said fresh = gone fresh
  started-IsOver l' (agreed shared) said fresh = identified-IsOver shared t.info l' said refl fresh

-- On a hub where no peer has the session of the client, and where nobody else does anything: when the
-- connection of the client ends, no peer has its session, unless an action on this connection has failed in
-- the second stage of its handshake; then the hub is the one that this stage has left.
pub serve_adc-IsOver :
    (s : Setting) (zlib : Bool) (c : Client) (x : Outside) (t : Script) (h : Hub) (l : Line)
    → peer_by_sid c.sid h ≡ none
    → IsOver s zlib c t h l (serve_adc s zlib c alone x t h l).0
unfolding serve_adc
serve_adc-IsOver s zlib c x t h l fresh =
    let (l', a) = stage_protocol zlib c.sid t.support l in
    started-IsOver s zlib c x t h l l' a refl fresh
