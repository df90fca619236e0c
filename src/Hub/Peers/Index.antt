-- ===== src/Hub/Peers/Index.antt =====
-- The indexes of the peers, by name, session and CID, with the names and CIDs that are reserved: what
-- each call of hub/hub.go does to them.
use go_dcpp.Adc.Sid.{Sid, sid_eq}
use go_dcpp.Hub.Peers.{Cid, Peer}
use go_dcpp.Base.{
  ◌≡◌, true, false, none, some, arith, nat_eq, ==_iff, list_eq, is_some, Bytes, Map, lookup, insert,
  remove, lookup-insert, lookup-remove,
}

module _ (to_lower : Bytes → Bytes) where
  -- A peer is in the index by name just when it is in the one by session, and so is a peer of ADC by
  -- CID; nothing is both reserved and in use.
  pub record IsIndexed (reserved : Map Bytes (Unit {0})) (by_name : Map Bytes Peer)
      (by_sid : Map Sid Peer) (logging : Map Cid (Unit {0})) (by_cid : Map Cid Peer) : Type 0 where
    pub unbound :
        (k : Bytes) → is_some (lookup k reserved) ≡ true → is_some (lookup k by_name) ≡ false
    pub named :
        (k : Bytes) (p : Peer)
        → lookup k by_name ≡ some p
        → (k ≡ to_lower p.name) × (lookup p.sid by_sid ≡ some p)
    pub found :
        (s : Sid) (p : Peer)
        → lookup s by_sid ≡ some p
        → (s ≡ p.sid) × (lookup (to_lower p.name) by_name ≡ some p)
    pub of_cid :
        (c : Cid) (p : Peer)
        → lookup c by_cid ≡ some p
        → (p.cid ≡ some c) × (lookup p.sid by_sid ≡ some p)
    pub with_cid :
        (s : Sid) (p : Peer) (c : Cid)
        → lookup s by_sid ≡ some p
        → p.cid ≡ some c
        → lookup c by_cid ≡ some p
    pub logging_in :
        (c : Cid) → is_some (lookup c logging) ≡ true → is_some (lookup c by_cid) ≡ false

  module _ {reserved : Map Bytes (Unit {0})} {by_name : Map Bytes Peer} {by_sid : Map Sid Peer}
      {logging : Map Cid (Unit {0})} {by_cid : Map Cid Peer}
      (v : IsIndexed reserved by_name by_sid logging by_cid) where
    pub reserve-IsIndexed :
        (k : Bytes)
        → is_some (lookup k by_name) ≡ false
        → IsIndexed (insert k tt reserved) by_name by_sid logging by_cid
    unfolding is_some
    reserve-IsIndexed k free = record {
      unbound = λ j e. ground (arith, lookup-insert k j tt reserved, v.unbound j, ==_iff k j);
      named = v.named;
      found = v.found;
      of_cid = v.of_cid;
      with_cid = v.with_cid;
      logging_in = v.logging_in;
    }

    pub unreserve-IsIndexed :
        (k : Bytes) → IsIndexed (remove k reserved) by_name by_sid logging by_cid
    unfolding is_some
    unreserve-IsIndexed k = record {
      unbound = λ j e. ground (arith, lookup-remove k j reserved, v.unbound j, ==_iff k j);
      named = v.named;
      found = v.found;
      of_cid = v.of_cid;
      with_cid = v.with_cid;
      logging_in = v.logging_in;
    }

    pub bind-IsIndexed :
        (c : Cid)
        → is_some (lookup c by_cid) ≡ false
        → IsIndexed reserved by_name by_sid (insert c tt logging) by_cid
    unfolding is_some
    bind-IsIndexed c free = record {
      unbound = v.unbound;
      named = v.named;
      found = v.found;
      of_cid = v.of_cid;
      with_cid = v.with_cid;
      logging_in = λ d e. ground (arith, lookup-insert c d tt logging, v.logging_in d, ==_iff c d);
    }

    pub unbind-IsIndexed : (c : Cid) → IsIndexed reserved by_name by_sid (remove c logging) by_cid
    unfolding is_some
    unbind-IsIndexed c = record {
      unbound = v.unbound;
      named = v.named;
      found = v.found;
      of_cid = v.of_cid;
      with_cid = v.with_cid;
      logging_in = λ d e. ground (arith, lookup-remove c d logging, v.logging_in d, ==_iff c d);
    }

    module _ (p : Peer) (key : lookup (to_lower p.name) by_name ≡ none)
        (new : lookup p.sid by_sid ≡ none) where
      pub accept-IsIndexed :
          lookup (to_lower p.name) reserved ≡ none
          → p.cid ≡ none
          → IsIndexed reserved
              (insert (to_lower p.name) p by_name)
              (insert p.sid p by_sid)
              logging
              by_cid
      unfolding is_some
      accept-IsIndexed free no_cid = record {
        unbound = λ j e. ground (
          arith,
          lookup-insert (to_lower p.name) j p by_name,
          v.unbound j,
          ==_iff (to_lower p.name) j,
        );
        named = λ j q e. ground (
          arith,
          lookup-insert (to_lower p.name) j p by_name,
          lookup-insert p.sid q.sid p by_sid,
          v.named j q,
          ==_iff (to_lower p.name) j,
          ==_iff p.sid q.sid,
        );
        found = λ s q e. ground (
          arith,
          lookup-insert (to_lower p.name) (to_lower q.name) p by_name,
          lookup-insert p.sid s p by_sid,
          v.found s q,
          ==_iff (to_lower p.name) (to_lower q.name),
          ==_iff p.sid s,
        );
        of_cid = λ c q e.
            ground (arith, lookup-insert p.sid q.sid p by_sid, v.of_cid c q, ==_iff p.sid q.sid);
        with_cid = λ s q c e f.
            ground (arith, lookup-insert p.sid s p by_sid, v.with_cid s q c, ==_iff p.sid s);
        logging_in = v.logging_in;
      }

      pub accept_cid-IsIndexed :
          (c : Cid)
          → lookup (to_lower p.name) reserved ≡ none
          → p.cid ≡ some c
          → lookup c logging ≡ none
          → lookup c by_cid ≡ none
          → IsIndexed reserved
              (insert (to_lower p.name) p by_name)
              (insert p.sid p by_sid)
              logging
              (insert c p by_cid)
      unfolding is_some
      accept_cid-IsIndexed c free has_cid unlogged uncid = record {
        unbound = λ j e. ground (
          arith,
          lookup-insert (to_lower p.name) j p by_name,
          v.unbound j,
          ==_iff (to_lower p.name) j,
        );
        named = λ j q e. ground (
          arith,
          lookup-insert (to_lower p.name) j p by_name,
          lookup-insert p.sid q.sid p by_sid,
          v.named j q,
          ==_iff (to_lower p.name) j,
          ==_iff p.sid q.sid,
        );
        found = λ s q e. ground (
          arith,
          lookup-insert (to_lower p.name) (to_lower q.name) p by_name,
          lookup-insert p.sid s p by_sid,
          v.found s q,
          ==_iff (to_lower p.name) (to_lower q.name),
          ==_iff p.sid s,
        );
        of_cid = λ d q e. ground (
          arith,
          lookup-insert c d p by_cid,
          lookup-insert p.sid q.sid p by_sid,
          v.of_cid d q,
          ==_iff c d,
          ==_iff p.sid q.sid,
        );
        with_cid = λ s q d e f. ground (
          arith,
          lookup-insert c d p by_cid,
          lookup-insert p.sid s p by_sid,
          v.with_cid s q d,
          ==_iff c d,
          ==_iff p.sid s,
        );
        logging_in = λ d e. ground (arith, lookup-insert c d p by_cid, v.logging_in d, ==_iff c d);
      }

    module _ (p : Peer) (here : lookup p.sid by_sid ≡ some p) where
      pub forget-IsIndexed :
          p.cid ≡ none
          → IsIndexed reserved
              (remove (to_lower p.name) by_name)
              (remove p.sid by_sid)
              logging
              by_cid
      unfolding is_some
      forget-IsIndexed no_cid = record {
        unbound = λ j e. ground (arith, lookup-remove (to_lower p.name) j by_name, v.unbound j);
        named = λ j q e. ground (
          arith,
          lookup-remove (to_lower p.name) j by_name,
          lookup-remove p.sid q.sid by_sid,
          v.named j q,
          ==_iff (to_lower p.name) j,
          ==_iff p.sid q.sid,
        );
        found = λ s q e. ground (
          arith,
          lookup-remove (to_lower p.name) (to_lower q.name) by_name,
          lookup-remove p.sid s by_sid,
          v.found s q,
          v.found p.sid p,
          ==_iff (to_lower p.name) (to_lower q.name),
          ==_iff p.sid s,
        );
        of_cid = λ c q e.
            ground (arith, lookup-remove p.sid q.sid by_sid, v.of_cid c q, ==_iff p.sid q.sid);
        with_cid = λ s q c e f. ground (arith, lookup-remove p.sid s by_sid, v.with_cid s q c);
        logging_in = v.logging_in;
      }

      pub forget_cid-IsIndexed :
          (c : Cid)
          → p.cid ≡ some c
          → IsIndexed reserved
              (remove (to_lower p.name) by_name)
              (remove p.sid by_sid)
              logging
              (remove c by_cid)
      unfolding is_some
      forget_cid-IsIndexed c has_cid = record {
        unbound = λ j e. ground (arith, lookup-remove (to_lower p.name) j by_name, v.unbound j);
        named = λ j q e. ground (
          arith,
          lookup-remove (to_lower p.name) j by_name,
          lookup-remove p.sid q.sid by_sid,
          v.named j q,
          ==_iff (to_lower p.name) j,
          ==_iff p.sid q.sid,
        );
        found = λ s q e. ground (
          arith,
          lookup-remove (to_lower p.name) (to_lower q.name) by_name,
          lookup-remove p.sid s by_sid,
          v.found s q,
          v.found p.sid p,
          ==_iff (to_lower p.name) (to_lower q.name),
          ==_iff p.sid s,
        );
        of_cid = λ d q e. ground (
          arith,
          lookup-remove c d by_cid,
          lookup-remove p.sid q.sid by_sid,
          v.of_cid d q,
          ==_iff c d,
          ==_iff p.sid q.sid,
        );
        with_cid = λ s q d e f. ground (
          arith,
          lookup-remove c d by_cid,
          lookup-remove p.sid s by_sid,
          v.with_cid s q d,
          v.with_cid p.sid p c,
          v.of_cid c q,
          v.found s q,
          ==_iff c d,
          ==_iff p.sid s,
        );
        logging_in = λ d e. ground (arith, lookup-remove c d by_cid, v.logging_in d);
      }
