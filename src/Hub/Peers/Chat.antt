-- ===== src/Hub/Peers/Chat.antt =====
-- The global chat of the hub and the peers that are connected.
use go_dcpp.Adc.Sid.{Sid, sid_eq}
use go_dcpp.Hub.Peers.{Peer}
use go_dcpp.Hub.Rooms.{Rooms, in_room, join, leave, leave_rooms}
use go_dcpp.Hub.Rooms.Membership.{
  IsTracked, join-IsTracked, leave-IsTracked, leave_rooms-IsTracked, in_room-join, in_room-leave,
  in_room-leave_rooms, join-heap, leave-heap, leave_rooms-heap,
}
use go_dcpp.Base.{
  ◌≡◌, ◌∙◌, ◌≢◌, true, arith, nat_eq, ==_iff, list_eq, is_some, Map, lookup, insert, remove,
  lookup-insert, lookup-remove,
}

-- The global chat exists, those in it are the peers that are connected, and the peers' lists of rooms
-- are kept.
pub record IsChat (global : Sid) (by_sid : Map Sid Peer) (h : Rooms) : Type 0 where
  pub tracked : IsTracked h
  pub is_there : is_some (lookup global h.heap) ≡ true
  pub connected : (s : Sid) → in_room global s h ≡ is_some (lookup s by_sid)

module _ {global : Sid} {by_sid : Map Sid Peer} {h : Rooms} (v : IsChat global by_sid h) where
  pub accept-IsChat : (p : Peer) → IsChat global (insert p.sid p by_sid) (join global p.sid h)
  unfolding is_some
  accept-IsChat p = record {
    tracked = join-IsTracked global p.sid h v.tracked;
    is_there = join-heap global p.sid global h ∙ v.is_there;
    connected = λ s. ground (
      arith,
      in_room-join global p.sid s global h,
      lookup-insert p.sid s p by_sid,
      v.connected s,
      v.is_there,
      ==_iff global global,
      ==_iff p.sid s,
    );
  }

  pub forget-IsChat : (p : Peer) → IsChat global (remove p.sid by_sid) (leave_rooms global p.sid h)
  unfolding is_some
  forget-IsChat p = record {
    tracked = leave_rooms-IsTracked global p.sid h v.tracked;
    is_there = leave_rooms-heap global p.sid global h ∙ v.is_there;
    connected = λ s. ground (
      arith,
      in_room-leave_rooms global p.sid s global h v.tracked,
      lookup-remove p.sid s by_sid,
      v.connected s,
      ==_iff p.sid s,
    );
  }

  pub enter-IsChat : (r p : Sid) → r ≢ global → IsChat global by_sid (join r p h)
  unfolding is_some
  enter-IsChat r p other = record {
    tracked = join-IsTracked r p h v.tracked;
    is_there = join-heap r p global h ∙ v.is_there;
    connected = λ s. ground (arith, in_room-join r p s global h, v.connected s, ==_iff r global);
  }

  pub exit-IsChat : (r p : Sid) → r ≢ global → IsChat global by_sid (leave r p h)
  unfolding is_some
  exit-IsChat r p other = record {
    tracked = leave-IsTracked r p h v.tracked;
    is_there = leave-heap r p global h ∙ v.is_there;
    connected = λ s. ground (arith, in_room-leave r p s global h, v.connected s, ==_iff r global);
  }
