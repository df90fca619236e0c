-- ===== src/Hub/Nmdc/Handshake/Like.antt =====
-- What stays the same of a hub, and during the parts of a handshake of hub/hub_nmdc.go.
use go_dcpp.Adc.Sid.{Sid, sid_eq}
use go_dcpp.Hub.Peers.{Hub, list_peers}
use go_dcpp.Hub.Adc.Login.Traces.{alone}
use go_dcpp.Hub.Nmdc.Line.{Ext, Talk}
use go_dcpp.Hub.Nmdc.Line.Along.{Change, on_hubs, >>=-Along, write-Along, flush-Along, read-Along}
use go_dcpp.Hub.Nmdc.Login.{Setting, Client, View}
use go_dcpp.Hub.Nmdc.Handshake.{ping}
use go_dcpp.Hub.Nmdc.Login.Accept.{nmdc_accept-Along}
use go_dcpp.Base.{◌≡◌, refl, ap, ◌∙◌, List, arith, nat_eq, list_eq, Bytes, lookup}

-- The hubs differ at most in the list that is kept.
pub record IsLike (h h' : Hub) : Type 0 where
  pub reserved : h'.reserved ≡ h.reserved
  pub by_name : h'.by_name ≡ h.by_name
  pub by_sid : h'.by_sid ≡ h.by_sid
  pub share : h'.share ≡ h.share
  pub logging : h'.logging_cid ≡ h.logging_cid
  pub by_cid : h'.by_cid ≡ h.by_cid

pub IsLike-refl : (h : Hub) → IsLike h h
IsLike-refl h = record {
  reserved = refl;
  by_name = refl;
  by_sid = refl;
  share = refl;
  logging = refl;
  by_cid = refl;
}

pub IsLike-trans : (h h' h'' : Hub) → IsLike h h' → IsLike h' h'' → IsLike h h''
IsLike-trans h h' h'' a b = record {
  reserved = b.reserved ∙ a.reserved;
  by_name = b.by_name ∙ a.by_name;
  by_sid = b.by_sid ∙ a.by_sid;
  share = b.share ∙ a.share;
  logging = b.logging ∙ a.logging;
  by_cid = b.by_cid ∙ a.by_cid;
}

pub list_peers-IsLike : (h : Hub) → IsLike h (list_peers h).0
unfolding list_peers
list_peers-IsLike h = record {
  reserved = ground arith;
  by_name = ground arith;
  by_sid = ground arith;
  share = ground arith;
  logging = ground arith;
  by_cid = ground arith;
}

abbrev pub quiet : Change
quiet = on_hubs IsLike IsLike-refl IsLike-trans

-- The hub finds the same peers by their sessions and names, holds the same names and CIDs, and has the
-- same share.
pub record IsAsBefore (h h' : Hub) : Type 0 where
  pub reserved : (k : Bytes) → lookup k h'.reserved ≡ lookup k h.reserved
  pub by_name : (k : Bytes) → lookup k h'.by_name ≡ lookup k h.by_name
  pub by_sid : (id : Sid) → lookup id h'.by_sid ≡ lookup id h.by_sid
  pub share : h'.share ≡ h.share
  pub logging : h'.logging_cid ≡ h.logging_cid
  pub by_cid : h'.by_cid ≡ h.by_cid

pub IsLike-IsAsBefore : (h h' : Hub) → IsLike h h' → IsAsBefore h h'
IsLike-IsAsBefore h h' a = record {
  reserved = λ k. ap (lookup k) a.reserved;
  by_name = λ k. ap (λ m. lookup k m) a.by_name;
  by_sid = λ id. ap (λ m. lookup id m) a.by_sid;
  share = a.share;
  logging = a.logging;
  by_cid = a.by_cid;
}

-- the hub is not touched
abbrev pub same_hub : Change
same_hub = on_hubs (λ h h'. h' ≡ h) (λ h. refl) (λ h h' h'' a b. b ∙ a)

pub ping-IsLike :
    (s : Setting) (c : Client) (v : View) (name : Bytes) (fea : List Ext) (t : Talk)
    → IsLike t.hub (ping s c alone v name fea t).0.hub
unfolding ping
ping-IsLike s c v name fea =
    let accepts = nmdc_accept-Along quiet s c alone v (λ x. list_peers-IsLike x.hub) in
    search (>>=-Along quiet, write-Along quiet, flush-Along quiet, read-Along quiet, accepts) depth
      20
