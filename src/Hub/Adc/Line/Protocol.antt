-- ===== src/Hub/Adc/Line/Protocol.antt =====
-- Who passes `adcStageProtocol` of hub/hub_adc.go.
use go_dcpp.Adc.Feature.{Feature, feature_eq}
use go_dcpp.Adc.ModFeatures.{ModFeatures, is_set, intersect, supports, lookup-intersect}
use go_dcpp.Adc.Sid.{Sid}
use go_dcpp.Hub.Adc.Line.{
  message, no_base, no_tigr, Action, write, switch_zlib, flush, Line, act, act_all, fea_base,
  fea_bas0, fea_tigr, hub_features, agreed, refused, greeting, welcomed, stage_protocol,
}
use go_dcpp.Base.{
  ◌≡◌, refl, ap, ◌∙◌, Bool, true, not, ◌&&◌, ◌||◌, Option, some, List, [], ◌∷◌, ◌++◌, arith,
  if◌then◌else◌, nat_eq, list_eq, lookup,
}

-- A connection that takes everything takes a list of actions.
act_all_ok : (actions : List Action) (l : Line) → l.oks ≡ [] → (act_all actions l).1 ≡ true
unfolding act_all act
act_all_ok [] l e = refl
act_all_ok (write m ∷ actions) l e =
    ground (arith, act_all_ok actions (record { oks = []; sent = l.sent ++ m ∷ [] }) refl)
act_all_ok (switch_zlib ∷ actions) l e = ground (arith, act_all_ok actions l e)
act_all_ok (flush ∷ actions) l e = ground (arith, act_all_ok actions l e)

-- The features that both sides have.
both_have :
    (f : Feature) (sup : ModFeatures)
    → is_set f (intersect (some hub_features) (some sup))
      ≡ (supports f hub_features && supports f sup)
unfolding lookup
both_have f sup =
    let (m, is, at, set_to) = lookup-intersect f hub_features sup (ground arith) in
    ap (is_set f) is ∙ set_to

welcomed-agreed :
    (shared : Option ModFeatures) (l : Line × Bool)
    → l.1 ≡ true
    → (welcomed shared l).1 ≡ agreed shared
unfolding welcomed
welcomed-agreed shared (l, ok) e = rw e refl

-- On a connection that takes everything, a client passes `adcStageProtocol` just when it adds TIGR and
-- one of BASE and BAS0.
pub stage_protocol_lem :
    (zlib : Bool) (session : Sid) (sup : ModFeatures) (l : Line)
    → l.oks ≡ []
    → (stage_protocol zlib session (message (some sup)) l).1 ≡ (
        if not (supports fea_base sup || supports fea_bas0 sup)
        then refused no_base
        else if not (supports fea_tigr sup)
        then refused no_tigr
        else agreed (intersect (some hub_features) (some sup)))
unfolding stage_protocol supports lookup
stage_protocol_lem zlib session sup l e =
    let shared = intersect (some hub_features) (some sup) in
    ground (
      arith,
      both_have fea_base sup,
      both_have fea_bas0 sup,
      both_have fea_tigr sup,
      welcomed-agreed shared (act_all (greeting zlib shared session) l)
          (act_all_ok (greeting zlib shared session) l e),
    )
