-- ===== src/Hub/Adc/Users/Infos.antt =====
-- What of the info of a user gets through the conversions of hub/hub_adc.go.
use go_dcpp.Adc.Feature.{feature_eq}
use go_dcpp.Hub.Peers.{Cid}
use go_dcpp.Hub.Adc.Users.{
  user_normal, UserInfo, AdcUser, has_feature, when_on, to_adc_user, info_of, user_info,
  cut_last_space, normalize, fix_user_info,
}
use go_dcpp.Base.{
  ◌≡◌, refl, ◌≢◌, Bool, Option, none, some, [], ◌∷◌, ◌++◌, arith, nat_eq, ==_iff, list_eq, Bytes,
  Lacks,
}

-- The info of a user that is written for ADC and read back is the same, but that its kind is lost.
pub user_info-to_adc_user :
    (cid : Cid) (may may' : Option (Bytes → Bool)) (u : UserInfo)
    → user_info may' (to_adc_user cid may u) ≡ record u { kind = user_normal }
unfolding user_info to_adc_user info_of has_feature when_on
user_info-to_adc_user cid may may' u = ground arith

cut_last_space_lem :
    (name version : Bytes)
    → Lacks b' ' version
    → (cut_last_space version ≡ none)
      × (cut_last_space (name ++ b' ' ∷ version) ≡ some (name, version))
unfolding cut_last_space
cut_last_space_lem [] [] h = (refl, refl)
cut_last_space_lem [] (c ∷ version) h = ground (arith, cut_last_space_lem [] version h.1)
cut_last_space_lem (d ∷ name) version h = ground (arith, cut_last_space_lem name version h)

-- A user whose application has a name and whose version has no space is the same for a client without
-- the field for the application, to which both are sent as the version, after that client has taken it
-- apart as `Normalize` does; to other clients it is sent as it is.
pub normalize-fix_user_info :
    (own : Bytes) (u : AdcUser)
    → u.application ≢ []
    → Lacks b' ' u.version
    → own ≢ []
    → (normalize (fix_user_info [] u) ≡ u) × (fix_user_info own u ≡ u)
unfolding normalize fix_user_info
normalize-fix_user_info own u named whole has = (
  ground (arith, ==_iff u.application [], cut_last_space_lem u.application u.version whole),
  ground (arith, ==_iff own []),
)
