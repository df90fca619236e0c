-- ===== src/Hub/Adc/Users.antt =====
-- The info of a user: between `UserInfo` of hub/hub.go and `adc.User` in hub/hub_adc.go, with `Normalize`
-- of adc/messages.go. Numbers of 64 bits stand by their bits. Fields of `adc.User` that this code does not
-- touch are left out.
pub mod Infos
use go_dcpp.Adc.Feature.{Feature, feature, feature_eq}
use go_dcpp.Hub.Peers.{Cid}
use go_dcpp.Base.{
  ℕ, Bool, true, false, not, ◌&&◌, Option, none, some, List, [], ◌∷◌, ◌++◌, if◌then◌else◌, ◌==◌,
  nat_eq, list_eq, Bytes, codes,
}

pub data UserKind : Type 0 where
  user_normal user_hub user_bot : UserKind

-- `adc.UserType`
abbrev pub UserType : Type 0
UserType = ℕ

-- `UserInfo`
pub record UserInfo : Type 0 where
  pub name : Bytes
  pub desc : Bytes
  pub kind : UserKind
  pub app_name : Bytes
  pub app_version : Bytes
  pub hubs_normal : ℕ
  pub hubs_registered : ℕ
  pub hubs_operator : ℕ
  pub slots : ℕ
  pub share : ℕ
  pub email : Bytes
  pub ipv4 : Bool
  pub ipv6 : Bool
  pub tls : Bool

-- `adc.User`
pub record AdcUser : Type 0 where
  pub id : Cid
  pub name : Bytes
  pub share_size : ℕ
  pub version : Bytes
  pub application : Bytes
  pub slots : ℕ
  pub email : Bytes
  pub desc : Bytes
  pub hubs_normal : ℕ
  pub hubs_registered : ℕ
  pub hubs_operator : ℕ
  pub user_type : UserType
  pub features : List Feature

-- "ADC0", "TCP4", "TCP6"
abbrev pub fea_adc0 : Feature
fea_adc0 = feature 65 68 67 48

abbrev pub fea_tcp4 : Feature
fea_tcp4 = feature 84 67 80 52

abbrev pub fea_tcp6 : Feature
fea_tcp6 = feature 84 67 80 54

-- `ExtFeatures.Has`
pub has_feature : List Feature → Feature → Bool
has_feature [] s = false
has_feature (sf ∷ f) s = let rest = has_feature f s in if sf == s then true else rest

-- the type by the kind of the user
kind_type : Option UserKind → UserType
kind_type none = 0
kind_type (some user_normal) = 0
kind_type (some user_bot) = 1
kind_type (some user_hub) = 32

-- `adcUserType`: the type that it sets; `may` is `Has` of the registered user, `none` if it is nil
pub adc_user_type : Option (Bytes → Bool) → Option UserKind → UserType
unfolding kind_type
adc_user_type none kind = kind_type kind
adc_user_type (some may) kind =
    if may (codes "owner")
    then 16
    else if may (codes "icon.op")
    then 4
    else if may (codes "icon.reg")
    then 2
    else kind_type kind

-- if on { out.Features = append(out.Features, fea) }
when_on : Bool → Feature → List Feature
when_on on fea = if on then fea ∷ [] else []

-- `UserInfo.toADC`
pub to_adc_user : Cid → Option (Bytes → Bool) → UserInfo → AdcUser
unfolding adc_user_type when_on
to_adc_user cid may u = record {
  id = cid;
  name = u.name;
  share_size = u.share;
  version = u.app_version;
  application = u.app_name;
  slots = u.slots;
  email = u.email;
  desc = u.desc;
  hubs_normal = u.hubs_normal;
  hubs_registered = u.hubs_registered;
  hubs_operator = u.hubs_operator;
  user_type = adc_user_type may (some u.kind);
  features = when_on u.tls fea_adc0 ++ when_on u.ipv4 fea_tcp4 ++ when_on u.ipv6 fea_tcp6;
}

-- `adcPeer.Info`
pub info_of : Option (Bytes → Bool) → AdcUser → AdcUser
info_of may u = record u { user_type = adc_user_type may none }

-- `adcPeer.UserInfo`
pub user_info : Option (Bytes → Bool) → AdcUser → UserInfo
unfolding info_of has_feature
user_info may user =
    let u = info_of may user in
    record {
      name = u.name;
      desc = u.desc;
      kind = user_normal;
      app_name = u.application;
      app_version = u.version;
      hubs_normal = u.hubs_normal;
      hubs_registered = u.hubs_registered;
      hubs_operator = u.hubs_operator;
      slots = u.slots;
      share = u.share_size;
      email = u.email;
      ipv4 = has_feature u.features fea_tcp4;
      ipv6 = has_feature u.features fea_tcp6;
      tls = has_feature u.features fea_adc0;
    }

-- strings.LastIndex(s, " "), as the text before it and the text after it
pub cut_last_space : Bytes → Option (Bytes × Bytes)
cut_last_space [] = none
cut_last_space (c ∷ s) = elim (cut_last_space s) [
  | some (before, after) ↦ some (c ∷ before, after)
  | none ↦ if c == b' ' then some ([], s) else none
]

-- `User.Normalize`
pub normalize : AdcUser → AdcUser
unfolding cut_last_space
normalize u =
    if u.application == []
    then elim (cut_last_space u.version) [
      | none ↦ u
      | some (name, version) ↦ record u { application = name; version = version }
    ]
    else u

-- `fixUserInfo`, given the application in the info of the peer that it is sent to
pub fix_user_info : Bytes → AdcUser → AdcUser
fix_user_info own u =
    if not (u.application == []) && own == []
    then record u { application = []; version = u.application ++ b' ' ∷ u.version }
    else u
