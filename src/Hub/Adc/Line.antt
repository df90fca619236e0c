-- ===== src/Hub/Adc/Line.antt =====
-- The connection of a client of ADC as the handshake of hub/hub_adc.go uses it, and its first stage,
-- `adcStageProtocol`. What the client sends is an input, as reading and decoding give it; each action on
-- the connection succeeds or fails as `oks` says. Deadlines, metrics and the log are left out.
pub mod Protocol
use go_dcpp.Adc.Feature.{Feature, feature, feature_eq}
use go_dcpp.Adc.ModFeatures.{ModFeatures, is_set, intersect}
use go_dcpp.Adc.Sid.{Sid}
use go_dcpp.Hub.Peers.{Peer}
use go_dcpp.Hub.Users.Names.{NameError}
use go_dcpp.Base.{
  ℕ, Bool, true, false, not, ◌&&◌, Option, some, List, [], ◌∷◌, ◌++◌, if◌then◌else◌, Bytes,
}

-- What `ReadPacket`, the test of the kind and the name of the packet, and `adc.Unmarshal` give.
pub data Read {ℓ} (A : Type ℓ) : Type ℓ where
  read_failed wrong_kind wrong_name undecodable : Read A
  message : A → Read A

pub data Failure : Type 0 where
  unread io_error no_base no_tigr bad_pid nick_taken cid_taken insecure wrong_password : Failure
  bad_name : NameError → Failure

-- the messages that the handshake writes
pub data Sent : Type 0 where
  zon supported status_ok hub_info user_command : Sent
  sid_assign : Sid → Sent
  status : ℕ → Sent
  get_password : Bytes → Sent
  user : Peer → Sent

pub data Action : Type 0 where
  write : Sent → Action
  switch_zlib flush : Action

-- The connection: what its next actions give, which is success from the end of the list on, and the
-- messages that it has taken.
pub record Line : Type 0 where
  pub oks : List Bool
  pub sent : List Sent

unfoldable pub act : Action → Line → Line × Bool
act (write m) l = elim l.oks [
  | [] ↦ (record l { sent = l.sent ++ m ∷ [] }, true)
  | false ∷ oks ↦ (record l { oks = oks }, false)
  | true ∷ oks ↦ (record { oks = oks; sent = l.sent ++ m ∷ [] }, true)
]
act a l = elim l.oks [ [] ↦ (l, true) | ok ∷ oks ↦ (record l { oks = oks }, ok) ]

-- The actions in their order, up to the first that fails.
unfoldable pub act_all : List Action → Line → Line × Bool
unfolding act
act_all [] l = (l, true)
act_all (a ∷ more) l =
    let (l', ok) = act a l in elim ok [ false ↦ (l', false) | true ↦ act_all more l' ]

-- `sendErrorNow`, whose own error is ignored
unfoldable pub send_error : ℕ → Line → Line
send_error code l = (act_all (write (status code) ∷ flush ∷ []) l).0

-- "BASE", "BAS0", "TIGR", "PING", "UCMD", "UCM0", "ZLIF"
abbrev pub fea_base : Feature
fea_base = feature 66 65 83 69

abbrev pub fea_bas0 : Feature
fea_bas0 = feature 66 65 83 48

abbrev pub fea_tigr : Feature
fea_tigr = feature 84 73 71 82

abbrev pub fea_ping : Feature
fea_ping = feature 80 73 78 71

abbrev pub fea_ucmd : Feature
fea_ucmd = feature 85 67 77 68

abbrev pub fea_ucm0 : Feature
fea_ucm0 = feature 85 67 77 48

abbrev pub fea_zlif : Feature
fea_zlif = feature 90 76 73 70

abbrev pub hub_features : ModFeatures
hub_features =
    (fea_base, true)
    ∷ (fea_bas0, true)
    ∷ (fea_tigr, true)
    ∷ (fea_ping, true)
    ∷ (fea_ucmd, true)
    ∷ (fea_ucm0, true)
    ∷ (fea_zlif, true)
    ∷ []

-- Either the features that both sides support, or why the client is refused.
pub data Agreed : Type 0 where
  agreed : Option ModFeatures → Agreed
  refused : Failure → Agreed

unfoldable pub greeting : Bool → Option ModFeatures → Sid → List Action
greeting zlib shared session =
    let rest = write supported ∷ write (sid_assign session) ∷ flush ∷ [] in
    if zlib && is_set fea_zlif shared then write zon ∷ switch_zlib ∷ rest else rest

unfoldable pub welcomed : Option ModFeatures → Line × Bool → Line × Agreed
welcomed shared (l, ok) = (l, if ok then agreed shared else refused io_error)

-- `adcStageProtocol`; `zlib` tells whether the hub has a level for it
unfoldable pub stage_protocol : Bool → Sid → Read (Option ModFeatures) → Line → Line × Agreed
unfolding greeting welcomed
stage_protocol zlib session (message sup) l =
    let shared = intersect (some hub_features) sup in
    if not (is_set fea_base shared) && not (is_set fea_bas0 shared)
    then (l, refused no_base)
    else if not (is_set fea_tigr shared)
    then (l, refused no_tigr)
    else welcomed shared (act_all (greeting zlib shared session) l)
stage_protocol zlib session _ l = (l, refused unread)
