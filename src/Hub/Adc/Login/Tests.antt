-- ===== src/Hub/Adc/Login/Tests.antt =====
-- Runs of the handshake of hub/hub_adc.go.
use go_dcpp.Adc.Sid.{sid_from_int}
use go_dcpp.Adc.ModFeatures.{is_set}
use go_dcpp.Hub.Peers.{
  name_available, reserve_name, bind_cid, new_hub, list_peers, Hub, peer_by_name,
}
use go_dcpp.Hub.Peers.Steps.{Run, stop}
use go_dcpp.Hub.Users.{UserRecord, get_user, db_get_user}
use go_dcpp.Hub.Users.Names.{Strings, validate_user_name, one_of, any_of, first_of, fails_to_encode}
use go_dcpp.Hub.Adc.Line.{
  act_all, act, send_error, message, io_error, nick_taken, wrong_password, Line,
}
use go_dcpp.Hub.Adc.Login.{
  greetings, peer_of, named, bound, verified, informed, listed, flushed, verify_user, ask_password,
  check_password, check_user_pass, refuse, give_back, Info, Setting, Client, finish, stage_verify,
  stage_identity,
}
use go_dcpp.Hub.Adc.Login.Verify.{proves}
use go_dcpp.Hub.Adc.Login.Outcomes.{IsOn, stage_identity-IsOn}
use go_dcpp.Hub.Adc.Login.Traces.{alone, IsSame, HasEntered, stage_identity_fails}
use go_dcpp.Hub.Adc.Login.Locked.{stage_identity_locked}
use go_dcpp.Hub.Adc.Login.Steps.{IsOther, AreOther, stage_identity-Run}
use go_dcpp.Base.{
  ◌≡◌, refl, ◌⊎◌, true, false, Option, none, some, [], ◌∷◌, ◌++◌, nat_eq, list_eq, is_some, codes,
  lookup,
}

abbrev plain : Strings
plain = record { trim_space = λ b. b; runes = λ b. b; is_graphic = λ r. true; fallback = none }

abbrev alice : UserRecord
alice = record { name = codes "alice"; pass = codes "pw"; profile = [] }

-- a hub with one registered user, whose hash function adds a byte
abbrev setting : Setting
setting = record {
  to_lower = λ b. b;
  hash = λ b. 9 ∷ b;
  strings = plain;
  profiles = [];
  db = some (record { users = (codes "alice", alice) ∷ []; profiles = []; bans = [] });
  commands = 1;
}

abbrev client : Client
client = record {
  sid = sid_from_int 5;
  features = some [];
  secure = some true;
  salt = 1 ∷ 2 ∷ [];
  password = message (9 ∷ codes "pw" ++ 1 ∷ 2 ∷ []);
}

abbrev info : Info
info = record { id = 9 ∷ 7 ∷ []; pid = 7 ∷ []; name = codes "alice"; share = 0 }

abbrev open_line : Line
open_line = record { oks = []; sent = [] }

-- a client whose password is wrong
abbrev guesser : Client
guesser = record client { password = message [] }

ends_well : (stage_identity setting client alone (message info) new_hub open_line).failure ≡ none
unfolding stage_identity named bound verified informed listed finish flushed stage_verify
    verify_user ask_password check_password check_user_pass act_all act name_available reserve_name
    bind_cid list_peers get_user db_get_user lookup is_some is_set greetings peer_of new_hub
    validate_user_name one_of any_of first_of fails_to_encode refuse send_error give_back
ends_well = refl

fails_here :
    (stage_identity setting guesser alone (message info) new_hub open_line).failure
    ≡ some wrong_password
unfolding stage_identity named bound verified informed listed finish flushed stage_verify
    verify_user ask_password check_password check_user_pass act_all act name_available reserve_name
    bind_cid list_peers get_user db_get_user lookup is_some is_set greetings peer_of new_hub
    validate_user_name one_of any_of first_of fails_to_encode refuse send_error give_back
fails_here = refl

stage_identity-IsOn_example :
    IsOn setting client info
      (stage_identity setting client alone (message info) new_hub open_line).hub
    × (info.id ≡ setting.hash info.pid)
    × (validate_user_name setting.strings info.name ≡ none)
    × (proves setting client (get_user info.name setting.profiles setting.db) ≡ true)
stage_identity-IsOn_example =
    stage_identity-IsOn setting client alone info new_hub open_line ends_well

stage_identity_fails_example :
    IsSame new_hub (stage_identity setting guesser alone (message info) new_hub open_line).hub
    ⊎ ((wrong_password ≡ io_error)
        × HasEntered setting guesser new_hub
            (message info)
            (stage_identity setting guesser alone (message info) new_hub open_line).hub)
stage_identity_fails_example =
    stage_identity_fails setting guesser new_hub (message info) open_line wrong_password fails_here

-- a user that is not registered
abbrev guest : Info
guest = record { id = 9 ∷ 8 ∷ []; pid = 8 ∷ []; name = codes "bob"; share = 0 }

-- the info of the hub, the status and the own info are taken, and the flush is not
abbrev broken : Line
broken = record { oks = true ∷ true ∷ true ∷ false ∷ []; sent = [] }

abbrev or_new : Option Hub → Hub
or_new none = new_hub
or_new (some h) = h

abbrev bound_hub : Hub
bound_hub = or_new (reserve_name setting.to_lower guest.name (bind_cid guest.id) new_hub)

stage_identity_locked_example :
    ((stage_identity setting client alone (message guest) new_hub broken).failure ≡ some io_error)
    × ((stage_identity setting client alone
          (message guest)
          (stage_identity setting client alone (message guest) new_hub broken).hub
          open_line).failure
        ≡ some nick_taken)
unfolding stage_verify verify_user get_user db_get_user name_available reserve_name bind_cid
    list_peers lookup is_some is_set greetings new_hub peer_by_name validate_user_name one_of any_of
    first_of fails_to_encode
stage_identity_locked_example =
    stage_identity_locked setting client client alone guest new_hub bound_hub broken broken
      open_line [] refl refl refl refl refl

idle : (u : Info) → IsOther setting client u (λ h. h)
idle u = record {
  runs = λ h. stop;
  keeps_name = λ h e. e;
  keeps_cid = λ h e. e;
  no_session = λ h e. e;
}

all_idle : AreOther setting client (message info) alone
all_idle = record { before = λ u e. idle u; during = λ u e. idle u; late = λ u e. idle u }

stage_identity-Run_example :
    Run setting.to_lower new_hub
      (stage_identity setting client alone (message info) new_hub open_line).hub
unfolding new_hub lookup
stage_identity-Run_example =
    stage_identity-Run setting client (message info) alone new_hub open_line all_idle refl
