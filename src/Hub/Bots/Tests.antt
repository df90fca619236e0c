-- ===== src/Hub/Bots/Tests.antt =====
-- A bot that comes and is closed, and a peer that is closed: hub/bots.go and hub/peer.go.
use go_dcpp.Adc.Sid.{Sid, sid, sid_eq}
use go_dcpp.Hub.Peers.{
  Peer, Hub, new_hub, list_peers, name_available, reserve_name, accept_peer, peer_by_name,
  peer_by_sid,
}
use go_dcpp.Hub.Peers.Steps.{Run}
use go_dcpp.Hub.Peers.Tests.{lower, bob, bob_cid, bob_hub, find_bob}
use go_dcpp.Hub.Users.Names.{Strings, validate_user_name, one_of, any_of, first_of, fails_to_encode}
use go_dcpp.Hub.Bots.{made, bot_peer, keep_list, reserved, validated, new_bot, bot_close, adc_close}
use go_dcpp.Hub.Bots.Closing.{adc_close-Run, new_bot-Run, bot_close_stays}
use go_dcpp.Base.{
  ◌≡◌, refl, true, false, none, some, [], ◌∷◌, nat_eq, list_eq, is_some, codes, lookup, insert,
}

abbrev plain : Strings
plain = record { trim_space = λ b. b; runes = λ b. b; is_graphic = λ r. true; fallback = none }

abbrev bot_sid : Sid
bot_sid = sid b'A' b'A' b'A' b'B'

abbrev bot : Peer
bot = record { sid = bot_sid; name = codes "HubBot"; cid = none }

abbrev bound : Hub
bound = record new_hub { reserved = (codes "hubbot", tt) ∷ [] }

abbrev bot_hub : Hub
bot_hub = accept_peer lower bot 0 (λ h. (list_peers h).0) bound

bot_made : new_bot lower plain (codes "HubBot") bot_sid new_hub ≡ made bot bot_hub
unfolding new_bot validated reserved bot_peer keep_list validate_user_name one_of any_of first_of
    fails_to_encode name_available reserve_name new_hub lookup insert is_some list_peers
bot_made = refl

no_bot_yet : lookup bot_sid new_hub.by_sid ≡ none
unfolding new_hub lookup
no_bot_yet = refl

new_bot-Run_example :
    Run lower new_hub bot_hub
    × (peer_by_name lower (codes "HubBot") bot_hub ≡ some bot)
    × (peer_by_sid bot_sid bot_hub ≡ some bot)
new_bot-Run_example =
    new_bot-Run lower plain (codes "HubBot") bot_sid new_hub bot bot_hub no_bot_yet bot_made

bot_close_stays_example :
    ((bot_close false bot_hub).0 ≡ (true, bot_hub))
    × (peer_by_name lower (codes "HubBot") (bot_close false bot_hub).0.1 ≡ some bot)
    × (name_available lower (codes "HubBot") (bot_close false bot_hub).0.1 ≡ false)
bot_close_stays_example =
    bot_close_stays lower plain (codes "HubBot") bot_sid new_hub bot bot_hub no_bot_yet bot_made

bob_there : lookup bob.sid bob_hub.by_sid ≡ some bob
unfolding peer_by_sid
bob_there = find_bob.1

adc_close-Run_example :
    Run lower bob_hub (adc_close lower bob bob_cid 0 none false bob_hub).0.1
    × ((adc_close lower bob bob_cid 0 none false bob_hub).1 ≡ none)
    × (adc_close lower bob bob_cid 0 none
          (adc_close lower bob bob_cid 0 none false bob_hub).0.0
          (adc_close lower bob bob_cid 0 none false bob_hub).0.1
        ≡ ((adc_close lower bob bob_cid 0 none false bob_hub).0, none))
adc_close-Run_example = adc_close-Run lower bob bob_cid 0 none bob_hub bob_there refl
