-- ===== src/Client/Infos/Steps.antt =====
-- Sequences of packets, and the connection count along them.
use smoo_bazel.Base.{◌≡◌, sym, ap, some, some_inj, Str}
use smoo_bazel.Puppets.Info.{FlagTeam, PuppetInfo}
use smoo_bazel.Packets.{CaptureInf, CostumeInf, GameInf, HackCapInf, PlayerConnect, TagInf}
use smoo_bazel.Client.State.{Client}
use smoo_bazel.Client.Infos.{
  edit_hack_cap_inf, update_hack_cap_info, edit_capture_inf, update_capture_info, edit_costume_inf,
  update_costume_info, edit_game_inf, update_game_info, edit_tag_inf, update_puppet_tag,
  update_puppet_team, update_player_connect, disconnect_player,
}
use smoo_bazel.Client.Infos.Count.{
  IsCounted, with_info-IsCounted, hack_cap-KeepsConnected, capture-KeepsConnected,
  costume-KeepsConnected, game-KeepsConnected, tag-KeepsConnected, update_player_connect-IsCounted,
  disconnect_player-IsCounted,
}

-- One packet of a sender that does not fault, of every kind that changes an info, but for the movement of a
-- player.
pub data Step (uid : Str) : Client → Client → Type 0 where
  connects :
      (m : PlayerConnect) (c c' : Client) → update_player_connect uid m c ≡ some c' → Step uid c c'
  disconnects : (c c' : Client) → disconnect_player uid c ≡ some c' → Step uid c c'
  throws_cap :
      (m : HackCapInf) (c c' : Client) → update_hack_cap_info uid m c ≡ some c' → Step uid c c'
  captures :
      (m : CaptureInf) (c c' : Client) → update_capture_info uid m c ≡ some c' → Step uid c c'
  dresses : (m : CostumeInf) (c c' : Client) → update_costume_info uid m c ≡ some c' → Step uid c c'
  travels : (m : GameInf) (c c' : Client) → update_game_info uid m c ≡ some c' → Step uid c c'
  tags : (m : TagInf) (c c' : Client) → update_puppet_tag uid m c ≡ some c' → Step uid c c'
  joins_team : (t : FlagTeam) (c c' : Client) → update_puppet_team uid t c ≡ some c' → Step uid c c'

pub data Steps : Client → Client → Type 0 where
  done : (c : Client) → Steps c c
  then_step : (uid : Str) (a b c : Client) → Steps a b → Step uid b c → Steps a c

team-KeepsConnected :
    (t : FlagTeam) (x y : PuppetInfo)
    → some (record x { ctf_team = t }) ≡ some y
    → y.is_connected ≡ x.is_connected
team-KeepsConnected t x y e = sym (ap (λ (z : PuppetInfo). z.is_connected) (some_inj e))

pub Step-IsCounted : (uid : Str) (a b : Client) → Step uid a b → IsCounted a → IsCounted b
unfolding update_hack_cap_info update_capture_info update_costume_info update_game_info
    update_puppet_tag update_puppet_team
Step-IsCounted uid a b (connects m c c' e) v = update_player_connect-IsCounted uid m c c' v e
Step-IsCounted uid a b (disconnects c c' e) v = disconnect_player-IsCounted uid c c' v e
Step-IsCounted uid a b (throws_cap m c c' e) v =
    with_info-IsCounted (edit_hack_cap_inf m) uid c c' (hack_cap-KeepsConnected m) e v
Step-IsCounted uid a b (captures m c c' e) v =
    with_info-IsCounted (edit_capture_inf m) uid c c' (capture-KeepsConnected m) e v
Step-IsCounted uid a b (dresses m c c' e) v =
    with_info-IsCounted (edit_costume_inf m) uid c c' (costume-KeepsConnected m) e v
Step-IsCounted uid a b (travels m c c' e) v =
    with_info-IsCounted (edit_game_inf m) uid c c' (game-KeepsConnected m) e v
Step-IsCounted uid a b (tags m c c' e) v =
    with_info-IsCounted (edit_tag_inf m) uid c c' (tag-KeepsConnected m) e v
Step-IsCounted uid a b (joins_team t c c' e) v =
    with_info-IsCounted (λ x. some (record x { ctf_team = t })) uid c c' (team-KeepsConnected t) e v

-- From a client whose count is the number of connected infos, every sequence of packets other than
-- movements that does not fault leads to such a client.
pub Steps-IsCounted : (a b : Client) → Steps a b → IsCounted a → IsCounted b
Steps-IsCounted a b (done c) v = v
Steps-IsCounted a b (then_step uid a' b' c steps s) v =
    Step-IsCounted uid b' c s (Steps-IsCounted a' b' steps v)
