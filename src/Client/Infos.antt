-- ===== src/Client/Infos.antt =====
-- The handlers of mod/src/server/Client.cpp that keep the infos of the other players up to date. A
-- handler is undefined (`none`) where the lookup leaves the array or a string does not fit.
pub mod Total
pub mod Count
pub mod Frame
pub mod Steps
pub mod Named
pub mod Limit
pub mod Worn
use smoo_bazel.Base.{
  strcpy, ℕ, ◌%◌, Bool, true, false, ◌&&◌, ◌||◌, Option, none, some, List, [], ◌∷◌, ltb,
  if◌then◌else◌, ◌>>=◌, length, get_elem?, set, Str, codes, c_str, inc, dec, eq_ℤ, ℤ, pos, negsuc,
  Float, f_zero, f_one, FloatOps, Quat,
}
use smoo_bazel.Puppets.Info.{
  name_size, stage_size, costume_size, hack_size, anim_size, FlagTeam, PuppetInfo,
}
use smoo_bazel.Packets.{
  uid_of, u8_of, s16_of, CaptureInf, CostumeInf, GameInf, HackCapInf, PlayerConnect, PlayerInf,
  TagInf,
}
use smoo_bazel.Client.State.{Client}
use smoo_bazel.Client.Find.{find_puppet_info}

-- What the handlers share: look the player up, and edit the info that was found.
unfoldable pub with_found : (PuppetInfo → Option PuppetInfo) → Client → Option ℕ → Option Client
with_found edit c none = some c
with_found edit c (some k) = do
  x ← get_elem? c.puppet_infos k
  x' ← edit x
  some (record c { puppet_infos = set c.puppet_infos k x' })

unfoldable pub with_info : (PuppetInfo → Option PuppetInfo) → Str → Client → Option Client
with_info edit uid c = find_puppet_info (uid_of uid) false c >>= with_found edit c

-- `PlayerAnims::Type::Unknown`
abbrev pub unknown_anim : ℤ
unknown_anim = negsuc 0

-- `PlayerAnims::FindStr` over the table `s_Strs`.
unfoldable pub find_str : List Str → ℤ → Str
find_str anims (pos n) = elim (get_elem? anims n) [ none ↦ [] | some s ↦ s ]
find_str anims (negsuc n) = []

unfoldable pub anim_str : List Str → Str → ℤ → Option Str
anim_str anims otherwise t =
    if eq_ℤ t unknown_anim then some otherwise else strcpy anim_size (find_str anims t)

module _ (fl : FloatOps) where
  -- The two tests of the rotation: some part is not zero, and some part is at most 1.
  unfoldable pub rot_in_range : Quat → Bool
  rot_in_range r =
      (nonzero r.x || nonzero r.y || nonzero r.z || nonzero r.w)
      && (small r.x || small r.y || small r.z || small r.w)
    where
      nonzero : Float → Bool
      nonzero a = fl.lt f_zero (fl.abs a)

      small : Float → Bool
      small a = fl.le (fl.abs a) f_one

  -- A weight outside of 0 to 1 leaves the old one.
  unfoldable pub merge_weights : List Float → List Float → List Float
  merge_weights [] ws = []
  merge_weights (o ∷ os) [] = o ∷ os
  merge_weights (o ∷ os) (w ∷ ws) =
      (if fl.le f_zero w && fl.le w f_one then w else o) ∷ merge_weights os ws

  -- `updatePlayerInfo` after the lookup; `anims` is the table of animation names.
  unfoldable pub edit_player_inf : List Str → PlayerInf → PuppetInfo → Option PuppetInfo
  edit_player_inf anims m x = do
    anim ← anim_str anims (codes "Wait") (s16_of m.act_name)
    sub_anim ← anim_str anims [] (s16_of m.sub_act_name)
    some (record x {
      is_connected = true;
      player_pos = m.player_pos;
      player_rot = if rot_in_range m.player_rot then m.player_rot else x.player_rot;
      cur_anim_str = anim;
      cur_sub_anim_str = sub_anim;
      cur_anim = s16_of m.act_name;
      cur_sub_anim = s16_of m.sub_act_name;
      blend_weights = merge_weights x.blend_weights m.anim_blend_weights;
      cap_pos = if x.is_cap_throw then x.cap_pos else m.player_pos;
    })

  unfoldable pub update_player_info : List Str → Str → PlayerInf → Client → Option Client
  update_player_info anims uid m c = with_info (edit_player_inf anims m) uid c

pub edit_hack_cap_inf : HackCapInf → PuppetInfo → Option PuppetInfo
edit_hack_cap_inf m x = do
  anim ← strcpy anim_size m.cap_anim
  some (record x {
    cap_pos = m.cap_pos;
    cap_rot = m.cap_quat;
    is_cap_throw = m.is_cap_visible;
    cap_anim = anim;
  })

pub update_hack_cap_info : Str → HackCapInf → Client → Option Client
update_hack_cap_info uid m c = with_info (edit_hack_cap_inf m) uid c

pub edit_capture_inf : CaptureInf → PuppetInfo → Option PuppetInfo
edit_capture_inf m x =
    if ltb 0 (length m.hack_name)
    then (do
      hack ← strcpy hack_size m.hack_name
      some (record x { is_captured = true; cur_hack = hack }))
    else some (record x { is_captured = false })

pub update_capture_info : Str → CaptureInf → Client → Option Client
update_capture_info uid m c = with_info (edit_capture_inf m) uid c

pub edit_costume_inf : CostumeInf → PuppetInfo → Option PuppetInfo
edit_costume_inf m x = do
  body ← strcpy costume_size m.body_model
  head ← strcpy costume_size m.cap_model
  some (record x { costume_body = body; costume_head = head })

pub update_costume_info : Str → CostumeInf → Client → Option Client
update_costume_info uid m c = with_info (edit_costume_inf m) uid c

-- The name replaces the stage only if it has more than three characters.
edit_stage : Str → Str → Option Str
edit_stage name old = if ltb 3 (length (c_str name)) then strcpy stage_size name else some old

pub edit_game_inf : GameInf → PuppetInfo → Option PuppetInfo
edit_game_inf m x =
    if x.is_connected
    then (do
      stage ← edit_stage m.stage_name x.stage_name
      some (record x { scenario_no = u8_of m.scenario_num; stage_name = stage; is_2d = m.is_2d }))
    else some x

pub update_game_info : Str → GameInf → Client → Option Client
update_game_info uid m c = with_info (edit_game_inf m) uid c

-- The last part of `updateTagInfo`; the fields of the info are a `u8` and a `u16`.
pub edit_tag_inf : TagInf → PuppetInfo → Option PuppetInfo
edit_tag_inf m x =
    some (record x { is_it = m.is_it; seconds = m.seconds % 256; minutes = m.minutes % 65536 })

pub update_puppet_tag : Str → TagInf → Client → Option Client
update_puppet_tag uid m c = with_info (edit_tag_inf m) uid c

-- The first part of `updateCTFPlayerTeamAssignment`.
pub update_puppet_team : Str → FlagTeam → Client → Option Client
update_puppet_team uid team c = with_info (λ x. some (record x { ctf_team = team })) uid c

-- An info that is in use is left alone.
unfoldable pub claim : Str → Str → Client → ℕ → PuppetInfo → Option Client
claim id name c k x =
    if x.is_connected
    then some c
    else (strcpy name_size name >>= λ s. some (record c {
      puppet_infos =
          set c.puppet_infos k (record x { player_id = id; is_connected = true; puppet_name = s });
      connect_count = inc c.connect_count;
    }))

unfoldable pub connect_found : Str → Str → Client → Option ℕ → Option Client
connect_found id name c none = some c
connect_found id name c (some k) = get_elem? c.puppet_infos k >>= claim id name c k

unfoldable pub update_player_connect : Str → PlayerConnect → Client → Option Client
update_player_connect uid m c =
    find_puppet_info (uid_of uid) true c >>= connect_found (uid_of uid) m.client_name c

-- An info that is not in use is left alone.
unfoldable pub release : Client → ℕ → PuppetInfo → Client
release c k x =
    if x.is_connected
    then record c {
      puppet_infos = set c.puppet_infos k (record x {
        is_connected = false;
        scenario_no = 255;
        stage_name = [];
        is_in_same_stage = false;
      });
      connect_count = dec c.connect_count;
    }
    else c

unfoldable pub disconnect_found : Client → Option ℕ → Option Client
disconnect_found c none = some c
disconnect_found c (some k) = get_elem? c.puppet_infos k >>= λ x. some (release c k x)

unfoldable pub disconnect_player : Str → Client → Option Client
disconnect_player uid c = find_puppet_info (uid_of uid) false c >>= disconnect_found c
