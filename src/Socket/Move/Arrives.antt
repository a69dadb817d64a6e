-- ===== src/Socket/Move/Arrives.antt =====
-- What of the own movement arrives at the other players.
use smoo_bazel.Base.{
  ℕ, ◌<◌, ◌≡◌, refl, ap, ◌∙◌, true, false, none, some, [], arith, if◌then◌else◌, get_elem?, Str,
  codes, c_str, strcpy-Fits, pos, FloatOps,
}
use smoo_bazel.Puppets.Info.{anim_size, PuppetInfo}
use smoo_bazel.Packets.{s16_of, PlayerInf}
use smoo_bazel.Client.Infos.{find_str, anim_str, rot_in_range, merge_weights, edit_player_inf}
use smoo_bazel.Client.Anims.{player_anims, find_str-Fits}
use smoo_bazel.Client.Anims.Find.{
  find_type, get_elem?-lt-length, s16_of-pos, find_type-listed, find_str-listed,
  player_anims-IsIndexed,
}
use smoo_bazel.Socket.Move.{actor_inf, mario_inf, Actor}

-- A name of the table is written to the info's buffer, after `FindType` and the way over the net.
anim_str-find_type :
    (otherwise s : Str) (k : ℕ)
    → get_elem? player_anims k ≡ some s
    → anim_str player_anims otherwise (s16_of (find_type player_anims s)) ≡ some (c_str s)
unfolding anim_str
anim_str-find_type otherwise s k e =
    rw (find_type-listed player_anims k s player_anims-IsIndexed e, s16_of-pos k below)
      (strcpy-Fits anim_size (find_str player_anims (pos k)) (find_str-Fits (pos k))
        ∙ ap (λ t. some (c_str t)) (find_str-listed player_anims k s e))
  where
    below : k < 32768
    below = omega (arith, player_anims-IsIndexed.size, get_elem?-lt-length player_anims k s e)

-- Where Mario is not captured and his action and his sub-animation have names of the table, the
-- packet of his movement sets the same names and the same position in the info of a receiver.
pub mario_inf-arrives :
    (fl : FloatOps) (a : Actor) (x : PuppetInfo) (k j : ℕ) (s : Str)
    → a.hack_name ≡ none
    → a.action ≡ some s
    → get_elem? player_anims k ≡ some s
    → get_elem? player_anims j ≡ some a.sub_anim
    → (m : PlayerInf) × (x' : PuppetInfo) × (mario_inf a ≡ some (m, false))
      × (edit_player_inf fl player_anims m x ≡ some x')
      × (x'.cur_anim_str ≡ c_str s)
      × (x'.cur_sub_anim_str ≡ c_str a.sub_anim)
      × (x'.player_pos ≡ a.trans)
      × (x'.is_connected ≡ true)
unfolding mario_inf edit_player_inf actor_inf
mario_inf-arrives fl a x k j s free act known known_sub = (
  sent,
  arrived,
  rw (free, act) refl,
  rw (anim_str-find_type (codes "Wait") s k known, anim_str-find_type [] a.sub_anim j known_sub)
      refl,
  refl,
  refl,
  refl,
  refl,
)
  where
    sent : PlayerInf
    sent = actor_inf a (find_type player_anims s) (find_type player_anims a.sub_anim)

    arrived : PuppetInfo
    arrived = record x {
      is_connected = true;
      player_pos = sent.player_pos;
      player_rot = if rot_in_range fl sent.player_rot then sent.player_rot else x.player_rot;
      cur_anim_str = c_str s;
      cur_sub_anim_str = c_str a.sub_anim;
      cur_anim = s16_of sent.act_name;
      cur_sub_anim = s16_of sent.sub_act_name;
      blend_weights = merge_weights fl x.blend_weights sent.anim_blend_weights;
      cap_pos = if x.is_cap_throw then x.cap_pos else sent.player_pos;
    }
