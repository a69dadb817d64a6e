-- ===== src/Client/Infos/Named.antt =====
-- The movement packet with the table of animation names of the code.
use smoo_bazel.Base.{
  ◌≤◌, ◌≡◌, refl, some, [], if_intro, Defined, >>=-Defined, length, Str, codes, c_str, strcpy-Fits,
  eq_ℤ, ℤ, FloatOps,
}
use smoo_bazel.Puppets.Info.{anim_size}
use smoo_bazel.Packets.{s16_of, PlayerInf}
use smoo_bazel.Client.State.{loop_bound, Client}
use smoo_bazel.Client.Anims.{player_anims, find_str-Fits}
use smoo_bazel.Client.Infos.{unknown_anim, find_str, anim_str, edit_player_inf, update_player_info}
use smoo_bazel.Client.Infos.Total.{Total, with_info-Total}

anim_str-Defined : (otherwise : Str) (t : ℤ) → Defined (anim_str player_anims otherwise t)
unfolding anim_str
anim_str-Defined otherwise t =
    if_intro Defined (eq_ℤ t unknown_anim) (otherwise, refl)
      (
        c_str (find_str player_anims t),
        strcpy-Fits anim_size (find_str player_anims t) (find_str-Fits t),
      )

edit_player_inf-Total : (fl : FloatOps) (m : PlayerInf) → Total (edit_player_inf fl player_anims m)
unfolding edit_player_inf
edit_player_inf-Total fl m x =
    >>=-Defined (anim_str player_anims (codes "Wait") (s16_of m.act_name)) _
      (anim_str-Defined (codes "Wait") (s16_of m.act_name))
      (λ anim _.
        >>=-Defined (anim_str player_anims [] (s16_of m.sub_act_name)) _
          (anim_str-Defined [] (s16_of m.sub_act_name)) (λ sub_anim _. (_, refl)))

-- Where the array has as many infos as the server lets in puppets, a movement packet is handled
-- without a fault, whatever numbers of animations it carries: each name of the table fits in the
-- info's buffers.
pub update_player_info-returns :
    (fl : FloatOps) (uid : Str) (m : PlayerInf) (c : Client)
    → loop_bound c.max_puppets ≤ length c.puppet_infos
    → (c' : Client) × (update_player_info fl player_anims uid m c ≡ some c')
unfolding update_player_info
update_player_info-returns fl uid m c h =
    with_info-Total (edit_player_inf fl player_anims m) uid c (edit_player_inf-Total fl m) h
