-- ===== src/Socket/Move/Tests.antt =====
-- A walking Mario, and what a receiver makes of his packet.
use smoo_bazel.Base.{
  ℕ, ◌≡◌, refl, ◌⊎◌, true, false, none, some, arith, get_elem?, Str, codes, c_str, pos, negsuc,
  f_zero, quat_zero, ulp_ops,
}
use smoo_bazel.Puppets.Info.{info_new, PuppetInfo}
use smoo_bazel.Packets.{PlayerInf}
use smoo_bazel.Crc.{hash_str}
use smoo_bazel.Client.Infos.{find_str, edit_player_inf}
use smoo_bazel.Client.Anims.{player_anims}
use smoo_bazel.Client.Anims.Find.{
  find_type, find_type-find_str, find_type-cases, player_anims-IsIndexed,
}
use smoo_bazel.Socket.Move.{mario_inf, Actor}
use smoo_bazel.Socket.Move.Arrives.{mario_inf-arrives}

abbrev mario : Actor
mario = record {
  trans = record { x = 1; y = 2; z = 3 };
  calc_rot = quat_zero;
  blend_weight = λ i. f_zero;
  hack_name = none;
  hack_action = none;
  action = some (codes "Move");
  sub_anim = codes "SandWalk";
}

mario_inf-arrives_example :
    (m : PlayerInf) × (x' : PuppetInfo) × (mario_inf mario ≡ some (m, false))
    × (edit_player_inf ulp_ops player_anims m info_new ≡ some x')
    × (x'.cur_anim_str ≡ c_str (codes "Move"))
    × (x'.cur_sub_anim_str ≡ c_str (codes "SandWalk"))
    × (x'.player_pos ≡ mario.trans)
    × (x'.is_connected ≡ true)
unfolding player_anims
mario_inf-arrives_example =
    mario_inf-arrives ulp_ops mario info_new 11 22 (codes "Move") refl refl refl refl

find_type-find_str_example : find_type player_anims (find_str player_anims (pos 11)) ≡ pos 11
unfolding player_anims
find_type-find_str_example = find_type-find_str player_anims 11 player_anims-IsIndexed (omega arith)

find_type-cases_example :
    (find_type player_anims (codes "Fly") ≡ negsuc 0)
    ⊎ ((k : ℕ) × (t : Str) × (find_type player_anims (codes "Fly") ≡ pos k)
        × (get_elem? player_anims k ≡ some t)
        × (hash_str t ≡ hash_str (codes "Fly")))
find_type-cases_example = find_type-cases player_anims (codes "Fly") player_anims-IsIndexed
