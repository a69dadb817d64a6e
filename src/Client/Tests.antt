-- ===== src/Client/Tests.antt =====
-- A client with three infos, and the theorems of its parts there.
use mathlib.Core.List.{Mem}
use smoo_bazel.Base.{
  strcpy, ℕ, zero, suc, ◌+◌, ◌≡◌, refl, ◌↔◌, true, false, Option, none, some, List, [], ◌∷◌, arith,
  take, replicate, Str, codes, is_neg, pos, negsuc, vec3_zero, quat_zero, ulp_ops,
}
use smoo_bazel.Puppets.Info.{info_new, PuppetInfo}
use smoo_bazel.Packets.{uid_of, CostumeInf, GameInf, con_init, PlayerConnect, PlayerInf}
use smoo_bazel.Client.State.{Client}
use smoo_bazel.Client.Find.{next_available, find_from, find_puppet_info}
use smoo_bazel.Client.Find.Spec.{
  NonePasses, has_id, find_puppet_info-Finds, find_puppet_info-faults, Finds,
}
use smoo_bazel.Client.Infos.{
  with_found, with_info, find_str, anim_str, rot_in_range, merge_weights, edit_player_inf,
  update_player_info, edit_costume_inf, claim, connect_found, update_player_connect, release,
  disconnect_found, disconnect_player,
}
use smoo_bazel.Client.Infos.Count.{connected, IsCounted, update_player_info-miscounts}
use smoo_bazel.Client.Anims.{player_anims}
use smoo_bazel.Client.Infos.Named.{update_player_info-returns}
use smoo_bazel.Client.Infos.Worn.{edit_costume_inf-Shown}
use smoo_bazel.Puppets.Costume.{try_get_puppet_cap_name, try_get_puppet_body_name, Shown}
use smoo_bazel.Client.Shines.{no_shine, is_shine_collected, reset_collected_shines, receive_shines}
use smoo_bazel.Client.Shines.Received.{is_shine_collected-mem}

abbrev id_of : ℕ → Str
id_of n = n ∷ replicate 15 0

-- The player 7 is connected, the player 8 left.
abbrev pub client : Client
client = record {
  user_id = id_of 1;
  connect_count = pos 1;
  max_puppets = pos 3;
  puppet_infos =
      record info_new { player_id = id_of 7; is_connected = true }
      ∷ record info_new { player_id = id_of 8 }
      ∷ info_new
      ∷ [];
  collected_shines = replicate 128 no_shine;
  collected_shine_count = pos 0;
}

-- The same client after the server let in five puppets.
abbrev crowded : Client
crowded = record client { max_puppets = pos 5 }

finds-known : find_puppet_info (id_of 8) true client ≡ some (some 1)
unfolding find_puppet_info find_from next_available
finds-known = refl

finds-free : find_puppet_info (id_of 9) true client ≡ some (some 1)
unfolding find_puppet_info find_from next_available
finds-free = refl

finds-nothing : find_puppet_info (id_of 9) false client ≡ some none
unfolding find_puppet_info find_from next_available
finds-nothing = refl

find_puppet_info-Finds_example :
    (r : Option ℕ) × (find_puppet_info (id_of 9) true client ≡ some r)
    × Finds (id_of 9) true client r
find_puppet_info-Finds_example = find_puppet_info-Finds (id_of 9) true client (omega arith)

nobody : NonePasses (has_id (id_of 9)) crowded.puppet_infos 3
nobody zero x h e = ground (arith, e)
nobody (suc zero) x h e = ground (arith, e)
nobody (suc (suc zero)) x h e = ground (arith, e)
nobody (suc (suc (suc j))) x h e = absurd (omega arith)

find_puppet_info-faults_example : find_puppet_info (id_of 9) true crowded ≡ none
find_puppet_info-faults_example =
    find_puppet_info-faults (id_of 9) true crowded (omega arith) nobody

abbrev hello : PlayerConnect
hello = record { con_type = con_init; max_player_count = 4; client_name = codes "Peach" }

abbrev after_connect : Client
after_connect = record client {
  puppet_infos =
      record info_new { player_id = id_of 7; is_connected = true }
      ∷ record info_new { player_id = id_of 9; is_connected = true; puppet_name = codes "Peach" }
      ∷ info_new
      ∷ [];
  connect_count = pos 2;
}

connects-nine : update_player_connect (id_of 9) hello client ≡ some after_connect
unfolding update_player_connect connect_found claim uid_of strcpy find_puppet_info find_from
    next_available
connects-nine = refl

abbrev after_disconnect : Client
after_disconnect = record after_connect {
  puppet_infos =
      record info_new { player_id = id_of 7; is_connected = true }
      ∷ record info_new { player_id = id_of 9; puppet_name = codes "Peach" }
      ∷ info_new
      ∷ [];
  connect_count = pos 1;
}

disconnects-nine : disconnect_player (id_of 9) after_connect ≡ some after_disconnect
unfolding disconnect_player disconnect_found release uid_of find_puppet_info find_from
    next_available
disconnects-nine = refl

client-IsCounted : IsCounted client
unfolding connected
client-IsCounted = refl

IsCounted-after_connect : IsCounted after_connect
unfolding connected
IsCounted-after_connect = refl

-- The player 8, who left, still moves.
abbrev walk : PlayerInf
walk = record {
  player_pos = vec3_zero;
  player_rot = quat_zero;
  anim_blend_weights = [];
  act_name = pos 0;
  sub_act_name = negsuc 0;
}

abbrev anims : List Str
anims = codes "Wait" ∷ codes "Run" ∷ []

abbrev after_walk : Client
after_walk = record client {
  puppet_infos =
      record info_new { player_id = id_of 7; is_connected = true }
      ∷ record info_new {
        player_id = id_of 8;
        is_connected = true;
        cur_anim_str = codes "Wait";
        cur_sub_anim = negsuc 0;
      }
      ∷ info_new
      ∷ [];
}

finds-eight : find_puppet_info (uid_of (id_of 8)) false client ≡ some (some 1)
unfolding uid_of find_puppet_info find_from next_available
finds-eight = refl

walks-eight : update_player_info ulp_ops anims (id_of 8) walk client ≡ some after_walk
unfolding update_player_info with_info with_found edit_player_inf anim_str rot_in_range
    merge_weights find_str uid_of strcpy find_puppet_info find_from next_available
walks-eight = refl

update_player_info-miscounts_example :
    (after_walk.connect_count ≡ pos (connected client.puppet_infos))
    × (connected after_walk.puppet_infos ≡ connected client.puppet_infos + 1)
update_player_info-miscounts_example =
    update_player_info-miscounts ulp_ops anims (id_of 8) walk client after_walk 1
      (record info_new { player_id = id_of 8 }) client-IsCounted finds-eight refl refl walks-eight

abbrev dress : CostumeInf
dress = record { body_model = codes "Mario"; cap_model = codes "MarioTuxedo" }

abbrev trip : GameInf
trip = record { is_2d = false; scenario_num = pos 2; stage_name = codes "SandWorldHomeStage" }

is_shine_collected-mem_example :
    (is_shine_collected
        (pos 9)
        (receive_shines (pos 4 ∷ pos 9 ∷ []) (reset_collected_shines client))
      ≡ true)
    ↔ ((is_neg (pos 9) ≡ false) × Mem (pos 9) (take 127 (pos 4 ∷ pos 9 ∷ [])))
is_shine_collected-mem_example = is_shine_collected-mem (pos 9) (pos 4 ∷ pos 9 ∷ []) client

-- An animation whose number is past the end of the table.
update_player_info-returns_example :
    (c' : Client) × (update_player_info ulp_ops player_anims
        (id_of 7)
        (record {
          player_pos = vec3_zero;
          player_rot = quat_zero;
          anim_blend_weights = [];
          act_name = pos 5000;
          sub_act_name = pos 3;
        })
        client
      ≡ some c')
update_player_info-returns_example =
    update_player_info-returns ulp_ops (id_of 7)
      (record {
        player_pos = vec3_zero;
        player_rot = quat_zero;
        anim_blend_weights = [];
        act_name = pos 5000;
        sub_act_name = pos 3;
      })
      client (omega arith)

edit_costume_inf-Shown_example :
    let m : CostumeInf = record {
      body_model = codes "MarioSuit";
      cap_model = codes "MarioSanta";
    } in
    (y : PuppetInfo) × (edit_costume_inf m info_new ≡ some y)
    × Shown (codes "MarioSanta") (try_get_puppet_cap_name y)
    × Shown (codes "MarioSuit") (try_get_puppet_body_name y)
edit_costume_inf-Shown_example =
    edit_costume_inf-Shown
      (record { body_model = codes "MarioSuit"; cap_model = codes "MarioSanta" }) info_new
      (omega arith) (omega arith)
