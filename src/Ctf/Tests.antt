-- ===== src/Ctf/Tests.antt =====
-- Rounds of a player who plays for the red team, and the theorems there.
use smoo_bazel.Base.{◌≡◌, refl, ◌⊎◌, true, false, none, some, [], ◌∷◌, arith, f_zero, vec3_zero}
use smoo_bazel.Puppets.Info.{red, blue}
use smoo_bazel.Socket.{send_ctf_win_packet}
use smoo_bazel.Ctf.Sample.{game, places, player, round, frame, in_lift}
use smoo_bazel.Ctf.State.{get_opposing_team, Round, Frame}
use smoo_bazel.Ctf.Place.{local_player, is_invulnerable}
use smoo_bazel.Ctf.Play.{check_tagged, check_win, update_ctf}
use smoo_bazel.Ctf.Play.Held.{check_pick_up_or_drop_flag-PickStep, PickStep}
use smoo_bazel.Ctf.Play.Win.{check_win-Wins, Wins}
use smoo_bazel.Ctf.Play.Ends.{InfoStep}
use smoo_bazel.Ctf.Play.SafeSteps.{check_pick_up_or_drop_flag-Defined, IsReady}
use smoo_bazel.Ctf.Play.Safe.{update_ctf-IsReady}
use smoo_bazel.Ctf.Play.Frames.{
  run_frames, run_frames-IsReady, run_frames-is_invulnerable, update_ctf-InfoStep,
  check_tagged-carrier,
}

-- The same with the blue flag in hand.
abbrev carrying : Round
carrying = record round { info = record round.info { held_flag = blue } }

round-IsReady : IsReady round
round-IsReady = record {
  infos = omega arith;
  border = (record { dead = true; scale = vec3_zero; info = none }, refl);
  many = omega arith;
  held = omega arith;
}

-- The round after two frames.
after_frames :
    (r' : Round) × (run_frames places game (frame ∷ in_lift ∷ []) round ≡ some r') × IsReady r'
after_frames =
    run_frames-IsReady places game (frame ∷ in_lift ∷ []) round round-IsReady
      (omega arith, (omega arith, tt))

run_frames-is_invulnerable_example :
    (after_frames.0.invuln_time ≡ f_zero)
    × ((f : Frame) → is_invulnerable places game f after_frames.0 ≡ false)
run_frames-is_invulnerable_example =
    run_frames-is_invulnerable places game (frame ∷ in_lift ∷ []) round after_frames.0 refl
      after_frames.1

-- The round after a frame.
after_frame : (r' : Round) × (update_ctf places game frame round ≡ some r') × IsReady r'
after_frame = update_ctf-IsReady places game frame round round-IsReady (omega arith)

abbrev after : Round
after = after_frame.0

update_ctf-InfoStep_example : InfoStep frame round.info after.info
update_ctf-InfoStep_example = update_ctf-InfoStep places game frame round after after_frame.1

player-is_local : local_player places game frame carrying ≡ some player
unfolding local_player
player-is_local = refl

check_tagged-carrier_example : check_tagged places game frame carrying ≡ some carrying
unfolding is_invulnerable get_opposing_team
check_tagged-carrier_example =
    check_tagged-carrier places game frame carrying player player-is_local (omega arith) refl refl

check_win-Wins_example :
    (Wins places game frame carrying
      × (check_win places game frame carrying
          ≡ record carrying { outbox = send_ctf_win_packet red carrying.outbox }))
    ⊎ (¬ Wins places game frame carrying × (check_win places game frame carrying ≡ carrying))
check_win-Wins_example = check_win-Wins places game frame carrying

check_pick_up_or_drop_flag-PickStep_example :
    (r' : Round) × PickStep places game frame player round r'
check_pick_up_or_drop_flag-PickStep_example =
    let (r', e) = check_pick_up_or_drop_flag-Defined places game frame player round (omega arith) in
    (r', check_pick_up_or_drop_flag-PickStep places game frame player round e)
