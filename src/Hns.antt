-- ===== src/Hns.antt =====
-- mod/src/server/hns/HideAndSeekMode.cpp, the mode of hide and seek: its begin, its end and its frame.
-- The calls that show and hide the layouts of the scene are left out.
pub mod Clock
pub mod Catch
pub mod Caught
pub mod Safe
mod Tests
use smoo_bazel.Base.{
  ℕ, zero, suc, Bool, true, false, not, ◌&&◌, Option, none, some, List, [], ◌∷◌, if◌then◌else◌,
  ◌>>=◌, Float, f_zero, Vec3,
}
use smoo_bazel.Timer.{toggle_timer, enable_timer, disable_timer, update_timer, Timer, Pad}
use smoo_bazel.Puppets.Info.{PuppetInfo}
use smoo_bazel.Modes.{HnsInfo, hns_info, ModeObject, Manager}
use smoo_bazel.Socket.{send_tag_inf_packet, Outbox}
use smoo_bazel.Client.State.{Client}
use smoo_bazel.Game.{
  invuln_seconds, die, kill_main_player, in_reach, Player, Call, start_camera, end_camera,
  show_hiding, show_seeking, set_gravity, set_cap_gravity, Game,
}

-- What a frame reads and writes.
pub record Hunt : Type 0 where
  pub object : ModeObject
  pub info : HnsInfo
  pub timer : Timer
  pub invuln_time : Float
  pub client : Client
  pub outbox : Outbox
  -- The calls of this frame, the last one first.
  pub calls : List Call

-- What a frame finds in the game.
pub record HnsFrame : Type 0 where
  -- `rs::getPlayerActor`
  pub player : Option Player
  pub delta : Float
  -- `mPuppetHolder->getSize()`
  pub holder_size : ℕ
  -- `mTicket` is not null
  pub has_ticket : Bool
  -- `al::isActiveCamera(mTicket)`, after the calls of the frame
  pub camera_active : List Call → Bool
  -- What `rs::calcOnGroundNormalOrGravityDir` finds.
  pub ground : Option Vec3
  pub pad : Pad
  pub hold_zl : Bool
  pub trigger_zl : Bool
  pub trigger_up : Bool
  pub trigger_right : Bool
  -- The manager, whose mode object and info are those of the hunt.
  pub manager : Manager

-- `begin`
pub begin_hns : Hunt → Hunt
begin_hns h = record h {
  object = record h.object { is_active = true; is_first_frame = true };
  timer = if not h.info.is_player_it then enable_timer h.timer else disable_timer h.timer;
  invuln_time = f_zero;
  calls = (if not h.info.is_player_it then show_hiding else show_seeking) ∷ h.calls;
}

-- `end`
pub end_hns : Hunt → Hunt
end_hns h = record h {
  object = record h.object { is_active = false };
  timer = disable_timer h.timer;
  invuln_time = f_zero;
}

-- `mInfo->mHidingTime = mModeTimer->getTime()`
pub save_time : Hunt → Hunt
save_time h = record h { info = record h.info { hiding_time = h.timer.time } }

-- Does the puppet of the info make the player be it?
pub catches : Game → Player → List Call → PuppetInfo → Bool
catches g p calls x =
    x.is_connected
    && x.is_in_same_stage
    && x.is_it
    && p.has_info
    && (if in_reach g p x then not (g.is_dead calls) else g.is_dead calls)

module _ (g : Game) (f : HnsFrame) where
  -- `Client::sendTagInfPacket`
  pub send_tag : Hunt → Option Hunt
  send_tag h = do
    o ←
        send_tag_inf_packet
          (record f.manager { base = some h.object; info = some (hns_info h.info) }) h.outbox
    some (record h { outbox = o })

  pub become_it : Hunt → Option Hunt
  become_it h = send_tag (record h {
    info = record h.info { is_player_it = true };
    timer = disable_timer h.timer;
    calls = show_seeking ∷ h.calls;
  })

  -- The body of the loop over the puppets.
  pub meet : Player → PuppetInfo → Hunt → Option Hunt
  meet p x h =
      if catches g p h.calls x
      then become_it (record h { calls = if in_reach g p x then die h.calls else h.calls })
      else some h

  -- The loop over the puppets, with `n` rounds left; `none` where it leaves the array.
  pub meet_from : Player → ℕ → List PuppetInfo → Hunt → Option Hunt
  meet_from p zero infos h = some h
  meet_from p (suc n) [] h = none
  meet_from p (suc n) (x ∷ xs) h = meet p x h >>= meet_from p n xs

  -- The first frame's part of `update`
  pub start_frame : Hunt → Hunt
  start_frame h =
      if h.object.is_first_frame
      then record h {
        object = record h.object { is_first_frame = false };
        calls =
            if h.info.is_use_gravity_cam && f.has_ticket then start_camera ∷ h.calls else h.calls;
      }
      else h

  tick : Hunt → Hunt
  tick h = record h { timer = update_timer g.fl f.pad f.delta h.timer }

  -- The first 5 seconds nobody catches the player.
  pub look : Player → Hunt → Option Hunt
  look p h =
      if g.fl.le invuln_seconds h.invuln_time
      then meet_from p f.holder_size h.client.puppet_infos h
      else some (record h { invuln_time = g.fl.add h.invuln_time f.delta })

  -- What `update` does while the player hides.
  pub hide : Player → Hunt → Option Hunt
  hide p h = if not h.info.is_player_it then (look p h >>= λ h'. some (tick h')) else some h

  pull : Option Vec3 → Hunt → Hunt
  pull none h = h
  pull (some v) h =
      let down = g.al_normalize (g.vec_neg v) in
      record h { calls = set_cap_gravity down ∷ set_gravity down ∷ h.calls }

  -- The camera calls follow the pointer `mTicket`.
  toggle_camera : Hunt → Option Hunt
  toggle_camera h =
      if not f.has_ticket
      then none
      else if f.camera_active h.calls
      then some (record h {
        calls = end_camera ∷ h.calls;
        info = record h.info { is_use_gravity_cam = false };
      })
      else some (record h {
        calls = start_camera ∷ h.calls;
        info = record h.info { is_use_gravity_cam = true };
      })

  gravity_pad : Hunt → Option Hunt
  gravity_pad h =
      if f.pad.hold_l
      then (if f.trigger_right then toggle_camera h else some h)
      else if f.trigger_zl && f.pad.trigger_left
      then some (record h { calls = kill_main_player h.calls })
      else some h

  -- The gravity part of `update`
  pub gravity : Player → Hunt → Option Hunt
  gravity p h =
      if h.info.is_use_gravity && p.has_info then gravity_pad (pull f.ground h) else some h

  -- The player who presses Up changes sides.
  pub change_sides : Hunt → Option Hunt
  change_sides h =
      if f.trigger_up && not f.hold_zl
      then send_tag (
          if h.info.is_player_it
          then record h {
            info = record h.info { is_player_it = false };
            timer = toggle_timer h.timer;
            invuln_time = f_zero;
            calls = show_hiding ∷ h.calls;
          }
          else record h {
            info = record h.info { is_player_it = true };
            timer = toggle_timer h.timer;
            calls = show_seeking ∷ h.calls;
          })
      else some h

  -- `update` with a player
  pub hunt : Player → Hunt → Option Hunt
  hunt p h = do
    h1 ← hide p (start_frame h)
    h2 ← gravity p h1
    h3 ← change_sides h2
    some (save_time h3)

  -- `update`, which calls a member of the player before any test for null.
  pub update_hns : Hunt → Option Hunt
  update_hns h = f.player >>= λ p. hunt p h

module _ (g : Game) where
  -- The frames of a hunt, one after the other.
  pub run_hunt : List HnsFrame → Hunt → Option Hunt
  run_hunt [] h = some h
  run_hunt (f ∷ fs) h = update_hns g f h >>= run_hunt fs
