-- ===== src/Socket/Move.antt =====
-- The packet about the own movement: `sendPlayerInfPacket` of mod/src/server/Client.cpp.
pub mod Arrives
mod Tests
use smoo_bazel.Base.{
  ℕ, zero, suc, ◌+◌, Bool, true, false, not, Option, none, some, List, [], ◌∷◌, if◌then◌else◌,
  ◌>>=◌, replicate, Str, ℤ, Float, f_zero, Vec3, Quat,
}
use smoo_bazel.Packets.{PlayerInf, player_inf, system, Packet}
use smoo_bazel.Client.Infos.{unknown_anim}
use smoo_bazel.Client.Anims.{player_anims}
use smoo_bazel.Client.Anims.Find.{find_type}
use smoo_bazel.Socket.{queue_new, free_new}
use smoo_bazel.Socket.Cap.{Sender}

-- What the game says of `PlayerActorHakoniwa`: the name of the capture is a null pointer for `none`,
-- and so are the names of the actions.
pub record Actor : Type 0 where
  pub trans : Vec3
  pub calc_rot : Quat
  pub blend_weight : ℕ → Float
  pub hack_name : Option Str
  pub hack_action : Option Str
  pub action : Option Str
  pub sub_anim : Str

-- The client's `isClientCaptured` and outbox, and `lastPlayerInfPacket`.
pub record Mover : Type 0 where
  pub sender : Sender
  pub last_player_inf : Packet

-- `ANIM_BLEND_WEIGHT_COUNT`
abbrev pub weight_count : ℕ
weight_count = 6

-- The loop over the weights, of which `n` are left from the `i`-th on.
weights_from : (ℕ → Float) → ℕ → ℕ → List Float
weights_from w i zero = []
weights_from w i (suc n) = w i ∷ weights_from w (i + 1) n

-- The animation of a capture: without an action it is unknown.
hack_anim : Option Str → ℤ
hack_anim none = unknown_anim
hack_anim (some s) = find_type player_anims s

move_packet : PlayerInf → Mover → Packet
move_packet m o = record { user_id = o.sender.outbox.user_id; body = system (player_inf m) }

-- The packet of Mario with the numbers of his animations.
unfoldable pub actor_inf : Actor → ℤ → ℤ → PlayerInf
unfolding weights_from
actor_inf a act sub = record {
  player_pos = a.trans;
  player_rot = a.calc_rot;
  anim_blend_weights = weights_from a.blend_weight 0 weight_count;
  act_name = act;
  sub_act_name = sub;
}

-- The packet of Mario, undefined where his own action has no name, and whether he is captured.
unfoldable pub mario_inf : Actor → Option (PlayerInf × Bool)
unfolding hack_anim
mario_inf a = elim a.hack_name [
  | some _ ↦ some (actor_inf a (hack_anim a.hack_action) unknown_anim, true)
  | none ↦ a.action >>= λ s.
      some (actor_inf a (find_type player_anims s) (find_type player_anims a.sub_anim), false)
]

-- The packet of the bowl racer, whose animations are not sent.
racer_inf : Actor → PlayerInf
racer_inf a = record {
  player_pos = a.trans;
  player_rot = a.calc_rot;
  anim_blend_weights = replicate weight_count f_zero;
  act_name = unknown_anim;
  sub_act_name = unknown_anim;
}

module _ (equals : Packet → Packet → Bool) where
  -- From the `new` of the packet on.
  unfoldable pub send_move : PlayerInf → Mover → Mover
  unfolding move_packet
  send_move m o =
      let p = move_packet m o in
      if not (equals o.last_player_inf p)
      then record o {
        last_player_inf = p;
        sender = record o.sender { outbox = queue_new p o.sender.outbox };
      }
      else record o { sender = record o.sender { outbox = free_new p o.sender.outbox } }

  set_captured : Bool → Mover → Mover
  set_captured b o = record o { sender = record o.sender { is_captured = b } }

  -- `sendPlayerInfPacket`
  unfoldable pub send_player_inf_packet : Bool → Actor → Mover → Option Mover
  unfolding set_captured racer_inf
  send_player_inf_packet is_yukimaru a o =
      if is_yukimaru
      then some (send_move (racer_inf a) (set_captured false o))
      else mario_inf a >>= λ (m, captured). some (send_move m (set_captured captured o))
