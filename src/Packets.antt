-- ===== src/Packets.antt =====
-- The messages of proto/packets/*.proto and proto/util/Math.proto, as the mod reads and writes them.
-- A sub-message that is not set reads as its default, so the fields hold values; a `oneof` is a data
-- type with a constructor for each case and one for none of them.
use smoo_bazel.Base.{
  ℕ, ◌-◌, ◌%◌, ◌^◌, ◌≡◌, refl, sym, ap, ◌∙◌, Bool, List, [], ◌∷◌, ◌++◌, ltb, if◌then◌else◌, length,
  take, replicate, Str, ℤ, pos, negsuc, Float, Vec3, Quat,
}
use smoo_bazel.Puppets.Info.{FlagTeam}

pub record CaptureInf : Type 0 where
  pub hack_name : Str

pub record ChangeStage : Type 0 where
  pub change_stage : Str
  pub change_id : Str
  pub scenario_num : ℤ
  pub sub_scenario_type : ℤ

pub record CostumeInf : Type 0 where
  pub body_model : Str
  pub cap_model : Str

pub record GameInf : Type 0 where
  pub is_2d : Bool
  pub scenario_num : ℤ
  pub stage_name : Str

pub record HackCapInf : Type 0 where
  pub cap_pos : Vec3
  pub cap_quat : Quat
  pub is_cap_visible : Bool
  pub cap_anim : Str

pub data ConnectionType : Type 0 where
  con_init con_reconnect : ConnectionType

pub record PlayerConnect : Type 0 where
  pub con_type : ConnectionType
  pub max_player_count : ℕ
  pub client_name : Str

pub record PlayerInf : Type 0 where
  pub player_pos : Vec3
  pub player_rot : Quat
  pub anim_blend_weights : List Float
  pub act_name : ℤ
  pub sub_act_name : ℤ

pub record TagInf : Type 0 where
  pub update_type : ℕ
  pub is_it : Bool
  pub seconds : ℕ
  pub minutes : ℕ

-- `player_dc` has no fields; of `shine_collect` the mod uses the id.
pub data SystemPacket : Type 0 where
  capture_inf : CaptureInf → SystemPacket
  change_stage : ChangeStage → SystemPacket
  costume_inf : CostumeInf → SystemPacket
  game_inf : GameInf → SystemPacket
  hack_cap_inf : HackCapInf → SystemPacket
  init : ℕ → SystemPacket
  player_connect : PlayerConnect → SystemPacket
  player_dc : SystemPacket
  player_inf : PlayerInf → SystemPacket
  server_command : Str → SystemPacket
  shine_collect : ℤ → SystemPacket
  tag_inf : TagInf → SystemPacket
  no_system : SystemPacket

pub record CtfGameState : Type 0 where
  pub seconds : ℕ
  pub minutes : ℕ
  pub reset_game : Bool

pub record TeamAssignment : Type 0 where
  pub team : FlagTeam
  pub should_hold_team_flag : Bool

pub record FlagHoldState : Type 0 where
  pub is_held : Bool
  pub flag_team : FlagTeam

pub record FlagDropped : Type 0 where
  pub flag_team : FlagTeam
  pub at : Vec3
  pub rot : Quat
  pub scenario_num : ℤ
  pub stage_name : Str

pub data CtfPacket : Type 0 where
  game_state : CtfGameState → CtfPacket
  team_assignment : TeamAssignment → CtfPacket
  win : FlagTeam → CtfPacket
  flag_hold_state : FlagHoldState → CtfPacket
  flag_dropped : FlagDropped → CtfPacket
  no_ctf : CtfPacket

pub data Body : Type 0 where
  system : SystemPacket → Body
  ctf : CtfPacket → Body
  no_body : Body

-- `packets::Packet`; the user id is the bytes of `metadata.user_id.uid`.
pub record Packet : Type 0 where
  pub user_id : Str
  pub body : Body

-- `packets::Packet()`
abbrev pub packet_empty : Packet
packet_empty = record { user_id = []; body = no_body }

-- `convert(packets::Uid const&)`: 16 zero bytes, over which the id's first bytes are copied.
unfoldable pub uid_of : Str → Str
uid_of bytes = take 16 (bytes ++ replicate 16 0)

take-length : (bytes rest : Str) → take (length bytes) (bytes ++ rest) ≡ bytes
take-length [] rest = refl
take-length (b ∷ bytes) rest = ap (λ l. b ∷ l) (take-length bytes rest)

-- A user id of 16 bytes, which a message carries as it is, is read from the message as itself.
pub uid_of-id : (id : Str) → length id ≡ 16 → uid_of id ≡ id
unfolding uid_of
uid_of-id id h = ap (λ n. take n (id ++ replicate 16 0)) (sym h) ∙ take-length id (replicate 16 0)

-- The conversion of an `int32` to a `u8`, and to an `s16`.
abbrev pub u8_of : ℤ → ℕ
u8_of (pos n) = n % 256
u8_of (negsuc n) = 255 - n % 256

abbrev pub s16_of_u16 : ℕ → ℤ
s16_of_u16 n = if ltb n 32768 then pos n else negsuc (65535 - n)

abbrev pub s16_of : ℤ → ℤ
s16_of (pos n) = s16_of_u16 (n % 65536)
s16_of (negsuc n) = s16_of_u16 (65535 - n % 65536)

-- A `u32` stored in an `int`.
abbrev pub int_of_u32 : ℕ → ℤ
int_of_u32 n = if ltb n (2 ^ 31) then pos n else negsuc (2 ^ 32 - 1 - n)
