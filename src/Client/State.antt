-- ===== src/Client/State.antt =====
-- The members of `Client` that its packet handlers read and write, the flags of
-- mod/src/actors/FlagActor.h, and the game objects that the handlers reach.
use smoo_bazel.Base.{ℕ, suc, ◌-◌, ◌^◌, Bool, Option, List, Str, ℤ, pos, negsuc, Vec3, Quat}
use smoo_bazel.Puppets.Info.{FlagTeam, PuppetInfo}
use smoo_bazel.Packets.{ChangeStage, Packet}
use smoo_bazel.Modes.{Manager}

-- `MAXPUPINDEX`
abbrev pub max_infos : ℕ
max_infos = 32

-- The size of `curCollectedShines`.
abbrev pub max_shines : ℕ
max_shines = 128

pub record Client : Type 0 where
  pub user_id : Str
  pub connect_count : ℤ
  pub max_puppets : ℤ
  pub puppet_infos : List PuppetInfo
  pub collected_shines : List ℤ
  pub collected_shine_count : ℤ

-- `FlagInfo`
pub record FlagInfo : Type 0 where
  pub team : FlagTeam
  pub is_held : Bool
  pub holder : Str
  pub at : Vec3
  pub rot : Quat

-- `FlagActor`: its translation, and what `m_info` points to.
pub record FlagActor : Type 0 where
  pub dead : Bool
  pub trans : Vec3
  pub info : Option FlagInfo

-- The static members of `FlagActor`.
pub record Flags : Type 0 where
  pub team_flags : List (Option FlagActor)
  pub latest_team : FlagTeam
  pub latest_position : Vec3
  pub latest_stage : Str

-- What a handler asks of the game.
pub data Request : Type 0 where
  go_to_stage : ChangeStage → Request

pub record World : Type 0 where
  pub client : Client
  pub manager : Manager
  pub flags : Flags
  -- Is there a scene (`mSceneInfo && mSceneInfo->mSceneObjHolder`)?
  pub has_scene : Bool
  pub requests : List Request
  -- The packets that a handler sends at once, by `mSocket->send`.
  pub sent : List Packet
  -- `lastGameInfPacket`, `emptyGameInfPacket`, `lastPlayerInfPacket` and `lastCostumeInfPacket`.
  pub last_game_inf : Packet
  pub empty_game_inf : Packet
  pub last_player_inf : Packet
  pub last_costume_inf : Packet

-- `mMaxPuppets` as the bound of `for (size_t i = 0; …)`.
abbrev pub loop_bound : ℤ → ℕ
loop_bound (pos n) = n
loop_bound (negsuc n) = 2 ^ 64 - suc n
