-- ===== src/Puppets/Info.antt =====
-- mod/src/puppets/PuppetInfo.h: the last state that each other player sent.
use smoo_bazel.Base.{
  ℕ, ◌≡◌, refl, ap, ◌≢◌, inl, inr, Bool, true, false, List, [], ◌==◌, ==_iff, Bool-cases, replicate,
  Str, ℤ, pos, Float, f_zero, vec3_zero, quat_zero, Vec3, Quat,
}

-- `packets::ctf::FlagTeam` of proto/packets/CaptureTheFlag.proto. An enum of proto3 is open: any
-- other number that a packet carries is `unlisted`.
pub data FlagTeam : Type 0 where
  invalid red blue : FlagTeam
  unlisted : ℕ → FlagTeam

abbrev pub team_eq : FlagTeam → FlagTeam → Bool
team_eq invalid invalid = true
team_eq red red = true
team_eq blue blue = true
team_eq (unlisted m) (unlisted n) = m == n
team_eq _ _ = false

pub team_eq_refl : (t : FlagTeam) → team_eq t t ≡ true
team_eq_refl invalid = refl
team_eq_refl red = refl
team_eq_refl blue = refl
team_eq_refl (unlisted n) = (==_iff n n).1 refl

pub team_eq-ne : (s t : FlagTeam) → team_eq s t ≡ false → s ≢ t
team_eq-ne s t h e = let r = team_eq_refl t in let e' = ap (λ x. team_eq x t) e in cc

pub team_eq→eq : (s t : FlagTeam) → team_eq s t ≡ true → s ≡ t
team_eq→eq invalid invalid h = refl
team_eq→eq red red h = refl
team_eq→eq blue blue h = refl
team_eq→eq (unlisted m) (unlisted n) h = ap unlisted ((==_iff m n).0 h)
team_eq→eq invalid red h = cc
team_eq→eq invalid blue h = cc
team_eq→eq invalid (unlisted n) h = cc
team_eq→eq red invalid h = cc
team_eq→eq red blue h = cc
team_eq→eq red (unlisted n) h = cc
team_eq→eq blue invalid h = cc
team_eq→eq blue red h = cc
team_eq→eq blue (unlisted n) h = cc
team_eq→eq (unlisted m) invalid h = cc
team_eq→eq (unlisted m) red h = cc
team_eq→eq (unlisted m) blue h = cc

pub ne→team_eq : (s t : FlagTeam) → s ≢ t → team_eq s t ≡ false
ne→team_eq s t h = elim (Bool-cases (team_eq s t)) [
  | inl y ↦ absurd (h (team_eq→eq s t y))
  | inr n ↦ n
]

-- The sizes of the `char` arrays.
abbrev pub name_size : ℕ
name_size = 0x10

abbrev pub stage_size : ℕ
stage_size = 0x40

abbrev pub costume_size : ℕ
costume_size = 0x20

abbrev pub hack_size : ℕ
hack_size = 0x40

abbrev pub anim_size : ℕ
anim_size = 0x30

-- A `char` array holds a C string.
pub record PuppetInfo : Type 0 where
  pub puppet_name : Str
  pub is_connected : Bool
  pub player_id : Str
  pub player_pos : Vec3
  pub player_rot : Quat
  pub scenario_no : ℕ
  pub stage_name : Str
  pub is_in_same_stage : Bool
  pub costume_body : Str
  pub costume_head : Str
  pub cur_hack : Str
  pub is_captured : Bool
  pub is_start_capture : Bool
  pub cur_anim : ℤ
  pub cur_sub_anim : ℤ
  pub cur_anim_str : Str
  pub cur_sub_anim_str : Str
  pub blend_weights : List Float
  pub anim_rate : Float
  pub is_2d : Bool
  pub cap_pos : Vec3
  pub cap_rot : Quat
  pub cap_anim : Str
  pub is_cap_throw : Bool
  pub is_hold_throw : Bool
  pub is_it : Bool
  pub seconds : ℕ
  pub minutes : ℕ
  pub ctf_team : FlagTeam

-- `nn::account::Uid` has 16 bytes; `Uid()` is all zeros.
abbrev pub uid_empty : Str
uid_empty = replicate 16 0

-- `new PuppetInfo()`: the value-initialised struct. The enum fields have no initialiser; `new T()`
-- leaves them 0.
abbrev pub info_new : PuppetInfo
info_new = record {
  puppet_name = [];
  is_connected = false;
  player_id = uid_empty;
  player_pos = vec3_zero;
  player_rot = quat_zero;
  scenario_no = 255;
  stage_name = [];
  is_in_same_stage = false;
  costume_body = [];
  costume_head = [];
  cur_hack = [];
  is_captured = false;
  is_start_capture = false;
  cur_anim = pos 0;
  cur_sub_anim = pos 0;
  cur_anim_str = [];
  cur_sub_anim_str = [];
  blend_weights = replicate 6 f_zero;
  anim_rate = f_zero;
  is_2d = false;
  cap_pos = vec3_zero;
  cap_rot = quat_zero;
  cap_anim = [];
  is_cap_throw = false;
  is_hold_throw = false;
  is_it = false;
  seconds = 0;
  minutes = 0;
  ctf_team = invalid;
}
