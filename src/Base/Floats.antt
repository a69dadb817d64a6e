-- ===== src/Base/Floats.antt =====
-- `float` values. A float is its 32-bit pattern; what the processor computes with it is not code
-- of this repository, so the operations are a parameter of the functions that use them.
use Prim.Native.Nat.{ℕ, ◌+◌, ◌-◌, ◌*◌}
use mathlib.Core.Bool.{Bool}
use smoo_bazel.Base.Tests.{ltb, leb}

abbrev pub Float : Type 0
Float = ℕ

-- The patterns of 0.0f and 1.0f.
abbrev pub f_zero : Float
f_zero = 0

abbrev pub f_one : Float
f_one = 0x3f800000

pub record FloatOps : Type 0 where
  pub add : Float → Float → Float
  pub sub : Float → Float → Float
  pub mul : Float → Float → Float
  pub abs : Float → Float
  pub lt : Float → Float → Bool
  pub le : Float → Float → Bool

-- `sead::Vector3f` and `sead::Quatf`
pub record Vec3 : Type 0 where
  pub x : Float
  pub y : Float
  pub z : Float

pub record Quat : Type 0 where
  pub x : Float
  pub y : Float
  pub z : Float
  pub w : Float

abbrev pub vec3_zero : Vec3
vec3_zero = record { x = f_zero; y = f_zero; z = f_zero }

abbrev pub quat_zero : Quat
quat_zero = record { x = f_zero; y = f_zero; z = f_zero; w = f_zero }

-- Operations that the tests put in: a pattern is read as the number of its ulps, which has no
-- negative values.
abbrev pub ulp_ops : FloatOps
ulp_ops = record {
  add = λ a b. a + b;
  sub = λ a b. a - b;
  mul = λ a b. a * b;
  abs = λ a. a;
  lt = λ a b. ltb a b;
  le = λ a b. leb a b;
}
