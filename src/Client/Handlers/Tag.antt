-- ===== src/Client/Handlers/Tag.antt =====
-- What a tag packet does to the own player of a hide-and-seek game.
use Prim.Native.Nat.{min, bit_and-bitwise}
use smoo_bazel.Base.{
  ℕ, zero, suc, ◌+◌, ◌*◌, ◌%◌, ◌<◌, min, ◌≡◌, refl, ap, ◌∙◌, false, not, Option, none, some, arith,
  ◌==◌, if◌then◌else◌, ◌>>=◌,
}
use smoo_bazel.Packets.{TagInf}
use smoo_bazel.Modes.{Manager}
use smoo_bazel.Client.Handlers.{
  has_type, set_player_tag_state, set_hiding_time, own_tag, time_type, state_type,
}

has_type-time : (u : ℕ) → has_type u time_type ≡ false
unfolding has_type
has_type-time u = ap (λ n. not (n == 0)) (bit_and-bitwise 0 u)

has_type-state : (u : ℕ) → has_type u state_type ≡ (u % 2 == 1)
unfolding has_type
has_type-state u = ap (λ n. not (n == 0)) (bit_and-bitwise 1 u) ∙ low_bit (u % 2) (omega arith)
  where
    low_bit : (r : ℕ) → r < 2 → not (0 * 2 + min 1 r == 0) ≡ (r == 1)
    low_bit zero h = refl
    low_bit (suc zero) h = refl
    low_bit (suc (suc r)) h = absurd (omega arith)

-- Of the two types, that of the time is in no packet.
pub own_tag-lem :
    (t : TagInf) (m : Manager)
    → own_tag t m ≡ (if t.update_type % 2 == 1 then set_player_tag_state t.is_it m else some m)
unfolding own_tag
own_tag-lem t m =
    last (if has_type t.update_type state_type then set_player_tag_state t.is_it m else some m)
    ∙ ap (λ b. if b then set_player_tag_state t.is_it m else some m) (has_type-state t.update_type)
  where
    last :
        (r : Option Manager)
        → (r >>= λ m'. if has_type t.update_type time_type then set_hiding_time t m' else some m')
          ≡ r
    last none = refl
    last (some m') =
        ap (λ b. if b then set_hiding_time t m' else some m') (has_type-time t.update_type)
