-- ===== src/Client/Find.antt =====
-- `Client::findPuppetInfo`: the entry of a player among the infos, or a free one.
pub mod Spec
use smoo_bazel.Base.{
  ℕ, zero, suc, ◌+◌, Bool, not, ◌&&◌, Option, none, some, List, [], ◌∷◌, if◌then◌else◌, Str, str_eq,
}
use smoo_bazel.Puppets.Info.{PuppetInfo}
use smoo_bazel.Client.State.{loop_bound, Client}

-- `firstAvailable` after a round of the loop.
unfoldable pub next_available : Bool → Option ℕ → PuppetInfo → ℕ → Option ℕ
next_available find_available none x i =
    if find_available && not x.is_connected then some i else none
next_available find_available (some f) x i = some f

-- The loop from index `i` on, with `n` rounds left; `none` where it leaves the array.
unfoldable pub find_from : Str → Bool → List PuppetInfo → ℕ → ℕ → Option ℕ → Option (Option ℕ)
find_from id find_available infos zero i first = some first
find_from id find_available [] (suc n) i first = none
find_from id find_available (x ∷ xs) (suc n) i first =
    if str_eq x.player_id id
    then some (some i)
    else find_from id find_available xs n (i + 1) (next_available find_available first x i)

-- The result is an index for the pointer that the code returns.
unfoldable pub find_puppet_info : Str → Bool → Client → Option (Option ℕ)
find_puppet_info id find_available c =
    find_from id find_available c.puppet_infos (loop_bound c.max_puppets) 0 none
