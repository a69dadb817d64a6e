-- ===== src/Client/Shines.antt =====
-- The shines that other players collected, in mod/src/server/Client.cpp: an array of 128 ids, filled
-- by packets and emptied by the game's frame.
pub mod Received
pub mod Stage
use smoo_bazel.Base.{
  ℕ, Bool, true, false, not, ◌&&◌, List, [], ◌∷◌, ltb, if◌then◌else◌, set, replicate, inc, dec,
  is_neg, ltb_ℤ, eq_ℤ, ℤ, pos, negsuc,
}
use smoo_bazel.Client.State.{max_shines, Client}

-- A place of the array that holds no shine.
abbrev pub no_shine : ℤ
no_shine = negsuc 0

-- `sead::SafeArray::operator[]`: an index out of range names the first place.
abbrev safe_index : ℤ → ℕ
safe_index (pos n) = if ltb n max_shines then n else 0
safe_index (negsuc n) = 0

-- `updateShineInfo`
pub update_shine_info : ℤ → Client → Client
update_shine_info id c =
    if ltb_ℤ c.collected_shine_count (pos 127)
    then record c {
      collected_shines = set c.collected_shines (safe_index c.collected_shine_count) id;
      collected_shine_count = inc c.collected_shine_count;
    }
    else c

-- The loop of `isShineCollected`.
pub holds_shine : ℤ → List ℤ → Bool
holds_shine id [] = false
holds_shine id (s ∷ ss) = if not (is_neg s) && eq_ℤ s id then true else holds_shine id ss

pub is_shine_collected : ℤ → Client → Bool
is_shine_collected id c = holds_shine id c.collected_shines

-- `resetCollectedShines`
pub reset_collected_shines : Client → Client
reset_collected_shines c = record c {
  collected_shine_count = pos 0;
  collected_shines = replicate max_shines no_shine;
}

-- The loop of `removeShine`.
remove_from : ℤ → List ℤ → ℤ → List ℤ × ℤ
remove_from id [] count = ([], count)
remove_from id (s ∷ ss) count =
    let (ss', count') = remove_from id ss (if eq_ℤ s id then dec count else count) in
    ((if eq_ℤ s id then no_shine else s) ∷ ss', count')

pub remove_shine : ℤ → Client → Client
remove_shine id c =
    let (shines, count) = remove_from id c.collected_shines c.collected_shine_count in
    record c { collected_shines = shines; collected_shine_count = count }

-- `isNeedUpdateShines`
pub is_need_update_shines : Client → Bool
is_need_update_shines c = ltb_ℤ (pos 0) c.collected_shine_count

-- The packets of a sequence of collected shines.
pub receive_shines : List ℤ → Client → Client
receive_shines [] c = c
receive_shines (id ∷ ids) c = receive_shines ids (update_shine_info id c)
