-- ===== src/Captures.antt =====
-- The capture models that a stage makes for the puppets: mod/src/server/captureSync.cpp, with the table
-- of mod/src/algorithms/CaptureTypes.h and the functions of mod/src/puppets/PuppetActor.cpp about
-- captures. The holders of capture models are those of HackModels.antt.
pub mod Names
pub mod Sync
mod Tests
use Prim.Native.String.{String}
use smoo_bazel.Base.{
  ℕ, zero, suc, ◌+◌, Bool, true, false, not, ◌&&◌, Option, none, some, List, [], ◌∷◌, map,
  if◌then◌else◌, ◌>>=◌, Str, codes, str_eq, dec, ltb_ℤ, eq_ℤ, ℤ, pos,
}
use smoo_bazel.HackModels.{get_capture, add_capture, set_current, HackModelHolder}
use smoo_bazel.Client.State.{loop_bound}
use smoo_bazel.Client.Infos.{unknown_anim}
use smoo_bazel.Client.Anims.Find.{find_type}
use smoo_bazel.Socket.Cap.{try_convert_name}

capture_names : List String
capture_names =
    "AnagramAlphabetCharacter" ∷ "Byugo" ∷ "Bubble" ∷ "Bull" ∷ "Car" ∷ "ElectricWire"
    ∷ "KillerLauncherMagnum" ∷ "KuriboPossessed" ∷ "WanwanBig" ∷ "KillerLauncher" ∷ "Koopa"
    ∷ "Wanwan" ∷ "Pukupuku" ∷ "PukupukuSnow" ∷ "Gamane" ∷ "FireBrosPossessed" ∷ "PackunFire"
    ∷ "Frog" ∷ "Kakku" ∷ "Hosui" ∷ "HammerBrosPossessed" ∷ "Megane" ∷ "KaronWing" ∷ "KuriboWing"
    ∷ "PackunPoison" ∷ "Radicon" ∷ "Tank" ∷ "Tsukkun" ∷ "TRex" ∷ "TRexSleep" ∷ "TRexPatrol"
    ∷ "Imomu" ∷ "SenobiGeneratePoint" ∷ []

-- `s_Strs`
unfoldable pub capture_strs : List Str
unfolding capture_names
capture_strs = map codes capture_names

-- `isInCaptureList` of the class names
pub is_in_capture_list : Str → Bool
is_in_capture_list name = not (eq_ℤ (find_type capture_strs name) unknown_anim)

-- What `createPuppetHackActorFromFactory` reads, and the number of actors it made.
pub record Factory : Type 0 where
  -- `getMaxPlayerCount`
  pub max_players : ℤ
  -- The file name that the placement has, if it has one.
  pub file_name : Option Str
  pub has_creator : Bool
  pub made : ℕ

pub in_forest : Option Str → Bool
in_forest none = false
in_forest (some s) = str_eq s (codes "ForestWorldHomeStage")

-- `createPuppetHackActorFromFactory`
pub create_hack_actor : Factory → Option ℕ × Factory
create_hack_actor f =
    if eq_ℤ f.max_players (pos 8) && in_forest f.file_name
    then (none, f)
    else if ltb_ℤ (pos 8) f.max_players
    then (none, f)
    else if f.has_creator
    then (some f.made, record f { made = f.made + 1 })
    else (none, f)

add_made : Str → HackModelHolder → Option ℕ × Factory → Option (HackModelHolder × Factory)
add_made name h (none, f) = some (h, f)
add_made name h (some a, f) = add_capture (some a) name h >>= λ r. some (r.1, f)

-- The hook for one puppet. `PuppetActor::isInCaptureList` and `addCapture` are those of its holder.
pub sync_one : Str → HackModelHolder → Factory → Option (HackModelHolder × Factory)
sync_one name h f = elim (get_capture name h) [
  | some _ ↦ some (h, f)
  | none ↦ add_made name h (create_hack_actor f)
]

-- The loop over the first `n` puppets; `getPuppet` is a null pointer past the last one.
pub sync_from : Str → ℕ → List HackModelHolder → Factory → Option (List HackModelHolder × Factory)
sync_from name zero hs f = some (hs, f)
sync_from name (suc n) [] f = some ([], f)
sync_from name (suc n) (h ∷ hs) f = do
  (h', f') ← sync_one name h f
  (hs', f'') ← sync_from name n hs f'
  some (h' ∷ hs', f'')

pub record Captures : Type 0 where
  -- The holders of the puppets and of the debug puppet.
  pub puppets : List HackModelHolder
  pub debug_puppet : Option HackModelHolder
  pub factory : Factory

sync_debug : Str → Option HackModelHolder → Factory → Option (Option HackModelHolder × Factory)
sync_debug name none f = some (none, f)
sync_debug name (some h) f = sync_one name h f >>= λ r. some (some r.0, r.1)

-- The two parts of `initObjHook` for a class that can be captured.
pub sync_all : Str → Captures → Option Captures
sync_all name c = do
  (hs, f) ← sync_from name (loop_bound (dec c.factory.max_players)) c.puppets c.factory
  (d, f') ← sync_debug name c.debug_puppet f
  some (record { puppets = hs; debug_puppet = d; factory = f' })

-- `initObjHook`, with the class name of the placement.
pub init_obj_hook : Str → Captures → Option Captures
init_obj_hook class_name c =
    if is_in_capture_list class_name then sync_all (try_convert_name class_name) c else some c

-- `PuppetActor::setCapture`, with what `mCurCapture` becomes.
pub set_capture : Option Str → HackModelHolder → Bool × ℤ × HackModelHolder
set_capture none h = (false, unknown_anim, h)
set_capture (some name) h =
    let (ok, h') = set_current name h in
    if ok then (true, find_type capture_strs name, h') else (false, unknown_anim, h')
