-- ===== src/Modes/Scene/Objects.antt =====
-- When the mode is active, and which objects it has after a scene change.
use smoo_bazel.Base.{
  ◌≡◌, refl, sym, ap, ◌∙◌, subst, ◌≢◌, inl, inr, Bool, true, false, not, ◌&&◌, Option, none, some,
  arith, if◌then◌else◌, Bool-cases, ◌>>=◌,
}
use smoo_bazel.Modes.{
  mode_eq, hns_info, ctf_info, is_mode, object_as, as_hns, GameMode, no_mode, hide_and_seek,
  ModeInfo, ModeKind, hns_mode, ctf_mode, ModeObject, InitInfo, null_info, live_info, deleted_info,
  Manager,
}
use smoo_bazel.Modes.Scene.{
  set_mode, begin_mode, end_mode, settle, update_manager, delete_last, kind_of, new_mode, info_mode,
  new_info, init_info, init_base, base_after, init_with, init_scene,
}

settle_lem :
    (s : Bool) (m : Manager) (o : ModeObject)
    → ((settle s m o).is_active ≡ (m.active && s && not m.paused)) × ((settle s m o).kind ≡ o.kind)
unfolding settle begin_mode end_mode
settle_lem s m o = ground arith

-- The frame of a manager with a mode makes the mode active exactly in a scene, while the manager is
-- active and not paused, and then runs the mode's own frame exactly if the mode is active.
pub update_manager-active :
    (frame : Manager → Manager) (s : Bool) (m : Manager) (o : ModeObject)
    → m.base ≡ some o
    → (o' : ModeObject) × (update_manager frame s m ≡ (
        if o'.is_active
        then frame (record m { base = some o'; was_scene_trans = false })
        else record m { base = some o'; was_scene_trans = false }))
      × (o'.is_active ≡ (m.active && s && not m.paused))
      × (o'.kind ≡ o.kind)
unfolding update_manager
update_manager-active frame s m o at_base = (
  settle s m o,
  ap
      (λ (b : Option ModeObject). elim b [
        | none ↦ m
        | some x ↦
            let o' = settle s m x in
            let m' = record m { base = some o'; was_scene_trans = false } in
            if o'.is_active then frame m' else m'
      ])
      at_base,
  (settle_lem s m o).0,
  (settle_lem s m o).1,
)

abbrev pub info_kind : ModeInfo → ModeKind
info_kind (hns_info i) = hns_mode
info_kind (ctf_info i) = ctf_mode

-- The object and the info are of this kind of mode.
pub record Matches (k : ModeKind) (m : Manager) : Type 0 where
  pub object : ModeObject
  pub at_base : m.base ≡ some object
  pub object_kind : object.kind ≡ k
  pub mode_info : ModeInfo
  pub at_info : m.info ≡ some mode_info
  pub same_info : info_kind mode_info ≡ k

kept-kind :
    (k : ModeKind) (g : GameMode) (i : ModeInfo)
    → kind_of g ≡ some k
    → mode_eq (info_mode i) g ≡ true
    → info_kind i ≡ k
kept-kind k g i h same = ground (arith, h, same)

new_info-kind : (k : ModeKind) → info_kind (new_info k) ≡ k
unfolding new_info
new_info-kind hns_mode = refl
new_info-kind ctf_mode = refl

init_info-kind :
    (k : ModeKind) (g : GameMode) (i : Option ModeInfo)
    → kind_of g ≡ some k
    → info_kind (init_info k g i) ≡ k
unfolding init_info
init_info-kind k g none h = new_info-kind k
init_info-kind k g (some i) h = elim (Bool-cases (mode_eq (info_mode i) g)) [
  | inl same ↦ rw same (kept-kind k g i h same)
  | inr other ↦ rw other (new_info-kind k)
]

-- Without a new mode the manager still has an object of the current one.
abbrev pub HasObject : ModeKind → Manager → Type 0
HasObject k m = m.was_set_mode ≡ false → (o : ModeObject) × (m.base ≡ some o) × (o.kind ≡ k)

base_after-kind :
    (k : ModeKind) (m : Manager)
    → HasObject k m
    → (o : ModeObject) × (base_after k m ≡ some o) × (o.kind ≡ k)
unfolding base_after new_mode
base_after-kind k m has = elim (Bool-cases m.was_set_mode) [
  | inl again ↦ (new_mode k, rw again refl, refl)
  | inr old ↦ let (o, at_base, same) = has old in (o, rw old at_base, same)
]

init_base-Matches :
    (k : ModeKind) (m : Manager) (o : ModeObject)
    → kind_of m.cur_mode ≡ some k
    → m.base ≡ some o
    → o.kind ≡ k
    → Matches k (init_base m (some o))
unfolding init_base
init_base-Matches k m o h at_base same = record {
  object = o;
  at_base = at_base;
  object_kind = same;
  mode_info = init_info o.kind m.cur_mode m.info;
  at_info = refl;
  same_info = init_info-kind o.kind m.cur_mode m.info (h ∙ ap some (sym same)) ∙ same;
}

init_with-Matches :
    (k : ModeKind) (l : InitInfo) (m : Manager)
    → kind_of m.cur_mode ≡ some k
    → HasObject k m
    → Matches k (init_with (some k) l m)
unfolding init_with
init_with-Matches k l m h has =
    let (o, e, same) = base_after-kind k m has in
    let m' : Manager = record m {
      base = base_after k m;
      was_set_mode = false;
      last_init_info = live_info;
    } in
    subst (λ b. Matches k (init_base m' b)) (sym e) (init_base-Matches k m' o h e same)

delete_last-some : (i : InitInfo) → i ≢ deleted_info → (l : InitInfo) × (delete_last i ≡ some l)
unfolding delete_last
delete_last-some null_info h = (null_info, refl)
delete_last-some live_info h = (deleted_info, refl)
delete_last-some deleted_info h = absurd (h refl)

-- A scene change under a mode, with the mode set anew or its object still there, and with no init
-- info that was deleted, does not fault. The object and the info then are of the current mode.
pub init_scene-Matches :
    (k : ModeKind) (m : Manager)
    → kind_of m.cur_mode ≡ some k
    → m.last_init_info ≢ deleted_info
    → HasObject k m
    → (m' : Manager) × (init_scene m ≡ some m') × Matches k m'
unfolding init_scene
init_scene-Matches k m mode_kind safe has =
    let (l, e) = delete_last-some m.last_init_info safe in
    (init_with (some k) l m, rw (e, mode_kind) refl, init_with-Matches k l m mode_kind has)

-- A second scene change without a mode deletes the same init info again.
pub init_scene-deletes_twice :
    (m : Manager)
    → m.cur_mode ≡ no_mode
    → m.last_init_info ≡ live_info
    → (init_scene m >>= init_scene) ≡ none
unfolding init_scene delete_last init_with
init_scene-deletes_twice m none_mode live = rw (live, none_mode) refl

as_hns-ctf : (i : ModeInfo) → info_kind i ≡ ctf_mode → as_hns (some i) ≡ none
as_hns-ctf (hns_info i) h = cc
as_hns-ctf (ctf_info i) h = refl

-- From the setting of another mode to the next scene change the manager says that the new mode is
-- the current one, while its object and its info are those of the old one.
pub set_mode-stale :
    (m : Manager)
    → Matches ctf_mode m
    → (is_mode hide_and_seek (set_mode hide_and_seek m) ≡ true)
      × (object_as hns_mode (set_mode hide_and_seek m) ≡ none)
      × (as_hns (set_mode hide_and_seek m).info ≡ none)
unfolding set_mode
set_mode-stale m v = (
  refl,
  rw (v.at_base, v.object_kind) refl,
  ap as_hns v.at_info ∙ as_hns-ctf v.mode_info v.same_info,
)
