-- ===== src/Client/Handlers/Playing.antt =====
-- What the turns of capture the flag rely on, and the changes that keep it.
use smoo_bazel.Base.{
  ℕ, ◌≤◌, ◌<◌, ◌≡◌, refl, sym, subst, Bool, true, false, Option, none, some, if◌then◌else◌, ◌>>=◌,
  >>=-eq-some, some_inj, length,
}
use smoo_bazel.Modes.{
  is_mode, object_as, hide_and_seek, CtfInfo, ModeInfo, ctf_info, ModeKind, hns_mode, ctf_mode,
  ModeObject, Manager,
}
use smoo_bazel.Client.State.{loop_bound, Client, Flags, World}
use smoo_bazel.Client.Flags.{flag_index}
use smoo_bazel.Client.Infos.Limit.{KeepsMax}
use smoo_bazel.Client.Handlers.{with_manager, edit_ctf, with_flags}

-- The flag in hand has a place among `m` flags.
abbrev pub HoldsListed : ℕ → Option ModeInfo → Type 0
HoldsListed m x = (i : CtfInfo) × (x ≡ some (ctf_info i)) × (flag_index i.held_flag < m)

-- The mode is capture the flag, the infos that the lookups read are among `n`, and each team's flag and
-- the one in hand have a place.
pub record IsPlaying (n : ℕ) (w : World) : Type 0 where
  pub bound : loop_bound w.client.max_puppets ≤ n
  pub object : (o : ModeObject) × (w.manager.base ≡ some o) × (o.kind ≡ ctf_mode)
  pub many : 3 ≤ length w.flags.team_flags
  pub info : HoldsListed (length w.flags.team_flags) w.manager.info
  pub mode : is_mode hide_and_seek w.manager ≡ false

pub same-IsPlaying : (n : ℕ) (w w' : World) → some w ≡ some w' → IsPlaying n w → IsPlaying n w'
same-IsPlaying n w w' e v = subst (IsPlaying n) (some_inj e) v

pub client-IsPlaying :
    (n : ℕ) (w : World) (c : Client)
    → KeepsMax w.client c
    → IsPlaying n w
    → IsPlaying n (record w { client = c })
client-IsPlaying n w c e v = record {
  bound = subst (λ x. loop_bound x ≤ n) (sym e) v.bound;
  object = v.object;
  many = v.many;
  info = v.info;
  mode = v.mode;
}

-- A change of the info that keeps a place for the flag in hand.
pub manager-IsPlaying :
    (n : ℕ) (w : World) (x : Option ModeInfo)
    → HoldsListed (length w.flags.team_flags) x
    → IsPlaying n w
    → IsPlaying n (record w { manager = record w.manager { info = x } })
manager-IsPlaying n w x h v = record {
  bound = v.bound;
  object = v.object;
  many = v.many;
  info = h;
  mode = v.mode;
}

-- An edit of capture the flag's info does not fault.
pub edit_ctf-lem :
    (f : CtfInfo → CtfInfo) (m : Manager) (i : CtfInfo)
    → m.info ≡ some (ctf_info i)
    → edit_ctf f m ≡ some (record m { info = some (ctf_info (f i)) })
unfolding edit_ctf
edit_ctf-lem f m i e = rw e refl

pub edit_ctf-IsPlaying :
    (n : ℕ) (f : CtfInfo → CtfInfo) (w w' : World)
    → ((i : CtfInfo) (m : ℕ) → 3 ≤ m → flag_index i.held_flag < m → flag_index (f i).held_flag < m)
    → (edit_ctf f w.manager >>= with_manager w) ≡ some w'
    → IsPlaying n w
    → IsPlaying n w'
unfolding with_manager
edit_ctf-IsPlaying n f w w' fine e v =
    let (i, at_i, low) = v.info in
    same-IsPlaying n _ w' (rw (edit_ctf-lem f w.manager i at_i) at e) (
      manager-IsPlaying n w (some (ctf_info (f i)))
        (f i, refl, fine i (length w.flags.team_flags) v.many low) v)

flags-IsPlaying :
    (n : ℕ) (w : World) (fs : Flags)
    → length fs.team_flags ≡ length w.flags.team_flags
    → IsPlaying n w
    → IsPlaying n (record w { flags = fs })
flags-IsPlaying n w fs e v = record {
  bound = v.bound;
  object = v.object;
  many = subst (λ m. 3 ≤ m) (sym e) v.many;
  info = subst (λ m. HoldsListed m w.manager.info) (sym e) v.info;
  mode = v.mode;
}

pub with_flags-IsPlaying :
    (n : ℕ) (r : Option Flags) (w w' : World)
    → ((fs : Flags) → r ≡ some fs → length fs.team_flags ≡ length w.flags.team_flags)
    → (r >>= with_flags w) ≡ some w'
    → IsPlaying n w
    → IsPlaying n w'
unfolding with_flags
with_flags-IsPlaying n r w w' keeps e v =
    let (fs, run, last) = >>=-eq-some r _ e in
    same-IsPlaying n (record w { flags = fs }) w' last (flags-IsPlaying n w fs (keeps fs run) v)

-- A handler that is guarded by a test either runs or leaves the world alone.
pub guarded-IsPlaying :
    (n : ℕ) (b : Bool) (r : Option World) (w w' : World)
    → (r ≡ some w' → IsPlaying n w')
    → (if b then r else some w) ≡ some w'
    → IsPlaying n w
    → IsPlaying n w'
guarded-IsPlaying n true r w w' run e v = run e
guarded-IsPlaying n false r w w' run e v = same-IsPlaying n w w' e v

pub ctf_object :
    (m : Manager) (o : ModeObject)
    → m.base ≡ some o
    → o.kind ≡ ctf_mode
    → object_as ctf_mode m ≡ some o
ctf_object m o e kind = rw e (go o.kind kind)
  where
    go :
        (k : ModeKind)
        → k ≡ ctf_mode
        → elim k as (λ x. Option ModeObject) [ hns_mode ↦ none | ctf_mode ↦ some o ] ≡ some o
    go hns_mode e = cc
    go ctf_mode e = refl
