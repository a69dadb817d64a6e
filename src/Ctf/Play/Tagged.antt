-- ===== src/Ctf/Play/Tagged.antt =====
-- What a tag does to the player: calls of the game, and nothing else of the round.
use smoo_bazel.Base.{
  ℕ, zero, suc, ◌≡◌, refl, sym, ap, ◌∙◌, subst, Bool, true, false, not, ◌&&◌, Option, none, some,
  List, [], ◌∷◌, if◌then◌else◌, >>=-eq-some, if_intro, some_inj, Float,
}
use smoo_bazel.Puppets.Info.{PuppetInfo}
use smoo_bazel.Stages.{Coordinates}
use smoo_bazel.Game.{die, in_reach, Player, Call, Game}
use smoo_bazel.Ctf.State.{holds_opposing, respawn_held_flag, Round, Frame}
use smoo_bazel.Ctf.Place.{local_player, is_invulnerable, is_on_self_side}
use smoo_bazel.Ctf.Play.{
  queue_home_teleport, process_player_tagged, can_tag, tag_by, tag_from, check_tagged,
}

-- A round in which the game was called, and nothing else changed.
pub record MakesCalls (r r' : Round) : Type 0 where
  pub made : List Call
  pub as_made : r' ≡ record r { calls = made }

MakesCalls-refl : (r : Round) → MakesCalls r r
MakesCalls-refl r = record { made = r.calls; as_made = refl }

MakesCalls-trans : {r r' r'' : Round} → MakesCalls r r' → MakesCalls r' r'' → MakesCalls r r''
MakesCalls-trans m n = record {
  made = n.made;
  as_made = n.as_made ∙ ap (λ (x : Round). record x { calls = n.made }) m.as_made;
}

module _ (c : Coordinates) (g : Game) (f : Frame) where
  queue_home_teleport-MakesCalls : (r : Round) → MakesCalls r (queue_home_teleport c g f r)
  unfolding queue_home_teleport
  queue_home_teleport-MakesCalls r = go (local_player c g f r)
    where
      go :
          (p : Option Player)
          → MakesCalls r (elim p [ none ↦ r | some _ ↦ record r { calls = die r.calls } ])
      go none = MakesCalls-refl r
      go (some _) = record { made = die r.calls; as_made = refl }

  process_player_tagged-MakesCalls : (r : Round) → MakesCalls r (process_player_tagged c g f r)
  unfolding process_player_tagged
  process_player_tagged-MakesCalls r = go (holds_opposing r.info)
    where
      go :
          (b : Bool)
          → MakesCalls r
              (if b then r else queue_home_teleport c g f (if b then respawn_held_flag r else r))
      go true = MakesCalls-refl r
      go false = queue_home_teleport-MakesCalls r

  tag_by-MakesCalls :
      (x : PuppetInfo) (r : Round) {r' : Round} → tag_by c g f x r ≡ some r' → MakesCalls r r'
  unfolding tag_by
  tag_by-MakesCalls x r = go (local_player c g f r)
    where
      go :
          (p : Option Player) {r' : Round}
          → elim p [
            | none ↦ none
            | some p ↦ some (
                if in_reach g p x && not (g.is_dead r.calls)
                then process_player_tagged c g f r
                else r)
          ]
            ≡ some r'
          → MakesCalls r r'
      go none h = cc
      go (some p) h = subst (MakesCalls r) (some_inj h) (
          if_intro (MakesCalls r) (in_reach g p x && not (g.is_dead r.calls))
            (process_player_tagged-MakesCalls r) (MakesCalls-refl r))

  pub tag_or_skip-MakesCalls :
      (x : PuppetInfo) (r : Round) {r' : Round}
      → (if can_tag c g f r.info.player_team x then tag_by c g f x r else some r) ≡ some r'
      → MakesCalls r r'
  tag_or_skip-MakesCalls x r = go (can_tag c g f r.info.player_team x)
    where
      go :
          (b : Bool) {r1 : Round}
          → (if b then tag_by c g f x r else some r) ≡ some r1
          → MakesCalls r r1
      go true e = tag_by-MakesCalls x r e
      go false e = subst (MakesCalls r) (some_inj e) (MakesCalls-refl r)

  tag_from-MakesCalls :
      (n : ℕ) (infos : List PuppetInfo) (r : Round) {r' : Round}
      → tag_from c g f n infos r ≡ some r'
      → MakesCalls r r'
  unfolding tag_from
  tag_from-MakesCalls zero infos r h = subst (MakesCalls r) (some_inj h) (MakesCalls-refl r)
  tag_from-MakesCalls (suc n) [] r h = cc
  tag_from-MakesCalls (suc n) (x ∷ xs) r h =
      let (r1, e, h') =
        >>=-eq-some (if can_tag c g f r.info.player_team x then tag_by c g f x r else some r)
          (tag_from c g f n xs) h in
      MakesCalls-trans (tag_or_skip-MakesCalls x r e) (tag_from-MakesCalls n xs r1 h')

  -- The time of invulnerability moves on only while the player is invulnerable.
  pub check_tagged-lem :
      (r : Round) {r' : Round}
      → check_tagged c g f r ≡ some r'
      → (t : Float) × (cs : List Call) × (r' ≡ record r { invuln_time = t; calls = cs })
        × (is_invulnerable c g f r ≡ false → t ≡ r.invuln_time)
  unfolding check_tagged
  check_tagged-lem r h = go (is_invulnerable c g f r) (is_on_self_side c g f r) h
    where
      go :
          (b s : Bool) {r' : Round}
          → (if b
              then some (record r { invuln_time = g.fl.add r.invuln_time f.delta })
              else if s
              then some r
              else tag_from c g f f.holder_size r.client.puppet_infos r)
            ≡ some r'
          → (t : Float) × (cs : List Call) × (r' ≡ record r { invuln_time = t; calls = cs })
            × (b ≡ false → t ≡ r.invuln_time)
      go true s h = (g.fl.add r.invuln_time f.delta, r.calls, sym (some_inj h), λ e. cc)
      go false true h = (r.invuln_time, r.calls, sym (some_inj h), λ _. refl)
      go false false h =
          let m = tag_from-MakesCalls f.holder_size r.client.puppet_infos r h in
          (r.invuln_time, m.made, m.as_made, λ _. refl)
