-- ===== src/Ctf/Play/Frames.antt =====
-- What holds over the frames of a round of capture the flag.
use smoo_bazel.Base.{
  ℕ, zero, suc, ◌+◌, ◌≤◌, ◌≡◌, refl, sym, ap, ◌∙◌, subst, Bool, true, false, not, ◌&&◌, Option,
  some, List, [], ◌∷◌, arith, if◌then◌else◌, ◌>>=◌, >>=-eq-some, if_intro, some_inj, length, All,
}
use smoo_bazel.Puppets.Info.{PuppetInfo}
use smoo_bazel.Stages.{Coordinates}
use smoo_bazel.Socket.Bound.{queued}
use smoo_bazel.Client.State.{Client}
use smoo_bazel.Game.{invuln_seconds, in_reach, Player, Game}
use smoo_bazel.Ctf.State.{get_opposing_team, holds_opposing, Round, Frame}
use smoo_bazel.Ctf.Place.{local_player, is_invulnerable, is_on_self_side}
use smoo_bazel.Ctf.Play.{process_player_tagged, can_tag, tag_by, tag_from, check_tagged, update_ctf}
use smoo_bazel.Ctf.Play.Win.{carried-holds_opposing}
use smoo_bazel.Ctf.Play.Ends.{InfoStep}
use smoo_bazel.Ctf.Play.SafeSteps.{IsReady}
use smoo_bazel.Ctf.Play.Turn.{update_ctf-Turn}
use smoo_bazel.Ctf.Play.Safe.{update_ctf-IsReady}

module _ (c : Coordinates) (g : Game) where
  -- The frames of a round, one after the other.
  pub run_frames : List Frame → Round → Option Round
  run_frames [] r = some r
  run_frames (f ∷ fs) r = update_ctf c g f r >>= run_frames fs

  -- From a ready round on, frames in which the puppet holder has no more puppets than there are infos
  -- do not fault, however many there are, and the round stays ready.
  pub run_frames-IsReady :
      (fs : List Frame) (r : Round)
      → IsReady r
      → All (λ f. f.holder_size ≤ length r.client.puppet_infos) fs
      → (r' : Round) × (run_frames fs r ≡ some r') × IsReady r'
  unfolding run_frames
  run_frames-IsReady [] r v sizes = (r, refl, v)
  run_frames-IsReady (f ∷ fs) r v sizes =
      let (r1, e, v1) = update_ctf-IsReady c g f r v sizes.0 in
      let t = update_ctf-Turn c g f r e in
      let (r', e', v') = run_frames-IsReady fs r1 v1 (
        subst (λ (x : Client). All (λ f. f.holder_size ≤ length x.puppet_infos) fs)
          (sym t.same_client) sizes.1) in
      (r', rw e e', v')

  -- A player whose time of invulnerability is below 5 seconds is never invulnerable in any frame, and
  -- that time does not move.
  pub run_frames-is_invulnerable :
      (fs : List Frame) (r r' : Round)
      → g.fl.le invuln_seconds r.invuln_time ≡ false
      → run_frames fs r ≡ some r'
      → (r'.invuln_time ≡ r.invuln_time) × ((f : Frame) → is_invulnerable c g f r' ≡ false)
  unfolding run_frames is_invulnerable
  run_frames-is_invulnerable [] r r' low h =
      let e = sym (ap (λ (x : Round). x.invuln_time) (some_inj h)) in
      (e, λ f. ap (λ t. g.fl.le invuln_seconds t) e ∙ low)
  run_frames-is_invulnerable (f ∷ fs) r r' low h =
      let (r1, e, h') = >>=-eq-some (update_ctf c g f r) (run_frames fs) h in
      let e1 = (update_ctf-Turn c g f r e).tagged low in
      let (e2, never) =
        run_frames-is_invulnerable fs r1 r' (ap (λ t. g.fl.le invuln_seconds t) e1 ∙ low) h' in
      (e2 ∙ e1, never)

module _ (c : Coordinates) (g : Game) (f : Frame) where
  -- A frame keeps the info of the round, or presses the buttons with a flag in hand and drops it, or
  -- presses them with none and takes the flag of another team. So a tag never takes a flag away.
  pub update_ctf-InfoStep :
      (r r' : Round) → update_ctf c g f r ≡ some r' → InfoStep f r.info r'.info
  update_ctf-InfoStep r r' h = (update_ctf-Turn c g f r h).info

  -- A frame puts at most two packets into the queue.
  pub update_ctf-queued :
      (r r' : Round) → update_ctf c g f r ≡ some r' → queued r'.outbox ≤ queued r.outbox + 2
  update_ctf-queued r r' h = (update_ctf-Turn c g f r h).few

  tag_from-carrier :
      (n : ℕ) (infos : List PuppetInfo) (r : Round) (p : Player)
      → n ≤ length infos
      → local_player c g f r ≡ some p
      → holds_opposing r.info ≡ true
      → tag_from c g f n infos r ≡ some r
  unfolding tag_from tag_by process_player_tagged
  tag_from-carrier zero infos r p h here carries = refl
  tag_from-carrier (suc n) [] r p h here carries = elim h [ ]
  tag_from-carrier (suc n) (x ∷ xs) r p h here carries =
      ap (λ m. m >>= tag_from c g f n xs) (one (can_tag c g f r.info.player_team x))
      ∙ tag_from-carrier n xs r p (omega arith) here carries
    where
      untouched : process_player_tagged c g f r ≡ r
      untouched = rw carries refl

      one : (b : Bool) → (if b then tag_by c g f x r else some r) ≡ some r
      one true =
          rw (tag_by, here)
            (if_intro (λ y. some y ≡ some r) (in_reach g p x && not (g.is_dead r.calls))
              (ap some untouched) refl)
      one false = refl

  -- A player who carries the flag of the opposing team is not touched by any tag: the flag stays and
  -- the player is not killed.
  pub check_tagged-carrier :
      (r : Round) (p : Player)
      → local_player c g f r ≡ some p
      → f.holder_size ≤ length r.client.puppet_infos
      → is_invulnerable c g f r ≡ false
      → get_opposing_team r.info.player_team ≡ some r.info.held_flag
      → check_tagged c g f r ≡ some r
  unfolding check_tagged
  check_tagged-carrier r p here shown low carried = rw low (
      if_intro (λ y. y ≡ some r) (is_on_self_side c g f r) refl
        (tag_from-carrier f.holder_size r.client.puppet_infos r p shown here
          (carried-holds_opposing r.info carried)))
