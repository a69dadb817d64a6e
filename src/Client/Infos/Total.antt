-- ===== src/Client/Infos/Total.antt =====
-- The handlers do not fault where the array has the infos that the server lets in and the strings of
-- the packets fit in the info.
use smoo_bazel.Base.{
  strcpy, ℕ, ◌≤◌, ◌≡◌, refl, sym, ◌∙◌, subst, inl, inr, Bool, true, false, Option, none, some, ltb,
  Bool-cases, if_intro, some_inj, Defined, >>=-Defined, length, get_elem?, set, Str, c_str, Fits,
  strcpy-Fits, inc,
}
use smoo_bazel.Puppets.Info.{
  name_size, stage_size, costume_size, hack_size, anim_size, FlagTeam, PuppetInfo,
}
use smoo_bazel.Packets.{
  uid_of, u8_of, CaptureInf, CostumeInf, GameInf, HackCapInf, PlayerConnect, TagInf,
}
use smoo_bazel.Client.State.{loop_bound, Client}
use smoo_bazel.Client.Find.Spec.{find_puppet_info-Finds, Finds, found, available, missing}
use smoo_bazel.Client.Infos.{
  with_found, with_info, edit_hack_cap_inf, update_hack_cap_info, edit_capture_inf,
  update_capture_info, edit_costume_inf, update_costume_info, edit_stage, edit_game_inf,
  update_game_info, edit_tag_inf, update_puppet_tag, update_puppet_team, claim, connect_found,
  update_player_connect, release, disconnect_found, disconnect_player,
}

-- An index that the lookup returned is inside the array.
pub Finds-inside :
    (id : Str) (av : Bool) (c : Client) (r : Option ℕ) (k : ℕ)
    → Finds id av c r
    → r ≡ some k
    → (x : PuppetInfo) × (get_elem? c.puppet_infos k ≡ some x)
Finds-inside id av c r k (found j e f) q =
    (f.info, subst (λ i. get_elem? c.puppet_infos i ≡ some f.info) (some_inj (sym e ∙ q)) f.at_k)
Finds-inside id av c r k (available j e v f) q =
    (f.info, subst (λ i. get_elem? c.puppet_infos i ≡ some f.info) (some_inj (sym e ∙ q)) f.at_k)
Finds-inside id av c r k (missing e v w) q = cc

-- The edit succeeds on every info.
abbrev pub Total : (PuppetInfo → Option PuppetInfo) → Type 0
Total edit = (x : PuppetInfo) → (y : PuppetInfo) × (edit x ≡ some y)

with_found-Total :
    (edit : PuppetInfo → Option PuppetInfo) (id : Str) (c : Client) (r : Option ℕ)
    → Total edit
    → Finds id false c r
    → (c' : Client) × (with_found edit c r ≡ some c')
unfolding with_found
with_found-Total edit id c none total f = (c, refl)
with_found-Total edit id c (some k) total f =
    let (x, at_k) = Finds-inside id false c (some k) k f refl in
    let (y, edited) = total x in
    (record c { puppet_infos = set c.puppet_infos k y }, rw at_k (rw edited refl))

pub with_info-Total :
    (edit : PuppetInfo → Option PuppetInfo) (uid : Str) (c : Client)
    → Total edit
    → loop_bound c.max_puppets ≤ length c.puppet_infos
    → (c' : Client) × (with_info edit uid c ≡ some c')
unfolding with_info
with_info-Total edit uid c total h =
    let (r, e, f) = find_puppet_info-Finds (uid_of uid) false c h in
    let (c', e') = with_found-Total edit (uid_of uid) c r total f in (c', rw e e')

-- Where the array has as many infos as the server lets in puppets, a costume packet whose two
-- names fit in the info's buffers is handled without a fault.
pub update_costume_info-returns :
    (uid : Str) (m : CostumeInf) (c : Client)
    → loop_bound c.max_puppets ≤ length c.puppet_infos
    → Fits costume_size m.body_model
    → Fits costume_size m.cap_model
    → (c' : Client) × (update_costume_info uid m c ≡ some c')
unfolding update_costume_info edit_costume_inf
update_costume_info-returns uid m c h body cap =
    with_info-Total (edit_costume_inf m) uid c
      (λ x. (
        record x { costume_body = c_str m.body_model; costume_head = c_str m.cap_model },
        rw (strcpy-Fits costume_size m.body_model body, strcpy-Fits costume_size m.cap_model cap)
            refl,
      ))
      h

edit_stage-returns :
    (name old : Str) → Fits stage_size name → (t : Str) × (edit_stage name old ≡ some t)
unfolding edit_stage
edit_stage-returns name old fits = elim (Bool-cases (ltb 3 (length (c_str name)))) [
  | inl long ↦ (c_str name, rw long (strcpy-Fits stage_size name fits))
  | inr short ↦ (old, rw short refl)
]

edit_game_inf-Total : (m : GameInf) → Fits stage_size m.stage_name → Total (edit_game_inf m)
unfolding edit_game_inf
edit_game_inf-Total m fits x = elim (Bool-cases x.is_connected) [
  | inl used ↦
      let (t, e) = edit_stage-returns m.stage_name x.stage_name fits in
      (
        record x { scenario_no = u8_of m.scenario_num; stage_name = t; is_2d = m.is_2d },
        rw (used, e) refl,
      )
  | inr free ↦ (x, rw free refl)
]

-- Where the array has as many infos as the server lets in puppets, a game packet whose stage name
-- fits in the info's buffer is handled without a fault.
pub update_game_info-returns :
    (uid : Str) (m : GameInf) (c : Client)
    → loop_bound c.max_puppets ≤ length c.puppet_infos
    → Fits stage_size m.stage_name
    → (c' : Client) × (update_game_info uid m c ≡ some c')
unfolding update_game_info
update_game_info-returns uid m c h fits =
    with_info-Total (edit_game_inf m) uid c (edit_game_inf-Total m fits) h

claim-returns :
    (id name : Str) (c : Client) (k : ℕ) (x : PuppetInfo)
    → Fits name_size name
    → (c' : Client) × (claim id name c k x ≡ some c')
unfolding claim
claim-returns id name c k x fits = elim (Bool-cases x.is_connected) [
  | inl used ↦ (c, rw used refl)
  | inr free ↦ (
    record c {
      puppet_infos =
          set c.puppet_infos k
            (record x { player_id = id; is_connected = true; puppet_name = c_str name });
      connect_count = inc c.connect_count;
    },
    rw (free, strcpy-Fits name_size name fits) refl,
  )
]

connect_found-returns :
    (id name : Str) (c : Client) (r : Option ℕ)
    → Fits name_size name
    → Finds id true c r
    → (c' : Client) × (connect_found id name c r ≡ some c')
unfolding connect_found
connect_found-returns id name c none fits f = (c, refl)
connect_found-returns id name c (some k) fits f =
    let (x, at_k) = Finds-inside id true c (some k) k f refl in
    rw at_k (claim-returns id name c k x fits)

-- Where the array has as many infos as the server lets in puppets, a connect packet whose name
-- fits in the info's buffer is handled without a fault.
pub update_player_connect-returns :
    (uid : Str) (m : PlayerConnect) (c : Client)
    → loop_bound c.max_puppets ≤ length c.puppet_infos
    → Fits name_size m.client_name
    → (c' : Client) × (update_player_connect uid m c ≡ some c')
unfolding update_player_connect
update_player_connect-returns uid m c h fits =
    let (r, e, f) = find_puppet_info-Finds (uid_of uid) true c h in
    let (c', e') = connect_found-returns (uid_of uid) m.client_name c r fits f in (c', rw e e')

-- Where the array has as many infos as the server lets in puppets, a cap packet whose animation
-- fits in the info's buffer is handled without a fault.
pub update_hack_cap_info-returns :
    (uid : Str) (m : HackCapInf) (c : Client)
    → loop_bound c.max_puppets ≤ length c.puppet_infos
    → Fits anim_size m.cap_anim
    → (c' : Client) × (update_hack_cap_info uid m c ≡ some c')
unfolding update_hack_cap_info edit_hack_cap_inf
update_hack_cap_info-returns uid m c h fits =
    with_info-Total (edit_hack_cap_inf m) uid c
      (λ x.
        >>=-Defined (strcpy anim_size m.cap_anim) _
          (c_str m.cap_anim, strcpy-Fits anim_size m.cap_anim fits) (λ anim _. (_, refl)))
      h

edit_capture_inf-Total : (m : CaptureInf) → Fits hack_size m.hack_name → Total (edit_capture_inf m)
unfolding edit_capture_inf
edit_capture_inf-Total m fits x =
    if_intro Defined (ltb 0 (length m.hack_name))
      (>>=-Defined (strcpy hack_size m.hack_name) _
        (c_str m.hack_name, strcpy-Fits hack_size m.hack_name fits) (λ hack _. (_, refl)))
      (_, refl)

-- Likewise for a capture packet, whose name fits.
pub update_capture_info-returns :
    (uid : Str) (m : CaptureInf) (c : Client)
    → loop_bound c.max_puppets ≤ length c.puppet_infos
    → Fits hack_size m.hack_name
    → (c' : Client) × (update_capture_info uid m c ≡ some c')
unfolding update_capture_info
update_capture_info-returns uid m c h fits =
    with_info-Total (edit_capture_inf m) uid c (edit_capture_inf-Total m fits) h

-- Likewise for a packet of a player who leaves.
pub disconnect_player-returns :
    (uid : Str) (c : Client)
    → loop_bound c.max_puppets ≤ length c.puppet_infos
    → (c' : Client) × (disconnect_player uid c ≡ some c')
unfolding disconnect_player disconnect_found
disconnect_player-returns uid c h =
    let (r, e, f) = find_puppet_info-Finds (uid_of uid) false c h in
    let (c', e') = go r f in (c', rw e e')
  where
    go :
        (r : Option ℕ)
        → Finds (uid_of uid) false c r
        → (c' : Client) × (disconnect_found c r ≡ some c')
    go none f = (c, refl)
    go (some k) f =
        let (x, at_k) = Finds-inside (uid_of uid) false c (some k) k f refl in
        (release c k x, rw at_k refl)

-- Likewise for the tag of another player.
pub update_puppet_tag-returns :
    (uid : Str) (m : TagInf) (c : Client)
    → loop_bound c.max_puppets ≤ length c.puppet_infos
    → (c' : Client) × (update_puppet_tag uid m c ≡ some c')
unfolding update_puppet_tag edit_tag_inf
update_puppet_tag-returns uid m c h = with_info-Total (edit_tag_inf m) uid c (λ x. (_, refl)) h

-- Likewise for the team of another player.
pub update_puppet_team-returns :
    (uid : Str) (team : FlagTeam) (c : Client)
    → loop_bound c.max_puppets ≤ length c.puppet_infos
    → (c' : Client) × (update_puppet_team uid team c ≡ some c')
unfolding update_puppet_team
update_puppet_team-returns uid team c h =
    with_info-Total (λ x. some (record x { ctf_team = team })) uid c (λ x. (_, refl)) h
