-- ===== src/Client/Infos/Frame.antt =====
-- A packet about a player changes at most that player's info.
use smoo_bazel.Base.{
  strcpy, ℕ, ◌≡◌, refl, sym, ap, ◌∙◌, subst, ◌≢◌, inl, inr, Bool, true, false, Option, none, some,
  Bool-cases, >>=-eq-some, if_intro, some_inj, length, get_elem?, set, length-set, get_elem?-set_ne,
  Str,
}
use smoo_bazel.Puppets.Info.{name_size, PuppetInfo}
use smoo_bazel.Packets.{uid_of, PlayerConnect}
use smoo_bazel.Client.State.{Client}
use smoo_bazel.Client.Find.{find_puppet_info}
use smoo_bazel.Client.Infos.{
  with_found, with_info, update_hack_cap_info, update_capture_info, update_costume_info,
  update_game_info, update_puppet_tag, update_puppet_team, claim, connect_found,
  update_player_connect, release, disconnect_found, disconnect_player,
}
use smoo_bazel.Client.Infos.Steps.{
  Step, connects, disconnects, throws_cap, captures, dresses, travels, tags, joins_team,
}
use smoo_bazel.Client.Infos.Count.{with_found-eq_some}

-- All infos but the one at the index that the lookup returned are the same, and there are as many.
pub record SameBut (r : Option ℕ) (c c' : Client) : Type 0 where
  pub size : length c'.puppet_infos ≡ length c.puppet_infos
  pub others : (j : ℕ) → r ≢ some j → get_elem? c'.puppet_infos j ≡ get_elem? c.puppet_infos j

SameBut-refl : (r : Option ℕ) (c : Client) → SameBut r c c
SameBut-refl r c = record { size = refl; others = λ j h. refl }

SameBut-set :
    (k : ℕ) (x : PuppetInfo) (c c' : Client)
    → c'.puppet_infos ≡ set c.puppet_infos k x
    → SameBut (some k) c c'
SameBut-set k x c c' e = record {
  size = ap length e ∙ length-set c.puppet_infos k x;
  others =
      λ j h. ap (λ l. get_elem? l j) e ∙ get_elem?-set_ne c.puppet_infos x (λ q. h (ap some q));
}

-- What the lookup of a player found, and that nothing else changed.
abbrev pub Touches : Str → Bool → Client → Client → Type 0
Touches uid av c c' =
    (r : Option ℕ) × (find_puppet_info (uid_of uid) av c ≡ some r) × SameBut r c c'

pub Touches-size :
    (uid : Str) (av : Bool) (c c' : Client)
    → Touches uid av c c'
    → length c'.puppet_infos ≡ length c.puppet_infos
Touches-size uid av c c' (r, found, same) = same.size

with_found-SameBut :
    (edit : PuppetInfo → Option PuppetInfo) (c c' : Client) (r : Option ℕ)
    → with_found edit c r ≡ some c'
    → SameBut r c c'
unfolding with_found
with_found-SameBut edit c c' none e = subst (SameBut none c) (some_inj e) (SameBut-refl none c)
with_found-SameBut edit c c' (some k) e =
    let (x, y, _, _, last) = with_found-eq_some edit c c' k e in
    SameBut-set k y c c' (ap (λ (d : Client). d.puppet_infos) last)

-- The handlers that edit an info change the info of the packet's sender at most.
pub with_info-Touches :
    (edit : PuppetInfo → Option PuppetInfo) (uid : Str) (c c' : Client)
    → with_info edit uid c ≡ some c'
    → Touches uid false c c'
unfolding with_info
with_info-Touches edit uid c c' e =
    let (r, found, e') = >>=-eq-some (find_puppet_info (uid_of uid) false c) _ e in
    (r, found, with_found-SameBut edit c c' r e')

claim-SameBut :
    (id name : Str) (c c' : Client) (k : ℕ) (x : PuppetInfo)
    → claim id name c k x ≡ some c'
    → SameBut (some k) c c'
unfolding claim
claim-SameBut id name c c' k x e = elim (Bool-cases x.is_connected) [
  | inl used ↦ subst (SameBut (some k) c) (some_inj (rw used at e)) (SameBut-refl (some k) c)
  | inr free ↦
      let (s, _, last) = >>=-eq-some (strcpy name_size name) _ (rw free at e) in
      SameBut-set k _ c c' (sym (ap (λ (d : Client). d.puppet_infos) (some_inj last)))
]

release-SameBut : (c : Client) (k : ℕ) (x : PuppetInfo) → SameBut (some k) c (release c k x)
unfolding release
release-SameBut c k x =
    if_intro (SameBut (some k) c) x.is_connected (SameBut-set k _ c _ refl)
      (SameBut-refl (some k) c)

pub update_player_connect-Touches :
    (uid : Str) (m : PlayerConnect) (c c' : Client)
    → update_player_connect uid m c ≡ some c'
    → Touches uid true c c'
unfolding update_player_connect connect_found
update_player_connect-Touches uid m c c' e =
    let (r, found, e') = >>=-eq-some (find_puppet_info (uid_of uid) true c) _ e in
    (r, found, go r e')
  where
    go : (r : Option ℕ) → connect_found (uid_of uid) m.client_name c r ≡ some c' → SameBut r c c'
    go none q = subst (SameBut none c) (some_inj q) (SameBut-refl none c)
    go (some k) q =
        let (x, _, q') = >>=-eq-some (get_elem? c.puppet_infos k) _ q in
        claim-SameBut (uid_of uid) m.client_name c c' k x q'

pub disconnect_player-Touches :
    (uid : Str) (c c' : Client) → disconnect_player uid c ≡ some c' → Touches uid false c c'
unfolding disconnect_player disconnect_found
disconnect_player-Touches uid c c' e =
    let (r, found, e') = >>=-eq-some (find_puppet_info (uid_of uid) false c) _ e in
    (r, found, go r e')
  where
    go : (r : Option ℕ) → disconnect_found c r ≡ some c' → SameBut r c c'
    go none q = subst (SameBut none c) (some_inj q) (SameBut-refl none c)
    go (some k) q =
        let (x, _, last) = >>=-eq-some (get_elem? c.puppet_infos k) _ q in
        subst (SameBut (some k) c) (some_inj last) (release-SameBut c k x)

pub Step-Touches : (uid : Str) (c c' : Client) → Step uid c c' → (av : Bool) × Touches uid av c c'
unfolding update_hack_cap_info update_capture_info update_costume_info update_game_info
    update_puppet_tag update_puppet_team
Step-Touches uid a b (connects m c c' e) = (true, update_player_connect-Touches uid m c c' e)
Step-Touches uid a b (disconnects c c' e) = (false, disconnect_player-Touches uid c c' e)
Step-Touches uid a b (throws_cap m c c' e) = (false, with_info-Touches _ uid c c' e)
Step-Touches uid a b (captures m c c' e) = (false, with_info-Touches _ uid c c' e)
Step-Touches uid a b (dresses m c c' e) = (false, with_info-Touches _ uid c c' e)
Step-Touches uid a b (travels m c c' e) = (false, with_info-Touches _ uid c c' e)
Step-Touches uid a b (tags m c c' e) = (false, with_info-Touches _ uid c c' e)
Step-Touches uid a b (joins_team t c c' e) = (false, with_info-Touches _ uid c c' e)
