-- ===== src/Client/Infos/Limit.antt =====
-- How many infos the lookups read: no packet about a player changes it.
use smoo_bazel.Base.{
  strcpy, ℕ, ◌≡◌, refl, sym, ap, ◌∙◌, inl, inr, true, false, Option, none, some, Bool-cases,
  >>=-eq-some, if_intro, some_inj, get_elem?, Str,
}
use smoo_bazel.Packets.{uid_of, PlayerConnect}
use smoo_bazel.Puppets.Info.{name_size, PuppetInfo}
use smoo_bazel.Client.State.{Client}
use smoo_bazel.Client.Find.{find_puppet_info}
use smoo_bazel.Client.Infos.{
  with_found, with_info, update_hack_cap_info, update_capture_info, update_costume_info,
  update_game_info, update_puppet_tag, update_puppet_team, claim, connect_found,
  update_player_connect, release, disconnect_found, disconnect_player,
}
use smoo_bazel.Client.Infos.Count.{with_found-eq_some}
use smoo_bazel.Client.Infos.Steps.{
  Step, connects, disconnects, throws_cap, captures, dresses, travels, tags, joins_team,
}

-- The number of infos that the lookups read stays.
abbrev pub KeepsMax : Client → Client → Type 0
KeepsMax c c' = c'.max_puppets ≡ c.max_puppets

pub max_of : {c c' : Client} → c' ≡ c → KeepsMax c c'
max_of e = ap (λ (x : Client). x.max_puppets) e

with_found-KeepsMax :
    (edit : PuppetInfo → Option PuppetInfo) (c c' : Client) (r : Option ℕ)
    → with_found edit c r ≡ some c'
    → KeepsMax c c'
unfolding with_found
with_found-KeepsMax edit c c' none e = max_of (sym (some_inj e))
with_found-KeepsMax edit c c' (some k) e =
    let (x, y, _, _, last) = with_found-eq_some edit c c' k e in
    ap (λ (d : Client). d.max_puppets) last

pub with_info-KeepsMax :
    (edit : PuppetInfo → Option PuppetInfo) (uid : Str) (c c' : Client)
    → with_info edit uid c ≡ some c'
    → KeepsMax c c'
unfolding with_info
with_info-KeepsMax edit uid c c' e =
    let (r, found, e') = >>=-eq-some (find_puppet_info (uid_of uid) false c) _ e in
    with_found-KeepsMax edit c c' r e'

claim-KeepsMax :
    (id name : Str) (c c' : Client) (k : ℕ) (x : PuppetInfo)
    → claim id name c k x ≡ some c'
    → KeepsMax c c'
unfolding claim
claim-KeepsMax id name c c' k x e = elim (Bool-cases x.is_connected) [
  | inl used ↦ max_of (sym (some_inj (rw used at e)))
  | inr free ↦
      let (s, _, last) = >>=-eq-some (strcpy name_size name) _ (rw free at e) in
      sym (ap (λ (d : Client). d.max_puppets) (some_inj last))
]

connect-KeepsMax :
    (uid : Str) (m : PlayerConnect) (c c' : Client)
    → update_player_connect uid m c ≡ some c'
    → KeepsMax c c'
unfolding update_player_connect connect_found
connect-KeepsMax uid m c c' e =
    let (r, found, e') = >>=-eq-some (find_puppet_info (uid_of uid) true c) _ e in go r e'
  where
    go : (r : Option ℕ) → connect_found (uid_of uid) m.client_name c r ≡ some c' → KeepsMax c c'
    go none q = max_of (sym (some_inj q))
    go (some k) q =
        let (x, _, q') = >>=-eq-some (get_elem? c.puppet_infos k) _ q in
        claim-KeepsMax (uid_of uid) m.client_name c c' k x q'

disconnect-KeepsMax :
    (uid : Str) (c c' : Client) → disconnect_player uid c ≡ some c' → KeepsMax c c'
unfolding disconnect_player disconnect_found release
disconnect-KeepsMax uid c c' e =
    let (r, found, e') = >>=-eq-some (find_puppet_info (uid_of uid) false c) _ e in go r e'
  where
    go : (r : Option ℕ) → disconnect_found c r ≡ some c' → KeepsMax c c'
    go none q = max_of (sym (some_inj q))
    go (some k) q =
        let (x, _, last) = >>=-eq-some (get_elem? c.puppet_infos k) _ q in
        sym (ap (λ (d : Client). d.max_puppets) (some_inj last))
        ∙ if_intro (λ d. KeepsMax c d) x.is_connected refl refl

pub Step-KeepsMax : (uid : Str) (c c' : Client) → Step uid c c' → KeepsMax c c'
unfolding update_hack_cap_info update_capture_info update_costume_info update_game_info
    update_puppet_tag update_puppet_team
Step-KeepsMax uid a b (connects m c c' e) = connect-KeepsMax uid m c c' e
Step-KeepsMax uid a b (disconnects c c' e) = disconnect-KeepsMax uid c c' e
Step-KeepsMax uid a b (throws_cap m c c' e) = with_info-KeepsMax _ uid c c' e
Step-KeepsMax uid a b (captures m c c' e) = with_info-KeepsMax _ uid c c' e
Step-KeepsMax uid a b (dresses m c c' e) = with_info-KeepsMax _ uid c c' e
Step-KeepsMax uid a b (travels m c c' e) = with_info-KeepsMax _ uid c c' e
Step-KeepsMax uid a b (tags m c c' e) = with_info-KeepsMax _ uid c c' e
Step-KeepsMax uid a b (joins_team t c c' e) = with_info-KeepsMax _ uid c c' e
