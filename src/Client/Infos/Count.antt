-- ===== src/Client/Infos/Count.antt =====
-- The connection count against the infos that are marked as connected.
use smoo_bazel.Base.{
  strcpy, ℕ, zero, suc, ◌+◌, ◌≡◌, sym, ap, ◌∙◌, subst, inl, inr, Bool, true, false, Option, none,
  some, List, [], ◌∷◌, arith, Bool-cases, ◌>>=◌, >>=-eq-some, some_inj, get_elem?, set, Str, inc,
  dec, ℤ, pos, FloatOps,
}
use smoo_bazel.Puppets.Info.{name_size, PuppetInfo}
use smoo_bazel.Packets.{
  uid_of, CaptureInf, CostumeInf, GameInf, HackCapInf, PlayerConnect, PlayerInf, TagInf,
}
use smoo_bazel.Client.State.{Client}
use smoo_bazel.Client.Find.{find_puppet_info}
use smoo_bazel.Client.Infos.{
  with_found, with_info, edit_player_inf, update_player_info, edit_hack_cap_inf, edit_capture_inf,
  edit_costume_inf, edit_game_inf, edit_tag_inf, claim, connect_found, update_player_connect,
  release, disconnect_found, disconnect_player,
}

abbrev pub one_if : Bool → ℕ
one_if true = 1
one_if false = 0

unfoldable pub connected : List PuppetInfo → ℕ
connected [] = 0
connected (x ∷ xs) = one_if x.is_connected + connected xs

connected-set :
    (xs : List PuppetInfo) (k : ℕ) (x y : PuppetInfo)
    → get_elem? xs k ≡ some x
    → connected (set xs k y) + one_if x.is_connected ≡ connected xs + one_if y.is_connected
unfolding connected
connected-set [] k x y e = cc
connected-set (z ∷ xs) zero x y e = ground (arith, some_inj e)
connected-set (z ∷ xs) (suc k) x y e = omega (arith, connected-set xs k x y e)

-- The count is the number of connected infos.
abbrev pub IsCounted : Client → Type 0
IsCounted c = c.connect_count ≡ pos (connected c.puppet_infos)

-- An edit that leaves the connection mark alone.
abbrev pub KeepsConnected : (PuppetInfo → Option PuppetInfo) → Type 0
KeepsConnected edit = (x y : PuppetInfo) → edit x ≡ some y → y.is_connected ≡ x.is_connected

pub with_found-eq_some :
    (edit : PuppetInfo → Option PuppetInfo) (c c' : Client) (k : ℕ)
    → with_found edit c (some k) ≡ some c'
    → (x : PuppetInfo) × (y : PuppetInfo) × (get_elem? c.puppet_infos k ≡ some x)
      × (edit x ≡ some y)
      × (c' ≡ record c { puppet_infos = set c.puppet_infos k y })
unfolding with_found
with_found-eq_some edit c c' k e =
    let (x, at_k, e') = >>=-eq-some (get_elem? c.puppet_infos k) _ e in
    let (y, edited, last) = >>=-eq-some (edit x) _ e' in (x, y, at_k, edited, sym (some_inj last))

connected-set_same :
    (xs : List PuppetInfo) (k : ℕ) (x y : PuppetInfo)
    → get_elem? xs k ≡ some x
    → y.is_connected ≡ x.is_connected
    → connected (set xs k y) ≡ connected xs
connected-set_same xs k x y at_k same = omega (arith, connected-set xs k x y at_k, ap one_if same)

with_found-IsCounted :
    (edit : PuppetInfo → Option PuppetInfo) (c c' : Client) (r : Option ℕ)
    → KeepsConnected edit
    → with_found edit c r ≡ some c'
    → IsCounted c
    → IsCounted c'
unfolding with_found
with_found-IsCounted edit c c' none keeps e v = subst IsCounted (some_inj e) v
with_found-IsCounted edit c c' (some k) keeps e v =
    let (x, y, at_k, edited, last) = with_found-eq_some edit c c' k e in
    subst IsCounted (sym last)
      (v ∙ ap pos (sym (connected-set_same c.puppet_infos k x y at_k (keeps x y edited))))

pub with_info-IsCounted :
    (edit : PuppetInfo → Option PuppetInfo) (uid : Str) (c c' : Client)
    → KeepsConnected edit
    → with_info edit uid c ≡ some c'
    → IsCounted c
    → IsCounted c'
unfolding with_info
with_info-IsCounted edit uid c c' keeps e v =
    let (r, _, e') = >>=-eq-some (find_puppet_info (uid_of uid) false c) _ e in
    with_found-IsCounted edit c c' r keeps e' v

pub hack_cap-KeepsConnected : (m : HackCapInf) → KeepsConnected (edit_hack_cap_inf m)
unfolding edit_hack_cap_inf
hack_cap-KeepsConnected m x y e = ground arith

pub capture-KeepsConnected : (m : CaptureInf) → KeepsConnected (edit_capture_inf m)
unfolding edit_capture_inf
capture-KeepsConnected m x y e = ground arith

pub costume-KeepsConnected : (m : CostumeInf) → KeepsConnected (edit_costume_inf m)
unfolding edit_costume_inf
costume-KeepsConnected m x y e = ground arith

pub game-KeepsConnected : (m : GameInf) → KeepsConnected (edit_game_inf m)
unfolding edit_game_inf
game-KeepsConnected m x y e = ground arith

pub tag-KeepsConnected : (m : TagInf) → KeepsConnected (edit_tag_inf m)
unfolding edit_tag_inf
tag-KeepsConnected m x y e = ground arith

inc-pos : (a : ℤ) (m n : ℕ) → a ≡ pos m → n ≡ m + 1 → inc a ≡ pos n
inc-pos a m n e h = ground arith

dec-pos : (a : ℤ) (m n : ℕ) → a ≡ pos m → n + 1 ≡ m → dec a ≡ pos n
dec-pos a m n e h = ground arith

claim-IsCounted :
    (id name : Str) (c c' : Client) (k : ℕ) (x : PuppetInfo)
    → get_elem? c.puppet_infos k ≡ some x
    → claim id name c k x ≡ some c'
    → IsCounted c
    → IsCounted c'
unfolding claim
claim-IsCounted id name c c' k x at_k e v = elim (Bool-cases x.is_connected) [
  | inl used ↦ subst IsCounted (some_inj (rw used at e)) v
  | inr free ↦
      let (s, _, last) = >>=-eq-some (strcpy name_size name) _ (rw free at e) in
      subst IsCounted (some_inj last) (
        inc-pos c.connect_count (connected c.puppet_infos) _ v
          (omega (arith, connected-set c.puppet_infos k x _ at_k, ap one_if free)))
]

release-IsCounted :
    (c : Client) (k : ℕ) (x : PuppetInfo)
    → get_elem? c.puppet_infos k ≡ some x
    → IsCounted c
    → IsCounted (release c k x)
unfolding release
release-IsCounted c k x at_k v = elim (Bool-cases x.is_connected) [
  | inl used ↦ rw used (
      dec-pos c.connect_count (connected c.puppet_infos) _ v
        (omega (arith, connected-set c.puppet_infos k x _ at_k, ap one_if used)))
  | inr free ↦ rw free v
]

-- A player who connects is counted once, and a packet for an info in use changes nothing.
pub update_player_connect-IsCounted :
    (uid : Str) (m : PlayerConnect) (c c' : Client)
    → IsCounted c
    → update_player_connect uid m c ≡ some c'
    → IsCounted c'
unfolding update_player_connect connect_found
update_player_connect-IsCounted uid m c c' v e =
    let (r, _, e') = >>=-eq-some (find_puppet_info (uid_of uid) true c) _ e in go r e'
  where
    go : (r : Option ℕ) → connect_found (uid_of uid) m.client_name c r ≡ some c' → IsCounted c'
    go none q = subst IsCounted (some_inj q) v
    go (some k) q =
        let (x, at_k, q') = >>=-eq-some (get_elem? c.puppet_infos k) _ q in
        claim-IsCounted (uid_of uid) m.client_name c c' k x at_k q' v

-- A player who disconnects is taken off the count once.
pub disconnect_player-IsCounted :
    (uid : Str) (c c' : Client) → IsCounted c → disconnect_player uid c ≡ some c' → IsCounted c'
unfolding disconnect_player disconnect_found
disconnect_player-IsCounted uid c c' v e =
    let (r, _, e') = >>=-eq-some (find_puppet_info (uid_of uid) false c) _ e in go r e'
  where
    go : (r : Option ℕ) → disconnect_found c r ≡ some c' → IsCounted c'
    go none q = subst IsCounted (some_inj q) v
    go (some k) q =
        let (x, at_k, last) = >>=-eq-some (get_elem? c.puppet_infos k) _ q in
        subst IsCounted (some_inj last) (release-IsCounted c k x at_k v)

edit_player_inf-connects :
    (fl : FloatOps) (anims : List Str) (m : PlayerInf) (x y : PuppetInfo)
    → edit_player_inf fl anims m x ≡ some y
    → y.is_connected ≡ true
unfolding edit_player_inf
edit_player_inf-connects fl anims m x y e = ground arith

-- The movement packet of a player whose info is no longer connected connects the info again and
-- leaves the count as it was, so that the count is one too low.
pub update_player_info-miscounts :
    (fl : FloatOps) (anims : List Str) (uid : Str) (m : PlayerInf) (c c' : Client) (k : ℕ)
    (x : PuppetInfo)
    → IsCounted c
    → find_puppet_info (uid_of uid) false c ≡ some (some k)
    → get_elem? c.puppet_infos k ≡ some x
    → x.is_connected ≡ false
    → update_player_info fl anims uid m c ≡ some c'
    → (c'.connect_count ≡ pos (connected c.puppet_infos))
      × (connected c'.puppet_infos ≡ connected c.puppet_infos + 1)
unfolding update_player_info with_info
update_player_info-miscounts fl anims uid m c c' k x v found at_k free e =
    let (z, y, at_k', edited, last) =
      with_found-eq_some (edit_player_inf fl anims m) c c' k (rw (found, ◌>>=◌) at e) in
    let z_free : z.is_connected ≡ false = ground (arith, at_k, at_k', free) in
    let known = edit_player_inf-connects fl anims m z y edited in
    (
      ap (λ (d : Client). d.connect_count) last ∙ v,
      rw last (
          omega
            (arith, connected-set c.puppet_infos k z y at_k', ap one_if known, ap one_if z_free)),
    )
