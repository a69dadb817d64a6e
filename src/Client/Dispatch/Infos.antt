-- ===== src/Client/Dispatch/Infos.antt =====
-- The infos and the connection count over the packets that the read thread takes.
use smoo_bazel.Base.{
  ◌≡◌, sym, ap, ◌∙◌, subst, ◌⊎◌, inl, inr, Bool, true, false, Option, none, some, List, [], ◌∷◌,
  >>=-eq-some, some_inj, length, All, Str, pos, FloatOps,
}
use smoo_bazel.Packets.{player_inf, Body, system, Packet}
use smoo_bazel.Client.State.{Client, World}
use smoo_bazel.Client.Infos.{update_player_info}
use smoo_bazel.Client.Infos.Count.{connected, IsCounted}
use smoo_bazel.Client.Infos.Steps.{Step-IsCounted}
use smoo_bazel.Client.Infos.Frame.{Touches, Touches-size, with_info-Touches, Step-Touches}
use smoo_bazel.Client.Handlers.Effects.{Change, leaves, steps, moves}
use smoo_bazel.Client.Dispatch.{handle, read_all}
use smoo_bazel.Client.Dispatch.Effects.{handle-Change}

-- A packet that moves a player.
abbrev pub is_movement : Body → Bool
is_movement (system (player_inf m)) = true
is_movement _ = false

abbrev pub StaysPut : Option Packet → Type 0
StaysPut none = Unit
StaysPut (some p) = is_movement p.body ≡ false

Change-IsCounted :
    (uid : Str) (b : Body) (c c' : Client)
    → is_movement b ≡ false
    → Change uid b c c'
    → IsCounted c
    → IsCounted c'
Change-IsCounted uid b c c' h (leaves infos count) v =
    count ∙ v ∙ ap (λ l. pos (connected l)) (sym infos)
Change-IsCounted uid b c c' h (steps s) v = Step-IsCounted uid c c' s v
Change-IsCounted uid b c c' h (moves fl anims m e run) v =
    let clash : true ≡ false = sym (ap is_movement e) ∙ h in cc

module _ (fl : FloatOps) (equals : Packet → Packet → Bool) (anims : List Str) where
  -- A packet of any kind that does not fault leaves all infos alone, or changes at most the info that
  -- the lookup of the packet's sender finds; it never changes the number of infos.
  pub handle-Touches :
      (p : Packet) (w w' : World)
      → handle fl equals anims p w ≡ some w'
      → (w'.client.puppet_infos ≡ w.client.puppet_infos)
        ⊎ ((av : Bool) × Touches p.user_id av w.client w'.client)
  unfolding update_player_info
  handle-Touches p w w' e = elim (handle-Change fl equals anims p w w' e) [
    | leaves infos count ↦ inl infos
    | steps s ↦ inr (Step-Touches p.user_id w.client w'.client s)
    | moves fl' anims' m q run ↦ inr (false, with_info-Touches _ p.user_id w.client w'.client run)
  ]

  pub handle-size :
      (p : Packet) (w w' : World)
      → handle fl equals anims p w ≡ some w'
      → length w'.client.puppet_infos ≡ length w.client.puppet_infos
  handle-size p w w' e = elim (handle-Touches p w w' e) [
    | inl same ↦ ap length same
    | inr t ↦ Touches-size p.user_id t.0 w.client w'.client t.1
  ]

  -- However many packets the read thread takes without a fault, the number of infos stays.
  pub read_all-size :
      (ps : List (Option Packet)) (w w' : World)
      → read_all fl equals anims ps w ≡ some w'
      → length w'.client.puppet_infos ≡ length w.client.puppet_infos
  unfolding read_all
  read_all-size [] w w' e = sym (ap (λ (v : World). length v.client.puppet_infos) (some_inj e))
  read_all-size (none ∷ ps) w w' e = cc
  read_all-size (some p ∷ ps) w w' e =
      let (v, first, rest) = >>=-eq-some (handle fl equals anims p w) _ e in
      read_all-size ps v w' rest ∙ handle-size p w v first

  -- Over any packets that do not fault and of which none moves a player, the connection count stays
  -- the number of connected infos, if it was that at the start.
  pub read_all-IsCounted :
      (ps : List (Option Packet)) (w w' : World)
      → All StaysPut ps
      → IsCounted w.client
      → read_all fl equals anims ps w ≡ some w'
      → IsCounted w'.client
  unfolding read_all
  read_all-IsCounted [] w w' put v e = subst (λ (x : World). IsCounted x.client) (some_inj e) v
  read_all-IsCounted (none ∷ ps) w w' put v e = cc
  read_all-IsCounted (some p ∷ ps) w w' put v e =
      let (x, first, rest) = >>=-eq-some (handle fl equals anims p w) _ e in
      read_all-IsCounted ps x w' put.1
        (Change-IsCounted p.user_id p.body w.client x.client put.0
          (handle-Change fl equals anims p w x first) v)
        rest
