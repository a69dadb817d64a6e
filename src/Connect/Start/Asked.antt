-- ===== src/Connect/Start/Asked.antt =====
-- What the two questions leave, and the wait for the first packet.
use smoo_bazel.Base.{
  ℕ, ◌≡◌, refl, sym, ◌∙◌, subst, Bool, true, false, ◌||◌, Option, none, some, List, [], ◌∷◌, ◌++◌,
  map, if_intro, or_split, any, Str, eq_ℤ, pos,
}
use smoo_bazel.Packets.{con_reconnect, init, player_connect, Body, system, Packet}
use smoo_bazel.Client.State.{Client}
use smoo_bazel.Client.Dispatch.{set_max_players}
use smoo_bazel.Socket.Cap.{is_empty}
use smoo_bazel.Connect.{hello, Host}
use smoo_bazel.Connect.Start.{
  atoi, wait_for_init, set_first, open_keyboard_ip, open_keyboard_port, ask_ip, ask_port, ask,
  Starter,
}

-- The port that was typed is the one on the keyboard, or nothing was typed.
abbrev pub KeepsPort : Option Str → Type 0
KeepsPort none = Unit {0}
KeepsPort (some t) = atoi t ≡ pos 1027

module _ {S : Type 0} where
  open_keyboard_port-keeps :
      (typed : Option Str) (s : Starter S)
      → KeepsPort typed
      → (open_keyboard_port typed (record s { server_port = pos 1027 })).1.link.is_first_connect
        ≡ false
  unfolding open_keyboard_port set_first
  open_keyboard_port-keeps none s k = refl
  open_keyboard_port-keeps (some t) s k = rw k refl

  ask_ip-server_port :
      (override : Bool) (typed : Option Str) (s : Starter S)
      → (ask_ip override typed s).1.server_port ≡ s.server_port
  unfolding ask_ip open_keyboard_ip set_first
  ask_ip-server_port override typed s =
      if_intro (λ (r : Bool × Starter S). r.1.server_port ≡ s.server_port)
        (is_empty s.server_ip || override) refl refl

  ask_port-not_first :
      (override : Bool) (typed : Option Str) (s : Starter S)
      → (eq_ℤ s.server_port (pos 0) || override) ≡ true
      → KeepsPort typed
      → (ask_port override typed s).1.link.is_first_connect ≡ false
  unfolding ask_port
  ask_port-not_first override typed s asks k = rw asks (open_keyboard_port-keeps typed s k)

  ask-not_first :
      (override : Bool) (typed_ip typed_port : Option Str) (s : Starter S)
      → (eq_ℤ s.server_port (pos 0) || override) ≡ true
      → KeepsPort typed_port
      → (ask override typed_ip typed_port s).link.is_first_connect ≡ false
  unfolding ask
  ask-not_first override typed_ip typed_port s asks k =
      let s₁ : Starter S = (ask_ip override typed_ip s).1 in
      let same : s₁.server_port ≡ s.server_port = ask_ip-server_port override typed_ip s in
      let old =
        ask_port-not_first override typed_port s₁
          (subst (λ n. (eq_ℤ n (pos 0) || override) ≡ true) (sym same) asks) k in
      if_intro (λ (x : Starter S). x.link.is_first_connect ≡ false)
        ((ask_ip override typed_ip s).0 || (ask_port override typed_port s₁).0) old old

  -- Where the port is asked for and is left as the keyboard shows it, the client introduces itself as
  -- one that reconnects, whatever address was typed before and also on its first connection.
  pub ask-introduces_old :
      (h : Host S) (override : Bool) (typed_ip typed_port : Option Str) (s : Starter S)
      → (eq_ℤ s.server_port (pos 0) || override) ≡ true
      → KeepsPort typed_port
      → let l = (ask override typed_ip typed_port s).link in
        hello h l ≡ record {
          user_id = l.outbox.user_id;
          body = system (
              player_connect (record {
                con_type = con_reconnect;
                max_player_count = 0;
                client_name = l.username;
              }));
        }
  unfolding hello
  ask-introduces_old h override typed_ip typed_port s asks k =
      rw (ask-not_first override typed_ip typed_port s asks k) refl

-- Is the packet an `Init`?
unfoldable pub is_init : Packet → Bool
is_init p = elim p.body [ system (init n) ↦ true | _ ↦ false ]

wait_for_init-skips :
    (uid : Str) (b : Body) (ps : List (Option Packet)) (c : Client)
    → is_init (record { user_id = uid; body = b }) ≡ false
    → wait_for_init (some (record { user_id = uid; body = b }) ∷ ps) c ≡ wait_for_init ps c
unfolding wait_for_init is_init
wait_for_init-skips uid (system (init n)) ps c e = cc
wait_for_init-skips uid (system _) ps c e = refl
wait_for_init-skips uid _ ps c e = refl

wait_for_init-takes :
    (uid : Str) (n : ℕ) (after : List (Option Packet)) (c : Client)
    → wait_for_init (some (record { user_id = uid; body = system (init n) }) ∷ after) c
      ≡ some (true, set_max_players n c)
unfolding wait_for_init
wait_for_init-takes uid n after c = refl

-- The wait ends with the first `Init` if no null pointer came before it, and the packets before it
-- are lost: only the number of players is taken.
pub wait_for_init-ends :
    (before : List Packet) (uid : Str) (n : ℕ) (after : List (Option Packet)) (c : Client)
    → any is_init before ≡ false
    → wait_for_init
        (map some before ++ (some (record { user_id = uid; body = system (init n) }) ∷ after))
        c
      ≡ some (true, set_max_players n c)
wait_for_init-ends [] uid n after c e = wait_for_init-takes uid n after c
wait_for_init-ends (p ∷ ps) uid n after c e =
    let (here, rest) = or_split (is_init p) (any is_init ps) e in
    wait_for_init-skips p.user_id p.body _ c here ∙ wait_for_init-ends ps uid n after c rest
