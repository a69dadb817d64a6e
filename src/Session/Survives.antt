-- ===== src/Session/Survives.antt =====
-- A session of capture the flag does not fault.
use smoo_bazel.Base.{
  ℕ, ◌+◌, ◌*◌, ◌≤◌, ◌<◌, ◌≡◌, refl, sym, ap, ◌∙◌, subst, Bool, true, not, ◌&&◌, ◌||◌, none, some,
  List, [], ◌∷◌, arith, leb, if◌then◌else◌, ◌>>=◌, if_intro, Defined, length, All,
}
use smoo_bazel.Packets.{Packet}
use smoo_bazel.Modes.{as_ctf, CtfInfo, ctf_info, ctf_mode, ModeObject, Manager}
use smoo_bazel.Stages.{Coordinates}
use smoo_bazel.Client.State.{loop_bound, Client}
use smoo_bazel.Socket.{queue_size, Outbox}
use smoo_bazel.Socket.Bound.{queued}
use smoo_bazel.Client.Dispatch.Infos.{handle-size}
use smoo_bazel.Client.Dispatch.Playing.{IsFit, handle-IsPlaying}
use smoo_bazel.Client.Dispatch.Total.{handle-Defined}
use smoo_bazel.Client.Anims.{player_anims}
use smoo_bazel.Client.Handlers.Total.{Reads}
use smoo_bazel.Client.Handlers.Playing.{ctf_object, IsPlaying}
use smoo_bazel.Game.{Game}
use smoo_bazel.Ctf.State.{Round, Frame}
use smoo_bazel.Ctf.Play.Turn.{update_ctf-Turn}
use smoo_bazel.Ctf.Play.Safe.{update_ctf-IsReady}
use smoo_bazel.Ctf.Play.SafeSteps.{IsReady}
use smoo_bazel.Session.{
  receives, turns, begin_ctf, end_ctf, settle_round, round_of, moved_on, put_back, with_active,
  take_in, freed_members, checked, update_active, turn_with, mode_turn, step, run_session, Session,
  Event,
}

-- The turns among the events.
unfoldable pub turn_count : List Event → ℕ
turn_count [] = 0
turn_count (receives p ∷ es) = turn_count es
turn_count (turns f in_scene ∷ es) = 1 + turn_count es

-- The game is capture the flag among `n` other players, the stage has a border, the socket is
-- connected, and its queue has room for what `k` turns may send.
pub record IsLive (n k : ℕ) (s : Session) : Type 0 where
  pub world : IsPlaying n s.world
  pub size : length s.world.client.puppet_infos ≡ n
  pub border : Defined s.border
  pub connected : s.outbox.socket.connected ≡ true
  pub room : queued s.outbox + 2 * k < queue_size

-- A packet fits, and a turn has no more puppets than there are infos.
abbrev pub EventFits : ℕ → Event → Type 0
EventFits n (receives p) = IsFit n p.body
EventFits n (turns f in_scene) = f.holder_size ≤ n

round_at : Session → ModeObject → CtfInfo → Round
round_at s o i = record {
  object = o;
  info = i;
  invuln_time = s.invuln_time;
  teleport_timer = s.teleport_timer;
  client = s.world.client;
  flags = s.world.flags;
  border = s.border;
  outbox = s.outbox;
  calls = [];
}

round_of-lem :
    (s : Session) (o : ModeObject) (i : CtfInfo)
    → s.world.manager.base ≡ some o
    → o.kind ≡ ctf_mode
    → s.world.manager.info ≡ some (ctf_info i)
    → round_of s ≡ some (round_at s o i)
unfolding round_of round_at
round_of-lem s o i at_o kind at_i =
    ap (λ x. x >>= λ o'. as_ctf s.world.manager.info >>= λ i'. some (round_at s o' i'))
      (ctf_object s.world.manager o at_o kind)
    ∙ ap (λ x. as_ctf x >>= λ i'. some (round_at s o i')) at_i

-- What the decision on a begin and an end leaves as it is.
abbrev Settled : Round → Round → Type 0
Settled r r' = IsReady r' × (r'.client ≡ r.client) × (r'.outbox ≡ r.outbox)

-- What a turn comes to, with room for what it sends.
abbrev Turned : Round → Round → Type 0
Turned r r' =
    IsReady r'
    × (r'.client ≡ r.client)
    × (queued r'.outbox ≤ queued r.outbox + 2)
    × (r'.outbox.socket.freed ≡ r.outbox.socket.freed)
    × (r'.outbox.socket.connected ≡ true)

settle_round-Settled :
    (in_scene : Bool) (m : Manager) (r : Round) → IsReady r → Settled r (settle_round in_scene m r)
unfolding settle_round begin_ctf end_ctf
settle_round-Settled in_scene m r v = ended _ (
    if_intro (Settled r)
      ((m.active && in_scene && not m.paused && not r.object.is_active) || m.was_scene_trans)
      (record { infos = v.infos; border = v.border; many = v.many; held = v.held }, refl, refl)
      (v, refl, refl))
  where
    ended :
        (r' : Round)
        → Settled r r'
        → Settled r (
            if (not m.active || m.paused || not in_scene) && r'.object.is_active
            then end_ctf r'
            else r')
    ended r' (v', e, e2) =
        if_intro (Settled r) ((not m.active || m.paused || not in_scene) && r'.object.is_active)
          (record { infos = v'.infos; border = v'.border; many = v'.many; held = v'.held }, e, e2)
          (v', e, e2)

checked-same :
    (r r' : Round) → r'.outbox.socket.freed ≡ r.outbox.socket.freed → checked r r' ≡ some r'
unfolding checked
checked-same r r' e =
    ap (λ x. if leb (freed_members x) (freed_members r.outbox.socket.freed) then some r' else none)
      e
    ∙ ap (λ b. if b then some r' else none) (leb-same (freed_members r.outbox.socket.freed))
  where
    leb-same : (n : ℕ) → leb n n ≡ true
    leb-same n = ground arith

module _ (c : Coordinates) (g : Game) where
  update_active-Turned :
      (f : Frame) (r : Round)
      → IsReady r
      → f.holder_size ≤ length r.client.puppet_infos
      → r.outbox.socket.connected ≡ true
      → queued r.outbox + 3 ≤ queue_size
      → (r' : Round) × (update_active c g f r ≡ some r') × Turned r r'
  unfolding update_active
  update_active-Turned f r v shown on room =
      if_intro (λ x. (r' : Round) × (x ≡ some r') × Turned r r') r.object.is_active
        (let (r', e, v') = update_ctf-IsReady c g f r v shown in
          let t = update_ctf-Turn c g f r e in
          let (kept, on') = t.quiet on room in
          (
            r',
            ap (λ m. m >>= λ x. checked r x) e ∙ checked-same r r' kept,
            (v', t.same_client, t.few, kept, on'),
          ))
        (r, refl, (v, refl, omega arith, refl, on))

  -- A turn with no more puppets than infos does not fault, and the session stays live.
  pub mode_turn-IsLive :
      (n k : ℕ) (f : Frame) (in_scene : Bool) (s : Session)
      → f.holder_size ≤ n
      → IsLive n (1 + k) s
      → (s' : Session) × (mode_turn c g f in_scene s ≡ some s') × IsLive n k s'
  unfolding mode_turn turn_with put_back moved_on with_active round_at
  mode_turn-IsLive n k f in_scene s shown v =
      let (o, at_o, kind) = v.world.object in
      let (i, at_i, low) = v.world.info in
      let r = round_at s o i in
      let ready : IsReady r = record {
        infos = subst (λ m. loop_bound s.world.client.max_puppets ≤ m) (sym v.size) v.world.bound;
        border = v.border;
        many = v.world.many;
        held = low;
      } in
      let (v1, same1, box1) = settle_round-Settled in_scene s.world.manager r ready in
      let r1 = settle_round in_scene s.world.manager r in
      let sized : f.holder_size ≤ length r1.client.puppet_infos =
        subst (λ (x : Client). f.holder_size ≤ length x.puppet_infos) (sym same1)
          (subst (λ m. f.holder_size ≤ m) (sym v.size) shown) in
      let at_outbox : queued r1.outbox ≡ queued s.outbox = ap queued box1 in
      let (r2, e, (v2, same2, few, _, on2)) =
        update_active-Turned (with_active s.world.manager f) r1 v1 sized
          (ap (λ (x : Outbox). x.socket.connected) box1 ∙ v.connected) (omega (arith, v.room)) in
      let same : r2.client ≡ s.world.client = same2 ∙ same1 in
      (
        put_back s o r2,
        ap (turn_with c g f in_scene s) at_o ∙ rw (round_of-lem s o i at_o kind at_i, e) refl,
        record {
          world = record {
            bound = subst (λ (x : Client). loop_bound x.max_puppets ≤ n) (sym same) v.world.bound;
            object = (moved_on o r2.object, refl, kind);
            many = v2.many;
            info = (r2.info, refl, v2.held);
            mode = v.world.mode;
          };
          size = ap (λ (x : Client). length x.puppet_infos) same ∙ v.size;
          border = v2.border;
          connected = on2;
          room = omega (arith, v.room);
        },
      )

  module _ (equals : Packet → Packet → Bool) where
    step-IsLive :
        (n k : ℕ) (e : Event) (s : Session)
        → EventFits n e
        → IsLive n (turn_count (e ∷ []) + k) s
        → (s' : Session) × (step c g equals player_anims e s ≡ some s') × IsLive n k s'
    unfolding step take_in turn_count
    step-IsLive n k (turns f in_scene) s fits v = mode_turn-IsLive n k f in_scene s fits v
    step-IsLive n k (receives p) s fits v =
        let reads : Reads s.world =
          subst (λ m. loop_bound s.world.client.max_puppets ≤ m) (sym v.size) v.world.bound in
        let (w, e) = handle-Defined g.fl equals n p s.world fits v.world reads in
        (
          take_in s w,
          rw e refl,
          record {
            world = handle-IsPlaying g.fl equals player_anims n p s.world w fits e v.world;
            size = handle-size g.fl equals player_anims p s.world w e ∙ v.size;
            border = v.border;
            connected = v.connected;
            room = omega (arith, v.room);
          },
        )

    counts :
        (e : Event) (es : List Event) → turn_count (e ∷ es) ≡ turn_count (e ∷ []) + turn_count es
    unfolding turn_count
    counts (receives p) es = omega arith
    counts (turns f in_scene) es = omega arith

    -- While capture the flag is played among `n` other players in a stage with a border, on a connected
    -- socket whose queue, with two packets for each turn, stays below 100 packets, neither a packet nor
    -- a turn of the mode faults, in whatever order they come, and the session stays so: where the
    -- strings of the packets fit in the infos' buffers, the packets name the teams that have flags and
    -- let in at most `n` other players, and the puppet holder has at most `n` puppets. To free a member
    -- of the client in a turn is a fault. A packet may be of every kind, and each takes effect between
    -- two turns; the send thread takes no turn meanwhile, and what a handler sends at once is only
    -- recorded.
    pub run_session-IsLive :
        (n : ℕ) (es : List Event) (s : Session)
        → All (EventFits n) es
        → IsLive n (turn_count es) s
        → (s' : Session) × (run_session c g equals player_anims es s ≡ some s') × IsLive n 0 s'
    unfolding run_session turn_count
    run_session-IsLive n [] s fits v = (s, refl, v)
    run_session-IsLive n (e ∷ es) s fits v =
        let (s1, e1, v1) =
          step-IsLive n (turn_count es) e s fits.0 (subst (λ k. IsLive n k s) (counts e es) v) in
        let (s', e', v') = run_session-IsLive n es s1 fits.1 v1 in (s', rw e1 e', v')
