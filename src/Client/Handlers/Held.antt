-- ===== src/Client/Handlers/Held.antt =====
-- Who holds a flag, and where a dropped flag lies.
use mathlib.Core.Option
use smoo_bazel.Base.{
  ◌≤◌, ◌≡◌, refl, ap, ◌∙◌, Bool, true, false, none, some, if◌then◌else◌, length, get_elem?, Str,
  c_str, Fits, strcpy-Fits,
}
use smoo_bazel.Puppets.Info.{uid_empty}
use smoo_bazel.Packets.{uid_of, FlagHoldState, FlagDropped}
use smoo_bazel.Modes.{is_mode_and_active, object_as, capture_the_flag, ctf_mode, ModeObject}
use smoo_bazel.Client.State.{FlagActor, World}
use smoo_bazel.Client.Flags.{flag_index}
use smoo_bazel.Client.Flags.Edit.{
  edit_flag-OnlyFlag, edit_flag-faults, as_held, as_dropped, hold_flag, dropped_flag, OnlyFlag,
}
use smoo_bazel.Client.Handlers.{
  with_flags, hold, update_ctf_flag_hold_state, drop_at, drop_flag, drop_unless_first,
  update_ctf_flag_dropped,
}

-- The holder that a flag shows: an id while it is held, the empty id otherwise.
abbrev pub holder_of : Str → Bool → Str
holder_of uid b = if b then uid_of uid else uid_empty

-- A packet about the holding of a flag that exists does not fault in any mode. The flag then is held
-- or not as the packet says, by the sender while it is held and by nobody otherwise, and the other
-- flags are as they were.
pub update_ctf_flag_hold_state-OnlyFlag :
    (uid : Str) (s : FlagHoldState) (w : World) (a : FlagActor)
    → get_elem? w.flags.team_flags (flag_index s.flag_team) ≡ some (some a)
    → (w' : World) × (update_ctf_flag_hold_state uid s w ≡ some w')
      × OnlyFlag s.flag_team
          (record a { info = Option.map (as_held s.is_held (holder_of uid s.is_held)) a.info })
          w.flags
          w'.flags
unfolding update_ctf_flag_hold_state hold with_flags
update_ctf_flag_hold_state-OnlyFlag uid s w a at_team =
    let (fs', e, only) =
      edit_flag-OnlyFlag (hold uid s) s.flag_team (record w.flags { latest_team = s.flag_team }) a
        at_team in
    (
      record w { flags = fs' },
      rw e refl,
      record {
        here =
            only.here ∙ ap (λ x. some (some x)) (hold_flag s.is_held (holder_of uid s.is_held) a);
        others = only.others;
      },
    )

-- A packet about the flag of a team whose number is past the end of the flags is undefined
-- behaviour.
pub update_ctf_flag_hold_state-faults :
    (uid : Str) (s : FlagHoldState) (w : World)
    → length w.flags.team_flags ≤ flag_index s.flag_team
    → update_ctf_flag_hold_state uid s w ≡ none
unfolding update_ctf_flag_hold_state
update_ctf_flag_hold_state-faults uid s w h =
    rw (edit_flag-faults (hold uid s) s.flag_team (record w.flags { latest_team = s.flag_team }) h)
      refl

-- While the capture-the-flag game runs and its first frame is over, a dropped flag that exists and
-- comes with a stage name that fits is put alive at the place of the packet and held by nobody, and
-- the other flags are as they were.
pub update_ctf_flag_dropped-OnlyFlag :
    (d : FlagDropped) (w : World) (o : ModeObject) (a : FlagActor)
    → is_mode_and_active capture_the_flag w.manager ≡ true
    → object_as ctf_mode w.manager ≡ some o
    → o.is_first_frame ≡ false
    → Fits 0x40 d.stage_name
    → get_elem? w.flags.team_flags (flag_index d.flag_team) ≡ some (some a)
    → (w' : World) × (update_ctf_flag_dropped d w ≡ some w')
      × OnlyFlag d.flag_team
          (record a {
            dead = false;
            trans = d.at;
            info = Option.map (as_dropped d.at d.rot) a.info;
          })
          w.flags
          w'.flags
unfolding update_ctf_flag_dropped drop_unless_first drop_flag drop_at with_flags
update_ctf_flag_dropped-OnlyFlag d w o a active obj later fits at_team =
    let (fs', e, only) =
      edit_flag-OnlyFlag (drop_at d) d.flag_team
        (record w.flags {
          latest_team = d.flag_team;
          latest_position = d.at;
          latest_stage = c_str d.stage_name;
        })
        a at_team in
    (
      record w { flags = fs' },
      rw (active, obj, later, strcpy-Fits 0x40 d.stage_name fits, e) refl,
      record {
        here = only.here ∙ ap (λ x. some (some x)) (dropped_flag d.at d.rot a);
        others = only.others;
      },
    )
