-- ===== src/Supervisor/Held.antt =====
-- What the uplink manager's calls leave alone: they reach the supervisor by its status hook only.
use cam_bus.Base.{String, none, ◌≡◌, refl, arith, if-rule, Option-cases, inl, inr}
use cam_bus.Base.Dict.{lookup, lookup-erase}
use cam_bus.Uplink.Manager.{Status}
use cam_bus.Uplink.Manager.Operations.Worlds.{Keeps}
use cam_bus.Supervisor.{Supervisor, key_for, clear_uplink_state, record_uplink_status}
use cam_bus.Supervisor.Services.{Services, refresh}
use cam_bus.Supervisor.Uplinks.{handle_uplink_status, find_camera_info, is_final, outside}
use cam_bus.Supervisor.Invariant.{Sound, clear_uplink_state-Sound, record_uplink_status-Sound}

-- `s` is sound, has the cameras and workers of `s0` and no uplink's state that `s0` has not.
pub record Held (base : String) (s0 s : Supervisor) : Type 0 where
  pub sound : Sound base s
  pub same_cameras : s.cameras ≡ s0.cameras
  pub same_workers : s.workers ≡ s0.workers
  pub no_new_state :
      (k : String) → lookup k s0.uplink_states ≡ none → lookup k s.uplink_states ≡ none

pub held : {base : String} {s : Supervisor} → Sound base s → Held base s s
held v = record { sound = v; same_cameras = refl; same_workers = refl; no_new_state = λ _ e. e }

module _ {W : Type 0} (sv : Services W) {base : String} {s0 : Supervisor} where
  pub handle_uplink_status-Held :
      (st : Status) (sw : Supervisor × W)
      → Held base s0 sw.0
      → Held base s0 (handle_uplink_status sv st sw).0
  unfolding handle_uplink_status refresh clear_uplink_state record_uplink_status
  handle_uplink_status-Held st (s, w) h = elim (Option-cases (find_camera_info st s.cameras)) [
    | inl missing ↦ rw (missing, handle_uplink_status) h
    | inr (info, found) ↦
        let key = key_for info in
        let recorded = record_uplink_status-Sound h.sound key st in
        rw (found, handle_uplink_status)
          (if-rule (λ (r : Supervisor × W). Held base s0 r.0) (is_final st)
            (λ _. record {
              sound = clear_uplink_state-Sound recorded key;
              same_cameras = h.same_cameras;
              same_workers = h.same_workers;
              no_new_state =
                  λ k e. ground (arith, lookup-erase key k s.uplink_states, h.no_new_state k e);
            })
            (λ _. record {
              sound = recorded;
              same_cameras = h.same_cameras;
              same_workers = h.same_workers;
              no_new_state = h.no_new_state;
            }))
  ]

  pub outside-Keeps : Keeps (outside sv) (λ (sw : Supervisor × W). Held base s0 sw.0)
  outside-Keeps = record {
    starts = λ _ _ h. h;
    stops = λ _ _ h. h;
    inspects = λ _ _ h. h;
    hooks = handle_uplink_status-Held;
  }
