-- ===== src/Supervisor/Invariant.antt =====
-- The invariant of the supervisor's maps, and the updates of the maps.
use cam_bus.Base.{
  ℕ, ◌+◌, true, String, none, some, ◌≡◌, ◌≢◌, refl, arith, leb, if-rule, Option-cases, inl, inr,
  eq_iff,
}
use cam_bus.Base.Dict.{
  lookup, NodupKeys, Entries, lookup-insert, lookup-erase, insert-NodupKeys, erase-NodupKeys,
  Entries-insert, Entries-erase,
}
use cam_bus.Core.{CameraInfo}
use cam_bus.Drivers.{StatusUpdate}
use cam_bus.Uplink.Request.{Request}
use cam_bus.Uplink.Manager.{Status}
use cam_bus.Supervisor.{
  Supervisor, CameraWorker, UplinkState, key_for, is_active, touch_worker, update_worker_status,
  put_worker, upsert_camera_info, remove_camera_info, record_uplink_status, put_state, first_state,
  next_state, set_uplink_state, clear_uplink_state, maybe_stop_uplink_state, uplink_state_matches,
}
use cam_bus.Supervisor.Workers.{drop_worker}

-- The supervisor's maps agree: cameras and workers stand under their own keys, a worker's camera is
-- known, and an uplink's state has more starts than stops. `same_base` fixes the base topic.
pub record Sound (base : String) (s : Supervisor) : Type 0 where
  pub same_base : s.base_topic ≡ base
  pub cameras_keyed : Entries (λ k i. key_for i ≡ k) s.cameras
  pub workers_keyed : Entries (λ k w. key_for w.info ≡ k) s.workers
  pub workers_known : Entries (λ k w. lookup k s.cameras ≢ none) s.workers
  pub states_active : Entries (λ k st. is_active st ≡ true) s.uplink_states
  pub cameras_distinct : NodupKeys s.cameras
  pub workers_distinct : NodupKeys s.workers
  pub states_distinct : NodupKeys s.uplink_states

module _ {base : String} {s : Supervisor} (v : Sound base s) where
  pub upsert_camera_info-Sound : (i : CameraInfo) → Sound base (upsert_camera_info s (key_for i) i)
  unfolding upsert_camera_info
  upsert_camera_info-Sound i = record {
    same_base = v.same_base;
    cameras_keyed =
        Entries-insert (λ k i. key_for i ≡ k) (key_for i) i s.cameras v.cameras_keyed refl;
    workers_keyed = v.workers_keyed;
    workers_known =
        λ k w e. ground (arith, v.workers_known k w e, lookup-insert (key_for i) k i s.cameras);
    states_active = v.states_active;
    cameras_distinct = insert-NodupKeys (key_for i) i s.cameras v.cameras_distinct;
    workers_distinct = v.workers_distinct;
    states_distinct = v.states_distinct;
  }

  pub put_worker-Sound :
      (w : CameraWorker)
      → lookup (key_for w.info) s.cameras ≢ none
      → Sound base (put_worker s (key_for w.info) w)
  put_worker-Sound w known = record {
    same_base = v.same_base;
    cameras_keyed = v.cameras_keyed;
    workers_keyed =
        Entries-insert (λ k w. key_for w.info ≡ k) (key_for w.info) w s.workers v.workers_keyed
          refl;
    workers_known =
        Entries-insert (λ k w. lookup k s.cameras ≢ none) (key_for w.info) w s.workers
          v.workers_known known;
    states_active = v.states_active;
    cameras_distinct = v.cameras_distinct;
    workers_distinct = insert-NodupKeys (key_for w.info) w s.workers v.workers_distinct;
    states_distinct = v.states_distinct;
  }

  pub drop_worker-Sound : (key : String) → Sound base (drop_worker s key)
  drop_worker-Sound key = record {
    same_base = v.same_base;
    cameras_keyed = v.cameras_keyed;
    workers_keyed = Entries-erase (λ k w. key_for w.info ≡ k) key s.workers v.workers_keyed;
    workers_known = Entries-erase (λ k w. lookup k s.cameras ≢ none) key s.workers v.workers_known;
    states_active = v.states_active;
    cameras_distinct = v.cameras_distinct;
    workers_distinct = erase-NodupKeys key s.workers v.workers_distinct;
    states_distinct = v.states_distinct;
  }

  -- A camera without a worker can be forgotten.
  pub remove_camera_info-Sound :
      (key : String) → lookup key s.workers ≡ none → Sound base (remove_camera_info s key)
  unfolding remove_camera_info
  remove_camera_info-Sound key idle = record {
    same_base = v.same_base;
    cameras_keyed = Entries-erase (λ k i. key_for i ≡ k) key s.cameras v.cameras_keyed;
    workers_keyed = v.workers_keyed;
    workers_known = λ k w e.
        ground (arith, v.workers_known k w e, lookup-erase key k s.cameras, eq_iff key k, idle, e);
    states_active = v.states_active;
    cameras_distinct = erase-NodupKeys key s.cameras v.cameras_distinct;
    workers_distinct = v.workers_distinct;
    states_distinct = v.states_distinct;
  }

  pub put_state-Sound :
      (key : String) (st : UplinkState) → is_active st ≡ true → Sound base (put_state s key st)
  put_state-Sound key st a = record {
    same_base = v.same_base;
    cameras_keyed = v.cameras_keyed;
    workers_keyed = v.workers_keyed;
    workers_known = v.workers_known;
    states_active =
        Entries-insert (λ k st. is_active st ≡ true) key st s.uplink_states v.states_active a;
    cameras_distinct = v.cameras_distinct;
    workers_distinct = v.workers_distinct;
    states_distinct = insert-NodupKeys key st s.uplink_states v.states_distinct;
  }

  pub clear_uplink_state-Sound : (key : String) → Sound base (clear_uplink_state s key)
  unfolding clear_uplink_state
  clear_uplink_state-Sound key = record {
    same_base = v.same_base;
    cameras_keyed = v.cameras_keyed;
    workers_keyed = v.workers_keyed;
    workers_known = v.workers_known;
    states_active = Entries-erase (λ k st. is_active st ≡ true) key s.uplink_states v.states_active;
    cameras_distinct = v.cameras_distinct;
    workers_distinct = v.workers_distinct;
    states_distinct = erase-NodupKeys key s.uplink_states v.states_distinct;
  }

  pub record_uplink_status-Sound :
      (key : String) (status : Status) → Sound base (record_uplink_status s key status)
  unfolding record_uplink_status
  record_uplink_status-Sound key status = record {
    same_base = v.same_base;
    cameras_keyed = v.cameras_keyed;
    workers_keyed = v.workers_keyed;
    workers_known = v.workers_known;
    states_active = v.states_active;
    cameras_distinct = v.cameras_distinct;
    workers_distinct = v.workers_distinct;
    states_distinct = v.states_distinct;
  }

  pub set_uplink_state-Sound :
      (key : String) (req : Request) → Sound base (set_uplink_state s key req)
  unfolding set_uplink_state first_state next_state is_active
  set_uplink_state-Sound key req = elim (Option-cases (lookup key s.uplink_states)) [
    | inl fresh ↦ rw (fresh, set_uplink_state) (put_state-Sound key (first_state req) refl)
    | inr (st, found) ↦
        rw (found, set_uplink_state)
          (put_state-Sound key _ (
            if-rule (λ st. is_active st ≡ true) (uplink_state_matches st req)
              (λ _. let old = v.states_active key st found in ground arith) (λ _. refl)))
  ]

  pub maybe_stop_uplink_state-Sound : (key : String) → Sound base (maybe_stop_uplink_state s key)
  unfolding maybe_stop_uplink_state is_active
  maybe_stop_uplink_state-Sound key = elim (Option-cases (lookup key s.uplink_states)) [
    | inl missing ↦ rw (missing, maybe_stop_uplink_state) v
    | inr (st, found) ↦
        rw (found, maybe_stop_uplink_state)
          (if-rule (λ s. Sound base s) (leb st.start_count (st.stop_count + 1))
            (λ _. clear_uplink_state-Sound key)
            (λ more.
              put_state-Sound key (record st { stop_count = st.stop_count + 1 }) (ground arith)))
  ]

  -- a worker's status may change
  update_worker :
      (key : String) (w w' : CameraWorker)
      → lookup key s.workers ≡ some w
      → w'.info ≡ w.info
      → Sound base (put_worker s key w')
  update_worker key w w' found same = record {
    same_base = v.same_base;
    cameras_keyed = v.cameras_keyed;
    workers_keyed =
        Entries-insert (λ k w. key_for w.info ≡ k) key w' s.workers v.workers_keyed
          (rw same (v.workers_keyed key w found));
    workers_known =
        Entries-insert (λ k w. lookup k s.cameras ≢ none) key w' s.workers v.workers_known
          (v.workers_known key w found);
    states_active = v.states_active;
    cameras_distinct = v.cameras_distinct;
    workers_distinct = insert-NodupKeys key w' s.workers v.workers_distinct;
    states_distinct = v.states_distinct;
  }

  pub touch_worker-Sound : (key : String) (now : ℕ) → Sound base (touch_worker s key now)
  unfolding touch_worker
  touch_worker-Sound key now = elim (Option-cases (lookup key s.workers)) [
    | inl missing ↦ rw (missing, touch_worker) v
    | inr (w, found) ↦ rw (found, touch_worker) (update_worker key w _ found refl)
  ]

  pub update_worker_status-Sound :
      (key : String) (update : StatusUpdate) (now : ℕ)
      → Sound base (update_worker_status s key update now)
  unfolding update_worker_status
  update_worker_status-Sound key update now = elim (Option-cases (lookup key s.workers)) [
    | inl missing ↦ rw (missing, update_worker_status) v
    | inr (w, found) ↦ rw (found, update_worker_status) (update_worker key w _ found refl)
  ]

pub set_uplink_state-cameras :
    (s : Supervisor) (key : String) (req : Request)
    → (set_uplink_state s key req).cameras ≡ s.cameras
unfolding set_uplink_state
set_uplink_state-cameras s key req = elim (Option-cases (lookup key s.uplink_states)) [
  | inl fresh ↦ rw (fresh, set_uplink_state) refl
  | inr (st, found) ↦ rw (found, set_uplink_state) refl
]
