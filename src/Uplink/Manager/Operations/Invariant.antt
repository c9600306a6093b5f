-- ===== src/Uplink/Manager/Operations/Invariant.antt =====
-- The operations of the manager and the invariant of its uplinks.
use cam_bus.Base.{
  String, Result, ok, err, List, [], ◌∷◌, map, ◌==◌, ◌||◌, refl, Bool-cases, if-rule, Option-cases,
  inl, inr,
}
use cam_bus.Base.Dict.{lookup}
use cam_bus.Core.{CameraInfo}
use cam_bus.Uplink.Request.{Request, validate_start, key_for}
use cam_bus.Uplink.Container.Logs.{Failure}
use cam_bus.Uplink.Container.Start
use cam_bus.Uplink.Manager.{
  Mode, Manager, Outside, runs_containers, is_always_on_request, resolve_request, stop_timer,
}
use cam_bus.Uplink.Manager.Invariant.{
  Inv, stopped-IsSound, put-Inv, remove-Inv, start_uplink-Inv, stop_uplink-Inv,
}
use cam_bus.Uplink.Manager.Operations.{
  UplinkSnapshot, snapshot_uplinks, start, stop, ttl_expired, spend_timer, timer_fires, stop_key,
  stop_keys, stop_candidates, stop_by_camera, stop_all, note_running, drop_stopped, inspected,
  reconcile_one, reconcile_each, reconcile_once, Event, start_command, stop_command, timer,
  late_timer, camera_gone, reconcile_round, reconcile, shutdown, step, run,
}

module _ {W : Type 0} (o : Outside W) {mode : Mode} where
  start-Inv : (m : Manager) (req : Request) (w : W) → Inv mode m → Inv mode (start o m req w).1
  unfolding start
  start-Inv m given w v =
      let req = resolve_request m given in
      elim (Option-cases (validate_start req)) [
        | inl valid ↦ rw (valid, start) (start_uplink-Inv o (key_for req) req w v valid refl)
        | inr (e, invalid) ↦ rw (invalid, start) v
      ]

  stop-Inv : (m : Manager) (req : Request) (w : W) → Inv mode m → Inv mode (stop o m req w).1
  unfolding stop
  stop-Inv m given w v =
      let req = resolve_request m given in
      elim (Bool-cases (is_always_on_request m req)) [
        | inl always ↦ rw (always, stop) v
        | inr active ↦ rw (active, stop) (stop_uplink-Inv o (key_for req) "stop command" w v)
      ]

  ttl_expired-Inv :
      (m : Manager) (key : String) (w : W) → Inv mode m → Inv mode (ttl_expired o m key w).0
  unfolding ttl_expired
  ttl_expired-Inv m key w v = stop_uplink-Inv o key "ttl expired" w v

  spend_timer-Inv : (m : Manager) (key : String) → Inv mode m → Inv mode (spend_timer o m key)
  unfolding spend_timer
  spend_timer-Inv m key v = elim (Option-cases (lookup key m.uplinks)) [
    | inl missing ↦ rw (missing, spend_timer) v
    | inr (p, found) ↦
        rw (found, spend_timer)
          (put-Inv key (record p { ttl_timer = stop_timer p.ttl_timer }) v
            (stopped-IsSound (v.sound key p found)))
  ]

  timer_fires-Inv :
      (m : Manager) (key : String) (w : W) → Inv mode m → Inv mode (timer_fires o m key w).0
  unfolding timer_fires
  timer_fires-Inv m key w v = ttl_expired-Inv (spend_timer o m key) key w (spend_timer-Inv m key v)

  stop_key-Inv :
      (m : Manager) (reason key : String) (w : W)
      → Inv mode m
      → Inv mode (stop_key o m reason key w).0
  unfolding stop_key
  stop_key-Inv m reason key w v = elim (Option-cases (lookup key m.uplinks)) [
    | inl missing ↦ rw (missing, stop_key) v
    | inr (p, found) ↦ rw (found, stop_key) (remove-Inv key v)
  ]

  stop_keys-Inv :
      (reason : String) (keys : List String) (m : Manager) (w : W)
      → Inv mode m
      → Inv mode (stop_keys o reason keys m w).0
  unfolding stop_keys
  stop_keys-Inv reason [] m w v = v
  stop_keys-Inv reason (key ∷ keys) m w v =
      let (m', w') = stop_key o m reason key w in
      stop_keys-Inv reason keys m' w' (stop_key-Inv m reason key w v)

  stop_by_camera-Inv :
      (m : Manager) (info : CameraInfo) (w : W)
      → Inv mode m
      → Inv mode (stop_by_camera o m info w).0
  unfolding stop_by_camera
  stop_by_camera-Inv m info w v =
      if-rule (λ (r : Manager × W). Inv mode r.0) (m.ignore_uplink || m.always_on) (λ _. v)
        (λ _. stop_keys-Inv "camera cleanup" (stop_candidates info) m w v)

  stop_all-Inv : (m : Manager) (w : W) → Inv mode m → Inv mode (stop_all o m w).0
  unfolding stop_all
  stop_all-Inv m w v =
      if-rule (λ (r : Manager × W). Inv mode r.0) m.ignore_uplink (λ _. v)
        (λ _. stop_keys-Inv "shutdown" (map (λ (key, _). key) m.uplinks) m w v)

  note_running-Inv :
      (m : Manager) (snap : UplinkSnapshot) (state : String)
      → Inv mode m
      → Inv mode (note_running o m snap state)
  unfolding note_running
  note_running-Inv m snap state v = elim (Option-cases (lookup snap.camera_key m.uplinks)) [
    | inl missing ↦ rw (missing, note_running) v
    | inr (p, found) ↦ elim (Bool-cases (p.container == snap.container)) [
      | inl same ↦
          let s = v.sound snap.camera_key p found in
          rw (found, same, note_running)
            (put-Inv snap.camera_key (record p { container_status = state }) v
              (record {
                keyed = s.keyed;
                named = s.named;
                complete = s.complete;
                counted = s.counted;
                contained = s.contained;
                identified = s.identified;
                quiet = s.quiet;
              }))
      | inr other ↦ rw (found, other, note_running) v
    ]
  ]

  drop_stopped-Inv :
      (m : Manager) (snap : UplinkSnapshot) (state reason : String) (w : W)
      → Inv mode m
      → Inv mode (drop_stopped o m snap state reason w).0
  unfolding drop_stopped
  drop_stopped-Inv m snap state reason w v =
      elim (Option-cases (lookup snap.camera_key m.uplinks)) [
        | inl missing ↦ rw (missing, drop_stopped) v
        | inr (p, found) ↦ elim (Bool-cases (p.container == snap.container)) [
          | inl same ↦ rw (found, same, drop_stopped) (remove-Inv snap.camera_key v)
          | inr other ↦ rw (found, other, drop_stopped) v
        ]
      ]

  inspected-Inv :
      (m : Manager) (snap : UplinkSnapshot) (r : Result Failure Start.Status) (w : W)
      → Inv mode m
      → Inv mode (inspected o m snap r w).0
  unfolding inspected
  inspected-Inv m snap (err f) w v = v
  inspected-Inv m snap (ok status) w v = elim (Bool-cases (status.state == "running")) [
    | inl runs ↦ rw (runs, inspected) (note_running-Inv m snap status.state v)
    | inr ended ↦ rw (ended, inspected) (drop_stopped-Inv m snap status.state _ _ v)
  ]

  reconcile_one-Inv :
      (m : Manager) (snap : UplinkSnapshot) (w : W)
      → Inv mode m
      → Inv mode (reconcile_one o m snap w).0
  unfolding reconcile_one
  reconcile_one-Inv m snap w v =
      let (r, w') = o.containers.inspect_status snap.container w in inspected-Inv m snap r w' v

  reconcile_each-Inv :
      (snaps : List UplinkSnapshot) (m : Manager) (w : W)
      → Inv mode m
      → Inv mode (reconcile_each o snaps m w).0
  unfolding reconcile_each
  reconcile_each-Inv [] m w v = v
  reconcile_each-Inv (snap ∷ snaps) m w v =
      let (m', w') = reconcile_one o m snap w in
      reconcile_each-Inv snaps m' w' (reconcile_one-Inv m snap w v)

  reconcile_once-Inv : (m : Manager) (w : W) → Inv mode m → Inv mode (reconcile_once o m w).0
  unfolding reconcile_once
  reconcile_once-Inv m w v =
      if-rule (λ (r : Manager × W). Inv mode r.0) (runs_containers m.mode)
        (λ _. reconcile_each-Inv (snapshot_uplinks m) m w v) (λ _. v)

  pub step-Inv : (m : Manager) (e : Event) (w : W) → Inv mode m → Inv mode (step o m e w).0
  unfolding step
  step-Inv m (start_command req) w v = start-Inv m req w v
  step-Inv m (stop_command req) w v = stop-Inv m req w v
  step-Inv m (timer key) w v = timer_fires-Inv m key w v
  step-Inv m (late_timer key) w v = ttl_expired-Inv m key w v
  step-Inv m (camera_gone info) w v = stop_by_camera-Inv m info w v
  step-Inv m (reconcile_round snap) w v = reconcile_one-Inv m snap w v
  step-Inv m reconcile w v = reconcile_once-Inv m w v
  step-Inv m shutdown w v = stop_all-Inv m w v

  -- Any sequence of events keeps the invariant: the keys stay distinct, every uplink stands under the
  -- key of its own request, its request is complete, it has been stopped less often than started, its
  -- container is the one of its mode and path and has an identity where containers are run, and no TTL
  -- timer runs against an uplink that is always on.
  pub run-Inv : (m : Manager) (es : List Event) (w : W) → Inv mode m → Inv mode (run o m es w).0
  unfolding run
  run-Inv m [] w v = v
  run-Inv m (e ∷ es) w v = let (m', w') = step o m e w in run-Inv m' es w' (step-Inv m e w v)
