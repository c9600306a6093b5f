-- ===== src/Uplink/Manager/Operations/Worlds.antt =====
-- What the calls of the uplink manager keep of the world that they act on.
use cam_bus.Base.{
  ◌+◌, leb, Bool, String, ◌<>◌, Option, Result, ok, err, List, [], ◌∷◌, map, ◌==◌, ◌&&◌, ◌||◌, not,
  if-rule, Option-cases, Result-cases, inl, inr, if◌then◌else◌,
}
use cam_bus.Base.Str.{trim_prefix}
use cam_bus.Base.Dict.{lookup}
use cam_bus.Core.{CameraInfo}
use cam_bus.Uplink.Request.{Request, validate_start, key_for, same_request}
use cam_bus.Uplink.Srt.Candidates.{build_srt_url_candidates}
use cam_bus.Uplink.Container.Args
use cam_bus.Uplink.Container.Logs.{Failure}
use cam_bus.Uplink.Container.Start
use cam_bus.Uplink.Manager.{
  Manager, UplinkProcess, Status, Outside, stop_process, try_candidates, started, with_candidates,
  start_new, start_uplink, stop_uplink, runs_containers, container_name, is_nil,
  is_retriable_start_error, resolve_request, is_always_on_request, put,
}
use cam_bus.Uplink.Manager.Operations.{
  start, stop, stop_key, stop_keys, stop_by_camera, stop_all, ttl_expired, timer_fires, spend_timer,
  inspected, drop_stopped, reconcile_one, reconcile_each, reconcile_once, UplinkSnapshot,
  snapshot_uplinks, stop_candidates, Event, start_command, stop_command, timer, late_timer,
  camera_gone, reconcile_round, reconcile, shutdown, step,
}

module _ {κ} {W : Type 0} (o : Outside W) (P : W → Type κ) where
  -- The containers and the hook keep `P`.
  pub record Keeps : Type κ where
    pub starts : (req : Args.Request) (w : W) → P w → P (o.containers.start req w).1
    pub stops : (name : String) (w : W) → P w → P (o.containers.stop name w).1
    pub inspects : (name : String) (w : W) → P w → P (o.containers.inspect_status name w).1
    pub hooks : (st : Status) (w : W) → P w → P (o.hook st w)

  module _ (keeps : Keeps) where
    open keeps use {starts, stops, inspects, hooks}

    stop_process_keeps :
        (m : Manager) (proc : UplinkProcess) (reason : String) (w : W)
        → P w
        → P (stop_process o m proc reason w).1
    unfolding stop_process
    stop_process_keeps m proc reason w p =
        if-rule (λ (r : UplinkProcess × W). P r.1) (runs_containers m.mode)
          (λ _. hooks _ _ (stops _ _ p)) (λ _. hooks _ _ p)

    try_candidates_keeps :
        (name proxy_url : String) (urls : List String) (w : W)
        → P w
        → P (try_candidates o name proxy_url urls w).1
    unfolding try_candidates
    try_candidates_keeps name proxy_url [] w p = p
    try_candidates_keeps name proxy_url (url ∷ more) w p =
        let req : Args.Request = record { name = name; proxy_url = proxy_url; srt_url = url } in
        let (r, w') = o.containers.start req w in
        let p' = starts req w p in
        if-rule (λ (r : Result Failure String × W). P r.1) (url == "") (λ _. p)
          (λ _. elim (Result-cases r) [
            | inl (id, q) ↦ rw (q, try_candidates) p'
            | inr (f, q) ↦
                rw (q, try_candidates)
                  (if-rule (λ (r : Result Failure String × W). P r.1)
                    (is_retriable_start_error f && not (is_nil more))
                    (λ _. try_candidates_keeps name proxy_url more w' p') (λ _. p'))
          ])

    started_keeps :
        (m : Manager) (key : String) (req : Request) (name : String) (always_on : Bool)
        (r : Result Failure String) (w : W)
        → P w
        → P (started o m key req name always_on r w).2
    unfolding started
    started_keeps m key req name always_on (ok id) w p = hooks _ w p
    started_keeps m key req name always_on (err f) w p = hooks _ w p

    with_candidates_keeps :
        (m : Manager) (key : String) (req : Request) (always_on : Bool)
        (r : Result String (List String)) (w : W)
        → P w
        → P (with_candidates o m key req always_on r w).2
    unfolding with_candidates
    with_candidates_keeps m key req always_on (err e) w p = hooks _ w p
    with_candidates_keeps m key req always_on (ok urls) w p =
        let name = container_name m.mode req.central_path in
        let proxy_url = m.proxy_rtsp_base <> "/" <> trim_prefix req.proxy_path "/" in
        let urls' : List String = if is_nil urls then "" ∷ [] else urls in
        let (r, w') = try_candidates o name proxy_url urls' w in
        if-rule (λ (r : Option String × Manager × W). P r.2) (runs_containers m.mode)
          (λ _.
            started_keeps m key req name always_on r w'
              (try_candidates_keeps name proxy_url urls' w p))
          (λ _. started_keeps m key req name always_on (ok "") w p)

    start_new_keeps :
        (m : Manager) (key : String) (req : Request) (w : W) → P w → P (start_new o m key req w).2
    unfolding start_new
    start_new_keeps m key req w p =
        with_candidates_keeps m key req (is_always_on_request m req)
          (build_srt_url_candidates o.url o.env req.central_host req.central_srt_port
            req.central_path)
          w p

    start_uplink_keeps :
        (m : Manager) (key : String) (req : Request) (w : W)
        → P w
        → P (start_uplink o m key req w).2
    unfolding start_uplink
    start_uplink_keeps m key req w p = elim (Option-cases (lookup key m.uplinks)) [
      | inl fresh ↦ rw (fresh, start_uplink) (start_new_keeps m key req w p)
      | inr (proc, found) ↦
          rw (found, start_uplink)
            (if-rule (λ (r : Option String × Manager × W). P r.2) (same_request proc.payload req)
              (λ _. p)
              λ _.
                let reason : String = "restarting with new payload" in
                let (old, w') = stop_process o m proc reason w in
                start_new_keeps (put m key old) key req w' (stop_process_keeps m proc reason w p))
    ]

    stop_uplink_keeps :
        (m : Manager) (key reason : String) (w : W) → P w → P (stop_uplink o m key reason w).2
    unfolding stop_uplink
    stop_uplink_keeps m key reason w p =
        if-rule (λ (r : Option String × Manager × W). P r.2) m.ignore_uplink (λ _. p)
          λ _. elim (Option-cases (lookup key m.uplinks)) [
            | inl missing ↦ rw (missing, stop_uplink) p
            | inr (proc, found) ↦
                rw (found, stop_uplink)
                  (if-rule (λ (r : Option String × Manager × W). P r.2)
                    (leb proc.start_count (proc.stop_count + 1))
                    (λ _. stop_process_keeps m _ reason w p) (λ _. p))
          ]

    pub start_keeps : (m : Manager) (req : Request) (w : W) → P w → P (start o m req w).2
    unfolding start
    start_keeps m given w p =
        let req = resolve_request m given in
        elim (Option-cases (validate_start req)) [
          | inl good ↦ rw (good, start) (start_uplink_keeps m (key_for req) req w p)
          | inr (e, bad) ↦ rw (bad, start) p
        ]

    pub stop_keeps : (m : Manager) (req : Request) (w : W) → P w → P (stop o m req w).2
    unfolding stop
    stop_keeps m given w p =
        let req = resolve_request m given in
        if-rule (λ (r : Option String × Manager × W). P r.2) (is_always_on_request m req) (λ _. p)
          (λ _. stop_uplink_keeps m (key_for req) "stop command" w p)

    stop_key_keeps :
        (m : Manager) (reason key : String) (w : W) → P w → P (stop_key o m reason key w).1
    unfolding stop_key
    stop_key_keeps m reason key w p = elim (Option-cases (lookup key m.uplinks)) [
      | inl missing ↦ rw (missing, stop_key) p
      | inr (proc, found) ↦ rw (found, stop_key) (stop_process_keeps m proc reason w p)
    ]

    stop_keys_keeps :
        (reason : String) (keys : List String) (m : Manager) (w : W)
        → P w
        → P (stop_keys o reason keys m w).1
    unfolding stop_keys
    stop_keys_keeps reason [] m w p = p
    stop_keys_keeps reason (key ∷ keys) m w p =
        let (m', w') = stop_key o m reason key w in
        stop_keys_keeps reason keys m' w' (stop_key_keeps m reason key w p)

    pub stop_by_camera_keeps :
        (m : Manager) (info : CameraInfo) (w : W) → P w → P (stop_by_camera o m info w).1
    unfolding stop_by_camera
    stop_by_camera_keeps m info w p =
        if-rule (λ (r : Manager × W). P r.1) (m.ignore_uplink || m.always_on) (λ _. p)
          (λ _. stop_keys_keeps "camera cleanup" (stop_candidates info) m w p)

    stop_all_keeps : (m : Manager) (w : W) → P w → P (stop_all o m w).1
    unfolding stop_all
    stop_all_keeps m w p =
        if-rule (λ (r : Manager × W). P r.1) m.ignore_uplink (λ _. p)
          (λ _. stop_keys_keeps "shutdown" (map (λ (key, _). key) m.uplinks) m w p)

    ttl_expired_keeps : (m : Manager) (key : String) (w : W) → P w → P (ttl_expired o m key w).1
    unfolding ttl_expired
    ttl_expired_keeps m key w p = stop_uplink_keeps m key "ttl expired" w p

    inspected_keeps :
        (m : Manager) (snap : UplinkSnapshot) (r : Result Failure Start.Status) (w : W)
        → P w
        → P (inspected o m snap r w).1
    unfolding inspected drop_stopped
    inspected_keeps m snap (err f) w p = p
    inspected_keeps m snap (ok status) w p =
        if-rule (λ (r : Manager × W). P r.1) (status.state == "running") (λ _. hooks _ w p)
          λ _. elim (Option-cases (lookup snap.camera_key m.uplinks)) [
            | inl missing ↦ rw (missing, drop_stopped) (hooks _ w p)
            | inr (proc, found) ↦
                rw (found, drop_stopped)
                  (if-rule (λ (r : Manager × W). P r.1) (proc.container == snap.container)
                    (λ _. stop_process_keeps m _ _ _ (hooks _ w p)) (λ _. hooks _ w p))
          ]

    reconcile_one_keeps :
        (m : Manager) (snap : UplinkSnapshot) (w : W) → P w → P (reconcile_one o m snap w).1
    unfolding reconcile_one
    reconcile_one_keeps m snap w p =
        let (r, w') = o.containers.inspect_status snap.container w in
        inspected_keeps m snap r w' (inspects snap.container w p)

    reconcile_each_keeps :
        (snaps : List UplinkSnapshot) (m : Manager) (w : W) → P w → P (reconcile_each o snaps m w).1
    unfolding reconcile_each
    reconcile_each_keeps [] m w p = p
    reconcile_each_keeps (snap ∷ snaps) m w p =
        let (m', w') = reconcile_one o m snap w in
        reconcile_each_keeps snaps m' w' (reconcile_one_keeps m snap w p)

    -- Whatever happens to the manager, a property of the world that the containers and the status hook
    -- keep is kept.
    pub step_keeps : (m : Manager) (e : Event) (w : W) → P w → P (step o m e w).1
    unfolding step reconcile_once timer_fires
    step_keeps m (start_command req) w p = start_keeps m req w p
    step_keeps m (stop_command req) w p = stop_keeps m req w p
    step_keeps m (timer key) w p = ttl_expired_keeps (spend_timer o m key) key w p
    step_keeps m (late_timer key) w p = ttl_expired_keeps m key w p
    step_keeps m (camera_gone info) w p = stop_by_camera_keeps m info w p
    step_keeps m (reconcile_round snap) w p = reconcile_one_keeps m snap w p
    step_keeps m reconcile w p =
        if-rule (λ (r : Manager × W). P r.1) (runs_containers m.mode)
          (λ _. reconcile_each_keeps (snapshot_uplinks m) m w p) (λ _. p)
    step_keeps m shutdown w p = stop_all_keeps m w p
