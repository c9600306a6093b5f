-- ===== src/Uplink/Manager/Operations/Starting.antt =====
-- What a start leaves in the manager, whether it succeeds or fails.
use cam_bus.Base.{
  ◌+◌, true, false, String, Option, none, some, Result, ok, err, List, [], ◌∷◌, ◌⊎◌, inl, inr,
  if◌then◌else◌, ◌≡◌, ◌≢◌, refl, arith, eq_iff, eq_refl, if-rule, ◌∙◌, sym, ap,
}
use mathlib.Core.Option.{none-ne-some}
use cam_bus.Base.Int.{ℤ, int_eq, int_eq_iff}
use cam_bus.Base.Dict.{Dict, lookup, lookup-insert}
use cam_bus.Uplink.Request.{Request, same_request}
use cam_bus.Uplink.Srt.Candidates.{build_srt_url_candidates}
use cam_bus.Uplink.Container.Logs.{Failure}
use cam_bus.Uplink.Manager.{
  UplinkProcess, Manager, Outside, put, stop_timer, is_nil, runs_containers, container_name,
  is_always_on_request, refresh_ttl, new_process, stop_process, try_candidates, started,
  with_candidates, start_new, start_again, start_uplink,
}
use cam_bus.Uplink.Manager.Invariant.{stop_process-fst}
use cam_bus.Uplink.Manager.Operations.Launching.{Launched, proxy_url_of, try_candidates_given}

int_eq_refl : (a : ℤ) → int_eq a a ≡ true
int_eq_refl a = (int_eq_iff a a).1 refl

pub same_request_refl : (r : Request) → same_request r r ≡ true
unfolding same_request
same_request_refl r = simp (eq_refl, int_eq_refl)

-- The process that a successful start makes, up to the identity of its container.
abbrev pub made : Manager → String → Request → String → UplinkProcess
made m key req id =
    refresh_ttl m
      (new_process key req (container_name m.mode req.central_path) id (is_always_on_request m req))
      req.ttl_seconds

-- The two managers agree off one key.
abbrev pub Agree : String → Manager → Manager → Type 0
Agree key m m' = (j : String) → j ≢ key → lookup j m'.uplinks ≡ lookup j m.uplinks

-- an entry whose timer was stopped
abbrev pub halted : Option UplinkProcess → Option UplinkProcess
halted none = none
halted (some p) = some (record p { ttl_timer = stop_timer p.ttl_timer })

pub put-Agree :
    (m₀ m : Manager) (key : String) (p : UplinkProcess)
    → Agree key m₀ m
    → Agree key m₀ (put m key p)
put-Agree m₀ m key p h j other =
    ground (arith, lookup-insert key j p m.uplinks, eq_iff key j, h j other)

pub put-lookup :
    (m : Manager) (key : String) (p : UplinkProcess) → lookup key (put m key p).uplinks ≡ some p
put-lookup m key p = simp (lookup-insert, eq_refl)

module _ {W : Type 0} (o : Outside W) where
  pub start_uplink_same :
      (m : Manager) (key : String) (p : UplinkProcess) (req : Request) (w : W)
      → lookup key m.uplinks ≡ some p
      → same_request p.payload req ≡ true
      → start_uplink o m key req w ≡ (none, start_again o m key p req, w)
  unfolding start_uplink
  start_uplink_same m key p req w found same = rw (found, same, start_uplink)

  start_uplink_other :
      (m : Manager) (key : String) (p : UplinkProcess) (req : Request) (w : W)
      → lookup key m.uplinks ≡ some p
      → same_request p.payload req ≡ false
      → let (old, w') = stop_process o m p "restarting with new payload" w in
        start_uplink o m key req w ≡ start_new o (put m key old) key req w'
  unfolding start_uplink
  start_uplink_other m key p req w found other = rw (found, other, start_uplink)

  -- The outcome of a start: an error with the manager as it was, or a new process under the key, which
  -- has a container where the mode runs containers.
  abbrev Outcome : Manager → String → Request → Option String × Manager × W → Type 0
  Outcome m key req r =
      ((e : String) × (r.0 ≡ some e) × (r.1 ≡ m))
      ⊎ ((id : String) × (r.0 ≡ none)
          × (r.1 ≡ put m key (made m key req id))
          × (runs_containers m.mode ≡ true → Launched o m req id))

  Outcome-failed :
      (m : Manager) (key : String) (req : Request) (r : Option String × Manager × W) {e : String}
      → r.0 ≡ some e
      → Outcome m key req r
      → r.1 ≡ m
  Outcome-failed m key req r failed (inl (_, _, same)) = same
  Outcome-failed m key req r {e} failed (inr (_, good, _, _)) =
      absurd (none-ne-some e (sym good ∙ failed))

  started-Outcome :
      (m : Manager) (key : String) (req : Request) (r : Result Failure String) (w : W)
      → ((id : String) → r ≡ ok id → runs_containers m.mode ≡ true → Launched o m req id)
      → Outcome m key req (
          started o m key req
            (container_name m.mode req.central_path)
            (is_always_on_request m req)
            r
            w)
  unfolding started
  started-Outcome m key req (err f) w launched = inl (_, refl, refl)
  started-Outcome m key req (ok id) w launched = inr (id, refl, refl, launched id refl)

  with_candidates-Outcome :
      (m : Manager) (key : String) (req : Request) (c : Result String (List String)) (w : W)
      → build_srt_url_candidates o.url o.env req.central_host req.central_srt_port req.central_path
        ≡ c
      → Outcome m key req (with_candidates o m key req (is_always_on_request m req) c w)
  unfolding with_candidates
  with_candidates-Outcome m key req (err e) w built = inl (_, refl, refl)
  with_candidates-Outcome m key req (ok urls) w built =
      let name = container_name m.mode req.central_path in
      let proxy_url = proxy_url_of m req in
      let (r, w') = try_candidates o name proxy_url (if is_nil urls then "" ∷ [] else urls) w in
      if-rule (Outcome m key req) (runs_containers m.mode)
        (λ _.
          started-Outcome m key req r w'
            (λ id e _. (urls, built, try_candidates_given o name proxy_url urls w e)))
        (λ elsewhere. started-Outcome m key req (ok "") w (λ id _ runs. cc))

  start_new-Outcome :
      (m : Manager) (key : String) (req : Request) (w : W)
      → Outcome m key req (start_new o m key req w)
  unfolding start_new
  start_new-Outcome m key req w = with_candidates-Outcome m key req _ w refl

  -- The entry is what it was with one more start, its TTL begins again, and nothing was done outside.
  abbrev pub Joined : Manager → String → Request → W → Manager → W → Type 0
  Joined m key req w m' w' =
      (p : UplinkProcess) × (lookup key m.uplinks ≡ some p)
      × (same_request p.payload req ≡ true)
      × (lookup key m'.uplinks
          ≡ some (
              refresh_ttl m
                (record p {
                  start_count = p.start_count + 1;
                  always_on = is_always_on_request m req;
                })
                req.ttl_seconds))
      × (w' ≡ w)

  -- There was no entry for the request; the entry is a new process of the request that was started
  -- once, for which a container was started where the mode runs containers.
  abbrev pub Launches : Manager → String → Request → Manager → Type 0
  Launches m key req m' =
      ((p : UplinkProcess) → lookup key m.uplinks ≡ some p → same_request p.payload req ≡ false)
      × ((id : String) × (lookup key m'.uplinks ≡ some (made m key req id))
          × (runs_containers m.mode ≡ true → Launched o m req id))

  abbrev Lawful : Manager → String → Request → W → Option String × Manager × W → Type 0
  Lawful m key req w (e, m', w') =
      (e ≡ none → Joined m key req w m' w' ⊎ Launches m key req m')
      × (e ≢ none → lookup key m'.uplinks ≡ halted (lookup key m.uplinks))
      × Agree key m m'
      × (m' ≡ record m { uplinks = m'.uplinks })

  -- Where an uplink is replaced and the new one cannot be started, the entry of the old one stays,
  -- though it was stopped. A start with the old request then reports success and does nothing outside:
  -- no container is started.
  pub failed_restart_masks :
      (m : Manager) (key : String) (p : UplinkProcess) (req : Request) (w w₂ : W) {e : String}
      → lookup key m.uplinks ≡ some p
      → same_request p.payload req ≡ false
      → (start_uplink o m key req w).0 ≡ some e
      → let m' = (start_uplink o m key req w).1 in
        (lookup key m'.uplinks ≡ some (record p { ttl_timer = stop_timer p.ttl_timer }))
        × ((start_uplink o m' key p.payload w₂).0 ≡ none)
        × ((start_uplink o m' key p.payload w₂).2 ≡ w₂)
  failed_restart_masks m key p req w w₂ {e} found other failed =
      let (old, w') = stop_process o m p "restarting with new payload" w in
      let restarted = start_uplink_other m key p req w found other in
      let kept : (start_uplink o m key req w).1 ≡ put m key old =
        Outcome-failed (put m key old) key req (start_uplink o m key req w) failed
          (rw restarted (start_new-Outcome (put m key old) key req w')) in
      let stale =
        ap (λ n. lookup key n.uplinks) kept
        ∙ put-lookup m key old
        ∙ ap some (stop_process-fst o m p _ w) in
      let p' = record p { ttl_timer = stop_timer p.ttl_timer } in
      let again =
        start_uplink_same (start_uplink o m key req w).1 key p' p.payload w₂ stale
          (same_request_refl p.payload) in
      (stale, ap (λ r. r.0) again, ap (λ r. r.2) again)
