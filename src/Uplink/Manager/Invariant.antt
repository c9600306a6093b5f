-- ===== src/Uplink/Manager/Invariant.antt =====
-- The invariant of the uplinks that the manager holds, and the calls that act on one uplink.
use cam_bus.Base.{
  ◌+◌, ◌<◌, Bool, true, false, String, ◌<>◌, Option, none, Result, ok, err, List, [], ◌∷◌, leb,
  if◌then◌else◌, ◌≡◌, ◌≢◌, refl, arith, Bool-cases, if-rule, Option-cases, inl, inr,
}
use cam_bus.Base.Int.{ℤ, is_positive}
use cam_bus.Base.Str.{trim_prefix}
use cam_bus.Base.Dict.{
  lookup, NodupKeys, Entries, Entries-insert, Entries-erase, insert-NodupKeys, erase-NodupKeys,
}
use cam_bus.Uplink.Request.{Request, validate_start, key_for, same_request}
use cam_bus.Uplink.Srt.Candidates.{build_srt_url_candidates}
use cam_bus.Uplink.Container.Args
use cam_bus.Uplink.Container.Logs.{Failure}
use cam_bus.Uplink.Manager.{
  Mode, Timer, no_timer, armed, stopped, UplinkProcess, Manager, Outside, runs_containers,
  container_name, is_always_on_request, put, remove, refresh_ttl, new_process, stop_timer,
  stop_process, try_candidates, is_nil, started, with_candidates, start_new, start_again,
  start_uplink, stop_uplink,
}

-- No TTL runs against an uplink that is always on.
abbrev pub IsQuiet : Bool → Timer → Type 0
IsQuiet true (armed _) = ⊥
IsQuiet true no_timer = Unit
IsQuiet true stopped = Unit
IsQuiet false t = Unit

pub record IsSound (mode : Mode) (key : String) (p : UplinkProcess) : Type 0 where
  pub keyed : p.camera_key ≡ key
  pub named : key_for p.payload ≡ key
  pub complete : validate_start p.payload ≡ none
  pub counted : p.stop_count < p.start_count
  pub contained : p.container ≡ container_name mode p.payload.central_path
  pub identified : runs_containers mode ≡ true → p.container_id ≢ ""
  pub quiet : IsQuiet p.always_on p.ttl_timer

pub record Inv (mode : Mode) (m : Manager) : Type 0 where
  pub same_mode : m.mode ≡ mode
  pub distinct : NodupKeys m.uplinks
  pub sound : Entries (IsSound mode) m.uplinks

pub put-Inv :
    {mode : Mode} {m : Manager} (key : String) (p : UplinkProcess)
    → Inv mode m
    → IsSound mode key p
    → Inv mode (put m key p)
put-Inv {mode} {m} key p v s = record {
  same_mode = v.same_mode;
  distinct = insert-NodupKeys key p m.uplinks v.distinct;
  sound = Entries-insert (IsSound mode) key p m.uplinks v.sound s;
}

pub remove-Inv : {mode : Mode} {m : Manager} (key : String) → Inv mode m → Inv mode (remove m key)
remove-Inv {mode} {m} key v = record {
  same_mode = v.same_mode;
  distinct = erase-NodupKeys key m.uplinks v.distinct;
  sound = Entries-erase (IsSound mode) key m.uplinks v.sound;
}

IsQuiet-if :
    (ignore quiet : Bool) (t : Timer)
    → IsQuiet quiet (if ignore then no_timer else if quiet then no_timer else t)
IsQuiet-if true true t = tt
IsQuiet-if true false t = tt
IsQuiet-if false true t = tt
IsQuiet-if false false t = tt

refresh_ttl-IsQuiet :
    (m : Manager) (p : UplinkProcess) (ttl : ℤ)
    → IsQuiet (refresh_ttl m p ttl).always_on (refresh_ttl m p ttl).ttl_timer
unfolding refresh_ttl
refresh_ttl-IsQuiet m p ttl =
    IsQuiet-if m.ignore_uplink p.always_on (if is_positive ttl then armed ttl else no_timer)

pub IsQuiet-stop_timer : (quiet : Bool) (t : Timer) → IsQuiet quiet (stop_timer t)
unfolding stop_timer
IsQuiet-stop_timer true no_timer = tt
IsQuiet-stop_timer true (armed _) = tt
IsQuiet-stop_timer true stopped = tt
IsQuiet-stop_timer false _ = tt

pub stopped-IsSound :
    {mode : Mode} {key : String} {p : UplinkProcess}
    → IsSound mode key p
    → IsSound mode key (record p { ttl_timer = stop_timer p.ttl_timer })
stopped-IsSound {p = p} s = record {
  keyed = s.keyed;
  named = s.named;
  complete = s.complete;
  counted = s.counted;
  contained = s.contained;
  identified = s.identified;
  quiet = IsQuiet-stop_timer p.always_on p.ttl_timer;
}

module _ {W : Type 0} (o : Outside W) where
  try_candidates_ok :
      (name proxy_url u : String) (us : List String) (w : W) {id : String}
      → (try_candidates o name proxy_url (u ∷ us) w).0 ≡ ok id
      → id ≢ ""
  unfolding try_candidates
  try_candidates_ok name proxy_url u [] w {id} e =
      let req : Args.Request = record { name = name; proxy_url = proxy_url; srt_url = u } in
      ground (arith, o.containers.start_has_identity req w {id = id})
  try_candidates_ok name proxy_url u (v ∷ us) w {id} e =
      let req : Args.Request = record { name = name; proxy_url = proxy_url; srt_url = u } in
      let (_, w') = o.containers.start req w in
      ground (
        arith,
        o.containers.start_has_identity req w {id = id},
        try_candidates_ok name proxy_url v us w' {id = id},
      )

  tried_ok :
      (name proxy_url : String) (urls : List String) (w : W) {id : String}
      → (try_candidates o name proxy_url (if is_nil urls then "" ∷ [] else urls) w).0 ≡ ok id
      → id ≢ ""
  tried_ok name proxy_url [] w e = try_candidates_ok name proxy_url "" [] w e
  tried_ok name proxy_url (u ∷ us) w e = try_candidates_ok name proxy_url u us w e

  started-Inv :
      {mode : Mode} {m : Manager} (key : String) (req : Request) (always_on : Bool)
      (r : Result Failure String) (w : W)
      → Inv mode m
      → validate_start req ≡ none
      → key_for req ≡ key
      → ((id : String) → r ≡ ok id → runs_containers mode ≡ true → id ≢ "")
      → Inv mode (started o m key req (container_name m.mode req.central_path) always_on r w).1
  unfolding started
  started-Inv key req always_on (err f) w v complete named id_given = v
  started-Inv {mode} {m} key req always_on (ok id) w v complete named id_given =
      let name = container_name m.mode req.central_path in
      put-Inv key (refresh_ttl m (new_process key req name id always_on) req.ttl_seconds) v
        (record {
          keyed = unfold refresh_ttl new_process in refl;
          named = unfold refresh_ttl new_process in named;
          complete = unfold refresh_ttl new_process in complete;
          counted = unfold refresh_ttl new_process in omega arith;
          contained = unfold refresh_ttl new_process in rw v.same_mode;
          identified = unfold refresh_ttl new_process in id_given id refl;
          quiet = refresh_ttl-IsQuiet m (new_process key req name id always_on) req.ttl_seconds;
        })

  with_candidates-Inv :
      {mode : Mode} {m : Manager} (key : String) (req : Request) (always_on : Bool)
      (c : Result String (List String)) (w : W)
      → Inv mode m
      → validate_start req ≡ none
      → key_for req ≡ key
      → Inv mode (with_candidates o m key req always_on c w).1
  unfolding with_candidates
  with_candidates-Inv key req always_on (err e) w v complete named = v
  with_candidates-Inv {mode} {m} key req always_on (ok urls) w v complete named =
      elim (Bool-cases (runs_containers m.mode)) [
        | inl runs ↦
            let name = container_name m.mode req.central_path in
            let proxy_url = m.proxy_rtsp_base <> "/" <> trim_prefix req.proxy_path "/" in
            let (r, w') =
              try_candidates o name proxy_url (if is_nil urls then "" ∷ [] else urls) w in
            rw runs (
              started-Inv key req always_on r w' v complete named
                (λ id e _. tried_ok name proxy_url urls w e))
        | inr elsewhere ↦ rw elsewhere (
            started-Inv key req always_on (ok "") w v complete named
              (λ id _ runs. let none_runs = rw v.same_mode at elsewhere in cc))
      ]

  start_new-Inv :
      {mode : Mode} {m : Manager} (key : String) (req : Request) (w : W)
      → Inv mode m
      → validate_start req ≡ none
      → key_for req ≡ key
      → Inv mode (start_new o m key req w).1
  unfolding start_new
  start_new-Inv {mode} {m} key req w v complete named =
      with_candidates-Inv key req (is_always_on_request m req)
        (build_srt_url_candidates o.url o.env req.central_host req.central_srt_port
          req.central_path)
        w v complete named

  -- Stopping a process changes nothing of it but its timer.
  pub stop_process-fst :
      (m : Manager) (p : UplinkProcess) (reason : String) (w : W)
      → (stop_process o m p reason w).0 ≡ record p { ttl_timer = stop_timer p.ttl_timer }
  unfolding stop_process
  stop_process-fst m p reason w = elim (Bool-cases (runs_containers m.mode)) [
    | inl runs ↦ rw (runs, stop_process)
    | inr elsewhere ↦ rw (elsewhere, stop_process)
  ]

  start_again-Inv :
      {mode : Mode} {m : Manager} (key : String) (p : UplinkProcess) (req : Request)
      → Inv mode m
      → IsSound mode key p
      → Inv mode (start_again o m key p req)
  unfolding start_again refresh_ttl
  start_again-Inv {mode} {m} key p req v s =
      let p' = record p {
        start_count = p.start_count + 1;
        always_on = is_always_on_request m req;
      } in
      put-Inv key (refresh_ttl m p' req.ttl_seconds) v (record {
        keyed = s.keyed;
        named = s.named;
        complete = s.complete;
        counted = omega (arith, s.counted);
        contained = s.contained;
        identified = s.identified;
        quiet = refresh_ttl-IsQuiet m p' req.ttl_seconds;
      })

  pub start_uplink-Inv :
      {mode : Mode} {m : Manager} (key : String) (req : Request) (w : W)
      → Inv mode m
      → validate_start req ≡ none
      → key_for req ≡ key
      → Inv mode (start_uplink o m key req w).1
  unfolding start_uplink
  start_uplink-Inv {mode} {m} key req w v complete named =
      elim (Option-cases (lookup key m.uplinks)) [
        | inl fresh ↦ rw (fresh, start_uplink) (start_new-Inv key req w v complete named)
        | inr (p, found) ↦ elim (Bool-cases (same_request p.payload req)) [
          | inl same ↦
              rw (found, same, start_uplink) (start_again-Inv key p req v (v.sound key p found))
          | inr other ↦
              let s = v.sound key p found in
              let reason : String = "restarting with new payload" in
              let (old, w') = stop_process o m p reason w in
              rw (found, other, start_uplink)
                (start_new-Inv key req w'
                  (put-Inv key old v (rw (stop_process-fst m p reason w) (stopped-IsSound s)))
                  complete named)
        ]
      ]

  pub stop_uplink-Inv :
      {mode : Mode} {m : Manager} (key reason : String) (w : W)
      → Inv mode m
      → Inv mode (stop_uplink o m key reason w).1
  unfolding stop_uplink
  stop_uplink-Inv {mode} {m} key reason w v =
      if-rule (λ (r : Option String × Manager × W). Inv mode r.1) m.ignore_uplink (λ _. v)
        λ _. elim (Option-cases (lookup key m.uplinks)) [
          | inl missing ↦ rw (missing, stop_uplink) v
          | inr (p, found) ↦
              rw (found, stop_uplink)
                (if-rule (λ (r : Option String × Manager × W). Inv mode r.1)
                  (leb p.start_count (p.stop_count + 1)) (λ _. remove-Inv key v)
                  λ more.
                    let s = v.sound key p found in
                    put-Inv key (record p { stop_count = p.stop_count + 1 }) v
                      (record {
                        keyed = s.keyed;
                        named = s.named;
                        complete = s.complete;
                        counted = ground arith;
                        contained = s.contained;
                        identified = s.identified;
                        quiet = s.quiet;
                      }))
        ]
