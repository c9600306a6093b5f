-- ===== src/Uplink/Container/Start/Laws.antt =====
-- internal/uplink/container/manager.go: the identities of the containers that are started.
use cam_bus.Base.{
  String, Option, none, some, Result, ok, err, List, [], ◌∷◌, ◌++◌, ◌==◌, ◌≡◌, ◌≢◌, refl, arith,
  eq_iff, Bool-cases, inl, inr,
}
use cam_bus.Base.Str.{trim_space}
use cam_bus.Uplink.Srt.Query.{UrlLib}
use cam_bus.Uplink.Container.Args.{Request, Manager, build_ffmpeg_args, validate_request}
use cam_bus.Uplink.Container.Logs.{Failure, plain, start_error}
use cam_bus.Uplink.Container.Docker.{System, Output, has_failed, run}
use cam_bus.Uplink.Container.Start.{
  Started, judge, after_run, inspect_state, start_container, retry_without, after_start, with_image,
  if_valid, ensure_image, start, without_logs, fallback_input_args,
}

without_logs_ok : (r : Started) {id : String} → without_logs r ≡ ok id → r ≡ ok id
unfolding without_logs
without_logs_ok (ok i) e = ground arith
without_logs_ok (err (f, logs)) e = cc

module _ {W : Type 0} (sys : System W) (url : UrlLib) (quote : String → String) (m : Manager) where
  judge_ok :
      (req : Request) (args : List String) (id : String)
      (state : Result Failure (String × String × String)) (w : W) {i : String}
      → (judge sys url quote m req args id state w).0 ≡ ok i
      → i ≡ id
  unfolding judge
  judge_ok req args id (err f) w e = cc
  judge_ok req args id (ok (status, exit_code, state_err)) w e = ground arith

  after_run_ok :
      (req : Request) (args : List String) (o : Output) (w : W) {id : String}
      → (after_run sys url quote m req args o w).0 ≡ ok id
      → id ≢ ""
  unfolding after_run
  after_run_ok req args o w {id} e = elim (Bool-cases (has_failed o)) [
    | inl failed ↦ let e' = rw (failed, after_run) at e in cc
    | inr ran ↦ elim (Bool-cases (trim_space o.out == "")) [
      | inl empty ↦ let e' = rw (ran, empty, after_run) at e in cc
      | inr given ↦
          let same =
            judge_ok req args (trim_space o.out)
              (inspect_state sys url quote m (trim_space o.out) w).0
              (inspect_state sys url quote m (trim_space o.out) w).1
              (rw (ran, given, after_run) at e) in
          ground (arith, eq_iff (trim_space o.out) "")
    ]
  ]

  start_container_ok :
      (req : Request) (args : List String) (w : W) {id : String}
      → (start_container sys url quote m req args w).0 ≡ ok id
      → id ≢ ""
  unfolding start_container
  start_container_ok req args w {id} e =
      let command =
        ("run" ∷ "-d" ∷ "--name" ∷ req.name ∷ "--network" ∷ "host" ∷ m.image ∷ [])
        ++ build_ffmpeg_args url m req args in
      let (o, w') = run sys m command w in
      after_run_ok req (build_ffmpeg_args url m req args) o w' e

  retry_without_ok :
      (req : Request) (f : Failure) (args : Option (List String)) (w : W) {id : String}
      → (retry_without sys url quote m req f args w).0 ≡ ok id
      → id ≢ ""
  unfolding retry_without
  retry_without_ok req f none w e = cc
  retry_without_ok req f (some args) w {id} e =
      let w' = (run sys m ("rm" ∷ "-f" ∷ req.name ∷ []) w).1 in
      start_container_ok req args w'
        (without_logs_ok (start_container sys url quote m req args w').0 e)

  after_start_ok :
      (req : Request) (r : Started) (w : W) {id : String}
      → ((i : String) → r ≡ ok i → i ≢ "")
      → (after_start sys url quote m req r w).0 ≡ ok id
      → id ≢ ""
  unfolding after_start
  after_start_ok req (ok i) w {id} h e = ground (arith, h i refl)
  after_start_ok req (err (f, logs)) w {id} h e =
      retry_without_ok req f (fallback_input_args sys url quote m logs) w e

  with_image_ok :
      (req : Request) (image : Option Failure) (w : W) {id : String}
      → (with_image sys url quote m req image w).0 ≡ ok id
      → id ≢ ""
  unfolding with_image
  with_image_ok req (some (plain message)) w e = cc
  with_image_ok req (some (start_error f)) w e = cc
  with_image_ok req none w {id} e =
      let w₁ = (run sys m ("rm" ∷ "-f" ∷ req.name ∷ []) w).1 in
      let (first, w₂) = start_container sys url quote m req m.ffmpeg_input_args w₁ in
      after_start_ok req first w₂ (λ i. start_container_ok req m.ffmpeg_input_args w₁ {id = i}) e

  if_valid_ok :
      (req : Request) (invalid : Option String) (w : W) {id : String}
      → (if_valid sys url quote m req invalid w).0 ≡ ok id
      → id ≢ ""
  unfolding if_valid
  if_valid_ok req (some e) w h = cc
  if_valid_ok req none w h =
      let (image, w') = ensure_image sys url quote m w in with_image_ok req image w' h

  -- Whatever docker does, a start that succeeds returns the identity of a container, which is not empty.
  pub start_has_identity :
      (req : Request) (w : W) {id : String} → (start sys url quote m req w).0 ≡ ok id → id ≢ ""
  unfolding start
  start_has_identity req w {id} e = elim (Bool-cases (req.name == "")) [
    | inl no_name ↦ let e' = rw (no_name, start) at e in cc
    | inr name ↦ elim (Bool-cases (req.proxy_url == "")) [
      | inl no_proxy ↦ let e' = rw (name, no_proxy, start) at e in cc
      | inr proxy ↦ elim (Bool-cases (req.srt_url == "")) [
        | inl no_srt ↦ let e' = rw (name, proxy, no_srt, start) at e in cc
        | inr srt ↦
            if_valid_ok req (validate_request url quote req) w (rw (name, proxy, srt, start) at e)
      ]
    ]
  ]
