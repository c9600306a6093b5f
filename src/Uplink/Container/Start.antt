-- ===== src/Uplink/Container/Start.antt =====
-- internal/uplink/container/manager.go: starting, stopping and inspecting a container.
pub mod Laws
use Prim.Native.String
use text.Mathlib.Text.{starts_with}
use cam_bus.Base.{
  ℕ, Bool, true, false, String, ◌<>◌, Option, none, some, Result, ok, err, List, [], ◌∷◌, ◌++◌,
  ◌==◌, ◌&&◌, ◌||◌, not, if◌then◌else◌, nat_eq, length,
}
use cam_bus.Base.Int.{ℤ}
use cam_bus.Base.Str.{trim_space, is_char, split, join}
use cam_bus.Base.Str.Decimal.{scan_int}
use cam_bus.Base.State.{St, ◌>>=◌, ◌>>◌, return}
use cam_bus.Uplink.Srt.Query.{UrlLib}
use cam_bus.Uplink.Container.Args.{
  Request, Manager, build_ffmpeg_args, validate_request, remove_option_with_value,
}
use cam_bus.Uplink.Container.Logs.{
  Failure, plain, start_error, StartErrorKind, docker_failure, classify_ffmpeg_logs,
  truncate_string, max_ffmpeg_log_length, unsupported_ffmpeg_option,
}
use cam_bus.Uplink.Container.Docker.{System, Output, has_failed, run, run_with_env}

-- Status
pub record Status : Type 0 where
  pub state : String
  pub exit_code : ℤ
  pub error : String

-- strings.SplitN(s, "|", 3), where it has three parts
unfoldable pub split_three : String → Option (String × String × String)
split_three s = elim (split b'|' s) [
  | a ∷ b ∷ c ∷ rest ↦ some (a, b, join "|" (c ∷ rest))
  | _ ↦ none
]

abbrev inspect_args : String → List String
inspect_args name =
    "inspect" ∷ "--format" ∷ "{{.State.Status}}|{{.State.ExitCode}}|{{.State.Error}}" ∷ name ∷ []

message : Output → String → String
message o def = elim o.error [ none ↦ def | some e ↦ e ]

-- the identity of a container, or the failure with the logs
abbrev pub Started : Type 0
Started = Result (Failure × String) String

without_logs : Started → Result Failure String
without_logs (ok id) = ok id
without_logs (err (f, _)) = err f

module _ {W : Type 0} (sys : System W) (url : UrlLib) (quote : String → String) (m : Manager) where
  abbrev pub docker : List String → St W Output
  docker = run sys m

  inspected : String → Output → Result Failure (String × String × String)
  unfolding message split_three
  inspected id o =
      if has_failed o
      then err (plain ("inspect docker container " <> id <> ": " <> message o ""))
      else elim (split_three (trim_space o.out)) [
        | none ↦ err (
            plain (
              "inspect docker container "
              <> id
              <> ": unexpected output "
              <> quote (trim_space o.out)))
        | some parts ↦ ok parts
      ]

  -- inspectState: the state, the exit code and the error of a container
  unfoldable pub inspect_state : String → St W (Result Failure (String × String × String))
  unfolding inspected
  inspect_state id = do o ← docker (inspect_args id); return (inspected id o)

  -- the failure of a container that does not run, from its logs
  not_running : Request → List String → String → String × String × String → Output → Started
  not_running req args id (status, exit_code, state_err) logs =
      let snippet = trim_space logs.out in
      let (kind, summary) = classify_ffmpeg_logs snippet in
      err (
        start_error (record {
          kind = kind;
          cause =
              "container "
              <> id
              <> " not running (status="
              <> status
              <> " exitCode="
              <> exit_code
              <> " stateError="
              <> trim_space state_err
              <> ")";
          ffmpeg_args = args;
          logs = truncate_string snippet max_ffmpeg_log_length;
          summary = summary;
        }),
        logs.out,
      )

  judge : Request → List String → String → Result Failure (String × String × String) → St W Started
  unfolding not_running
  judge req args id (err f) = return (err (f, ""))
  judge req args id (ok (status, exit_code, state_err)) =
      if status == "running" then return (ok id) else do
        logs ← docker ("logs" ∷ "--tail" ∷ "200" ∷ id ∷ [])
        return (not_running req args id (status, exit_code, state_err) logs)

  after_run : Request → List String → Output → St W Started
  unfolding judge message
  after_run req args o =
      let id = trim_space o.out in
      if has_failed o
      then return (
          err (
            start_error (record {
              kind = docker_failure;
              cause = "start docker container: " <> message o "";
              ffmpeg_args = args;
              logs = truncate_string (trim_space o.out) max_ffmpeg_log_length;
              summary = "";
            }),
            o.out,
          ))
      else if id == ""
      then return (err (plain "start docker container: empty container id", ""))
      else do state ← inspect_state id; judge req args id state

  -- startContainer: the identity of the container, or the failure and the logs
  unfoldable pub start_container : Request → List String → St W Started
  unfolding after_run
  start_container req input_args =
      let args = build_ffmpeg_args url m req input_args in
      do
        o ←
            docker
              (("run" ∷ "-d" ∷ "--name" ∷ req.name ∷ "--network" ∷ "host" ∷ m.image ∷ []) ++ args)
        after_run req args o

  build_args : List String
  build_args =
      ("build" ∷ "-t" ∷ m.image ∷ [])
      ++ ((if m.dockerfile == "" then [] else "-f" ∷ m.dockerfile ∷ [])
          ++ ((if m.build_context == "" then "." else m.build_context) ∷ []))

  fetched : String → Output → Option Failure
  unfolding message
  fetched what o =
      if has_failed o then some (plain (what <> quote m.image <> ": " <> message o "")) else none

  -- ensureImage
  unfoldable pub ensure_image : St W (Option Failure)
  unfolding build_args fetched
  ensure_image = do
    present ← run_with_env sys m ("image" ∷ "inspect" ∷ m.image ∷ []) []
    (if not (has_failed present)
        then return none
        else if m.build_context == "" && m.dockerfile == ""
        then (do o ← docker ("pull" ∷ m.image ∷ []); return (fetched "pull docker image " o))
        else (do o ← docker build_args; return (fetched "build docker image " o)))

  -- the input arguments without the option that the logs name, if that takes anything out
  unfoldable pub fallback_input_args : String → Option (List String)
  fallback_input_args logs =
      let option = unsupported_ffmpeg_option logs in
      let flag = if starts_with option "-" then option else "-" <> option in
      let args = remove_option_with_value m.ffmpeg_input_args flag in
      if logs == "" || option == "" || nat_eq (length args) (length m.ffmpeg_input_args)
      then none
      else some args

  retry_without : Request → Failure → Option (List String) → St W (Result Failure String)
  unfolding without_logs
  retry_without req f none = return (err f)
  retry_without req f (some args) = do
    docker ("rm" ∷ "-f" ∷ req.name ∷ [])
    second ← start_container req args
    return (without_logs second)

  after_start : Request → Started → St W (Result Failure String)
  unfolding retry_without fallback_input_args
  after_start req (ok id) = return (ok id)
  after_start req (err (f, logs)) = retry_without req f (fallback_input_args logs)

  with_image : Request → Option Failure → St W (Result Failure String)
  unfolding after_start
  with_image req (some (plain e)) = return (err (plain ("ensure docker image: " <> e)))
  with_image req (some (start_error e)) = return (err (start_error e))
  with_image req none = do
    docker ("rm" ∷ "-f" ∷ req.name ∷ [])
    first ← start_container req m.ffmpeg_input_args
    after_start req first

  if_valid : Request → Option String → St W (Result Failure String)
  unfolding with_image
  if_valid req (some e) = return (err (plain e))
  if_valid req none = do image ← ensure_image; with_image req image

  -- Start
  unfoldable pub start : Request → St W (Result Failure String)
  unfolding if_valid
  start req =
      if req.name == ""
      then return (err (plain "container name required"))
      else if req.proxy_url == ""
      then return (err (plain "proxy url required"))
      else if req.srt_url == ""
      then return (err (plain "srt url required"))
      else if_valid req (validate_request url quote req)

  status_of : String → Output → Result Failure Status
  unfolding inspected
  status_of name o = elim (inspected name o) [
    | err f ↦ err f
    | ok (state, exit_code, error) ↦ elim (scan_int exit_code) [
      | none ↦
          err (
            plain
              ("inspect docker container " <> name <> ": invalid exit code " <> quote exit_code))
      | some n ↦ ok (record { state = state; exit_code = n; error = error })
    ]
  ]

  -- InspectStatus
  unfoldable pub inspect_status : String → St W (Result Failure Status)
  unfolding status_of
  inspect_status name =
      if name == ""
      then return (err (plain "container name required"))
      else do o ← docker (inspect_args name); return (status_of name o)

  -- Stop
  unfoldable pub stop : String → St W (Option Failure)
  unfolding message
  stop name = if name == "" then return (some (plain "container name required")) else do
    o ← docker ("rm" ∷ "-f" ∷ name ∷ [])
    return
        (if has_failed o then some (plain ("remove docker container: " <> message o "")) else none)
