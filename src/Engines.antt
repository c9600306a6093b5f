-- ===== src/Engines.antt =====
-- internal/engines: the post-processors of the cameras' events.
pub mod Isolation
use Prim.Native.String
use cam_bus.Base.{
  ℕ, Bool, true, false, String, Option, none, some, List, [], ◌∷◌, ◌++◌, map, ◌==◌, ◌||◌, ◌&&◌, not,
  any, keep, if◌then◌else◌,
}
use cam_bus.Base.Int.{ℤ, pos, is_positive}
use cam_bus.Base.Str.{trim_space, to_lower, split, is_empty}
use cam_bus.Base.Str.Decimal.{atoi}
use cam_bus.Core.{AnalyticEvent}
use cam_bus.Uplink.Env.{Env}

-- What a call of `Process` ends with: the derived events, an error, or a panic.
pub data Outcome : Type 0 where
  derived : List AnalyticEvent → Outcome
  failed : String → Outcome
  panicked : Outcome

-- Engine. `process` acts on the world `W`; the timeout of its context is not modelled. An event is a
-- value: what an engine writes into the event's Meta map does not reach the engines after it, to which
-- the source hands the same map.
pub record Engine (W : Type 0) : Type 0 where
  pub name : String
  pub enabled : Bool
  pub process : AnalyticEvent → W → Outcome × W

-- PlateStub
unfoldable pub plate_stub : {W : Type 0} → Engine W
plate_stub = record { name = "plater"; enabled = true; process = λ evt w. (derived [], w) }

abbrev pub find_face_outcome : Option String × Option AnalyticEvent → Outcome
find_face_outcome (some e, _) = failed e
find_face_outcome (none, none) = derived []
find_face_outcome (none, some evt) = derived (evt ∷ [])

-- FindFaceEngine over `ProcessFaceCapture` of the face engine, whose error and event are given
unfoldable pub find_face_engine :
    {W : Type 0} → (AnalyticEvent → W → (Option String × Option AnalyticEvent) × W) → Engine W
find_face_engine capture = record {
  name = "findface";
  enabled = true;
  process = λ evt w. let (r, w') = capture evt w in (find_face_outcome r, w');
}

-- parseCSV
unfoldable pub parse_csv : String → List String
parse_csv v =
    let trimmed = trim_space v in
    if trimmed == "" then [] else keep (λ s. not (is_empty s)) (map trim_space (split b',' trimmed))

abbrev positive_or : ℤ → Option ℤ → ℤ
positive_or def none = def
positive_or def (some sec) = if is_positive sec then sec else def

-- envDurationSeconds, in seconds
unfoldable pub env_duration_seconds : Env → String → ℤ → ℤ
env_duration_seconds env key def =
    let v = trim_space (env key) in if v == "" then def else positive_or def (atoi v)

-- Manager
pub record Manager (W : Type 0) : Type 0 where
  pub engines : List (Engine W)
  pub per_engine_timeout : ℤ

abbrev pub keep_derived : Outcome → List AnalyticEvent
keep_derived (derived evts) = evts
keep_derived (failed _) = []
keep_derived panicked = []

-- the names of the engines to load
unfoldable pub engine_names : Env → List String
engine_names env =
    let fe = to_lower (trim_space (env "FACE_ENGINE")) in
    elim (parse_csv (env "ENGINES")) [
      | [] ↦ if fe == "" || fe == "none" then [] else fe ∷ []
      | n ∷ ns ↦ n ∷ ns
    ]

module _ {W : Type 0} where
  unfoldable pub some_enabled : Option (Engine W) → List (Engine W) → List (Engine W)
  some_enabled none rest = rest
  some_enabled (some e) rest = if e.enabled then e ∷ rest else rest

  -- the filter of `NewManager`; `none` is a nil engine
  unfoldable pub enabled_engines : List (Option (Engine W)) → List (Engine W)
  unfolding some_enabled
  enabled_engines [] = []
  enabled_engines (e ∷ es) = some_enabled e (enabled_engines es)

  -- NewManager
  unfoldable pub new_manager : List (Option (Engine W)) → ℤ → Manager W
  unfolding enabled_engines
  new_manager es timeout = record {
    engines = enabled_engines es;
    per_engine_timeout = if is_positive timeout then timeout else pos 10;
  }

  -- Enabled
  unfoldable pub is_enabled : Manager W → Bool
  is_enabled m = elim m.engines [ [] ↦ false | _ ∷ _ ↦ true ]

  -- Names
  unfoldable pub names : Manager W → List String
  names m = map (λ e. e.name) m.engines

  -- Has
  unfoldable pub has : Manager W → String → Bool
  has m name = any (λ e. to_lower e.name == to_lower (trim_space name)) m.engines

  -- the loop of `ProcessAll`
  unfoldable pub process_each : List (Engine W) → AnalyticEvent → W → List AnalyticEvent × W
  process_each [] evt w = ([], w)
  process_each (e ∷ es) evt w =
      let skip = process_each es evt w in
      let (r, w') = e.process evt w in
      let (rest, w'') = process_each es evt w' in
      if e.enabled then (keep_derived r ++ rest, w'') else skip

  -- ProcessAll, which returns no error
  unfoldable pub process_all : Manager W → AnalyticEvent → W → List AnalyticEvent × W
  unfolding process_each
  process_all m = process_each m.engines

  -- the engine of one name of the list; `find_face` is what `NewFindFaceFromEnv` returns
  unfoldable pub engine_named : Option (Engine W) → String → Option (Engine W)
  engine_named find_face n =
      let lower = to_lower n in
      if lower == "findface"
      then find_face
      else if lower == "plater" || lower == "plate" || lower == "lpr"
      then some plate_stub
      else none

  -- LoadFromEnv
  unfoldable pub load_from_env : Option (Engine W) → Env → Manager W
  unfolding engine_named engine_names
  load_from_env find_face env =
      new_manager (map (engine_named find_face) (engine_names env))
        (env_duration_seconds env "ENGINE_TIMEOUT_SECONDS" (pos 10))
