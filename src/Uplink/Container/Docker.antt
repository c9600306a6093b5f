-- ===== src/Uplink/Container/Docker.antt =====
-- internal/uplink/container/manager.go: how the `docker` program is run.
use cam_bus.Base.{
  Bool, true, false, String, ◌<>◌, Option, none, some, List, [], ◌∷◌, ◌++◌, ◌==◌, ◌&&◌,
  if◌then◌else◌,
}
use cam_bus.Base.Str.{trim_space, contains}
use cam_bus.Base.State.{St, ◌>>=◌, return}
use cam_bus.Uplink.Container.Args.{Manager}

-- What a run of a program printed, and the message of its error if it failed.
pub record Output : Type 0 where
  pub out : String
  pub error : Option String

-- The operating system: `exec program arguments environment` runs a program, and `mkdir_all` tells
-- whether it made the directory.
pub record System (W : Type 0) : Type 0 where
  pub exec : String → List String → List String → St W Output
  pub mkdir_all : String → St W Bool

abbrev pub has_failed : Output → Bool
has_failed o = elim o.error [ none ↦ false | some _ ↦ true ]

module _ {W : Type 0} (sys : System W) (m : Manager) where
  -- runWithEnv
  unfoldable pub run_with_env : List String → List String → St W Output
  run_with_env args extra =
      sys.exec m.docker_bin args
        (if m.config_dir == "" then extra else extra ++ ("DOCKER_CONFIG=" <> m.config_dir) ∷ [])

  -- the error that `run` returns: the command's, with what it printed
  with_output : Output → Output
  with_output o = record {
    out = o.out;
    error = elim o.error [ none ↦ none | some e ↦ some (e <> ": " <> trim_space o.out) ];
  }

  -- the second run, with an own configuration directory; the first run's output if that fails too
  retry : List String → Output → Output → St W Output
  unfolding with_output
  retry args first second w = (if has_failed second then with_output first else second, w)

  fallback_dir : String
  fallback_dir = "/tmp/cam-bus-docker-config"

  after_mkdir : List String → Output → Bool → St W Output
  unfolding retry fallback_dir run_with_env with_output
  after_mkdir args first false = return (with_output first)
  after_mkdir args first true = do
    second ← run_with_env args (("DOCKER_CONFIG=" <> fallback_dir) ∷ [])
    retry args first second

  -- run
  unfoldable pub run : List String → St W Output
  unfolding after_mkdir
  run args = do
    first ← run_with_env args []
    (if has_failed first && m.config_dir == "" && contains first.out "error getting credentials"
        then (do made ← sys.mkdir_all fallback_dir; after_mkdir args first made)
        else return (with_output first))
