-- ===== src/Tests/Addresses.antt =====
-- Runs of the SRT addresses and of the containers.
use mathlib.Core.List.{head?}
use cam_bus.Base.{
  ℕ, ◌≤◌, ◌<◌, Bool, true, false, String, ◌<>◌, Option, none, some, Result, ok, err, List, [], ◌∷◌,
  ◌≡◌, ◌≢◌, refl, arith, length, Distinct, ◌&&◌,
}
use cam_bus.Base.Int.{pos, is_positive}
use cam_bus.Base.Str.{contains, trim_space, trim_slashes}
use cam_bus.Uplink.Env.{getenv_bool}
use cam_bus.Uplink.Srt.Options.{
  SrtQueryOptions, no_options, with_srt_defaults, srt_options_equal, srt_option_candidates,
  srt_options_from_env,
}
use cam_bus.Uplink.Srt.Options.Laws.{srt_option_candidates-Distinct}
use cam_bus.Uplink.Srt.Host.{normalize_srt_inputs, split_host_port, normalize_srt_inputs_ok}
use cam_bus.Uplink.Srt.Candidates.{build_srt_url_candidates, is_valid_srt_url, mem}
use cam_bus.Uplink.Srt.Candidates.Laws.{build_srt_url_candidates_lem, DistinctUrls, of_some}
use cam_bus.Uplink.Container.Args.{remove_option_with_value}
use cam_bus.Uplink.Container.Args
use cam_bus.Uplink.Container.Args.Laws.{remove_option_with_value_lem, has}
use cam_bus.Uplink.Container.Docker.{System, Output}
use cam_bus.Uplink.Container.Start
use cam_bus.Uplink.Container.Start.Laws.{start_has_identity}
use cam_bus.Base.Dict.{lookup}
use cam_bus.Tests.Fixtures.{Log, url_lib, no_env}

-- the host and the path that the inputs below are accepted with
abbrev given_host : String
given_host = "central"

abbrev given_path : String
given_path = "hq/gate"

accepted :
    normalize_srt_inputs url_lib " central " (pos 8890) "/hq/gate/"
    ≡ ok (given_host, pos 8890, given_path)
unfolding normalize_srt_inputs trim_space trim_slashes contains split_host_port
    cam_bus.Uplink.Srt.Host.before_slash
accepted = refl

normalize_srt_inputs_ok_example :
    (given_host ≢ "")
    × (is_positive (pos 8890) ≡ true)
    × (given_path ≡ trim_slashes (trim_space "/hq/gate/"))
    × (given_path ≢ "")
normalize_srt_inputs_ok_example =
    normalize_srt_inputs_ok url_lib " central " (pos 8890) "/hq/gate/" accepted

abbrev built_urls : List String
built_urls =
    "srt://central:8890?latency=200&mode=caller&pkt_size=1316&transtype=live&streamid=publish:hq/gate"
    ∷ ("srt://central:8890?latency=200&mode=caller&pkt_size=1316&streamid=publish%3Ahq%2Fgate&transtype=live"
        ∷ [])

built : build_srt_url_candidates url_lib no_env " central " (pos 8890) "/hq/gate/" ≡ ok built_urls
unfolding build_srt_url_candidates normalize_srt_inputs trim_space trim_slashes contains
    split_host_port cam_bus.Uplink.Srt.Host.before_slash srt_option_candidates getenv_bool
    srt_options_equal cam_bus.Uplink.Srt.Options.stripped_of with_srt_defaults srt_options_from_env
    cam_bus.Uplink.Srt.Options.srt_profile_from_env cam_bus.Base.Str.to_lower
    cam_bus.Uplink.Srt.Options.srt_options_from_custom_env cam_bus.Uplink.Env.getenv_int
    cam_bus.Uplink.Srt.Options.default_latency_of
    cam_bus.Uplink.Srt.Candidates.build_srt_url_variants cam_bus.Base.Dict.erase
    cam_bus.Base.Dict.insert cam_bus.Base.Dict.lookup cam_bus.Base.Str.Decimal.atoi
    cam_bus.Base.Str.Decimal.scan_int cam_bus.Base.Str.Decimal.show_int
    cam_bus.Base.Str.Decimal.show_nat cam_bus.Base.Str.is_space cam_bus.Base.Str.lower_char
    cam_bus.Base.Str.trim_by cam_bus.Base.Str.trim_left_by cam_bus.Base.Str.trim_right_by
    cam_bus.Uplink.Env.bool_word cam_bus.Uplink.Srt.Candidates.add_all
    cam_bus.Uplink.Srt.Candidates.add_candidate cam_bus.Uplink.Srt.Candidates.add_options
    cam_bus.Uplink.Srt.Candidates.get_first cam_bus.Uplink.Srt.Candidates.is_safe_char
    cam_bus.Uplink.Srt.Candidates.is_safe_raw_stream_id is_valid_srt_url
    cam_bus.Uplink.Srt.Candidates.stream_id_for_path cam_bus.Uplink.Srt.Host.parse_port
    cam_bus.Uplink.Srt.Options.apply_srt_aux_env cam_bus.Uplink.Srt.Options.compat_of
    cam_bus.Uplink.Srt.Options.srt_options_for_profile cam_bus.Uplink.Srt.Query.apply_extra_params
    cam_bus.Uplink.Srt.Query.apply_srt_query_options cam_bus.Uplink.Srt.Query.build_srt_query_values
    cam_bus.Uplink.Srt.Query.build_srt_query_with_raw_stream_id
    cam_bus.Uplink.Srt.Query.build_srt_url cam_bus.Uplink.Srt.Query.encode
    cam_bus.Uplink.Srt.Query.is_unreserved cam_bus.Uplink.Srt.Query.query_escape
    cam_bus.Uplink.Srt.Query.set_nonempty cam_bus.Uplink.Srt.Query.set_positive
built = refl

build_srt_url_candidates_lem_example :
    let sets =
      srt_option_candidates
        (getenv_bool no_env "UPLINK_SRT_COMPAT_PROFILE" false)
        (srt_options_from_env no_env) in
    (built_urls ≢ [])
    × DistinctUrls built_urls
    × ((u : String)
        → mem u built_urls
          ≡ (is_valid_srt_url url_lib u && of_some url_lib given_host (pos 8890) given_path u sets))
build_srt_url_candidates_lem_example =
    build_srt_url_candidates_lem url_lib no_env " central " (pos 8890) "/hq/gate/" accepted built

srt_option_candidates-Distinct_example :
    let cs = srt_option_candidates true no_options in
    Distinct srt_options_equal cs
    × (head? cs ≡ some (with_srt_defaults no_options))
    × (length cs ≤ 4)
srt_option_candidates-Distinct_example = srt_option_candidates-Distinct true no_options

remove_option_with_value_lem_example :
    let args : List String = "-rtsp_transport" ∷ ("tcp" ∷ ("-stimeout" ∷ ("5000000" ∷ []))) in
    let rest = remove_option_with_value args "-stimeout" in
    (has "-stimeout" rest ≡ false)
    × (has "-stimeout" args ≡ false → rest ≡ args)
    × (has "-stimeout" args ≡ true → length rest < length args)
remove_option_with_value_lem_example =
    remove_option_with_value_lem ("-rtsp_transport" ∷ ("tcp" ∷ ("-stimeout" ∷ ("5000000" ∷ []))))
      "-stimeout"

-- a docker that starts every container
abbrev docker_system : System Log
docker_system = record {
  exec = λ program args extra w. (record { out = "running|0|"; error = none }, program ∷ w);
  mkdir_all = λ dir w. (true, w);
}

abbrev docker_manager : Args.Manager
docker_manager = record {
  docker_bin = "docker";
  image = "srt:1";
  config_dir = "";
  build_context = "";
  dockerfile = "";
  ffmpeg_global_args = [];
  ffmpeg_input_args = [];
  ffmpeg_output_args = [];
}

abbrev container_request : Args.Request
container_request = record {
  name = "cam-bus-uplink-gate";
  proxy_url = "rtsp://localhost:8554/gate";
  srt_url = "srt://central:8890?streamid=publish:gate";
}

abbrev started_id : String
started_id = "running|0|"

container_starts :
    (Start.start docker_system url_lib (λ s. s) docker_manager container_request []).0
    ≡ ok started_id
unfolding Start.start Args.validate_request cam_bus.Base.Str.to_lower Start.ensure_image
    cam_bus.Uplink.Container.Docker.run_with_env Start.start_container
    cam_bus.Uplink.Container.Docker.run trim_space Start.inspect_state cam_bus.Base.Str.split
container_starts = refl

start_has_identity_example : started_id ≢ ""
start_has_identity_example =
    start_has_identity docker_system url_lib (λ s. s) docker_manager container_request []
      container_starts
