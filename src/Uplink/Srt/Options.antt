-- ===== src/Uplink/Srt/Options.antt =====
-- internal/uplink/srt.go: the SRT parameters, their profiles, and the sets that are tried in turn.
pub mod Laws
use cam_bus.Base.{
  ℕ, Bool, true, false, String, Option, none, some, List, [], ◌∷◌, ◌++◌, ◌==◌, ◌&&◌, not,
  if◌then◌else◌, any,
}
use cam_bus.Base.Int.{ℤ, pos, int_eq}
use cam_bus.Base.Str.{trim_space, to_lower}
use cam_bus.Uplink.Env.{Env, getenv_int, getenv_bool}

-- SRTQueryOptions
pub record SrtQueryOptions : Type 0 where
  pub latency : ℤ
  pub packet_size : ℤ
  pub max_bw : ℤ
  pub rcv_buf : ℤ
  pub passphrase : String
  pub pb_key_len : ℤ
  pub peer_latency : ℤ
  pub rcv_latency : ℤ
  pub conn_timeout : ℤ
  pub snd_buf : ℤ
  pub input_bw : ℤ
  pub ohead_bw : ℤ
  pub tl_pkt_drop : Bool
  pub extra_params : String

-- SRTQueryOptions{}
abbrev pub no_options : SrtQueryOptions
no_options = record {
  latency = pos 0;
  packet_size = pos 0;
  max_bw = pos 0;
  rcv_buf = pos 0;
  passphrase = "";
  pb_key_len = pos 0;
  peer_latency = pos 0;
  rcv_latency = pos 0;
  conn_timeout = pos 0;
  snd_buf = pos 0;
  input_bw = pos 0;
  ohead_bw = pos 0;
  tl_pkt_drop = false;
  extra_params = "";
}

abbrev pub default_srt_packet_size : ℤ
default_srt_packet_size = pos 1316

abbrev pub default_srt_latency_ms : ℤ
default_srt_latency_ms = pos 200

-- srtOptionsFromCustomEnv
unfoldable pub srt_options_from_custom_env : Env → SrtQueryOptions
srt_options_from_custom_env env = record {
  latency = getenv_int env "UPLINK_SRT_LATENCY" (pos 0);
  packet_size = getenv_int env "UPLINK_SRT_PACKET_SIZE" (pos 0);
  max_bw = getenv_int env "UPLINK_SRT_MAXBW" (pos 0);
  rcv_buf = getenv_int env "UPLINK_SRT_RCVBUF" (pos 0);
  passphrase = trim_space (env "UPLINK_SRT_PASSPHRASE");
  pb_key_len = getenv_int env "UPLINK_SRT_PBKEYLEN" (pos 0);
  peer_latency = getenv_int env "UPLINK_SRT_PEERLATENCY" (pos 0);
  rcv_latency = getenv_int env "UPLINK_SRT_RCVLATENCY" (pos 0);
  conn_timeout = getenv_int env "UPLINK_SRT_CONNTIMEO" (pos 0);
  snd_buf = getenv_int env "UPLINK_SRT_SNDBUF" (pos 0);
  input_bw = getenv_int env "UPLINK_SRT_INPUTBW" (pos 0);
  ohead_bw = getenv_int env "UPLINK_SRT_OHEADBW" (pos 0);
  tl_pkt_drop = getenv_bool env "UPLINK_SRT_TLPKTDROP" false;
  extra_params = trim_space (env "UPLINK_SRT_EXTRA_PARAMS");
}

-- srtOptionsForProfile
unfoldable pub srt_options_for_profile : String → Option SrtQueryOptions
srt_options_for_profile profile =
    if profile == "latency"
    then some (record no_options {
      latency = pos 80;
      packet_size = default_srt_packet_size;
      rcv_buf = pos 2_097_152;
    })
    else if profile == "balanced"
    then some (record no_options {
      latency = default_srt_latency_ms;
      packet_size = default_srt_packet_size;
    })
    else if profile == "quality"
    then some (record no_options {
      latency = pos 400;
      packet_size = default_srt_packet_size;
      max_bw = pos 8_000_000;
      rcv_buf = pos 8_388_608;
    })
    else none

-- applySRTAuxEnv
unfoldable pub apply_srt_aux_env : Env → SrtQueryOptions → SrtQueryOptions
apply_srt_aux_env env opts = record opts {
  passphrase = trim_space (env "UPLINK_SRT_PASSPHRASE");
  pb_key_len = getenv_int env "UPLINK_SRT_PBKEYLEN" (pos 0);
}

-- srtProfileFromEnv
unfoldable pub srt_profile_from_env : Env → String
srt_profile_from_env env =
    let value = to_lower (trim_space (env "UPLINK_SRT_PROFILE")) in
    if value == "" then "custom" else value

abbrev profile_or_custom : Env → Option SrtQueryOptions → SrtQueryOptions
profile_or_custom env none = srt_options_from_custom_env env
profile_or_custom env (some opts) = apply_srt_aux_env env opts

-- srtOptionsFromEnv
unfoldable pub srt_options_from_env : Env → SrtQueryOptions
srt_options_from_env env =
    let profile = srt_profile_from_env env in
    if profile == "custom"
    then srt_options_from_custom_env env
    else profile_or_custom env (srt_options_for_profile profile)

-- withSRTDefaults
unfoldable pub with_srt_defaults : SrtQueryOptions → SrtQueryOptions
with_srt_defaults opts = record opts {
  latency = if int_eq opts.latency (pos 0) then default_srt_latency_ms else opts.latency;
  packet_size =
      if int_eq opts.packet_size (pos 0) then default_srt_packet_size else opts.packet_size;
}

abbrev bool_eq : Bool → Bool → Bool
bool_eq true b = b
bool_eq false b = not b

-- srtOptionsEqual
unfoldable pub srt_options_equal : SrtQueryOptions → SrtQueryOptions → Bool
srt_options_equal a b =
    int_eq a.latency b.latency
    && int_eq a.packet_size b.packet_size
    && int_eq a.max_bw b.max_bw
    && int_eq a.rcv_buf b.rcv_buf
    && a.passphrase == b.passphrase
    && int_eq a.pb_key_len b.pb_key_len
    && int_eq a.peer_latency b.peer_latency
    && int_eq a.rcv_latency b.rcv_latency
    && int_eq a.conn_timeout b.conn_timeout
    && int_eq a.snd_buf b.snd_buf
    && int_eq a.input_bw b.input_bw
    && int_eq a.ohead_bw b.ohead_bw
    && bool_eq a.tl_pkt_drop b.tl_pkt_drop
    && a.extra_params == b.extra_params

-- the parameter sets of `srtOptionCandidates` that are derived from the first
unfoldable pub stripped_of : SrtQueryOptions → SrtQueryOptions
stripped_of base = record base {
  peer_latency = pos 0;
  rcv_latency = pos 0;
  tl_pkt_drop = false;
  extra_params = "";
}

unfoldable pub default_latency_of : SrtQueryOptions → SrtQueryOptions
default_latency_of stripped = record stripped { latency = default_srt_latency_ms }

unfoldable pub compat_of : SrtQueryOptions → SrtQueryOptions
compat_of stripped = record stripped {
  latency = pos 80;
  peer_latency = pos 500;
  rcv_latency = pos 500;
  tl_pkt_drop = true;
}

abbrev if_new : Bool → SrtQueryOptions → List SrtQueryOptions
if_new true opts = []
if_new false opts = opts ∷ []

-- srtOptionCandidates, with the setting UPLINK_SRT_COMPAT_PROFILE
unfoldable pub srt_option_candidates : Bool → SrtQueryOptions → List SrtQueryOptions
srt_option_candidates compat_enabled given =
    let base = with_srt_defaults given in
    let stripped = stripped_of base in
    let default_latency = default_latency_of stripped in
    let compat = compat_of stripped in
    let candidates : List SrtQueryOptions =
      (base ∷ [])
      ++ (if_new (srt_options_equal stripped base) stripped
          ++ if_new (srt_options_equal default_latency stripped) default_latency) in
    if not compat_enabled
    then candidates
    else candidates
      ++ if_new (any (λ c. srt_options_equal compat c) (base ∷ stripped ∷ default_latency ∷ []))
          compat
