-- ===== src/Mqtt.antt =====
-- internal/mqttclient/mqttclient.go: the connection to the broker.
use cam_bus.Base.{
  ℕ, Bool, true, String, ◌<>◌, Option, none, some, Result, ok, err, List, ◌==◌, ◌&&◌, not,
  if◌then◌else◌,
}
use cam_bus.Base.Int.{ℤ, pos, is_positive}
use cam_bus.Base.State.{St}
use cam_bus.Base.Str.{trim_left_by, is_space, is_char}
use cam_bus.Base.Str.Decimal.{show_int, scan_int}
use cam_bus.Uplink.Env.{Env, getenv}

-- Config
pub record Config : Type 0 where
  pub host : String
  pub port : ℤ
  pub username : String
  pub password : String
  pub client_id : String

-- The options of the paho client; times are seconds.
pub record Options : Type 0 where
  pub broker : String
  pub client_id : String
  pub clean_session : Bool
  pub auto_reconnect : Bool
  pub connect_timeout : ℕ
  pub keep_alive : ℕ
  pub credentials : Option (String × String)

-- What is sent: topic, quality of service, whether it is retained, payload.
pub record Packet : Type 0 where
  pub topic : String
  pub qos : ℕ
  pub retained : Bool
  pub payload : List ℕ

-- The paho client. `connect` waits for ten seconds: `none` says that they passed.
pub record Paho (Connection W : Type 0) : Type 0 where
  pub connect : Options → St W (Connection × Option (Option String))
  pub publish : Connection → Packet → St W (Option String)
  pub subscribe : Connection → String → ℕ → (String → List ℕ → W → W) → St W (Option String)
  pub is_connected : Connection → St W Bool
  pub disconnect : Connection → ℕ → W → W

abbrev positive_or : ℤ → Option ℤ → ℤ
positive_or def none = def
positive_or def (some n) = if is_positive n then n else def

-- getenvInt: Sscanf skips spaces first, but no line feed
unfoldable pub getenv_int : Env → String → ℤ → ℤ
getenv_int env key def =
    if env key == ""
    then def
    else positive_or def (scan_int (trim_left_by (λ c. is_space c && not (is_char 10 c)) (env key)))

-- the settings of `NewClientFromEnv`
unfoldable pub config_from_env : Env → String → Config
unfolding getenv_int
config_from_env env default_client_id = record {
  host = getenv env "MQTT_HOST" "localhost";
  port = getenv_int env "MQTT_PORT" (pos 1883);
  username = env "MQTT_USERNAME";
  password = env "MQTT_PASSWORD";
  client_id = getenv env "MQTT_CLIENT_ID" default_client_id;
}

-- the options of `NewClient`
unfoldable pub options_of : Config → Options
options_of cfg = record {
  broker = "tcp://" <> cfg.host <> ":" <> show_int cfg.port;
  client_id = cfg.client_id;
  clean_session = true;
  auto_reconnect = true;
  connect_timeout = 5;
  keep_alive = 30;
  credentials = if cfg.username == "" then none else some (cfg.username, cfg.password);
}

-- Client; `none` is a nil client
pub record Client (Connection : Type 0) : Type 0 where
  pub client : Option Connection

module _ {Connection W : Type 0} (paho : Paho Connection W) where
  -- NewClient
  unfoldable pub new_client : Config → W → Result String (Client Connection) × W
  unfolding options_of
  new_client cfg w =
      let ((connection, outcome), w') = paho.connect (options_of cfg) w in
      elim outcome [
        | none ↦ (err "mqtt connect timeout", w')
        | some (some e) ↦ (err ("mqtt connect error: " <> e), w')
        | some none ↦ (ok (record { client = some connection }), w')
      ]

  -- NewClientFromEnv
  unfoldable pub new_client_from_env : Env → String → W → Result String (Client Connection) × W
  unfolding new_client config_from_env
  new_client_from_env env default_client_id = new_client (config_from_env env default_client_id)

  -- Close
  unfoldable pub close : Client Connection → W → W
  close c w = elim c.client [
    | none ↦ w
    | some connection ↦
        let (up, w') = paho.is_connected connection w in
        if up then paho.disconnect connection 250 w' else w'
  ]
