-- ===== src/MediaMtx/Api.antt =====
-- internal/mediamtx/config.go: the file of the configuration, the calls of the server's API and the
-- signal to its process.
pub mod Twice
use cam_bus.Base.{
  ℕ, Bool, true, false, String, ◌<>◌, Option, none, some, Result, ok, err, List, [], ◌==◌, ◌&&◌,
  ◌||◌, not, leb, ltb, if◌then◌else◌,
}
use cam_bus.Base.Int.{ℤ}
use cam_bus.Base.State.{St}
use cam_bus.Base.Str.{has_suffix}
use cam_bus.MediaMtx.Config.{Config}
use cam_bus.MediaMtx.Generator.{Generator}
use cam_bus.MediaMtx.Sync.{ApiRequest, Server, endpoint_of}

abbrev pub Bytes : Type 0
Bytes = List ℕ

-- The header "Authorization": a bearer token, or a user and a password.
pub data Authorization : Type 0 where
  bearer : String → Authorization
  basic : String → String → Authorization

-- A request; `body` is its JSON, where it has one, and then its type is "application/json".
pub record HttpRequest : Type 0 where
  pub method : String
  pub url : String
  pub authorization : Option Authorization
  pub body : Option Bytes

-- What is used of yaml, encoding/json, net/http, net/url, whose addresses are `Url`, and reflect.
pub record Lib (Url : Type 0) : Type 0 where
  pub decode_config : Bytes → Option Config
  pub encode_config : Config → Result String Bytes
  -- json.Marshal of the payload of a request; `none` where that is nil
  pub payload : ApiRequest → Option (Result String Bytes)
  pub request_error : HttpRequest → Option String
  pub parse_url : String → Result String Url
  pub url_path : Url → String
  pub with_path : String → Url → Url
  pub resolve_reference : Url → Url → Url
  pub show_url : Url → String
  pub path_escape : String → String
  -- filepath.Dir and %q
  pub dir : String → String
  pub quote : String → String
  -- reflect.DeepEqual
  pub same : Config → Config → Bool

-- What acts on the outside. A response is its status, as a number and as a text.
pub record System (W : Type 0) : Type 0 where
  -- os.ReadFile; `none` is os.ErrNotExist
  pub read_file : String → St W (Result String (Option Bytes))
  pub mkdir_all : String → St W (Option String)
  pub write_file : String → Bytes → St W (Option String)
  pub find_process : ℤ → St W (Option String)
  pub signal_hup : ℤ → St W (Option String)
  pub send : HttpRequest → St W (Result String (ℕ × String))

-- The error, behind a text that says where it arose.
abbrev wrapped : String → Option String → Option String
wrapped context none = none
wrapped context (some e) = some (context <> e)

-- applyAPIAuth
unfoldable pub api_auth : Generator → Option Authorization
api_auth g =
    if not (g.reload_auth_token == "")
    then some (bearer g.reload_auth_token)
    else if not (g.reload_auth_user == "") || not (g.reload_auth_pass == "")
    then some (basic g.reload_auth_user g.reload_auth_pass)
    else none

-- the payload of a request as the body of an HTTP request
abbrev body_of : Option (Result String Bytes) → Result String (Option Bytes)
body_of none = ok none
body_of (some (ok bytes)) = ok (some bytes)
body_of (some (err e)) = err ("marshal request: " <> e)

module _ {Url : Type 0} (lib : Lib Url) (g : Generator) where
  -- buildAPIURL
  unfoldable pub build_api_url : String → Result String String
  build_api_url path = elim (lib.parse_url g.api_base_url) [
    | err e ↦ err e
    | ok base ↦ elim (lib.parse_url path) [
      | err e ↦ err e
      | ok rel ↦
          let base_path = lib.url_path base in
          let base' =
            if has_suffix base_path "/" then base else lib.with_path (base_path <> "/") base in
          ok (lib.show_url (lib.resolve_reference base' rel))
    ]
  ]

  -- the HTTP request that `doJSON` sends
  unfoldable pub http_request : ApiRequest → Result String HttpRequest
  unfolding build_api_url api_auth endpoint_of
  http_request req = elim (body_of (lib.payload req)) [
    | err e ↦ err e
    | ok body ↦
        (let (method, path) = endpoint_of lib.path_escape req in
          elim (build_api_url path) [
            | err e ↦ err ("build api url: " <> e)
            | ok url ↦
                let http : HttpRequest = record {
                  method = method;
                  url = url;
                  authorization = api_auth g;
                  body = body;
                } in
                elim (lib.request_error http) [
                  | some e ↦ err ("create request: " <> e)
                  | none ↦ ok http
                ]
          ])
  ]

  -- the error of an answer, if it is one
  unfoldable pub answer_error : Result String (ℕ × String) → Option String
  answer_error (err e) = some ("request mediamtx api: " <> e)
  answer_error (ok (status, text)) =
      if ltb status 200 || leb 300 status then some ("mediamtx api status " <> text) else none

  module _ {W : Type 0} (sys : System W) where
    -- doJSON
    unfoldable pub do_json : ApiRequest → W → Option String × W
    unfolding http_request answer_error
    do_json req w = elim (http_request req) [
      | err e ↦ (some e, w)
      | ok http ↦ (let (r, w') = sys.send http w in (answer_error r, w'))
    ]

    -- readExistingConfig
    unfoldable pub read_existing_config : W → Result String (Option Config) × W
    read_existing_config w =
        let (r, w') = sys.read_file g.path w in
        elim r [
          | err e ↦ (err ("read mediamtx config: " <> e), w')
          | ok none ↦ (ok none, w')
          | ok (some bytes) ↦ (ok (lib.decode_config bytes), w')
        ]

    -- writeFile
    unfoldable pub write_file : Bytes → W → Option String × W
    write_file bytes w =
        let (made, w₁) = sys.mkdir_all (lib.dir g.path) w in
        let (written, w₂) = sys.write_file g.path bytes w₁ in
        elim made [
          | some e ↦ (some ("create config dir: " <> e), w₁)
          | none ↦ (wrapped "write mediamtx config: " written, w₂)
        ]

    -- the part of `Sync` that writes the configuration, with marshalConfig
    unfoldable pub write_config : Config → W → Option String × W
    unfolding write_file
    write_config cfg w = elim (lib.encode_config cfg) [
      | err e ↦ (some ("marshal mediamtx config: " <> e), w)
      | ok bytes ↦ write_file bytes w
    ]

    -- reloadViaSignal
    unfoldable pub reload_via_signal : ℤ → W → Option String × W
    reload_via_signal pid w =
        let (found, w₁) = sys.find_process pid w in
        let (sent, w₂) = sys.signal_hup pid w₁ in
        elim found [
          | some e ↦ (some ("find mediamtx process: " <> e), w₁)
          | none ↦ (wrapped "signal mediamtx reload: " sent, w₂)
        ]

    -- What `Sync` uses, made of these.
    unfoldable pub server : Server W
    unfolding read_existing_config write_config do_json reload_via_signal
    server = record {
      read_config = read_existing_config;
      write_config = write_config;
      do_json = do_json;
      signal = reload_via_signal;
      same = lib.same;
      quote = lib.quote;
    }
