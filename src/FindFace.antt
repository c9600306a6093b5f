-- ===== src/FindFace.antt =====
-- internal/findface/client.go: the client of FindFace Multi, and what it reads from its answers.
pub mod Calls
pub mod Names
pub mod Creating
pub mod Tokens
pub mod Engine
use text.Mathlib.Text.{starts_with}
use cam_bus.Base.{
  ℕ, Bool, String, ◌<>◌, Option, none, some, Result, ok, err, List, [], ◌∷◌, ◌==◌, if◌then◌else◌,
}
use cam_bus.Base.Int.{ℤ}
use cam_bus.Base.Json.{
  Value, str, float, Values, no_values, value, Members, no_members, member, find_member, as_object,
  as_array, as_string, string_or_none,
}
use cam_bus.Base.Str.{trim_space, trim_right_by, is_char}
use cam_bus.Base.Str.Decimal.{show_int, atoi}
use cam_bus.Uplink.Env.{Env}

abbrev pub Bytes : Type 0
Bytes = List ℕ

-- Client
pub record Client : Type 0 where
  pub base_url : String
  pub api_token : String
  pub events_token : String
  pub camera_id : ℤ
  pub name_field : String

-- CreateFaceEventResponse
pub record CreateFaceEventResponse : Type 0 where
  pub event_id : String
  pub raw_json : Bytes

-- FaceEvent; a confidence is the text of its number
pub record FaceEvent : Type 0 where
  pub id : String
  pub matched : Bool
  pub matched_card : Option ℤ
  pub matched_lists : List ℤ
  pub confidence : String
  pub looks_like_conf : Option String
  pub thumbnail : String
  pub fullframe : String

-- Card. `none` is a nil map.
pub record Card : Type 0 where
  pub id : ℤ
  pub name : Option String
  pub features : Option Members
  pub meta : Option Members

-- FaceObject
pub record FaceObject : Type 0 where
  pub id : String
  pub card : ℤ
  pub thumbnail : String
  pub source_photo : String
  pub features : Option Members
  pub meta : Option Members

-- New
unfoldable pub new_client : String → String → String → ℤ → String → Client
new_client base_url api_token events_token camera_id name_field = record {
  base_url = trim_right_by (is_char b'/') base_url;
  api_token = api_token;
  events_token = events_token;
  camera_id = camera_id;
  name_field = if name_field == "" then "name" else name_field;
}

-- the API's token, under either of its names
unfoldable pub api_token_of : Env → String
api_token_of env =
    if env "FINDFACE_API_TOKEN" == ""
    then env "FINDFACE_EXTERNAL_TOKEN"
    else env "FINDFACE_API_TOKEN"

-- NewFromEnv; the error of strconv.Atoi is left out of the message
unfoldable pub new_from_env : (String → String) → Env → Result String Client
unfolding new_client api_token_of
new_from_env quote env =
    let camera = env "FINDFACE_CAMERA_ID" in
    let events = env "FINDFACE_EVENTS_TOKEN" in
    if env "FINDFACE_BASE_URL" == ""
    then err "FINDFACE_BASE_URL não definido"
    else if api_token_of env == ""
    then err "defina FINDFACE_API_TOKEN ou FINDFACE_EXTERNAL_TOKEN (token de API)"
    else if events == ""
    then err "FINDFACE_EVENTS_TOKEN não definido (token de criação de eventos do external detector)"
    else if camera == ""
    then err "FINDFACE_CAMERA_ID não definido"
    else elim (atoi camera) [
      | none ↦ err ("FINDFACE_CAMERA_ID inválido (" <> quote camera <> ")")
      | some id ↦ ok (
          new_client (env "FINDFACE_BASE_URL") (api_token_of env) events id
            (env "FINDFACE_NAME_FIELD"))
    ]

abbrev or_else : String → String → String
or_else s t = if s == "" then t else s

-- toStringID; `int_of` is int64 of a float64, the only number that encoding/json decodes
unfoldable pub to_string_id : (String → ℤ) → Option Value → String
to_string_id int_of (some (str s)) = s
to_string_id int_of (some (float x)) = show_int (int_of x)
to_string_id int_of _ = ""

abbrev members_of : Option Value → Members
members_of none = no_members
members_of (some v) = elim (as_object v) [ none ↦ no_members | some ms ↦ ms ]

abbrev first_of : Option Value → Option Value
first_of none = none
first_of (some v) = elim (as_array v) [
  | none ↦ none
  | some vs ↦ elim vs [ no_values ↦ none | value first _ ↦ some first ]
]

-- extractID
unfoldable pub extract_id : (String → ℤ) → Value → String
unfolding to_string_id
extract_id int_of v =
    let m = members_of (some v) in
    let first = members_of (first_of (find_member "results" m)) in
    or_else (to_string_id int_of (find_member "id" m)) (
      or_else (to_string_id int_of (find_member "event_id" m)) (
        or_else (to_string_id int_of (find_member "id" first))
          (to_string_id int_of (first_of (find_member "events" m)))))

-- parseCreateFaceEventResponse; `decode` is json.Unmarshal into an interface
unfoldable pub parse_create_face_event_response :
    (String → ℤ) → (Bytes → Option Value) → Bytes → CreateFaceEventResponse
unfolding extract_id
parse_create_face_event_response int_of decode [] = record { event_id = ""; raw_json = [] }
parse_create_face_event_response int_of decode (b ∷ bs) = elim (decode (b ∷ bs)) [
  | none ↦ record { event_id = ""; raw_json = b ∷ bs }
  | some v ↦ record { event_id = extract_id int_of v; raw_json = b ∷ bs }
]

-- A text that is not blank, trimmed.
unfoldable pub not_blank : Option String → Option String
not_blank none = none
not_blank (some s) = if trim_space s == "" then none else some (trim_space s)

abbrev text_member : Option Members → String → Option String
text_member none key = none
text_member (some ms) key = string_or_none (find_member key ms)

-- The first that is there.
unfoldable pub first_given : List (Option String) → Option String
first_given [] = none
first_given (none ∷ rest) = first_given rest
first_given (some s ∷ rest) = some s

-- the texts of a card under some keys, those of `features` before those of `meta` for each
unfoldable pub card_texts :
    (Option String → Option String) → Card → List String → List (Option String)
card_texts accept card [] = []
card_texts accept card (key ∷ keys) =
    accept (text_member card.features key)
    ∷ (accept (text_member card.meta key) ∷ card_texts accept card keys)

-- the names that a card may have, best first
unfoldable pub card_names : Client → Card → List (Option String)
unfolding not_blank card_texts
card_names c card =
    not_blank card.name
    ∷ ((if c.name_field == "" then none else not_blank (text_member card.features c.name_field))
        ∷ card_texts not_blank card ("name" ∷ "full_name" ∷ "fullname" ∷ "nome" ∷ []))

-- GetCardName
unfoldable pub get_card_name : Client → Option Card → String
unfolding first_given card_names
get_card_name c none = ""
get_card_name c (some card) = elim (first_given (card_names c card)) [
  | some name ↦ name
  | none ↦ "card-" <> show_int card.id
]

-- A text that looks like an address, trimmed.
unfoldable pub address : Option String → Option String
address none = none
address (some s) = if starts_with (trim_space s) "http" then some (trim_space s) else none

unfoldable pub addresses_in : Members → List (Option String)
unfolding address
addresses_in no_members = []
addresses_in (member _ v ms) = address (as_string v) ∷ addresses_in ms

abbrev or_no_members : Option Members → Members
or_no_members none = no_members
or_no_members (some ms) = ms

-- the keys of a photo's address
abbrev photo_keys : List String
photo_keys =
    "photo_url" ∷ "photo" ∷ "avatar" ∷ "image" ∷ "picture" ∷ "thumbnail" ∷ "thumb" ∷ "foto"
    ∷ "imagem" ∷ []

-- GetCardPhotoURL
unfoldable pub get_card_photo_url : Option Card → String
unfolding first_given card_texts addresses_in
get_card_photo_url none = ""
get_card_photo_url (some card) = elim (first_given (card_texts address card photo_keys)) [
  | some url ↦ url
  | none ↦ elim (first_given (addresses_in (or_no_members card.features))) [
    | some url ↦ url
    | none ↦ elim (first_given (addresses_in (or_no_members card.meta))) [
      | some url ↦ url
      | none ↦ ""
    ]
  ]
]
