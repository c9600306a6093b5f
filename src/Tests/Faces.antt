-- ===== src/Tests/Faces.antt =====
-- Runs of the FindFace client and of the store of snapshots.
use cam_bus.Base.{
  ℕ, true, false, String, ◌<>◌, Option, none, some, ok, List, [], ◌∷◌, ◌≡◌, ◌≢◌, ◌↔◌, refl,
}
use cam_bus.Base.Int.{ℤ, pos}
use cam_bus.Base.Json.{find_member, no_members, member, str, float, array, no_values, value, object}
use cam_bus.Base.Str.{to_lower, trim_space, trim_suffix, trim_slashes, trim_prefix}
use cam_bus.Base.Str.Decimal.{show_int}
use cam_bus.FindFace.{
  Client, Card, get_card_name, get_card_photo_url, parse_create_face_event_response, extract_id,
  CreateFaceEventResponse,
}
use cam_bus.FindFace.Calls.{
  Lib, Http, event_request, create_face_event_from_bytes, create_face_event_from_file,
  get_face_event, get_card, get_face_object_for_card,
}
use cam_bus.Base.Dict.{Dict, insert, lookup}
use cam_bus.Core.{text, flag, number}
use cam_bus.FaceEngine as Face
use cam_bus.FaceEngine.{process_face_capture}
use cam_bus.FindFace.Engine.{engine_client, engine_keeps}
use cam_bus.Tests.Fixtures.{event_of_camera}
use cam_bus.FindFace.Creating.{Created, create_face_event_from_bytes-Created}
use cam_bus.FindFace.Names.{get_card_name_given}
use cam_bus.FindFace.Tokens.{KeepsCalls, calls_keep}
use cam_bus.Storage.{MinioStore, Minio, location, save_snapshot}

abbrev client : Client
client = record {
  base_url = "http://findface";
  api_token = "t1";
  events_token = "t2";
  camera_id = pos 4;
  name_field = "name";
}

-- The log of the tokens that requests carry.
abbrev Log : Type 0
Log = List String

abbrev card : Card
card = record {
  id = pos 7;
  name = some " Ana ";
  features = none;
  meta = some (member "photo" (str "http://photos/7") no_members);
}

abbrev lib : Lib
lib = record {
  int_of = λ _. pos 12;
  text_of = λ _. "";
  rfc3339 = λ _. "0001-01-01T00:00:00Z";
  base_name = λ s. s;
  request_error = λ _. none;
  with_query = λ url _. ok url;
  decode = λ _. some (object (member "id" (str "e9") no_members));
  decode_events = λ _. ok [];
  decode_card = λ _. ok card;
  decode_objects = λ _. ok [];
}

abbrev http : Http Log
http = record {
  send = λ req w. (ok (record { status = 201; body = ok (1 ∷ []) }), req.authorization ∷ w);
  now = λ w. (0, w);
  open_file = λ _ w. (ok (ok (255 ∷ [])), w);
}

-- Every token is the client's.
abbrev AllTokens : Log → Type 0
AllTokens [] = Unit
AllTokens (t ∷ w) = (t ≡ "Token t1") × AllTokens w

tokens_kept : KeepsCalls AllTokens http client
tokens_kept = record {
  send = λ req w signed p. (signed, p);
  now = λ w p. p;
  open_file = λ path w p. p;
}

calls_keep_example :
    ((img : List ℕ) (name : String)
      → AllTokens (create_face_event_from_bytes lib http client img name []).1)
    × ((path : String) → AllTokens (create_face_event_from_file lib http client path []).1)
    × ((id : String) → AllTokens (get_face_event lib http client id []).1)
    × ((id : ℤ) → AllTokens (get_card lib http client id []).1)
    × ((id : ℤ) → AllTokens (get_face_object_for_card lib http client id []).1)
calls_keep_example = calls_keep AllTokens http client lib tokens_kept [] tt

abbrev created_event : CreateFaceEventResponse
created_event = record { event_id = "e9"; raw_json = 1 ∷ [] }

create_face_event_from_bytes-Created_example :
    let request = event_request lib client "snapshot.jpg" (255 ∷ []) 0 in
    (create_face_event_from_bytes lib http client (255 ∷ []) "" []).0 ≡ ok created_event
    ↔ (let img : List ℕ = 255 ∷ [] in img ≢ [])
      × (lib.request_error request ≡ none)
      × Created lib (http.send request []).0 created_event
create_face_event_from_bytes-Created_example =
    create_face_event_from_bytes-Created lib http client (255 ∷ []) "" [] created_event

created_run : (create_face_event_from_bytes lib http client (255 ∷ []) "" []).0 ≡ ok created_event
unfolding create_face_event_from_bytes parse_create_face_event_response find_member
created_run = refl

get_card_name_given_example :
    (get_card_name client (some card) ≢ "")
    × ((s : String)
        → card.name ≡ some s
        → trim_space s ≢ ""
        → get_card_name client (some card) ≡ trim_space s)
get_card_name_given_example = get_card_name_given client card

named : get_card_name client (some card) ≡ "Ana"
unfolding get_card_name trim_space
named = refl

unnamed : get_card_name client (some (record card { name = some "  " })) ≡ "card-7"
unfolding get_card_name trim_space find_member show_int
unnamed = refl

photo : get_card_photo_url (some card) ≡ "http://photos/7"
unfolding get_card_photo_url trim_space find_member
photo = refl

-- An id in the list "events" is the last that is looked for.
listed_event :
    extract_id
      (λ _. pos 12)
      (object (member "events" (array (value (float "12") no_values)) no_members))
    ≡ "12"
unfolding extract_id find_member show_int
listed_event = refl

abbrev store : MinioStore
store = record {
  endpoint_host = "minio:9000";
  bucket = "snaps";
  prefix = "rtls";
  base_url = some ("/files/", λ path. "https://cdn" <> path);
  use_ssl = false;
}

abbrev minio : Minio Log
minio = record {
  new_client = λ endpoint _ _ _. ok endpoint;
  make_bucket = λ _ w. (none, w);
  bucket_exists = λ _ w. (ok true, w);
  set_bucket_policy = λ _ _ w. (none, w);
  put_object = λ bucket key _ _ w. (none, (bucket <> "/" <> key) ∷ w);
  parse_url = λ s. ok ("", λ path. s <> path);
}

saved :
    save_snapshot minio store "/hq/1.jpg" [] "" []
    ≡ (ok "https://cdn/files/rtls/hq/1.jpg", "snaps/rtls/hq/1.jpg" ∷ [])
unfolding save_snapshot trim_suffix trim_slashes trim_prefix
saved = refl

-- Servers that keep the objects of the store by their locations.
abbrev Objects : Type 0
Objects = Dict (List ℕ)

abbrev keeping : Minio Objects
keeping = record {
  new_client = λ endpoint _ _ _. ok endpoint;
  make_bucket = λ _ w. (none, w);
  bucket_exists = λ _ w. (ok true, w);
  set_bucket_policy = λ _ _ w. (none, w);
  put_object = λ bucket key bytes _ w. (none, insert (location store key) bytes w);
  parse_url = λ s. ok ("", λ path. s <> path);
}

abbrev get : String → String → Objects → Option (List ℕ)
get bucket key w = lookup (location store key) w

-- FindFace recognises the face of the card.
abbrev recognizing_lib : Lib
recognizing_lib = record lib {
  decode_events = λ _. ok (
      record {
        id = "e9";
        matched = true;
        matched_card = some (pos 7);
        matched_lists = [];
        confidence = "0.5";
        looks_like_conf = some "0.97";
        thumbnail = "";
        fullframe = "";
      }
      ∷ []);
}

abbrev accepting : Http Log
accepting = record http {
  send = λ req w. (ok (record { status = 200; body = ok (1 ∷ []) }), req.authorization ∷ w);
}

abbrev no_download : String → Log → List ℕ × Log
no_download url w = ([], w)

abbrev engine : Face.Client Log
engine = engine_client recognizing_lib accepting client (λ _. some (255 ∷ [])) no_download

-- The engine's calls of FindFace, one after another, and the event of the person.
recognized_run : process_face_capture engine event_of_camera [] ≡ (
  (
    none,
    some (record event_of_camera {
      analytic_type = "faceRecognized";
      meta =
          ("ff_event_id", text "e9")
          ∷ ("ff_matched", flag true)
          ∷ ("ff_card_id", number (pos 7))
          ∷ ("ff_person_name", text "Ana")
          ∷ ("ff_confidence", text "0.97")
          ∷ ("ff_person_photo_url", text "http://photos/7")
          ∷ [];
    }),
  ),
  "Token t1" ∷ "Token t1" ∷ "Token t1" ∷ "Token t1" ∷ [],
)
unfolding process_face_capture engine_client Face.is_face_type to_lower trim_space
    create_face_event_from_bytes parse_create_face_event_response find_member get_face_event
    get_face_object_for_card get_card get_card_photo_url insert get_card_name
recognized_run = refl

accepting_keeps : KeepsCalls AllTokens accepting client
accepting_keeps = record {
  send = λ req w signed p. (signed, p);
  now = λ w p. p;
  open_file = λ path w p. p;
}

engine_tokens : AllTokens (process_face_capture engine event_of_camera []).1
engine_tokens =
    engine_keeps recognizing_lib accepting client (λ _. some (255 ∷ [])) no_download AllTokens
      accepting_keeps (λ url w p. p) event_of_camera [] tt
