-- ===== src/FindFace/Calls.antt =====
-- internal/findface/client.go: the calls of FindFace's HTTP interface.
use cam_bus.Base.{
  ℕ, String, ◌<>◌, Option, none, some, Result, ok, err, List, [], ◌∷◌, ◌++◌, ◌==◌, ◌||◌, nat_eq,
  if◌then◌else◌,
}
use cam_bus.Base.Int.{ℤ, pos, int_eq}
use cam_bus.Base.Json.{Value}
use cam_bus.Base.State.{St}
use cam_bus.Base.Str.{trim_space}
use cam_bus.Base.Str.Decimal.{show_int}
use cam_bus.FindFace.{
  Client, Bytes, CreateFaceEventResponse, FaceEvent, Card, FaceObject,
  parse_create_face_event_response,
}

-- A field of a multipart form.
pub data FormField : Type 0 where
  file : String → String → Bytes → FormField
  field : String → String → FormField

-- A request, with "Accept: application/json"; a form is empty where no body is sent.
pub record Request : Type 0 where
  pub method : String
  pub url : String
  pub authorization : String
  pub form : List FormField

-- A response: its status, and what io.ReadAll returns of its body.
pub record Reply : Type 0 where
  pub status : ℕ
  pub body : Result String Bytes

pub record Lib : Type 0 where
  -- int64 of a float64
  pub int_of : String → ℤ
  pub text_of : Bytes → String
  -- time.RFC3339 of a time
  pub rfc3339 : ℕ → String
  -- filepath.Base
  pub base_name : String → String
  -- the error of http.NewRequestWithContext
  pub request_error : Request → Option String
  -- url.Parse of an address and `Set` of the pairs in its query
  pub with_query : String → List (String × String) → Result String String
  -- json.Unmarshal, of the field "results" where the answer is an envelope
  pub decode : Bytes → Option Value
  pub decode_events : Bytes → Result String (List FaceEvent)
  pub decode_card : Bytes → Result String Card
  pub decode_objects : Bytes → Result String (List FaceObject)

pub record Http (W : Type 0) : Type 0 where
  pub send : Request → St W (Result String Reply)
  pub now : St W ℕ
  -- os.Open, then what is copied
  pub open_file : String → St W (Result String (Result String Bytes))

-- the fields of a new event
unfoldable pub event_form : Lib → Client → String → Bytes → ℕ → List FormField
event_form lib c filename img time =
    let camera : List FormField =
      if int_eq c.camera_id (pos 0) then [] else field "camera" (show_int c.camera_id) ∷ [] in
    (file "fullframe" filename img ∷ field "token" c.events_token ∷ [])
    ++ (camera ++ (field "mf_selector" "biggest" ∷ field "timestamp" (lib.rfc3339 time) ∷ []))

unfoldable pub event_request : Lib → Client → String → Bytes → ℕ → Request
unfolding event_form
event_request lib c filename img time = record {
  method = "POST";
  url = c.base_url <> "/events/faces/add/";
  authorization = "Token " <> c.api_token;
  form = event_form lib c filename img time;
}

unfoldable pub get_request : Client → String → Request
get_request c url = record {
  method = "GET";
  url = url;
  authorization = "Token " <> c.api_token;
  form = [];
}

-- The error of a status, with the body that was read.
abbrev pub status_error {ℓ} : {A : Type ℓ} → Lib → String → Reply → Bytes → Result String A
status_error lib name reply body =
    err (name <> " status " <> show_int (pos reply.status) <> ": " <> lib.text_of body)

-- the answer to a new event
unfoldable pub created : Lib → Result String Reply → Result String CreateFaceEventResponse
created lib (err e) = err ("erro ao chamar faces/add: " <> e)
created lib (ok reply) = elim reply.body [
  | err e ↦ err ("erro ao ler resposta faces/add: " <> e)
  | ok body ↦
      if nat_eq reply.status 200 || nat_eq reply.status 201
      then ok (parse_create_face_event_response lib.int_of lib.decode body)
      else status_error lib "faces/add" reply body
]

-- the body of the answer to a query of this name, which must have status 200
unfoldable pub answered : Lib → String → Result String Reply → Result String Bytes
answered lib name (err e) = err ("erro ao chamar " <> name <> ": " <> e)
answered lib name (ok reply) = elim reply.body [
  | err e ↦ err ("erro ao ler resposta " <> name <> ": " <> e)
  | ok body ↦ if nat_eq reply.status 200 then ok body else status_error lib name reply body
]

unfoldable pub undecoded {ℓ} : {A : Type ℓ} → Lib → String → Bytes → String → Result String A
undecoded lib name body e =
    err ("erro ao parsear JSON " <> name <> ": " <> e <> " (body=" <> lib.text_of body <> ")")

-- the event of an answer, which must hold one
unfoldable pub first_event : Lib → String → Result String Bytes → Result String FaceEvent
unfolding undecoded
first_event lib event_id (err e) = err e
first_event lib event_id (ok body) = elim (lib.decode_events body) [
  | err e ↦ undecoded lib "GetFaceEvent" body e
  | ok (event ∷ _) ↦ ok event
  | ok [] ↦ err (
      "GetFaceEvent: nenhum evento encontrado com id_in="
      <> event_id
      <> " (body="
      <> lib.text_of body
      <> ")")
]

unfoldable pub card_in : Lib → Result String Bytes → Result String Card
unfolding undecoded
card_in lib (err e) = err e
card_in lib (ok body) = elim (lib.decode_card body) [
  | err e ↦ undecoded lib "GetCard" body e
  | ok card ↦ ok card
]

-- the object of an answer, which may hold none
unfoldable pub first_object : Lib → Result String Bytes → Result String (Option FaceObject)
unfolding undecoded
first_object lib (err e) = err e
first_object lib (ok body) = elim (lib.decode_objects body) [
  | err e ↦ undecoded lib "GetFaceObjectForCard" body e
  | ok [] ↦ ok none
  | ok (face ∷ _) ↦ ok (some face)
]

module _ {W : Type 0} (lib : Lib) (http : Http W) (c : Client) where
  -- http.NewRequestWithContext and (*http.Client).Do; `name` stands in the error of the former
  unfoldable pub send_checked : String → Request → W → Result String (Result String Reply) × W
  send_checked name req w = elim (lib.request_error req) [
    | some e ↦ (err (name <> ": " <> e), w)
    | none ↦ (let (r, w') = http.send req w in (ok r, w'))
  ]

  -- what follows once the image is there
  unfoldable pub create_face_event : String → Bytes → W → Result String CreateFaceEventResponse × W
  unfolding send_checked created event_request
  create_face_event filename img w =
      let (time, w₁) = http.now w in
      let (r, w₂) =
        send_checked "erro ao criar request" (event_request lib c filename img time) w₁ in
      (elim r [ err e ↦ err e | ok answer ↦ created lib answer ], w₂)

  -- CreateFaceEventFromBytes
  unfoldable pub create_face_event_from_bytes :
      Bytes → String → W → Result String CreateFaceEventResponse × W
  unfolding create_face_event
  create_face_event_from_bytes [] filename w = (err "imagem vazia", w)
  create_face_event_from_bytes (b ∷ bs) filename w =
      create_face_event (if filename == "" then "snapshot.jpg" else filename) (b ∷ bs) w

  -- CreateFaceEventFromFile
  unfoldable pub create_face_event_from_file :
      String → W → Result String CreateFaceEventResponse × W
  unfolding create_face_event
  create_face_event_from_file path w =
      let (r, w') = http.open_file path w in
      elim r [
        | err e ↦ (err ("erro ao abrir arquivo " <> path <> ": " <> e), w')
        | ok (err e) ↦ (err ("erro ao copiar arquivo para multipart: " <> e), w')
        | ok (ok img) ↦ create_face_event (lib.base_name path) img w'
      ]

  -- a query of this name
  unfoldable pub query : String → String → W → Result String Bytes × W
  unfolding send_checked answered get_request
  query name url w =
      let (r, w') = send_checked ("erro ao criar request " <> name) (get_request c url) w in
      (elim r [ err e ↦ err e | ok answer ↦ answered lib name answer ], w')

  -- GetFaceEvent
  unfoldable pub get_face_event : String → W → Result String FaceEvent × W
  unfolding query first_event
  get_face_event event_id w =
      if trim_space event_id == ""
      then (err "eventID vazio", w)
      else (elim (lib.with_query (c.base_url <> "/events/faces/")
          (("id_in", event_id) ∷ ("limit", "1") ∷ [])) [
            | err e ↦ (err ("url inválida base: " <> e), w)
            | ok url ↦
                (let (r, w') = query "GetFaceEvent" url w in (first_event lib event_id r, w'))
          ])

  -- GetCard
  unfoldable pub get_card : ℤ → W → Result String Card × W
  unfolding query card_in
  get_card card_id w =
      let url = c.base_url <> "/cards/humans/" <> show_int card_id <> "/" in
      let (r, w') = query "GetCard" url w in (card_in lib r, w')

  -- GetFaceObjectForCard
  unfoldable pub get_face_object_for_card : ℤ → W → Result String (Option FaceObject) × W
  unfolding query first_object
  get_face_object_for_card card_id w =
      elim (lib.with_query (c.base_url <> "/objects/faces/")
        (("card", show_int card_id) ∷ ("limit", "1") ∷ ("ordering", "-created_date") ∷ [])) [
          | err e ↦ (err ("url inválida base objects/faces: " <> e), w)
          | ok url ↦ (let (r, w') = query "GetFaceObjectForCard" url w in (first_object lib r, w'))
        ]
