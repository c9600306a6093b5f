-- ===== src/FindFace/Tokens.antt =====
-- internal/findface/client.go: which requests are sent.
use cam_bus.Base.{String, ◌<>◌, [], ◌∷◌, ◌≡◌, ◌==◌, refl, inl, inr, Option-cases, Result-cases}
use cam_bus.Base.Int.{ℤ}
use cam_bus.Base.State.{if_keeps}
use cam_bus.Base.Str.{trim_space}
use cam_bus.Base.Str.Decimal.{show_int}
use cam_bus.FindFace.{Client, Bytes}
use cam_bus.FindFace.Calls.{
  Lib, Http, Request, event_request, get_request, send_checked, create_face_event,
  create_face_event_from_bytes, create_face_event_from_file, query, get_face_event, get_card,
  get_face_object_for_card,
}

module _ {κ} {W : Type 0} (P : W → Type κ) (http : Http W) (c : Client) where
  -- The outside world keeps `P` at the requests that carry the client's token.
  pub record KeepsCalls : Type κ where
    pub send :
        (req : Request) (w : W)
        → req.authorization ≡ "Token " <> c.api_token
        → P w
        → P (http.send req w).1
    pub now : (w : W) → P w → P (http.now w).1
    pub open_file : (path : String) (w : W) → P w → P (http.open_file path w).1

  module _ (lib : Lib) (k : KeepsCalls) where
    send_checked_keeps :
        (context : String) (req : Request) (w : W)
        → req.authorization ≡ "Token " <> c.api_token
        → P w
        → P (send_checked lib http c context req w).1
    unfolding send_checked
    send_checked_keeps context req w signed p = elim (Option-cases (lib.request_error req)) [
      | inl fine ↦ rw (fine, send_checked) (k.send req w signed p)
      | inr (e, refused) ↦ rw (refused, send_checked) p
    ]

    create_face_event_keeps :
        (name : String) (img : Bytes) (w : W) → P w → P (create_face_event lib http c name img w).1
    unfolding create_face_event event_request
    create_face_event_keeps name img w p = send_checked_keeps _ _ _ refl (k.now w p)

    create_face_event_from_bytes_keeps :
        (img : Bytes) (name : String) (w : W)
        → P w
        → P (create_face_event_from_bytes lib http c img name w).1
    unfolding create_face_event_from_bytes
    create_face_event_from_bytes_keeps [] name w p = p
    create_face_event_from_bytes_keeps (b ∷ bs) name w p = create_face_event_keeps _ (b ∷ bs) w p

    create_face_event_from_file_keeps :
        (path : String) (w : W) → P w → P (create_face_event_from_file lib http c path w).1
    unfolding create_face_event_from_file
    create_face_event_from_file_keeps path w p = elim (Result-cases (http.open_file path w).0) [
      | inl (file, opened) ↦ elim (Result-cases file) [
        | inl (img, read) ↦
            rw (opened, create_face_event_from_file, read)
              (create_face_event_keeps (lib.base_name path) img _ (k.open_file path w p))
        | inr (e, unread) ↦ rw (opened, create_face_event_from_file, unread) (k.open_file path w p)
      ]
      | inr (e, missing) ↦ rw (missing, create_face_event_from_file) (k.open_file path w p)
    ]

    query_keeps : (name url : String) (w : W) → P w → P (query lib http c name url w).1
    unfolding query get_request
    query_keeps name url w p = send_checked_keeps _ _ w refl p

    get_face_event_keeps : (id : String) (w : W) → P w → P (get_face_event lib http c id w).1
    unfolding get_face_event
    get_face_event_keeps id w p =
        if_keeps P (trim_space id == "") _ _ (λ _. p)
          (λ _.
            elim (Result-cases (
              lib.with_query (c.base_url <> "/events/faces/")
                (("id_in", id) ∷ ("limit", "1") ∷ []))) [
                  | inl (url, valid) ↦ rw (valid) (query_keeps "GetFaceEvent" url w p)
                  | inr (e, invalid) ↦ rw (invalid) p
                ])

    get_face_object_for_card_keeps :
        (id : ℤ) (w : W) → P w → P (get_face_object_for_card lib http c id w).1
    unfolding get_face_object_for_card
    get_face_object_for_card_keeps id w p =
        elim (Result-cases (
          lib.with_query (c.base_url <> "/objects/faces/")
            (("card", show_int id) ∷ ("limit", "1") ∷ ("ordering", "-created_date") ∷ []))) [
              | inl (url, valid) ↦
                  rw (valid, get_face_object_for_card) (query_keeps "GetFaceObjectForCard" url w p)
              | inr (e, invalid) ↦ rw (invalid, get_face_object_for_card) p
            ]

    -- Every call of FindFace's interface carries the client's token: what the world keeps at the
    -- requests that carry it, at the clock and at the files that are opened, all five calls keep.
    pub calls_keep :
        (w : W)
        → P w
        → ((img : Bytes) (name : String) → P (create_face_event_from_bytes lib http c img name w).1)
          × ((path : String) → P (create_face_event_from_file lib http c path w).1)
          × ((id : String) → P (get_face_event lib http c id w).1)
          × ((id : ℤ) → P (get_card lib http c id w).1)
          × ((id : ℤ) → P (get_face_object_for_card lib http c id w).1)
    unfolding get_card
    calls_keep w p = (
      λ img name. create_face_event_from_bytes_keeps img name w p,
      λ path. create_face_event_from_file_keeps path w p,
      λ id. get_face_event_keeps id w p,
      λ id. query_keeps "GetCard" (c.base_url <> "/cards/humans/" <> show_int id <> "/") w p,
      λ id. get_face_object_for_card_keeps id w p,
    )
