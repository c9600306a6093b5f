-- ===== src/Uplink/Manager/Operations/Launching.antt =====
-- The container that stands behind a start that succeeds.
use cam_bus.Base.{
  true, String, ◌<>◌, ok, err, List, [], ◌∷◌, ◌≡◌, refl, arith, ◌==◌, ◌&&◌, not, eq_refl, Result,
  Result-cases, ◌∙◌, if◌then◌else◌, if-rule, inl, inr,
}
use cam_bus.Base.Str.{trim_prefix}
use cam_bus.Uplink.Request.{Request}
use cam_bus.Uplink.Srt.Candidates.{build_srt_url_candidates, mem}
use cam_bus.Uplink.Container.Args
use cam_bus.Uplink.Container.Logs.{Failure}
use cam_bus.Uplink.Manager.{
  Manager, Outside, container_name, try_candidates, is_nil, is_retriable_start_error,
}

abbrev container_request : String → String → String → Args.Request
container_request name proxy_url srt_url = record {
  name = name;
  proxy_url = proxy_url;
  srt_url = srt_url;
}

abbrev pub proxy_url_of : Manager → Request → String
proxy_url_of m req = m.proxy_rtsp_base <> "/" <> trim_prefix req.proxy_path "/"

module _ {W : Type 0} (o : Outside W) where
  -- one of the addresses was handed to the containers, which gave this identity
  abbrev pub Accepted : String → String → List String → String → Type 0
  Accepted name proxy_url urls id =
      (url : String) × (w : W) × (mem url urls ≡ true)
      × ((o.containers.start (container_request name proxy_url url) w).0 ≡ ok id)

  -- the containers started one for the request, with an address of the request and this identity
  abbrev pub Launched : Manager → Request → String → Type 0
  Launched m req id =
      (urls : List String) × (build_srt_url_candidates o.url o.env req.central_host
          req.central_srt_port req.central_path
        ≡ ok urls)
      × Accepted (container_name m.mode req.central_path) (proxy_url_of m req) urls id

  abbrev Answers : List String → String → String → String → Result Failure String × W → Type 0
  Answers urls name proxy_url id r = r.0 ≡ ok id → Accepted name proxy_url urls id

  later :
      (name proxy_url u : String) (urls : List String) {id : String}
      → Accepted name proxy_url urls id
      → Accepted name proxy_url (u ∷ urls) id
  later name proxy_url u urls (url, w, there, gave) = (url, w, ground (arith, there), gave)

  -- the two ends of the loop that do not depend on the addresses that are left
  tried :
      (name proxy_url u : String) (us : List String) (w : W) {id : String}
      → (rest : Result Failure String × W)
      → (not (is_nil us) ≡ true → Answers us name proxy_url id rest)
      → Answers (u ∷ us) name proxy_url id (
          let (r, w') = o.containers.start (container_request name proxy_url u) w in
          elim r [
            | ok id ↦ (ok id, w')
            | err f ↦ if is_retriable_start_error f && not (is_nil us) then rest else (err f, w')
          ])
  tried name proxy_url u us w {id} rest h =
      let (r, w') = o.containers.start (container_request name proxy_url u) w in
      elim (Result-cases r) [
        | inl (given, q) ↦ rw q (λ e. (u, w, rw (eq_refl u) refl, q ∙ e))
        | inr (f, q) ↦ rw q (
            if-rule (Answers (u ∷ us) name proxy_url id)
              (is_retriable_start_error f && not (is_nil us))
              (λ more e. later name proxy_url u us (h (ground (arith, more)) e)) (λ _ e. cc))
      ]

  try_candidates-Accepted :
      (name proxy_url : String) (urls : List String) (w : W) {id : String}
      → not (is_nil urls) ≡ true
      → Answers urls name proxy_url id (try_candidates o name proxy_url urls w)
  unfolding try_candidates
  try_candidates-Accepted name proxy_url [] w given = cc
  try_candidates-Accepted name proxy_url (u ∷ us) w {id} given =
      let (_, w') = o.containers.start (container_request name proxy_url u) w in
      if-rule (Answers (u ∷ us) name proxy_url id) (u == "") (λ _ e. cc)
        (λ _.
          tried name proxy_url u us w (try_candidates o name proxy_url us w')
            (λ some_left. try_candidates-Accepted name proxy_url us w' some_left))

  no_address :
      (name proxy_url : String) (w : W) {id : String}
      → Answers [] name proxy_url id (try_candidates o name proxy_url ("" ∷ []) w)
  unfolding try_candidates
  no_address name proxy_url w e = cc

  -- Without addresses, the empty address is tried, and refused.
  pub try_candidates_given :
      (name proxy_url : String) (urls : List String) (w : W) {id : String}
      → (try_candidates o name proxy_url (if is_nil urls then "" ∷ [] else urls) w).0 ≡ ok id
      → Accepted name proxy_url urls id
  try_candidates_given name proxy_url [] w e = no_address name proxy_url w e
  try_candidates_given name proxy_url (u ∷ us) w e =
      try_candidates-Accepted name proxy_url (u ∷ us) w refl e
