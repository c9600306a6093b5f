-- ===== src/Uplink/Srt/Host.antt =====
-- internal/uplink/srt.go: `normalizeSRTInputs` and what it calls.
use cam_bus.Base.{
  true, String, ◌<>◌, Option, none, some, Result, ok, err, ◌==◌, ◌&&◌, ◌||◌, not, if◌then◌else◌,
  ◌≡◌, ◌≢◌, arith, eq_iff, Result-cases, Bool-cases, inl, inr,
}
use cam_bus.Base.Int.{ℤ, pos, is_positive}
use cam_bus.Base.Str.{trim_space, trim_slashes, is_char, contains}
use cam_bus.Base.Str.Decimal.{atoi}
use cam_bus.Uplink.Request.{default_srt_port}
use cam_bus.Uplink.Srt.Query.{Url, UrlLib}

-- parsePort, `parseInt` included; `none` is any error
unfoldable pub parse_port : String → Option ℤ
parse_port port =
    let trimmed = trim_space port in
    if trimmed == "" then none else elim (atoi (trim_space trimmed)) [
      | none ↦ none
      | some value ↦ if is_positive value then some value else none
    ]

abbrev port_or_zero : Option ℤ → ℤ
port_or_zero none = pos 0
port_or_zero (some port) = port

-- host[:strings.Index(host, "/")], or the host where it has no slash
unfoldable pub before_slash : String → String
before_slash String.[] = ""
before_slash (String.◌∷◌ c s) =
    let rest = before_slash s in if is_char b'/' c then "" else String.◌∷◌ c rest

module _ (url : UrlLib) where
  target_of : String → Url → String × ℤ
  target_of host parsed =
      let target = if parsed.host == "" then parsed.path else parsed.host in
      if target == "" then (host, pos 0) else elim (url.split_host_port target) [
        | none ↦ (target, pos 0)
        | some (hostname, port) ↦ (hostname, port_or_zero (parse_port port))
      ]

  -- splitHostPort
  unfoldable pub split_host_port : String → String × ℤ
  unfolding target_of
  split_host_port host = elim (url.parse ("//" <> host)) [
    | err _ ↦ (host, pos 0)
    | ok parsed ↦ target_of host parsed
  ]

  -- the scheme that a configured host may carry
  strip_scheme : String → Result String String
  strip_scheme host =
      if contains host "://"
      then elim (url.parse host) [
        | err message ↦ err ("host inválido: " <> message)
        | ok parsed ↦ ok (if parsed.host == "" then host else parsed.host)
      ]
      else ok host

  -- the part of `normalizeSRTInputs` below the scheme
  finish : String → ℤ → String → Result String (String × ℤ × String)
  finish host port path =
      let (hostname, host_port) = split_host_port (before_slash host) in
      let with_host = trim_space (if hostname == "" then before_slash host else hostname) in
      let port₁ = if not (is_positive port) && is_positive host_port then host_port else port in
      let port₂ = if is_positive port₁ then port₁ else default_srt_port in
      if with_host == "" then err "host inválido após normalização" else ok (with_host, port₂, path)

  -- normalizeSRTInputs
  unfoldable pub normalize_srt_inputs : String → ℤ → String → Result String (String × ℤ × String)
  unfolding strip_scheme finish
  normalize_srt_inputs host port path =
      let normalized_host = trim_space host in
      let normalized_path = trim_slashes (trim_space path) in
      if normalized_host == "" || normalized_path == ""
      then err "host/path vazios"
      else elim (strip_scheme normalized_host) [
        | err message ↦ err message
        | ok stripped ↦ finish stripped port normalized_path
      ]

  finish_ok :
      (host : String) (port : ℤ) (path : String) {h : String} {q : ℤ} {p : String}
      → finish host port path ≡ ok (h, q, p)
      → (h ≢ "") × (is_positive q ≡ true) × (p ≡ path)
  unfolding finish
  finish_ok host port path {h} e = ground (arith, eq_iff h "")

  -- Whatever host, port and path are configured: where they are accepted, the host is not empty, the
  -- port is positive, and the path is the given one without outer spaces and slashes, and not empty.
  pub normalize_srt_inputs_ok :
      (host : String) (port : ℤ) (path : String) {h : String} {q : ℤ} {p : String}
      → normalize_srt_inputs host port path ≡ ok (h, q, p)
      → (h ≢ "") × (is_positive q ≡ true) × (p ≡ trim_slashes (trim_space path)) × (p ≢ "")
  unfolding normalize_srt_inputs
  normalize_srt_inputs_ok host port path {h} {q} {p} e =
      elim (Bool-cases (trim_space host == "" || trim_slashes (trim_space path) == "")) [
        | inl empty ↦ let e' = rw empty at e in cc
        | inr given ↦ elim (Result-cases (strip_scheme (trim_space host))) [
          | inr (_, refused) ↦ let e' = rw (given, refused) at e in cc
          | inl (stripped, done) ↦
              let (host_given, port_positive, same) =
                finish_ok stripped port _ (rw (given, done) at e) in
              (
                host_given,
                port_positive,
                same,
                ground (arith, eq_iff (trim_slashes (trim_space path)) ""),
              )
        ]
      ]
