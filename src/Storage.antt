-- ===== src/Storage.antt =====
-- internal/storage/minio_store.go: the store of snapshots.
use cam_bus.Base.{
  ℕ, Bool, true, String, ◌<>◌, Option, none, some, Result, ok, err, List, ◌==◌, ◌||◌, ◌≡◌,
  if◌then◌else◌,
}
use cam_bus.Base.State.{St}
use cam_bus.Base.Str.{trim_slashes, trim_prefix, trim_suffix}
use cam_bus.Uplink.Env.{Env, getenv}

-- MinioStore, of the client for an endpoint. A public address is its path, and its text with another
-- path.
pub record MinioStore : Type 0 where
  pub endpoint_host : String
  pub bucket : String
  pub prefix : String
  pub base_url : Option (String × (String → String))
  pub use_ssl : Bool

-- What the store uses of the MinIO client and of net/url. An object is its bucket, its key, its bytes
-- and its type.
pub record Minio (W : Type 0) : Type 0 where
  -- minio.New, and the host of EndpointURL
  pub new_client : String → String → String → Bool → Result String String
  pub make_bucket : String → St W (Option String)
  pub bucket_exists : String → St W (Result String Bool)
  pub set_bucket_policy : String → String → St W (Option String)
  pub put_object : String → String → List ℕ → String → St W (Option String)
  pub parse_url : String → Result String (String × (String → String))

-- joinObjectKey
unfoldable pub join_object_key : String → String → String
join_object_key prefix key =
    let clean_prefix = trim_slashes prefix in
    let clean_key = trim_prefix key "/" in
    if clean_prefix == ""
    then clean_key
    else if clean_key == ""
    then clean_prefix
    else clean_prefix <> "/" <> clean_key

-- the policy that lets everybody read
unfoldable pub public_policy : String → String → String
public_policy bucket prefix =
    let clean = trim_slashes prefix in
    let resource =
      if clean == ""
      then "arn:aws:s3:::" <> bucket <> "/*"
      else "arn:aws:s3:::" <> bucket <> "/" <> clean <> "/*" in
    "{\"Version\":\"2012-10-17\",\"Statement\":[{\"Effect\":\"Allow\",\"Principal\":{\"AWS\":[\"*\"]},\"Action\":[\"s3:GetObject\"],\"Resource\":[\""
    <> resource <> "\"]}]}"

-- the address of an object, if it was stored
unfoldable pub object_address : MinioStore → String → String
object_address s object_key = elim s.base_url [
  | some (path, with_path) ↦
      if path == "" || path == "/"
      then with_path ("/" <> object_key)
      else with_path (trim_suffix path "/" <> "/" <> object_key)
  | none ↦
      (if s.use_ssl then "https" else "http")
      <> "://"
      <> s.endpoint_host
      <> "/"
      <> s.bucket
      <> "/"
      <> object_key
]

abbrev store : Env → String → String → Option (String × (String → String)) → MinioStore
store env host bucket url = record {
  endpoint_host = host;
  bucket = bucket;
  prefix = trim_slashes (getenv env "MINIO_PREFIX" "");
  base_url = url;
  use_ssl = getenv env "MINIO_USE_SSL" "false" == "true";
}

-- The location of an object: its key below the public address, which may end with a slash, or below the
-- endpoint and the bucket.
abbrev pub location : MinioStore → String → String
location s key = elim s.base_url [
  | some (path, with_path) ↦ with_path (trim_suffix path "/" <> "/" <> key)
  | none ↦
      (if s.use_ssl then "https" else "http")
      <> "://"
      <> s.endpoint_host
      <> "/"
      <> s.bucket
      <> "/"
      <> key
]

module _ {W : Type 0} (minio : Minio W) where
  -- the bucket, which is created or is there
  unfoldable pub ensure_bucket : String → W → Option String × W
  ensure_bucket bucket w =
      let (r, w₁) = minio.make_bucket bucket w in
      elim r [
        | none ↦ (none, w₁)
        | some e ↦
            (let (exists, w₂) = minio.bucket_exists bucket w₁ in
              elim exists [
                | ok true ↦ (none, w₂)
                | _ ↦ (some ("erro criando/verificando bucket " <> bucket <> ": " <> e), w₂)
              ])
      ]

  unfoldable pub ensure_policy : Env → String → W → Option String × W
  unfolding public_policy
  ensure_policy env bucket w =
      let (r, w') =
        minio.set_bucket_policy bucket (public_policy bucket (getenv env "MINIO_PREFIX" "")) w in
      if getenv env "MINIO_PUBLIC_READ" "false" == "true"
      then (elim r [
        | none ↦ (none, w')
        | some e ↦ (some ("erro configurando policy pública no bucket " <> bucket <> ": " <> e), w')
      ])
      else (none, w)

  -- the store of a client whose bucket is ready
  unfoldable pub store_for : Env → String → String → Result String MinioStore
  store_for env host bucket =
      let base = getenv env "MINIO_PUBLIC_BASE_URL" "" in
      if base == "" then ok (store env host bucket none) else elim (minio.parse_url base) [
        | err e ↦ err ("MINIO_PUBLIC_BASE_URL inválida: " <> e)
        | ok url ↦ ok (store env host bucket (some url))
      ]

  -- what follows once there is a client
  unfoldable pub with_client : Env → String → W → Result String MinioStore × W
  unfolding ensure_bucket ensure_policy store_for
  with_client env host w =
      let bucket = getenv env "MINIO_BUCKET" "rtls-snapshots" in
      let (made, w₁) = ensure_bucket bucket w in
      let (shared, w₂) = ensure_policy env bucket w₁ in
      elim made [
        | some e ↦ (err e, w₁)
        | none ↦ elim shared [ some e ↦ (err e, w₂) | none ↦ (store_for env host bucket, w₂) ]
      ]

  -- NewMinioStoreFromEnv
  unfoldable pub new_minio_store_from_env : Env → W → Result String MinioStore × W
  unfolding with_client
  new_minio_store_from_env env w =
      let access = env "MINIO_ACCESS_KEY" in
      let secret = env "MINIO_SECRET_KEY" in
      let ssl = getenv env "MINIO_USE_SSL" "false" == "true" in
      if access == "" || secret == ""
      then (err "MINIO_ACCESS_KEY / MINIO_SECRET_KEY não configurados", w)
      else elim (minio.new_client (getenv env "MINIO_ENDPOINT" "localhost:9000") access secret
          ssl) [
            | err e ↦ (err ("erro criando cliente MinIO: " <> e), w)
            | ok host ↦ with_client env host w
          ]

  -- SaveSnapshot
  unfoldable pub save_snapshot :
      MinioStore → String → List ℕ → String → W → Result String String × W
  unfolding join_object_key object_address
  save_snapshot s key bytes content_type w =
      let object_key = join_object_key s.prefix key in
      let ct = if content_type == "" then "image/jpeg" else content_type in
      let (r, w') = minio.put_object s.bucket object_key bytes ct w in
      (
        elim r [
          | some e ↦ err ("erro ao enviar objeto pro MinIO: " <> e)
          | none ↦ ok (object_address s object_key)
        ],
        w',
      )

  -- What is relied on of the servers: an object that the client has put can be got under its bucket and
  -- key, and the address of a key is fetched as the object with this key of the store's bucket.
  pub record Serves (s : MinioStore) (get : String → String → W → Option (List ℕ))
      (fetch : String → W → Option (List ℕ)) : Type 0 where
    pub stored :
        (key : String) (bytes : List ℕ) (content_type : String) (w : W)
        → (minio.put_object s.bucket key bytes content_type w).0 ≡ none
        → get s.bucket key (minio.put_object s.bucket key bytes content_type w).1 ≡ some bytes
    pub fetched : (key : String) (w : W) → fetch (location s key) w ≡ get s.bucket key w
