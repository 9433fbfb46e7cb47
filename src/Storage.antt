-- ===== src/Storage.antt =====
-- storage/storage.service.ts. The S3 client is a parameter; the state is the contents of the bucket.
pub mod Memory
pub mod Start
use Prim.Native.String
use talent_flow_ai_backend.Prelude.{
  ℕ, String, Option, none, some, List, ◌≡◌, Table, insert, without, if◌then◌else◌, ◌==◌, or_else,
}
use talent_flow_ai_backend.Async.{Async, Result, ok, err, Exception, error, pure, throw}
use talent_flow_ai_backend.Async.{◌>>=◌, ◌>>◌}
use talent_flow_ai_backend.Dto.{when_truthy}

abbrev pub Buffer : Type 0
Buffer = List ℕ

abbrev pub Bucket : Type 0
Bucket = Table Buffer

-- What is configured of the storage, by its environment variables.
pub record StorageConfig : Type 0 where
  pub node_env : String
  pub r2_endpoint : Option String
  pub r2_account_id : Option String
  pub r2_bucket : String
  pub r2_public_url : Option String

-- `client.send(command)` for the three commands, for a bucket name and a key.
pub record S3Client : Type 0 where
  pub put_object : (bucket key : String) → Buffer → (content_type : String) → Async Bucket Unit
  pub delete_object : (bucket key : String) → Async Bucket Unit
  pub get_signed_url : (bucket key : String) → ℕ → Async Bucket String

pub record S3Laws (c : S3Client) : Type 0 where
  pub put_object_ok :
      (bucket key : String) (body : Buffer) (content_type : String) (b : Bucket)
      → (c.put_object bucket key body content_type b).0 ≡ ok tt
      → (c.put_object bucket key body content_type b).1 ≡ insert key body b
  pub delete_object_ok :
      (bucket key : String) (b : Bucket)
      → (c.delete_object bucket key b).0 ≡ ok tt
      → (c.delete_object bucket key b).1 ≡ without key b
  -- signing is local: it reads no object and writes none
  pub get_signed_url_keeps :
      (bucket key : String) (expires_in : ℕ) (b : Bucket)
      → (c.get_signed_url bucket key expires_in b).1 ≡ b

pub record UploadResult : Type 0 where
  pub key : String
  pub url : String

-- `if (text) return text; …`
abbrev given : Option String → Result String → Result String
given none rest = rest
given (some s) rest = ok s

pub get_endpoint : StorageConfig → Result String
get_endpoint config =
    given (when_truthy config.r2_endpoint) (elim (when_truthy config.r2_account_id) [
      | some id ↦ ok (String.◌++◌ "https://" (String.◌++◌ id ".r2.cloudflarestorage.com"))
      | none ↦
          if config.node_env == "production"
          then err (error "R2_ENDPOINT or R2_ACCOUNT_ID is required in production environment")
          else ok "http://localhost:9000"
    ])

under : String → String → String
under base key = String.◌++◌ base (String.◌++◌ "/" key)

unfoldable pub build_file_url : StorageConfig → String → Result String
unfolding get_endpoint under when_truthy
build_file_url config key = elim (when_truthy config.r2_public_url) [
  | some base ↦ ok (under base key)
  | none ↦ elim (get_endpoint config) [
    | ok endpoint ↦ ok (under (under endpoint config.r2_bucket) key)
    | err e ↦ err e
  ]
]

module _ (client : S3Client) (config : StorageConfig) where
  abbrev pub get_bucket_name : String
  get_bucket_name = config.r2_bucket

  unfoldable pub upload : Buffer → String → String → Async Bucket UploadResult
  upload buffer key content_type = do
    client.put_object get_bucket_name key buffer content_type
    url ← λ b. (build_file_url config key, b)
    pure (record { key = key; url = url })

  -- `expiresIn = 3600`
  unfoldable pub get_signed_url : String → Async Bucket String
  get_signed_url key = client.get_signed_url get_bucket_name key 3600

  unfoldable pub delete : String → Async Bucket Unit
  delete key = client.delete_object get_bucket_name key
