-- ===== src/Storage/Start.antt =====
-- The constructor of storage/storage.service.ts: what the S3 client is configured with. The region,
-- the path style and the timeout, which are fixed, are left out.
use package.text.Mathlib.Text.{starts_with}
use talent_flow_ai_backend.Prelude.{
  String, Option, none, some, true, not, ◌≡◌, ◌∙◌, sym, ap, ◌==◌, is_some, if◌then◌else◌, refl,
  arith, inl, inr, eq_iff,
}
use talent_flow_ai_backend.Async.{Result, Result-cases, ok, err, error}
use talent_flow_ai_backend.Dto.{when_truthy}
use talent_flow_ai_backend.Storage.{StorageConfig, get_endpoint}

pub record S3ClientConfig : Type 0 where
  pub endpoint : String
  pub credentials : Option (String × String)

-- `hasCredentials && accessKeyId && secretAccessKey`
abbrev pub credentials_of :
    (access_key_id secret_access_key : Option String) → Option (String × String)
credentials_of none secret = none
credentials_of (some key) none = none
credentials_of (some key) (some secret) = some (key, secret)

-- The checks of a production environment
unfoldable pub check_production : (endpoint : String) → Option (String × String) → Result {0} Unit
check_production endpoint credentials =
    if not (is_some credentials)
    then err (error "R2_ACCESS_KEY_ID and R2_SECRET_ACCESS_KEY are required in production")
    else if not (starts_with endpoint "https://")
    then err (error "R2 endpoint must use https:// in production")
    else ok tt

abbrev configured : S3ClientConfig → Result {0} Unit → Result S3ClientConfig
configured c (ok t) = ok c
configured c (err e) = err e

-- The constructor
unfoldable pub construct :
    StorageConfig → (access_key_id secret_access_key : Option String) → Result S3ClientConfig
construct config key secret =
    let credentials = credentials_of (when_truthy key) (when_truthy secret) in
    elim (get_endpoint config) [
      | err e ↦ err e
      | ok endpoint ↦
          configured (record { endpoint = endpoint; credentials = credentials })
            (if config.node_env == "production"
              then check_production endpoint credentials
              else ok tt)
    ]

check_production-ok :
    (endpoint : String) (c : Option (String × String))
    → check_production endpoint c ≡ ok tt
    → (is_some c ≡ true) × (starts_with endpoint "https://" ≡ true)
unfolding check_production
check_production-ok endpoint c h = (ground arith, ground arith)

configured-ok :
    (c d : S3ClientConfig) (r : Result {0} Unit) → configured c r ≡ ok d → (r ≡ ok tt) × (d ≡ c)
configured-ok c d (ok t) h = (refl, ground arith)
configured-ok c d (err e) h = absurd (ground arith)

construct-steps :
    (config : StorageConfig) (key secret : Option String) (endpoint : String)
    → get_endpoint config ≡ ok endpoint
    → let credentials = credentials_of (when_truthy key) (when_truthy secret) in
      construct config key secret
      ≡ configured
          (record { endpoint = endpoint; credentials = credentials })
          (if config.node_env == "production" then check_production endpoint credentials else ok tt)
unfolding construct
construct-steps config key secret endpoint e = rw (construct, e) refl

-- In production a service that is constructed talks to an endpoint with https and has credentials.
pub construct-secure :
    (config : StorageConfig) (key secret : Option String) (c : S3ClientConfig)
    → config.node_env ≡ "production"
    → construct config key secret ≡ ok c
    → (is_some c.credentials ≡ true) × (starts_with c.endpoint "https://" ≡ true)
unfolding construct
construct-secure config key secret c production h = elim (Result-cases (get_endpoint config)) [
  | inl (endpoint, e) ↦
      let credentials = credentials_of (when_truthy key) (when_truthy secret) in
      let steps = construct-steps config key secret endpoint e in
      let (checked, same) =
        configured-ok (record { endpoint = endpoint; credentials = credentials }) c
          (if config.node_env == "production" then check_production endpoint credentials else ok tt)
          (sym steps ∙ h) in
      let (known, secure) =
        check_production-ok endpoint credentials
          (rw ((eq_iff config.node_env "production").1 production) at checked) in
      (
        ap (λ x. is_some x.credentials) same ∙ known,
        ap (λ x. starts_with x.endpoint "https://") same ∙ secure,
      )
  | inr (x, e) ↦ absurd (ground arith)
]
