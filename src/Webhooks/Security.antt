-- ===== src/Webhooks/Security.antt =====
-- `validate_webhook_url`: what the URL parser, the resolver and the address classes of Python's
-- library give is a parameter.
use agenticops.Prelude.{
  ℕ, zero, suc, ◌≤◌, length, String, Bool, true, false, not, ◌||◌, ◌≡◌, Option, none, some, List,
  [], ◌∷◌, all, arith, str_eq, str_mem, strip, truthy, text_or, if◌then◌else◌,
}
use agenticops.Prelude.Exec.{value_error, Result, ok, err}

pub record SplitUrl : Type 0 where
  pub scheme : String
  pub hostname : Option String
  pub username : Option String
  pub password : Option String
  pub fragment : String
  pub port : Option ℕ

-- `urlsplit`, `parsed.geturl()`, `getaddrinfo` (the sorted distinct addresses, nothing on an
-- `OSError`) and `ipaddress.ip_address(raw).is_global`.
pub record Net : Type 0 where
  pub urlsplit : String → SplitUrl
  pub geturl : SplitUrl → String
  pub getaddrinfo : String → ℕ → Option (List String)
  pub is_global : String → Bool

pub record ValidatedWebhookUrl : Type 0 where
  pub url : String
  pub hostname : String
  pub addresses : List String

-- `parsed.port or (443 if parsed.scheme == "https" else 80)`
pub port_of : SplitUrl → ℕ
port_of parsed =
    let standard = (if str_eq parsed.scheme "https" then 443 else 80) in
    elim parsed.port [ none ↦ standard | some zero ↦ standard | some (suc n) ↦ suc n ]

scheme_allowed : Bool → String → Bool
scheme_allowed allow_http scheme =
    str_mem scheme (if allow_http then "https" ∷ "http" ∷ [] else "https" ∷ [])

forbidden : SplitUrl → Bool
forbidden parsed =
    not (truthy parsed.hostname)
    || (truthy parsed.username || (truthy parsed.password || truthy (some parsed.fragment)))

module _ (net : Net) where
  validated : SplitUrl → Option (List String) → Result ValidatedWebhookUrl
  validated parsed none = err (value_error "webhook hostname cannot be resolved")
  validated parsed (some []) = err (value_error "webhook hostname has no addresses")
  validated parsed (some (a ∷ rest)) =
      if all net.is_global (a ∷ rest)
      then ok (record {
        url = net.geturl parsed;
        hostname = text_or parsed.hostname "";
        addresses = a ∷ rest;
      })
      else err (value_error "webhook target resolves to a non-public address")

  unfoldable pub validate_webhook_url : String → Bool → Result ValidatedWebhookUrl
  unfolding validated port_of scheme_allowed forbidden
  validate_webhook_url url allow_http =
      let parsed = net.urlsplit (strip url) in
      if not (scheme_allowed allow_http parsed.scheme)
      then err (value_error "webhook URL must use HTTPS")
      else if forbidden parsed
      then err (value_error "webhook URL contains forbidden components")
      else validated parsed (net.getaddrinfo (text_or parsed.hostname "") (port_of parsed))

  -- What a URL that passes can be relied on for.
  pub record IsPublic (allow_http : Bool) (url : String) (v : ValidatedWebhookUrl) : Type 0 where
    pub resolved :
        net.getaddrinfo v.hostname (port_of (net.urlsplit (strip url))) ≡ some v.addresses
    pub public : all net.is_global v.addresses ≡ true
    pub some_address : 1 ≤ length v.addresses
    pub https : allow_http ≡ false → str_eq (net.urlsplit (strip url)).scheme "https" ≡ true
    pub no_credentials :
        (truthy (net.urlsplit (strip url)).username ≡ false)
        × (truthy (net.urlsplit (strip url)).password ≡ false)

  validated_public :
      (parsed : SplitUrl) (answer : Option (List String)) (v : ValidatedWebhookUrl)
      → validated parsed answer ≡ ok v
      → (answer ≡ some v.addresses)
        × (all net.is_global v.addresses ≡ true)
        × (1 ≤ length v.addresses)
        × (v.hostname ≡ text_or parsed.hostname "")
  unfolding validated
  validated_public parsed none v h = absurd (ground arith)
  validated_public parsed (some []) v h = absurd (ground arith)
  validated_public parsed (some (a ∷ rest)) v h = ground arith

  -- A webhook URL that passes resolves to public addresses only, at least one, carries no
  -- credentials, and is HTTPS unless HTTP is allowed.
  pub validate_webhook_url-IsPublic :
      (url : String) (allow_http : Bool) (v : ValidatedWebhookUrl)
      → validate_webhook_url url allow_http ≡ ok v
      → IsPublic allow_http url v
  unfolding validate_webhook_url scheme_allowed forbidden
  validate_webhook_url-IsPublic url allow_http v h =
      let parsed = net.urlsplit (strip url) in
      let answer = net.getaddrinfo (text_or parsed.hostname "") (port_of parsed) in
      let p = validated_public parsed answer v (ground arith) in
      record {
        resolved = rw p.3 p.0;
        public = p.1;
        some_address = p.2;
        https = ground arith;
        no_credentials = (ground arith, ground arith);
      }
