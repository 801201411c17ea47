-- ===== src/Router/Endpoint.antt =====
-- The checks and the tables of hybrid_router.py: `validate_azure_endpoint`, `normalize_model_tier`,
-- `tier_for_complexity` and `deployment_for_tier`.
use yantra_os.Prelude.{
  ◌≡◌, refl, Bool, true, false, ◌||◌, not, ◌⊎◌, inl, inr, Bool-cases, Option, none, some, List, [],
  ◌∷◌, String, str_eq, str_eq→eq, if◌then◌else◌, arith,
}
use yantra_os.Prelude.Lists.{any}
use yantra_os.Prelude.Result.{Result, ok, err, if_err-eq-ok}
use yantra_os.Json.{contains_text}

-- What `urlsplit` and its properties report of a text; `host` is the folded name, empty where there
-- is none.
pub record Url : Type 0 where
  pub scheme : String
  pub host : String
  pub has_username : Bool
  pub has_password : Bool
  pub has_query : Bool
  pub has_fragment : Bool

-- What the module calls of `str`, and `urlsplit`, none where it or the port raises. `is_clean` says
-- that a text is printable, has no white space in it and none around it.
pub record Strings : Type 0 where
  pub is_clean : String → Bool
  pub upper : String → String
  pub lower : String → String
  pub casefold : String → String
  pub ends_with : String → String → Bool
  pub contains : String → String → Bool
  pub urlsplit : String → Option Url

pub data EndpointError : Type 0 where
  invalid local_needs_http not_azure : EndpointError

abbrev pub local_hosts : List String
local_hosts = "localhost" ∷ "127.0.0.1" ∷ "::1" ∷ []

abbrev pub azure_suffixes : List String
azure_suffixes =
    ".openai.azure.com" ∷ ".cognitiveservices.azure.com" ∷ ".services.ai.azure.com" ∷ []

pub data Tier : Type 0 where
  luna terra sol : Tier

module _ (t : Strings) where
  unfoldable pub is_azure : String → Bool
  unfolding any
  is_azure host = any (λ suffix. t.ends_with suffix host) azure_suffixes

  -- the host and the scheme of a URL that carries nothing else
  unfoldable pub check_host : String → String → Result EndpointError (Unit {0})
  unfolding is_azure contains_text
  check_host scheme host =
      if contains_text host local_hosts
      then if not (str_eq scheme "http") then err local_needs_http else ok tt
      else if not (str_eq scheme "https") || not (is_azure host)
      then err not_azure
      else ok tt

  unfoldable pub check_url : Option Url → Result EndpointError (Unit {0})
  unfolding check_host
  check_url none = err invalid
  check_url (some u) =
      if not (contains_text (t.casefold u.scheme) ("http" ∷ "https" ∷ []))
        || str_eq u.host ""
        || u.has_username
        || u.has_password
        || u.has_query
        || u.has_fragment
      then err invalid
      else check_host (t.casefold u.scheme) u.host

  -- `validate_azure_endpoint` of a string
  unfoldable pub validate_azure_endpoint : String → Result EndpointError (Unit {0})
  unfolding check_url
  validate_azure_endpoint endpoint =
      if str_eq endpoint "" || not (t.is_clean endpoint)
      then err invalid
      else check_url (t.urlsplit endpoint)

  unfoldable pub normalize_model_tier : String → Option Tier
  normalize_model_tier value =
      if str_eq (t.upper value) "LUNA"
      then some luna
      else if str_eq (t.upper value) "TERRA"
      then some terra
      else if str_eq (t.upper value) "SOL"
      then some sol
      else none

  abbrev pub default_deployment : Tier → String
  default_deployment luna = "gpt-5.6-luna"
  default_deployment terra = "gpt-5.6-terra"
  default_deployment sol = "gpt-5.6-sol"

  abbrev pub tier_variable : Tier → String
  tier_variable luna = "AZURE_DEPLOYMENT_LUNA"
  tier_variable terra = "AZURE_DEPLOYMENT_TERRA"
  tier_variable sol = "AZURE_DEPLOYMENT_SOL"

  -- the generic variable is for one tier only
  abbrev pub generic_deployment : (String → String) → Tier → String
  generic_deployment getenv luna = getenv "AZURE_OPENAI_DEPLOYMENT_NAME"
  generic_deployment getenv _ = ""

  -- the deployment of a tier; `getenv` is empty for a variable that is not set
  unfoldable pub deployment_of : (String → String) → Tier → String
  deployment_of getenv tier =
      if not (str_eq (getenv (tier_variable tier)) "")
      then getenv (tier_variable tier)
      else if not (str_eq (generic_deployment getenv tier) "")
      then generic_deployment getenv tier
      else default_deployment tier

  unfoldable pub deployment_for_tier : (String → String) → String → Option String
  unfolding normalize_model_tier deployment_of
  deployment_for_tier getenv value = elim (normalize_model_tier value) [
    | none ↦ none
    | some tier ↦ some (deployment_of getenv tier)
  ]

  unfoldable pub tier_for_complexity : String → Option Tier
  tier_for_complexity value =
      if str_eq (t.casefold value) "low"
      then some luna
      else if str_eq (t.casefold value) "medium"
      then some terra
      else if str_eq (t.casefold value) "high"
      then some sol
      else none

  -- Where a key may be sent: a host of Azure over HTTPS, or this machine over HTTP.
  abbrev pub IsTrusted : Url → Type 0
  IsTrusted u =
      (((t.casefold u.scheme ≡ "https") × (is_azure u.host ≡ true))
        ⊎ ((t.casefold u.scheme ≡ "http") × (contains_text u.host local_hosts ≡ true)))
      × (u.has_username ≡ false)
      × (u.has_password ≡ false)

  check_host-IsTrusted :
      (scheme host : String)
      → check_host scheme host ≡ ok tt
      → ((scheme ≡ "https") × (is_azure host ≡ true))
        ⊎ ((scheme ≡ "http") × (contains_text host local_hosts ≡ true))
  unfolding check_host
  check_host-IsTrusted scheme host h = elim (Bool-cases (contains_text host local_hosts)) [
    | inl here ↦
        let k =
          (if_err-eq-ok (not (str_eq scheme "http")) local_needs_http (ok tt) (simp here at h)).0 in
        inr (str_eq→eq scheme "http" (ground arith), here)
    | inr elsewhere ↦
        let k =
          (if_err-eq-ok (not (str_eq scheme "https") || not (is_azure host)) not_azure (ok tt)
            (simp elsewhere at h)).0 in
        inl (str_eq→eq scheme "https" (ground arith), ground arith)
  ]

  check_url-IsTrusted :
      (o : Option Url) → check_url o ≡ ok tt → (u : Url) × (o ≡ some u) × IsTrusted u
  unfolding check_url
  check_url-IsTrusted none h = cc
  check_url-IsTrusted (some u) h =
      let (bad, k) =
        if_err-eq-ok
          (not (contains_text (t.casefold u.scheme) ("http" ∷ "https" ∷ []))
            || str_eq u.host ""
            || u.has_username
            || u.has_password
            || u.has_query
            || u.has_fragment)
          invalid (check_host (t.casefold u.scheme) u.host) h in
      (u, refl, (check_host-IsTrusted (t.casefold u.scheme) u.host k, ground arith, ground arith))

  -- An endpoint that is accepted names a host of Azure over HTTPS or this machine over HTTP, without a
  -- user or a password.
  pub validate_azure_endpoint-IsTrusted :
      (endpoint : String)
      → validate_azure_endpoint endpoint ≡ ok tt
      → (u : Url) × (t.urlsplit endpoint ≡ some u) × IsTrusted u
  unfolding validate_azure_endpoint
  validate_azure_endpoint-IsTrusted endpoint h =
      check_url-IsTrusted (t.urlsplit endpoint)
        (if_err-eq-ok (str_eq endpoint "" || not (t.is_clean endpoint)) invalid
          (check_url (t.urlsplit endpoint)) h).1
