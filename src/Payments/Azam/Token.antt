-- ===== src/Payments/Azam/Token.antt =====
-- packages/payments/src/azam.provider.ts: `accessToken`, `fetchToken`, `forgetToken` and
-- `checkoutUrl`, one call at a time.
use babushop_wifi.Base.{
  ℕ, ◌+◌, ◌-◌, Text, codes, Bool, ◌&&◌, ◌||◌, not, List, [], ◌∷◌, ◌++◌, Option, none, some, ◌==◌,
  ltb, leb, if◌then◌else◌, any, Result, ok, err, Problem, problem, text_eq,
}
use mathlib.Core.List.{reverse}
use babushop_wifi.Base.Chars.{trim}
use babushop_wifi.Base.Json.{Fields, field_of, fields_in, full_text}
use babushop_wifi.Shop.Checkout.Handlers.{is_empty}

-- What the environment's variables say, each empty where it is not set.
pub record Env : Type 0 where
  pub app_name : Text
  pub client_id : Text
  pub client_secret : Text
  pub checkout_url : Text
  pub base_url : Text
  pub source : Text

pub record Url : Type 0 where
  pub is_https : Bool
  pub has_credentials : Bool
  pub href : Text

-- The platform's readers: `new URL`, `Date.parse`, and `JSON.parse` of a body, with no fields where
-- the body is empty or not an object.
pub record Platform : Type 0 where
  pub parse_url : Text → Option Url
  pub parse_date : Text → Option ℕ
  pub parse_fields : Text → Fields

-- `{accountNumber, amount, currency, externalId, provider, additionalProperties}`
pub record Payload : Type 0 where
  pub account_number : Text
  pub amount : ℕ
  pub currency : Text
  pub external_id : Text
  pub provider : Text
  pub source : Text

pub data Request : Type 0 where
  sign_in : Request
  post : Text → Text → Payload → ℕ → Request

-- A response with its status and body, or the code of the error that was thrown.
pub data Reply : Type 0 where
  answered : ℕ → Text → Reply
  failed : Text → Reply

-- What answers the requests: the reply to the newest of those made so far, and the milliseconds
-- that it takes.
abbrev pub Gateway : Type 0
Gateway = List Request → Reply × ℕ

pub record Token : Type 0 where
  pub token : Text
  pub expires : ℕ
  pub issued : ℕ

pub record Failure : Type 0 where
  pub at : ℕ
  pub status : ℕ
  pub detail : Text

-- The module's variables, with the time and the requests made, newest first.
pub record Adapter : Type 0 where
  pub cached : Option Token
  pub last_failure : Option Failure
  pub now : ℕ
  pub log : List Request

abbrev pub retry_window_ms : ℕ
retry_window_ms = 5000

abbrev pub retry_budget_ms : ℕ
retry_budget_ms = 20000

abbrev pub min_send_ms : ℕ
min_send_ms = 5000

unfoldable pub never_sent : Text → Bool
never_sent code = any (text_eq code) (
    codes "ECONNREFUSED"
    ∷ codes "ENOTFOUND"
    ∷ codes "EAI_AGAIN"
    ∷ codes "ENETUNREACH"
    ∷ codes "EHOSTUNREACH"
    ∷ codes "UND_ERR_CONNECT_TIMEOUT"
    ∷ [])

-- One `fetch` with its body read, and the time that it takes.
unfoldable pub call : Gateway → Request → Adapter → Reply × Adapter
call gateway request a =
    let log = request ∷ a.log in
    let (reply, elapsed) = gateway log in (reply, record a { now = a.now + elapsed; log = log })

abbrev pub unreachable : Problem
unreachable =
    problem 502 "Could not reach the payment service. Please try again or pay the attendant."

-- The loop of `fetchToken`: at most two attempts.
abbrev retried : Gateway → ℕ → Reply × Adapter → Reply × Adapter
retried gateway began (answered status body, a) = (answered status body, a)
retried gateway began (failed code, a) =
    if never_sent code && leb (a.now - began) retry_window_ms
    then call gateway sign_in a
    else (failed code, a)

unfoldable pub kept_token : Platform → ℕ → Fields → Text → Token
kept_token platform now fs token =
    let usual = now + 3300000 in
    let expiry : ℕ = elim (full_text (field_of fs (codes "expire"))) [
      | none ↦ usual
      | some text ↦ elim (platform.parse_date text) [ none ↦ usual | some t ↦ t - 60000 ]
    ] in
    record { token = token; expires = expiry; issued = now }

-- `response.ok`
abbrev pub is_ok : ℕ → Bool
is_ok status = leb 200 status && leb status 299

abbrev pub no_token : Problem
no_token =
    problem 502 "The payment service could not be reached. Please try again or pay the attendant."

unfoldable pub signed_in : Platform → Reply × Adapter → Result Text × Adapter
unfolding kept_token
signed_in platform (failed code, a) = (err unreachable, a)
signed_in platform (answered status body, a) =
    let fs = fields_in (field_of (platform.parse_fields body) (codes "data")) in
    elim (full_text (field_of fs (codes "accessToken"))) [
      | none ↦ (err no_token, a)
      | some token ↦
          if is_ok status
          then (ok token, record a { cached = some (kept_token platform a.now fs token) })
          else (err no_token, a)
    ]

unfoldable pub fetch_token : Env → Platform → Gateway → Adapter → Result Text × Adapter
unfolding signed_in call
fetch_token env platform gateway a =
    if is_empty env.app_name || is_empty env.client_id || is_empty env.client_secret
    then (err (problem 503 "Mobile payment is not configured."), a)
    else signed_in platform (retried gateway a.now (call gateway sign_in a))

unfoldable pub access_token : Env → Platform → Gateway → Adapter → Result Text × Adapter
unfolding fetch_token
access_token env platform gateway a = elim a.cached [
  | none ↦ fetch_token env platform gateway a
  | some t ↦ if ltb a.now t.expires then (ok t.token, a) else fetch_token env platform gateway a
]

-- Only the token that was rejected is dropped.
unfoldable pub forget_token : Text → Adapter → Adapter
forget_token rejected a = elim a.cached [
  | none ↦ a
  | some t ↦ if text_eq t.token rejected then record a { cached = none } else a
]

abbrev drop_slashes : Text → Text
drop_slashes [] = []
drop_slashes (c ∷ t) = if c == b'/' then drop_slashes t else c ∷ t

abbrev strip_slashes : Text → Text
strip_slashes t = reverse (drop_slashes (reverse t))

-- `apiBase()`
unfoldable pub api_base : Env → Text
api_base env =
    strip_slashes
      (if is_empty env.base_url then codes "https://checkout.azampay.co.tz" else env.base_url)

-- `sourceName()`
unfoldable pub source_name : Env → Text
source_name env = if is_empty env.source then codes "pastory" else env.source

abbrev misconfigured : Problem
misconfigured = problem 503 "Mobile payment is not configured correctly."

unfoldable pub checkout_url : Env → Platform → Result Text
unfolding api_base
checkout_url env platform =
    if is_empty (trim env.checkout_url)
    then ok (api_base env ++ codes "/azampay/mno/checkout")
    else elim (platform.parse_url (trim env.checkout_url)) [
      | none ↦ err misconfigured
      | some url ↦
          if not url.is_https || url.has_credentials then err misconfigured else ok url.href
    ]
