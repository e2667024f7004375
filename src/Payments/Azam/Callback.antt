-- ===== src/Payments/Azam/Callback.antt =====
-- packages/payments/src/azam.provider.ts: `publicKey` and `verifyWebhook`. A body `null`, on which
-- the code throws, is refused here.
use babushop_wifi.Base.{
  ℕ, Text, codes, Bool, false, ◌&&◌, ◌||◌, not, [], ◌∷◌, ◌++◌, Option, none, some, ◌==◌,
  if◌then◌else◌, any, drop, text_eq,
}
use babushop_wifi.Base.Chars.{trim, is_space, to_lower}
use babushop_wifi.Base.Json.{Json, Fields, field_of, fields_in, text_of, full_text}
use babushop_wifi.Shop.Checkout.Handlers.{starts_with, is_empty}

-- The variables of the callback's checks, each empty where it is not set.
pub record CallbackEnv : Type 0 where
  pub token : Text
  pub public_key : Text
  pub allow_unsigned : Text

-- The platform's digest, signature check and readers: `sha256`, a verification by a key of a text and
-- a signature (no answer where it throws), `JSON.parse`, and `Math.round(Number(…))` of an amount.
pub record Crypto : Type 0 where
  pub sha256 : Text → Text
  pub verify : Text → Text → Text → Option Bool
  pub parse : Text → Option Json
  pub to_amount : Text → Option ℕ

-- The two headers that are read: `x-callback-token` and `authorization`.
pub record Headers : Type 0 where
  pub callback_token : Text
  pub authorization : Text

abbrev skip_spaces : Text → Text
unfolding is_space
skip_spaces [] = []
skip_spaces (c ∷ t) = if is_space c then skip_spaces t else c ∷ t

-- `.replace(/^Bearer\s+/i,'')`
unfoldable pub bearer : Text → Text
unfolding skip_spaces is_space starts_with to_lower
bearer t =
    if starts_with (to_lower t) (codes "bearer") && any is_space (first_of (drop 6 t))
    then skip_spaces (drop 6 t)
    else t
  where
    first_of : Text → Text
    first_of [] = []
    first_of (c ∷ cs) = c ∷ []

abbrev pub presented : Headers → Text
presented h = if is_empty h.callback_token then bearer h.authorization else h.callback_token

-- `publicKey()`: a key on one line has its line breaks written `\n`.
unfoldable pub unescape : Text → Text
unescape [] = []
unescape (a ∷ []) = a ∷ []
unescape (a ∷ b ∷ t) =
    let rest = unescape t in
    let step = unescape (b ∷ t) in if a == b'\\' && b == b'n' then 10 ∷ rest else a ∷ step

-- The four fields that AzamPay signs, in this order.
unfoldable pub signed_text : Fields → Text
unfolding field_of
signed_text body =
    text_of (field_of body (codes "utilityref"))
    ++ (text_of (field_of body (codes "externalreference"))
        ++ (text_of (field_of body (codes "transactionstatus"))
            ++ text_of (field_of body (codes "operator"))))

abbrev or_refused : Option Bool → Bool
or_refused none = false
or_refused (some b) = b

-- The check of a parsed body against the key.
unfoldable pub is_signed : Crypto → Text → Option Json → Bool
unfolding signed_text
is_signed crypto pem none = false
is_signed crypto pem (some body) =
    elim (full_text (field_of (fields_in body) (codes "signature"))) [
      | none ↦ false
      | some signature ↦ or_refused (crypto.verify pem (signed_text (fields_in body)) signature)
    ]

unfoldable pub verify_webhook : CallbackEnv → Crypto → Headers → Text → Bool
unfolding unescape is_signed bearer
verify_webhook env crypto h raw =
    let pem = unescape (trim env.public_key) in
    if is_empty env.token || is_empty (presented h)
    then false
    else if not (text_eq (crypto.sha256 (presented h)) (crypto.sha256 env.token))
    then false
    else if is_empty pem
    then text_eq env.allow_unsigned (codes "true")
    else is_signed crypto pem (crypto.parse raw)
