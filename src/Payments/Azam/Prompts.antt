-- ===== src/Payments/Azam/Prompts.antt =====
-- How many PIN prompts one checkout can push to the buyer's phone.
use babushop_wifi.Base.{
  ℕ, ◌+◌, ◌-◌, ◌≤◌, ◌≡◌, refl, ap, ◌∙◌, arith, Text, Bool, List, [], ◌∷◌, ◌==◌, ltb, min,
  if◌then◌else◌, Bool-cases, Result-cases, inl, inr,
}
use babushop_wifi.Payments.Azam.Token.{
  Env, Platform, Payload, Request, sign_in, post, Reply, answered, failed, Gateway, Adapter,
  never_sent, call, signed_in, fetch_token, access_token, forget_token, checkout_url,
  retry_budget_ms, min_send_ms,
}
use babushop_wifi.Payments.Azam.Checkout.{
  CheckoutInput, payload_of, conclude, fail, resend_fresh, after_first, send_payload,
  create_checkout,
}

-- A reply which says that the gateway cannot have acted on the request: it rejected the token, or the
-- connection never got through.
abbrev pub is_refused : Reply → Bool
is_refused (answered status body) = status == 401
is_refused (failed code) = never_sent code

-- The payment requests of a log, newest first, that may have pushed a prompt.
unfoldable pub prompts : Gateway → List Request → ℕ
prompts gateway [] = 0
prompts gateway (sign_in ∷ log) = prompts gateway log
prompts gateway (post url token payload timeout ∷ log) =
    (if is_refused (gateway (post url token payload timeout ∷ log)).0 then 0 else 1)
    + prompts gateway log

module _ (gateway : Gateway) where
  fetch_token-prompts :
      (env : Env) (platform : Platform) (a : Adapter)
      → prompts gateway (fetch_token env platform gateway a).1.log ≡ prompts gateway a.log
  unfolding fetch_token signed_in call prompts
  fetch_token-prompts env platform a = ground arith

  access_token-prompts :
      (env : Env) (platform : Platform) (a : Adapter)
      → prompts gateway (access_token env platform gateway a).1.log ≡ prompts gateway a.log
  unfolding access_token
  access_token-prompts env platform a = ground (arith, fetch_token-prompts env platform a)

  forget_token-log : (token : Text) (a : Adapter) → (forget_token token a).log ≡ a.log
  unfolding forget_token
  forget_token-log token a = ground arith

  conclude-log :
      (platform : Platform) (used : Text) (reply : Reply) (a : Adapter)
      → (conclude platform used (reply, a)).1.log ≡ a.log
  unfolding conclude fail
  conclude-log platform used (failed code) a = refl
  conclude-log platform used (answered status body) a = ground (arith, forget_token-log used a)

  conclude-prompts :
      (platform : Platform) (url token used : Text) (payload : Payload) (timeout : ℕ) (a : Adapter)
      → prompts gateway
          (conclude platform used (call gateway (post url token payload timeout) a)).1.log
        ≤ prompts gateway a.log + 1
  unfolding call prompts
  conclude-prompts platform url token used payload timeout a =
      let request = post url token payload timeout in
      rw (conclude-log platform used (gateway (request ∷ a.log)).0 (call gateway request a).1)
        (ground arith)

  resend_fresh-prompts :
      (env : Env) (platform : Platform) (url : Text) (payload : Payload) (rejected : Text)
      (a : Adapter)
      → prompts gateway (resend_fresh env platform gateway url payload rejected a).1.log
        ≤ prompts gateway a.log + 1
  unfolding resend_fresh fail
  resend_fresh-prompts env platform url payload rejected a =
      let b = (access_token env platform gateway (forget_token rejected a)).1 in
      let kept : prompts gateway b.log ≡ prompts gateway a.log =
        access_token-prompts env platform (forget_token rejected a)
        ∙ ap (prompts gateway) (forget_token-log rejected a) in
      elim (Result-cases (access_token env platform gateway (forget_token rejected a)).0) [
        | inr (e, refusal) ↦ rw (resend_fresh, refusal) (omega (arith, kept))
        | inl (used, got) ↦
            rw (resend_fresh, got)
              (elim (Bool-cases (ltb (a.now + retry_budget_ms) (b.now + min_send_ms))) [
                | inl late ↦ rw late (omega (arith, kept))
                | inr early ↦ rw early (
                    omega (
                      arith,
                      kept,
                      conclude-prompts platform url used used payload
                          (min 20000 (a.now + retry_budget_ms - b.now)) b,
                    ))
              ])
      ]

  -- A reply that may have prompted is never followed by another attempt.
  after_first-prompts :
      (env : Env) (platform : Platform) (started : ℕ) (url : Text) (payload : Payload)
      (token : Text) (reply : Reply) (a : Adapter)
      → prompts gateway
          (after_first env platform gateway started url payload token (reply, a)).1.log
        ≤ prompts gateway a.log + (if is_refused reply then 1 else 0)
  unfolding after_first
  after_first-prompts env platform started url payload token (answered status body) a =
      let last = conclude-log platform token (answered status body) a in
      ground (
        arith,
        last,
        ap (prompts gateway) last,
        resend_fresh-prompts env platform url payload token a,
      )
  after_first-prompts env platform started url payload token (failed code) a =
      let last = conclude-log platform token (failed code) a in
      ground (
        arith,
        ap (prompts gateway) last,
        conclude-prompts platform url token token payload retry_budget_ms a,
      )

  send_payload-prompts :
      (env : Env) (platform : Platform) (payload : Payload) (a : Adapter)
      → prompts gateway (send_payload env platform gateway payload a).1.log
        ≤ prompts gateway a.log + 1
  unfolding send_payload fail call prompts
  send_payload-prompts env platform payload a =
      let b = (access_token env platform gateway a).1 in
      let kept = access_token-prompts env platform a in
      elim (Result-cases (access_token env platform gateway a).0) [
        | inr (e, refusal) ↦ rw (send_payload, refusal) (omega (arith, kept))
        | inl (token, got) ↦
            rw (send_payload, got)
              (elim (Result-cases (checkout_url env platform)) [
                | inr (e, no_url) ↦ rw no_url (omega (arith, kept))
                | inl (url, known) ↦
                    let request = post url token payload 20000 in
                    rw known (
                      ground (
                        arith,
                        kept,
                        after_first-prompts env platform a.now url payload token
                            (gateway (request ∷ b.log)).0 (call gateway request b).1,
                      ))
              ])
      ]

-- However the gateway answers and however long it takes, one checkout makes at most one payment
-- request that may have pushed a PIN prompt: every other one was answered by a 401 or never reached
-- the gateway.
pub create_checkout-prompts :
    (env : Env) (platform : Platform) (gateway : Gateway) (input : CheckoutInput) (a : Adapter)
    → prompts gateway (create_checkout env platform gateway input a).1.log
      ≤ prompts gateway a.log + 1
unfolding create_checkout
create_checkout-prompts env platform gateway input a = elim (Result-cases (payload_of env input)) [
  | inr (e, bad) ↦ rw (create_checkout, bad) (omega arith)
  | inl (payload, good) ↦
      rw (create_checkout, good) (send_payload-prompts gateway env platform payload a)
]
