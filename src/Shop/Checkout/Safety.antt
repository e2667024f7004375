-- ===== src/Shop/Checkout/Safety.antt =====
-- The handlers of the checkout keep the invariant of the sales tables, whether they succeed or fail.
use babushop_wifi.Base.{
  ℕ, ◌≡◌, refl, arith, Text, String, Bool, Option, none, some, List, [], ◌∷◌, take, select, Result,
  ok, err, tx, tx_keeps, ◌⊎◌, ltb, codes, ◌++◌, sym, subst, text_eq, Option-cases, Bool-cases, inl,
  inr, find,
}
use babushop_wifi.Crypto.{Cipher}
use babushop_wifi.Shop.State.{Shop, Intent}
use babushop_wifi.Shop.Tables.{Clock, audit}
use babushop_wifi.Shop.Checkout.{Purchase, Alerts, release, settle, open_intent, is_pending}
use babushop_wifi.Shop.Checkout.Soundness.{open_intent-IsSound, release-IsSound}
use babushop_wifi.Shop.Checkout.Settlement.{settle-IsSound}
use babushop_wifi.Shop.Checkout.Handlers.{
  Provider, PaymentStatus, Callback, Opened, ForwardEnv, is_named, start, finish_start,
  record_event, on_paid, on_event, reason_of, receive, webhook, refresh, reply_after, or_current,
  status, release_each, expire_stale, is_stale,
}
use babushop_wifi.Shop.Ledger.{IsSound}
use babushop_wifi.Shop.Ledger.Statements.{IsSound-carry}

audit-IsSound :
    (actor : Option ℕ) (action : String) (id : Option ℕ) (s : Shop)
    → IsSound s
    → IsSound (audit actor action id s)
audit-IsSound actor action id s sound = IsSound-carry s _ (omega arith) refl refl refl sound

release-tx-IsSound :
    (id : ℕ) (reason : Text) (s : Shop) → IsSound s → IsSound (tx (release id reason) s).1
release-tx-IsSound id reason s sound =
    tx_keeps IsSound (release id reason) s sound
      (λ o t done. release-IsSound id reason s done sound)

settle-tx-IsSound :
    (a : Alerts) (now : ℕ) (uuid : Text) (id : ℕ) (s : Shop)
    → IsSound s
    → IsSound (tx (settle a now uuid id) s).1
settle-tx-IsSound a now uuid id s sound =
    tx_keeps IsSound (settle a now uuid id) s sound
      (λ j t done. settle-IsSound a now uuid id s done sound)

finish_start-IsSound :
    (answer : Result Opened) (r : Result Intent × Shop)
    → IsSound r.1
    → IsSound (finish_start answer r).1
finish_start-IsSound answer (err e, t) sound = sound
finish_start-IsSound (err e) (ok i, t) sound =
    release-tx-IsSound i.id _ _ (audit-IsSound none _ (some i.id) t sound)
finish_start-IsSound (ok o) (ok i, t) sound = IsSound-carry t _ (omega arith) refl refl refl sound

pub start-IsSound :
    (p : Option Provider) (now : ℕ) (locked : ℕ → Bool) (reference claim_digest : Text)
    (input : Purchase) (answer : Result Opened) (s : Shop)
    → IsSound s
    → IsSound (start p now locked reference claim_digest input answer s).1
unfolding start
start-IsSound none now locked reference claim_digest input answer s sound = sound
start-IsSound (some p) now locked reference claim_digest input answer s sound =
    finish_start-IsSound answer _ (
      tx_keeps IsSound (open_intent now locked p.name reference claim_digest input) s sound
        (λ i t done.
          open_intent-IsSound now locked p.name reference claim_digest input s done sound))

on_paid-IsSound :
    (p : Provider) (a : Alerts) (now : ℕ) (uuid : Text) (c : Callback) (i : Intent) (s : Shop)
    → IsSound s
    → IsSound (on_paid p a now uuid c i s).1
unfolding on_paid
on_paid-IsSound p a now uuid c i s sound = ground (
  arith,
  settle-tx-IsSound a now uuid i.id s sound,
  audit-IsSound none "PAYMENT_CALLBACK_UNCONFIRMED" (some i.id) s sound,
)

on_event-IsSound :
    (p : Provider) (a : Alerts) (env : ForwardEnv) (now : ℕ) (uuid : Text) (c : Callback)
    (i : Option Intent) (s : Shop)
    → IsSound s
    → IsSound (on_event p a env now uuid c i s).1
unfolding on_event
on_event-IsSound p a env now uuid c none s sound =
    ground (arith, audit-IsSound none "PAYMENT_CALLBACK_FORWARDED" none s sound)
on_event-IsSound p a env now uuid c (some i) s sound = ground (
  arith,
  on_paid-IsSound p a now uuid c i s sound,
  release-tx-IsSound i.id (reason_of c.event) s sound,
)

receive-IsSound :
    (p : Provider) (a : Alerts) (env : ForwardEnv) (now : ℕ) (uuid : Text) (c : Callback) (s : Shop)
    → IsSound s
    → IsSound (receive p a env now uuid c s).1
unfolding receive
receive-IsSound p a env now uuid c s sound =
    ground (arith, on_event-IsSound p a env now uuid c i (record_event p c.event i s) recorded)
  where
    i : Option Intent
    i = find (is_named p c.event) s.intents

    recorded : IsSound (record_event p c.event i s)
    recorded = IsSound-carry s _ (omega arith) refl refl refl sound

pub webhook-IsSound :
    (p : Option Provider) (a : Alerts) (env : ForwardEnv) (now : ℕ) (uuid : Text) (c : Callback)
    (s : Shop)
    → IsSound s
    → IsSound (webhook p a env now uuid c s).1
unfolding webhook
webhook-IsSound none a env now uuid c s sound = sound
webhook-IsSound (some p) a env now uuid c s sound = ground (
  arith,
  receive-IsSound p a env now uuid c s sound,
  audit-IsSound none "PAYMENT_CALLBACK_REJECTED" none s sound,
)

or_current-IsSound :
    (i : Intent) (r : Result (Option Intent × Shop)) {j : Intent} {t : Shop}
    → or_current i r ≡ ok (j, t)
    → ((o : Option Intent) × (r ≡ ok (o, t)))
or_current-IsSound i (ok (some k, u)) h = (some k, ground arith)
or_current-IsSound i (ok (none, u)) h = (none, ground arith)
or_current-IsSound i (err e) h = absurd (ground arith)

-- A refresh leaves the shop alone, releases the purchase or settles it.
refresh_inv :
    (p : Option Provider) (a : Alerts) (clock : Clock) (uuid : Text) (live : Option PaymentStatus)
    (i : Intent) (s : Shop) {j : Intent} {t : Shop}
    → refresh p a clock uuid live i s ≡ ok (j, t)
    → (t ≡ s)
      ⊎ (((reason : Text) × (or_current i (release i.id reason s) ≡ ok (j, t)))
          ⊎ (settle a clock.db uuid i.id s ≡ ok (j, t)))
unfolding refresh
refresh_inv none a clock uuid live i s h = elim (Bool-cases (ltb i.expires_at clock.app)) [
  | inl late ↦ inr (inl (codes "Checkout expired", ground arith))
  | inr early ↦ inl (ground arith)
]
refresh_inv (some p) a clock uuid none i s h = elim (Bool-cases (ltb i.expires_at clock.app)) [
  | inl late ↦ inr (inl (codes "Checkout expired", ground arith))
  | inr early ↦ inl (ground arith)
]
refresh_inv (some p) a clock uuid (some live) i s h = elim (Bool-cases live.paid) [
  | inl done ↦ inr (inr (ground arith))
  | inr open_still ↦ elim (Bool-cases (p.reads_failure live.status)) [
    | inl failed ↦ inr (inl (codes "Payment " ++ live.status, ground arith))
    | inr going ↦ elim (Bool-cases (ltb i.expires_at clock.app)) [
      | inl late ↦ inr (inl (codes "Checkout expired", ground arith))
      | inr early ↦ inl (ground arith)
    ]
  ]
]

refresh-IsSound :
    (p : Option Provider) (a : Alerts) (clock : Clock) (uuid : Text) (live : Option PaymentStatus)
    (i : Intent) (s : Shop) {j : Intent} {t : Shop}
    → refresh p a clock uuid live i s ≡ ok (j, t)
    → IsSound s
    → IsSound t
refresh-IsSound p a clock uuid live i s {j} {t} h sound =
    elim (refresh_inv p a clock uuid live i s h) [
      | inl same ↦ subst IsSound (sym same) sound
      | inr (inl (reason, released)) ↦
          let (o, done) = or_current-IsSound i (release i.id reason s) released in
          release-IsSound i.id reason s done sound
      | inr (inr settled) ↦ settle-IsSound a clock.db uuid i.id s settled sound
    ]

reply_after_shop : (c : Cipher) (r : Result Intent × Shop) → (reply_after c r).1 ≡ r.1
reply_after_shop c (ok i, s) = refl
reply_after_shop c (err e, s) = refl

pub status-IsSound :
    (c : Cipher) (p : Option Provider) (a : Alerts) (clock : Clock) (uuid : Text)
    (live : Option PaymentStatus) (claim : Text) (s : Shop)
    → IsSound s
    → IsSound (status c p a clock uuid live claim s).1
unfolding status
status-IsSound c p a clock uuid live claim s sound =
    elim (Option-cases (find (λ i. text_eq i.claim_digest (c.context_digest claim)) s.intents)) [
      | inl missing ↦ rw (status, missing) sound
      | inr (i, found) ↦
          rw (status, found)
            (elim (Bool-cases (is_pending i.status)) [
              | inl waiting ↦
                  rw (waiting, reply_after_shop c (tx (refresh p a clock uuid live i) s))
                    (tx_keeps IsSound (refresh p a clock uuid live i) s sound
                      (λ j t done. refresh-IsSound p a clock uuid live i s done sound))
              | inr decided ↦ rw decided sound
            ])
    ]

release_each-IsSound : (is : List Intent) (s : Shop) → IsSound s → IsSound (release_each is s)
unfolding release_each
release_each-IsSound [] s sound = sound
release_each-IsSound (i ∷ is) s sound =
    release_each-IsSound is _ (release-tx-IsSound i.id (codes "Checkout expired") s sound)

pub expire_stale-IsSound : (now : ℕ) (s : Shop) → IsSound s → IsSound (expire_stale now s).1
unfolding expire_stale
expire_stale-IsSound now s sound =
    release_each-IsSound (take 50 (select (is_stale now) s.intents)) s sound
