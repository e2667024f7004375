-- ===== src/Shop/Checkout/Callbacks.antt =====
-- Provider callbacks: what a webhook must have checked before it sells, and what a repeated one does.
use babushop_wifi.Base.{
  ℕ, ◌≡◌, refl, ap, subst, sym, ◌∙◌, arith, Text, Bool, true, false, Option, none, some, List, [],
  ◌∷◌, ◌++◌, find, any, ok, Option-cases, Bool-cases, inl, inr, ◌⊎◌, tx_keeps, text_eq_refl,
}
use babushop_wifi.Shop.State.{Shop, Intent}
use babushop_wifi.Shop.Checkout.{Alerts, settle, release}
use babushop_wifi.Shop.Checkout.Settled.{settle-events, release-events}
use babushop_wifi.Shop.Checkout.Handlers.{
  Provider, NormalizedEvent, Callback, ForwardEnv, is_named, is_recorded, record_event,
  amount_matches, says_paid, on_paid, on_event, reason_of, receive, webhook,
}

any-append_last {ℓ} :
    {A : Type ℓ} (p : A → Bool) (xs : List A) (x : A) → p x ≡ true → any p (xs ++ x ∷ []) ≡ true
any-append_last p [] x h = ground arith
any-append_last p (y ∷ ys) x h = ground (arith, any-append_last p ys x h)

-- What a paid event does, besides its answer.
on_paid-events :
    (p : Provider) (a : Alerts) (now : ℕ) (uuid : Text) (c : Callback) (i : Intent) (s : Shop)
    → (on_paid p a now uuid c i s).1.events ≡ s.events
unfolding on_paid
on_paid-events p a now uuid c i s = ground (
  arith,
  tx_keeps (λ t. t.events ≡ s.events) (settle a now uuid i.id) s refl
      (λ j t done. settle-events a now uuid i.id s done),
)

on_event-events :
    (p : Provider) (a : Alerts) (env : ForwardEnv) (now : ℕ) (uuid : Text) (c : Callback)
    (i : Option Intent) (s : Shop)
    → (on_event p a env now uuid c i s).1.events ≡ s.events
unfolding on_event
on_event-events p a env now uuid c none s = ground arith
on_event-events p a env now uuid c (some i) s = ground (
  arith,
  on_paid-events p a now uuid c i s,
  tx_keeps (λ t. t.events ≡ s.events) (release i.id (reason_of c.event)) s refl
      (λ j t done. (release-events i.id (reason_of c.event) s done).0),
)

-- What a webhook knows when it sells: the signature holds, the event is new, it names a purchase of
-- the same amount and says that it is paid, and a provider that signs nothing confirmed it.
pub record IsConfirmed (p : Provider) (c : Callback) (s : Shop) : Type 0 where
  pub signed : c.verified ≡ true
  pub ours : c.captured ≡ ok false
  pub new : any (is_recorded p c.event) s.events ≡ false
  pub intent : Intent
  pub named : find (is_named p c.event) s.intents ≡ some intent
  pub amount : amount_matches c.event.amount intent.amount_tzs ≡ true
  pub claimed : p.reads_paid c.event.status ≡ true
  pub confirmed : (p.confirms_out_of_band ≡ false) ⊎ (says_paid c.confirmed ≡ true)

on_paid_sells :
    (p : Provider) (a : Alerts) (now : ℕ) (uuid : Text) (c : Callback) (i : Intent) (s : Shop)
    → ((on_paid p a now uuid c i s).1.sales ≡ s.sales)
      ⊎ ((amount_matches c.event.amount i.amount_tzs ≡ true)
          × ((p.confirms_out_of_band ≡ false) ⊎ (says_paid c.confirmed ≡ true)))
unfolding on_paid
on_paid_sells p a now uuid c i s = ground arith

on_event_sells :
    (p : Provider) (a : Alerts) (env : ForwardEnv) (now : ℕ) (uuid : Text) (c : Callback)
    (i : Intent) (s : Shop)
    → ((on_event p a env now uuid c (some i) s).1.sales ≡ s.sales)
      ⊎ ((amount_matches c.event.amount i.amount_tzs ≡ true)
          × (p.reads_paid c.event.status ≡ true)
          × ((p.confirms_out_of_band ≡ false) ⊎ (says_paid c.confirmed ≡ true)))
unfolding on_event
on_event_sells p a env now uuid c i s = ground (
  arith,
  on_paid_sells p a now uuid c i s,
  tx_keeps (λ t. t.sales ≡ s.sales) (release i.id (reason_of c.event)) s refl
      (λ j t done. (release-events i.id (reason_of c.event) s done).1),
)

forward-sales :
    (p : Provider) (a : Alerts) (env : ForwardEnv) (now : ℕ) (uuid : Text) (c : Callback) (s : Shop)
    → (on_event p a env now uuid c none s).1.sales ≡ s.sales
unfolding on_event
forward-sales p a env now uuid c s = ground arith

receive_sells :
    (p : Provider) (a : Alerts) (env : ForwardEnv) (now : ℕ) (uuid : Text) (c : Callback) (s : Shop)
    → c.verified ≡ true
    → c.captured ≡ ok false
    → ((receive p a env now uuid c s).1.sales ≡ s.sales) ⊎ IsConfirmed p c s
unfolding receive
receive_sells p a env now uuid c s signed ours =
    elim (Bool-cases (any (is_recorded p c.event) s.events)) [
      | inl replayed ↦ inl (rw replayed)
      | inr new ↦ rw new (elim (Option-cases (find (is_named p c.event) s.intents)) [
        | inl foreign ↦
            inl (rw foreign (forward-sales p a env now uuid c (record_event p c.event none s)))
        | inr (i, named) ↦
            rw named
              (elim (on_event_sells p a env now uuid c i (record_event p c.event (some i) s)) [
                | inl same ↦ inl same
                | inr (amount, claimed, confirmed) ↦ inr (record {
                  signed = signed;
                  ours = ours;
                  new = new;
                  intent = i;
                  named = named;
                  amount = amount;
                  claimed = claimed;
                  confirmed = confirmed;
                })
              ])
      ])
    ]

webhook_received :
    (p : Provider) (a : Alerts) (env : ForwardEnv) (now : ℕ) (uuid : Text) (c : Callback) (s : Shop)
    → c.verified ≡ true
    → c.captured ≡ ok false
    → webhook (some p) a env now uuid c s ≡ receive p a env now uuid c s
unfolding webhook
webhook_received p a env now uuid c s signed ours = ground arith

webhook_turned_away :
    (p : Provider) (a : Alerts) (env : ForwardEnv) (now : ℕ) (uuid : Text) (c : Callback) (s : Shop)
    → ((webhook (some p) a env now uuid c s).1.sales ≡ s.sales)
      ⊎ ((c.verified ≡ true) × (c.captured ≡ ok false))
unfolding webhook
webhook_turned_away p a env now uuid c s = ground arith

-- A webhook leaves the sales as they were unless the signature of the callback holds, the event was
-- not recorded before, it names a purchase of its amount and says that it is paid, and the provider
-- confirmed the payment if its callbacks are to be confirmed.
pub webhook_sells :
    (p : Provider) (a : Alerts) (env : ForwardEnv) (now : ℕ) (uuid : Text) (c : Callback) (s : Shop)
    → ((webhook (some p) a env now uuid c s).1.sales ≡ s.sales) ⊎ IsConfirmed p c s
webhook_sells p a env now uuid c s = elim (webhook_turned_away p a env now uuid c s) [
  | inl same ↦ inl same
  | inr (signed, ours) ↦
      subst (λ r. (r.1.sales ≡ s.sales) ⊎ IsConfirmed p c s)
        (sym (webhook_received p a env now uuid c s signed ours))
        (receive_sells p a env now uuid c s signed ours)
]

recorded_after :
    (p : Provider) (e : NormalizedEvent) (i : Option Intent) (s : Shop)
    → any (is_recorded p e) (record_event p e i s).events ≡ true
recorded_after p e i s =
    any-append_last (is_recorded p e) s.events _
      (ground (arith, text_eq_refl p.name, text_eq_refl e.id))

receive_again :
    (p : Provider) (a b : Alerts) (env : ForwardEnv) (now later : ℕ) (uuid uuid' : Text)
    (c : Callback) (s : Shop)
    → receive p b env later uuid' c (receive p a env now uuid c s).1
      ≡ (ok tt, (receive p a env now uuid c s).1)
unfolding receive
receive_again p a b env now later uuid uuid' c s =
    elim (Bool-cases (any (is_recorded p c.event) s.events)) [
      | inl replayed ↦ rw replayed (rw replayed)
      | inr new ↦ rw new (
          rw (
            ap (any (is_recorded p c.event))
              (on_event-events p a env now uuid c i (record_event p c.event i s))
            ∙ recorded_after p c.event i s))
    ]
  where
    i : Option Intent
    i = find (is_named p c.event) s.intents

-- A callback whose signature holds and that the music relay does not keep changes nothing when it
-- is delivered again, and is acknowledged, whatever its first delivery did and whether that
-- succeeded.
pub webhook_again :
    (p : Provider) (a b : Alerts) (env : ForwardEnv) (now later : ℕ) (uuid uuid' : Text)
    (c : Callback) (s : Shop)
    → c.verified ≡ true
    → c.captured ≡ ok false
    → webhook (some p) b env later uuid' c (webhook (some p) a env now uuid c s).1
      ≡ (ok tt, (webhook (some p) a env now uuid c s).1)
webhook_again p a b env now later uuid uuid' c s signed ours =
    ap (λ r. webhook (some p) b env later uuid' c r.1) first
    ∙ webhook_received p b env later uuid' c _ signed ours
    ∙ receive_again p a b env now later uuid uuid' c s
    ∙ ap (λ r. (ok tt, r.1)) (sym first)
  where
    first : webhook (some p) a env now uuid c s ≡ receive p a env now uuid c s
    first = webhook_received p a env now uuid c s signed ours
