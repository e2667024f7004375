-- ===== src/Shop/Radius/Entry.antt =====
-- What a voucher entitles to, and to what it does not.
use babushop_wifi.Base.{
  ℕ, suc, ◌≤◌, ◌<◌, ◌≡◌, refl, ap, sym, ◌∙◌, subst, arith, Text, Bool, true, false, ◌&&◌, Option,
  none, some, List, [], ◌∷◌, ◌++◌, if◌then◌else◌, find, ok, text_eq, text_eq_refl, eq_of_text_eq,
  Option-cases, Result-cases, inl, inr, ◌⊎◌,
}
use babushop_wifi.Crypto.{Cipher, normalize}
use babushop_wifi.Shop.State.{Shop, Voucher, Grant}
use babushop_wifi.Shop.Tables.{is_sold, audit}
use babushop_wifi.Shop.Radius.{
  mac, VoucherRequest, VoucherDecision, RadiusConfig, is_radius, is_active, activated, decision,
  has_voucher, use_voucher, chap_valid, grant_for, authorize_voucher,
}

-- The grant under which a device is let in.
abbrev pub IsEntitled : RadiusConfig → ℕ → Text → Voucher → VoucherDecision → Shop → Type 0
IsEntitled config now device v d t =
    (g : Grant) × (find (has_voucher v.id) t.grants ≡ some g)
    × (is_radius g.provider ≡ true)
    × (text_eq g.client_mac device ≡ true)
    × (is_active g.state ≡ true)
    × (d ≡ decision config v g)

find-append_end {ℓ} :
    {A : Type ℓ} (p : A → Bool) (xs : List A) (x : A)
    → find p xs ≡ none
    → p x ≡ true
    → find p (xs ++ x ∷ []) ≡ some x
find-append_end p [] x h y = ground arith
find-append_end p (z ∷ zs) x h y = ground (arith, find-append_end p zs x)

use_voucher_inv :
    (config : RadiusConfig) (now : ℕ) (device : Text) (v : Voucher) (s : Shop) {d : VoucherDecision}
    {t : Shop}
    → use_voucher config now device v s ≡ (some d, t)
    → IsEntitled config now device v d t × (t.vouchers ≡ s.vouchers)
unfolding use_voucher
use_voucher_inv config now device v s {d} {t} h =
    elim (Option-cases (find (has_voucher v.id) s.grants)) [
      | inl first ↦
          let after : t
              ≡ audit none "MIKROTIK_VOUCHER_ACTIVATED" (some s.next_id) (record s {
                next_id = suc s.next_id;
                grants = s.grants ++ (activated now device v s ∷ []);
              }) =
            ground arith in
          (
            (
              activated now device v s,
              ap (λ (x : Shop). find (has_voucher v.id) x.grants) after
                  ∙ find-append_end (has_voucher v.id) s.grants _ first (ground arith),
              refl,
              text_eq_refl device,
              refl,
              ground arith,
            ),
            ap (λ (x : Shop). x.vouchers) after,
          )
      | inr (g, found) ↦
          let same : t ≡ s = ground arith in
          (
            (
              g,
              ap (λ (x : Shop). find (has_voucher v.id) x.grants) same ∙ found,
              ground arith,
              ground arith,
              ground arith,
              ground arith,
            ),
            ap (λ (x : Shop). x.vouchers) same,
          )
    ]

use_voucher_answers :
    (config : RadiusConfig) (later : ℕ) (device : Text) (v : Voucher) (d : VoucherDecision)
    (t : Shop) (g : Grant)
    → find (has_voucher v.id) t.grants ≡ some g
    → (is_radius g.provider && text_eq g.client_mac device && is_active g.state) ≡ true
    → d ≡ decision config v g
    → later < d.expires_at
    → use_voucher config later device v t ≡ (some d, t)
unfolding use_voucher
use_voucher_answers config later device v d t g found good row early =
    let before : later < g.proposed_expires_at = subst (λ x. later < x.expires_at) row early in
    let e : use_voucher config later device v t ≡ (some (decision config v g), t) = ground arith in
    e ∙ ap (λ x. (some x, t)) (sym row)

-- The steps of an entry that is granted.
record IsGranted (md5 : List ℕ → List ℕ) (c : Cipher) (config : RadiusConfig) (now : ℕ)
    (r : VoucherRequest) (s : Shop) (d : VoucherDecision) (t : Shop) : Type 0 where
  live : config.live ≡ true
  code : Text
  device : Text
  voucher : Voucher
  typed : normalize r.username ≡ ok code
  address : mac r.client_mac ≡ ok device
  listed : find (λ (v : Voucher). text_eq v.code_digest (c.digest code)) s.vouchers ≡ some voucher
  paid_for : is_sold voucher.inventory ≡ true
  proved : chap_valid md5 c r voucher ≡ true
  used : use_voucher config now device voucher s ≡ (some d, t)

authorize_voucher_inv :
    (md5 : List ℕ → List ℕ) (c : Cipher) (config : RadiusConfig) (now : ℕ) (r : VoucherRequest)
    (s : Shop) {d : VoucherDecision} {t : Shop}
    → authorize_voucher md5 c config now r s ≡ (some d, t)
    → IsGranted md5 c config now r s d t
unfolding authorize_voucher grant_for
authorize_voucher_inv md5 c config now r s h = elim (Result-cases (normalize r.username)) [
  | inr (e, bad) ↦ absurd (ground arith)
  | inl (code, typed) ↦ elim (Result-cases (mac r.client_mac)) [
    | inr (e, bad) ↦ absurd (ground arith)
    | inl (device, address) ↦
        elim (Option-cases
          (find (λ (v : Voucher). text_eq v.code_digest (c.digest code)) s.vouchers)) [
            | inl unknown ↦ absurd (ground arith)
            | inr (v, listed) ↦ record {
              live = ground arith;
              code = code;
              device = device;
              voucher = v;
              typed = typed;
              address = address;
              listed = listed;
              paid_for = ground arith;
              proved = ground arith;
              used = ground arith;
            }
          ]
  ]
]

authorize_voucher_uses :
    (md5 : List ℕ → List ℕ) (c : Cipher) (config : RadiusConfig) (now : ℕ) (r : VoucherRequest)
    (s : Shop) {code device : Text} {v : Voucher}
    → config.live ≡ true
    → normalize r.username ≡ ok code
    → mac r.client_mac ≡ ok device
    → find (λ (w : Voucher). text_eq w.code_digest (c.digest code)) s.vouchers ≡ some v
    → is_sold v.inventory ≡ true
    → authorize_voucher md5 c config now r s
      ≡ (if chap_valid md5 c r v then use_voucher config now device v s else (none, s))
unfolding authorize_voucher grant_for
authorize_voucher_uses md5 c config now r s live typed address listed paid_for = ground arith

-- Once a device is let in, the same request is answered the same at any time before the end that
-- was granted: asking again neither extends the time nor writes anything.
pub authorize_voucher_again :
    (md5 : List ℕ → List ℕ) (c : Cipher) (config : RadiusConfig) (now later : ℕ)
    (r : VoucherRequest) (s : Shop) {d : VoucherDecision} {t : Shop}
    → authorize_voucher md5 c config now r s ≡ (some d, t)
    → later < d.expires_at
    → authorize_voucher md5 c config later r t ≡ (some d, t)
authorize_voucher_again md5 c config now later r s {d} {t} h early =
    let done = authorize_voucher_inv md5 c config now r s h in
    let ((g, found, radius, bound, on, row), same) =
      use_voucher_inv config now done.device done.voucher s done.used in
    let again =
      authorize_voucher_uses md5 c config later r t done.live done.typed done.address
        (ap (find (λ (v : Voucher). text_eq v.code_digest (c.digest done.code))) same ∙ done.listed)
        done.paid_for in
    let answers =
      use_voucher_answers config later done.device done.voucher d t g found (ground arith) row
        early in
    again
    ∙ ap (λ b. if b then use_voucher config later done.device done.voucher t else (none, t))
        done.proved
    ∙ answers

use_voucher_refuses :
    (config : RadiusConfig) (later : ℕ) (device : Text) (v : Voucher) (t : Shop) (g : Grant)
    → find (has_voucher v.id) t.grants ≡ some g
    → (text_eq g.client_mac device ≡ false) ⊎ (g.proposed_expires_at ≤ later)
    → (use_voucher config later device v t).0 ≡ none
unfolding use_voucher
use_voucher_refuses config later device v t g found why = ground arith

refused_either :
    (b : Bool) (x : Option VoucherDecision × Shop) (t : Shop)
    → x.0 ≡ none
    → (if b then x else (none, t)).0 ≡ none
refused_either true x t h = h
refused_either false x t h = refl

-- A voucher lets in one device and for one span of time: in the shop that an entry leaves, another
-- device that types the same code is refused at any time, and every device that types it is refused
-- from the granted end on.
pub authorize_voucher_other :
    (md5 : List ℕ → List ℕ) (c : Cipher) (config : RadiusConfig) (now later : ℕ)
    (r r' : VoucherRequest) (s : Shop) {d : VoucherDecision} {t : Shop} {code device device' : Text}
    → authorize_voucher md5 c config now r s ≡ (some d, t)
    → normalize r.username ≡ ok code
    → normalize r'.username ≡ ok code
    → mac r.client_mac ≡ ok device
    → mac r'.client_mac ≡ ok device'
    → (text_eq device device' ≡ false) ⊎ (d.expires_at ≤ later)
    → (authorize_voucher md5 c config later r' t).0 ≡ none
authorize_voucher_other md5 c config now later r r' s {d} {t} {code} {device} {device'} h typed
      typed' address address' why =
    let done = authorize_voucher_inv md5 c config now r s h in
    let ((g, found, radius, bound, on, row), same) =
      use_voucher_inv config now done.device done.voucher s done.used in
    let same_code : done.code ≡ code = cc in
    let same_device : done.device ≡ device = cc in
    let listed : find (λ (v : Voucher). text_eq v.code_digest (c.digest code)) t.vouchers
        ≡ some done.voucher =
      ap (find (λ (v : Voucher). text_eq v.code_digest (c.digest code))) same
      ∙ ap (λ k. find (λ (v : Voucher). text_eq v.code_digest (c.digest k)) s.vouchers)
          (sym same_code)
      ∙ done.listed in
    let answer =
      authorize_voucher_uses md5 c config later r' t done.live typed' address' listed
        done.paid_for in
    let held : g.client_mac ≡ device = eq_of_text_eq g.client_mac done.device bound ∙ same_device in
    let reason : (text_eq g.client_mac device' ≡ false) ⊎ (g.proposed_expires_at ≤ later) =
      elim why [
        | inl another ↦ inl (ap (λ x. text_eq x device') held ∙ another)
        | inr late ↦ inr (subst (λ x. x.expires_at ≤ later) row late)
      ] in
    ap (λ x. x.0) answer
    ∙ refused_either (chap_valid md5 c r' done.voucher) _ t
        (use_voucher_refuses config later device' done.voucher t g found reason)
