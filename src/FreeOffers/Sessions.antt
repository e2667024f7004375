-- ===== src/FreeOffers/Sessions.antt =====
-- What reports can do to the sessions of free offers.
use babushop_wifi.Base.{
  ℕ, ◌≤◌, ◌≡◌, refl, arith, Text, Bool, List, [], ◌∷◌, ◌++◌, Option, none, some, inl, inr, any,
  update, Bool-cases, Option-cases,
}
use babushop_wifi.FreeOffers.Records.{OfferSession, OfferBook}
use babushop_wifi.FreeOffers.Accounting.{
  OfferReport, login_for, is_offer_session, keep_first, grown_session, record_offer_accounting,
}

-- A stop stays as it was recorded.
abbrev pub IsKept : Option ℕ → Option ℕ → Type 0
IsKept none after = Unit
IsKept (some t) after = after ≡ some t

-- A session under the same offer, name, phone and router, with no less usage.
pub record IsGrown (x y : OfferSession) : Type 0 where
  pub offer : y.offer_id ≡ x.offer_id
  pub phone : y.client_mac ≡ x.client_mac
  pub user : y.username ≡ x.username
  pub router : y.nas ≡ x.nas
  pub session : y.session_id ≡ x.session_id
  pub seconds : x.session_seconds ≤ y.session_seconds
  pub upload : x.upload_bytes ≤ y.upload_bytes
  pub download : x.download_bytes ≤ y.download_bytes
  pub stop : IsKept x.stopped_at y.stopped_at

-- Each session of a list has grown into that at its place; new ones come after them.
pub data AreGrown : List OfferSession → List OfferSession → Type 0 where
  start : {ys : List OfferSession} → AreGrown [] ys
  next :
      {x y : OfferSession} {xs ys : List OfferSession}
      → IsGrown x y
      → AreGrown xs ys
      → AreGrown (x ∷ xs) (y ∷ ys)

IsKept-self : (t : Option ℕ) → IsKept t t
IsKept-self none = tt
IsKept-self (some t) = refl

keep_first-IsKept : (a b : Option ℕ) → IsKept a (keep_first a b)
keep_first-IsKept none b = tt
keep_first-IsKept (some t) b = refl

IsGrown-self : (x : OfferSession) → IsGrown x x
IsGrown-self x = record {
  offer = refl;
  phone = refl;
  user = refl;
  router = refl;
  session = refl;
  seconds = omega arith;
  upload = omega arith;
  download = omega arith;
  stop = IsKept-self x.stopped_at;
}

AreGrown-append : (xs : List OfferSession) (y : OfferSession) → AreGrown xs (xs ++ y ∷ [])
AreGrown-append [] y = start
AreGrown-append (x ∷ xs) y = next (IsGrown-self x) (AreGrown-append xs y)

AreGrown-self : (xs : List OfferSession) → AreGrown xs xs
AreGrown-self [] = start
AreGrown-self (x ∷ xs) = next (IsGrown-self x) (AreGrown-self xs)

grown_session-IsGrown :
    (now : ℕ) (e : OfferReport) (x : OfferSession) → IsGrown x (grown_session now e x)
grown_session-IsGrown now e x = record {
  offer = refl;
  phone = refl;
  user = refl;
  router = refl;
  session = refl;
  seconds = omega arith;
  upload = omega arith;
  download = omega arith;
  stop = keep_first-IsKept x.stopped_at _;
}

AreGrown-update :
    (p : OfferSession → Bool) (now : ℕ) (e : OfferReport) (xs : List OfferSession)
    → AreGrown xs (update p (grown_session now e) xs)
AreGrown-update p now e [] = start
AreGrown-update p now e (x ∷ xs) = elim (Bool-cases (p x)) [
  | inl mine ↦ rw mine (next (grown_session-IsGrown now e x) (AreGrown-update p now e xs))
  | inr other ↦ rw other (next (IsGrown-self x) (AreGrown-update p now e xs))
]

-- A report, in whatever order it comes, lets no session's usage fall, moves none to another offer,
-- and changes no stop that was recorded.
pub record_offer_accounting-AreGrown :
    (now : ℕ) (e : OfferReport) (mac nas : Text) (b : OfferBook)
    → AreGrown b.sessions (record_offer_accounting now e mac nas b).1.sessions
unfolding record_offer_accounting
record_offer_accounting-AreGrown now e mac nas b =
    elim (Option-cases (login_for mac e.username b.logins)) [
      | inl unexplained ↦ rw (record_offer_accounting, unexplained) (AreGrown-self b.sessions)
      | inr (l, signed_in) ↦ elim (Bool-cases (any (is_offer_session mac nas e) b.sessions)) [
        | inl known ↦
            rw (record_offer_accounting, signed_in, known)
              (AreGrown-update (is_offer_session mac nas e) now e b.sessions)
        | inr new ↦ rw (record_offer_accounting, signed_in, new) (AreGrown-append b.sessions _)
      ]
    ]
