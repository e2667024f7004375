-- ===== src/Network/Offers/Best.antt =====
-- The choice of the offer whose free time lasts longest.
use babushop_wifi.Base.{
  ℕ, ◌≤◌, ◌≡◌, refl, ◌∙◌, sym, subst, arith, List, [], ◌∷◌, Option, none, some, ltb, if◌then◌else◌,
  All, Option-cases, Bool-cases, inl, inr, ◌⊎◌,
}
use babushop_wifi.Network.Offers.{Offer, offer_window_end, longer, best_from, best_offer}

-- How the best of a list compares with the offers on it.
abbrev pub IsBest : ℕ → Option (Offer × ℕ) → Offer → Type 0
IsBest now none o = offer_window_end o now ≡ none
IsBest now (some (p, best)) o =
    (offer_window_end o now ≡ none) ⊎ ((e : ℕ) × (offer_window_end o now ≡ some e) × (e ≤ best))

-- The offer stands on the list.
abbrev pub Among : Offer → List Offer → Type 0
Among o [] = ⊥
Among o (p ∷ ps) = (p ≡ o) ⊎ Among o ps

-- A choice is no worse than another.
abbrev AtLeast : Option (Offer × ℕ) → Option (Offer × ℕ) → Type 0
AtLeast b none = Unit
AtLeast none (some (p, e)) = ⊥
AtLeast (some (q, f)) (some (p, e)) = e ≤ f

AtLeast-self : (b : Option (Offer × ℕ)) → AtLeast b b
AtLeast-self none = tt
AtLeast-self (some (p, e)) = omega arith

AtLeast-trans : (a b c : Option (Offer × ℕ)) → AtLeast a b → AtLeast b c → AtLeast a c
AtLeast-trans a b none x y = tt
AtLeast-trans a none (some (p, e)) x y = absurd y
AtLeast-trans none (some (q, f)) (some (p, e)) x y = absurd x
AtLeast-trans (some (r, g)) (some (q, f)) (some (p, e)) x y = omega arith

-- One round of the loop.
abbrev round : Option (Offer × ℕ) → Offer → ℕ → Option (Offer × ℕ)
round best o now = elim (offer_window_end o now) [
  | none ↦ best
  | some e ↦ if longer best e then some (o, e) else best
]

round_better :
    (best : Option (Offer × ℕ)) (o : Offer) (now : ℕ)
    → AtLeast (round best o now) best × IsBest now (round best o now) o
round_better best o now = elim (Option-cases (offer_window_end o now)) [
  | inl shut ↦ elim (Option-cases best) [
    | inl first ↦ rw (round, shut, first) (tt, shut)
    | inr ((p, e), before) ↦ rw (round, shut, before) (omega arith, inl shut)
  ]
  | inr (e, open_now) ↦ elim (Option-cases best) [
    | inl first ↦ rw (round, open_now, first) (tt, inr (e, open_now, omega arith))
    | inr ((p, f), before) ↦ elim (Bool-cases (ltb f e)) [
      | inl more ↦ rw (round, open_now, before, more) (ground arith, inr (e, open_now, omega arith))
      | inr less ↦ rw (round, open_now, before, less) (omega arith, inr (e, open_now, ground arith))
    ]
  ]
]

IsBest-AtLeast :
    (now : ℕ) (b c : Option (Offer × ℕ)) (o : Offer) → AtLeast c b → IsBest now b o → IsBest now c o
IsBest-AtLeast now none none o x y = y
IsBest-AtLeast now none (some (q, f)) o x y = inl y
IsBest-AtLeast now (some (p, e)) none o x y = absurd x
IsBest-AtLeast now (some (p, e)) (some (q, f)) o x (inl y) = inl y
IsBest-AtLeast now (some (p, e)) (some (q, f)) o x (inr (g, y, z)) = inr (g, y, omega arith)

best_from_lem :
    (best : Option (Offer × ℕ)) (os : List Offer) (now : ℕ)
    → AtLeast (best_from best os now) best × All (IsBest now (best_from best os now)) os
unfolding best_from
best_from_lem best [] now = (AtLeast-self best, tt)
best_from_lem best (o ∷ os) now =
    let (better, all_rest) = best_from_lem (round best o now) os now in
    let (first, here) = round_better best o now in
    (
      AtLeast-trans _ (round best o now) best better first,
      (IsBest-AtLeast now (round best o now) _ o better here, all_rest),
    )

-- Where a choice comes from.
abbrev pub Origin : ℕ → List Offer → Option (Offer × ℕ) → Type 0
Origin now os none = Unit
Origin now os (some (o, e)) = Among o os × (offer_window_end o now ≡ some e)

Origin-cons :
    (now : ℕ) (o : Offer) (os : List Offer) (b : Option (Offer × ℕ))
    → Origin now os b
    → Origin now (o ∷ os) b
Origin-cons now o os none h = tt
Origin-cons now o os (some (p, e)) h = (inr h.0, h.1)

round_from :
    (best : Option (Offer × ℕ)) (o : Offer) (now : ℕ)
    → (round best o now ≡ best) ⊎ Origin now (o ∷ []) (round best o now)
round_from best o now = elim (Option-cases (offer_window_end o now)) [
  | inl shut ↦ inl (rw (round, shut) refl)
  | inr (e, open_now) ↦ elim (Bool-cases (longer best e)) [
    | inl more ↦ inr (rw (round, open_now, more) (inl refl, open_now))
    | inr less ↦ inl (rw (round, open_now, less) refl)
  ]
]

Origin-singleton :
    (now : ℕ) (o : Offer) (os : List Offer) (b : Option (Offer × ℕ))
    → Origin now (o ∷ []) b
    → Origin now (o ∷ os) b
Origin-singleton now o os none h = tt
Origin-singleton now o os (some (p, e)) (inl x, y) = (inl x, y)
Origin-singleton now o os (some (p, e)) (inr x, y) = absurd x

best_from-Origin :
    (best : Option (Offer × ℕ)) (os : List Offer) (now : ℕ)
    → (best_from best os now ≡ best) ⊎ Origin now os (best_from best os now)
unfolding best_from
best_from-Origin best [] now = inl refl
best_from-Origin best (o ∷ os) now = elim (best_from-Origin (round best o now) os now) [
  | inr later ↦ inr (Origin-cons now o os _ later)
  | inl same ↦ elim (round_from best o now) [
    | inl kept ↦ inl (same ∙ kept)
    | inr here ↦ inr (Origin-singleton now o os _ (subst (Origin now (o ∷ [])) (sym same) here))
  ]
]

-- The chosen offer is one of the offers, it is on until the time that is answered, and every offer
-- on the list is off or ends no later; if none is chosen, all of them are off.
pub best_offer_lem :
    (os : List Offer) (now : ℕ)
    → Origin now os (best_offer os now) × All (IsBest now (best_offer os now)) os
unfolding best_offer
best_offer_lem os now = elim (best_from-Origin none os now) [
  | inl same ↦ (rw same tt, (best_from_lem none os now).1)
  | inr chosen ↦ (chosen, (best_from_lem none os now).1)
]
