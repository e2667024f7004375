-- ===== src/Vip/Removal.antt =====
-- A device leaves the portal's list only together with its free pass.
use babushop_wifi.Base.{
  done, Answer-cases, ◌≡◌, refl, sym, ◌∙◌, subst, arith, Text, Bool, true, false, not, List, [],
  ◌∷◌, any, find, select, text_eq, text_eq_refl, eq_of_text_eq, All, All-map, Bool-cases,
  Option-cases, inl, inr, ◌⊎◌,
}
use babushop_wifi.Base.Rows.{find-passes}
use babushop_wifi.Network.Bindings.{Binding}
use babushop_wifi.Vip.Devices.{
  refused, Rest, Portal, is_tag_of, remove_binding, remove_each, clear, has_device_id,
}
use babushop_wifi.Vip.Handlers.{remove_vip}

-- What the router's documentation says of its bindings: a listing shows them and changes nothing,
-- and a removal that is not refused takes away those with the id, if there are any.
pub record IsLawful {R : Type 0} (rest : Rest R) (view : R → List Binding) : Type 0 where
  pub listing : (r : R) (bs : List Binding) → (rest.get r).0 ≡ done bs → bs ≡ view r
  pub listing_keeps : (r : R) → view (rest.get r).1 ≡ view r
  pub deletion :
      (id : Text) (r : R)
      → ((m : Text) × ((rest.delete id r).0 ≡ refused m))
        ⊎ (view (rest.delete id r).1 ≡ select (λ b. not (text_eq b.id id)) (view r))

All-select-passing {ℓ κ} :
    {A : Type ℓ} (P : A → Type κ) (p : A → Bool) (xs : List A)
    → All (λ x. p x ≡ true → P x) xs
    → All P (select p xs)
All-select-passing P p [] h = tt
All-select-passing P p (x ∷ xs) h = elim (Bool-cases (p x)) [
  | inl here ↦ rw here (h.0 here, All-select-passing P p xs h.1)
  | inr other ↦ rw other (All-select-passing P p xs h.1)
]

any-none {ℓ} :
    {A : Type ℓ} (p : A → Bool) (xs : List A)
    → All (λ x. p x ≡ true → false ≡ true) xs
    → any p xs ≡ false
any-none p [] h = refl
any-none p (x ∷ xs) h = elim (Bool-cases (p x)) [
  | inl here ↦ absurd (ground (arith, h.0 here))
  | inr other ↦ ground (arith, any-none p xs h.1)
]

-- Each binding of the view that carries the tag is one of those still to be removed.
abbrev Pending : Text → List Binding → List Binding → Type 0
Pending id bs view = All (λ x. is_tag_of id x ≡ true → any (λ b. text_eq x.id b.id) bs ≡ true) view

Pending-select : (id : Text) (view : List Binding) → Pending id (select (is_tag_of id) view) view
Pending-select id [] = tt
Pending-select id (x ∷ view) = (
  (λ tagged. ground (arith, text_eq_refl x.id)),
  All-map (λ y later tagged. ground (arith, later tagged)) view (Pending-select id view),
)

module _ {R : Type 0} (rest : Rest R) (view : R → List Binding) (lawful : IsLawful rest view) where
  remove_binding-view :
      (b : Binding) (r : R) {u : Unit {0}}
      → (remove_binding rest b r).0 ≡ done u
      → view (remove_binding rest b r).1 ≡ select (λ x. not (text_eq x.id b.id)) (view r)
  unfolding remove_binding
  remove_binding-view b r h = ground (arith, lawful.deletion b.id r)

  remove_each-view :
      (id : Text) (bs : List Binding) (r : R) {u : Unit {0}}
      → (remove_each rest bs r).0 ≡ done u
      → Pending id bs (view r)
      → any (is_tag_of id) (view (remove_each rest bs r).1) ≡ false
  unfolding remove_each
  remove_each-view id [] r h pending = any-none (is_tag_of id) (view r) pending
  remove_each-view id (b ∷ bs) r {u} h pending = elim (Answer-cases (remove_binding rest b r).0) [
    | inr (m, stopped) ↦ absurd (ground arith)
    | inl (v, gone) ↦
        let after = (remove_binding rest b r).1 in
        let left : Pending id bs (view after) =
          subst (Pending id bs) (sym (remove_binding-view b r gone)) (
            All-select-passing (λ x. is_tag_of id x ≡ true → any (λ c. text_eq x.id c.id) bs ≡ true)
              (λ x. not (text_eq x.id b.id)) (view r)
              (All-map (λ x mine other tagged. ground (arith, mine tagged)) (view r) pending)) in
        rw (remove_each, gone) (remove_each-view id bs after {u = u} (ground arith) left)
  ]

  clear-view :
      (id : Text) (r : R) {u : Unit {0}}
      → (clear rest id r).0 ≡ done u
      → any (is_tag_of id) (view (clear rest id r).1) ≡ false
  unfolding clear
  clear-view id r {u} h = elim (Answer-cases (rest.get r).0) [
    | inr (m, silent) ↦ absurd (ground arith)
    | inl (bs, listed) ↦
        let shown : bs ≡ view (rest.get r).1 =
          lawful.listing r bs listed ∙ sym (lawful.listing_keeps r) in
        let pending : Pending id (select (is_tag_of id) bs) (view (rest.get r).1) =
          subst (λ x. Pending id (select (is_tag_of id) bs) x) shown (Pending-select id bs) in
        rw (clear, listed)
          (remove_each-view id (select (is_tag_of id) bs) (rest.get r).1 {u = u} (ground arith)
            pending)
  ]

  -- Removing a device leaves the list as it was, or leaves no binding of the device on the router: a
  -- free pass never stays behind without a record. The router is one that lists and removes its
  -- bindings as documented.
  pub remove_vip_clears :
      (id : Text) (p : Portal R)
      → ((remove_vip rest id p).1.devices ≡ p.devices)
        ⊎ (any (is_tag_of id) (view (remove_vip rest id p).1.router) ≡ false)
  unfolding remove_vip
  remove_vip_clears id p = elim (Option-cases (find (has_device_id id) p.devices)) [
    | inl unknown ↦ inl (rw (remove_vip, unknown) refl)
    | inr (d, found) ↦
        let same : d.id ≡ id =
          eq_of_text_eq d.id id (find-passes (λ x. 0) (has_device_id id) p.devices found) in
        elim (Answer-cases (clear rest d.id p.router).0) [
          | inr (m, stopped) ↦ inl (rw (remove_vip, found, stopped) refl)
          | inl (u, cleared) ↦ inr (
              rw (remove_vip, found, cleared)
                (subst (λ k. any (is_tag_of k) (view (clear rest d.id p.router).1) ≡ false) same
                  (clear-view d.id p.router cleared)))
        ]
  ]
