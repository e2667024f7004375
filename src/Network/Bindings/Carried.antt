-- ===== src/Network/Bindings/Carried.antt =====
-- A plan that was carried out leaves nothing to do.
use babushop_wifi.Base.{
  ◌≡◌, refl, ap, sym, ◌∙◌, subst, arith, Text, Bool, true, false, not, List, [], ◌∷◌, ◌++◌, map,
  some, any, find, select, text_eq, text_eq_refl, All, All-map, Bool-cases, Option-cases, inl, inr,
  is_some,
}
use babushop_wifi.Base.Rows.{All-select}
use babushop_wifi.Network.Bindings.{Binding, Wanted, has_key, sort_bindings, reconcile, vip_id_of}
use babushop_wifi.Network.Bindings.Converges.{
  bindings_in, IsTidy, IsDistinct, IsStored, added, entries, sort_bindings-tidy, IsTidy-append,
  sort_bindings-IsTidy, find-distinct, IsDistinct-select, entries-IsTidy,
}

abbrev pub is_tagged : Binding → Bool
is_tagged b = is_some (vip_id_of b.comment)

-- Bindings that carry no tag are passed over.
sort_bindings-tagged :
    (wanted : List Wanted) (bs : List Binding) (acc : List (Text × Binding)) (remove : List Binding)
    → sort_bindings wanted bs acc remove ≡ sort_bindings wanted (select is_tagged bs) acc remove
unfolding sort_bindings
sort_bindings-tagged wanted [] acc remove = refl
sort_bindings-tagged wanted (b ∷ bs) acc remove = elim (Option-cases (vip_id_of b.comment)) [
  | inl untagged ↦ ground (arith, sort_bindings-tagged wanted bs acc remove)
  | inr (id, tagged) ↦ rw (tagged, sort_bindings, tagged) (sort_bindings-tagged wanted bs _ _)
]

bindings_in-entries :
    (choose : Wanted → Text) (ks : List (Text × Binding)) (ws : List Wanted)
    → bindings_in (ks ++ entries choose ws) ≡ bindings_in ks ++ map (added choose) ws
bindings_in-entries choose [] [] = refl
bindings_in-entries choose [] (w ∷ ws) =
    ap (λ x. added choose w ∷ x) (bindings_in-entries choose [] ws)
bindings_in-entries choose (k ∷ ks) ws = ap (λ x. k.1 ∷ x) (bindings_in-entries choose ks ws)

has_key-entries :
    (choose : Wanted → Text) (id : Text) (ks : List (Text × Binding)) (ws : List Wanted)
    → any (λ w. text_eq w.id id) ws ≡ true
    → has_key id (ks ++ entries choose ws) ≡ true
has_key-entries choose id [] [] h = cc
has_key-entries choose id [] (w ∷ ws) h = ground (arith, has_key-entries choose id [] ws)
has_key-entries choose id (k ∷ ks) ws h = ground (arith, has_key-entries choose id ks ws h)

has_key-kept :
    (choose : Wanted → Text) (id : Text) (ks : List (Text × Binding)) (ws : List Wanted)
    → has_key id ks ≡ true
    → has_key id (ks ++ entries choose ws) ≡ true
has_key-kept choose id [] ws h = cc
has_key-kept choose id (k ∷ ks) ws h = ground (arith, has_key-kept choose id ks ws)

select-present :
    (p : Wanted → Bool) (ws : List Wanted)
    → All (λ w. p w ≡ true → any (λ x. text_eq x.id w.id) (select p ws) ≡ true) ws
select-present p [] = tt
select-present p (w ∷ ws) = (
  (λ h. ground (arith, text_eq_refl w.id)),
  All-map (λ x later h. ground (arith, later h)) ws (select-present p ws),
)

select-none : (p : Wanted → Bool) (ws : List Wanted) → All (λ w. p w ≡ false) ws → select p ws ≡ []
select-none p [] h = refl
select-none p (w ∷ ws) h = ground (arith, select-none p ws h.1)

select-passes : (p : Wanted → Bool) (ws : List Wanted) → All (λ w. p w ≡ true) (select p ws)
select-passes p [] = tt
select-passes p (w ∷ ws) = elim (Bool-cases (p w)) [
  | inl here ↦ rw here (here, select-passes p ws)
  | inr other ↦ rw other (select-passes p ws)
]

module _ (choose : Wanted → Text) (wanted : List Wanted) (bindings router : List Binding) where
  entries_cover :
      (kept : List (Text × Binding))
      → All
          (λ w.
            not
              (has_key w.id (kept ++ entries choose (select (λ x. not (has_key x.id kept)) wanted)))
            ≡ false)
          wanted
  entries_cover kept =
      All-map
        (λ w present. elim (Bool-cases (has_key w.id kept)) [
          | inl old ↦ ground (
            arith,
            has_key-kept choose w.id kept (select (λ x. not (has_key x.id kept)) wanted) old,
          )
          | inr new ↦ ground (
            arith,
            has_key-entries choose w.id kept (select (λ x. not (has_key x.id kept)) wanted)
                (present (ground arith)),
          )
        ])
        wanted (select-present (λ x. not (has_key x.id kept)) wanted)

  -- If the router's tagged bindings are those that the plan keeps and those that it adds, under
  -- whatever ids the router chooses, then the next plan adds and removes nothing. The devices have
  -- distinct ids and are stored in the portal's forms.
  pub reconcile_settles :
      IsDistinct wanted
      → All IsStored wanted
      → select is_tagged router
        ≡ bindings_in (reconcile wanted bindings).kept
          ++ map (added choose) (reconcile wanted bindings).add
      → reconcile wanted router ≡ record {
        add = [];
        remove = [];
        kept = (reconcile wanted bindings).kept ++ entries choose (reconcile wanted bindings).add;
      }
  unfolding reconcile
  reconcile_settles distinct stored carried =
      let kept = (sort_bindings wanted bindings [] []).0 in
      let fresh = select (λ w. not (has_key w.id kept)) wanted in
      let (ks, same, tidy) = sort_bindings-IsTidy wanted bindings [] [] in
      let clean : IsTidy wanted [] kept = subst (IsTidy wanted []) (sym same) tidy in
      let all_clean : IsTidy wanted [] (kept ++ entries choose fresh) =
        IsTidy-append wanted [] kept (entries choose fresh) clean (
          entries-IsTidy choose wanted fresh kept
            (All-select (λ w. find (λ x. text_eq x.id w.id) wanted ≡ some w)
              (λ w. not (has_key w.id kept)) wanted (find-distinct wanted distinct))
            (All-select IsStored (λ w. not (has_key w.id kept)) wanted stored)
            (All-map (λ w h. ground arith) fresh
              (select-passes (λ w. not (has_key w.id kept)) wanted))
            (IsDistinct-select (λ w. not (has_key w.id kept)) wanted distinct)) in
      let sorted : sort_bindings wanted router [] [] ≡ (kept ++ entries choose fresh, []) =
        sort_bindings-tagged wanted router [] []
        ∙ ap (λ bs. sort_bindings wanted bs [] [])
            (carried ∙ sym (bindings_in-entries choose kept fresh))
        ∙ sort_bindings-tidy wanted [] (kept ++ entries choose fresh) [] all_clean in
      let nothing =
        select-none (λ w. not (has_key w.id (kept ++ entries choose fresh))) wanted
          (entries_cover kept) in
      ap
        (λ r. record {
          add = select (λ w. not (has_key w.id r.0)) wanted;
          remove = r.1;
          kept = r.0;
        })
        sorted
      ∙ ap (λ x. record { add = x; remove = []; kept = kept ++ entries choose fresh }) nothing
