-- ===== src/Network/Bindings/Converges.antt =====
-- Once a plan is carried out, the next one has nothing to do.
use babushop_wifi.Base.{
  ◌≡◌, ap, sym, ◌∙◌, subst, arith, Text, codes, Bool, true, false, List, [], ◌∷◌, ◌++◌, some, find,
  select, text_eq, text_eq_refl, All, Bool-cases, Option-cases, inl, inr,
}
use mathlib.Core.List.{append_assoc, append-nil}
use babushop_wifi.Base.Chars.{to_upper}
use babushop_wifi.Base.Rows.{All-select, All-zip}
use babushop_wifi.Network.Bindings.{
  Binding, Wanted, has_key, is_healthy, sort_bindings, vip_id_of, vip_comment,
}
use babushop_wifi.Network.Bindings.Comments.{IsPortalId, vip_id_of-vip_comment}

abbrev pub bindings_in : List (Text × Binding) → List Binding
bindings_in [] = []
bindings_in (k ∷ ks) = k.1 ∷ bindings_in ks

-- The entries `ks`, after those of `acc`, are each the first that fits its device.
unfoldable pub IsTidy : List Wanted → List (Text × Binding) → List (Text × Binding) → Type 0
IsTidy wanted acc [] = Unit
IsTidy wanted acc (k ∷ ks) =
    (vip_id_of k.1.comment ≡ some k.0)
    × (is_healthy wanted k.0 k.1 acc ≡ true)
    × IsTidy wanted (acc ++ k ∷ []) ks

pub sort_bindings-tidy :
    (wanted : List Wanted) (acc ks : List (Text × Binding)) (remove : List Binding)
    → IsTidy wanted acc ks
    → sort_bindings wanted (bindings_in ks) acc remove ≡ (acc ++ ks, remove)
unfolding IsTidy sort_bindings
sort_bindings-tidy wanted acc [] remove h = ap (λ x. (x, remove)) (sym (append-nil acc))
sort_bindings-tidy wanted acc (k ∷ ks) remove h =
    rw (sort_bindings, h.0, h.1)
      (sort_bindings-tidy wanted (acc ++ k ∷ []) ks remove h.2
        ∙ ap (λ x. (x, remove)) (append_assoc acc (k ∷ []) ks))

pub IsTidy-append :
    (wanted : List Wanted) (acc ks ns : List (Text × Binding))
    → IsTidy wanted acc ks
    → IsTidy wanted (acc ++ ks) ns
    → IsTidy wanted acc (ks ++ ns)
unfolding IsTidy
IsTidy-append wanted acc [] ns h g = subst (λ x. IsTidy wanted x ns) (append-nil acc) g
IsTidy-append wanted acc (k ∷ ks) ns h g = (
  h.0,
  h.1,
  IsTidy-append wanted (acc ++ k ∷ []) ks ns h.2
      (subst (λ x. IsTidy wanted x ns) (sym (append_assoc acc (k ∷ []) ks)) g),
)

-- What the loop keeps is tidy.
pub sort_bindings-IsTidy :
    (wanted : List Wanted) (bs : List Binding) (acc : List (Text × Binding)) (remove : List Binding)
    → (ks : List (Text × Binding)) × ((sort_bindings wanted bs acc remove).0 ≡ acc ++ ks)
      × IsTidy wanted acc ks
unfolding IsTidy sort_bindings
sort_bindings-IsTidy wanted [] acc remove = ([], sym (append-nil acc), tt)
sort_bindings-IsTidy wanted (b ∷ bs) acc remove = elim (Option-cases (vip_id_of b.comment)) [
  | inl untagged ↦ rw (sort_bindings, untagged) (sort_bindings-IsTidy wanted bs acc remove)
  | inr (id, tagged) ↦ elim (Bool-cases (is_healthy wanted id b acc)) [
    | inl healthy ↦
        let (ks, same, tidy) = sort_bindings-IsTidy wanted bs (acc ++ (id, b) ∷ []) remove in
        (
          (id, b) ∷ ks,
          rw (sort_bindings, tagged, healthy) (same ∙ append_assoc acc ((id, b) ∷ []) ks),
          (tagged, healthy, tidy),
        )
    | inr unfit ↦
        rw (sort_bindings, tagged, unfit) (sort_bindings-IsTidy wanted bs acc (remove ++ b ∷ []))
  ]
]

-- No two devices of the list have the same id.
abbrev pub IsDistinct : List Wanted → Type 0
IsDistinct [] = Unit
IsDistinct (w ∷ ws) = All (λ x. text_eq w.id x.id ≡ false) ws × IsDistinct ws

-- A device as the portal stores it: its id, and its address in capitals.
abbrev pub IsStored : Wanted → Type 0
IsStored w = IsPortalId w.id × (to_upper w.mac ≡ w.mac)

-- The binding that the router makes for a device, under the id that it chooses.
unfoldable pub added : (Wanted → Text) → Wanted → Binding
added choose w = record {
  id = choose w;
  mac_address = w.mac;
  type = codes "bypassed";
  comment = vip_comment w.id w.name;
  disabled = codes "false";
}

abbrev pub entries : (Wanted → Text) → List Wanted → List (Text × Binding)
entries choose [] = []
entries choose (w ∷ ws) = (w.id, added choose w) ∷ entries choose ws

has_key-append :
    (id : Text) (xs ys : List (Text × Binding))
    → has_key id xs ≡ false
    → has_key id ys ≡ false
    → has_key id (xs ++ ys) ≡ false
has_key-append id [] ys h g = g
has_key-append id (x ∷ xs) ys h g = ground (arith, has_key-append id xs ys)

pub find-distinct :
    (ws : List Wanted) → IsDistinct ws → All (λ w. find (λ x. text_eq x.id w.id) ws ≡ some w) ws
find-distinct [] h = tt
find-distinct (w ∷ ws) h = (
  ground (arith, text_eq_refl w.id),
  All-zip (λ x apart found. ground arith) ws h.0 (find-distinct ws h.1),
)

pub IsDistinct-select :
    (p : Wanted → Bool) (ws : List Wanted) → IsDistinct ws → IsDistinct (select p ws)
IsDistinct-select p [] h = tt
IsDistinct-select p (w ∷ ws) h = elim (Bool-cases (p w)) [
  | inl yes_it ↦
      rw yes_it (All-select (λ x. text_eq w.id x.id ≡ false) p ws h.0, IsDistinct-select p ws h.1)
  | inr no_it ↦ rw no_it (IsDistinct-select p ws h.1)
]

added-healthy :
    (choose : Wanted → Text) (wanted : List Wanted) (acc : List (Text × Binding)) (w : Wanted)
    → find (λ x. text_eq x.id w.id) wanted ≡ some w
    → IsStored w
    → has_key w.id acc ≡ false
    → is_healthy wanted w.id (added choose w) acc ≡ true
unfolding is_healthy added
added-healthy choose wanted acc w found stored absent = ground (arith, text_eq_refl w.mac, stored.1)

pub entries-IsTidy :
    (choose : Wanted → Text) (wanted : List Wanted) (ws : List Wanted) (acc : List (Text × Binding))
    → All (λ w. find (λ x. text_eq x.id w.id) wanted ≡ some w) ws
    → All IsStored ws
    → All (λ w. has_key w.id acc ≡ false) ws
    → IsDistinct ws
    → IsTidy wanted acc (entries choose ws)
unfolding IsTidy added
entries-IsTidy choose wanted [] acc found stored absent distinct = tt
entries-IsTidy choose wanted (w ∷ ws) acc found stored absent distinct = (
  vip_id_of-vip_comment w.id w.name stored.0.0,
  added-healthy choose wanted acc w found.0 stored.0 absent.0,
  entries-IsTidy choose wanted ws (acc ++ (w.id, added choose w) ∷ []) found.1 stored.1
      (All-zip
        (λ x free apart. has_key-append x.id acc ((w.id, added choose w) ∷ []) free (ground arith))
        ws absent.1 distinct.0)
      distinct.1,
)
