-- ===== src/Shop/Radius/Reports.antt =====
-- Accounting reports arrive twice and out of order.
use babushop_wifi.Base.{
  ℕ, ◌≡◌, refl, ap, sym, ◌∙◌, arith, max, Text, Bool, true, false, ◌&&◌, List, [], ◌∷◌, ◌++◌, ◌==◌,
  if◌then◌else◌, any, update, text_eq, text_eq_refl, Bool-cases, inl, inr,
}
use babushop_wifi.Shop.State.{Session}
use babushop_wifi.Shop.Radius.{Accounting, opened_row, merged_row, is_session, upsert}

-- What a session has used.
abbrev pub Usage : Type 0
Usage = ℕ × ℕ × ℕ

abbrev pub usage : Session → Usage
usage x = (x.session_seconds, x.upload_bytes, x.download_bytes)

abbrev pub usages : List Session → List Usage
usages [] = []
usages (x ∷ xs) = usage x ∷ usages xs

-- Merging the same row again.
merge_row : ℕ → ℕ → Text → Accounting → Session → Session
merge_row now grant_id nas e x =
    if is_session nas e x && x.grant_id == grant_id then merged_row now e x else x

max_again : (a b : ℕ) → max (max a b) b ≡ max a b
max_again a b = omega arith

max_swap : (a b c : ℕ) → max (max a b) c ≡ max (max a c) b
max_swap a b c = omega arith

any-update :
    (n : Text) (e : Accounting) (now grant_id : ℕ) (nas : Text) (d : Accounting) (xs : List Session)
    → any
        (is_session n e)
        (update (λ x. is_session nas d x && x.grant_id == grant_id) (merged_row now d) xs)
      ≡ any (is_session n e) xs
any-update n e now grant_id nas d [] = refl
any-update n e now grant_id nas d (x ∷ xs) = ground (arith, any-update n e now grant_id nas d xs)

update_again :
    (now later grant_id : ℕ) (nas : Text) (e : Accounting) (xs : List Session)
    → usages (
        update
          (λ x. is_session nas e x && x.grant_id == grant_id)
          (merged_row later e)
          (update (λ x. is_session nas e x && x.grant_id == grant_id) (merged_row now e) xs))
      ≡ usages (update (λ x. is_session nas e x && x.grant_id == grant_id) (merged_row now e) xs)
update_again now later grant_id nas e [] = refl
update_again now later grant_id nas e (x ∷ xs) =
    elim (Bool-cases (is_session nas e x && x.grant_id == grant_id)) [
      | inl mine ↦ ground (
        arith,
        update_again now later grant_id nas e xs,
        max_again x.session_seconds e.seconds,
        max_again x.upload_bytes e.upload,
        max_again x.download_bytes e.download,
      )
      | inr other ↦ ground (arith, update_again now later grant_id nas e xs)
    ]

any-append_row :
    (p : Session → Bool) (xs : List Session) (y : Session)
    → p y ≡ true
    → any p (xs ++ y ∷ []) ≡ true
any-append_row p [] y h = ground arith
any-append_row p (x ∷ xs) y h = ground (arith, any-append_row p xs y h)

-- Merging into the row that was just appended.
update_last :
    (now grant_id : ℕ) (nas : Text) (e : Accounting) (xs : List Session) (y : Session)
    → any (is_session nas e) xs ≡ false
    → is_session nas e y ≡ true
    → y.grant_id ≡ grant_id
    → update (λ x. is_session nas e x && x.grant_id == grant_id) (merged_row now e) (xs ++ y ∷ [])
      ≡ xs ++ merged_row now e y ∷ []
update_last now grant_id nas e [] y none_yet here mine = ground arith
update_last now grant_id nas e (x ∷ xs) y none_yet here mine =
    ground (arith, update_last now grant_id nas e xs y)

usages-append :
    (xs : List Session) (y z : Session)
    → usage y ≡ usage z
    → usages (xs ++ y ∷ []) ≡ usages (xs ++ z ∷ [])
usages-append [] y z h = ap (λ u. u ∷ []) h
usages-append (x ∷ xs) y z h = ap (λ us. usage x ∷ us) (usages-append xs y z h)

upsert_present :
    (now grant_id : ℕ) (nas : Text) (e : Accounting) (rows : List Session)
    → any (is_session nas e) rows ≡ true
    → upsert now grant_id nas e rows
      ≡ update (λ x. is_session nas e x && x.grant_id == grant_id) (merged_row now e) rows
unfolding upsert
upsert_present now grant_id nas e rows h = ground arith

upsert_absent :
    (now grant_id : ℕ) (nas : Text) (e : Accounting) (rows : List Session)
    → any (is_session nas e) rows ≡ false
    → upsert now grant_id nas e rows ≡ rows ++ opened_row now grant_id nas e ∷ []
unfolding upsert
upsert_absent now grant_id nas e rows h = ground arith

opened_here :
    (now grant_id : ℕ) (nas : Text) (d e : Accounting)
    → d.session_id ≡ e.session_id
    → is_session nas e (opened_row now grant_id nas d) ≡ true
opened_here now grant_id nas d e same = ground (arith, text_eq_refl nas, text_eq_refl e.session_id)

-- Two reports of a session that is not on record: the first opens it, the second is merged into it.
upsert_two :
    (now later grant_id : ℕ) (nas : Text) (d e : Accounting) (rows : List Session)
    → d.session_id ≡ e.session_id
    → any (is_session nas d) rows ≡ false
    → upsert later grant_id nas e (upsert now grant_id nas d rows)
      ≡ rows ++ merged_row later e (opened_row now grant_id nas d) ∷ []
upsert_two now later grant_id nas d e rows same absent =
    let here = opened_here now grant_id nas d e same in
    ap (upsert later grant_id nas e) (upsert_absent now grant_id nas d rows absent)
    ∙ upsert_present later grant_id nas e _ (any-append_row (is_session nas e) rows _ here)
    ∙ update_last later grant_id nas e rows _
        (ap (λ k. any (λ x. text_eq x.nas nas && text_eq x.session_id k) rows) (sym same) ∙ absent)
        here refl

-- A report that arrives again under its grant, at whatever time, leaves the usage of all sessions
-- as it was.
pub upsert_again :
    (now later grant_id : ℕ) (nas : Text) (e : Accounting) (rows : List Session)
    → usages (upsert later grant_id nas e (upsert now grant_id nas e rows))
      ≡ usages (upsert now grant_id nas e rows)
upsert_again now later grant_id nas e rows = elim (Bool-cases (any (is_session nas e) rows)) [
  | inr absent ↦
      ap usages (upsert_two now later grant_id nas e e rows refl absent)
      ∙ usages-append rows _ (opened_row now grant_id nas e) (ap (λ x. x) (ground arith))
      ∙ ap usages (sym (upsert_absent now grant_id nas e rows absent))
  | inl present ↦
      let first = upsert_present now grant_id nas e rows present in
      ap (λ x. usages (upsert later grant_id nas e x)) first
      ∙ ap usages (
          upsert_present later grant_id nas e _
            (any-update nas e now grant_id nas e rows ∙ present))
      ∙ update_again now later grant_id nas e rows
      ∙ ap usages (sym first)
]

update_swap :
    (t1 t2 t3 t4 grant_id : ℕ) (nas : Text) (d e : Accounting) (xs : List Session)
    → d.session_id ≡ e.session_id
    → usages (
        update
          (λ x. is_session nas e x && x.grant_id == grant_id)
          (merged_row t2 e)
          (update (λ x. is_session nas d x && x.grant_id == grant_id) (merged_row t1 d) xs))
      ≡ usages (
          update
            (λ x. is_session nas d x && x.grant_id == grant_id)
            (merged_row t4 d)
            (update (λ x. is_session nas e x && x.grant_id == grant_id) (merged_row t3 e) xs))
update_swap t1 t2 t3 t4 grant_id nas d e [] same = refl
update_swap t1 t2 t3 t4 grant_id nas d e (x ∷ xs) same =
    let alike : is_session nas d x ≡ is_session nas e x =
      ap (λ k. text_eq x.nas nas && text_eq x.session_id k) same in
    elim (Bool-cases (is_session nas e x && x.grant_id == grant_id)) [
      | inl mine ↦ ground (
        arith,
        update_swap t1 t2 t3 t4 grant_id nas d e xs same,
        alike,
        max_swap x.session_seconds d.seconds e.seconds,
        max_swap x.upload_bytes d.upload e.upload,
        max_swap x.download_bytes d.download e.download,
      )
      | inr other ↦ ground (arith, update_swap t1 t2 t3 t4 grant_id nas d e xs same, alike)
    ]

-- Two reports of one session, under one grant and from one router, leave the same usage in either
-- order of arrival, at whatever times.
pub upsert_swap :
    (t1 t2 t3 t4 grant_id : ℕ) (nas : Text) (d e : Accounting) (rows : List Session)
    → d.session_id ≡ e.session_id
    → usages (upsert t2 grant_id nas e (upsert t1 grant_id nas d rows))
      ≡ usages (upsert t4 grant_id nas d (upsert t3 grant_id nas e rows))
upsert_swap t1 t2 t3 t4 grant_id nas d e rows same =
    let alike : any (is_session nas d) rows ≡ any (is_session nas e) rows =
      ap (λ k. any (λ x. text_eq x.nas nas && text_eq x.session_id k) rows) same in
    elim (Bool-cases (any (is_session nas d) rows)) [
      | inr absent ↦
          ap usages (upsert_two t1 t2 grant_id nas d e rows same absent)
          ∙ usages-append rows _ _ (ground arith)
          ∙ ap usages (sym (upsert_two t3 t4 grant_id nas e d rows (sym same) (sym alike ∙ absent)))
      | inl present ↦
          ap (λ x. usages (upsert t2 grant_id nas e x))
            (upsert_present t1 grant_id nas d rows present)
          ∙ ap usages (
              upsert_present t2 grant_id nas e _
                (any-update nas e t1 grant_id nas d rows ∙ sym alike ∙ present))
          ∙ update_swap t1 t2 t3 t4 grant_id nas d e rows same
          ∙ ap usages (
              sym (
                upsert_present t4 grant_id nas d _
                  (any-update nas d t3 grant_id nas e rows ∙ present)))
          ∙ ap (λ x. usages (upsert t4 grant_id nas d x))
              (sym (upsert_present t3 grant_id nas e rows (sym alike ∙ present)))
    ]
