-- ===== src/Pages/Kept.antt =====
-- No page on the router is overwritten before a copy of it is kept.
use babushop_wifi.Base.{
  Answer, done, Answer-cases, ◌≡◌, refl, ap, ◌∙◌, arith, Text, Bool, true, List, [], ◌∷◌, ◌++◌,
  Option, none, some, inl, inr, ◌⊎◌, Option-cases, is_some, Bool-cases,
}
use babushop_wifi.Pages.Files.{
  RouterFile, FileStore, replaced, same_text, text_in, put_back, confirm, write_over, replace_file,
}

-- What the router's documentation says of its files: reading changes none of them, a file that a
-- search does not find is not there, and the text that it hands over is the file's.
pub record IsLawfulStore {S : Type 0} (store : FileStore S) (view : S → Text → Option Text)
    : Type 0 where
  pub search_keeps : (name : Text) (s : S) → view (store.find_file name s).1 ≡ view s
  pub read_keeps : (f : RouterFile) (s : S) → view (store.contents f s).1 ≡ view s
  pub absent : (name : Text) (s : S) → (store.find_file name s).0 ≡ done none → view s name ≡ none
  pub shown :
      (name : Text) (s : S) {f : RouterFile} {t : Text}
      → (store.find_file name s).0 ≡ done (some f)
      → (store.contents f (store.find_file name s).1).0 ≡ done (some t)
      → view s name ≡ some t

module _ {S : Type 0} (store : FileStore S) (view : S → Text → Option Text)
    (lawful : IsLawfulStore store view) where
  -- After a replacement, whatever its outcome, the router's files are as they were, or there was no
  -- file of that name, or its text was handed over and taken to be kept. The router reads its files as documented.
  pub replace_file_keeps :
      (keep_previous : Text → Answer (Unit {0})) (name contents : Text) (kept : List Text) (s : S)
      → (view (replace_file store keep_previous name contents kept s).2 ≡ view s)
        ⊎ (view s name ≡ none)
        ⊎ ((previous : Text) × (view s name ≡ some previous)
            × ((replace_file store keep_previous name contents kept s).1 ≡ kept ++ previous ∷ []))
  unfolding replace_file
  replace_file_keeps keep_previous name contents kept s =
      let s1 = (store.find_file name s).1 in
      elim (Answer-cases (store.find_file name s).0) [
        | inr (m, lost) ↦ inl (rw (replace_file, lost) (lawful.search_keeps name s))
        | inl (found, answer) ↦ elim (Option-cases found) [
          | inl nothing ↦ inr (inl (lawful.absent name s (answer ∙ ap done nothing)))
          | inr (f, there) ↦
              let known : (store.find_file name s).0 ≡ done (some f) = answer ∙ ap done there in
              elim (Answer-cases (store.contents f s1).0) [
                | inr (m, lost) ↦ inl (
                    rw (replace_file, known, lost)
                      (lawful.read_keeps f s1 ∙ lawful.search_keeps name s))
                | inl (text, read) ↦ elim (Option-cases text) [
                  | inl unread ↦ inl (
                      rw (replace_file, known, read, unread)
                        (lawful.read_keeps f s1 ∙ lawful.search_keeps name s))
                  | inr (previous, got) ↦ elim (Answer-cases (keep_previous previous)) [
                    | inr (m, untaken) ↦ inl (
                        rw (replace_file, known, read, got, untaken)
                          (lawful.read_keeps f s1 ∙ lawful.search_keeps name s))
                    | inl (u, taken) ↦ inr (
                        inr (
                          previous,
                          lawful.shown name s known (read ∙ ap done got),
                          rw (replace_file, known, read, got, taken) refl,
                        ))
                  ]
                ]
              ]
        ]
      ]

  confirm_stores :
      (name contents : Text) (existed : Bool) (previous : Option Text) (s : S) {b : Bool}
      {p : Option Text}
      → (confirm store name contents existed previous s).0 ≡ replaced b p
      → same_text (view (confirm store name contents existed previous s).1 name) contents ≡ true
  unfolding confirm put_back text_in
  confirm_stores name contents existed previous s {b} {p} ok_it =
      let s1 = (store.find_file name s).1 in
      elim (Answer-cases (store.find_file name s).0) [
        | inr (m, lost) ↦ absurd (ground arith)
        | inl (none, answer) ↦ absurd (ground arith)
        | inl (some f, answer) ↦ elim (Answer-cases (store.contents f s1).0) [
          | inr (m, lost) ↦ absurd (ground arith)
          | inl (none, read) ↦ absurd (ground arith)
          | inl (some t, read) ↦ elim (Bool-cases (same_text (some t) contents)) [
            | inr unlike ↦ absurd (ground arith)
            | inl alike ↦
                let s2 = (store.contents f s1).1 in
                let here : view s2 name ≡ some t =
                  ap (λ v. v name) (lawful.read_keeps f s1 ∙ lawful.search_keeps name s)
                  ∙ lawful.shown name s answer read in
                let ends : (confirm store name contents existed previous s).1 ≡ s2 = ground arith in
                ap (λ z. same_text (view z name) contents) ends
                ∙ ap (λ v. same_text v contents) here
                ∙ alike
          ]
        ]
      ]

  write_over_stores :
      (name contents : Text) (existing : Option RouterFile) (previous : Option Text) (s : S)
      {b : Bool} {p : Option Text}
      → (write_over store name contents existing previous s).0 ≡ replaced b p
      → same_text (view (write_over store name contents existing previous s).1 name) contents ≡ true
  unfolding write_over
  write_over_stores name contents existing previous s {b} {p} ok_it =
      elim (Answer-cases (store.write name contents existing s).0) [
        | inr (m, lost) ↦ absurd (ground arith)
        | inl (u, wrote) ↦
            rw (write_over, wrote)
              (confirm_stores name contents (is_some existing) previous
                (store.write name contents existing s).1 {b = b} {p = p} (ground arith))
      ]

  -- A replacement that succeeds has left the text that was sent under the name, but for line ends and
  -- trailing space. The router reads its files as documented.
  pub replace_file_stores :
      (keep_previous : Text → Answer (Unit {0})) (name contents : Text) (kept : List Text) (s : S)
      {b : Bool} {p : Option Text}
      → (replace_file store keep_previous name contents kept s).0 ≡ replaced b p
      → same_text (view (replace_file store keep_previous name contents kept s).2 name) contents
        ≡ true
  unfolding replace_file
  replace_file_stores keep_previous name contents kept s {b} {p} ok_it =
      let s1 = (store.find_file name s).1 in
      elim (Answer-cases (store.find_file name s).0) [
        | inr (m, lost) ↦ absurd (ground arith)
        | inl (none, answer) ↦
            rw (replace_file, answer)
              (write_over_stores name contents none none s1 {b = b} {p = p} (ground arith))
        | inl (some f, answer) ↦ elim (Answer-cases (store.contents f s1).0) [
          | inr (m, lost) ↦ absurd (ground arith)
          | inl (none, read) ↦ absurd (ground arith)
          | inl (some t, read) ↦ elim (Answer-cases (keep_previous t)) [
            | inr (m, untaken) ↦ absurd (ground arith)
            | inl (u, taken) ↦
                rw (replace_file, answer, read, taken)
                  (write_over_stores name contents (some f) (some t) (store.contents f s1).1 {b = b}
                    {p = p} (ground arith))
          ]
        ]
      ]
