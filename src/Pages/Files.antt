-- ===== src/Pages/Files.antt =====
-- packages/network/src/files.ts: `replaceFile`, over the router's files.
use babushop_wifi.Base.{
  Answer, done, threw, ℕ, Text, codes, Bool, true, false, ◌&&◌, List, [], ◌∷◌, ◌++◌, Option, none,
  some, ◌==◌, if◌then◌else◌, text_eq, is_some,
}
use babushop_wifi.Base.Chars.{trim_end}

-- What a listing says of a file.
pub record RouterFile : Type 0 where
  pub id : Text
  pub name : Text

-- The router's files, with the router's state: the file of a name, the text of a file if the router
-- hands it over, and the writing of a text under a name.
pub record FileStore (S : Type 0) : Type 0 where
  pub find_file : Text → S → Answer (Option RouterFile) × S
  pub contents : RouterFile → S → Answer (Option Text) × S
  pub write : Text → Text → Option RouterFile → S → Answer (Unit {0}) × S

-- `replaced` and `previous`; a `FileWriteError` with its status and `restored`; any other error.
pub data Replacement : Type 0 where
  replaced : Bool → Option Text → Replacement
  write_error : ℕ → Option Bool → Text → Replacement
  broken : Text → Replacement

-- `replace(/\r\n/g,'\n')`
abbrev unix_lines : Text → Text
unix_lines [] = []
unix_lines (c ∷ []) = c ∷ []
unix_lines (c ∷ d ∷ t) =
    let rest = unix_lines (d ∷ t) in if c == 13 && d == 10 then rest else c ∷ rest

unfoldable pub same_text : Option Text → Text → Bool
unfolding trim_end
same_text none b = false
same_text (some a) b = text_eq (trim_end (unix_lines a)) (trim_end (unix_lines b))

module _ {S : Type 0} (store : FileStore S) where
  -- `stored ? await store.contents(stored) : null`
  unfoldable pub text_in : Option RouterFile → S → Answer (Option Text) × S
  text_in none s = (done none, s)
  text_in (some f) s = store.contents f s

  abbrev done_writing : Answer (Unit {0}) → Bool
  done_writing (done u) = true
  done_writing (threw m) = false

  abbrev not_stored : Text → Text
  not_stored name = codes "The router did not store " ++ (name ++ codes " correctly")

  -- The previous text goes back, if there was one.
  unfoldable pub put_back : Text → Option Text → Option RouterFile → S → Replacement × S
  put_back name none stored s = (write_error 502 none (not_stored name ++ codes "."), s)
  put_back name (some previous) stored s =
      let (answer, after) = store.write name previous stored s in
      (
        write_error 502 (some (done_writing answer)) (
            not_stored name
            ++ (if done_writing answer
                then codes ", so the previous version was put back."
                else codes
                    ", and putting the previous version back failed too. Restore it from History, or in WinBox.")),
        after,
      )

  -- The read back, and what follows from it.
  unfoldable pub confirm : Text → Text → Bool → Option Text → S → Replacement × S
  unfolding text_in put_back same_text
  confirm name contents existed previous s =
      let (found, s1) = store.find_file name s in
      elim found [
        | threw m ↦ (broken m, s1)
        | done stored ↦
            let (read, s2) = text_in stored s1 in
            elim read [
              | threw m ↦ (broken m, s2)
              | done text ↦
                  if same_text text contents
                  then (replaced existed previous, s2)
                  else put_back name previous stored s2
            ]
      ]

  unfoldable pub write_over : Text → Text → Option RouterFile → Option Text → S → Replacement × S
  unfolding confirm
  write_over name contents existing previous s =
      let (answer, after) = store.write name contents existing s in
      elim answer [
        | threw m ↦ (broken m, after)
        | done u ↦ confirm name contents (is_some existing) previous after
      ]

  -- `keep_previous` may throw, before anything is written; `kept` is what it has taken so far.
  unfoldable pub replace_file :
      (Text → Answer (Unit {0})) → Text → Text → List Text → S → Replacement × List Text × S
  unfolding write_over
  replace_file keep_previous name contents kept s =
      let (found, s1) = store.find_file name s in
      elim found [
        | threw m ↦ (broken m, kept, s1)
        | done none ↦
            let (outcome, after) = write_over name contents none none s1 in (outcome, kept, after)
        | done (some f) ↦
            let (read, s2) = store.contents f s1 in
            elim read [
              | threw m ↦ (broken m, kept, s2)
              | done none ↦ (
                write_error 409 none (
                    codes "Could not read the current "
                    ++ (name ++ codes " to keep a copy, so it was not replaced.")),
                kept,
                s2,
              )
              | done (some previous) ↦ elim (keep_previous previous) [
                | threw m ↦ (broken m, kept, s2)
                | done u ↦
                    let (outcome, after) = write_over name contents (some f) (some previous) s2 in
                    (outcome, kept ++ previous ∷ [], after)
              ]
            ]
      ]
