-- ===== src/Accounts/Delivered.antt =====
-- An invitation is all or nothing.
use babushop_wifi.Base.{
  ◌≡◌, refl, ℕ, Text, false, [], ◌∷◌, ◌++◌, none, ◌⊎◌, inl, inr, find, any, Option-cases,
  Bool-cases,
}
use babushop_wifi.Vip.Handlers.{Reply-cases}
use babushop_wifi.Accounts.Invites.{
  InviteEnv, Link, link_of, no_link, Services, Personnel, Invitation, invite_blocker, tidy,
  has_email, has_id, invited_profile, enrol, invite,
}

Link-cases :
    (l : Link) → ((id : Text) × (a : Text) × (l ≡ link_of id a)) ⊎ ((m : Text) × (l ≡ no_link m))
Link-cases (link_of id a) = inl (id, a, refl)
Link-cases (no_link m) = inr (m, refl)

-- What a successful invitation adds: one profile, under an id and for an address that had none, after the
-- mail with the link was sent to the address.
pub record IsInvited {A : Type 0} (services : Services A) (actor : Text) (now : ℕ)
    (p q : Personnel A) : Type 0 where
  pub input : Invitation
  pub id : Text
  pub link : Text
  pub unused : any (has_id id) p.profiles ≡ false
  pub fresh : find (has_email input.email) p.profiles ≡ none
  pub made : (services.generate_link input.email input.display_name p.accounts).0 ≡ link_of id link
  pub mailed : services.send_mail input.email link ≡ none
  pub added : q.profiles ≡ p.profiles ++ invited_profile actor now id input ∷ []

-- An invitation leaves the profiles as they were, or adds one for an address that had none, after the
-- mail with its link was sent.
pub invite_lem :
    {A : Type 0} (services : Services A) (env : InviteEnv) (actor : Text) (now : ℕ)
    (raw : Invitation) (p : Personnel A)
    → ((invite services env actor now raw p).1.profiles ≡ p.profiles)
      ⊎ IsInvited services actor now p (invite services env actor now raw p).1
unfolding invite enrol
invite_lem services env actor now raw p = elim (Option-cases (invite_blocker env)) [
  | inr (m, off) ↦ inl (rw (invite, off) refl)
  | inl enabled ↦ elim (Reply-cases (tidy services.is_email raw)) [
    | inr (n, m, bad) ↦ inl (rw (invite, enabled, bad) refl)
    | inl (input, tidied) ↦ elim (Option-cases (find (has_email input.email) p.profiles)) [
      | inr (known, there) ↦ inl (rw (invite, enabled, tidied, there) refl)
      | inl fresh ↦
          elim (Link-cases (services.generate_link input.email input.display_name p.accounts).0) [
            | inr (m, refusal) ↦ inl (rw (invite, enabled, tidied, fresh, refusal) refl)
            | inl (id, link, made) ↦ elim (Bool-cases (any (has_id id) p.profiles)) [
              | inl taken ↦ inl (rw (invite, enabled, tidied, fresh, made, enrol, taken) refl)
              | inr unused ↦ elim (Option-cases (services.send_mail input.email link)) [
                | inr (m, lost) ↦
                    inl (rw (invite, enabled, tidied, fresh, made, enrol, unused, lost) refl)
                | inl mailed ↦ inr (record {
                  input = input;
                  id = id;
                  link = link;
                  unused = unused;
                  fresh = fresh;
                  made = made;
                  mailed = mailed;
                  added = rw (invite, enabled, tidied, fresh, made, enrol, unused, mailed) refl;
                })
              ]
            ]
          ]
    ]
  ]
]
