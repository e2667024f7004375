-- ===== src/Accounts/Invites.antt =====
-- packages/database/src/staff.ts: `inviteBlocker`, `invite`, `resendInvite` and `activate`, over an
-- authentication service and a mail service.
use babushop_wifi.Base.{
  ℕ, Text, codes, Bool, false, not, ◌&&◌, ◌||◌, List, [], ◌∷◌, ◌++◌, Option, none, some, ltb,
  if◌then◌else◌, any, find, update, length, take, text_eq, is_some,
}
use babushop_wifi.Base.Chars.{trim, to_lower}
use babushop_wifi.Shop.Checkout.Handlers.{is_empty}
use babushop_wifi.Payments.Azam.Words.{has_word}
use babushop_wifi.Vip.Handlers.{Reply, answered, refused}

-- What is set on the server: the admin key with its address, the mail service, and the origin.
pub record InviteEnv : Type 0 where
  pub has_key : Bool
  pub has_mailer : Bool
  pub has_origin : Bool

unfoldable pub invite_blocker : InviteEnv → Option Text
invite_blocker env =
    if not env.has_key
    then some (codes "Staff invites need SUPABASE_SECRET_KEY on the API server.")
    else if not env.has_mailer
    then some (codes "Staff invites need RESEND_API_KEY on the API server.")
    else if not env.has_origin
    then some (codes "Staff invites need APP_ORIGIN on the API server.")
    else none

-- A row of `wifi.staff_profiles`.
pub record Profile : Type 0 where
  pub id : Text
  pub display_name : Text
  pub role : Text
  pub email : Option Text
  pub invited_by : Option Text
  pub invited_at : Option ℕ
  pub activated_at : Option ℕ

pub data StaffAction : Type 0 where
  staff_invited staff_invite_resent staff_activated : StaffAction

-- A one-time link: the account's id and the address, or the message of the refusal.
pub data Link : Type 0 where
  link_of : Text → Text → Link
  no_link : Text → Link

-- The authentication service, with its state: a link for an address and a name, and the removal of
-- an account. The mail service answers an error, if there is one.
pub record Services (A : Type 0) : Type 0 where
  pub generate_link : Text → Text → A → Link × A
  pub delete_user : Text → A → A
  pub send_mail : Text → Text → Option Text
  pub is_email : Text → Bool

pub record Personnel (A : Type 0) : Type 0 where
  pub profiles : List Profile
  pub audit : List (StaffAction × Text)
  pub accounts : A

pub record Invitation : Type 0 where
  pub email : Text
  pub display_name : Text
  pub role : Text

abbrev pub is_role : Text → Bool
is_role role = any (text_eq role) (codes "ADMIN" ∷ codes "CASHIER" ∷ codes "SALES" ∷ [])

abbrev pub has_email : Text → Profile → Bool
has_email email p = elim p.email [ none ↦ false | some e ↦ text_eq e email ]

abbrev pub has_id : Text → Profile → Bool
has_id id p = text_eq p.id id

-- The answer to a link that could not be made.
unfoldable pub link_refused {ℓ} : {R : Type ℓ} → Text → Reply R
unfolding has_word to_lower
link_refused message =
    if has_word (to_lower message) (codes "already")
    then refused 409 (codes "That email address already has an account.")
    else refused 502 (
        codes "Supabase could not create the invite: "
        ++ take 160 (if is_empty message then codes "no link returned" else message))

-- The form, tidied, or what is wrong with it.
unfoldable pub tidy : (Text → Bool) → Invitation → Reply Invitation
unfolding trim to_lower
tidy is_email input =
    let email = to_lower (trim input.email) in
    let name = trim input.display_name in
    if not (is_email email)
    then refused 400 (codes "Enter a valid email address.")
    else if is_empty name || ltb 80 (length name)
    then refused 400 (codes "Enter the person's name.")
    else if not (is_role input.role)
    then refused 400 (codes "Choose a role.")
    else answered (record { email = email; display_name = name; role = input.role })

abbrev already : Profile → Text
already p =
    if is_some p.activated_at
    then codes "That person already has an account."
    else codes "That person has already been invited. Use \"Resend invite\" on their row."

abbrev pub invited_profile : Text → ℕ → Text → Invitation → Profile
invited_profile actor now id input = record {
  id = id;
  display_name = input.display_name;
  role = input.role;
  email = some input.email;
  invited_by = some actor;
  invited_at = some now;
  activated_at = none;
}

abbrev unsent {ℓ} : {R : Type ℓ} → Option Text → Option (Reply R)
unsent none = none
unsent (some m) = some (refused 502 (codes "The invite email could not be sent: " ++ m))

module _ {A : Type 0} (services : Services A) where
  -- The transaction of `invite`, which the mail is part of: a profile that its id has already, or a
  -- mail that cannot be sent, leaves no new profile, and the account is removed again.
  unfoldable pub enrol :
      Text → ℕ → Invitation → Text → Text → Personnel A → Reply Profile × Personnel A
  enrol actor now input id link p =
      let outcome =
        (if any (has_id id) p.profiles
          then some (refused 500 (codes "duplicate key value"))
          else unsent (services.send_mail input.email link)) in
      elim outcome [
        | some refusal ↦ (refusal, record p { accounts = services.delete_user id p.accounts })
        | none ↦
            let row = invited_profile actor now id input in
            (
              answered row,
              record p {
                profiles = p.profiles ++ row ∷ [];
                audit = p.audit ++ (staff_invited, id) ∷ [];
              },
            )
      ]

  unfoldable pub invite :
      InviteEnv → Text → ℕ → Invitation → Personnel A → Reply Profile × Personnel A
  unfolding invite_blocker tidy link_refused enrol
  invite env actor now raw p = elim (invite_blocker env) [
    | some m ↦ (refused 503 m, p)
    | none ↦ elim (tidy services.is_email raw) [
      | refused status m ↦ (refused status m, p)
      | answered input ↦ elim (find (has_email input.email) p.profiles) [
        | some known ↦ (refused 409 (already known), p)
        | none ↦
            let (link, accounts) =
              services.generate_link input.email input.display_name p.accounts in
            let linked = record p { accounts = accounts } in
            elim link [
              | no_link m ↦ (link_refused m, linked)
              | link_of id address ↦ enrol actor now input id address linked
            ]
      ]
    ]
  ]

  abbrev gone : Text
  gone =
      codes
        "The sign-in account for this person no longer exists. Disable this row and invite them again."

  -- The link is made for the address on file; one for another account is taken back.
  unfoldable pub resend_invite :
      InviteEnv → Text → ℕ → Text → Personnel A → Reply (Unit {0}) × Personnel A
  unfolding invite_blocker link_refused
  resend_invite env actor now id p = elim (invite_blocker env) [
    | some m ↦ (refused 503 m, p)
    | none ↦ elim (find (has_id id) p.profiles) [
      | none ↦ (refused 404 (codes "Staff member not found"), p)
      | some row ↦
          if is_some row.activated_at
          then (refused 409 (codes "This person has already set up their account."), p)
          else elim row.email [
            | none ↦ (refused 409 (codes "This account has no email address on file."), p)
            | some email ↦
                let (link, accounts) = services.generate_link email row.display_name p.accounts in
                let linked = record p { accounts = accounts } in
                elim link [
                  | no_link m ↦ (link_refused m, linked)
                  | link_of user address ↦
                      if not (text_eq user row.id)
                      then (
                        refused 409 gone,
                        record linked { accounts = services.delete_user user accounts },
                      )
                      else elim (services.send_mail email address) [
                        | some m ↦ (
                          refused 502 (codes "The invite email could not be sent: " ++ m),
                          linked,
                        )
                        | none ↦ (
                          answered tt,
                          record linked {
                            profiles =
                                update (has_id row.id)
                                  (λ x. record x { invited_at = some now; invited_by = some actor })
                                  p.profiles;
                            audit = p.audit ++ (staff_invite_resent, row.id) ∷ [];
                          },
                        )
                      ]
                ]
          ]
    ]
  ]

-- `activate`: only the first time is recorded.
unfoldable pub activate : {A : Type 0} → Text → ℕ → Personnel A → Personnel A
activate staff now p =
    let waits : Profile → Bool = (λ x. has_id staff x && not (is_some x.activated_at)) in
    if any waits p.profiles
    then record p {
      profiles = update waits (λ x. record x { activated_at = some now }) p.profiles;
      audit = p.audit ++ (staff_activated, staff) ∷ [];
    }
    else p
