-- ===== src/Server/Password/Verified.antt =====
-- Whom the password grant lets in, crates/geonosis-server/src/handlers/token.rs.
use geonosis.Base.{
  String, Bool, true, not, Result, ok, err, if◌then◌else◌, Map, ◌≡◌, refl, ap, ◌∙◌, arith, inl, inr,
  ◌⊎◌, ◌↔◌, Bool-cases, Result-cases,
}
use geonosis.Core.Client.{Client}
use geonosis.Core.Realm.{Realm}
use geonosis.Core.User.{User}
use geonosis.Storage.Directory.{Directory, get_user_by_username, get_password_hash}
use geonosis.OAuth.Errors.{OAuthError}
use geonosis.OAuth.Grants.{TokenIssuer}
use geonosis.Server.DevicePoll.{Stores, Draws, issue_user_tokens}
use geonosis.Server.Password.{
  PasswordForm, password_form, invalid_login, verifies, password_user, handle_password,
}

-- An enabled user of the realm with a stored hash that the password is checked against.
pub record IsVerified (verify : String → String → Result String Bool) (realm : Realm)
    (form : PasswordForm) (t : Directory) (user : User) : Type 0 where
  pub named : get_user_by_username realm.id form.username t ≡ ok user
  pub enabled : user.enabled ≡ true
  pub phc : String
  pub stored : get_password_hash realm.id user.id t ≡ ok phc
  pub accepted : verify form.password phc ≡ ok true

-- A result that is both.
both : {A : Type 0} {E : Type 0} {a : A} {e : E} (r : Result E A) → r ≡ ok a → r ≡ err e → ⊥
both r p q = cc

-- A result is one value.
one_ok : {A : Type 0} {E : Type 0} {a b : A} (r : Result E A) → r ≡ ok a → r ≡ ok b → a ≡ b
one_ok r p q = cc

if_enabled : (b : Bool) (x y : Result OAuthError User) → b ≡ true → (if not b then x else y) ≡ y
if_enabled b x y h = rw (h) refl

-- The two answers of the check.
abbrev Verdict :
    (String → String → Result String Bool)
    → Realm
    → PasswordForm
    → Directory
    → Result OAuthError User
    → Type 0
Verdict verify realm form t answer =
    ((user : User) × IsVerified verify realm form t user × (answer ≡ ok user))
    ⊎ ((¬ ((user : User) × IsVerified verify realm form t user)) × (answer ≡ err invalid_login))

module _ (verify : String → String → Result String Bool) (realm : Realm) (form : PasswordForm)
    (t : Directory) where
  verifies_iff :
      (phc : String)
      → (verifies verify form.password phc ≡ true) ↔ (verify form.password phc ≡ ok true)
  unfolding verifies
  verifies_iff phc = elim (Result-cases (verify form.password phc)) [
    | inl (b, q) ↦ rw (verifies, q) (λ h. ap ok h, λ h. ground arith)
    | inr (e, q) ↦ rw (verifies, q) (λ h. ground arith, λ h. ground arith)
  ]

  hash_cases :
      (user : User)
      → get_user_by_username realm.id form.username t ≡ ok user
      → user.enabled ≡ true
      → Verdict verify realm form t (password_user verify realm form t)
  unfolding password_user
  hash_cases user named enabled = elim (Result-cases (get_password_hash realm.id user.id t)) [
    | inl (phc, stored) ↦ elim (Bool-cases (verifies verify form.password phc)) [
      | inl passed ↦ inl (
        user,
        record {
          named = named;
          enabled = enabled;
          phc = phc;
          stored = stored;
          accepted = (verifies_iff phc).0 passed;
        },
        rw (password_user, named)
            (if_enabled user.enabled _ _ enabled ∙ (rw (stored, passed) refl)),
      )
      | inr failed ↦ inr (
        λ (other, v).
            let same = one_ok (get_user_by_username realm.id form.username t) named v.named in
            let stored' : get_password_hash realm.id user.id t ≡ ok v.phc = rw (same) v.stored in
            let hash = one_ok (get_password_hash realm.id user.id t) stored stored' in
            let passed : verifies verify form.password phc ≡ true =
              rw (hash) ((verifies_iff v.phc).1 v.accepted) in
            ground arith,
        rw (password_user, named, enabled, stored, failed) refl,
      )
    ]
    | inr (e, unstored) ↦ inr (
      λ (other, v).
          let same = one_ok (get_user_by_username realm.id form.username t) named v.named in
          let stored' : get_password_hash realm.id user.id t ≡ ok v.phc = rw (same) v.stored in
          both (get_password_hash realm.id user.id t) stored' unstored,
      rw (password_user, named, enabled, unstored) refl,
    )
  ]

  password_user_cases : Verdict verify realm form t (password_user verify realm form t)
  unfolding password_user
  password_user_cases = elim (Result-cases (get_user_by_username realm.id form.username t)) [
    | inl (user, named) ↦ elim (Bool-cases user.enabled) [
      | inl enabled ↦ hash_cases user named enabled
      | inr disabled ↦ inr (
        λ (other, v).
            let same = one_ok (get_user_by_username realm.id form.username t) named v.named in
            let enabled : user.enabled ≡ true = rw (same) v.enabled in ground arith,
        rw (password_user, named, disabled) refl,
      )
    ]
    | inr (e, unknown) ↦ inr (
      λ (other, v). both (get_user_by_username realm.id form.username t) v.named unknown,
      rw (password_user, unknown) refl,
    )
  ]

-- When the form names a user and a password and its scope parses, either a user of that name in the
-- realm is enabled and has a stored hash that the password is checked against, and the answer is the
-- tokens issued to that user; or there is no such user, and then nothing is stored and the refusal is
-- the same one, whatever the reason.
pub handle_password-IsVerified :
    (verify : String → String → Result String Bool) (draws : Draws) (issuer : TokenIssuer)
    (client : Client) (realm : Realm) (fields : Map String String) (form : PasswordForm)
    (t : Stores)
    → password_form fields ≡ ok form
    → let answer = handle_password verify draws issuer client realm fields t in
      ((user : User) × IsVerified verify realm form t.directory user
        × (answer ≡ issue_user_tokens draws issuer client realm user.id form.scope t))
      ⊎ ((¬ ((user : User) × IsVerified verify realm form t.directory user))
          × (answer ≡ (t, err invalid_login)))
unfolding handle_password
handle_password-IsVerified verify draws issuer client realm fields form t h =
    elim (password_user_cases verify realm form t.directory) [
      | inl (user, v, q) ↦ inl (user, v, rw (handle_password, h, q) refl)
      | inr (none_verified, q) ↦ inr (none_verified, rw (handle_password, h, q) refl)
    ]
