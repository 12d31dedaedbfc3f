-- ===== src/Auth.antt =====
-- Authentication: `apps/api/src/auth/auth.service.ts` and the types of
-- `packages/types/src/auth.ts`. Hashes of tokens, e-mail addresses, subdomains and secrets are
-- only compared, so they are numbers; times are time stamps in milliseconds. A subdomain that is
-- missing and one that is empty are both `none`. The e-mail with a reset link is left out: it
-- changes no state.
pub mod Rows
pub mod Answers
pub mod Plain
pub mod Renewal
pub mod Sessions
pub mod Tokens
mod Tests
pub use Rows.*
use skolara.Prelude.{ℕ, true, false, not, ◌&&◌, Option, none, some, ◌==◌, is_none, holds}
use skolara.Prelude.Action.{
  Action, Exception, ok, bad_request, unauthorized, unique_violation, service_failed, ◌>>=◌, ◌>>◌,
  pure, raise, raise_if, or_raise, transaction,
}
use skolara.Store.{Prisma, find, find_or, insert_or, update, update_many}

module _ (db : Prisma) (sec : Security) (config : Config) where
  abbrev pub resolve_login_user : (email : ℕ) → (subdomain : Option ℕ) → State → Option User
  resolve_login_user email (some subdomain) s =
      elim (db.find_first (λ x. holds x.subdomain subdomain) s.schools) [
        | none ↦ none
        | some school ↦ db.find_first (λ u. holds u.school_id school.id && u.email == email) s.users
      ]
  resolve_login_user email none s = sole (db.find_many (λ u. u.email == email) (λ u. 0) s.users)

  -- `id` is the id of the row of the new refresh token.
  pub issue_tokens : (id now : ℕ) → JwtPayload → Action State AuthTokens
  issue_tokens id now payload =
      let access = sec.sign config.jwt_access_secret config.jwt_access_expires_in now payload in
      let refresh = sec.sign config.jwt_refresh_secret config.jwt_refresh_expires_in now payload in
      elim (sec.decode refresh) [
        | none ↦ raise service_failed
        | some exp ↦ do
          _ ←
              insert_or db refresh_table token_clashes
                (new_refresh id (sec.hash_token refresh) exp payload) unique_violation
          pure (record { access_token = access; refresh_token = refresh })
      ]

  -- What a school's subscription has to say to a login.
  abbrev pub check_school : Exception → Exception → Option ℕ → Action State (Unit {0})
  check_school missing barred none = pure tt
  check_school missing barred (some school_id) = do
    school ← find_or db schools_table (λ x. x.id == school_id) missing
    raise_if (not (is_login_allowed school.subscription_status)) barred

  pub login : (id now : ℕ) → LoginInput → Action State AuthResponse
  unfolding issue_tokens
  login id now input = do
    user ← λ s.
        or_raise (resolve_login_user input.email input.subdomain s)
          (unauthorized "Invalid credentials") s
    raise_if (not user.is_active) (unauthorized "Invalid credentials")
    check_school (unauthorized "Invalid credentials")
        (unauthorized "This school's account is ${status} — contact your platform administrator")
        user.school_id
    raise_if (not (sec.compare input.password user.password_hash))
        (unauthorized "Invalid credentials")
    tokens ← issue_tokens id now (payload_of user)
    pure (record { tokens = tokens; user = profile_of user })

  pub refresh : (id now : ℕ) → (refresh_token : Token) → Action State AuthTokens
  unfolding issue_tokens
  refresh id now refresh_token = do
    payload ←
        or_raise (sec.verify config.jwt_refresh_secret now refresh_token)
          (unauthorized "Invalid or expired refresh token")
    stored ←
        find_or db refresh_table (λ t. t.token_hash == sec.hash_token refresh_token)
          (unauthorized "Invalid or expired refresh token")
    raise_if (is_spent now stored) (unauthorized "Invalid or expired refresh token")
    user ←
        find_or db users_table (λ u. u.id == payload.sub)
          (unauthorized "Invalid or expired refresh token")
    raise_if (not user.is_active) (unauthorized "Invalid or expired refresh token")
    check_school (unauthorized "Invalid or expired refresh token")
        (unauthorized "Invalid or expired refresh token") user.school_id
    update db refresh_table (λ t. t.id == stored.id) (revoke now)
    issue_tokens id now (payload_of user)

  pub logout : (now : ℕ) → (refresh_token : Token) → Action State (Unit {0})
  logout now refresh_token = do
    _ ←
        update_many db refresh_table
          (λ t. t.token_hash == sec.hash_token refresh_token && is_none t.revoked_at) (revoke now)
    pure tt

  pub revoke_all_sessions_for_user : (now user_id : ℕ) → Action State (Unit {0})
  revoke_all_sessions_for_user now user_id = do
    _ ←
        update_many db refresh_table (λ t. t.user_id == user_id && is_none t.revoked_at)
          (revoke now)
    pure tt

  -- `raw_token` is what `randomBytes` gave.
  pub forgot_password :
      (id : ℕ) → (raw_token : Token) → (now : ℕ) → ForgotPasswordInput → Action State (Unit {0})
  forgot_password id raw_token now input s =
      let create = λ (user : User).
        insert_or db reset_table reset_clashes (new_reset id (sec.hash_token raw_token) now user)
          unique_violation in
      elim (resolve_login_user input.email input.subdomain s) [
        | none ↦ (ok tt, s)
        | some user ↦ elim user.is_active [
          | false ↦ (ok tt, s)
          | true ↦ elim user.school_id [
            | none ↦ (do _ ← create user; pure tt) s
            | some school_id ↦ elim (db.find_first (λ x. x.id == school_id) s.schools) [
              | none ↦ (ok tt, s)
              | some _ ↦ (do _ ← create user; pure tt) s
            ]
          ]
        ]
      ]

  pub reset_password : (salt now : ℕ) → ResetPasswordInput → Action State (Unit {0})
  unfolding revoke_all_sessions_for_user
  reset_password salt now input = do
    stored ←
        find_or db reset_table (λ t. t.token_hash == sec.hash_token input.token)
          (bad_request "This reset link is invalid or has expired")
    raise_if (is_used_up now stored) (bad_request "This reset link is invalid or has expired")
    transaction (do
      update db users_table (λ u. u.id == stored.user_id)
          (set_password (sec.hash_password salt input.new_password))
      update db reset_table (λ t. t.id == stored.id) (use_up now))
    revoke_all_sessions_for_user now stored.user_id
