-- ===== src/Auth/Sessions.antt =====
-- Who gets in, and what a new password does: `login`, `resetPassword` and the issuing of tokens.
use mathlib.Core.Path.{subst}
use skolara.Prelude.{
  ℕ, String, ◌+◌, ◌*◌, ◌<◌, ◌≡◌, refl, sym, Bool, true, false, ◌&&◌, List, [], ◌∷◌, Option, none,
  some, arith, ◌==◌, is_none, holds, any, update_by, All, In, inl, inr, Option-cases,
}
use skolara.Prelude.Action.{Exception, ok, err, unauthorized, unique_violation, Result-cases}
use skolara.Store.{Prisma, found_row}
use skolara.ExceptionFilter.{catch_exception}
use skolara.Auth.{
  Security, Config, State, RefreshToken, PasswordResetToken, User, School, AuthTokens, AuthResponse,
  LoginInput, JwtPayload, ResetPasswordInput, token_clashes, new_refresh, revoke, is_login_allowed,
  is_used_up, profile_of, set_password, use_up, sole, resolve_login_user, issue_tokens,
  check_school, login, reset_password, revoke_all_sessions_for_user,
}

sole-In : (users : List User) (u : User) → sole users ≡ some u → In u users
sole-In [] u e = cc
sole-In (x ∷ []) u e = ground (arith, e)
sole-In (x ∷ y ∷ users) u e = cc

-- The school of an account, where it has one, may log in.
abbrev pub IsAdmitted : List School → Option ℕ → Type 0
IsAdmitted schools none = Unit {0}
IsAdmitted schools (some id) =
    (x : School) × In x schools × (x.id ≡ id) × (is_login_allowed x.subscription_status ≡ true)

-- A session of the user that has not been revoked.
abbrev pub is_session_of : ℕ → RefreshToken → Bool
is_session_of user_id t = t.user_id == user_id && is_none t.revoked_at

ended :
    (user_id now : ℕ) (tokens : List RefreshToken)
    → any (is_session_of user_id) (update_by (is_session_of user_id) (revoke now) tokens) ≡ false
ended user_id now [] = refl
ended user_id now (t ∷ tokens) = ground (arith, ended user_id now tokens)

module _ (db : Prisma) (sec : Security) (config : Config) where
  renewed :
      (salt user_id : ℕ) (password : String) (users : List User)
      → All
          (λ u. u.id ≡ user_id → sec.compare password u.password_hash ≡ true)
          (update_by (λ u. u.id == user_id) (set_password (sec.hash_password salt password)) users)
  renewed salt user_id password [] = tt
  renewed salt user_id password (u ∷ users) = (
    (λ e. ground (arith, e, sec.compare_hash salt password)),
    renewed salt user_id password users,
  )

  pub resolved :
      (email : ℕ) (subdomain : Option ℕ) (s : State) (u : User)
      → resolve_login_user db sec config email subdomain s ≡ some u
      → In u s.users × (u.email ≡ email)
  resolved email none s u e =
      let (m, q) =
        db.find_many_in (λ u. u.email == email) (λ u. 0) s.users u
          (sole-In (db.find_many (λ u. u.email == email) (λ u. 0) s.users) u e) in
      (m, ground (arith, q))
  resolved email (some subdomain) s u e =
      elim (Option-cases (db.find_first (λ (x : School). holds x.subdomain subdomain) s.schools)) [
        | inl f ↦ ground (arith, e, f)
        | inr (school, f) ↦
            let fits = λ (u : User). holds u.school_id school.id && u.email == email in
            let (m, q) = found_row db fits s.users (ground (arith, e, f)) in (m, ground (arith, q))
      ]

  check_school-admits :
      (missing barred : Exception) (school_id : Option ℕ) (s : State)
      → (check_school db sec config missing barred school_id s).0 ≡ ok tt
      → IsAdmitted s.schools school_id
  check_school-admits missing barred none s e = tt
  check_school-admits missing barred (some k) s e =
      elim (Option-cases (db.find_first (λ (x : School). x.id == k) s.schools)) [
        | inl f ↦ ground (arith, e, f)
        | inr (x, f) ↦
            let (m, q) = found_row db (λ (x : School). x.id == k) s.schools f in
            (x, m, ground (arith, q), ground (arith, e, f))
      ]

  -- A login that answers is one of an account with that e-mail address and password that is
  -- active, and whose school, where it has one, is on trial or active; what it answers of the
  -- account is what the account has.
  pub login-admits :
      (id now : ℕ) (input : LoginInput) (s : State) (r : AuthResponse)
      → (login db sec config id now input s).0 ≡ ok r
      → (u : User) × In u s.users
        × (u.email ≡ input.email)
        × (u.is_active ≡ true)
        × (sec.compare input.password u.password_hash ≡ true)
        × IsAdmitted s.schools u.school_id
        × (r.user ≡ profile_of u)
  unfolding login
  login-admits id now input s r e =
      elim (Option-cases (resolve_login_user db sec config input.email input.subdomain s)) [
        | inl f ↦ ground (arith, e, f)
        | inr (u, f) ↦
            let (m, q) = resolved input.email input.subdomain s u f in
            let school =
              check_school db sec config (unauthorized "Invalid credentials")
                (unauthorized
                  "This school's account is ${status} — contact your platform administrator")
                u.school_id s in
            elim (Result-cases school.0) [
              | inr (x, g) ↦ ground (arith, e, f, g)
              | inl (tt, g) ↦ (
                u,
                m,
                q,
                ground (arith, e, f),
                ground (arith, e, f, g),
                check_school-admits _ _ u.school_id s g,
                ground (arith, e, f, g),
              )
            ]
      ]

  -- A reset that answers was asked for with a reset token that is stored, unused and not out of
  -- time; after it, no session of its account is left unrevoked, and the account has the new
  -- password.
  pub reset_password-ends_sessions :
      (salt now : ℕ) (input : ResetPasswordInput) (s : State)
      → (reset_password db sec config salt now input s).0 ≡ ok tt
      → let t = (reset_password db sec config salt now input s).1 in
        (stored : PasswordResetToken) × In stored s.reset_tokens
        × (stored.token_hash ≡ sec.hash_token input.token)
        × (is_used_up now stored ≡ false)
        × (any (is_session_of stored.user_id) t.refresh_tokens ≡ false)
        × All
            (λ u. u.id ≡ stored.user_id → sec.compare input.new_password u.password_hash ≡ true)
            t.users
  unfolding reset_password revoke_all_sessions_for_user
  reset_password-ends_sessions salt now input s e =
      let has_hash = λ (t : PasswordResetToken). t.token_hash == sec.hash_token input.token in
      elim (Option-cases (db.find_first has_hash s.reset_tokens)) [
        | inl f ↦ ground (arith, e, f)
        | inr (stored, f) ↦
            let (m, q) = found_row db has_hash s.reset_tokens f in
            let change = set_password (sec.hash_password salt input.new_password) in
            let is_user = λ (u : User). u.id == stored.user_id in
            let users = db.update_many_lem is_user change s.users in
            let resets = db.update_many_lem (λ t. t.id == stored.id) (use_up now) s.reset_tokens in
            let sessions =
              db.update_many_lem (is_session_of stored.user_id) (revoke now) s.refresh_tokens in
            let HasNew = All (λ (u : User).
              u.id ≡ stored.user_id → sec.compare input.new_password u.password_hash ≡ true) in
            let written : (reset_password db sec config salt now input s).1.users
                ≡ update_by is_user change s.users =
              ground (arith, e, f, users, resets, sessions) in
            (
              stored,
              m,
              ground (arith, q),
              ground (arith, e, f),
              ground
                  (arith, e, f, users, resets, sessions, ended stored.user_id now s.refresh_tokens),
              subst HasNew (sym written) (renewed salt stored.user_id input.new_password s.users),
            )
      ]

  -- Of two pairs of tokens that are issued for one account within a second, the second is refused
  -- by the unique index on the hash, nothing is written for it, and where a client asked for it
  -- the answer has status 409.
  pub issue_tokens-same_second :
      (id next second r r' : ℕ) (p : JwtPayload) (s : State) (t : AuthTokens)
      → r < 1000
      → r' < 1000
      → (issue_tokens db sec config id (second * 1000 + r) p s).0 ≡ ok t
      → let s' = (issue_tokens db sec config id (second * 1000 + r) p s).1 in
        issue_tokens db sec config next (second * 1000 + r') p s' ≡ (err unique_violation, s')
        × ((catch_exception unique_violation).status ≡ 409)
  unfolding issue_tokens
  issue_tokens-same_second id next second r r' p s t b b' e =
      let secret = config.jwt_refresh_secret in
      let lasts = config.jwt_refresh_expires_in in
      let token = sec.sign secret lasts (second * 1000) p in
      let hash = sec.hash_token token in
      let first_row = new_refresh id hash (second + lasts) p in
      let next_row = new_refresh next hash (second + lasts) p in
      (
        ground (
          arith,
          e,
          sec.sign_second secret lasts second r p b,
          sec.sign_second secret lasts second r' p b',
          sec.decode_sign secret lasts second p,
          db.create_lem token_clashes first_row s.refresh_tokens,
          db.create_lem token_clashes next_row (first_row ∷ s.refresh_tokens),
        ),
        refl,
      )
