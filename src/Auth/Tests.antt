-- ===== src/Auth/Tests.antt =====
-- Runs of the auth service, and the theorems about it at concrete inputs.
use skolara.Prelude.{ℕ, ◌≡◌, refl, ap, In, All, any, ◌+◌, none, some, true, false, [], ◌∷◌, arith}
use skolara.Prelude.Action.{ok, err, unauthorized, unique_violation}
use skolara.ExceptionFilter.{catch_exception}
use skolara.Store.{listed, no_clash}
use skolara.Auth.{
  State, signed, random, User, teacher, active, AuthTokens, AuthResponse, LoginInput,
  PasswordResetToken, ResetPasswordInput, is_used_up, token_clashes, profile_of, payload_of,
  revoke_all_sessions_for_user, login, refresh, reset_password, issue_tokens,
}
use skolara.Auth.Plain.{plain, config}
use skolara.Auth.Tokens.{refresh-once}
use skolara.Auth.Sessions.{
  login-admits, reset_password-ends_sessions, issue_tokens-same_second, is_session_of, IsAdmitted,
}
use skolara.Auth.Renewal.{login-refresh}

abbrev ayesha : User
ayesha = record {
  id = 5;
  school_id = some 7;
  role = teacher;
  email = 50;
  password_hash = "h";
  first_name = "Ayesha";
  last_name = "Khan";
  phone = none;
  is_active = true;
  role_template_id = none;
  created_at = 1;
}

abbrev accounts : State
accounts = record {
  schools = record { id = 7; subdomain = some 70; subscription_status = active } ∷ [];
  users = ayesha ∷ [];
  refresh_tokens = [];
  reset_tokens =
      record { id = 9; user_id = 5; token_hash = 6; expires_at = 9000; used_at = none } ∷ [];
}

abbrev credentials : LoginInput
credentials = record { email = 50; password = "secret1!"; subdomain = none }

abbrev session : State
session = (login listed plain config 1 3500 credentials accounts).1

abbrev pair : ℕ → AuthTokens
pair second = record {
  access_token =
      signed (record { sub = 5; role = teacher; school_id = some 7 }) second (second + 900) 1;
  refresh_token =
      signed (record { sub = 5; role = teacher; school_id = some 7 }) second (second + 604800) 2;
}

abbrev welcome : AuthResponse
welcome = record { tokens = pair 3; user = profile_of ayesha }

logged_in : login listed plain config 1 3500 credentials accounts ≡ (ok welcome, session)
unfolding login issue_tokens
logged_in = refl

login-admits_example :
    (u : User) × In u accounts.users
    × (u.email ≡ 50)
    × (u.is_active ≡ true)
    × (plain.compare "secret1!" u.password_hash ≡ true)
    × IsAdmitted accounts.schools u.school_id
    × (welcome.user ≡ profile_of u)
login-admits_example =
    login-admits listed plain config 1 3500 credentials accounts welcome (ap (λ x. x.0) logged_in)

login-refresh_example :
    (tokens : AuthTokens) × ((refresh listed plain config 2 8000 (pair 3).refresh_token session).0
      ≡ ok tokens)
unfolding login
login-refresh_example =
    login-refresh listed plain config 1 2 3 500 8 0 credentials accounts session welcome (refl, tt)
      (omega arith) (omega arith) (omega arith) logged_in refl

exchanged : (refresh listed plain config 2 8000 (pair 3).refresh_token session).0 ≡ ok (pair 8)
unfolding refresh login issue_tokens
exchanged = refl

one_token : no_clash token_clashes session.refresh_tokens ≡ true
unfolding login issue_tokens
one_token = refl

refresh-once_example :
    refresh listed plain config 3 9000
      (pair 3).refresh_token
      (refresh listed plain config 2 8000 (pair 3).refresh_token session).1
    ≡ (
      err (unauthorized "Invalid or expired refresh token"),
      (refresh listed plain config 2 8000 (pair 3).refresh_token session).1,
    )
refresh-once_example =
    refresh-once listed plain config 2 3 8000 9000 (pair 3).refresh_token session (pair 8) one_token
      exchanged

issued_once : (issue_tokens listed plain config 1 3500 (payload_of ayesha) accounts).0 ≡ ok (pair 3)
unfolding issue_tokens
issued_once = refl

issue_tokens-same_second_example :
    issue_tokens listed plain config 2 3900
        (payload_of ayesha)
        (issue_tokens listed plain config 1 3500 (payload_of ayesha) accounts).1
      ≡ (
        err unique_violation,
        (issue_tokens listed plain config 1 3500 (payload_of ayesha) accounts).1,
      )
    × ((catch_exception unique_violation).status ≡ 409)
issue_tokens-same_second_example =
    issue_tokens-same_second listed plain config 1 2 3 500 900 (payload_of ayesha) accounts (pair 3)
      (omega arith) (omega arith) issued_once

-- So an exchange within the second of the login loses the session: the old token is revoked.
refresh_in_login_second :
    (refresh listed plain config 2 3900 (pair 3).refresh_token session).0 ≡ err unique_violation
unfolding refresh login issue_tokens
refresh_in_login_second = refl

abbrev renewal : ResetPasswordInput
renewal = record { token = random 3; new_password = "secret2!" }

renewed_once : (reset_password listed plain config 4 8000 renewal session).0 ≡ ok tt
unfolding reset_password revoke_all_sessions_for_user login issue_tokens
renewed_once = refl

reset_password-ends_sessions_example :
    (stored : PasswordResetToken) × In stored session.reset_tokens
    × (stored.token_hash ≡ 6)
    × (is_used_up 8000 stored ≡ false)
    × (any
          (is_session_of stored.user_id)
          (reset_password listed plain config 4 8000 renewal session).1.refresh_tokens
        ≡ false)
    × All
        (λ u. u.id ≡ stored.user_id → plain.compare "secret2!" u.password_hash ≡ true)
        (reset_password listed plain config 4 8000 renewal session).1.users
reset_password-ends_sessions_example =
    reset_password-ends_sessions listed plain config 4 8000 renewal session renewed_once
