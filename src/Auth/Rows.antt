-- ===== src/Auth/Rows.antt =====
-- The rows, tokens and inputs of `apps/api/src/auth/auth.service.ts` and of
-- `packages/types/src/auth.ts`, and the writes of their columns.
use skolara.Prelude.{
  ℕ, ◌+◌, ◌*◌, ◌<◌, ◌≡◌, String, Bool, true, false, not, ◌||◌, List, [], ◌∷◌, Option, none, some,
  ltb, ◌==◌, is_none,
}
use skolara.Store.{Table}

pub data Role : Type 0 where
  super_admin school_admin teacher parent student : Role

pub data SubscriptionStatus : Type 0 where
  pending trial active expired suspended rejected : SubscriptionStatus

pub record School : Type 0 where
  pub id : ℕ
  pub subdomain : Option ℕ
  pub subscription_status : SubscriptionStatus

pub record User : Type 0 where
  pub id : ℕ
  pub school_id : Option ℕ
  pub role : Role
  pub email : ℕ
  pub password_hash : String
  pub first_name : String
  pub last_name : String
  pub phone : Option String
  pub is_active : Bool
  pub role_template_id : Option ℕ
  pub created_at : ℕ

pub record RefreshToken : Type 0 where
  pub id : ℕ
  pub user_id : ℕ
  pub token_hash : ℕ
  pub expires_at : ℕ
  pub revoked_at : Option ℕ

pub record PasswordResetToken : Type 0 where
  pub id : ℕ
  pub user_id : ℕ
  pub token_hash : ℕ
  pub expires_at : ℕ
  pub used_at : Option ℕ

pub record State : Type 0 where
  pub schools : List School
  pub users : List User
  pub refresh_tokens : List RefreshToken
  pub reset_tokens : List PasswordResetToken

pub record JwtPayload : Type 0 where
  pub sub : ℕ
  pub role : Role
  pub school_id : Option ℕ

-- The text that a client holds: a signed token, with what it says and the seconds in which it was
-- issued and expires, or a random one.
pub data Token : Type 0 where
  signed : JwtPayload → (issued_at expires_at signature : ℕ) → Token
  random : ℕ → Token

-- What the services call that is not in the repository: `@nestjs/jwt`, `bcrypt` and SHA-256, with
-- what their documentation says of them. Of a date, a signature takes the second that it falls
-- in.
pub record Security : Type 1 where
  pub sign : (secret expires_in now : ℕ) → JwtPayload → Token
  pub verify : (secret now : ℕ) → Token → Option JwtPayload
  pub decode : Token → Option ℕ
  pub hash_token : Token → ℕ
  pub hash_password : (salt : ℕ) → String → String
  pub compare : String → String → Bool
  pub sign_second :
      (secret expires_in second rest : ℕ) (p : JwtPayload)
      → rest < 1000
      → sign secret expires_in (second * 1000 + rest) p ≡ sign secret expires_in (second * 1000) p
  pub decode_sign :
      (secret expires_in second : ℕ) (p : JwtPayload)
      → decode (sign secret expires_in (second * 1000) p) ≡ some (second + expires_in)
  pub verify_sign :
      (secret expires_in second now : ℕ) (p : JwtPayload)
      → now < (second + expires_in) * 1000
      → verify secret now (sign secret expires_in (second * 1000) p) ≡ some p
  pub compare_hash : (salt : ℕ) (p : String) → compare p (hash_password salt p) ≡ true

-- The settings that are read, lifetimes in seconds.
pub record Config : Type 0 where
  pub jwt_access_secret : ℕ
  pub jwt_refresh_secret : ℕ
  pub jwt_access_expires_in : ℕ
  pub jwt_refresh_expires_in : ℕ

pub record LoginInput : Type 0 where
  pub email : ℕ
  pub password : String
  pub subdomain : Option ℕ

pub record ForgotPasswordInput : Type 0 where
  pub email : ℕ
  pub subdomain : Option ℕ

pub record ResetPasswordInput : Type 0 where
  pub token : Token
  pub new_password : String

pub record AuthTokens : Type 0 where
  pub access_token : Token
  pub refresh_token : Token

-- An account as the client sees it, without its password hash.
pub record Profile : Type 0 where
  pub id : ℕ
  pub school_id : Option ℕ
  pub role : Role
  pub email : ℕ
  pub first_name : String
  pub last_name : String
  pub phone : Option String
  pub is_active : Bool
  pub role_template_id : Option ℕ
  pub created_at : ℕ

pub record AuthResponse : Type 0 where
  pub tokens : AuthTokens
  pub user : Profile

abbrev pub schools_table : Table State School
schools_table = record { get = λ s. s.schools; put = λ s rows. record s { schools = rows } }

abbrev pub users_table : Table State User
users_table = record { get = λ s. s.users; put = λ s rows. record s { users = rows } }

abbrev pub refresh_table : Table State RefreshToken
refresh_table = record {
  get = λ s. s.refresh_tokens;
  put = λ s rows. record s { refresh_tokens = rows };
}

abbrev pub reset_table : Table State PasswordResetToken
reset_table = record { get = λ s. s.reset_tokens; put = λ s rows. record s { reset_tokens = rows } }

-- `LOGIN_ALLOWED_STATUSES`
abbrev pub is_login_allowed : SubscriptionStatus → Bool
is_login_allowed trial = true
is_login_allowed active = true
is_login_allowed _ = false

-- The primary key, and the unique index on `tokenHash`.
abbrev pub token_clashes : RefreshToken → RefreshToken → Bool
token_clashes x y = y.id == x.id || y.token_hash == x.token_hash

abbrev pub reset_clashes : PasswordResetToken → PasswordResetToken → Bool
reset_clashes x y = y.id == x.id || y.token_hash == x.token_hash

abbrev pub revoke : ℕ → RefreshToken → RefreshToken
revoke now t = record t { revoked_at = some now }

-- `stored.revokedAt || stored.expiresAt < new Date()`
abbrev pub is_spent : ℕ → RefreshToken → Bool
is_spent now t = not (is_none t.revoked_at) || ltb t.expires_at now

abbrev pub is_used_up : ℕ → PasswordResetToken → Bool
is_used_up now t = not (is_none t.used_at) || ltb t.expires_at now

abbrev pub payload_of : User → JwtPayload
payload_of u = record { sub = u.id; role = u.role; school_id = u.school_id }

abbrev pub profile_of : User → Profile
profile_of u = record {
  id = u.id;
  school_id = u.school_id;
  role = u.role;
  email = u.email;
  first_name = u.first_name;
  last_name = u.last_name;
  phone = u.phone;
  is_active = u.is_active;
  role_template_id = u.role_template_id;
  created_at = u.created_at;
}

abbrev pub new_refresh : (id token_hash exp : ℕ) → JwtPayload → RefreshToken
new_refresh id token_hash exp payload = record {
  id = id;
  user_id = payload.sub;
  token_hash = token_hash;
  expires_at = exp * 1000;
  revoked_at = none;
}

abbrev pub new_reset : (id token_hash now : ℕ) → User → PasswordResetToken
new_reset id token_hash now user = record {
  id = id;
  user_id = user.id;
  token_hash = token_hash;
  expires_at = now + 60 * 60 * 1000;
  used_at = none;
}

abbrev pub set_password : String → User → User
set_password password_hash u = record u { password_hash = password_hash }

abbrev pub use_up : ℕ → PasswordResetToken → PasswordResetToken
use_up now t = record t { used_at = some now }

-- `candidates.length === 1 ? candidates[0] : null`
abbrev pub sole : List User → Option User
sole (u ∷ []) = some u
sole _ = none
