-- ===== src/Auth/Plain.antt =====
-- Signing and hashing that meet the laws of `Security`, for runs of the services.
use skolara.Prelude.{
  ℕ, ◌≡◌, refl, ◌+◌, ◌*◌, ◌/◌, ◌<◌, ◌==◌, ltb, Option, none, some, true, arith, if◌then◌else◌, ◌&&◌,
}
use skolara.Auth.{Security, Config, Token, signed, random, JwtPayload}

abbrev pub verify_plain : ℕ → ℕ → Token → Option JwtPayload
verify_plain secret now (random n) = none
verify_plain secret now (signed p issued_at expires_at signature) =
    if signature == secret && ltb now (expires_at * 1000) then some p else none

abbrev pub decode_plain : Token → Option ℕ
decode_plain (random n) = none
decode_plain (signed p issued_at expires_at signature) = some expires_at

abbrev pub hash_plain : Token → ℕ
hash_plain (random n) = n * 2
hash_plain (signed p issued_at expires_at signature) = issued_at * 2 + 1

pub in_second : (second rest : ℕ) → rest < 1000 → (second * 1000 + rest) / 1000 ≡ second
in_second second rest b = omega arith

pub at_second : (second : ℕ) → second * 1000 / 1000 ≡ second
at_second second = omega arith

pub verify_in_time :
    (secret expires_in second now : ℕ) (p : JwtPayload)
    → now < (second + expires_in) * 1000
    → verify_plain secret now
        (signed p (second * 1000 / 1000) (second * 1000 / 1000 + expires_in) secret)
      ≡ some p
verify_in_time secret expires_in second now p b = ground (arith, at_second second, b)

-- Tokens that are signed by their secret, and passwords that are their own hash.
abbrev pub plain : Security
plain = record {
  sign = λ secret expires_in now p. signed p (now / 1000) (now / 1000 + expires_in) secret;
  verify = verify_plain;
  decode = decode_plain;
  hash_token = hash_plain;
  hash_password = λ salt p. "h";
  compare = λ p h. true;
  sign_second = λ secret expires_in second rest p b. rw (in_second second rest b, at_second second);
  decode_sign = λ secret expires_in second p. rw (at_second second);
  verify_sign = λ secret expires_in second now p b. verify_in_time secret expires_in second now p b;
  compare_hash = λ salt p. refl;
}

abbrev pub config : Config
config = record {
  jwt_access_secret = 1;
  jwt_refresh_secret = 2;
  jwt_access_expires_in = 900;
  jwt_refresh_expires_in = 604800;
}
