-- ===== src/Auth/Tokens.antt =====
-- Refresh tokens: `refresh`, `logout` and `resetPassword` of the auth service revoke them, and a
-- revoked one is of no more use.
use skolara.Prelude.{
  ℕ, ◌≡◌, refl, Bool, true, false, ◌&&◌, List, [], ◌∷◌, arith, ◌==◌, is_none, any, update_by,
  any-In, any_of_In, any_of_All-false, All-of_In, In, inl, inr, Option-cases,
}
use skolara.Prelude.Action.{ok, err, unauthorized}
use skolara.Store.{Prisma, found_row, no_clash, eq_of_clash, In-update_by}
use skolara.Auth.{
  Token, Security, Config, State, RefreshToken, AuthTokens, JwtPayload, token_clashes, new_refresh,
  revoke, payload_of, issue_tokens, refresh, logout,
}

-- A token with that hash that has not been revoked.
abbrev pub is_live : ℕ → RefreshToken → Bool
is_live h t = t.token_hash == h && is_none t.revoked_at

any-other_hash :
    (row : RefreshToken) (h : ℕ) (tokens : List RefreshToken)
    → any (token_clashes row) tokens ≡ false
    → any (λ t. t.token_hash == h) tokens ≡ true
    → (row.token_hash == h) ≡ false
any-other_hash row h [] n a = cc
any-other_hash row h (t ∷ tokens) n a = ground (arith, any-other_hash row h tokens)

any-revoked :
    (h now id : ℕ) (tokens : List RefreshToken)
    → any (λ t. t.token_hash == h) tokens ≡ true
    → any (λ t. t.token_hash == h) (update_by (λ t. t.id == id) (revoke now) tokens) ≡ true
any-revoked h now id [] a = cc
any-revoked h now id (t ∷ tokens) a = ground (arith, any-revoked h now id tokens)

claimed :
    (h now : ℕ) (tokens : List RefreshToken)
    → any (is_live h) (update_by (is_live h) (revoke now) tokens) ≡ false
claimed h now [] = refl
claimed h now (t ∷ tokens) = ground (arith, claimed h now tokens)

token_clashes_comm : (x y : RefreshToken) → token_clashes x y ≡ token_clashes y x
token_clashes_comm x y = ground arith

-- Where hashes are unique, the revocation of a token leaves no other with its hash.
none_live :
    (now : ℕ) (tokens : List RefreshToken) (stored : RefreshToken)
    → no_clash token_clashes tokens ≡ true
    → In stored tokens
    → any (is_live stored.token_hash) (update_by (λ t. t.id == stored.id) (revoke now) tokens)
      ≡ false
none_live now tokens stored n m =
    any_of_All-false (is_live stored.token_hash)
      (update_by (λ t. t.id == stored.id) (revoke now) tokens)
      (All-of_In _ (update_by (λ t. t.id == stored.id) (revoke now) tokens) (λ x i.
        let (y, j, e) = In-update_by (λ t. t.id == stored.id) (revoke now) tokens x i in
        ground (arith, e, eq_of_clash token_clashes tokens y stored token_clashes_comm n j m)))

module _ (db : Prisma) (sec : Security) (config : Config) where
  -- Only a token whose row is still there, unrevoked, is exchanged.
  pub refresh-refused :
      (id now : ℕ) (token : Token) (s : State)
      → any (is_live (sec.hash_token token)) s.refresh_tokens ≡ false
      → refresh db sec config id now token s
        ≡ (err (unauthorized "Invalid or expired refresh token"), s)
  unfolding refresh
  refresh-refused id now token s v =
      let has_hash = λ (t : RefreshToken). t.token_hash == sec.hash_token token in
      elim (Option-cases (sec.verify config.jwt_refresh_secret now token)) [
        | inl e ↦ ground (arith, e)
        | inr (payload, e) ↦ elim (Option-cases (db.find_first has_hash s.refresh_tokens)) [
          | inl f ↦ ground (arith, e, f)
          | inr (t, f) ↦
              let (m, q) = found_row db has_hash s.refresh_tokens f in
              ground
                (arith, e, f, q, any-In (is_live (sec.hash_token token)) s.refresh_tokens t v m)
        ]
      ]

  logout-dead :
      (now : ℕ) (token : Token) (s : State)
      → any (is_live (sec.hash_token token)) (logout db sec config now token s).1.refresh_tokens
        ≡ false
  unfolding logout
  logout-dead now token s =
      let own = is_live (sec.hash_token token) in
      ground (
        arith,
        db.update_many_lem own (revoke now) s.refresh_tokens,
        claimed (sec.hash_token token) now s.refresh_tokens,
      )

  -- After a logout, the refresh token that it was asked with is refused at any later time.
  pub refresh-logout :
      (id now later : ℕ) (token : Token) (s : State)
      → let t = (logout db sec config now token s).1 in
        refresh db sec config id later token t
        ≡ (err (unauthorized "Invalid or expired refresh token"), t)
  refresh-logout id now later token s =
      refresh-refused id later token (logout db sec config now token s).1 (logout-dead now token s)

  issue_tokens-dead :
      (id now h : ℕ) (payload : JwtPayload) (s : State)
      → any (λ t. t.token_hash == h) s.refresh_tokens ≡ true
      → any (is_live h) s.refresh_tokens ≡ false
      → any (is_live h) (issue_tokens db sec config id now payload s).1.refresh_tokens ≡ false
  unfolding issue_tokens
  issue_tokens-dead id now h payload s a v =
      let token = sec.sign config.jwt_refresh_secret config.jwt_refresh_expires_in now payload in
      elim (Option-cases (sec.decode token)) [
        | inl e ↦ ground (arith, e, v)
        | inr (exp, e) ↦
            let row = new_refresh id (sec.hash_token token) exp payload in
            ground (
              arith,
              e,
              v,
              db.create_lem token_clashes row s.refresh_tokens,
              any-other_hash row h s.refresh_tokens,
            )
      ]

  refresh-dead :
      (id now : ℕ) (token : Token) (s : State) (tokens : AuthTokens)
      → no_clash token_clashes s.refresh_tokens ≡ true
      → (refresh db sec config id now token s).0 ≡ ok tokens
      → any (is_live (sec.hash_token token)) (refresh db sec config id now token s).1.refresh_tokens
        ≡ false
  unfolding refresh
  refresh-dead id now token s tokens n r =
      let h = sec.hash_token token in
      let has_hash = λ (t : RefreshToken). t.token_hash == h in
      elim (Option-cases (sec.verify config.jwt_refresh_secret now token)) [
        | inl e ↦ ground (arith, e, r)
        | inr (payload, e) ↦ elim (Option-cases (db.find_first has_hash s.refresh_tokens)) [
          | inl f ↦ ground (arith, e, f, r)
          | inr (t, f) ↦ elim (Option-cases (db.find_first (λ u. u.id == payload.sub) s.users)) [
            | inl g ↦ ground (arith, e, f, g, r)
            | inr (user, g) ↦
                let (m, q) = found_row db has_hash s.refresh_tokens f in
                ground (
                  arith,
                  e,
                  f,
                  g,
                  r,
                  db.update_many_lem (λ x. x.id == t.id) (revoke now) s.refresh_tokens,
                  none_live now s.refresh_tokens t n m,
                  any-revoked h now t.id s.refresh_tokens
                      (any_of_In has_hash s.refresh_tokens t m q),
                  issue_tokens-dead id now h (payload_of user) (record s {
                    refresh_tokens = update_by (λ x. x.id == t.id) (revoke now) s.refresh_tokens;
                  }),
                )
          ]
        ]
      ]

  -- Where the ids and the hashes of refresh tokens are unique, a refresh token is exchanged once:
  -- after an exchange that answered, it is refused at any later time.
  pub refresh-once :
      (id next now later : ℕ) (token : Token) (s : State) (tokens : AuthTokens)
      → no_clash token_clashes s.refresh_tokens ≡ true
      → (refresh db sec config id now token s).0 ≡ ok tokens
      → let t = (refresh db sec config id now token s).1 in
        refresh db sec config next later token t
        ≡ (err (unauthorized "Invalid or expired refresh token"), t)
  refresh-once id next now later token s tokens n r =
      refresh-refused next later token (refresh db sec config id now token s).1
        (refresh-dead id now token s tokens n r)
