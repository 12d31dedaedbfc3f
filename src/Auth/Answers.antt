-- ===== src/Auth/Answers.antt =====
-- What `issue_tokens`, `login` and `refresh` have done where they answer, and when an exchange does.
use skolara.Prelude.{
  ℕ, ◌≡◌, refl, ◌∙◌, true, false, List, [], ◌∷◌, Option, none, some, arith, ◌==◌, any, update_by,
  In, inl, inr, Option-cases, count_pos_of_In,
}
use skolara.Prelude.Action.{Exception, ok, unauthorized, Result-cases}
use skolara.Store.{Prisma, found_row}
use skolara.Auth.{
  Token, Security, Config, State, RefreshToken, User, School, AuthTokens, AuthResponse, LoginInput,
  JwtPayload, token_clashes, new_refresh, revoke, is_spent, payload_of, profile_of,
  resolve_login_user, issue_tokens, check_school, login, refresh,
}
use skolara.Auth.Sessions.{resolved}

any-update_by_clashes :
    (row : RefreshToken) (now id : ℕ) (tokens : List RefreshToken)
    → any (token_clashes row) (update_by (λ t. t.id == id) (revoke now) tokens)
      ≡ any (token_clashes row) tokens
any-update_by_clashes row now id [] = refl
any-update_by_clashes row now id (t ∷ tokens) =
    ground (arith, any-update_by_clashes row now id tokens)

module _ (db : Prisma) (sec : Security) (config : Config) where
  abbrev pub token_of : ℕ → JwtPayload → Token
  token_of now p = sec.sign config.jwt_refresh_secret config.jwt_refresh_expires_in now p

  -- What an issue of tokens has done where it answers.
  pub issued :
      (id now : ℕ) (p : JwtPayload) (s : State) (t : AuthTokens)
      → (issue_tokens db sec config id now p s).0 ≡ ok t
      → (exp : ℕ) × (sec.decode (token_of now p) ≡ some exp)
        × (t.refresh_token ≡ token_of now p)
        × (any
              (token_clashes (new_refresh id (sec.hash_token (token_of now p)) exp p))
              s.refresh_tokens
            ≡ false)
        × ((issue_tokens db sec config id now p s).1 ≡ record s {
          refresh_tokens =
              new_refresh id (sec.hash_token (token_of now p)) exp p ∷ s.refresh_tokens;
        })
  unfolding issue_tokens
  issued id now p s t e = elim (Option-cases (sec.decode (token_of now p))) [
    | inl f ↦ ground (arith, e, f)
    | inr (exp, f) ↦
        let row = new_refresh id (sec.hash_token (token_of now p)) exp p in
        let made = db.create_lem token_clashes row s.refresh_tokens in
        (exp, f, ground (arith, e, f, made), ground (arith, e, f, made), ground (arith, e, f, made))
  ]

  issue_answers :
      (id now exp : ℕ) (p : JwtPayload) (s : State)
      → sec.decode (token_of now p) ≡ some exp
      → any
          (token_clashes (new_refresh id (sec.hash_token (token_of now p)) exp p))
          s.refresh_tokens
        ≡ false
      → (t : AuthTokens) × ((issue_tokens db sec config id now p s).0 ≡ ok t)
  unfolding issue_tokens
  issue_answers id now exp p s d n = (
    record {
      access_token = sec.sign config.jwt_access_secret config.jwt_access_expires_in now p;
      refresh_token = token_of now p;
    },
    ground (
      arith,
      d,
      n,
      db.create_lem token_clashes (new_refresh id (sec.hash_token (token_of now p)) exp p)
          s.refresh_tokens,
    ),
  )

  -- An exchange answers where nothing that it asks is amiss.
  pub refresh_answers :
      (id now exp : ℕ) (token : Token) (payload : JwtPayload) (stored : RefreshToken) (u : User)
      (s : State)
      → sec.verify config.jwt_refresh_secret now token ≡ some payload
      → db.find_first (λ t. t.token_hash == sec.hash_token token) s.refresh_tokens ≡ some stored
      → is_spent now stored ≡ false
      → db.find_first (λ u. u.id == payload.sub) s.users ≡ some u
      → u.is_active ≡ true
      → (check_school db sec config
          (unauthorized "Invalid or expired refresh token")
          (unauthorized "Invalid or expired refresh token")
          u.school_id
          s).0
        ≡ ok tt
      → sec.decode (token_of now (payload_of u)) ≡ some exp
      → any
          (token_clashes
            (new_refresh id (sec.hash_token (token_of now (payload_of u))) exp (payload_of u)))
          s.refresh_tokens
        ≡ false
      → (t : AuthTokens) × ((refresh db sec config id now token s).0 ≡ ok t)
  unfolding refresh
  refresh_answers id now exp token payload stored u s v f live g active school d n =
      let has_hash = λ (t : RefreshToken). t.token_hash == sec.hash_token token in
      let is_it = λ (t : RefreshToken). t.id == stored.id in
      let p = payload_of u in
      let row = new_refresh id (sec.hash_token (token_of now p)) exp p in
      let (m, q) = found_row db has_hash s.refresh_tokens f in
      let revoked = record s { refresh_tokens = update_by is_it (revoke now) s.refresh_tokens } in
      let (t, h) =
        issue_answers id now exp p revoked d
          (any-update_by_clashes row now stored.id s.refresh_tokens ∙ n) in
      (
        t,
        ground (
          arith,
          v,
          f,
          live,
          g,
          active,
          school,
          h,
          db.update_many_lem is_it (revoke now) s.refresh_tokens,
          count_pos_of_In is_it s.refresh_tokens stored m (ground arith),
        ),
      )

  -- What a login has done where it answers.
  pub login_issues :
      (id now : ℕ) (input : LoginInput) (s : State) (r : AuthResponse)
      → (login db sec config id now input s).0 ≡ ok r
      → (u : User) × In u s.users
        × (u.is_active ≡ true)
        × (r.user ≡ profile_of u)
        × ((check_school db sec config
              (unauthorized "Invalid credentials")
              (unauthorized
                "This school's account is ${status} — contact your platform administrator")
              u.school_id
              s).0
            ≡ ok tt)
        × ((issue_tokens db sec config id now (payload_of u) s).0 ≡ ok r.tokens)
        × ((login db sec config id now input s).1
            ≡ (issue_tokens db sec config id now (payload_of u) s).1)
  unfolding login
  login_issues id now input s r e =
      elim (Option-cases (resolve_login_user db sec config input.email input.subdomain s)) [
        | inl f ↦ ground (arith, e, f)
        | inr (u, f) ↦
            let (m, _) = resolved db sec config input.email input.subdomain s u f in
            let school =
              check_school db sec config (unauthorized "Invalid credentials")
                (unauthorized
                  "This school's account is ${status} — contact your platform administrator")
                u.school_id s in
            let issue = issue_tokens db sec config id now (payload_of u) s in
            elim (Result-cases school.0) [
              | inr (x, g) ↦ ground (arith, e, f, g)
              | inl (tt, g) ↦ elim (Result-cases issue.0) [
                | inr (x, h) ↦ ground (arith, e, f, g, h)
                | inl (t, h) ↦ (
                  u,
                  m,
                  ground (arith, e, f),
                  ground (arith, e, f, g, h),
                  g,
                  ground (arith, e, f, g, h),
                  ground (arith, e, f, g, h),
                )
              ]
            ]
      ]

  -- The school's answer is the same whatever tokens there are, and whatever is said where it refuses.
  pub check_school-tokens :
      (missing barred missing' barred' : Exception) (school_id : Option ℕ) (s : State)
      (tokens : List RefreshToken)
      → (check_school db sec config missing barred school_id s).0 ≡ ok tt
      → (check_school db sec config missing' barred' school_id
          (record s { refresh_tokens = tokens })).0
        ≡ ok tt
  check_school-tokens missing barred missing' barred' none s tokens e = refl
  check_school-tokens missing barred missing' barred' (some k) s tokens e =
      elim (Option-cases (db.find_first (λ (x : School). x.id == k) s.schools)) [
        | inl f ↦ ground (arith, e, f)
        | inr (x, f) ↦ ground (arith, e, f)
      ]
