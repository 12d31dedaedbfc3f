-- ===== src/Auth/Renewal.antt =====
-- A session goes on: what `login` issues, `refresh` exchanges.
use mathlib.Core.Path.{subst}
use skolara.Prelude.{
  ℕ, ◌+◌, ◌*◌, ◌<◌, ◌≡◌, refl, ◌∙◌, sym, ap, true, false, ◌||◌, List, [], ◌∷◌, some, arith, ◌==◌,
  any, In, inl, inr, any-In, any_of_In,
}
use skolara.Prelude.Action.{ok, unauthorized}
use skolara.Store.{Prisma, Unique, eq_of_key, found_row, find_some}
use skolara.Auth.{
  Security, Config, State, RefreshToken, User, AuthTokens, AuthResponse, LoginInput, JwtPayload,
  token_clashes, new_refresh, payload_of, Profile, check_school, login, refresh,
}
use skolara.Auth.Answers.{token_of, issued, refresh_answers, login_issues, check_school-tokens}

-- What a token says of an account.
abbrev pub payload_of_profile : Profile → JwtPayload
payload_of_profile u = record { sub = u.id; role = u.role; school_id = u.school_id }

module _ (db : Prisma) (sec : Security) (config : Config) where
  -- The row that was made is the one with its hash.
  find_made :
      (row : RefreshToken) (tokens : List RefreshToken)
      → any (token_clashes row) tokens ≡ false
      → db.find_first (λ t. t.token_hash == row.token_hash) (row ∷ tokens) ≡ some row
  find_made row tokens n =
      let has_hash = λ (t : RefreshToken). t.token_hash == row.token_hash in
      let (t, f) = find_some db has_hash (row ∷ tokens) (ground arith) in
      let (m, q) = found_row db has_hash (row ∷ tokens) f in
      elim m [
        | inl e ↦ f ∙ ap some e
        | inr i ↦ ground (arith, any-In (token_clashes row) tokens t n i, q)
      ]

  find_by_id :
      (users : List User) (u : User)
      → Unique User.id users
      → In u users
      → db.find_first (λ x. x.id == u.id) users ≡ some u
  find_by_id users u unique m =
      let is_u = λ (x : User). x.id == u.id in
      let (x, f) = find_some db is_u users (any_of_In is_u users u m (ground arith)) in
      let (i, q) = found_row db is_u users f in
      f ∙ ap some (eq_of_key User.id users x u unique i m (ground (arith, q)))

  -- What is said of a token at its time, where seconds are all that is signed.
  decoded :
      (second rest : ℕ) (p : JwtPayload)
      → rest < 1000
      → sec.decode (token_of db sec config (second * 1000 + rest) p)
        ≡ some (second + config.jwt_refresh_expires_in)
  decoded second rest p b =
      let secret = config.jwt_refresh_secret in
      let lasts = config.jwt_refresh_expires_in in
      ap sec.decode (sec.sign_second secret lasts second rest p b)
      ∙ sec.decode_sign secret lasts second p

  verified :
      (second rest now : ℕ) (p : JwtPayload)
      → rest < 1000
      → now < (second + config.jwt_refresh_expires_in) * 1000
      → sec.verify config.jwt_refresh_secret now (token_of db sec config (second * 1000 + rest) p)
        ≡ some p
  verified second rest now p b late =
      let secret = config.jwt_refresh_secret in
      let lasts = config.jwt_refresh_expires_in in
      ap (sec.verify secret now) (sec.sign_second secret lasts second rest p b)
      ∙ sec.verify_sign secret lasts second now p late

  no_row :
      (next hash exp : ℕ) (p : JwtPayload) (tokens : List RefreshToken)
      → any (λ x. x.id == next || x.token_hash == hash) tokens ≡ false
      → any (token_clashes (new_refresh next hash exp p)) tokens ≡ false
  no_row next hash exp p [] n = refl
  no_row next hash exp p (t ∷ tokens) n = ground (arith, no_row next hash exp p tokens)

  -- The exchange of a token that was made for an account, before it expires.
  made_answers :
      (id next second rest second' rest' : ℕ) (u : User) (s : State)
      → Unique User.id s.users
      → In u s.users
      → u.is_active ≡ true
      → (check_school db sec config
          (unauthorized "Invalid or expired refresh token")
          (unauthorized "Invalid or expired refresh token")
          u.school_id
          s).0
        ≡ ok tt
      → rest < 1000
      → rest' < 1000
      → second' * 1000 + rest' < (second + config.jwt_refresh_expires_in) * 1000
      → db.find_first
          (λ t.
            t.token_hash
            == sec.hash_token (token_of db sec config (second * 1000 + rest) (payload_of u)))
          s.refresh_tokens
        ≡ some (
            new_refresh id
              (sec.hash_token (token_of db sec config (second * 1000 + rest) (payload_of u)))
              (second + config.jwt_refresh_expires_in)
              (payload_of u))
      → any
          (λ x.
            x.id == next
            || x.token_hash
              == sec.hash_token (token_of db sec config (second' * 1000 + rest') (payload_of u)))
          s.refresh_tokens
        ≡ false
      → (tokens : AuthTokens) × ((refresh db sec config next
            (second' * 1000 + rest')
            (token_of db sec config (second * 1000 + rest) (payload_of u))
            s).0
          ≡ ok tokens)
  made_answers id next second rest second' rest' u s unique m active school b b' late f n =
      let p = payload_of u in
      let token = token_of db sec config (second * 1000 + rest) p in
      let lasts = config.jwt_refresh_expires_in in
      refresh_answers db sec config next (second' * 1000 + rest') (second' + lasts) token p
        (new_refresh id (sec.hash_token token) (second + lasts) p) u s
        (verified second rest (second' * 1000 + rest') p b late) f (ground (arith, late))
        (find_by_id s.users u unique m) active school (decoded second' rest' p b')
        (no_row next (sec.hash_token (token_of db sec config (second' * 1000 + rest') p))
          (second' + lasts) p s.refresh_tokens n)

  -- Where the ids of users are unique, a session that a login began can be renewed: until its
  -- refresh token expires, an exchange of that token answers a new pair, in the state that the
  -- login left, unless the row of the next token has an id or a hash that is taken.
  pub login-refresh :
      (id next second rest second' rest' : ℕ) (input : LoginInput) (s t : State) (r : AuthResponse)
      → Unique User.id s.users
      → rest < 1000
      → rest' < 1000
      → second' * 1000 + rest' < (second + config.jwt_refresh_expires_in) * 1000
      → login db sec config id (second * 1000 + rest) input s ≡ (ok r, t)
      → any
          (λ x.
            x.id == next
            || x.token_hash
              == sec.hash_token
                  (token_of db sec config (second' * 1000 + rest') (payload_of_profile r.user)))
          t.refresh_tokens
        ≡ false
      → (tokens : AuthTokens) × ((refresh db sec config next
            (second' * 1000 + rest')
            r.tokens.refresh_token
            t).0
          ≡ ok tokens)
  login-refresh id next second rest second' rest' input s t r unique b b' late e n =
      let now = second * 1000 + rest in
      let then_ = second' * 1000 + rest' in
      let (u, m, active, profile, school, g, state) =
        login_issues db sec config id now input s r (ap (λ x. x.0) e) in
      let p = payload_of u in
      let (exp, d, same, clash, after) = issued db sec config id now p s r.tokens g in
      let row = new_refresh id (sec.hash_token (token_of db sec config now p)) exp p in
      let left : t ≡ record s { refresh_tokens = row ∷ s.refresh_tokens } =
        sym (ap (λ x. x.1) e) ∙ state ∙ after in
      let expiry : exp ≡ second + config.jwt_refresh_expires_in = cc (d, decoded second rest p b) in
      let payload : payload_of_profile r.user ≡ p = ap payload_of_profile profile in
      let (tokens, answers) =
        made_answers id next second rest second' rest' u
          (record s { refresh_tokens = row ∷ s.refresh_tokens }) unique m active
          (check_school-tokens db sec config _ _ _ _ u.school_id s (row ∷ s.refresh_tokens) school)
          b b' late
          (find_made row s.refresh_tokens clash
            ∙ ap (λ k. some (new_refresh id (sec.hash_token (token_of db sec config now p)) k p))
                expiry)
          (subst
            (λ q.
              any
                (λ x.
                  x.id == next || x.token_hash == sec.hash_token (token_of db sec config then_ q))
                (row ∷ s.refresh_tokens)
              ≡ false)
            payload
            (subst
              (λ z.
                any
                  (λ x.
                    x.id == next
                    || x.token_hash
                      == sec.hash_token (token_of db sec config then_ (payload_of_profile r.user)))
                  z.refresh_tokens
                ≡ false)
              left n)) in
      (
        tokens,
        ap (λ k. (refresh db sec config next then_ k t).0) same
            ∙ ap (λ z. (refresh db sec config next then_ (token_of db sec config now p) z).0) left
            ∙ answers,
      )
