-- ===== src/Guards/Revocation.antt =====
-- API keys that were revoked: `ApiKeysService`, and `JwtOrApiKeyGuard` at any later time.
use mathlib.Core.Path.{subst}
use skolara.Prelude.{
  ℕ, ◌≡◌, refl, sym, Bool, true, false, not, ◌&&◌, ◌||◌, List, [], ◌∷◌, Option, none, some, In, any,
  arith, ◌==◌, Option-cases, Bool-cases, inl, inr, update_by, any_of_In, any-false_of_any,
  any_of_All-false, All-of_In,
}
use skolara.Prelude.Action.{Exception, unauthorized, forbidden, ok, err}
use skolara.Store.{
  Prisma, find_none, no_clash, In-update_by, eq_of_clash, Kept, find_or-keeps, insert_or-keeps,
  update-keeps, bind-keeps, update,
}
use skolara.Auth.{Role, Security, Config, Token}
use skolara.Guards.Requests.{Request, AuthenticatedUser, is_get}
use skolara.Guards.Plans.{Feature}
use skolara.Guards.Access.{gated}
use skolara.Guards.{
  State, ApiKey, Guard, Route, jwt_auth, jwt_or_api_key, roles, feature, run_guard, run_guards,
  dispatch, permission_guard, jwt_or_api_key_guard, key_for, key_clashes, keys_table, create_key,
  revoke_key, mark_used, is_stale,
}

abbrev has_hash : ℕ → ApiKey → Bool
has_hash hash k = k.hashed_key == hash

-- The hash is stored, of a key that is revoked.
abbrev pub IsDead : ℕ → State → Type 0
IsDead hash s = (any (has_hash hash) s.api_keys ≡ true) × (any (key_for hash) s.api_keys ≡ false)

mark-IsDead :
    (hash now : ℕ) (p : ApiKey → Bool) (ks : List ApiKey)
    → (any (has_hash hash) (update_by p (mark_used now) ks) ≡ any (has_hash hash) ks)
      × (any (key_for hash) (update_by p (mark_used now) ks) ≡ any (key_for hash) ks)
mark-IsDead hash now p [] = (refl, refl)
mark-IsDead hash now p (k ∷ ks) =
    let (a, b) = mark-IsDead hash now p ks in (ground (arith, a), ground (arith, b))

abbrev set_revoked : ℕ → ApiKey → ApiKey
set_revoked now k = record k { revoked_at = some now }

-- A revocation keeps every hash, and brings no key back.
revoke-IsDead :
    (hash id now : ℕ) (ks : List ApiKey)
    → (any (has_hash hash) (update_by (λ k. k.id == id) (set_revoked now) ks)
        ≡ any (has_hash hash) ks)
      × ((any (key_for hash) ks
            || not (any (key_for hash) (update_by (λ k. k.id == id) (set_revoked now) ks)))
          ≡ true)
revoke-IsDead hash id now [] = (refl, refl)
revoke-IsDead hash id now (k ∷ ks) =
    let (a, b) = revoke-IsDead hash id now ks in (ground (arith, a), ground (arith, b))

module _ (db : Prisma) where
  create_key-IsDead :
      (hash school_id id new : ℕ) (s : State)
      → IsDead hash s
      → Kept (IsDead hash) (create_key db school_id id new) s
  unfolding create_key
  create_key-IsDead hash school_id id new s h =
      insert_or-keeps (IsDead hash) db keys_table key_clashes _ _ s h (λ fresh. (
        ground (arith, h),
        elim (Bool-cases (new == hash)) [
          | inl e ↦ ground (
            arith,
            h,
            e,
            any-false_of_any
                (key_clashes (record {
                  id = id;
                  school_id = school_id;
                  hashed_key = new;
                  last_used_at = none;
                  revoked_at = none;
                }))
                (has_hash hash) s.api_keys (λ k c. ground (arith, c, e)) fresh,
          )
          | inr e ↦ ground (arith, h, e)
        ],
      ))

  revoke_key-IsDead :
      (hash school_id id now : ℕ) (s : State)
      → IsDead hash s
      → Kept (IsDead hash) (revoke_key db school_id id now) s
  unfolding revoke_key
  revoke_key-IsDead hash school_id id now s h =
      find_or-keeps (IsDead hash) db keys_table _ _
        (λ _. update db keys_table (λ k. k.id == id) (set_revoked now)) s h
        (λ k i e.
          update-keeps (IsDead hash) db keys_table (λ k. k.id == id) (set_revoked now) s h
            (let (a, b) = revoke-IsDead hash id now s.api_keys in
              (ground (arith, a, h), ground (arith, b, h))))

  -- The revocation of the key itself, where hashes are unique.
  revoked-IsDead :
      (school_id now : ℕ) (k : ApiKey) (s : State)
      → no_clash key_clashes s.api_keys ≡ true
      → In k s.api_keys
      → (revoke_key db school_id k.id now s).0 ≡ ok tt
      → IsDead k.hashed_key (revoke_key db school_id k.id now s).1
  unfolding revoke_key
  revoked-IsDead school_id now k s n m e =
      let p = λ (r : ApiKey). r.id == k.id && r.school_id == school_id in
      let (a, b) = revoke-IsDead k.hashed_key k.id now s.api_keys in
      let gone = any_of_All-false (key_for k.hashed_key) _ (
        All-of_In _ (update_by (λ r. r.id == k.id) (set_revoked now) s.api_keys) (λ y i.
          let (x, j, q) = In-update_by (λ r. r.id == k.id) (set_revoked now) s.api_keys y i in
          elim (Bool-cases (x.hashed_key == k.hashed_key)) [
            | inl t ↦
                let same =
                  eq_of_clash key_clashes s.api_keys k x (λ x y. ground arith) n m j
                    (ground (arith, t)) in
                ground (arith, q, same)
            | inr t ↦ ground (arith, q, t)
          ])) in
      elim (Option-cases (db.find_first p s.api_keys)) [
        | inl f ↦ ground (arith, e, f)
        | inr (r, f) ↦
            let q = λ (r : ApiKey). r.id == k.id in
            let has = any_of_In (has_hash k.hashed_key) s.api_keys k m (ground arith) in
            let same : (revoke_key db school_id k.id now s).1
                ≡ record s { api_keys = update_by q (set_revoked now) s.api_keys } =
              ground (arith, e, f, db.update_many_lem q (set_revoked now) s.api_keys) in
            subst (IsDead k.hashed_key) (sym same) (ground (arith, a, has), gone)
      ]

module _ (db : Prisma) (sec : Security) (config : Config) where
  run_guard-IsDead :
      (hash : ℕ) (g : Guard) (route : Route) (request : Request) (now : ℕ)
      (user : Option AuthenticatedUser) (s : State)
      → IsDead hash s
      → IsDead hash (run_guard db sec config g route request now user s).1
  unfolding run_guard
  run_guard-IsDead hash jwt_auth route request now user s h = ground (arith, h)
  run_guard-IsDead hash jwt_or_api_key route request now user s h =
      elim (Option-cases request.x_api_key) [
        | inl x ↦ ground (arith, h, x)
        | inr (presented, x) ↦
            elim (Option-cases (db.find_first (key_for (sec.hash_token presented)) s.api_keys)) [
              | inl f ↦ ground (arith, h, x, f)
              | inr (k, f) ↦
                  let p = λ (r : ApiKey). r.id == k.id && is_stale now k in
                  let (a, b) = mark-IsDead hash now p s.api_keys in
                  ground (arith, h, x, f, a, b, db.update_many_lem p (mark_used now) s.api_keys)
            ]
      ]
  run_guard-IsDead hash roles route request now user s h = ground (arith, h)
  run_guard-IsDead hash feature route request now user s h = ground (arith, h)

  run_guards-IsDead :
      (hash : ℕ) (gs : List Guard) (route : Route) (request : Request) (now : ℕ)
      (user : Option AuthenticatedUser) (s : State)
      → IsDead hash s
      → Kept (IsDead hash) (run_guards db sec config gs route request now user) s
  unfolding run_guards
  run_guards-IsDead hash [] route request now user s h = record { kept = h }
  run_guards-IsDead hash (g ∷ gs) route request now user s h =
      let after = run_guard-IsDead hash g route request now user s h in
      bind-keeps (IsDead hash) (run_guard db sec config g route request now user) _ s
        (record { kept = after })
        (λ next e. run_guards-IsDead hash gs route request now next _ after)

-- What reaches the keys: their two operations, and requests to any handler, each at its time.
pub data Event : Type 0 where
  creation : (school_id id hash : ℕ) → Event
  revocation : (school_id id now : ℕ) → Event
  arrival : Route → Request → (now : ℕ) → Event

module _ (db : Prisma) (sec : Security) (config : Config) where
  unfoldable pub serve_all : List Event → State → State
  serve_all [] s = s
  serve_all (creation school_id id hash ∷ events) s =
      serve_all events (create_key db school_id id hash s).1
  serve_all (revocation school_id id now ∷ events) s =
      serve_all events (revoke_key db school_id id now s).1
  serve_all (arrival route request now ∷ events) s =
      serve_all events (dispatch db sec config route request now s).1

  serve_all-IsDead :
      (hash : ℕ) (events : List Event) (s : State)
      → IsDead hash s
      → IsDead hash (serve_all events s)
  unfolding serve_all dispatch permission_guard
  serve_all-IsDead hash [] s h = h
  serve_all-IsDead hash (creation school_id id new ∷ events) s h =
      serve_all-IsDead hash events _ (create_key-IsDead db hash school_id id new s h).kept
  serve_all-IsDead hash (revocation school_id id now ∷ events) s h =
      serve_all-IsDead hash events _ (revoke_key-IsDead db hash school_id id now s h).kept
  serve_all-IsDead hash (arrival route request now ∷ events) s h =
      serve_all-IsDead hash events _
        (run_guards-IsDead db sec config hash route.guards route request now none s h).kept

  refuses :
      (presented : Token) (rs : List Role) (f : Option Feature) (request : Request) (now : ℕ)
      (s : State)
      → request.x_api_key ≡ some presented
      → IsDead (sec.hash_token presented) s
      → (x : Exception) × ((dispatch db sec config (gated jwt_or_api_key rs f) request now s).0
          ≡ err x)
  unfolding dispatch permission_guard run_guards run_guard jwt_or_api_key_guard
  refuses presented rs f request now s x h = elim (Bool-cases (is_get request.method)) [
    | inl g ↦ (
      unauthorized "Invalid API key",
      ground (arith, x, g, find_none db (key_for (sec.hash_token presented)) s.api_keys h.1),
    )
    | inr g ↦ (forbidden "API keys are read-only", ground (arith, x, g))
  ]

  -- Where no two API keys share an id or a hash, a key is dead once its revocation is answered:
  -- whatever the keys' service and other requests do afterwards, a request that presents it is
  -- refused by every handler whose guards accept keys and that has the guards of roles and
  -- features, at any time.
  pub revoke_key-dispatch :
      (school_id now later : ℕ) (k : ApiKey) (presented : Token) (events : List Event)
      (rs : List Role) (f : Option Feature) (request : Request) (s : State)
      → no_clash key_clashes s.api_keys ≡ true
      → In k s.api_keys
      → k.hashed_key ≡ sec.hash_token presented
      → (revoke_key db school_id k.id now s).0 ≡ ok tt
      → request.x_api_key ≡ some presented
      → (x : Exception) × ((dispatch db sec config
            (gated jwt_or_api_key rs f)
            request
            later
            (serve_all events (revoke_key db school_id k.id now s).1)).0
          ≡ err x)
  revoke_key-dispatch school_id now later k presented events rs f request s n m e r x =
      refuses presented rs f request later _ x (
        serve_all-IsDead (sec.hash_token presented) events _ (
          subst (λ hash. IsDead hash (revoke_key db school_id k.id now s).1) e
            (revoked-IsDead db school_id now k s n m r)))
