-- ===== src/Prelude/Action.antt =====
-- A request handler: it reads and writes the state, and answers or throws one of Nest's exceptions.
-- What was written before a throw stays written, unless the write stands in a transaction.
use Prim.Native.String.{String}
use mathlib.Core.Path.{◌≡◌, refl}
use mathlib.Core.Logic.{◌⊎◌, inl, inr}
use mathlib.Core.Bool.{Bool, true, false}
use mathlib.Core.Option.{Option, none, some}

-- What the services throw: the exceptions of `@nestjs/common`, each with the text of its message,
-- the interpolations not filled in; `record_missing` and `unique_violation`, Prisma's P2025 and
-- P2002, where the service does not translate them itself; and `service_failed`, the failure of
-- what is outside the repository. ExceptionFilter has what a client is answered for each.
pub data Exception : Type 0 where
  bad_request conflict forbidden not_found unauthorized : String → Exception
  record_missing unique_violation service_failed : Exception

pub data Result (A : Type 0) : Type 0 where
  ok : A → Result A
  err : Exception → Result A

abbrev pub Action : Type 0 → Type 0 → Type 0
Action S A = S → Result A × S

infixl 5 ◌>>=◌ ◌>>◌
abbrev pub ◌>>=◌ : {S A B : Type 0} → Action S A → (A → Action S B) → Action S B
◌>>=◌ m f s = let (r, s') = m s in elim r [ ok a ↦ f a s' | err e ↦ (err e, s') ]

abbrev pub ◌>>◌ : {S B : Type 0} → Action S (Unit {0}) → Action S B → Action S B
◌>>◌ m k = m >>= λ _. k

module _ {S A : Type 0} where
  abbrev pub pure : A → Action S A
  pure a s = (ok a, s)

  abbrev pub raise : Exception → Action S A
  raise e s = (err e, s)

  -- `if (!row) throw e`
  abbrev pub or_raise : Option A → Exception → Action S A
  or_raise none e s = (err e, s)
  or_raise (some a) e s = (ok a, s)

  -- `$transaction`: all of it, or nothing.
  abbrev pub transaction : Action S A → Action S A
  transaction m s = let (r, s') = m s in elim r [ ok a ↦ (ok a, s') | err e ↦ (err e, s) ]

  -- `try { m } catch { d }`, where what was written stays written.
  abbrev pub attempt : A → Action S A → Action S A
  attempt d m s = let (r, s') = m s in elim r [ ok a ↦ (ok a, s') | err e ↦ (ok d, s') ]

  -- `catch (error) { throw translate(error) }`: a P2002 becomes `e`.
  abbrev pub translate : Exception → Action S A → Action S A
  translate e m s =
      let (r, s') = m s in
      elim r [ ok a ↦ (ok a, s') | err unique_violation ↦ (err e, s') | err x ↦ (err x, s') ]

module _ {S : Type 0} where
  -- `if (b) throw e`
  abbrev pub raise_if : Bool → Exception → Action S (Unit {0})
  raise_if true e s = (err e, s)
  raise_if false e s = (ok tt, s)

  -- `if (b) { m }`
  abbrev pub only_if : Bool → Action S (Unit {0}) → Action S (Unit {0})
  only_if true m = m
  only_if false m = pure tt

-- The step leaves an invariant of the state intact, whether it answers or throws.
abbrev pub Keeps : {S A : Type 0} → (S → Type 0) → Action S A → Type 0
Keeps {S} I m = (s : S) → I s → I (m s).1

-- To split on an answer and keep the equation.
pub Result-cases :
    {A : Type 0} (r : Result A) → ((a : A) × (r ≡ ok a)) ⊎ ((e : Exception) × (r ≡ err e))
Result-cases (ok a) = inl (a, refl)
Result-cases (err e) = inr (e, refl)
