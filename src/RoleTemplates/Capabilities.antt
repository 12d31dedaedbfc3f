-- ===== src/RoleTemplates/Capabilities.antt =====
-- Capabilities as texts, and the list that a template stores: `[...new
-- Set(input.permissions)].sort()`.
use Prim.Native.String.{◌++◌, compare}
use text.Mathlib.Text.{◌==◌, is_lt}
use text.Mathlib.TextEquality.{eq_iff}
use skolara.Prelude.{
  ◌≡◌, refl, String, Bool, not, ◌||◌, List, [], ◌∷◌, any, filter_by, arith, if◌then◌else◌,
}

abbrev pub str_eq : String → String → Bool
str_eq x y = x == y

-- `xs.includes(x)`
abbrev pub includes : List String → String → Bool
includes xs x = any (λ y. str_eq y x) xs

-- `[...new Set(xs)]`: the first of each.
unfoldable pub distinct : List String → List String
distinct [] = []
distinct (x ∷ xs) = x ∷ filter_by (λ y. not (str_eq y x)) (distinct xs)

unfoldable pub insert : String → List String → List String
insert x [] = x ∷ []
insert x (y ∷ ys) = let rest = insert x ys in if is_lt (compare y x) then y ∷ rest else x ∷ y ∷ ys

unfoldable pub sort : List String → List String
unfolding insert
sort [] = []
sort (x ∷ xs) = insert x (sort xs)

unfoldable pub stored_permissions : List String → List String
unfolding distinct sort
stored_permissions xs = sort (distinct xs)

pub data CapabilityAction : Type 0 where
  read write : CapabilityAction

abbrev pub capability : String → CapabilityAction → String
capability resource read = resource ++ ":read"
capability resource write = resource ++ ":write"

-- The groups of the editor, flattened.
unfoldable pub capability_resources : List String
capability_resources =
    "students" ∷ "teachers" ∷ "users" ∷ "classes" ∷ "attendance" ∷ "grades" ∷ "exams"
    ∷ "assignments" ∷ "quizzes" ∷ "study-materials" ∷ "lessons" ∷ "timetable" ∷ "calendar"
    ∷ "live-classes" ∷ "report-cards" ∷ "certificates" ∷ "invoices" ∷ "payments" ∷ "bank-statement"
    ∷ "payroll" ∷ "reports" ∷ "notices" ∷ "messages" ∷ "complaints" ∷ "meetings" ∷ "broadcasts"
    ∷ "library" ∷ "transport" ∷ "hostel" ∷ "inventory" ∷ "leave" ∷ "analytics" ∷ "audit-logs"
    ∷ "api-keys" ∷ "schools" ∷ "support" ∷ "export" ∷ []

unfoldable pub always_allowed_resources : List String
always_allowed_resources = "auth" ∷ "health" ∷ "devices" ∷ "uploads" ∷ []

includes-insert : (p x : String) (xs : List String) → includes (insert x xs) p ≡ includes (x ∷ xs) p
unfolding insert
includes-insert p x [] = refl
includes-insert p x (y ∷ ys) = ground (arith, includes-insert p x ys)

includes-sort : (p : String) (xs : List String) → includes (sort xs) p ≡ includes xs p
unfolding sort
includes-sort p [] = refl
includes-sort p (x ∷ xs) = ground (arith, includes-insert p x (sort xs), includes-sort p xs)

includes-without :
    (p x : String) (xs : List String)
    → (str_eq x p || includes (filter_by (λ y. not (str_eq y x)) xs) p)
      ≡ (str_eq x p || includes xs p)
includes-without p x [] = refl
includes-without p x (y ∷ ys) =
    ground (arith, includes-without p x ys, eq_iff y x, eq_iff x p, eq_iff y p)

includes-distinct : (p : String) (xs : List String) → includes (distinct xs) p ≡ includes xs p
unfolding distinct
includes-distinct p [] = refl
includes-distinct p (x ∷ xs) =
    ground (arith, includes-without p x (distinct xs), includes-distinct p xs)

-- What is stored names the capabilities that were asked for.
pub includes-stored_permissions :
    (p : String) (xs : List String) → includes (stored_permissions xs) p ≡ includes xs p
unfolding stored_permissions
includes-stored_permissions p xs =
    ground (arith, includes-sort p (distinct xs), includes-distinct p xs)
