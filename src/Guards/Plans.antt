-- ===== src/Guards/Plans.antt =====
-- What a school's plan includes: `packages/types/src/pricing.ts`, and `requiredPlanName` of
-- `apps/api/src/common/guards/feature.guard.ts`, where a plan stands for its name.
use skolara.Prelude.{
  ℕ, ◌≡◌, refl, Bool, List, [], ◌∷◌, ◌++◌, Option, none, some, any, ◌==◌, leb, if◌then◌else◌,
}

pub data SubscriptionPlan : Type 0 where
  basic standard premium enterprise : SubscriptionPlan

pub data Feature : Type 0 where
  exams assignments messaging complaints library transport bank_statement payroll analytics ai
        white_label api_access school_groups :
      Feature

-- The place of a feature in `FEATURES`, by which two features are compared.
unfoldable pub feature_index : Feature → ℕ
feature_index exams = 0
feature_index assignments = 1
feature_index messaging = 2
feature_index complaints = 3
feature_index library = 4
feature_index transport = 5
feature_index bank_statement = 6
feature_index payroll = 7
feature_index analytics = 8
feature_index ai = 9
feature_index white_label = 10
feature_index api_access = 11
feature_index school_groups = 12

-- The place of a plan in `PLAN_ORDER`.
unfoldable pub plan_index : SubscriptionPlan → ℕ
plan_index basic = 0
plan_index standard = 1
plan_index premium = 2
plan_index enterprise = 3

abbrev pub basic_features : List Feature
basic_features = []

abbrev pub standard_features : List Feature
standard_features =
    basic_features
    ++ exams ∷ assignments ∷ messaging ∷ complaints ∷ library ∷ transport ∷ bank_statement ∷ []

abbrev pub premium_features : List Feature
premium_features = standard_features ++ payroll ∷ analytics ∷ ai ∷ white_label ∷ api_access ∷ []

abbrev pub enterprise_features : List Feature
enterprise_features = premium_features ++ school_groups ∷ []

abbrev pub plan_entitlements : SubscriptionPlan → List Feature
plan_entitlements basic = basic_features
plan_entitlements standard = standard_features
plan_entitlements premium = premium_features
plan_entitlements enterprise = enterprise_features

unfoldable pub plan_includes : SubscriptionPlan → Feature → Bool
unfolding feature_index
plan_includes plan feature =
    any (λ f. feature_index f == feature_index feature) (plan_entitlements plan)

abbrev pub find_plan : (SubscriptionPlan → Bool) → List SubscriptionPlan → Option SubscriptionPlan
find_plan p [] = none
find_plan p (plan ∷ plans) = let rest = find_plan p plans in if p plan then some plan else rest

-- `none` is "a higher plan".
unfoldable pub required_plan : Feature → Option SubscriptionPlan
unfolding plan_includes
required_plan feature =
    find_plan (λ plan. plan_includes plan feature) (basic ∷ standard ∷ premium ∷ enterprise ∷ [])

-- The plans from a given one upwards.
abbrev pub is_enough : SubscriptionPlan → Option SubscriptionPlan → Bool
is_enough plan none = plan_index plan == 4
is_enough plan (some least) = leb (plan_index least) (plan_index plan)

-- A plan includes a feature just where it is the plan that an upsell names for it, or one above.
pub plan_includes-required_plan :
    (plan : SubscriptionPlan) (feature : Feature)
    → plan_includes plan feature ≡ is_enough plan (required_plan feature)
unfolding plan_includes required_plan feature_index plan_index
plan_includes-required_plan basic exams = refl
plan_includes-required_plan basic _ = refl
plan_includes-required_plan standard exams = refl
plan_includes-required_plan standard _ = refl
plan_includes-required_plan premium exams = refl
plan_includes-required_plan premium _ = refl
plan_includes-required_plan enterprise exams = refl
plan_includes-required_plan enterprise _ = refl
