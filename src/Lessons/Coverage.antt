-- ===== src/Lessons/Coverage.antt =====
-- Coverage of a syllabus: `coverage` of the lessons service, whose buckets are kept by subject
-- and term. PostgreSQL's texts hold no NUL, so the key, which joins the two by one, is the pair.
-- The rounded percentage is JavaScript's arithmetic and a parameter; the order of the answer, by
-- `localeCompare`, is left out.
use mathlib.Core.Path.{subst}
use skolara.Prelude.{
  ℕ, ◌+◌, ◌≡◌, refl, sym, Bool, true, false, not, ◌&&◌, ◌||◌, List, [], ◌∷◌, map, Option, none,
  some, arith, ◌==◌, ltb, any, any-In, sum_by, count_by, In, inl, inr, if◌then◌else◌, holds,
  is_none,
}
use skolara.Prelude.Action.{Action, ok}
use skolara.Store.{Prisma, no_clash}
use skolara.Lessons.Rows.{
  SyllabusTopicStatus, SyllabusTopic, State, status_index, in_progress, is_completed,
}

pub record SyllabusCoverage : Type 0 where
  pub subject : ℕ
  pub term : ℕ
  pub total : ℕ
  pub completed : ℕ
  pub in_progress : ℕ
  pub not_started : ℕ
  pub percent_complete : ℕ
  pub overdue : ℕ

abbrev pub is_started : SyllabusTopicStatus → Bool
is_started status = status_index status == status_index in_progress

-- Neither completed nor under way.
abbrev pub is_waiting : SyllabusTopicStatus → Bool
is_waiting status = not (is_completed status || is_started status)

abbrev pub is_overdue : ℕ → SyllabusTopic → Bool
is_overdue now t =
    not (is_completed t.status)
    && (elim t.planned_for_date [ none ↦ false | some date ↦ ltb date now ])

abbrev pub new_bucket : SyllabusTopic → SyllabusCoverage
new_bucket t = record {
  subject = t.subject;
  term = t.term;
  total = 0;
  completed = 0;
  in_progress = 0;
  not_started = 0;
  percent_complete = 0;
  overdue = 0;
}

abbrev one_if : Bool → ℕ
one_if b = if b then 1 else 0

abbrev pub add_topic : ℕ → SyllabusTopic → SyllabusCoverage → SyllabusCoverage
add_topic now t b = record b {
  total = b.total + 1;
  completed = b.completed + one_if (is_completed t.status);
  in_progress = b.in_progress + one_if (not (is_completed t.status) && is_started t.status);
  not_started = b.not_started + one_if (is_waiting t.status);
  overdue = b.overdue + one_if (is_overdue now t);
}

abbrev pub is_bucket : (subject term : ℕ) → SyllabusCoverage → Bool
is_bucket subject term b = b.subject == subject && b.term == term

-- One round of the loop: the bucket of the topic is taken out, or made, and put back.
pub put : ℕ → SyllabusTopic → List SyllabusCoverage → List SyllabusCoverage
put now t [] = add_topic now t (new_bucket t) ∷ []
put now t (b ∷ bs) =
    let rest = put now t bs in
    if is_bucket t.subject t.term b then add_topic now t b ∷ bs else b ∷ rest

pub put_all : ℕ → List SyllabusTopic → List SyllabusCoverage → List SyllabusCoverage
put_all now [] bs = bs
put_all now (t ∷ ts) bs = put_all now ts (put now t bs)

abbrev pub with_percent : (ℕ → ℕ → ℕ) → SyllabusCoverage → SyllabusCoverage
with_percent percent b = record b { percent_complete = percent b.completed b.total }

-- The `where`; no term and an empty one ask for all terms.
abbrev pub of_class : (school_id class_id : ℕ) → Option ℕ → SyllabusTopic → Bool
of_class school_id class_id term t =
    t.school_id == school_id && (t.class_id == class_id && (is_none term || holds term t.term))

unfoldable pub coverage :
    Prisma
    → (ℕ → ℕ → ℕ)
    → (school_id class_id : ℕ) → Option ℕ
    → (now : ℕ) → Action State (List SyllabusCoverage)
unfolding put_all put
coverage db percent school_id class_id term now s =
    let topics = db.find_many (of_class school_id class_id term) (λ t. 0) s.topics in
    (ok (map (with_percent percent) (put_all now topics [])), s)

-- A field that each topic adds to.
record Tallies (now : ℕ) (f : SyllabusCoverage → ℕ) (d : SyllabusTopic → ℕ) : Type 0 where
  adds : (t : SyllabusTopic) (b : SyllabusCoverage) → f (add_topic now t b) ≡ f b + d t
  starts : (t : SyllabusTopic) → f (new_bucket t) ≡ 0

abbrev of_group : (subject term : ℕ) → SyllabusTopic → Bool
of_group subject term t = t.subject == subject && t.term == term

sum-put :
    (now : ℕ) (f : SyllabusCoverage → ℕ) (d : SyllabusTopic → ℕ) (h : Tallies now f d)
    (subject term : ℕ) (t : SyllabusTopic) (bs : List SyllabusCoverage)
    → sum_by (λ b. if is_bucket subject term b then f b else 0) (put now t bs)
      ≡ sum_by (λ b. if is_bucket subject term b then f b else 0) bs
        + (if of_group subject term t then d t else 0)
unfolding put
sum-put now f d h subject term t [] = ground (arith, h.adds t (new_bucket t), h.starts t)
sum-put now f d h subject term t (b ∷ bs) =
    ground (arith, h.adds t b, sum-put now f d h subject term t bs)

sum-put_all :
    (now : ℕ) (f : SyllabusCoverage → ℕ) (d : SyllabusTopic → ℕ) (h : Tallies now f d)
    (subject term : ℕ) (ts : List SyllabusTopic) (bs : List SyllabusCoverage)
    → sum_by (λ b. if is_bucket subject term b then f b else 0) (put_all now ts bs)
      ≡ sum_by (λ b. if is_bucket subject term b then f b else 0) bs
        + sum_by (λ t. if of_group subject term t then d t else 0) ts
unfolding put_all
sum-put_all now f d h subject term [] bs = omega arith
sum-put_all now f d h subject term (t ∷ ts) bs = omega (
  arith,
  sum-put_all now f d h subject term ts (put now t bs),
  sum-put now f d h subject term t bs,
)

abbrev pub same_bucket : SyllabusCoverage → SyllabusCoverage → Bool
same_bucket x y = is_bucket x.subject x.term y

any-put :
    (now subject term : ℕ) (t : SyllabusTopic) (bs : List SyllabusCoverage)
    → any (is_bucket subject term) (put now t bs)
      ≡ (any (is_bucket subject term) bs || of_group subject term t)
unfolding put
any-put now subject term t [] = ground arith
any-put now subject term t (b ∷ bs) = ground (arith, any-put now subject term t bs)

put-no_clash :
    (now : ℕ) (t : SyllabusTopic) (bs : List SyllabusCoverage)
    → no_clash same_bucket bs ≡ true
    → no_clash same_bucket (put now t bs) ≡ true
unfolding put
put-no_clash now t [] n = refl
put-no_clash now t (b ∷ bs) n =
    ground (arith, n, put-no_clash now t bs, any-put now b.subject b.term t bs)

put_all-no_clash :
    (now : ℕ) (ts : List SyllabusTopic) (bs : List SyllabusCoverage)
    → no_clash same_bucket bs ≡ true
    → no_clash same_bucket (put_all now ts bs) ≡ true
unfolding put_all
put_all-no_clash now [] bs n = n
put_all-no_clash now (t ∷ ts) bs n =
    put_all-no_clash now ts (put now t bs) (put-no_clash now t bs n)

-- Where no two buckets are for one subject and term, the sum over those of a bucket is the bucket's.
sum_none :
    (f : SyllabusCoverage → ℕ) (subject term : ℕ) (bs : List SyllabusCoverage)
    → any (is_bucket subject term) bs ≡ false
    → sum_by (λ b. if is_bucket subject term b then f b else 0) bs ≡ 0
sum_none f subject term [] h = refl
sum_none f subject term (b ∷ bs) h = ground (arith, h, sum_none f subject term bs)

sum_one :
    (f : SyllabusCoverage → ℕ) (b : SyllabusCoverage) (bs : List SyllabusCoverage)
    → no_clash same_bucket bs ≡ true
    → In b bs
    → sum_by (λ x. if is_bucket b.subject b.term x then f x else 0) bs ≡ f b
sum_one f b [] n m = elim m [ ]
sum_one f b (x ∷ xs) n (inl e) = ground (arith, n, e, sum_none f x.subject x.term xs)
sum_one f b (x ∷ xs) n (inr m) = ground (
  arith,
  n,
  sum_one f b xs (ground (arith, n)) m,
  any-In (same_bucket x) xs b (ground (arith, n)) m,
)

-- The topics of a class and term that are of a bucket and pass a test.
abbrev pub count_topics :
    (school_id class_id : ℕ)
    → Option ℕ
    → SyllabusCoverage
    → (SyllabusTopic → Bool)
    → List SyllabusTopic
    → ℕ
count_topics school_id class_id term b q =
    count_by (λ t. of_class school_id class_id term t && (of_group b.subject b.term t && q t))

count_nested :
    (p g q : SyllabusTopic → Bool) (ts : List SyllabusTopic)
    → sum_by (λ t. if p t then (if g t then one_if (q t) else 0) else 0) ts
      ≡ count_by (λ t. p t && (g t && q t)) ts
count_nested p g q [] = refl
count_nested p g q (t ∷ ts) = ground (arith, count_nested p g q ts)

In-map :
    (g : SyllabusCoverage → SyllabusCoverage) (b : SyllabusCoverage) (bs : List SyllabusCoverage)
    → In b (map g bs)
    → (x : SyllabusCoverage) × In x bs × (b ≡ g x)
In-map g b [] m = elim m [ ]
In-map g b (x ∷ xs) (inl e) = (x, inl refl, e)
In-map g b (x ∷ xs) (inr m) = let (y, n, e) = In-map g b xs m in (y, inr n, e)

module _ (db : Prisma) (school_id class_id : ℕ) (term : Option ℕ) (now : ℕ) (s : State) where
  abbrev buckets : List SyllabusCoverage
  buckets = put_all now (db.find_many (of_class school_id class_id term) (λ t. 0) s.topics) []

  field_counts :
      (f : SyllabusCoverage → ℕ) (q : SyllabusTopic → Bool) (b : SyllabusCoverage)
      → Tallies now f (λ t. one_if (q t))
      → In b buckets
      → f b ≡ count_topics school_id class_id term b q s.topics
  field_counts f q b h m =
      let p = of_class school_id class_id term in
      let g = of_group b.subject b.term in
      let topics = db.find_many p (λ t. 0) s.topics in
      omega (
        arith,
        sum_one f b buckets (put_all-no_clash now topics [] refl) m,
        sum-put_all now f (λ t. one_if (q t)) h b.subject b.term topics [],
        db.find_many_sum p (λ t. 0) (λ t. if g t then one_if (q t) else 0) s.topics,
        count_nested p g q s.topics,
      )

  -- The numbers of every bucket that the coverage of a class answers are those of a count over
  -- its topics of the bucket's subject and term, in the term asked for if any: all of them, the
  -- completed, those in progress, the rest, and those not completed whose planned date has
  -- passed; the percentage is that of the completed ones.
  pub coverage-counts :
      (percent : ℕ → ℕ → ℕ) (answer : List SyllabusCoverage) (b : SyllabusCoverage)
      → (coverage db percent school_id class_id term now s).0 ≡ ok answer
      → In b answer
      → let n = λ (q : SyllabusTopic → Bool). count_topics school_id class_id term b q s.topics in
        (b.total ≡ n (λ t. true))
        × (b.completed ≡ n (λ t. is_completed t.status))
        × (b.in_progress ≡ n (λ t. not (is_completed t.status) && is_started t.status))
        × (b.not_started ≡ n (λ t. is_waiting t.status))
        × (b.overdue ≡ n (is_overdue now))
        × (b.percent_complete ≡ percent b.completed b.total)
  unfolding coverage
  coverage-counts percent answer b e m =
      let same : map (with_percent percent) buckets ≡ answer = ground (arith, e) in
      let (x, i, g) = In-map (with_percent percent) b buckets (subst (In b) (sym same) m) in
      rw g (
        field_counts (λ b. b.total) (λ t. true) x
            (record { adds = λ t b. refl; starts = λ t. refl }) i,
        field_counts (λ b. b.completed) _ x (record { adds = λ t b. refl; starts = λ t. refl }) i,
        field_counts (λ b. b.in_progress) _ x (record { adds = λ t b. refl; starts = λ t. refl }) i,
        field_counts (λ b. b.not_started) _ x (record { adds = λ t b. refl; starts = λ t. refl }) i,
        field_counts (λ b. b.overdue) (is_overdue now) x
            (record { adds = λ t b. refl; starts = λ t. refl }) i,
        refl,
      )
