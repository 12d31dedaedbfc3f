-- ===== src/Lessons/Syllabus.antt =====
-- The order that a syllabus keeps, and what the requests about topics leave of it: `addTopics`,
-- `updateTopic` and `removeTopic`.
use skolara.Prelude.{
  ℕ, ◌+◌, ◌≡◌, refl, Bool, true, false, not, ◌&&◌, ◌||◌, List, [], ◌∷◌, arith, ◌==◌, is_none, holds,
  any, update_by, filter_by, All, All-map, All-update_by, All-filter_by, inl, inr, Bool-cases,
  Option-cases, if◌then◌else◌, any-false_of_any,
}
use skolara.Store.{
  Prisma, Unique, Unique-update_by, Unique-cons, Unique-filter_by, eq_of_key, no_clash, Kept,
  find_or-keeps, update_or-keeps,
}
use skolara.Timetable.{SchoolClass, Period}
use skolara.Lessons.Rows.{
  SyllabusTopicStatus, SyllabusTopic, LessonPlan, TopicInput, AddSyllabusTopicsInput,
  UpdateSyllabusTopicInput, State, classes_table, topics_table, topic_clashes, new_topic,
  edit_topic, unpin, is_completed, status_index,
}
use skolara.Lessons.{
  assert_class, create_topics, write_topics, add_topics, write_topic, update_topic, delete_topic,
  remove_topic,
}

-- The topic is of the plan's school, class and subject.
abbrev pub pins : LessonPlan → SyllabusTopic → Bool
pins p t =
    holds p.topic_id t.id
    && (t.school_id == p.school_id && (t.class_id == p.class_id && t.subject == p.subject))

abbrev pub is_pinned : List SyllabusTopic → LessonPlan → Bool
is_pinned topics p = is_none p.topic_id || any (pins p) topics

abbrev pub has_class : List SchoolClass → LessonPlan → Bool
has_class classes p = any (λ c. c.id == p.class_id && c.school_id == p.school_id) classes

abbrev pub has_period : List Period → LessonPlan → Bool
has_period periods p =
    is_none p.period_id || any (λ q. holds p.period_id q.id && q.school_id == p.school_id) periods

-- A topic has a date of completion just where it is completed.
abbrev pub is_dated : SyllabusTopic → Bool
is_dated t = if is_completed t.status then not (is_none t.completed_on) else is_none t.completed_on

abbrev pub is_sound : State → LessonPlan → Bool
is_sound s p = is_pinned s.topics p && (has_class s.classes p && has_period s.periods p)

pub record IsSyllabus (s : State) : Type 0 where
  pub topic_ids : Unique (λ (t : SyllabusTopic). t.id) s.topics
  pub plan_ids : Unique (λ (p : LessonPlan). p.id) s.plans
  pub dated : All (λ t. is_dated t ≡ true) s.topics
  pub sound : All (λ p. is_sound s p ≡ true) s.plans

-- An update leaves what pins a plan, a deletion does too unless it is of the plan's topic.
any-edit_topic :
    (id now : ℕ) (old : SyllabusTopicStatus) (input : UpdateSyllabusTopicInput) (p : LessonPlan)
    (ts : List SyllabusTopic)
    → any (pins p) (update_by (λ t. t.id == id) (edit_topic now old input) ts) ≡ any (pins p) ts
any-edit_topic id now old input p [] = refl
any-edit_topic id now old input p (t ∷ ts) = ground (arith, any-edit_topic id now old input p ts)

any-remove_topic :
    (id : ℕ) (p : LessonPlan) (ts : List SyllabusTopic)
    → holds p.topic_id id ≡ false
    → any (pins p) (filter_by (λ t. not (t.id == id)) ts) ≡ any (pins p) ts
any-remove_topic id p [] h = refl
any-remove_topic id p (t ∷ ts) h = elim (Option-cases p.topic_id) [
  | inl e ↦ ground (arith, e, any-remove_topic id p ts)
  | inr (n, e) ↦ ground (arith, e, any-remove_topic id p ts)
]

edit_topic-dated :
    (now : ℕ) (input : UpdateSyllabusTopicInput) (t : SyllabusTopic)
    → is_dated t ≡ true
    → is_dated (edit_topic now t.status input t) ≡ true
edit_topic-dated now input t h = elim (Option-cases input.status) [
  | inl e ↦ ground (arith, h, e)
  | inr (status, e) ↦ ground (arith, h, e)
]

new_topic-dated :
    (school_id created_by n : ℕ) (input : AddSyllabusTopicsInput) (topic : TopicInput)
    → is_dated (new_topic school_id created_by n input topic) ≡ true
unfolding status_index
new_topic-dated school_id created_by n input topic = refl

module _ (db : Prisma) where
  pub create_topics-IsSyllabus :
      (school_id created_by n : ℕ) (input : AddSyllabusTopicsInput) (topics : List TopicInput)
      (s : State)
      → IsSyllabus s
      → IsSyllabus
          (record s { topics = (create_topics db school_id created_by n input topics s.topics).1 })
  unfolding create_topics
  create_topics-IsSyllabus school_id created_by n input [] s h = h
  create_topics-IsSyllabus school_id created_by n input (topic ∷ topics) s h =
      let row = new_topic school_id created_by n input topic in
      elim (Bool-cases (any (topic_clashes row) s.topics)) [
        | inl a ↦
            rw (create_topics, db.create_lem topic_clashes row s.topics, a)
              (create_topics-IsSyllabus school_id created_by (n + 1) input topics s h)
        | inr a ↦
            rw (create_topics, db.create_lem topic_clashes row s.topics, a)
              (create_topics-IsSyllabus school_id created_by (n + 1) input topics
                (record s { topics = row ∷ s.topics })
                (record {
                  topic_ids =
                      Unique-cons (λ t. t.id) row s.topics
                        (any-false_of_any (topic_clashes row) _ s.topics (λ t e. ground (arith, e))
                          a)
                        h.topic_ids;
                  plan_ids = h.plan_ids;
                  dated = (new_topic-dated school_id created_by n input topic, h.dated);
                  sound = All-map _ _ s.plans (λ p e. ground (arith, e)) h.sound;
                }))
      ]

  pub add_topics-IsSyllabus :
      (school_id created_by : ℕ) (input : AddSyllabusTopicsInput) (s : State)
      → IsSyllabus s
      → Kept IsSyllabus (add_topics db school_id created_by input) s
  unfolding add_topics assert_class
  add_topics-IsSyllabus school_id created_by input s h =
      find_or-keeps IsSyllabus db classes_table _ _
        (λ _. write_topics db school_id created_by input) s h
        (λ c m e. record {
          kept = create_topics-IsSyllabus school_id created_by _ input input.topics s h;
        })

  pub update_topic-IsSyllabus :
      (school_id id now : ℕ) (input : UpdateSyllabusTopicInput) (s : State)
      → IsSyllabus s
      → Kept IsSyllabus (update_topic db school_id id now input) s
  unfolding update_topic
  update_topic-IsSyllabus school_id id now input s h =
      find_or-keeps IsSyllabus db topics_table _ _ (write_topic db id now input) s h (λ topic m e.
        update_or-keeps IsSyllabus db topics_table (no_clash topic_clashes) (λ t. t.id == id)
          (edit_topic now topic.status input) _ s h
          (λ _. record {
            topic_ids = Unique-update_by (λ t. t.id) _ _ s.topics (λ t. refl) h.topic_ids;
            plan_ids = h.plan_ids;
            dated =
                All-update_by (λ t. is_dated t ≡ true) (λ t. is_dated t ≡ true) (λ t. t.id == id)
                  (edit_topic now topic.status input) s.topics
                  (λ t i d. elim (Bool-cases (t.id == id)) [
                    | inl q ↦
                        let same =
                          eq_of_key (λ t. t.id) s.topics topic t h.topic_ids m i
                            (ground (arith, e, q)) in
                        rw (q, same) (edit_topic-dated now input t d)
                    | inr q ↦ rw q d
                  ])
                  h.dated;
            sound =
                All-map _ _ s.plans
                  (λ p f. ground (arith, f, any-edit_topic id now topic.status input p s.topics))
                  h.sound;
          }))

  pub delete_topic-IsSyllabus :
      (id : ℕ) (s : State) → IsSyllabus s → Kept IsSyllabus (delete_topic db id) s
  delete_topic-IsSyllabus id s h = record {
    kept =
        rw
          (
            delete_topic,
            db.delete_many_lem (λ t. t.id == id) s.topics,
            db.update_many_lem (λ p. holds p.topic_id id) unpin s.plans,
          )
          (record {
            topic_ids = Unique-filter_by (λ t. t.id) _ s.topics h.topic_ids;
            plan_ids = Unique-update_by (λ p. p.id) _ _ s.plans (λ p. refl) h.plan_ids;
            dated = All-filter_by (λ t. is_dated t ≡ true) _ _ s.topics (λ t q d. d) h.dated;
            sound =
                All-update_by (λ p. is_sound s p ≡ true)
                  (λ p.
                    is_sound (record s { topics = filter_by (λ t. not (t.id == id)) s.topics }) p
                    ≡ true)
                  (λ p. holds p.topic_id id) unpin s.plans
                  (λ p m f. ground (arith, f, any-remove_topic id p s.topics)) h.sound;
          });
  }

  pub remove_topic-IsSyllabus :
      (school_id id : ℕ) (s : State)
      → IsSyllabus s
      → Kept IsSyllabus (remove_topic db school_id id) s
  unfolding remove_topic
  remove_topic-IsSyllabus school_id id s h =
      find_or-keeps IsSyllabus db topics_table _ _ (λ _. delete_topic db id) s h
        (λ t m e. delete_topic-IsSyllabus id s h)
