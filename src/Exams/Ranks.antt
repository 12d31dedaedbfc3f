-- ===== src/Exams/Ranks.antt =====
-- The places of a rank list: `rankList` of the exams service.
use mathlib.Core.Path.{subst}
use skolara.Prelude.{
  ℕ, ◌+◌, ◌≤◌, ◌<◌, ◌≡◌, refl, ◌&&◌, List, [], ◌∷◌, map, Option, none, some, arith, ◌==◌, ltb, leb,
  leb→le, ==→eq, count_by, In, All, All-map, All-In, inl, inr, Bool-cases, Option-cases,
  if◌then◌else◌, holds, length,
}
use skolara.Prelude.Action.{ok}
use skolara.Store.{Prisma}
use skolara.Exams.{
  State, RankListEntry, give_ranks, insert_row, sort_rows, rank_list, of_exam, row_of, by_student,
  Doubles,
}

-- The rows with a greater percentage.
abbrev pub above : ℕ → List RankListEntry → ℕ
above p rows = count_by (λ r. ltb p r.percentage) rows

abbrev above_in : ℕ → List ℕ → ℕ
above_in p prior = count_by (λ q. ltb p q) prior

abbrev pub IsDescending : List RankListEntry → Type 0
IsDescending [] = Unit {0}
IsDescending (x ∷ xs) = All (λ y. y.percentage ≤ x.percentage) xs × IsDescending xs

above_none :
    (p : ℕ) (rows : List RankListEntry) → All (λ r. r.percentage ≤ p) rows → above p rows ≡ 0
above_none p [] h = refl
above_none p (x ∷ xs) h = ground (arith, h.0, above_none p xs h.1)

above_all :
    (p l : ℕ) (prior : List ℕ) → p < l → All (λ q. l ≤ q) prior → above_in p prior ≡ length prior
above_all p l [] k h = refl
above_all p l (x ∷ xs) k h = ground (arith, k, h.0, above_all p l xs k h.1)

-- A row's place, with the percentages of the rows before the list.
abbrev HasRank : List ℕ → List RankListEntry → RankListEntry → Type 0
HasRank prior rows e = e.rank ≡ 1 + above_in e.percentage prior + above e.percentage rows

next_rank :
    (prior : List ℕ) (index l rank p : ℕ)
    → index ≡ length prior
    → All (λ q. l ≤ q) prior
    → rank ≡ 1 + above_in l prior
    → p ≤ l
    → (if l == p then rank else index + 1) ≡ 1 + above_in p prior
next_rank prior index l rank p i h r k = elim (Bool-cases (l == p)) [
  | inl e ↦ rw e (subst (λ n. rank ≡ 1 + above_in n prior) (==→eq l p e) r)
  | inr e ↦ ground (arith, e, i, k, above_all p l prior (ground (arith, e, k)) h)
]

ranks_after :
    (rows : List RankListEntry) (prior : List ℕ) (index l rank : ℕ)
    → index ≡ length prior
    → All (λ q. l ≤ q) prior
    → rank ≡ 1 + above_in l prior
    → All (λ r. r.percentage ≤ l) rows
    → IsDescending rows
    → All (HasRank prior rows) (give_ranks index rank (some l) rows)
unfolding give_ranks
ranks_after [] prior index l rank i h r b d = tt
ranks_after (x ∷ xs) prior index l rank i h r b d =
    let next = if l == x.percentage then rank else index + 1 in
    let n = next_rank prior index l rank x.percentage i h r b.0 in
    let rest =
      ranks_after xs (x.percentage ∷ prior) (index + 1) x.percentage next (omega (arith, i))
        (
          omega arith,
          All-map (λ q. l ≤ q) (λ q. x.percentage ≤ q) prior (λ q k. omega (arith, k, b.0)) h,
        )
        (ground (arith, n)) d.0 d.1 in
    (
      ground (arith, n, above_none x.percentage xs d.0),
      All-map (HasRank (x.percentage ∷ prior) xs) (HasRank prior (x ∷ xs)) _
          (λ e k. omega (arith, k)) rest,
    )

ranks_are :
    (rows : List RankListEntry)
    → IsDescending rows
    → All (HasRank [] rows) (give_ranks 0 0 none rows)
unfolding give_ranks
ranks_are [] d = tt
ranks_are (x ∷ xs) d =
    let rest =
      ranks_after xs (x.percentage ∷ []) 1 x.percentage 1 refl (omega arith, tt) (ground arith) d.0
        d.1 in
    (
      ground (arith, above_none x.percentage xs d.0),
      All-map (HasRank (x.percentage ∷ []) xs) (HasRank [] (x ∷ xs)) _ (λ e k. omega (arith, k))
          rest,
    )

insert_row-All :
    (p : ℕ) (x : RankListEntry) (ys : List RankListEntry)
    → x.percentage ≤ p
    → All (λ y. y.percentage ≤ p) ys
    → All (λ y. y.percentage ≤ p) (insert_row x ys)
unfolding insert_row
insert_row-All p x [] k h = (k, tt)
insert_row-All p x (y ∷ ys) k h = elim (Bool-cases (leb y.percentage x.percentage)) [
  | inl e ↦ rw e (k, h)
  | inr e ↦ rw e (h.0, insert_row-All p x ys k h.1)
]

insert_row-IsDescending :
    (x : RankListEntry) (ys : List RankListEntry) → IsDescending ys → IsDescending (insert_row x ys)
unfolding insert_row
insert_row-IsDescending x [] d = (tt, tt)
insert_row-IsDescending x (y ∷ ys) d = elim (Bool-cases (leb y.percentage x.percentage)) [
  | inl e ↦ rw e ((leb→le _ _ e, All-map _ _ ys (λ z k. omega (arith, k, leb→le _ _ e)) d.0), d)
  | inr e ↦
      rw e (insert_row-All y.percentage x ys (ground arith) d.0, insert_row-IsDescending x ys d.1)
]

sort_rows-IsDescending : (xs : List RankListEntry) → IsDescending (sort_rows xs)
unfolding sort_rows
sort_rows-IsDescending [] = tt
sort_rows-IsDescending (x ∷ xs) =
    insert_row-IsDescending x (sort_rows xs) (sort_rows-IsDescending xs)

above-give_ranks :
    (p index rank : ℕ) (last : Option ℕ) (rows : List RankListEntry)
    → above p (give_ranks index rank last rows) ≡ above p rows
unfolding give_ranks
above-give_ranks p index rank last [] = refl
above-give_ranks p index rank last (x ∷ xs) = rw (
    above-give_ranks p (index + 1) (if holds last x.percentage then rank else index + 1)
      (some x.percentage) xs)

give_ranks-All :
    (p index rank : ℕ) (last : Option ℕ) (rows : List RankListEntry)
    → All (λ y. y.percentage ≤ p) rows
    → All (λ y. y.percentage ≤ p) (give_ranks index rank last rows)
unfolding give_ranks
give_ranks-All p index rank last [] h = tt
give_ranks-All p index rank last (x ∷ xs) h = (h.0, give_ranks-All p (index + 1) _ _ xs h.1)

give_ranks-IsDescending :
    (index rank : ℕ) (last : Option ℕ) (rows : List RankListEntry)
    → IsDescending rows
    → IsDescending (give_ranks index rank last rows)
unfolding give_ranks
give_ranks-IsDescending index rank last [] d = tt
give_ranks-IsDescending index rank last (x ∷ xs) d = (
  give_ranks-All x.percentage (index + 1) _ _ xs d.0,
  give_ranks-IsDescending (index + 1) _ _ xs d.1,
)

module _ (db : Prisma) where
  -- In a rank list that is answered, the percentages descend, and the rank of every entry is one
  -- more than the number of entries with a greater percentage, so that equal ones share a place.
  pub rank_list-places :
      (js : Doubles) (school_id exam_id : ℕ) (s : State) (answer : List RankListEntry)
      (e : RankListEntry)
      → (rank_list db js school_id exam_id s).0 ≡ ok answer
      → In e answer
      → IsDescending answer × (e.rank ≡ 1 + above e.percentage answer)
  unfolding rank_list
  rank_list-places js school_id exam_id s answer e h m =
      elim (Option-cases
        (db.find_first (λ e. e.id == exam_id && e.school_id == school_id) s.exams)) [
          | inl f ↦ ground (arith, h, f)
          | inr (exam, f) ↦
              let rows = sort_rows (
                map (row_of js)
                  (by_student js (db.find_many (of_exam school_id exam) (λ g. 0) s.grades) [])) in
              let same : give_ranks 0 0 none rows ≡ answer = ground (arith, h, f) in
              let d = sort_rows-IsDescending (
                map (row_of js)
                  (by_student js (db.find_many (of_exam school_id exam) (λ g. 0) s.grades) [])) in
              subst (λ l. In e l → IsDescending l × (e.rank ≡ 1 + above e.percentage l)) same
                (λ i. (
                  give_ranks-IsDescending 0 0 none rows d,
                  omega (
                    arith,
                    above-give_ranks e.percentage 0 0 none rows,
                    All-In _ e _ (ranks_are rows d) i,
                  ),
                ))
                m
        ]
