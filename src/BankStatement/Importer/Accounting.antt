-- ===== src/BankStatement/Importer/Accounting.antt =====
-- What `import` does with each row of a statement.
use skolara.Prelude.{
  ℕ, suc, ◌+◌, ◌≡◌, refl, Bool, true, false, List, [], ◌∷◌, Option, arith, ltb, if◌then◌else◌,
  length, min, length-append, ltb→lt, ltb→ge, List-cases, Bool-cases, inl, inr,
}
use skolara.BankStatement.Csv.{Text}
use skolara.BankStatement.Importer.{
  Parsed, line, reason, ImportState, Rejection, trim, max_reported_rejections, shorten,
  is_header_row, parse_row, record_parsed, import_row, import_rows, import_statement,
}

abbrev pub is_blank : Text → Bool
is_blank [] = true
is_blank (c ∷ t) = false

-- The rows with content.
abbrev pub content_rows : List Text → ℕ
content_rows [] = 0
content_rows (raw ∷ rows) = (if is_blank (trim raw) then 0 else 1) + content_rows rows

module _ (parse_date parse_number : Text → Option ℕ) where
  -- 1 if the first row with content is a header.
  abbrev pub header_rows : List Text → ℕ
  header_rows [] = 0
  header_rows (raw ∷ rows) =
      let later = header_rows rows in
      if is_blank (trim raw)
      then later
      else if is_header_row parse_date parse_number (trim raw)
      then 1
      else 0

  -- What the loop has accounted for.
  abbrev handled : ImportState → ℕ
  handled s = length s.lines + s.skipped

  abbrev headers : Bool → List Text → ℕ
  headers true rows = 0
  headers false rows = header_rows rows

  record_parsed-handled :
      (index : ℕ) (row : Text) (p : Parsed) (s : ImportState)
      → handled (record_parsed parse_date parse_number index row p s) ≡ handled s + 1
  record_parsed-handled index row (line l) s = omega (arith, length-append s.lines (l ∷ []))
  record_parsed-handled index row (reason r) s = omega arith

  record_parsed-seen :
      (index : ℕ) (row : Text) (p : Parsed) (s : ImportState)
      → (record_parsed parse_date parse_number index row p s).seen_content_row ≡ s.seen_content_row
  record_parsed-seen index row (line l) s = refl
  record_parsed-seen index row (reason r) s = refl

  import_row-handled :
      (index : ℕ) (raw : Text) (rows : List Text) (s : ImportState)
      → let t = import_row parse_date parse_number index raw s in
        handled t + headers s.seen_content_row (raw ∷ rows)
        ≡ handled s + (if is_blank (trim raw) then 0 else 1) + headers t.seen_content_row rows
  unfolding import_row
  import_row-handled index raw rows s = elim (List-cases (trim raw)) [
    | inl e ↦ ground (arith, e)
    | inr (c, t, e) ↦
        let seen : ImportState = record s { seen_content_row = true } in
        let parsed = parse_row parse_date parse_number (c ∷ t) in
        ground (
          arith,
          e,
          record_parsed-handled index (c ∷ t) parsed seen,
          record_parsed-seen index (c ∷ t) parsed seen,
        )
  ]

  import_rows-handled :
      (index : ℕ) (rows : List Text) (s : ImportState)
      → handled (import_rows parse_date parse_number index rows s) + headers s.seen_content_row rows
        ≡ handled s + content_rows rows
  unfolding import_rows
  import_rows-handled index [] s = ground arith
  import_rows-handled index (raw ∷ rows) s = omega (
    arith,
    import_row-handled index raw rows s,
    import_rows-handled (suc index) rows (import_row parse_date parse_number index raw s),
  )

  abbrev IsCapped : ImportState → Type 0
  IsCapped s = length s.rejections ≡ min s.skipped max_reported_rejections

  record_parsed-IsCapped :
      (index : ℕ) (row : Text) (p : Parsed) (s : ImportState)
      → IsCapped s
      → IsCapped (record_parsed parse_date parse_number index row p s)
  record_parsed-IsCapped index row (line l) s h = h
  record_parsed-IsCapped index row (reason r) s h =
      let added : List Rejection =
        record { line_number = index + 1; content = shorten row; why = r } ∷ [] in
      elim (Bool-cases (ltb (length s.rejections) max_reported_rejections)) [
        | inl e ↦ rw e (omega (arith, h, length-append s.rejections added, ltb→lt _ _ e))
        | inr e ↦ rw e (omega (arith, h, ltb→ge _ _ e))
      ]

  import_rows-IsCapped :
      (index : ℕ) (rows : List Text) (s : ImportState)
      → IsCapped s
      → IsCapped (import_rows parse_date parse_number index rows s)
  unfolding import_rows import_row
  import_rows-IsCapped index [] s h = h
  import_rows-IsCapped index (raw ∷ rows) s h =
      import_rows-IsCapped (suc index) rows _ (elim (List-cases (trim raw)) [
        | inl e ↦ ground (arith, e)
        | inr (c, t, e) ↦ ground (
          arith,
          e,
          record_parsed-IsCapped index (c ∷ t) (parse_row parse_date parse_number (c ∷ t))
              (record s { seen_content_row = true }),
        )
      ])

  -- Every row with content is imported, counted as skipped, or the header in the first such row;
  -- and the rejections described are as many as the rows skipped, up to fifty.
  pub import_statement_accounts :
      (rows : List Text)
      → let r = import_statement parse_date parse_number rows in
        (length r.lines + r.skipped + header_rows rows ≡ content_rows rows)
        × (length r.rejections ≡ min r.skipped 50)
  unfolding import_statement
  import_statement_accounts rows =
      let start : ImportState = record {
        lines = [];
        rejections = [];
        skipped = 0;
        seen_content_row = false;
      } in
      (
        omega (arith, import_rows-handled 0 rows start),
        import_rows-IsCapped 0 rows start (omega arith),
      )
