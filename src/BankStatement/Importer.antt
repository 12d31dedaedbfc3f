-- ===== src/BankStatement/Importer.antt =====
-- `import`, `parseRow` and `isHeaderRow`. The state is the variables of the loop over the rows.
pub mod Accounting
use skolara.Prelude.{
  ℕ, suc, ◌+◌, ◌≤◌, ◌≡◌, refl, Bool, true, false, not, ◌&&◌, ◌||◌, List, [], ◌∷◌, ◌++◌, Option,
  none, some, arith, ◌==◌, ltb, leb, if◌then◌else◌, is_none, any, take, filter_by, map, length,
  count_by, min, length-append, Option-cases, Bool-cases, List-cases, inl, inr,
}
use skolara.BankStatement.Csv.{Text, comma, split_csv_row}

pub data RejectionReason : Type 0 where
  malformed bad_date ambiguous_amount bad_amount : RejectionReason

pub record StatementLine : Type 0 where
  pub transaction_date : ℕ
  pub amount : ℕ
  pub description : Text

pub data Parsed : Type 0 where
  line : StatementLine → Parsed
  reason : RejectionReason → Parsed

pub record Rejection : Type 0 where
  pub line_number : ℕ
  pub content : Text
  pub why : RejectionReason

pub record ImportState : Type 0 where
  pub lines : List StatementLine
  pub rejections : List Rejection
  pub skipped : ℕ
  pub seen_content_row : Bool

-- The white space and line ends that `trim` takes off.
abbrev pub is_space : ℕ → Bool
is_space c =
    c == 32
    || leb 9 c && leb c 13
    || c == 160
    || c == 5760
    || leb 8192 c && leb c 8202
    || c == 8232
    || c == 8233
    || c == 8239
    || c == 8287
    || c == 12288
    || c == 65279

abbrev pub trim_start : Text → Text
trim_start [] = []
trim_start (c ∷ t) = let rest = trim_start t in if is_space c then rest else c ∷ t

-- A character is kept if it is no space, or something is kept after it.
abbrev pub trim_end : Text → Text
trim_end [] = []
trim_end (c ∷ t) =
    let rest = trim_end t in
    elim rest [ [] ↦ if is_space c then [] else c ∷ [] | d ∷ r ↦ c ∷ d ∷ r ]

abbrev pub trim : Text → Text
trim t = trim_end (trim_start t)

-- `replace(/,/g, "")`
abbrev pub strip_commas : Text → Text
strip_commas = filter_by (λ c. not (c == comma))

abbrev pub is_digit : ℕ → Bool
is_digit c = leb b'0' c && leb c b'9'

abbrev pub all_digits : Text → Bool
all_digits t = not (any (λ c. not (is_digit c)) t)

-- `/^\d{1,3}$/`
abbrev pub is_short_group : Text → Bool
is_short_group t = all_digits t && (ltb 0 (length t) && leb (length t) 3)

-- `(\.\d{1,2})?$`
abbrev pub is_fraction : Text → Bool
is_fraction [] = true
is_fraction (c ∷ t) = c == b'.' && (all_digits t && (ltb 0 (length t) && leb (length t) 2))

-- `/^\d{3}(\.\d{1,2})?$/`
abbrev pub is_thousands_group : Text → Bool
is_thousands_group (a ∷ b ∷ c ∷ rest) =
    is_digit a && (is_digit b && (is_digit c && is_fraction rest))
is_thousands_group _ = false

-- `descriptionFields.join(",")`
abbrev pub join_fields : List Text → Text
join_fields [] = []
join_fields (f ∷ []) = f
join_fields (f ∷ g ∷ fs) = f ++ comma ∷ join_fields (g ∷ fs)

abbrev pub shorten : Text → Text
shorten row = if ltb 120 (length row) then take 120 row ++ (b'.' ∷ b'.' ∷ b'.' ∷ []) else row

-- `MAX_REPORTED_REJECTIONS`
abbrev pub max_reported_rejections : ℕ
max_reported_rejections = 50

module _ (parse_date parse_number : Text → Option ℕ) where
  -- `t !== "" && Number.isFinite(Number(t))`
  abbrev pub is_number : Text → Bool
  is_number [] = false
  is_number (c ∷ t) = not (is_none (parse_number (c ∷ t)))

  pub is_header_fields : List Text → Bool
  is_header_fields (date ∷ amount ∷ rest) =
      is_none (parse_date (trim date)) && not (is_number (trim (strip_commas amount)))
  is_header_fields _ = false

  pub is_header_row : Text → Bool
  unfolding is_header_fields
  is_header_row row = is_header_fields (split_csv_row row)

  -- The amount column, once the row is not ambiguous.
  pub parse_amount : ℕ → Text → List Text → Parsed
  parse_amount date amount descriptions =
      let cleaned = trim (strip_commas amount) in
      if is_number cleaned
      then elim (parse_number cleaned) [
        | none ↦ reason bad_amount
        | some n ↦ line (record {
          transaction_date = date;
          amount = n;
          description = trim (join_fields descriptions);
        })
      ]
      else reason bad_amount

  pub parse_fields : List Text → Parsed
  unfolding parse_amount
  parse_fields (date ∷ amount ∷ first ∷ rest) = elim (parse_date (trim date)) [
    | none ↦ reason bad_date
    | some d ↦
        if is_short_group (trim amount) && is_thousands_group (trim first)
        then reason ambiguous_amount
        else parse_amount d amount (first ∷ rest)
  ]
  parse_fields _ = reason malformed

  pub parse_row : Text → Parsed
  unfolding parse_fields
  parse_row row = parse_fields (split_csv_row row)

  abbrev pub record_parsed : ℕ → Text → Parsed → ImportState → ImportState
  record_parsed index row (line l) s = record s { lines = s.lines ++ l ∷ [] }
  record_parsed index row (reason r) s = record s {
    skipped = s.skipped + 1;
    rejections =
        if ltb (length s.rejections) max_reported_rejections
        then s.rejections ++ record { line_number = index + 1; content = shorten row; why = r } ∷ []
        else s.rejections;
  }

  -- One round of the loop over the rows.
  pub import_row : ℕ → Text → ImportState → ImportState
  import_row index raw s = elim (trim raw) [
    | [] ↦ s
    | c ∷ t ↦
        let seen = record s { seen_content_row = true } in
        if not s.seen_content_row && is_header_row (c ∷ t)
        then seen
        else record_parsed index (c ∷ t) (parse_row (c ∷ t)) seen
  ]

  pub import_rows : ℕ → List Text → ImportState → ImportState
  import_rows index [] s = s
  import_rows index (raw ∷ rows) s = import_rows (suc index) rows (import_row index raw s)

  -- The rows of the text are its pieces between line feeds.
  pub import_statement : List Text → ImportState
  unfolding import_rows
  import_statement rows =
      import_rows 0 rows
        (record { lines = []; rejections = []; skipped = 0; seen_content_row = false })
