-- ===== src/BankStatement/Csv.antt =====
-- `splitCsvRow`, and the rule by which a bank quotes the fields of a row.
use skolara.Prelude.{
  ℕ, ◌≡◌, refl, sym, ap, inl, inr, ==→eq, All, true, false, ◌∙◌, List, [], ◌∷◌, ◌++◌, arith, ◌==◌,
  if◌then◌else◌, Bool-cases,
}
use mathlib.Core.List.{append-nil, append_assoc}

abbrev pub Text : Type 0
Text = List ℕ

abbrev pub quote : ℕ
quote = b'"'

abbrev pub comma : ℕ
comma = b','

-- The variable `inQuotes`.
pub data Mode : Type 0 where
  outside inside : Mode

-- The loop: the mode, the field so far and the rest of the row; a doubled quote inside a quoted
-- field steps over two characters.
unfoldable pub scan : Mode → Text → Text → List Text
scan mode field [] = field ∷ []
scan outside field (c ∷ rest) = elim (c == quote) [
  | true ↦ scan inside field rest
  | false ↦ elim (c == comma) [
    | true ↦ field ∷ scan outside [] rest
    | false ↦ scan outside (field ++ c ∷ []) rest
  ]
]
scan inside field (c ∷ []) = (if c == quote then field else field ++ c ∷ []) ∷ []
scan inside field (c ∷ d ∷ rest) = elim (c == quote) [
  | true ↦ elim (d == quote) [
    | true ↦ scan inside (field ++ quote ∷ []) rest
    | false ↦ scan outside field (d ∷ rest)
  ]
  | false ↦ scan inside (field ++ c ∷ []) (d ∷ rest)
]

unfoldable pub split_csv_row : Text → List Text
unfolding scan
split_csv_row row = scan outside [] row

-- How a field is quoted: quotes are doubled, and a pair of quotes goes round it.
abbrev pub escape : Text → Text
escape [] = []
escape (c ∷ field) = if c == quote then quote ∷ quote ∷ escape field else c ∷ escape field

abbrev pub quoted : Text → Text → Text
quoted field rest = quote ∷ escape field ++ quote ∷ rest

-- A row of quoted fields.
abbrev pub csv_row : Text → List Text → Text
csv_row field [] = quoted field []
csv_row field (next ∷ fields) = quoted field (comma ∷ csv_row next fields)

scan-plain :
    (acc rest : Text) (c : ℕ)
    → (c == quote) ≡ false
    → scan inside acc (c ∷ rest) ≡ scan inside (acc ++ c ∷ []) rest
unfolding scan
scan-plain acc [] c h = rw h
scan-plain acc (d ∷ rest) c h = rw (h, scan)

-- What ends a field: the end of the row or a comma.
abbrev pub Ends : Text → Type 0
Ends [] = Unit {0}
Ends (c ∷ rest) = (c == quote) ≡ false

scan-close : (acc rest : Text) → Ends rest → scan inside acc (quote ∷ rest) ≡ scan outside acc rest
unfolding scan
scan-close acc [] h = refl
scan-close acc (d ∷ rest) h = ground (arith, h)

pub scan-escape :
    (acc field rest : Text)
    → Ends rest
    → scan inside acc (escape field ++ quote ∷ rest) ≡ scan outside (acc ++ field) rest
unfolding scan
scan-escape acc [] rest h = rw append-nil (scan-close acc rest h)
scan-escape acc (c ∷ field) rest h = elim (Bool-cases (c == quote)) [
  | inl e ↦ rw e (
      scan-escape (acc ++ quote ∷ []) field rest h
      ∙ ap (λ f. scan outside f rest)
          (append_assoc acc (quote ∷ []) field
            ∙ ap (λ n. acc ++ n ∷ field) (sym (==→eq c quote e))))
  | inr e ↦ rw e (
      scan-plain acc _ c e
      ∙ scan-escape (acc ++ c ∷ []) field rest h
      ∙ ap (λ f. scan outside f rest) (append_assoc acc (c ∷ []) field))
]

scan-csv_row :
    (field : Text) (fields : List Text) → scan outside [] (csv_row field fields) ≡ field ∷ fields
unfolding scan
scan-csv_row field [] = scan-escape [] field [] tt
scan-csv_row field (next ∷ fields) =
    scan-escape [] field (comma ∷ csv_row next fields) refl
    ∙ ap (λ r. field ∷ r) (scan-csv_row next fields)

-- Splitting a row of quoted fields gives the fields back, whatever commas and quotes they hold.
pub split_csv_row-csv_row :
    (field : Text) (fields : List Text) → split_csv_row (csv_row field fields) ≡ field ∷ fields
unfolding split_csv_row
split_csv_row-csv_row field fields = scan-csv_row field fields

-- Text with neither quotes nor commas.
abbrev pub IsBare : Text → Type 0
IsBare [] = Unit {0}
IsBare (c ∷ field) = ((c == quote) ≡ false) × ((c == comma) ≡ false) × IsBare field

-- A row of bare fields, joined by commas.
abbrev pub joined : Text → List Text → Text
joined field [] = field
joined field (next ∷ fields) = field ++ comma ∷ joined next fields

pub scan-bare :
    (acc field rest : Text)
    → IsBare field
    → scan outside acc (field ++ rest) ≡ scan outside (acc ++ field) rest
unfolding scan
scan-bare acc [] rest h = rw append-nil
scan-bare acc (c ∷ field) rest h =
    rw (h.0, h.1, scan)
      (scan-bare (acc ++ c ∷ []) field rest h.2
        ∙ ap (λ f. scan outside f rest) (append_assoc acc (c ∷ []) field))

scan-joined :
    (field : Text) (fields : List Text)
    → All IsBare (field ∷ fields)
    → scan outside [] (joined field fields) ≡ field ∷ fields
unfolding scan
scan-joined field [] h =
    ap (λ f. scan outside [] f) (sym (append-nil field)) ∙ scan-bare [] field [] h.0
scan-joined field (next ∷ fields) h =
    scan-bare [] field (comma ∷ joined next fields) h.0
    ∙ ap (λ r. field ∷ r) (scan-joined next fields h.1)

-- Splitting a row of fields joined by commas gives the fields back, where no field holds a comma
-- or a quote.
pub split_csv_row-joined :
    (field : Text) (fields : List Text)
    → All IsBare (field ∷ fields)
    → split_csv_row (joined field fields) ≡ field ∷ fields
unfolding split_csv_row
split_csv_row-joined field fields h = scan-joined field fields h
