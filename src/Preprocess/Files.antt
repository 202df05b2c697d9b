-- ===== src/Preprocess/Files.antt =====
-- partition/preprocess/criteoTB_script: the files of records between read_and_trans and merge_result.
use max_embed.Prelude.{
  ◌≤◌, ℕ, ◌<◌, ◌≡◌, ◌≢◌, refl, ap, List, [], ◌∷◌, ◌++◌, some, arith, All, map, length,
}
use max_embed.Preprocess.{max_numbers, tab, skipped, trans_lines, read_and_trans}
use max_embed.Preprocess.Fields.{value_from, tabbed, digit_fields, nonzero, process_line-fields}

-- A file of records: every record behind its length, and all behind their number.
abbrev pub record_words : List (List ℕ) → List ℕ
record_words [] = []
record_words (keys ∷ records) = length keys ∷ (keys ++ record_words records)

abbrev pub file_of : List (List ℕ) → List ℕ
file_of records = length records ∷ record_words records

-- A line of the text, by its fields.
pub record TextLine : Type 0 where
  pub ignored : List (List ℕ)
  pub field : List ℕ
  pub fields : List (List ℕ)

-- Fourteen fields without a tab, and then hexadecimal digits, of at most 26 numbers that are not zero.
pub record IsRegular (l : TextLine) : Type 0 where
  pub fourteen : length l.ignored ≡ skipped
  pub no_tab : All (All (λ ch. ch ≢ tab)) l.ignored
  pub digits : All (λ d. d < 16) l.field
  pub all_digits : All (All (λ d. d < 16)) l.fields
  pub few : length (nonzero (map (value_from 0) (l.field ∷ l.fields))) ≤ max_numbers

abbrev pub text : TextLine → List ℕ
text l = tabbed l.ignored (digit_fields l.field l.fields)

abbrev pub numbers : TextLine → List ℕ
numbers l = nonzero (map (value_from 0) (l.field ∷ l.fields))

trans_lines-text :
    (lines : List TextLine)
    → All IsRegular lines
    → trans_lines (map text lines)
      ≡ some (record_words (map numbers lines), length (map numbers lines))
unfolding trans_lines
trans_lines-text [] h = refl
trans_lines-text (l ∷ lines) h =
    rw
      (
        process_line-fields l.ignored l.field l.fields h.0.fourteen h.0.no_tab h.0.digits
            h.0.all_digits h.0.few,
        trans_lines,
      )
      (rw (trans_lines-text lines h.1)
        (ap (λ n. some (record_words (map numbers (l ∷ lines)), n)) (omega arith)))

-- From lines of fourteen fields and hexadecimal fields, of at most 26 numbers that are not zero,
-- read_and_trans writes a file of their numbers.
pub read_and_trans-text :
    (lines : List TextLine)
    → All IsRegular lines
    → read_and_trans (map text lines) ≡ some (file_of (map numbers lines))
unfolding read_and_trans
read_and_trans-text lines h = rw (trans_lines-text lines h, read_and_trans) refl
