-- ===== src/Preprocess.antt =====
-- partition/preprocess/criteoTB_script: the two programs that turn the text of the data set into the
-- binary file of queries. A text file is the list of its lines, a line the list of its characters'
-- codes; a binary file that holds 64-bit numbers only is the list of these.
pub mod Fields
pub mod Merge
pub mod Names
pub mod Files
pub mod Rows
pub mod Chain
pub mod Split
mod Tests
use max_embed.Prelude.{
  ℕ, zero, suc, ◌+◌, ◌-◌, ◌*◌, ◌%◌, ◌^◌, List, [], ◌∷◌, ◌++◌, Option, none, some, leb, ◌==◌, ◌&&◌,
  if◌then◌else◌, length,
}

abbrev pub tab : ℕ
tab = 9

abbrev pub newline : ℕ
newline = 10

-- getnumber, of a character's code.
unfoldable pub get_number : ℕ → ℕ
get_number ch =
    if leb 48 ch && leb ch 57 then ch - 48 else if leb 97 ch && leb ch 102 then ch - 97 + 10 else 0

-- The first loop of process_line: what is left of the line behind `n` tabs. `none`: the line ends
-- before, and the loop reads past it.
unfoldable pub skip_tabs : ℕ → List ℕ → Option (List ℕ)
skip_tabs zero line = some line
skip_tabs (suc n) [] = none
skip_tabs (suc n) (ch ∷ line) =
    let found = skip_tabs n line in
    let other = skip_tabs (suc n) line in if ch == tab then found else other

-- if(number != 0) …: the numbers found so far are kept in order.
unfoldable pub keep_number : ℕ → List ℕ → List ℕ
keep_number number numbers = if number == 0 then numbers else numbers ++ number ∷ []

-- The second loop. `none`: no newline ends the line.
unfoldable pub read_numbers : List ℕ → ℕ → List ℕ → Option (List ℕ)
read_numbers [] number numbers = none
read_numbers (ch ∷ line) number numbers =
    let next = read_numbers line 0 (keep_number number numbers) in
    let more = read_numbers line ((number * 16 + get_number ch) % 2 ^ 64) numbers in
    if ch == tab then next else if ch == newline then some (keep_number number numbers) else more

abbrev pub skipped : ℕ
skipped = 14

-- uint64_t numbers[26]
abbrev pub max_numbers : ℕ
max_numbers = 26

-- process_line: the numbers that are written behind their count. `none` is also a line with more
-- numbers than the array holds: nothing stops the write past its end.
unfoldable pub process_line : List ℕ → Option (List ℕ)
process_line line = elim (skip_tabs skipped line) [
  | none ↦ none
  | some rest ↦ elim (read_numbers rest 0 []) [
    | none ↦ none
    | some numbers ↦ if leb (length numbers) max_numbers then some numbers else none
  ]
]

-- The loop of main: every line's record, and how many there are.
unfoldable pub trans_lines : List (List ℕ) → Option (List ℕ × ℕ)
trans_lines [] = some ([], 0)
trans_lines (line ∷ lines) = elim (process_line line) [
  | none ↦ none
  | some numbers ↦ elim (trans_lines lines) [
    | none ↦ none
    | some (words, rec_len) ↦ some (length numbers ∷ (numbers ++ words), rec_len + 1)
  ]
]

-- main of read_and_trans.cpp: the number of records is written over the first word at the end.
unfoldable pub read_and_trans : List (List ℕ) → Option (List ℕ)
read_and_trans lines = elim (trans_lines lines) [
  | none ↦ none
  | some (words, rec_len) ↦ some (rec_len ∷ words)
]
