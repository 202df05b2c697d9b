-- ===== src/Preprocess/Fields.antt =====
-- partition/preprocess/criteoTB_script/read_and_trans.cpp: what process_line reads from a line whose
-- fields are given.
use mathlib.Core.List.{append-nil, append_assoc}
use max_embed.Prelude.{
  ℕ, le→leb, leb, Option, none, true, suc, ◌+◌, ◌*◌, ◌%◌, ◌^◌, ◌<◌, ◌≤◌, ◌≡◌, ◌≢◌, refl, ◌∙◌, ap,
  subst, List, [], ◌∷◌, ◌++◌, some, arith, ltb, ◌==◌, if◌then◌else◌, All, map, length, ==_of_ne,
  sym, Bool-cases, inl, inr,
}
use max_embed.Preprocess.{
  tab, newline, max_numbers, get_number, skip_tabs, keep_number, read_numbers, skipped,
  process_line,
}

-- The code of a hexadecimal digit, in lower case.
unfoldable pub digit_code : ℕ → ℕ
digit_code d = if ltb d 10 then 48 + d else 87 + d

-- The number that digits stand for, behind those of `number`, in 64 bits.
unfoldable pub value_from : ℕ → List ℕ → ℕ
value_from number [] = number
value_from number (d ∷ digits) = value_from ((number * 16 + d) % 2 ^ 64) digits

-- A line: fields that end with a tab, and then fields of digits, the last of which ends the line.
unfoldable pub tabbed : List (List ℕ) → List ℕ → List ℕ
tabbed [] rest = rest
tabbed (field ∷ fields) rest = field ++ tab ∷ tabbed fields rest

unfoldable pub digit_fields : List ℕ → List (List ℕ) → List ℕ
digit_fields field [] = map digit_code field ++ newline ∷ []
digit_fields field (next ∷ fields) = map digit_code field ++ tab ∷ digit_fields next fields

-- The numbers of the fields, without the zeros: an empty field counts as a zero.
unfoldable pub nonzero : List ℕ → List ℕ
nonzero [] = []
nonzero (n ∷ ns) = if n == 0 then nonzero ns else n ∷ nonzero ns

skip_tabs-field :
    (n : ℕ) (field rest : List ℕ)
    → All (λ ch. ch ≢ tab) field
    → skip_tabs (suc n) (field ++ tab ∷ rest) ≡ skip_tabs n rest
unfolding skip_tabs
skip_tabs-field n [] rest h = refl
skip_tabs-field n (ch ∷ field) rest h = rw (==_of_ne ch tab h.0) (skip_tabs-field n field rest h.1)

skip_tabs-tabbed :
    (fields : List (List ℕ)) (rest : List ℕ)
    → All (All (λ ch. ch ≢ tab)) fields
    → skip_tabs (length fields) (tabbed fields rest) ≡ some rest
unfolding skip_tabs tabbed
skip_tabs-tabbed [] rest h = refl
skip_tabs-tabbed (field ∷ fields) rest h =
    skip_tabs-field (length fields) field (tabbed fields rest) h.0
    ∙ skip_tabs-tabbed fields rest h.1

get_number-digit_code : (d : ℕ) → d < 16 → get_number (digit_code d) ≡ d
unfolding get_number digit_code
get_number-digit_code d h = ground arith

digit_code-range : (d : ℕ) → 48 ≤ digit_code d
unfolding digit_code
digit_code-range d = ground arith

read_numbers-digits :
    (field rest : List ℕ) (number : ℕ) (numbers : List ℕ)
    → All (λ d. d < 16) field
    → read_numbers (map digit_code field ++ rest) number numbers
      ≡ read_numbers rest (value_from number field) numbers
unfolding read_numbers value_from
read_numbers-digits [] rest number numbers h = refl
read_numbers-digits (d ∷ field) rest number numbers h =
    rw
      (
        ==_of_ne (digit_code d) tab (λ e. omega (arith, digit_code-range d)),
        ==_of_ne (digit_code d) newline (λ e. omega (arith, digit_code-range d)),
        get_number-digit_code d h.0,
      )
      (read_numbers-digits field rest ((number * 16 + d) % 2 ^ 64) numbers h.1)

keep_number-append :
    (number : ℕ) (numbers more : List ℕ)
    → keep_number number numbers ++ nonzero more ≡ numbers ++ nonzero (number ∷ more)
unfolding keep_number nonzero
keep_number-append number numbers more = elim (Bool-cases (number == 0)) [
  | inl e ↦ rw (e, keep_number, nonzero)
  | inr e ↦ rw (e, keep_number, nonzero) (append_assoc numbers (number ∷ []) (nonzero more))
]

read_numbers-fields :
    (field : List ℕ) (fields : List (List ℕ)) (numbers : List ℕ)
    → All (λ d. d < 16) field
    → All (All (λ d. d < 16)) fields
    → read_numbers (digit_fields field fields) 0 numbers
      ≡ some (numbers ++ nonzero (map (value_from 0) (field ∷ fields)))
unfolding digit_fields read_numbers nonzero
read_numbers-fields field [] numbers h k =
    read_numbers-digits field (newline ∷ []) 0 numbers h
    ∙ ap some (sym (append-nil _) ∙ keep_number-append (value_from 0 field) numbers [])
read_numbers-fields field (next ∷ fields) numbers h k =
    read_numbers-digits field (tab ∷ digit_fields next fields) 0 numbers h
    ∙ read_numbers-fields next fields (keep_number (value_from 0 field) numbers) k.0 k.1
    ∙ ap some (keep_number-append (value_from 0 field) numbers (map (value_from 0) (next ∷ fields)))

-- A line of fourteen fields without a tab, and then fields of hexadecimal digits in lower case, of
-- which at most 26 are not zero: the
-- record holds the numbers of those fields in their order, in 64 bits and without the zeros.
pub process_line-fields :
    (ignored : List (List ℕ)) (field : List ℕ) (fields : List (List ℕ))
    → length ignored ≡ skipped
    → All (All (λ ch. ch ≢ tab)) ignored
    → All (λ d. d < 16) field
    → All (All (λ d. d < 16)) fields
    → length (nonzero (map (value_from 0) (field ∷ fields))) ≤ max_numbers
    → process_line (tabbed ignored (digit_fields field fields))
      ≡ some (nonzero (map (value_from 0) (field ∷ fields)))
unfolding process_line
process_line-fields ignored field fields e g h k few =
    let skip =
      subst
        (λ n.
          skip_tabs n (tabbed ignored (digit_fields field fields))
          ≡ some (digit_fields field fields))
        e (skip_tabs-tabbed ignored (digit_fields field fields) g) in
    let found = nonzero (map (value_from 0) (field ∷ fields)) in
    let room : leb (length found) max_numbers ≡ true = le→leb (length found) max_numbers few in
    rw (skip, process_line)
      (ap fit (read_numbers-fields field fields [] h k)
        ∙ ap (λ b. if b then some found else none) room)
  where
    fit : Option (List ℕ) → Option (List ℕ)
    fit none = none
    fit (some ns) = if leb (length ns) max_numbers then some ns else none
