-- ===== src/PartitionStep/Text/Lines.antt =====
-- partition/src/partition.cpp, read_hypergraph, on a text that is given by its lines of numbers.
use mathlib.Core.List.{append-nil, append_assoc}
use max_embed.Prelude.{
  ℕ, ◌+◌, ◌-◌, ◌*◌, ◌^◌, ◌≤◌, ◌<◌, ◌≡◌, refl, sym, ap, ◌∙◌, true, false, List, [], ◌∷◌, ◌++◌, none,
  some, arith, if◌then◌else◌, All, map, length, length-append, elem, Bool, Bool-cases, inl, inr,
}
use max_embed.PartitionStep.Text.{Header, Reading, is_digit, add_node, read_chars}

-- The number that decimal digits stand for, behind those of `num`.
unfoldable pub decimal : ℕ → List ℕ → ℕ
decimal num [] = num
decimal num (d ∷ digits) = decimal (num * 10 + d) digits

-- A number: its first digit and the others.
pub record Numeral : Type 0 where
  pub digit : ℕ
  pub digits : List ℕ

abbrev pub value : Numeral → ℕ
value x = decimal x.digit x.digits

-- A number of a node; the node is an int.
pub record IsNumeral (h : Header) (x : Numeral) : Type 0 where
  pub first : x.digit < 10
  pub others : All (λ d. d < 10) x.digits
  pub low : h.starting ≤ value x
  pub high : value x < h.starting + h.c
  pub int_sized : value x < h.starting + 2 ^ 31
  pub long_sized : value x < 2 ^ 63

abbrev pub chars_of : Numeral → List ℕ
chars_of x = (48 + x.digit) ∷ map (λ d. 48 + d) x.digits

-- The numbers of a line with a blank between two, and a newline.
unfoldable pub line_from : Numeral → List Numeral → List ℕ → List ℕ
line_from x [] rest = chars_of x ++ 10 ∷ rest
line_from x (y ∷ xs) rest = chars_of x ++ 32 ∷ line_from y xs rest

-- A line has at least one number.
unfoldable pub text_of : List (Numeral × List Numeral) → List ℕ
text_of [] = []
text_of ((x, xs) ∷ lines) = line_from x xs (text_of lines)

-- The nodes that are not among `seen`, each once.
unfoldable pub uniq : List ℕ → List ℕ → List ℕ
uniq seen [] = []
uniq seen (x ∷ xs) = if elem x seen then uniq seen xs else x ∷ uniq (x ∷ seen) xs

abbrev pub node : Header → Numeral → ℕ
node h x = value x - h.starting

abbrev pub row : Header → Numeral × List Numeral → List ℕ
row h line = uniq [] (map (node h) (line.0 ∷ line.1))

abbrev pub rows_of : Header → List (Numeral × List Numeral) → List (List ℕ)
rows_of h = map (row h)

is_digit-digit : (d : ℕ) → d < 10 → is_digit (48 + d) ≡ true
unfolding is_digit
is_digit-digit d h = ground arith

read_chars-digits :
    (h : Header) (num : ℕ) (digits rest : List ℕ) (r : Reading)
    → All (λ d. d < 10) digits
    → read_chars h (some num) (map (λ d. 48 + d) digits ++ rest) r
      ≡ read_chars h (some (decimal num digits)) rest r
unfolding read_chars decimal
read_chars-digits h num [] rest r a = refl
read_chars-digits h num (d ∷ digits) rest r a =
    let e : is_digit (48 + d) ≡ true = is_digit-digit d a.0 in
    let v : 48 + d - 48 ≡ d = omega arith in
    rw (e, v) (read_chars-digits h (num * 10 + d) digits rest r a.1)

pub read_chars-numeral :
    (h : Header) (x : Numeral) (rest : List ℕ) (r : Reading)
    → IsNumeral h x
    → read_chars h none (chars_of x ++ rest) r ≡ read_chars h (some (value x)) rest r
unfolding read_chars
read_chars-numeral h x rest r n =
    let e = is_digit-digit x.digit n.first in
    let v : 48 + x.digit - 48 ≡ x.digit = omega arith in
    rw (e, v) (read_chars-digits h x.digit x.digits rest r n.others)

abbrev pub add_all : List ℕ → Reading → Reading
add_all [] r = r
add_all (x ∷ xs) r = add_all xs (add_node x r)

-- The end of a line.
abbrev pub close : Reading → Reading
close r = record { xpins = r.xpins ++ length r.pins ∷ []; pins = r.pins; set = [] }

pub length-add_node : (x : ℕ) (r : Reading) → length r.pins ≤ length (add_node x r).pins
unfolding add_node
length-add_node x r = elim (Bool-cases (elem x r.set)) [
  | inl e ↦ rw (e, add_node) (omega arith)
  | inr e ↦ rw (e, add_node) (omega (arith, length-append r.pins (x ∷ [])))
]

pub length-add_all : (xs : List ℕ) (r : Reading) → length r.pins ≤ length (add_all xs r).pins
length-add_all [] r = omega arith
length-add_all (x ∷ xs) r = omega (arith, length-add_node x r, length-add_all xs (add_node x r))

pub xpins-add_all : (xs : List ℕ) (r : Reading) → (add_all xs r).xpins ≡ r.xpins
unfolding add_node
xpins-add_all [] r = refl
xpins-add_all (x ∷ xs) r = xpins-add_all xs (add_node x r) ∙ one (elem x r.set)
  where
    one :
        (c : Bool)
        → (if c
            then r
            else record { xpins = r.xpins; pins = r.pins ++ x ∷ []; set = x ∷ r.set }).xpins
          ≡ r.xpins
    one true = refl
    one false = refl

add_node_old : (x : ℕ) (r : Reading) → elem x r.set ≡ true → add_node x r ≡ r
unfolding add_node
add_node_old x r e = if_true (elem x r.set) e
  where
    if_true :
        (c : Bool)
        → c ≡ true
        → (if c then r else record { xpins = r.xpins; pins = r.pins ++ x ∷ []; set = x ∷ r.set })
          ≡ r
    if_true true h = refl
    if_true false h = cc

add_node_new :
    (x : ℕ) (r : Reading)
    → elem x r.set ≡ false
    → add_node x r ≡ record { xpins = r.xpins; pins = r.pins ++ x ∷ []; set = x ∷ r.set }
unfolding add_node
add_node_new x r e = rw e refl

pub pins-add_all : (xs : List ℕ) (r : Reading) → (add_all xs r).pins ≡ r.pins ++ uniq r.set xs
unfolding uniq
pins-add_all [] r = sym (append-nil r.pins)
pins-add_all (x ∷ xs) r = elim (Bool-cases (elem x r.set)) [
  | inl e ↦
      rw (e, uniq)
        (ap (λ (q : Reading). (add_all xs q).pins) (add_node_old x r e) ∙ pins-add_all xs r)
  | inr e ↦
      rw (e, uniq)
        (ap (λ (q : Reading). (add_all xs q).pins) (add_node_new x r e)
          ∙ pins-add_all xs (record { xpins = r.xpins; pins = r.pins ++ x ∷ []; set = x ∷ r.set })
          ∙ append_assoc r.pins (x ∷ []) (uniq (x ∷ r.set) xs))
]
