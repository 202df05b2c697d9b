-- ===== src/PartitionStep/Text/Graph.antt =====
-- partition/src/partition.cpp, read_hypergraph: the hypergraph that a text of given lines stands for.
use mathlib.Core.List.{append-nil, append_assoc}
use max_embed.Prelude.{
  ℕ, suc, ◌+◌, ◌≤◌, ◌<◌, ◌≡◌, refl, sym, ap, ◌∙◌, false, List, [], ◌∷◌, ◌++◌, none, some, arith,
  All, map, length, length-append, le→leb, lt→ltb, ==_of_ne,
}
use max_embed.Queries.RoundTrip.{keys_of_lines, ends, length-ends}
use max_embed.Words.{u32}
use max_embed.PartitionStep.Text.{
  Header, Reading, is_digit, end_line, add_node, add_number, read_chars, read_hypergraph,
}
use max_embed.PartitionStep.Text.Lines.{
  Numeral, IsNumeral, value, line_from, text_of, uniq, node, row, rows_of, read_chars-numeral,
  add_all, close, length-add_node, length-add_all, xpins-add_all, pins-add_all,
}

add_number-node :
    (h : Header) (x : Numeral) (r : Reading)
    → IsNumeral h x
    → length (add_node (node h x) r).pins ≤ h.num_pins
    → add_number h (value x) r ≡ some (add_node (node h x) r)
unfolding add_number
add_number-node h x r n l =
    let same : u32 (node h x) ≡ node h x = omega (arith, n.int_sized) in
    rw
      (
        same,
        le→leb h.starting (value x) n.low,
        lt→ltb (node h x) h.c (omega (arith, n.low, n.high)),
        le→leb (length (add_node (node h x) r).pins) h.num_pins l,
      )
      refl

end_line-newline :
    (h : Header) (r : Reading)
    → 0 < length r.pins
    → length r.xpins ≤ h.n
    → end_line h 10 r ≡ some (close r)
unfolding end_line
end_line-newline h r p l =
    rw (==_of_ne (length r.pins) 0 (λ e. omega (arith, e)), le→leb (length r.xpins) h.n l) refl

read_chars-after :
    (h : Header) (num ch : ℕ) (rest : List ℕ) (r r1 r2 : Reading)
    → is_digit ch ≡ false
    → add_number h num r ≡ some r1
    → end_line h ch r1 ≡ some r2
    → read_chars h (some num) (ch ∷ rest) r ≡ read_chars h none rest r2
unfolding read_chars
read_chars-after h num ch rest r r1 r2 d a e = rw (d, read_chars) (rw a (rw e refl))

not_digit : (is_digit 10 ≡ false) × (is_digit 32 ≡ false)
unfolding is_digit
not_digit = (refl, refl)

end_line-blank : (h : Header) (r : Reading) → end_line h 32 r ≡ some r
unfolding end_line
end_line-blank h r = refl

read_chars-line :
    (h : Header) (x : Numeral) (xs : List Numeral) (rest : List ℕ) (r : Reading)
    → IsNumeral h x
    → All (IsNumeral h) xs
    → let r' = add_all (map (node h) (x ∷ xs)) r in
      length r'.pins ≤ h.num_pins
      → 0 < length (add_node (node h x) r).pins
      → length r.xpins ≤ h.n
      → read_chars h none (line_from x xs rest) r ≡ read_chars h none rest (close r')
unfolding line_from
read_chars-line h x [] rest r n ns few p l =
    read_chars-numeral h x (10 ∷ rest) r n
    ∙ read_chars-after h (value x) 10 rest r (add_node (node h x) r) _ not_digit.0
        (add_number-node h x r n few)
        (end_line-newline h (add_node (node h x) r) p
          (omega (arith, l, ap length (xpins-add_all (node h x ∷ []) r))))
read_chars-line h x (y ∷ xs) rest r n ns few p l =
    read_chars-numeral h x (32 ∷ line_from y xs rest) r n
    ∙ read_chars-after h (value x) 32 (line_from y xs rest) r r1 r1 not_digit.1
        (add_number-node h x r n (omega (arith, few, length-add_all (map (node h) (y ∷ xs)) r1)))
        (end_line-blank h r1)
    ∙ read_chars-line h y xs rest r1 ns.0 ns.1 few (omega (arith, p, length-add_node (node h y) r1))
        (omega (arith, l, ap length (xpins-add_all (node h x ∷ []) r)))
  where
    r1 : Reading
    r1 = add_node (node h x) r

-- What the lines make of the state.
abbrev read_lines : Header → List (Numeral × List Numeral) → Reading → Reading
read_lines h [] r = r
read_lines h ((x, xs) ∷ lines) r = read_lines h lines (close (add_all (map (node h) (x ∷ xs)) r))

first_new : (x : ℕ) (r : Reading) → r.set ≡ [] → length (add_node x r).pins ≡ length r.pins + 1
unfolding add_node
first_new x r e = rw e (length-append r.pins (x ∷ []))

read_lines-pins :
    (h : Header) (lines : List (Numeral × List Numeral)) (r : Reading)
    → r.set ≡ []
    → ((read_lines h lines r).pins ≡ r.pins ++ keys_of_lines (rows_of h lines))
      × ((read_lines h lines r).xpins ≡ r.xpins ++ ends (length r.pins) (rows_of h lines))
read_lines-pins h [] r e = (sym (append-nil r.pins), sym (append-nil r.xpins))
read_lines-pins h ((x, xs) ∷ lines) r e =
    let nodes = map (node h) (x ∷ xs) in
    let r1 = add_all nodes r in
    let rows = rows_of h lines in
    let (p, q) = read_lines-pins h lines (close r1) refl in
    let here : r1.pins ≡ r.pins ++ row h (x, xs) =
      pins-add_all nodes r ∙ ap (λ s. r.pins ++ uniq s nodes) e in
    let size : length r1.pins ≡ length r.pins + length (row h (x, xs)) =
      ap length here ∙ length-append r.pins (row h (x, xs)) in
    (
      p
          ∙ ap (λ ps. ps ++ keys_of_lines rows) here
          ∙ append_assoc r.pins (row h (x, xs)) (keys_of_lines rows),
      q
          ∙ append_assoc r1.xpins (length r1.pins ∷ []) (ends (length r1.pins) rows)
          ∙ ap (λ ps. ps ++ length r1.pins ∷ ends (length r1.pins) rows) (xpins-add_all nodes r)
          ∙ ap (λ k. r.xpins ++ k ∷ ends k rows) size,
    )

read_chars-text :
    (h : Header) (lines : List (Numeral × List Numeral)) (r : Reading)
    → All (λ line. IsNumeral h line.0 × All (IsNumeral h) line.1) lines
    → r.set ≡ []
    → length (read_lines h lines r).pins ≤ h.num_pins
    → length r.xpins + length lines ≤ h.n + 1
    → read_chars h none (text_of lines) r ≡ some (read_lines h lines r)
unfolding text_of read_chars
read_chars-text h [] r n e few l = refl
read_chars-text h ((x, xs) ∷ lines) r n e few l =
    let nodes = map (node h) (x ∷ xs) in
    let r1 = add_all nodes r in
    let later = read_lines-pins h lines (close r1) refl in
    let some_pin = first_new (node h x) r e in
    let marks = length-append r1.xpins (length r1.pins ∷ []) in
    let same = ap length (xpins-add_all nodes r) in
    read_chars-line h x xs (text_of lines) r n.0.0 n.0.1
      (omega
        (arith, few, ap length later.0, length-append r1.pins (keys_of_lines (rows_of h lines))))
      (omega (arith, some_pin)) (omega (arith, l))
    ∙ read_chars-text h lines (close r1) n.1 refl few (omega (arith, l, marks, same))

-- A text of lines that each have at least one number, all from `starting` on, below starting + c and
-- below starting + 2 ^ 31 and 2 ^ 63, with n lines, and no more than num_pins different numbers in
-- the lines together: the hypergraph has an edge for each line, with the line's numbers less
-- `starting`, each once, in their order.
pub read_hypergraph-text :
    (h : Header) (lines : List (Numeral × List Numeral))
    → All (λ line. IsNumeral h line.0 × All (IsNumeral h) line.1) lines
    → length lines ≡ h.n
    → length (keys_of_lines (rows_of h lines)) ≤ h.num_pins
    → read_hypergraph h (text_of lines)
      ≡ some (record {
        c = h.c;
        n = h.n;
        xpins = 0 ∷ ends 0 (rows_of h lines);
        pins = keys_of_lines (rows_of h lines);
      })
unfolding read_hypergraph
read_hypergraph-text h lines n cnt few =
    let r : Reading = record { xpins = 0 ∷ []; pins = []; set = [] } in
    let (p, q) = read_lines-pins h lines r refl in
    let e =
      read_chars-text h lines r n refl (omega (arith, ap length p, few)) (omega (arith, cnt)) in
    let all : length (0 ∷ ends 0 (rows_of h lines)) ≡ h.n + 1 =
      omega (arith, length-ends 0 (rows_of h lines), length-rows lines, cnt) in
    rw (e, read_hypergraph)
      (rw (q, p, ==_of_ne (length (0 ∷ ends 0 (rows_of h lines))) h.n (λ z. omega (arith, z, all)))
        refl)
  where
    length-rows : (ls : List (Numeral × List Numeral)) → length (rows_of h ls) ≡ length ls
    length-rows [] = refl
    length-rows (l ∷ ls) = ap suc (length-rows ls)
