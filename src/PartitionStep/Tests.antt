-- ===== src/PartitionStep/Tests.antt =====
-- A run of partition_step at a concrete hypergraph, and its theorems there.
use max_embed.Queries.{write_queries}
use max_embed.Queries.RoundTrip.{keys_of_lines, ends}
use max_embed.PartitionStep.Text.{
  Header, is_digit, end_line, add_node, add_number, read_chars, read_hypergraph,
}
use max_embed.PartitionStep.Text.Graph.{read_hypergraph-text}
use max_embed.PartitionStep.Text.Lines.{
  Numeral, IsNumeral, decimal, line_from, text_of, uniq, rows_of,
}
use max_embed.PartitionStep.Input.{
  read_longs, read_binary_hypergraph, read_binary_hypergraph-write_queries,
}
use max_embed.Prelude.{
  ℕ, zero, suc, ◌+◌, ◌-◌, ◌^◌, ◌≤◌, ◌<◌, ◌≡◌, refl, false, List, [], ◌∷◌, some, arith, count, to_ℕ,
  ltb, ◌==◌, if◌then◌else◌, length, get_or, All, none,
}
use max_embed.Mapper.{Tables, construct}
use max_embed.Mapper.File.{open_mapping}
use max_embed.Partition.Toy.{toy}
use max_embed.Partition.{State}
use max_embed.Partition.Whole.{fill, mark_edges, mark_pins}
use max_embed.PartitionStep.{
  Hypergraph, relate, write_mapping, write_ids, write_lens, write_parts, partition_step,
}
use max_embed.PartitionStep.RoundTrip.{single, open_mapping-write_mapping}
use max_embed.PartitionStep.Pages.{edge_nodes, IsPartitionable, pages_fit}

-- The edges {0, 1}, {3} and {1, 2}.
abbrev graph : Hypergraph
graph = record { c = 5; n = 3; xpins = 0 ∷ 2 ∷ 3 ∷ 5 ∷ []; pins = 0 ∷ 1 ∷ 3 ∷ 1 ∷ 2 ∷ [] }

abbrev blank : State ℕ
blank = record {
  gain = λ t k. 0;
  part_info = λ k. false;
  pins = [];
  partition = λ k. 0;
  part_id = 0;
}

some_edge : length (edge_nodes graph) ≡ 3
unfolding relate fill mark_edges mark_pins
some_edge = refl

-- Nodes 0 and 1 in part 0, the others in part 1.
abbrev parts : ℕ → ℕ
parts k = if ltb k 2 then 0 else 1

words_of_parts : write_mapping 3 parts ≡ 3 ∷ 0 ∷ 3 ∷ 0 ∷ 0 ∷ 1 ∷ 2 ∷ 1 ∷ 1 ∷ 1 ∷ 0 ∷ 0 ∷ 1 ∷ []
unfolding write_mapping write_ids write_lens write_parts
words_of_parts = refl

parts_small : (k : ℕ) → k < 3 → parts k < 2 ^ 32
parts_small k h = ground arith

open_mapping-write_mapping_example : open_mapping (write_mapping 3 parts) ≡ single 3 parts
open_mapping-write_mapping_example = open_mapping-write_mapping 3 parts (omega arith) parts_small

graph-IsPartitionable : IsPartitionable graph
graph-IsPartitionable = record {
  ordered = ordered;
  short = short;
  within = omega arith;
  nodes = (omega arith, (omega arith, (omega arith, (omega arith, (omega arith, tt)))));
}
  where
    ordered : (i : ℕ) → i < 3 → get_or graph.xpins i 0 ≤ get_or graph.xpins (i + 1) 0
    ordered zero h = omega arith
    ordered (suc zero) h = omega arith
    ordered (suc (suc zero)) h = omega arith
    ordered (suc (suc (suc i))) h = absurd (omega arith)

    short : (i : ℕ) → i < 3 → get_or graph.xpins (i + 1) 0 - get_or graph.xpins i 0 < 65536
    short zero h = omega arith
    short (suc zero) h = omega arith
    short (suc (suc zero)) h = omega arith
    short (suc (suc (suc i))) h = absurd (omega arith)

pages_fit_example :
    (words : List ℕ) × (t : Tables) × (part : ℕ → ℕ) × (partition_step toy graph 2 blank
      ≡ some words)
    × (construct (open_mapping words) 5 ≡ some t)
    × ((b : ℕ) → length (get_or t.block_to_elem b []) ≤ 2)
    × ((b k : ℕ)
        → count k (get_or t.block_to_elem b []) ≡ (if ltb k 5 then to_ℕ (part k == b) else 0))
pages_fit_example =
    pages_fit toy graph 2 blank (omega arith) (omega arith) (omega (arith, some_edge))
      graph-IsPartitionable

-- The queries 4 2 and 7 of a file with 8 nodes, as edges.
abbrev queries : List (List ℕ)
queries = (4 ∷ 2 ∷ []) ∷ (7 ∷ []) ∷ []

queries_small : All (λ k. k < 2 ^ 32) (keys_of_lines queries)
queries_small = (omega arith, (omega arith, (omega arith, tt)))

read_binary_hypergraph-write_queries_example :
    read_binary_hypergraph (write_queries 8 queries)
    ≡ some (record { c = 8; n = 2; xpins = 0 ∷ 2 ∷ 3 ∷ []; pins = 4 ∷ 2 ∷ 7 ∷ [] })
read_binary_hypergraph-write_queries_example =
    read_binary_hypergraph-write_queries 8 queries queries_small (omega arith) (omega arith)
      (omega arith)

-- A file that ends within its index.
cut_short : read_binary_hypergraph (2 ∷ 0 ∷ 8 ∷ 0 ∷ 0 ∷ 0 ∷ []) ≡ none
unfolding read_binary_hypergraph read_longs
cut_short = refl

-- The lines "1 12 1" and "3", of numbers from 1 on.
abbrev header : Header
header = record { starting = 1; c = 20; n = 2; num_pins = 4 }

abbrev one : Numeral
one = record { digit = 1; digits = [] }

abbrev twelve : Numeral
twelve = record { digit = 1; digits = 2 ∷ [] }

abbrev three : Numeral
three = record { digit = 3; digits = [] }

abbrev lines : List (Numeral × List Numeral)
lines = (one, twelve ∷ one ∷ []) ∷ (three, []) ∷ []

one-IsNumeral : IsNumeral header one
unfolding decimal
one-IsNumeral = record {
  first = omega arith;
  others = tt;
  low = omega arith;
  high = omega arith;
  int_sized = omega arith;
  long_sized = omega arith;
}

twelve-IsNumeral : IsNumeral header twelve
unfolding decimal
twelve-IsNumeral = record {
  first = omega arith;
  others = (omega arith, tt);
  low = omega arith;
  high = omega arith;
  int_sized = omega arith;
  long_sized = omega arith;
}

three-IsNumeral : IsNumeral header three
unfolding decimal
three-IsNumeral = record {
  first = omega arith;
  others = tt;
  low = omega arith;
  high = omega arith;
  int_sized = omega arith;
  long_sized = omega arith;
}

lines-IsNumeral : All (λ line. IsNumeral header line.0 × All (IsNumeral header) line.1) lines
lines-IsNumeral =
    ((one-IsNumeral, (twelve-IsNumeral, (one-IsNumeral, tt))), ((three-IsNumeral, tt), tt))

few_pins : length (keys_of_lines (rows_of header lines)) ≤ 4
unfolding uniq decimal
few_pins = omega arith

read_hypergraph-text_example :
    read_hypergraph header (text_of lines)
    ≡ some (record {
      c = 20;
      n = 2;
      xpins = 0 ∷ ends 0 (rows_of header lines);
      pins = keys_of_lines (rows_of header lines);
    })
read_hypergraph-text_example = read_hypergraph-text header lines lines-IsNumeral refl few_pins

-- "1 12 1" and "3": the second 1 is left out.
parsed :
    read_hypergraph header (text_of lines)
    ≡ some (record { c = 20; n = 2; xpins = 0 ∷ 2 ∷ 3 ∷ []; pins = 0 ∷ 11 ∷ 2 ∷ [] })
unfolding read_hypergraph read_chars end_line add_number add_node is_digit text_of line_from
parsed = refl

-- An empty first line is passed over, and the only other line becomes the first edge.
shifted :
    read_hypergraph header (10 ∷ 49 ∷ 10 ∷ [])
    ≡ some (record { c = 20; n = 2; xpins = 0 ∷ 1 ∷ 1 ∷ []; pins = 0 ∷ [] })
unfolding read_hypergraph read_chars end_line add_number add_node is_digit
shifted = refl
