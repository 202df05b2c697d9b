-- ===== src/PartitionStep/Text.antt =====
-- partition/src/partition.cpp, read_hypergraph: the hypergraph of a text file, given by the codes of
-- its characters behind the four numbers of the header. A number is a long while it is read; pins are
-- uint32, to which the nodes are cut here. The set holds them as int, which tells the same ones apart.
pub mod Lines
pub mod Graph
use max_embed.Prelude.{
  ℕ, ◌+◌, ◌-◌, ◌*◌, Bool, List, [], ◌∷◌, ◌++◌, Option, none, some, ltb, leb, ◌==◌, ◌&&◌, not,
  if◌then◌else◌, length, elem,
}
use max_embed.PartitionStep.{Hypergraph}
use max_embed.Words.{u32}

-- The four numbers of the header.
pub record Header : Type 0 where
  pub starting : ℕ
  pub c : ℕ
  pub n : ℕ
  pub num_pins : ℕ

-- The entries of xpins and pins that were written: current_ele is the number of these, current_line one
-- less than the number of those.
pub record Reading : Type 0 where
  pub xpins : List ℕ
  pub pins : List ℕ
  pub set : List ℕ

unfoldable pub is_digit : ℕ → Bool
is_digit ch = leb 48 ch && leb ch 57

-- A character that is no digit. `none`: the assert on current_line fails.
unfoldable pub end_line : Header → ℕ → Reading → Option Reading
end_line h ch r =
    if (ch == 10) && not (length r.pins == 0)
    then (if leb (length r.xpins) h.n
        then some (record { xpins = r.xpins ++ length r.pins ∷ []; pins = r.pins; set = [] })
        else none)
    else some r

-- if (set.insert(num).second) …
unfoldable pub add_node : ℕ → Reading → Reading
add_node node r =
    if elem node r.set
    then r
    else record { xpins = r.xpins; pins = r.pins ++ node ∷ []; set = node ∷ r.set }

-- A number that was read. `none`: one of the asserts behind it fails.
unfoldable pub add_number : Header → ℕ → Reading → Option Reading
add_number h num r =
    let r' = add_node (u32 (num - h.starting)) r in
    if leb h.starting num && (ltb (num - h.starting) h.c && leb (length r'.pins) h.num_pins)
    then some r'
    else none

-- The two inner loops as one, by character: `some num` while a number is read.
unfoldable pub read_chars : Header → Option ℕ → List ℕ → Reading → Option Reading
read_chars h none [] r = some r
read_chars h (some num) [] r = add_number h num r
read_chars h none (ch ∷ chars) r =
    let digit = read_chars h (some (ch - 48)) chars r in
    let other : Option Reading = elim (end_line h ch r) [
      | none ↦ none
      | some r' ↦ read_chars h none chars r'
    ] in
    if is_digit ch then digit else other
read_chars h (some num) (ch ∷ chars) r =
    let digit = read_chars h (some (num * 10 + (ch - 48))) chars r in
    let other : Option Reading = elim (add_number h num r) [
      | none ↦ none
      | some r' ↦ elim (end_line h ch r') [ none ↦ none | some r'' ↦ read_chars h none chars r'' ]
    ] in
    if is_digit ch then digit else other

-- The last line may have no newline.
unfoldable pub read_hypergraph : Header → List ℕ → Option Hypergraph
read_hypergraph h chars =
    elim (read_chars h none chars (record { xpins = 0 ∷ []; pins = []; set = [] })) [
      | none ↦ none
      | some r ↦ some (record {
        c = h.c;
        n = h.n;
        xpins = if length r.xpins == h.n then r.xpins ++ length r.pins ∷ [] else r.xpins;
        pins = r.pins;
      })
    ]
