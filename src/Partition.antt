-- ===== src/Partition.antt =====
-- partition/src/partition.cpp, partition/include/partition.h: the arrays that the partitioner works
-- on, and what it takes from elsewhere.
-- idx[start … end) is passed as the list of its nodes: divide and devide_core read and write that
-- range only. Edges are ranges of p_pins. Node-indexed arrays are functions.
pub mod Split
pub mod Core
pub mod Divide
pub mod Whole
pub mod Toy
mod Tests
use max_embed.Prelude.{ℕ, ◌+◌, ◌%◌, ◌≡◌, Bool, List, ◌==◌, if◌then◌else◌, count}

-- Floating point, the sort of TBB, the shuffle of <random> and the scheduling of OpenMP.
-- table n is `table[n - 1]` of the source, powf(1 - p, n - 1), for n up to the longest edge. A longest
-- edge that is on one side only makes the code read the element behind these, whose value it uses for
-- no pin (Core/Gains); `table` has any value there.
pub record Runtime : Type 1 where
  pub Float : Type 0
  pub zero_float : Float
  pub add : Float → Float → Float
  pub sub : Float → Float → Float
  pub neg : Float → Float
  pub is_positive : Float → Bool
  pub greater : Float → Float → Bool
  pub table : ℕ → Float
  pub parallel_sort : (ℕ → ℕ → Bool) → List ℕ → List ℕ
  pub shuffle : List ℕ → List ℕ
  -- The thread that handles the edge at a position.
  pub thread : ℕ → ℕ
  pub count-parallel_sort :
      (k : ℕ) (before : ℕ → ℕ → Bool) (xs : List ℕ) → count k (parallel_sort before xs) ≡ count k xs
  pub count-shuffle : (k : ℕ) (xs : List ℕ) → count k (shuffle xs) ≡ count k xs

pub record Edge : Type 0 where
  pub first : ℕ
  pub second : ℕ

-- The global arrays: gain[tid][node], part_info[node] (false is 0), p_pins, p_partition[node].
pub record State (A : Type 0) : Type 0 where
  pub gain : ℕ → ℕ → A
  pub part_info : ℕ → Bool
  pub pins : List ℕ
  pub partition : ℕ → ℕ
  pub part_id : ℕ

-- uint16_t
abbrev pub u16 : ℕ → ℕ
u16 n = n % 65536

abbrev pub update {ℓ} : {A : Type ℓ} → (ℕ → A) → ℕ → A → ℕ → A
update f i v j = if j == i then v else f j
