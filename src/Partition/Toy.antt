-- ===== src/Partition/Toy.antt =====
-- A Runtime that the tests run on.
use max_embed.Prelude.{ℕ, ◌+◌, ◌-◌, refl, ltb}
use max_embed.Partition.{Runtime}

-- Numbers for floats, lists that are sorted and shuffled by keeping them, and one thread.
abbrev pub toy : Runtime
toy = record {
  Float = ℕ;
  zero_float = 0;
  add = λ a b. a + b;
  sub = λ a b. a - b;
  neg = λ a. a;
  is_positive = ltb 0;
  greater = λ a b. ltb b a;
  table = λ n. n;
  parallel_sort = λ before xs. xs;
  shuffle = λ xs. xs;
  thread = λ i. 0;
  count-parallel_sort = λ k before xs. refl;
  count-shuffle = λ k xs. refl;
}
