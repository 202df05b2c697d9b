-- ===== src/Mapper.antt =====
-- client/src/mapper.cpp and client/include/mapper.h: the tables that a Mapping keeps, the mapping
-- file that they come from, and the constructor's inversion of it.
-- An index is read by `get_or`, whose default stands where the program would read past an array;
-- positions and counts are below 2 ^ 31, so the source's conversions to `int` change no value.
pub mod File
pub mod Invert
pub mod Order
pub mod Batch
pub mod Complete
pub mod Wait
mod Tests
use max_embed.Prelude.{
  ℕ, zero, suc, ◌+◌, ◌%◌, ◌^◌, List, [], ◌∷◌, ◌++◌, Option, none, some, arith, ltb, ◌==◌,
  if◌then◌else◌, get_or, set, replicate,
}

-- The contents of a mapping file, in the order in which they stand there.
pub record MappingFile : Type 0 where
  pub item_cnt : ℕ
  pub all_blocks_cnt : ℕ
  pub block_idx : List ℕ
  pub block_cnt : List ℕ
  pub all_blocks : List ℕ

-- The fields of Mapping that say which block holds which item.
pub record Tables : Type 0 where
  pub file : MappingFile
  pub open file use *
  pub block_to_elem : List (List ℕ)

-- for (i …; i < all_blocks_cnt; i++) max_block = std::max(max_block, all_blocks[i]): `n` rounds.
unfoldable pub max_block : List ℕ → ℕ → ℕ → ℕ → ℕ
max_block all zero i m = m
max_block all (suc n) i m =
    max_block all n (i + 1) (if ltb m (get_or all i 0) then get_or all i 0 else m)

-- block_to_elem[block].push_back(i)
pub push_at : List (List ℕ) → ℕ → ℕ → List (List ℕ)
push_at elems block i = set elems block (get_or elems block [] ++ i ∷ [])

-- for (j = start; j < start + cnt; j++): `n` rounds are left. `start` and `cnt` are int in the code:
-- the tables have fewer than 2 ^ 31 entries.
pub invert_item : List ℕ → ℕ → ℕ → ℕ → List (List ℕ) → List (List ℕ)
invert_item all i zero j elems = elems
invert_item all i (suc n) j elems = invert_item all i n (j + 1) (push_at elems (get_or all j 0) i)

-- for (i …; i < item_cnt; i++): `n` rounds are left.
pub invert : MappingFile → ℕ → ℕ → List (List ℕ) → List (List ℕ)
invert f zero i elems = elems
invert f (suc n) i elems =
    invert f n (i + 1)
      (invert_item f.all_blocks i (get_or f.block_cnt i 0) (get_or f.block_idx i 0) elems)

-- `max_block++` and the resize: `max_block` is a uint32_t.
pub block_slots : MappingFile → ℕ
block_slots f = (max_block f.all_blocks f.all_blocks_cnt 0 0 + 1) % 2 ^ 32

-- The constructor, from the CHECK on the number of items; `none` is a failed CHECK.
pub construct : MappingFile → ℕ → Option Tables
construct f num_items =
    if f.item_cnt == num_items
    then some
        (record { file = f; block_to_elem = invert f f.item_cnt 0 (replicate (block_slots f) []) })
    else none
