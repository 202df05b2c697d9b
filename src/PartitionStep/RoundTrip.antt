-- ===== src/PartitionStep/RoundTrip.antt =====
-- partition/src/partition_step.cpp and client/src/mapper.cpp: the mapping file, written
-- and read.
use max_embed.Prelude.{
  ℕ, zero, suc, ◌+◌, ◌^◌, ◌≤◌, ◌<◌, ◌≡◌, refl, ◌∙◌, ap, List, [], ◌∷◌, ◌++◌, arith, length, drop,
  map, replicate, length-replicate,
}
use max_embed.Words.{u32, u64}
use max_embed.Words.Laws.{u64_halves, take-append, take_all, drop-drop-append}
use max_embed.Mapper.{MappingFile}
use max_embed.Mapper.File.{open_mapping}
use max_embed.Partition.Whole.Rest.{range}
use max_embed.PartitionStep.{write_ids, write_lens, write_parts, write_mapping}

-- The mapping in which item k is in the one block `part k`.
abbrev pub single : ℕ → (ℕ → ℕ) → MappingFile
single c part = record {
  item_cnt = c;
  all_blocks_cnt = c;
  block_idx = range 0 c;
  block_cnt = replicate c 1;
  all_blocks = map part (range 0 c);
}

pub length-range : (i n : ℕ) → length (range i n) ≡ n
length-range i zero = refl
length-range i (suc n) = ap suc (length-range (i + 1) n)

pub length-map : (f : ℕ → ℕ) (xs : List ℕ) → length (map f xs) ≡ length xs
length-map f [] = refl
length-map f (x ∷ xs) = ap suc (length-map f xs)

ids_of : (n i : ℕ) → i + n ≤ 2 ^ 32 → write_ids n i ≡ range i n
unfolding write_ids
ids_of zero i h = refl
ids_of (suc n) i h =
    ap (λ k. k ∷ write_ids n (i + 1)) (same i (omega arith))
    ∙ ap (λ ks. i ∷ ks) (ids_of n (i + 1) (omega arith))
  where
    same : (k : ℕ) → k < 2 ^ 32 → u32 k ≡ k
    same k h = omega arith

lens_of : (n : ℕ) → write_lens n ≡ replicate n 1
unfolding write_lens
lens_of zero = refl
lens_of (suc n) = ap (λ ks. 1 ∷ ks) (lens_of n)

parts_of :
    (part : ℕ → ℕ) (n i : ℕ)
    → ((k : ℕ) → k < i + n → part k < 2 ^ 32)
    → write_parts part n i ≡ map part (range i n)
unfolding write_parts
parts_of part zero i h = refl
parts_of part (suc n) i h =
    ap (λ k. k ∷ write_parts part n (i + 1)) (same (part i) (h i (omega arith)))
    ∙ ap (λ ks. part i ∷ ks) (parts_of part n (i + 1) (λ k l. h k (omega arith)))
  where
    same : (k : ℕ) → k < 2 ^ 32 → u32 k ≡ k
    same k h = omega arith

-- Opening the words of three tables after the two counts.
pub open_tables :
    (c total : ℕ) (ids lens parts : List ℕ)
    → c < 2 ^ 64
    → total < 2 ^ 64
    → length ids ≡ c
    → length lens ≡ c
    → length parts ≡ total
    → open_mapping (u64 c ++ (u64 total ++ (ids ++ (lens ++ parts)))) ≡ record {
      item_cnt = c;
      all_blocks_cnt = total;
      block_idx = ids;
      block_cnt = lens;
      all_blocks = parts;
    }
unfolding open_mapping
open_tables c total ids lens parts small fits hi hl hp =
    rw (u64_halves c small, u64_halves total fits)
      (rw
        (
          take-append ids (lens ++ parts) c hi,
          after_ids,
          after_lens,
          take_all parts total hp,
          take-append lens parts c hl,
        )
        refl)
  where
    after_ids : drop (4 + c) (u64 c ++ (u64 total ++ (ids ++ (lens ++ parts)))) ≡ lens ++ parts
    after_ids = drop-drop-append (u64 c ++ u64 total) ids (lens ++ parts) 4 c refl hi

    after_lens : drop (4 + c + c) (u64 c ++ (u64 total ++ (ids ++ (lens ++ parts)))) ≡ parts
    after_lens =
        drop-drop-append (u64 c ++ (u64 total ++ ids)) lens parts (4 + c) c (omega (arith, hi)) hl

-- The mapping file that partition_step writes for fewer than 2 ^ 31 nodes, with part numbers of 32
-- bits, is opened by the client as the mapping in which node k is in the one block part k.
pub open_mapping-write_mapping :
    (c : ℕ) (part : ℕ → ℕ)
    → c < 2 ^ 31
    → ((k : ℕ) → k < c → part k < 2 ^ 32)
    → open_mapping (write_mapping c part) ≡ single c part
unfolding write_mapping
open_mapping-write_mapping c part few small =
    let one : ℕ = 1 in
    rw (ids_of c 0 (omega arith), lens_of c, parts_of part c 0 (λ k l. small k (omega arith)))
      (open_tables c c (range 0 c) (replicate c 1) (map part (range 0 c)) (omega arith)
        (omega arith) (length-range 0 c) (length-replicate c one)
        (length-map part (range 0 c) ∙ length-range 0 c))
