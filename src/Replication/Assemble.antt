-- ===== src/Replication/Assemble.antt =====
-- partition/src/replication_step.cpp, main: the mapping with the further pages, and main as a whole.
-- The number of further pages, (rep_ratio * c - 1) / cnt_per_part + 1, is a floating-point number cut
-- to an integer: the argument rep_part_cnt. Times are not printed.
pub mod Holders
pub mod Reps
pub mod Written
pub mod Pages
use max_embed.Prelude.{
  ℕ, zero, suc, ◌+◌, List, [], ◌∷◌, ◌++◌, Option, none, some, ltb, ◌==◌, if◌then◌else◌, get_or,
  length,
}
use max_embed.Words.{u64, words_of}
use max_embed.Partition.{Runtime, update}
use max_embed.PartitionStep.{Hypergraph}
use max_embed.Shrink.{MappingInfo}
use max_embed.Replication.Csr.{Schedule, get_node2edge}
use max_embed.Replication.Scores.{node_score_idx}
use max_embed.Replication.Select.{select_all}

-- for (auto each : rep_nodes) node_info[each].push_back(part)
unfoldable pub push_all : ℕ → List ℕ → (ℕ → List ℕ) → ℕ → List ℕ
push_all part [] node_info = node_info
push_all part (each ∷ rep_nodes) node_info =
    push_all part rep_nodes (update node_info each (node_info each ++ part ∷ []))

-- The loop over rep_info from the i-th on; `none` is exit(1).
unfoldable pub distribute : ℕ → ℕ → List (List ℕ) → ℕ → (ℕ → List ℕ) → Option (ℕ → List ℕ)
distribute cnt_per_part exist_part_cnt [] i node_info = some node_info
distribute cnt_per_part exist_part_cnt (rep_nodes ∷ rep_info) i node_info =
    let rest =
      distribute cnt_per_part exist_part_cnt rep_info (i + 1)
        (push_all (i + exist_part_cnt) rep_nodes node_info) in
    if ltb cnt_per_part (length rep_nodes) then none else rest

pub record Final : Type 0 where
  pub final_result : List ℕ
  pub part_idx : List ℕ
  pub part_size : List ℕ
  pub sum : ℕ

-- for (i = 0; i < c; i++): `n` rounds are left.
unfoldable pub gather : List ℕ → (ℕ → List ℕ) → ℕ → ℕ → Final → Final
gather part_info node_info zero i f = f
gather part_info node_info (suc n) i f = gather part_info node_info n (i + 1) (record {
  final_result = (f.final_result ++ get_or part_info i 0 ∷ []) ++ node_info i;
  part_idx = f.part_idx ++ f.sum ∷ [];
  part_size = f.part_size ++ (length (node_info i) + 1) ∷ [];
  sum = f.sum + (length (node_info i) + 1);
})

-- `none` is the failed assert.
unfoldable pub write_final : ℕ → Final → Option (List ℕ)
write_final c f =
    if f.sum == length f.final_result
    then some (
        u64 c
        ++ (u64 f.sum
            ++ (words_of f.part_idx ++ (words_of f.part_size ++ words_of f.final_result))))
    else none

abbrev pub no_nodes : Final
no_nodes = record { final_result = []; part_idx = []; part_size = []; sum = 0 }

module _ (R : Runtime) where
  -- rep_info, from the mapping and the training queries.
  unfoldable pub rep_info : Schedule → MappingInfo → Hypergraph → ℕ → ℕ → List (List ℕ)
  rep_info sched info g cnt_per_part rep_part_cnt =
      select_all R info.mapping g (get_node2edge sched g) cnt_per_part
        (node_score_idx R info.mapping g) rep_part_cnt 0

  unfoldable pub replication_step : Schedule → MappingInfo → Hypergraph → ℕ → ℕ → Option (List ℕ)
  replication_step sched info g cnt_per_part rep_part_cnt =
      elim (distribute cnt_per_part info.part_cnt (rep_info sched info g cnt_per_part rep_part_cnt)
        0 (λ k. [])) [
          | none ↦ none
          | some node_info ↦ write_final g.c (gather info.mapping node_info g.c 0 no_nodes)
        ]
