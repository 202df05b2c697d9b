-- ===== src/Shrink/RoundTrip.antt =====
-- partition/src/shrink_replication.cpp and client/src/mapper.cpp: the mapping file that is left, as the
-- client reads it.
use max_embed.Prelude.{ℕ, ◌+◌, ◌-◌, ◌/◌, List, []}
use max_embed.Shrink.{read_mapping, collect_parts, max_size}

-- tar_part_cnt, as main computes it.
abbrev pub tar_part_cnt : ℕ → List ℕ → ℕ
tar_part_cnt tar_total_cnt words =
    let info = read_mapping words in
    let max_part_size = max_size (collect_parts info info.vertex_cnt 0 [] 0).0 0 in
    (tar_total_cnt + (max_part_size - 1)) / max_part_size
