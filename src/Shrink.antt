-- ===== src/Shrink.antt =====
-- partition/src/shrink_replication.cpp, main, and read_mapping of partition/src/partition.cpp: the
-- replicas in parts from tar_part_cnt on are left out. Counts are below 2 ^ 31; the floating-point
-- number node_cnt * (1 + tar_rep_ratio), cut to an int, is the argument tar_total_cnt.
pub mod Filter
pub mod RoundTrip
mod Tests
use max_embed.Prelude.{
  ℕ, zero, suc, ◌+◌, ◌-◌, ◌/◌, Bool, List, [], ◌∷◌, ◌++◌, Option, none, some, ltb, ◌==◌,
  if◌then◌else◌, get_or, length, take, drop,
}
use max_embed.Words.{u32, u64, read_u64, words_of}

pub record MappingInfo : Type 0 where
  pub mapping : List ℕ
  pub idx : List ℕ
  pub cnt : List ℕ
  pub part_cnt : ℕ
  pub vertex_cnt : ℕ
  pub total_cnt : ℕ

-- for (i = 0; i < vertex_cnt; i++) part_cnt = std::max(part_cnt, mapping[i]): `n` rounds are left.
unfoldable pub max_part : List ℕ → ℕ → ℕ → ℕ → ℕ
max_part mapping zero i part_cnt = part_cnt
max_part mapping (suc n) i part_cnt =
    max_part mapping n (i + 1)
      (if ltb part_cnt (get_or mapping i 0) then get_or mapping i 0 else part_cnt)

unfoldable pub read_mapping : List ℕ → MappingInfo
read_mapping words =
    let vertex_cnt = u32 (read_u64 words 0) in
    let total_cnt = u32 (read_u64 words 2) in
    let mapping = take total_cnt (drop (4 + vertex_cnt + vertex_cnt) words) in
    record {
      mapping = mapping;
      idx = take vertex_cnt (drop 4 words);
      cnt = take vertex_cnt (drop (4 + vertex_cnt) words);
      part_cnt = max_part mapping vertex_cnt 0 0 + 1;
      vertex_cnt = vertex_cnt;
      total_cnt = total_cnt;
    }

-- part2node[part].push_back(i); the order of the map's entries is not looked at.
unfoldable pub push_node : ℕ → ℕ → List (ℕ × List ℕ) → List (ℕ × List ℕ)
push_node part i [] = (part, i ∷ []) ∷ []
push_node part i ((p, nodes) ∷ entries) =
    if p == part then (p, nodes ++ i ∷ []) ∷ entries else (p, nodes) ∷ push_node part i entries

-- for (j = 0; j < cnt[i]; j++): `n` rounds are left, at place `at` of mapping.
unfoldable pub collect_node : List ℕ → ℕ → ℕ → ℕ → List (ℕ × List ℕ) → List (ℕ × List ℕ)
collect_node mapping i zero at parts = parts
collect_node mapping i (suc n) at parts =
    collect_node mapping i n (at + 1) (push_node (get_or mapping at 0) i parts)

-- The loop over the nodes, with part2node and tot_cnt.
unfoldable pub collect_parts : MappingInfo → ℕ → ℕ → List (ℕ × List ℕ) → ℕ → List (ℕ × List ℕ) × ℕ
collect_parts info zero i parts tot_cnt = (parts, tot_cnt)
collect_parts info (suc n) i parts tot_cnt =
    let cnt = get_or info.cnt i 0 in
    collect_parts info n (i + 1) (collect_node info.mapping i cnt (get_or info.idx i 0) parts)
      (tot_cnt + cnt)

unfoldable pub max_size : List (ℕ × List ℕ) → ℕ → ℕ
max_size [] m = m
max_size ((p, nodes) ∷ entries) m =
    max_size entries (if ltb m (length nodes) then length nodes else m)

-- The vectors new_idx, new_cnt and new_mapping.
pub record Shrunk : Type 0 where
  pub new_idx : List ℕ
  pub new_cnt : List ℕ
  pub new_mapping : List ℕ

-- for (j = 0; j < cnt[i]; j++): new_mapping and cnt.
unfoldable pub shrink_node : ℕ → List ℕ → ℕ → ℕ → List ℕ × ℕ → List ℕ × ℕ
shrink_node tar mapping zero at r = r
shrink_node tar mapping (suc n) at (new_mapping, cnt) =
    let part = get_or mapping at 0 in
    shrink_node tar mapping n (at + 1)
      (if ltb part tar then (new_mapping ++ part ∷ [], cnt + 1) else (new_mapping, cnt))

unfoldable pub shrink_all : ℕ → MappingInfo → ℕ → ℕ → Shrunk → Shrunk
shrink_all tar info zero i s = s
shrink_all tar info (suc n) i s =
    let r =
      shrink_node tar info.mapping (get_or info.cnt i 0) (get_or info.idx i 0) (s.new_mapping, 0) in
    shrink_all tar info n (i + 1) (record {
      new_idx = s.new_idx ++ length s.new_mapping ∷ [];
      new_cnt = s.new_cnt ++ r.1 ∷ [];
      new_mapping = r.0;
    })

unfoldable pub write_shrunk : ℕ → Shrunk → List ℕ
write_shrunk node_cnt s =
    u64 node_cnt
    ++ (u64 (length s.new_mapping)
        ++ (words_of s.new_idx ++ (words_of s.new_cnt ++ words_of s.new_mapping)))

abbrev pub nothing_shrunk : Shrunk
nothing_shrunk = record { new_idx = []; new_cnt = []; new_mapping = [] }

-- `none` is the failed assert. A largest part of no nodes, by which the source would divide, stands
-- only in a mapping without entries.
unfoldable pub shrink : ℕ → List ℕ → Option (List ℕ)
shrink tar_total_cnt words =
    let info = read_mapping words in
    let (parts, tot_cnt) = collect_parts info info.vertex_cnt 0 [] 0 in
    let max_part_size = max_size parts 0 in
    let tar_part_cnt = (tar_total_cnt + (max_part_size - 1)) / max_part_size in
    if tot_cnt == info.total_cnt
    then some (
        write_shrunk info.vertex_cnt
          (shrink_all tar_part_cnt info info.vertex_cnt 0 nothing_shrunk))
    else none
