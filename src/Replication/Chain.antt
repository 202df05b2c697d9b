-- ===== src/Replication/Chain.antt =====
-- partition/src/partition_step.cpp, partition/src/replication_step.cpp and client/src/mapper.cpp, one
-- after the other.
use max_embed.Prelude.{
  ℕ, zero, suc, ◌+◌, ◌*◌, ◌^◌, ◌≤◌, ◌<◌, ◌≡◌, refl, sym, ◌∙◌, ap, subst, true, List, [], some,
  arith, ltb, if◌then◌else◌, get_or, count, elem, count-pos_of_elem, length, map, replicate,
}
use max_embed.Words.{read_u64, u32}
use max_embed.Mapper.{MappingFile, Tables, construct, max_block}
use max_embed.Mapper.File.{open_mapping}
use max_embed.Mapper.Invert.{IsWellFormed, max_block_bounds, max_block_small}
use max_embed.Partition.{Runtime, State}
use max_embed.Partition.Divide.Tally.{tally, tally_agree}
use max_embed.Partition.Whole.Rest.{range, count-range}
use max_embed.PartitionStep.{Hypergraph, write_mapping, partition_step}
use max_embed.PartitionStep.RoundTrip.{open_mapping-write_mapping}
use max_embed.PartitionStep.Pages.{
  IsPartitionable, edge_nodes, partition_step-parts, get_or-map-range,
}
use max_embed.Shrink.{MappingInfo, max_part, read_mapping}
use max_embed.Replication.Csr.{Schedule}
use max_embed.Replication.Csr.Events.{IsSchedule, IsHypergraph}
use max_embed.Replication.Assemble.{replication_step}
use max_embed.Replication.Assemble.Pages.{IsReplicable, replicated_pages_fit}

max_part-max_block :
    (mapping : List ℕ) (n i m : ℕ) → max_part mapping n i m ≡ max_block mapping n i m
unfolding max_part max_block
max_part-max_block mapping zero i m = refl
max_part-max_block mapping (suc n) i m =
    max_part-max_block mapping n (i + 1)
      (if ltb m (get_or mapping i 0) then get_or mapping i 0 else m)

-- read_mapping reads the tables that the client reads, where the counts are of 32 bits.
read_mapping-open_mapping :
    (words : List ℕ)
    → let f = open_mapping words in
      f.item_cnt < 2 ^ 32
      → f.all_blocks_cnt < 2 ^ 32
      → read_mapping words ≡ record {
        mapping = f.all_blocks;
        idx = f.block_idx;
        cnt = f.block_cnt;
        part_cnt = max_part f.all_blocks f.item_cnt 0 0 + 1;
        vertex_cnt = f.item_cnt;
        total_cnt = f.all_blocks_cnt;
      }
unfolding read_mapping open_mapping
read_mapping-open_mapping words few fits =
    let n : u32 (read_u64 words 0) ≡ read_u64 words 0 = omega arith in
    let m : u32 (read_u64 words 2) ≡ read_u64 words 2 = omega arith in rw (n, m)

map-range-lt :
    (part : ℕ → ℕ) (i n j b : ℕ)
    → 0 < b
    → ((k : ℕ) → k < i + n → part k < b)
    → get_or (map part (range i n)) j 0 < b
map-range-lt part i zero j b pos h = pos
map-range-lt part i (suc n) zero b pos h = h i (omega arith)
map-range-lt part i (suc n) (suc j) b pos h =
    map-range-lt part (i + 1) n j b pos (λ k l. h k (omega arith))

-- What read_mapping makes of the file that partition_step writes.
abbrev read_back : ℕ → (ℕ → ℕ) → MappingInfo
read_back c part = record {
  mapping = map part (range 0 c);
  idx = range 0 c;
  cnt = replicate c 1;
  part_cnt = max_part (map part (range 0 c)) c 0 0 + 1;
  vertex_cnt = c;
  total_cnt = c;
}

read_mapping-write_mapping :
    (c : ℕ) (part : ℕ → ℕ)
    → c < 2 ^ 31
    → ((k : ℕ) → k < c → part k < 2 ^ 32)
    → read_mapping (write_mapping c part) ≡ read_back c part
read_mapping-write_mapping c part few small =
    let opened = open_mapping-write_mapping c part few small in
    let mk : MappingFile → MappingInfo = λ f. record {
      mapping = f.all_blocks;
      idx = f.block_idx;
      cnt = f.block_cnt;
      part_cnt = max_part f.all_blocks f.item_cnt 0 0 + 1;
      vertex_cnt = f.item_cnt;
      total_cnt = f.all_blocks_cnt;
    } in
    read_mapping-open_mapping (write_mapping c part)
      (subst (λ f. f.item_cnt < 2 ^ 32) (sym opened) (omega arith))
      (subst (λ f. f.all_blocks_cnt < 2 ^ 32) (sym opened) (omega arith))
    ∙ ap mk opened

read_back-IsReplicable :
    (c : ℕ) (part : ℕ → ℕ) (g : Hypergraph) (cnt_per_part rep_part_cnt : ℕ)
    → g.c ≡ c
    → 0 < cnt_per_part
    → c + rep_part_cnt + 1 < 2 ^ 31
    → rep_part_cnt * cnt_per_part + c < 2 ^ 31
    → rep_part_cnt ≤ c
    → get_or g.xpins g.n 0 ≤ length g.pins
    → length g.pins < 2 ^ 31
    → ((k : ℕ) → k < c → part k ≤ c)
    → ((b : ℕ) → tally part b (range 0 c) ≤ cnt_per_part)
    → IsReplicable (read_back c part) g cnt_per_part rep_part_cnt
read_back-IsReplicable c part g cnt_per_part rep_part_cnt same pos numbers entries leaders within
      counters numbered bounded =
    let all = map part (range 0 c) in
    let top = max_part-max_block all c 0 0 in
    let low : max_block all c 0 0 < c + 1 =
      max_block_small all c 0 0 (c + 1)
        (λ j.
          map-range-lt part 0 c j (c + 1) (omega arith)
            (λ k h. omega (arith, numbered k (omega arith))))
        (omega arith) in
    record {
      some_room = pos;
      parts = λ k h. omega (arith, top, max_block_bounds all c 0 0 k (omega arith) (omega arith));
      numbers = omega (arith, top, low);
      entries = omega arith;
      leaders = omega (arith, same, leaders);
      within = within;
      counters = counters;
      home = λ b.
          let listed : (k : ℕ) → elem k (range 0 c) ≡ true → get_or all k 0 ≡ part k = λ k e.
            let pos_k = count-pos_of_elem k (range 0 c) e in
            let z : 0 + k ≡ k = omega arith in
            get_or-map-range part 0 c k (ground (arith, pos_k, count-range 0 c k)) ∙ ap part z in
          let agree = tally_agree (λ k. get_or all k 0) part b (range 0 c) listed in
          let whole = ap (λ n. tally (λ k. get_or all k 0) b (range 0 n)) same in
          omega (arith, agree, whole, bounded b);
    }

-- partition_step and then replication_step, from a hypergraph g0 of fewer than 2 ^ 31 nodes with an
-- edge of two pins, whose edges lie in its pins one after the other, with no more than 65535 pins
-- each and all pins below c, and training queries g over the same nodes, whose edges lie in fewer
-- than 2 ^ 31 pins, with no more further pages than nodes and numbers of parts and of entries below 2
-- ^ 31: both end without an error, whatever the floating point, the sorts, the shuffle and the order
-- of the threads. The client opens the file that results without a failed CHECK, as a well-formed
-- one; no block of its tables holds more than cnt_per_part nodes, and every node is in some block.
pub pipeline_fits :
    (R : Runtime) (sched : Schedule) (g0 g : Hypergraph) (cnt_per_part rep_part_cnt : ℕ)
    (st : State R.Float)
    → 0 < cnt_per_part
    → g0.c < 2 ^ 31
    → 0 < length (edge_nodes g0)
    → g.c ≡ g0.c
    → IsHypergraph g
    → IsSchedule sched g
    → IsPartitionable g0
    → g0.c + rep_part_cnt + 1 < 2 ^ 31
    → rep_part_cnt * cnt_per_part + g0.c < 2 ^ 31
    → rep_part_cnt ≤ g0.c
    → get_or g.xpins g.n 0 ≤ length g.pins
    → length g.pins < 2 ^ 31
    → (first : List ℕ) × (words : List ℕ) × (t : Tables) × (partition_step R g0 cnt_per_part st
        ≡ some first)
      × (replication_step R sched (read_mapping first) g cnt_per_part rep_part_cnt ≡ some words)
      × (construct (open_mapping words) g.c ≡ some t)
      × IsWellFormed (open_mapping words)
      × ((b : ℕ) → length (get_or t.block_to_elem b []) ≤ cnt_per_part)
      × ((k : ℕ) → k < g.c → (b : ℕ) × (0 < count k (get_or t.block_to_elem b [])))
pipeline_fits R sched g0 g cnt_per_part rep_part_cnt st pos few some_node same p s sound numbers
      entries leaders within counters =
    let (part, e, numbered, bounded) =
      partition_step-parts R g0 cnt_per_part st pos some_node sound in
    let first = write_mapping g0.c part in
    let read = read_mapping-write_mapping g0.c part few (λ k h. omega (arith, numbered k h)) in
    let fits : IsReplicable (read_mapping first) g cnt_per_part rep_part_cnt =
      subst (λ info. IsReplicable info g cnt_per_part rep_part_cnt) (sym read)
        (read_back-IsReplicable g0.c part g cnt_per_part rep_part_cnt same pos numbers entries
          leaders within counters numbered bounded) in
    let (words, t, written, built, well, blocks, sizes) =
      replicated_pages_fit R sched (read_mapping first) g cnt_per_part rep_part_cnt p s fits in
    (
      first,
      words,
      t,
      e,
      written,
      built,
      well,
      sizes,
      λ k h.
          let home = get_or (read_mapping first).mapping k 0 in
          (home, ground (arith, blocks home k, fits.parts k h)),
    )
