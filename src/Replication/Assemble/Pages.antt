-- ===== src/Replication/Assemble/Pages.antt =====
-- partition/src/replication_step.cpp and client/src/mapper.cpp: the blocks that the client sees after
-- replication.
use max_embed.Prelude.{
  ℕ, zero, suc, ◌+◌, ◌-◌, ◌*◌, ◌^◌, ◌≤◌, ◌<◌, ◌≡◌, refl, sym, ◌∙◌, ap, subst, true, false, List, [],
  ◌∷◌, some, arith, ltb, ◌==◌, if◌then◌else◌, to_ℕ, get_or, count, elem, length, length_of_count-le,
  All, count-pos_of_elem, Bool-cases, inl, inr,
}
use max_embed.Mapper.{MappingFile, Tables, construct}
use max_embed.Mapper.File.{open_mapping}
use max_embed.Mapper.Invert.{IsWellFormed, candidates, blocks_from, count-construct, construct-some}
use max_embed.Packed.{IsPacked}
use max_embed.Partition.{Runtime}
use max_embed.Partition.Divide.Tally.{tally}
use max_embed.Partition.Whole.Rest.{range}
use max_embed.PartitionStep.{Hypergraph}
use max_embed.PartitionStep.Pages.{length_of_part}
use max_embed.Shrink.{MappingInfo}
use max_embed.Replication.Csr.{Schedule}
use max_embed.Replication.Csr.Events.{IsSchedule, IsHypergraph}
use max_embed.Replication.Assemble.{
  rep_info, distribute, gather, write_final, no_nodes, replication_step,
}
use max_embed.Replication.Assemble.Holders.{
  IsPage, holders, distribute-holders, count-holders, total, total-le, total-holders,
}
use max_embed.Replication.Assemble.Reps.{length-rep_info, rep_info-IsPage}
use max_embed.Replication.Assemble.Written.{row, written-rows}

length-blocks_from : (all : List ℕ) (n j : ℕ) → length (blocks_from all n j) ≡ n
length-blocks_from all zero j = refl
length-blocks_from all (suc n) j = ap suc (length-blocks_from all n (j + 1))

-- A mapping file of packed rows, none of them empty.
packed-IsWellFormed :
    (f : MappingFile) (part_info : List ℕ) (node_info : ℕ → List ℕ)
    → f.all_blocks_cnt ≡ length f.all_blocks
    → IsPacked (row part_info node_info) f.item_cnt f.block_idx f.block_cnt f.all_blocks
    → All (λ b. b + 1 < 2 ^ 32) f.all_blocks
    → IsWellFormed f
packed-IsWellFormed f part_info node_info total p small = record {
  in_range = λ i h. omega (arith, p.within i h);
  placed = λ i h.
      let same = ap length (p.kept i h) in
      omega (
        arith,
        same,
        length-blocks_from f.all_blocks (get_or f.block_cnt i 0) (get_or f.block_idx i 0),
      );
  small = λ j. get_or-small f.all_blocks j small;
}
  where
    get_or-small : (xs : List ℕ) (j : ℕ) → All (λ b. b + 1 < 2 ^ 32) xs → get_or xs j 0 + 1 < 2 ^ 32
    get_or-small [] j h = omega arith
    get_or-small (x ∷ xs) zero h = h.0
    get_or-small (x ∷ xs) (suc j) h = get_or-small xs j h.1

holders_small :
    (exist bound : ℕ) (reps : List (List ℕ)) (i k : ℕ)
    → i + exist + length reps < bound
    → All (λ b. b + 1 < bound) (holders exist reps i k)
holders_small exist bound [] i k h = tt
holders_small exist bound (rep ∷ reps) i k h =
    let rest = holders_small exist bound reps (i + 1) k (omega arith) in
    elim (elem k rep)
      as (λ m.
        All (λ b. b + 1 < bound)
          (if m
            then (i + exist) ∷ holders exist reps (i + 1) k
            else holders exist reps (i + 1) k)) [ true ↦ (omega arith, rest) | false ↦ rest ]

-- What the client needs of the input of replication_step: the parts of the nodes have numbers below
-- exist_part_cnt, the numbers of parts and of entries fit an int, and there is a node for every
-- further page.
pub record IsReplicable (info : MappingInfo) (g : Hypergraph) (cnt_per_part rep_part_cnt : ℕ)
    : Type 0 where
  pub some_room : 0 < cnt_per_part
  pub parts : (k : ℕ) → k < g.c → get_or info.mapping k 0 < info.part_cnt
  pub numbers : info.part_cnt + rep_part_cnt < 2 ^ 31
  pub entries : rep_part_cnt * cnt_per_part + g.c < 2 ^ 31
  pub leaders : rep_part_cnt ≤ g.c
  pub within : get_or g.xpins g.n 0 ≤ length g.pins
  pub counters : length g.pins < 2 ^ 31
  pub home : (b : ℕ) → tally (λ k. get_or info.mapping k 0) b (range 0 g.c) ≤ cnt_per_part

module _ (R : Runtime) (sched : Schedule) (info : MappingInfo) (g : Hypergraph)
    (cnt_per_part rep_part_cnt : ℕ)
    (pages : All (IsPage cnt_per_part) (rep_info R sched info g cnt_per_part rep_part_cnt))
    (fits : IsReplicable info g cnt_per_part rep_part_cnt) where
  -- Where a node is, by the mapping before and by the further pages.
  abbrev pub on_block : ℕ → ℕ → ℕ
  on_block b k =
      if ltb b info.part_cnt
      then to_ℕ (get_or info.mapping k 0 == b)
      else if ltb b (info.part_cnt + rep_part_cnt)
      then to_ℕ (
          elem k
            (get_or (rep_info R sched info g cnt_per_part rep_part_cnt) (b - info.part_cnt) []))
      else 0

  count-row :
      (node_info : ℕ → List ℕ) (b k : ℕ)
      → node_info k ≡ holders info.part_cnt (rep_info R sched info g cnt_per_part rep_part_cnt) 0 k
      → k < g.c
      → count b (row info.mapping node_info k) ≡ on_block b k
  count-row node_info b k is hk =
      let pages_of = rep_info R sched info g cnt_per_part rep_part_cnt in
      let z : 0 + info.part_cnt ≡ info.part_cnt = omega arith in
      let held = rw z at (count-holders info.part_cnt pages_of 0 k b) in
      ground (
        arith,
        ap (count b) is,
        held,
        fits.parts k hk,
        length-rep_info R sched info g cnt_per_part rep_part_cnt,
      )

  row_small :
      (node_info : ℕ → List ℕ) (k : ℕ)
      → node_info k ≡ holders info.part_cnt (rep_info R sched info g cnt_per_part rep_part_cnt) 0 k
      → k < g.c
      → All (λ b. b + 1 < 2 ^ 32) (row info.mapping node_info k)
  row_small node_info k is hk =
      let pages_of = rep_info R sched info g cnt_per_part rep_part_cnt in
      (
        omega (arith, fits.parts k hk, fits.numbers),
        subst (All (λ b. b + 1 < 2 ^ 32)) (sym is) (
            holders_small info.part_cnt (2 ^ 32) pages_of 0 k (
              omega
                (arith, fits.numbers, length-rep_info R sched info g cnt_per_part rep_part_cnt))),
      )

  -- The total of the rows fits.
  rows_fit :
      (node_info : ℕ → List ℕ)
      → ((k : ℕ)
          → node_info k
            ≡ holders info.part_cnt (rep_info R sched info g cnt_per_part rep_part_cnt) 0 k)
      → total (λ k. length (node_info k)) g.c 0 + g.c < 2 ^ 32
  rows_fit node_info is =
      let pages_of = rep_info R sched info g cnt_per_part rep_part_cnt in
      let held = total-holders cnt_per_part info.part_cnt pages_of 0 g.c 0 pages in
      let size =
        ap (λ n. n * cnt_per_part) (length-rep_info R sched info g cnt_per_part rep_part_cnt) in
      omega (
        arith,
        held,
        size,
        total-le (λ k. length (node_info k)) (λ k. length (holders info.part_cnt pages_of 0 k)) g.c
            0 (λ k. omega (arith, ap length (is k))),
        fits.entries,
      )

  block_fits :
      (b : ℕ) (items : List ℕ)
      → ((k : ℕ) → count k items ≡ (if ltb k g.c then on_block b k else 0))
      → length items ≤ cnt_per_part
  block_fits b items is =
      let pages_of = rep_info R sched info g cnt_per_part rep_part_cnt in
      let part = λ (k : ℕ). get_or info.mapping k 0 in
      elim (Bool-cases (ltb b info.part_cnt)) [
        | inl e ↦
            let few = length_of_part part b g.c items (λ k. ground (arith, is k, e)) in
            omega (arith, few, fits.home b)
        | inr e ↦
            let page = get_or pages_of (b - info.part_cnt) [] in
            let fit : length page ≤ cnt_per_part = page_fits pages_of (b - info.part_cnt) pages in
            let held = λ (k : ℕ). count-pos_of_elem k page in
            omega (arith, length_of_count-le items page (λ k. ground (arith, is k, e, held k)), fit)
      ]
    where
      page_fits :
          (rs : List (List ℕ)) (i : ℕ)
          → All (IsPage cnt_per_part) rs
          → length (get_or rs i []) ≤ cnt_per_part
      page_fits [] i h = omega arith
      page_fits (r ∷ rs) zero h = h.0.1
      page_fits (r ∷ rs) (suc i) h = page_fits rs i h.1

  built :
      (node_info : ℕ → List ℕ) (words : List ℕ)
      → ((k : ℕ)
          → node_info k
            ≡ holders info.part_cnt (rep_info R sched info g cnt_per_part rep_part_cnt) 0 k)
      → (open_mapping words).item_cnt ≡ g.c
      → IsWellFormed (open_mapping words)
      → IsPacked
          (row info.mapping node_info)
          g.c
          (open_mapping words).block_idx
          (open_mapping words).block_cnt
          (open_mapping words).all_blocks
      → (t : Tables) × (construct (open_mapping words) g.c ≡ some t)
        × ((b k : ℕ)
            → count k (get_or t.block_to_elem b []) ≡ (if ltb k g.c then on_block b k else 0))
  built node_info words is nodes well p =
      let f = open_mapping words in
      let (t, e) = construct-some f g.c nodes in
      (
        t,
        e,
        λ b k.
            let all = count-construct f g.c t well e b k in
            let one : k < g.c → count b (candidates f k) ≡ on_block b k =
              λ h. ap (count b) (p.kept k h) ∙ count-row node_info b k (is k) h in
            ground (arith, all, one, nodes),
      )

-- What main writes, from what its loops leave.
finished :
    (R : Runtime) (sched : Schedule) (info : MappingInfo) (g : Hypergraph)
    (cnt_per_part rep_part_cnt : ℕ) (node_info : ℕ → List ℕ) (words : List ℕ)
    → distribute cnt_per_part info.part_cnt
        (rep_info R sched info g cnt_per_part rep_part_cnt)
        0
        (λ k. [])
      ≡ some node_info
    → write_final g.c (gather info.mapping node_info g.c 0 no_nodes) ≡ some words
    → replication_step R sched info g cnt_per_part rep_part_cnt ≡ some words
unfolding replication_step
finished R sched info g cnt_per_part rep_part_cnt node_info words e write =
    rw (e, replication_step) write

-- For a hypergraph whose edges lie in its pins one after the other, fewer than 2 ^ 31 of them, a
-- mapping with each node in one part that fits, numbers of parts and of entries below 2 ^ 31, and no
-- more further pages than nodes, replication_step ends without an error and writes a mapping file, in
-- any order of its threads. The client opens it without a failed CHECK, as a well-formed file. In the
-- tables that it builds, the blocks below exist_part_cnt hold the nodes of their parts, the next
-- rep_part_cnt blocks hold the nodes of the further pages, each node once, and no block holds more
-- than cnt_per_part nodes.
pub replicated_pages_fit :
    (R : Runtime) (sched : Schedule) (info : MappingInfo) (g : Hypergraph)
    (cnt_per_part rep_part_cnt : ℕ)
    → IsHypergraph g
    → IsSchedule sched g
    → IsReplicable info g cnt_per_part rep_part_cnt
    → (words : List ℕ) × (t : Tables) × (replication_step R sched info g cnt_per_part rep_part_cnt
        ≡ some words)
      × (construct (open_mapping words) g.c ≡ some t)
      × IsWellFormed (open_mapping words)
      × ((b k : ℕ)
          → count k (get_or t.block_to_elem b []) ≡ (
              if ltb k g.c
              then if ltb b info.part_cnt
                then to_ℕ (get_or info.mapping k 0 == b)
                else if ltb b (info.part_cnt + rep_part_cnt)
                then to_ℕ (
                    elem k (
                      get_or
                        (rep_info R sched info g cnt_per_part rep_part_cnt)
                        (b - info.part_cnt)
                        []))
                else 0
              else 0))
      × ((b : ℕ) → length (get_or t.block_to_elem b []) ≤ cnt_per_part)
replicated_pages_fit R sched info g cnt_per_part rep_part_cnt p s fits =
    let pages = rep_info-IsPage R sched info g cnt_per_part rep_part_cnt p s fits.some_room in
    let pages_of = rep_info R sched info g cnt_per_part rep_part_cnt in
    let (node_info, path, is) =
      distribute-holders cnt_per_part info.part_cnt pages_of 0 (λ k. []) pages in
    let (words, write, nodes, total_cnt, rows, small) =
      written-rows info.mapping node_info g.c (omega (arith, fits.entries))
        (rows_fit R sched info g cnt_per_part rep_part_cnt pages fits node_info is)
        (λ k h.
          row_small R sched info g cnt_per_part rep_part_cnt pages fits node_info k (is k) h) in
    let f = open_mapping words in
    let rows' =
      subst (λ n. IsPacked (row info.mapping node_info) n f.block_idx f.block_cnt f.all_blocks)
        (sym nodes) rows in
    let well = packed-IsWellFormed f info.mapping node_info total_cnt rows' small in
    let (t, e, blocks) =
      built R sched info g cnt_per_part rep_part_cnt pages fits node_info words is nodes well
        rows in
    (
      words,
      t,
      finished R sched info g cnt_per_part rep_part_cnt node_info words path write,
      e,
      well,
      blocks,
      λ b.
          block_fits R sched info g cnt_per_part rep_part_cnt pages fits b
            (get_or t.block_to_elem b []) (blocks b),
    )
