-- ===== src/Replication/Assemble/Written.antt =====
-- partition/src/replication_step.cpp, main: the tables that are written, as the client opens them.
use mathlib.Core.List.{append_assoc}
use max_embed.Prelude.{
  ℕ, zero, suc, ◌+◌, ◌^◌, ◌<◌, ◌≡◌, refl, sym, subst, ◌∙◌, ap, List, [], ◌∷◌, ◌++◌, some, arith,
  ==_of_eq, get_or, length, length-append, All, All-append, All-map,
}
use max_embed.Words.{u64, words_of}
use max_embed.Mapper.File.{open_mapping}
use max_embed.Packed.{IsPacked, empty-IsPacked, row-IsPacked, open_packed}
use max_embed.Replication.Assemble.{Final, gather, write_final, no_nodes}
use max_embed.Replication.Assemble.Holders.{total}

module _ (part_info : List ℕ) (node_info : ℕ → List ℕ) where
  -- A node's parts: its own first, and its further pages.
  abbrev pub row : ℕ → List ℕ
  row k = get_or part_info k 0 ∷ node_info k

  abbrev pub IsGathered : ℕ → Final → Type 0
  IsGathered i f =
      IsPacked row i f.part_idx f.part_size f.final_result × (f.sum ≡ length f.final_result)

  -- The vectors with one node more.
  abbrev with_row : ℕ → Final → Final
  with_row i f = record {
    final_result = (f.final_result ++ get_or part_info i 0 ∷ []) ++ node_info i;
    part_idx = f.part_idx ++ f.sum ∷ [];
    part_size = f.part_size ++ (length (node_info i) + 1) ∷ [];
    sum = f.sum + (length (node_info i) + 1);
  }

  row-IsGathered : (i : ℕ) (f : Final) → IsGathered i f → IsGathered (i + 1) (with_row i f)
  row-IsGathered i f (p, sum) =
      let joined : (f.final_result ++ get_or part_info i 0 ∷ []) ++ node_info i
          ≡ f.final_result ++ row i =
        append_assoc f.final_result (get_or part_info i 0 ∷ []) (node_info i) in
      let size : length (row i) ≡ length (node_info i) + 1 = omega arith in
      let packed = row-IsPacked row i f.part_idx f.part_size f.final_result p in
      let at_sum =
        subst
          (λ s.
            IsPacked row (i + 1) (f.part_idx ++ s ∷ []) (f.part_size ++ length (row i) ∷ [])
              (f.final_result ++ row i))
          (sym sum) packed in
      let sized =
        subst
          (λ s.
            IsPacked row (i + 1) (f.part_idx ++ f.sum ∷ []) (f.part_size ++ s ∷ [])
              (f.final_result ++ row i))
          size at_sum in
      (
        subst
            (IsPacked row (i + 1) (f.part_idx ++ f.sum ∷ [])
              (f.part_size ++ (length (node_info i) + 1) ∷ []))
            (sym joined) sized,
        omega (arith, sum, ap length joined, length-append f.final_result (row i)),
      )

  pub gather-IsGathered :
      (n i : ℕ) (f : Final) → IsGathered i f → IsGathered (i + n) (gather part_info node_info n i f)
  unfolding gather
  gather-IsGathered zero i f p = let e : i ≡ i + 0 = omega arith in subst (λ m. IsGathered m f) e p
  gather-IsGathered (suc n) i f p =
      let e : i + 1 + n ≡ i + suc n = omega arith in
      subst (λ m. IsGathered m (gather part_info node_info n (i + 1) (with_row i f))) e
        (gather-IsGathered n (i + 1) (with_row i f) (row-IsGathered i f p))

  length-gather :
      (n i : ℕ) (f : Final)
      → length (gather part_info node_info n i f).final_result
        ≡ length f.final_result + total (λ k. length (node_info k)) n i + n
  unfolding gather
  length-gather zero i f = omega arith
  length-gather (suc n) i f = omega (
    arith,
    length-gather n (i + 1) (with_row i f),
    length-append (f.final_result ++ get_or part_info i 0 ∷ []) (node_info i),
    length-append f.final_result (get_or part_info i 0 ∷ []),
  )

  gather_small :
      (n i : ℕ) (f : Final)
      → ((k : ℕ) → k < i + n → All (λ b. b + 1 < 2 ^ 32) (row k))
      → All (λ b. b + 1 < 2 ^ 32) f.final_result
      → All (λ b. b + 1 < 2 ^ 32) (gather part_info node_info n i f).final_result
  unfolding gather
  gather_small zero i f h all = all
  gather_small (suc n) i f h all =
      let here = h i (omega arith) in
      let own =
        All-append (λ b. b + 1 < 2 ^ 32) f.final_result (get_or part_info i 0 ∷ []) all
          (here.0, tt) in
      gather_small n (i + 1) (with_row i f) (λ k l. h k (omega arith))
        (All-append (λ b. b + 1 < 2 ^ 32) (f.final_result ++ get_or part_info i 0 ∷ [])
          (node_info i) own here.1)

  -- The mapping that is written has the nodes' rows.
  pub written-rows :
      (c : ℕ)
      → c < 2 ^ 32
      → total (λ k. length (node_info k)) c 0 + c < 2 ^ 32
      → ((k : ℕ) → k < c → All (λ b. b + 1 < 2 ^ 32) (row k))
      → (words : List ℕ) × (write_final c (gather part_info node_info c 0 no_nodes) ≡ some words)
        × ((open_mapping words).item_cnt ≡ c)
        × ((open_mapping words).all_blocks_cnt ≡ length (open_mapping words).all_blocks)
        × IsPacked row c
            (open_mapping words).block_idx
            (open_mapping words).block_cnt
            (open_mapping words).all_blocks
        × All (λ b. b + 1 < 2 ^ 32) (open_mapping words).all_blocks
  unfolding write_final
  written-rows c few room small =
      let f = gather part_info node_info c 0 no_nodes in
      let e0 : 0 + c ≡ c = omega arith in
      let gathered = gather-IsGathered c 0 no_nodes (empty-IsPacked row, refl) in
      let (p, sum) = subst (λ m. IsGathered m f) e0 gathered in
      let all_small = gather_small c 0 no_nodes (λ k h. small k (omega arith)) tt in
      let words =
        u64 c
        ++ (u64 f.sum
            ++ (words_of f.part_idx ++ (words_of f.part_size ++ words_of f.final_result))) in
      let opened =
        ap
          (λ s. open_mapping (
            u64 c
            ++ (u64 s
                ++ (words_of f.part_idx ++ (words_of f.part_size ++ words_of f.final_result)))))
          sum
        ∙ open_packed row c f.part_idx f.part_size f.final_result few
            (omega (arith, length-gather c 0 no_nodes)) p
            (All-map {Q = λ b. b < 2 ^ 32} f.final_result (λ b h. omega arith) all_small) in
      (
        words,
        rw (==_of_eq f.sum (length f.final_result) sum),
        ap (λ m. m.item_cnt) opened,
        ap (λ m. m.all_blocks_cnt) opened ∙ ap (λ m. length m.all_blocks) (sym opened),
        subst (λ m. IsPacked row c m.block_idx m.block_cnt m.all_blocks) (sym opened) p,
        subst (λ m. All (λ b. b + 1 < 2 ^ 32) m.all_blocks) (sym opened) all_small,
      )
