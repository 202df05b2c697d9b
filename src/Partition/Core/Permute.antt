-- ===== src/Partition/Core/Permute.antt =====
-- partition/src/partition.cpp, devide_core: the nodes of the two halves.
use max_embed.Prelude.{
  ℕ, zero, suc, ◌+◌, ◌≡◌, refl, ◌∙◌, Bool, true, false, List, [], ◌∷◌, ◌++◌, arith, ◌==◌,
  if◌then◌else◌, length, count, Bool-cases, inl, inr, length_of_count-eq, ltb,
}
use max_embed.Partition.{Runtime, Edge, State, update}
use max_embed.Partition.Core.{
  Bisection, swap_pairs, compute_gains, improve, mark, devide_core, max_iter,
}

module _ (R : Runtime) where
  open R use {Float}

  -- The halves keep their sizes, and together their nodes; p_pins, p_partition and part_id stay.
  pub record IsBisection (left right : List ℕ) (st : State Float) (b : Bisection R) : Type 0 where
    pub same : (k : ℕ) → count k b.left + count k b.right ≡ count k left + count k right
    pub left_size : length b.left ≡ length left
    pub right_size : length b.right ≡ length right
    pub pins_kept : b.after.pins ≡ st.pins
    pub partition_kept : b.after.partition ≡ st.partition
    pub part_id_kept : b.after.part_id ≡ st.part_id

  pub count-swap_pairs :
      (gain : ℕ → Float) (left right : List ℕ) (info : ℕ → Bool) (k : ℕ)
      → count k (swap_pairs R gain left right info).left
          + count k (swap_pairs R gain left right info).right
        ≡ count k left + count k right
  unfolding swap_pairs
  count-swap_pairs gain [] right info k = refl
  count-swap_pairs gain (a ∷ xs) [] info k = refl
  count-swap_pairs gain (a ∷ xs) (b ∷ ys) info k =
      ground (arith, count-swap_pairs gain xs ys (update (update info b false) a true) k)

  length-swap_pairs :
      (gain : ℕ → Float) (left right : List ℕ) (info : ℕ → Bool)
      → (length (swap_pairs R gain left right info).left ≡ length left)
        × (length (swap_pairs R gain left right info).right ≡ length right)
  unfolding swap_pairs
  length-swap_pairs gain [] right info = (refl, refl)
  length-swap_pairs gain (a ∷ xs) [] info = (refl, refl)
  length-swap_pairs gain (a ∷ xs) (b ∷ ys) info =
      ground (arith, length-swap_pairs gain xs ys (update (update info b false) a true))

  kept-compute_gains :
      (nodes : List ℕ) (edges : List Edge) (st : State Float)
      → ((compute_gains R nodes edges st).pins ≡ st.pins)
        × ((compute_gains R nodes edges st).partition ≡ st.partition)
        × ((compute_gains R nodes edges st).part_id ≡ st.part_id)
  unfolding compute_gains
  kept-compute_gains nodes edges st = elim (Bool-cases (ltb 100000 (length edges))) [
    | inl e ↦ rw (e, compute_gains) (refl, refl, refl)
    | inr e ↦ rw (e, compute_gains) (refl, refl, refl)
  ]

  IsBisection-trans :
      (left right : List ℕ) (st : State Float) (b c : Bisection R)
      → IsBisection left right st b
      → IsBisection b.left b.right b.after c
      → IsBisection left right st c
  IsBisection-trans left right st b c p q = record {
    same = λ k. q.same k ∙ p.same k;
    left_size = q.left_size ∙ p.left_size;
    right_size = q.right_size ∙ p.right_size;
    pins_kept = q.pins_kept ∙ p.pins_kept;
    partition_kept = q.partition_kept ∙ p.partition_kept;
    part_id_kept = q.part_id_kept ∙ p.part_id_kept;
  }

  -- One round: the halves are sorted, and pairs are swapped.
  round-IsBisection :
      (left right : List ℕ) (edges : List Edge) (st : State Float) (gain : ℕ → Float)
      (by_gain : ℕ → ℕ → Bool) (info : ℕ → Bool)
      → let h =
          swap_pairs R gain (R.parallel_sort by_gain left) (R.parallel_sort by_gain right) info in
        let st' = compute_gains R (left ++ right) edges st in
        IsBisection left right st
          (record { left = h.left; right = h.right; after = record st' { part_info = h.info } })
  round-IsBisection left right edges st gain by_gain info =
      let l = R.parallel_sort by_gain left in
      let r = R.parallel_sort by_gain right in
      let kept = kept-compute_gains (left ++ right) edges st in
      let sizes = length-swap_pairs gain l r info in
      record {
        same = λ k. omega (
          arith,
          count-swap_pairs gain l r info k,
          R.count-parallel_sort k by_gain left,
          R.count-parallel_sort k by_gain right,
        );
        left_size = sizes.0 ∙ length_of_count-eq l left (λ k. R.count-parallel_sort k by_gain left);
        right_size =
            sizes.1 ∙ length_of_count-eq r right (λ k. R.count-parallel_sort k by_gain right);
        pins_kept = kept.0;
        partition_kept = kept.1;
        part_id_kept = kept.2;
      }

  improve-IsBisection :
      (n : ℕ) (left right : List ℕ) (edges : List Edge) (st : State Float)
      → IsBisection left right st (improve R n left right edges st)
  unfolding improve
  improve-IsBisection zero left right edges st = record {
    same = λ k. refl;
    left_size = refl;
    right_size = refl;
    pins_kept = refl;
    partition_kept = refl;
    part_id_kept = refl;
  }
  improve-IsBisection (suc n) left right edges st =
      let st' = compute_gains R (left ++ right) edges st in
      let gain = st'.gain 0 in
      let by_gain = λ (a b : ℕ). R.greater (gain a) (gain b) in
      let h =
        swap_pairs R gain (R.parallel_sort by_gain left) (R.parallel_sort by_gain right)
          st'.part_info in
      let st'' = record st' { part_info = h.info } in
      let once : Bisection R = record { left = h.left; right = h.right; after = st'' } in
      let now = round-IsBisection left right edges st gain by_gain st'.part_info in
      elim (h.swaps == 0)
        as (λ m.
          IsBisection left right st (if m then once else improve R n h.left h.right edges st'')) [
            | true ↦ now
            | false ↦
                IsBisection-trans left right st once (improve R n h.left h.right edges st'') now
                  (improve-IsBisection n h.left h.right edges st'')
          ]

  -- A bisection keeps the sizes of the halves and, together, their nodes, and changes nothing of
  -- what the caller keeps but part_info.
  pub devide_core-IsBisection :
      (left right : List ℕ) (edges : List Edge) (st : State Float)
      → IsBisection left right st (devide_core R left right edges st)
  unfolding devide_core
  devide_core-IsBisection left right edges st =
      let marked =
        improve-IsBisection max_iter left right edges
          (record st { part_info = mark true right (mark false left st.part_info) }) in
      record {
        same = marked.same;
        left_size = marked.left_size;
        right_size = marked.right_size;
        pins_kept = marked.pins_kept;
        partition_kept = marked.partition_kept;
        part_id_kept = marked.part_id_kept;
      }
