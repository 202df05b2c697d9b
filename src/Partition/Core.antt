-- ===== src/Partition/Core.antt =====
-- partition/src/partition.cpp, devide_core: a bisection is improved by swaps.
pub mod Permute
pub mod Marks
pub mod Gains
use max_embed.Prelude.{
  ℕ, zero, suc, ◌+◌, ◌-◌, ◌<◌, Bool, true, false, List, [], ◌∷◌, ◌++◌, ltb, ◌==◌, if◌then◌else◌,
  get_or, length,
}
use max_embed.Partition.{Runtime, Edge, State, u16, update}

abbrev pub max_iter : ℕ
max_iter = 8

abbrev pub omp_thread_num : ℕ
omp_thread_num = 32

-- part_info[idx[i]] = side for the nodes of a half.
unfoldable pub mark : Bool → List ℕ → (ℕ → Bool) → ℕ → Bool
mark side [] info = info
mark side (k ∷ ks) info = mark side ks (update info k side)

-- The two counters over an edge: `n` rounds are left.
unfoldable pub count_sides : (ℕ → Bool) → List ℕ → ℕ → ℕ → ℕ × ℕ → ℕ × ℕ
count_sides info pins zero i c = c
count_sides info pins (suc n) i (c0, c1) =
    let side = info (get_or pins i 0) in
    count_sides info pins n (i + 1)
      (u16 (c0 + (if side then 0 else 1)), u16 (c1 + (if side then 1 else 0)))

-- What swap_pairs leaves: the halves, part_info, and how many pairs were swapped.
pub record Halves : Type 0 where
  pub left : List ℕ
  pub right : List ℕ
  pub info : ℕ → Bool
  pub swaps : ℕ

module _ (R : Runtime) where
  open R use {Float, zero_float, add, sub, neg, is_positive, greater, table, parallel_sort, thread}

  -- gain[tid][idx[j]] = 0
  unfoldable pub zero_gains : List ℕ → (ℕ → Float) → ℕ → Float
  zero_gains [] gain = gain
  zero_gains (k ∷ ks) gain = zero_gains ks (update gain k zero_float)

  -- The second loop over an edge's pins.
  unfoldable pub add_gains : (ℕ → Bool) → List ℕ → Float → Float → ℕ → ℕ → (ℕ → Float) → ℕ → Float
  add_gains info pins p1 p2 zero i gain = gain
  add_gains info pins p1 p2 (suc n) i gain =
      let node = get_or pins i 0 in
      add_gains info pins p1 p2 n (i + 1)
        (update gain node (add (gain node) (if info node then p2 else p1)))

  unfoldable pub edge_gains : (ℕ → Bool) → List ℕ → Edge → (ℕ → Float) → ℕ → Float
  edge_gains info pins e gain =
      let n = e.second - e.first in
      let (c0, c1) = count_sides info pins n e.first (0, 0) in
      let p1 = neg (sub (table (c1 + 1)) (table c0)) in
      let p2 = neg (sub (table (c0 + 1)) (table c1)) in add_gains info pins p1 p2 n e.first gain

  -- The sequential branch: every edge into gain[0].
  unfoldable pub gains_seq : (ℕ → Bool) → List ℕ → List Edge → (ℕ → Float) → ℕ → Float
  gains_seq info pins [] gain = gain
  gains_seq info pins (e ∷ es) gain = gains_seq info pins es (edge_gains info pins e gain)

  -- The parallel branch: every edge into its thread's gains.
  unfoldable pub gains_par : (ℕ → Bool) → List ℕ → List Edge → ℕ → (ℕ → ℕ → Float) → ℕ → ℕ → Float
  gains_par info pins [] i gain = gain
  gains_par info pins (e ∷ es) i gain =
      gains_par info pins es (i + 1)
        (update gain (thread i) (edge_gains info pins e (gain (thread i))))

  -- for (tid = 1; tid < OMP_THREAD_NUM; tid++) gain[0][…] += gain[tid][…]: `n` rounds are left.
  unfoldable pub sum_threads : (ℕ → ℕ → Float) → ℕ → ℕ → ℕ → Float → Float
  sum_threads gain node zero tid acc = acc
  sum_threads gain node (suc n) tid acc =
      sum_threads gain node n (tid + 1) (add acc (gain tid node))

  unfoldable pub collect : List ℕ → (ℕ → ℕ → Float) → ℕ → ℕ → Float
  collect [] gain = gain
  collect (k ∷ ks) gain =
      collect ks
        (update gain 0 (update (gain 0) k (sum_threads gain k (omp_thread_num - 1) 1 (gain 0 k))))

  unfoldable pub compute_gains : List ℕ → List Edge → State Float → State Float
  compute_gains nodes edges st =
      if ltb 100000 (length edges)
      then record st {
        gain = collect nodes (
            gains_par st.part_info st.pins edges 0 (λ tid.
              if ltb tid omp_thread_num then zero_gains nodes (st.gain tid) else st.gain tid));
      }
      else record st {
        gain =
            update st.gain 0 (gains_seq st.part_info st.pins edges (zero_gains nodes (st.gain 0)));
      }

  -- The loop that swaps the i-th nodes of the two halves while that gains.
  unfoldable pub swap_pairs : (ℕ → Float) → List ℕ → List ℕ → (ℕ → Bool) → Halves
  swap_pairs gain [] right info = record { left = []; right = right; info = info; swaps = 0 }
  swap_pairs gain (a ∷ xs) [] info = record { left = a ∷ xs; right = []; info = info; swaps = 0 }
  swap_pairs gain (a ∷ xs) (b ∷ ys) info =
      let rest = swap_pairs gain xs ys (update (update info b false) a true) in
      if is_positive (add (gain a) (gain b))
      then record {
        left = b ∷ rest.left;
        right = a ∷ rest.right;
        info = rest.info;
        swaps = rest.swaps + 1;
      }
      else record { left = a ∷ xs; right = b ∷ ys; info = info; swaps = 0 }

  pub record Bisection : Type 0 where
    pub left : List ℕ
    pub right : List ℕ
    pub after : State Float

  -- for (_ = 0; _ < MAX_ITER; _++): `n` rounds are left.
  unfoldable pub improve : ℕ → List ℕ → List ℕ → List Edge → State Float → Bisection
  improve zero left right edges st = record { left = left; right = right; after = st }
  improve (suc n) left right edges st =
      let st' = compute_gains (left ++ right) edges st in
      let gain = st'.gain 0 in
      let by_gain = λ (a b : ℕ). greater (gain a) (gain b) in
      let h =
        swap_pairs gain (parallel_sort by_gain left) (parallel_sort by_gain right) st'.part_info in
      let st'' = record st' { part_info = h.info } in
      let rest = improve n h.left h.right edges st'' in
      if h.swaps == 0 then record { left = h.left; right = h.right; after = st'' } else rest

  unfoldable pub devide_core : List ℕ → List ℕ → List Edge → State Float → Bisection
  devide_core left right edges st =
      improve max_iter left right edges
        (record st { part_info = mark true right (mark false left st.part_info) })
