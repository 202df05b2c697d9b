-- ===== src/Partition/Core/Gains.antt =====
-- partition/src/partition.cpp, devide_core: which elements of `table` the gains depend on.
use mathlib.Core.Path.{fun_ext}
use max_embed.Prelude.{
  ℕ, zero, suc, ◌+◌, ◌-◌, ◌≤◌, ◌<◌, ◌≡◌, refl, sym, ap, ◌∙◌, Bool, true, false, List, [], ◌∷◌,
  arith, if◌then◌else◌, get_or, All, Bool-cases, inl, inr, ltb, length,
}
use max_embed.Partition.{Runtime, Edge, State, u16, update}
use max_embed.Partition.Core.{
  count_sides, add_gains, edge_gains, gains_seq, sum_threads, omp_thread_num, gains_par, zero_gains,
  collect, compute_gains,
}

-- An edge that is not empty, of no more than longest_edge or 65535 pins.
abbrev pub IsWithin : ℕ → Edge → Type 0
IsWithin longest_edge e =
    (e.first < e.second) × (e.second - e.first ≤ longest_edge) × (e.second - e.first < 65536)

count_sides_sum :
    (info : ℕ → Bool) (pins : List ℕ) (n i c0 c1 : ℕ)
    → c0 + c1 + n < 65536
    → let d = count_sides info pins n i (c0, c1) in
      (d.0 + d.1 ≡ c0 + c1 + n) × (c0 ≤ d.0) × (c1 ≤ d.1)
unfolding count_sides
count_sides_sum info pins zero i c0 c1 h = (omega arith, omega arith, omega arith)
count_sides_sum info pins (suc n) i c0 c1 h = elim (Bool-cases (info (get_or pins i 0))) [
  | inl e ↦
      let same0 : u16 (c0 + 0) ≡ c0 = omega (arith, h) in
      let same1 : u16 (c1 + 1) ≡ c1 + 1 = omega (arith, h) in
      let rest = count_sides_sum info pins n (i + 1) c0 (c1 + 1) (omega arith) in
      rw (e, count_sides)
        (rw (same0, same1, count_sides) (omega (arith, rest.0), rest.1, omega (arith, rest.2)))
  | inr e ↦
      let same0 : u16 (c0 + 1) ≡ c0 + 1 = omega (arith, h) in
      let same1 : u16 (c1 + 0) ≡ c1 = omega (arith, h) in
      let rest = count_sides_sum info pins n (i + 1) (c0 + 1) c1 (omega arith) in
      rw (e, count_sides)
        (rw (same0, same1, count_sides) (omega (arith, rest.0), omega (arith, rest.1), rest.2))
]

-- A pin's own side is counted.
count_sides_side :
    (info : ℕ → Bool) (pins : List ℕ) (n i j c0 c1 : ℕ) (side : Bool)
    → c0 + c1 + n < 65536
    → j < n
    → info (get_or pins (i + j) 0) ≡ side
    → let d = count_sides info pins n i (c0, c1) in if side then c1 < d.1 else c0 < d.0
unfolding count_sides
count_sides_side info pins zero i j c0 c1 side h l e = absurd (omega (arith, l))
count_sides_side info pins (suc n) i zero c0 c1 true h l e =
    let at : i + 0 ≡ i = omega arith in
    let here : info (get_or pins i 0) ≡ true = ap (λ k. info (get_or pins k 0)) (sym at) ∙ e in
    let same0 : u16 (c0 + 0) ≡ c0 = omega (arith, h) in
    let same1 : u16 (c1 + 1) ≡ c1 + 1 = omega (arith, h) in
    let rest = count_sides_sum info pins n (i + 1) c0 (c1 + 1) (omega (arith, h)) in
    rw (here, count_sides) (rw (same0, same1, count_sides) (omega (arith, rest.2)))
count_sides_side info pins (suc n) i zero c0 c1 false h l e =
    let at : i + 0 ≡ i = omega arith in
    let here : info (get_or pins i 0) ≡ false = ap (λ k. info (get_or pins k 0)) (sym at) ∙ e in
    let same0 : u16 (c0 + 1) ≡ c0 + 1 = omega (arith, h) in
    let same1 : u16 (c1 + 0) ≡ c1 = omega (arith, h) in
    let rest = count_sides_sum info pins n (i + 1) (c0 + 1) c1 (omega (arith, h)) in
    rw (here, count_sides) (rw (same0, same1, count_sides) (omega (arith, rest.1)))
count_sides_side info pins (suc n) i (suc j) c0 c1 side h l e =
    let at : i + 1 + j ≡ i + suc j = omega arith in
    let there = ap (λ k. info (get_or pins k 0)) at ∙ e in
    elim (Bool-cases (info (get_or pins i 0))) [
      | inl x ↦
          let same0 : u16 (c0 + 0) ≡ c0 = omega (arith, h) in
          let same1 : u16 (c1 + 1) ≡ c1 + 1 = omega (arith, h) in
          rw (x, count_sides)
            (rw (same0, same1, count_sides)
              (lower c0 c1 c0 (c1 + 1) (count_sides info pins n (i + 1) (c0, c1 + 1)) side
                (count_sides_side info pins n (i + 1) j c0 (c1 + 1) side (omega (arith, h))
                  (omega (arith, l)) there)
                (omega arith) (omega arith)))
      | inr x ↦
          let same0 : u16 (c0 + 1) ≡ c0 + 1 = omega (arith, h) in
          let same1 : u16 (c1 + 0) ≡ c1 = omega (arith, h) in
          rw (x, count_sides)
            (rw (same0, same1, count_sides)
              (lower c0 c1 (c0 + 1) c1 (count_sides info pins n (i + 1) (c0 + 1, c1)) side
                (count_sides_side info pins n (i + 1) j (c0 + 1) c1 side (omega (arith, h))
                  (omega (arith, l)) there)
                (omega arith) (omega arith)))
    ]
  where
    lower :
        (a0 a1 b0 b1 : ℕ) (d : ℕ × ℕ) (s : Bool)
        → (if s then b1 < d.1 else b0 < d.0)
        → a0 ≤ b0
        → a1 ≤ b1
        → if s then a1 < d.1 else a0 < d.0
    lower a0 a1 b0 b1 d true x y z = omega (arith, x, z)
    lower a0 a1 b0 b1 d false x y z = omega (arith, x, y)

module _ (R : Runtime) (table' : ℕ → R.Float) where
  abbrev other : Runtime
  other = record R { table = table' }

  zero_gains_table :
      (ks : List ℕ) (gain : ℕ → R.Float) → zero_gains R ks gain ≡ zero_gains other ks gain
  unfolding zero_gains
  zero_gains_table [] gain = refl
  zero_gains_table (k ∷ ks) gain = zero_gains_table ks (update gain k R.zero_float)

  sum_threads_table :
      (gain : ℕ → ℕ → R.Float) (node n tid : ℕ) (acc : R.Float)
      → sum_threads R gain node n tid acc ≡ sum_threads other gain node n tid acc
  unfolding sum_threads
  sum_threads_table gain node zero tid acc = refl
  sum_threads_table gain node (suc n) tid acc =
      sum_threads_table gain node n (tid + 1) (R.add acc (gain tid node))

  collect_table : (ks : List ℕ) (gain : ℕ → ℕ → R.Float) → collect R ks gain ≡ collect other ks gain
  unfolding collect
  collect_table [] gain = refl
  collect_table (k ∷ ks) gain =
      ap (λ x. collect R ks (update gain 0 (update (gain 0) k x)))
        (sum_threads_table gain k (omp_thread_num - 1) 1 (gain 0 k))
      ∙ collect_table ks _

  add_gains_agree :
      (info : ℕ → Bool) (pins : List ℕ) (p1 p2 q1 q2 : R.Float) (n i : ℕ) (gain : ℕ → R.Float)
      → ((j : ℕ) → j < n → info (get_or pins (i + j) 0) ≡ false → p1 ≡ q1)
      → ((j : ℕ) → j < n → info (get_or pins (i + j) 0) ≡ true → p2 ≡ q2)
      → add_gains R info pins p1 p2 n i gain ≡ add_gains other info pins q1 q2 n i gain
  unfolding add_gains
  add_gains_agree info pins p1 p2 q1 q2 zero i gain f t = refl
  add_gains_agree info pins p1 p2 q1 q2 (suc n) i gain f t =
      let node = get_or pins i 0 in
      let at : i + 0 ≡ i = omega arith in
      let here : (if info node then p2 else p1) ≡ (if info node then q2 else q1) =
        pick (info node) (λ e. f 0 (omega arith) (ap (λ k. info (get_or pins k 0)) at ∙ e))
          (λ e. t 0 (omega arith) (ap (λ k. info (get_or pins k 0)) at ∙ e)) in
      ap (λ x. add_gains R info pins p1 p2 n (i + 1) (update gain node (R.add (gain node) x))) here
      ∙ add_gains_agree info pins p1 p2 q1 q2 n (i + 1) _
          (λ j l e.
            let next : i + suc j ≡ i + 1 + j = omega arith in
            f (suc j) (omega (arith, l)) (ap (λ k. info (get_or pins k 0)) next ∙ e))
          (λ j l e.
            let next : i + suc j ≡ i + 1 + j = omega arith in
            t (suc j) (omega (arith, l)) (ap (λ k. info (get_or pins k 0)) next ∙ e))
    where
      pick :
          (c : Bool)
          → (c ≡ false → p1 ≡ q1)
          → (c ≡ true → p2 ≡ q2)
          → (if c then p2 else p1) ≡ (if c then q2 else q1)
      pick true x y = y refl
      pick false x y = x refl

  module _ (longest_edge : ℕ) (same : (n : ℕ) → n ≤ longest_edge → R.table n ≡ table' n) where
    edge_gains_table :
        (info : ℕ → Bool) (pins : List ℕ) (e : Edge) (gain : ℕ → R.Float)
        → IsWithin longest_edge e
        → edge_gains R info pins e gain ≡ edge_gains other info pins e gain
    unfolding edge_gains
    edge_gains_table info pins e gain (some_pin, fits, short) =
        let n = e.second - e.first in
        let d = count_sides info pins n e.first (0, 0) in
        let sum = count_sides_sum info pins n e.first 0 0 (omega (arith, short)) in
        let diff = λ (k m : ℕ) (x : k ≤ longest_edge) (y : m ≤ longest_edge).
          ap (λ z. R.neg (R.sub z (R.table m))) (same k x)
          ∙ ap (λ z. R.neg (R.sub (table' k) z)) (same m y) in
        add_gains_agree info pins _ _ _ _ n e.first gain
          (λ j l f.
            let own : 0 < d.0 =
              count_sides_side info pins n e.first j 0 0 false (omega (arith, short)) l f in
            diff (d.1 + 1) d.0 (omega (arith, own, sum.0, fits)) (omega (arith, sum.0, fits)))
          (λ j l f.
            let own : 0 < d.1 =
              count_sides_side info pins n e.first j 0 0 true (omega (arith, short)) l f in
            diff (d.0 + 1) d.1 (omega (arith, own, sum.0, fits)) (omega (arith, sum.0, fits)))

    gains_seq_table :
        (info : ℕ → Bool) (pins : List ℕ) (edges : List Edge) (gain : ℕ → R.Float)
        → All (IsWithin longest_edge) edges
        → gains_seq R info pins edges gain ≡ gains_seq other info pins edges gain
    unfolding gains_seq
    gains_seq_table info pins [] gain a = refl
    gains_seq_table info pins (e ∷ es) gain a =
        ap (gains_seq R info pins es) (edge_gains_table info pins e gain a.0)
        ∙ gains_seq_table info pins es (edge_gains other info pins e gain) a.1

    gains_par_table :
        (info : ℕ → Bool) (pins : List ℕ) (edges : List Edge) (i : ℕ) (gain : ℕ → ℕ → R.Float)
        → All (IsWithin longest_edge) edges
        → gains_par R info pins edges i gain ≡ gains_par other info pins edges i gain
    unfolding gains_par
    gains_par_table info pins [] i gain a = refl
    gains_par_table info pins (e ∷ es) i gain a =
        ap (λ g. gains_par R info pins es (i + 1) (update gain (R.thread i) g))
          (edge_gains_table info pins e (gain (R.thread i)) a.0)
        ∙ gains_par_table info pins es (i + 1) _ a.1

    -- On edges that are not empty, none of more than longest_edge or 65535 pins, two tables that agree
    -- up to longest_edge make the same gains, in the sequential and in the parallel branch: the element
    -- behind the table that the code reads for an edge on one side has no effect.
    pub compute_gains-table :
        (nodes : List ℕ) (edges : List Edge) (st : State R.Float)
        → All (IsWithin longest_edge) edges
        → compute_gains R nodes edges st
          ≡ compute_gains (record R { table = table' }) nodes edges st
    unfolding compute_gains
    compute_gains-table nodes edges st a = elim (Bool-cases (ltb 100000 (length edges))) [
      | inl e ↦
          rw (e, compute_gains)
            (ap (λ g. record st { gain = g })
              (collect_table nodes _
                ∙ ap (collect other nodes) (
                    gains_par_table st.part_info st.pins edges 0 _ a
                    ∙ ap (gains_par other st.part_info st.pins edges 0) (
                        fun_ext (λ tid.
                          ap
                            (λ (g : ℕ → R.Float). if ltb tid omp_thread_num then g else st.gain tid)
                            (zero_gains_table nodes (st.gain tid)))))))
      | inr e ↦
          rw (e, compute_gains)
            (ap (λ g. record st { gain = update st.gain 0 g })
              (gains_seq_table st.part_info st.pins edges _ a
                ∙ ap (gains_seq other st.part_info st.pins edges)
                    (zero_gains_table nodes (st.gain 0))))
    ]
