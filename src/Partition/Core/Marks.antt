-- ===== src/Partition/Core/Marks.antt =====
-- partition/src/partition.cpp, devide_core: part_info and the two halves.
use max_embed.Prelude.{
  ℕ, zero, suc, ◌+◌, ◌≤◌, ◌<◌, ◌≡◌, refl, ap, ◌∙◌, Bool, true, false, List, [], ◌∷◌, ◌++◌, arith,
  ◌==◌, if◌then◌else◌, length, count, All, all_of_count, Bool-cases, inl, inr, ltb,
}
use max_embed.Partition.{Runtime, Edge, State, update}
use max_embed.Partition.Core.{
  Bisection, swap_pairs, compute_gains, improve, mark, devide_core, max_iter,
}
use max_embed.Partition.Core.Permute.{count-swap_pairs}

-- What part_info says of a node that is in one of the halves.
abbrev pub IsMarked : List ℕ → List ℕ → (ℕ → Bool) → ℕ → Type 0
IsMarked left right info k =
    (0 < count k left → info k ≡ false) × (0 < count k right → info k ≡ true)

kept-mark :
    (side : Bool) (ks : List ℕ) (info : ℕ → Bool) (k : ℕ)
    → count k ks ≡ 0
    → mark side ks info k ≡ info k
unfolding mark
kept-mark side [] info k h = refl
kept-mark side (x ∷ ks) info k h = ground (arith, kept-mark side ks (update info x side) k)

mark-side :
    (side : Bool) (ks : List ℕ) (info : ℕ → Bool) (k : ℕ)
    → 0 < count k ks
    → mark side ks info k ≡ side
unfolding mark
mark-side side [] info k h = absurd (omega arith)
mark-side side (x ∷ ks) info k h =
    ground
      (arith, mark-side side ks (update info x side) k, kept-mark side ks (update info x side) k)

mark-IsMarked :
    (left right : List ℕ) (info : ℕ → Bool) (k : ℕ)
    → count k left + count k right ≤ 1
    → IsMarked left right (mark true right (mark false left info)) k
mark-IsMarked left right info k one = (
  λ h. kept-mark true right (mark false left info) k (omega arith) ∙ mark-side false left info k h,
  λ h. mark-side true right (mark false left info) k h,
)

module _ (R : Runtime) where
  open R use {Float}

  kept-swap_pairs :
      (gain : ℕ → Float) (left right : List ℕ) (info : ℕ → Bool) (k : ℕ)
      → count k left ≡ 0
      → count k right ≡ 0
      → (swap_pairs R gain left right info).info k ≡ info k
  unfolding swap_pairs
  kept-swap_pairs gain [] right info k l r = refl
  kept-swap_pairs gain (a ∷ xs) [] info k l r = refl
  kept-swap_pairs gain (a ∷ xs) (b ∷ ys) info k l r =
      ground (arith, kept-swap_pairs gain xs ys (update (update info b false) a true) k)

  swap_pairs-IsMarked :
      (gain : ℕ → Float) (left right : List ℕ) (info : ℕ → Bool) (k : ℕ)
      → count k left + count k right ≤ 1
      → IsMarked left right info k
      → let h = swap_pairs R gain left right info in IsMarked h.left h.right h.info k
  unfolding swap_pairs
  swap_pairs-IsMarked gain [] right info k one m = m
  swap_pairs-IsMarked gain (a ∷ xs) [] info k one m = m
  swap_pairs-IsMarked gain (a ∷ xs) (b ∷ ys) info k one m =
      let info' = update (update info b false) a true in
      let ih = swap_pairs-IsMarked gain xs ys info' k in
      let same = count-swap_pairs R gain xs ys info' k in
      let kept = kept-swap_pairs gain xs ys info' k in ground (arith, ih, same, kept)

  info-compute_gains :
      (nodes : List ℕ) (edges : List Edge) (st : State Float)
      → (compute_gains R nodes edges st).part_info ≡ st.part_info
  unfolding compute_gains
  info-compute_gains nodes edges st = elim (Bool-cases (ltb 100000 (length edges))) [
    | inl e ↦ rw (e, compute_gains) refl
    | inr e ↦ rw (e, compute_gains) refl
  ]

  improve-IsMarked :
      (n : ℕ) (left right : List ℕ) (edges : List Edge) (st : State Float) (k : ℕ)
      → count k left + count k right ≤ 1
      → IsMarked left right st.part_info k
      → let b = improve R n left right edges st in IsMarked b.left b.right b.after.part_info k
  unfolding improve
  improve-IsMarked zero left right edges st k one m = m
  improve-IsMarked (suc n) left right edges st k one m =
      let st' = compute_gains R (left ++ right) edges st in
      let gain = st'.gain 0 in
      let by_gain = λ (a b : ℕ). R.greater (gain a) (gain b) in
      let l = R.parallel_sort by_gain left in
      let r = R.parallel_sort by_gain right in
      let in_l : count k l ≡ count k left = R.count-parallel_sort k by_gain left in
      let in_r : count k r ≡ count k right = R.count-parallel_sort k by_gain right in
      let same_info = ap (λ f. f k) (info-compute_gains (left ++ right) edges st) in
      let h = swap_pairs R gain l r st'.part_info in
      let sorted : IsMarked l r st'.part_info k =
        (λ p. same_info ∙ m.0 (omega (arith, in_l)), λ p. same_info ∙ m.1 (omega (arith, in_r))) in
      let now = swap_pairs-IsMarked gain l r st'.part_info k (omega (arith, in_l, in_r)) sorted in
      let st'' = record st' { part_info = h.info } in
      let once : Bisection R = record { left = h.left; right = h.right; after = st'' } in
      let few = count-swap_pairs R gain l r st'.part_info k in
      elim (h.swaps == 0)
        as (λ s.
          let b = if s then once else improve R n h.left h.right edges st'' in
          IsMarked b.left b.right b.after.part_info k) [
            | true ↦ now
            | false ↦
                improve-IsMarked n h.left h.right edges st'' k (omega (arith, few, in_l, in_r)) now
          ]

  -- After devide_core part_info is false for every node of the left half and true for every node of
  -- the right half, where no node was twice in the two halves.
  pub devide_core-marks :
      (left right : List ℕ) (edges : List Edge) (st : State Float)
      → ((k : ℕ) → count k left + count k right ≤ 1)
      → let b = devide_core R left right edges st in
        All (λ k. b.after.part_info k ≡ false) b.left
        × All (λ k. b.after.part_info k ≡ true) b.right
  unfolding devide_core
  devide_core-marks left right edges st one =
      let b = devide_core R left right edges st in
      let marked = λ (k : ℕ).
        improve-IsMarked max_iter left right edges
          (record st { part_info = mark true right (mark false left st.part_info) }) k (one k)
          (mark-IsMarked left right st.part_info k (one k)) in
      (all_of_count b.left (λ k. (marked k).0), all_of_count b.right (λ k. (marked k).1))
