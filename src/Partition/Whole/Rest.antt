-- ===== src/Partition/Whole/Rest.antt =====
-- partition/src/partition.cpp, partition: the loops before and after divide_start.
use max_embed.Prelude.{
  ℕ, zero, suc, ◌+◌, ◌≤◌, ◌<◌, ◌≡◌, refl, ap, Bool, true, false, List, [], ◌∷◌, ◌++◌, arith, leb,
  ltb, ◌==◌, ◌&&◌, if◌then◌else◌, to_ℕ, count, elem, count-append, elem_of_count-zero, Bool-cases,
  inl, inr,
}
use max_embed.Partition.{update}
use max_embed.Partition.Whole.{Filled, fill, assign_rest}
use max_embed.Partition.Divide.Join.{IsDistinct}
use max_embed.Partition.Divide.Tally.{tally, tally_none}

-- The nodes i, i + 1, …, `n` of them.
abbrev pub range : ℕ → ℕ → List ℕ
range i zero = []
range i (suc n) = i ∷ range (i + 1) n

pub count-fill :
    (appeared : ℕ → Bool) (n i : ℕ) (f : Filled) (k : ℕ)
    → count k (fill appeared n i f).front + count k (fill appeared n i f).back
      ≡ count k f.front + count k f.back + count k (range i n)
unfolding fill
count-fill appeared zero i f k = omega arith
count-fill appeared (suc n) i f k = elim (Bool-cases (appeared i)) [
  | inl e ↦
      rw (e, fill)
        (omega (
          arith,
          count-fill appeared n (i + 1) (record f { front = f.front ++ i ∷ [] }) k,
          count-append k f.front (i ∷ []),
        ))
  | inr e ↦
      rw (e, fill) (omega (arith, count-fill appeared n (i + 1) (record f { back = i ∷ f.back }) k))
]

pub count-range : (i n k : ℕ) → count k (range i n) ≡ to_ℕ (leb i k && ltb k (i + n))
count-range i zero k = ground arith
count-range i (suc n) k = ground (arith, count-range (i + 1) n k)

-- The nodes of the last loop are numbered from `id` on; `used` nodes are in the part `id` before.
pub record IsFilledUp (bound used id : ℕ) (nodes : List ℕ) (before : ℕ → ℕ) (r : (ℕ → ℕ) × ℕ)
    : Type 0 where
  pub kept : (k : ℕ) → elem k nodes ≡ false → r.0 k ≡ before k
  pub grows : id ≤ r.1
  pub numbered : (k : ℕ) → elem k nodes ≡ true → (id ≤ r.0 k) × (r.0 k ≤ r.1)
  pub room : tally r.0 id nodes + used ≤ bound
  pub bounded : (x : ℕ) → tally r.0 x nodes ≤ bound

pub assign_rest-IsFilledUp :
    (bound used id : ℕ) (nodes : List ℕ) (before : ℕ → ℕ)
    → 0 < bound
    → used ≤ bound
    → IsDistinct nodes
    → IsFilledUp bound used id nodes before (assign_rest bound nodes used id before)
unfolding assign_rest
assign_rest-IsFilledUp bound used id [] before pos h d = record {
  kept = λ k e. refl;
  grows = omega arith;
  numbered = λ k e. cc;
  room = omega arith;
  bounded = λ x. omega arith;
}
assign_rest-IsFilledUp bound used id (k ∷ ks) before pos h d =
    let is_full = used == bound in
    let id' = if is_full then id + 1 else id in
    let cnt' = if is_full then 0 else used in
    let r = assign_rest bound ks (cnt' + 1) id' (update before k id') in
    let enough : cnt' + 1 ≤ bound = ground arith in
    let ih =
      assign_rest-IsFilledUp bound (cnt' + 1) id' ks (update before k id') pos enough
        (λ j. omega (arith, d j)) in
    let alone : elem k ks ≡ false = elem_of_count-zero k ks (ground (arith, d k)) in
    let here : r.0 k ≡ id' = ground (arith, ih.kept k alone) in
    let up : id ≤ id' = ground arith in
    let none_before : id < id' → tally r.0 id ks ≡ 0 =
      λ l. tally_none r.0 id ks (λ j e h. omega (arith, (ih.numbered j e).0)) in
    record {
      kept = λ j e. ground (arith, ih.kept j);
      grows = omega (arith, ih.grows, up);
      numbered = λ j e. ground (arith, ih.numbered j, here, up, ih.grows);
      room = ground (arith, ih.room, none_before, here, up);
      bounded = λ x.
          ground (arith, ih.room, ih.bounded x, here, ap (λ y. tally r.0 y ks) {x = id'} {y = x});
    }
