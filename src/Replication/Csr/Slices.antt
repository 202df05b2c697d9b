-- ===== src/Replication/Csr/Slices.antt =====
-- partition/src/replication_step.cpp, get_node2edge: what each node's part of the array holds.
use native.Mathlib.Decide.{dec_lt}
use max_embed.Prelude.{
  ℕ, zero, suc, ◌+◌, ◌-◌, ◌≤◌, ◌<◌, ◌≡◌, refl, ◌∙◌, ap, subst, true, List, [], ◌∷◌, arith, ltb, leb,
  ◌==◌, ◌||◌, to_ℕ, get_or, count,
}
use max_embed.Partition.{update}
use max_embed.Replication.Csr.{count_pins, sum_counts, Filling, fill_edges}
use max_embed.Replication.Csr.Events.{count_if, at_node}

-- The `n` entries of an array from `a` on.
abbrev pub places : (ℕ → ℕ) → ℕ → ℕ → List ℕ
places f a zero = []
places f a (suc n) = f a ∷ places f (a + 1) n

pub count_pins-lem :
    (pins order : List ℕ) (cnt : ℕ → ℕ) (v : ℕ)
    → count_pins pins order cnt v ≡ cnt v + count_if (λ i. get_or pins i 0 == v) order
unfolding count_pins
count_pins-lem pins [] cnt v = omega arith
count_pins-lem pins (i ∷ order) cnt v =
    let node = get_or pins i 0 in
    let same : v ≡ node → cnt v ≡ cnt node = ap cnt in
    ground (arith, count_pins-lem pins order (update cnt node (cnt node + 1)) v, same)

-- The loop leaves what is before its first place.
pub sum_counts-before :
    (cnt : ℕ → ℕ) (n i : ℕ) (idx : ℕ → ℕ) (k : ℕ) → k < i → sum_counts cnt n i idx k ≡ idx k
unfolding sum_counts
sum_counts-before cnt zero i idx k h = refl
sum_counts-before cnt (suc n) i idx k h =
    ground (arith, sum_counts-before cnt n (i + 1) (update idx i (idx (i - 1) + cnt (i - 1))) k)

pub sum_counts-step :
    (cnt : ℕ → ℕ) (n i : ℕ) (idx : ℕ → ℕ) (k : ℕ)
    → i ≤ k + 1
    → k + 1 < i + n
    → sum_counts cnt n i idx (k + 1) ≡ sum_counts cnt n i idx k + cnt k
unfolding sum_counts
sum_counts-step cnt zero i idx k lo hi = absurd (omega arith)
sum_counts-step cnt (suc n) i idx k lo hi =
    let next = update idx i (idx (i - 1) + cnt (i - 1)) in
    elim (dec_lt i (k + 1)) [
      | yes later ↦ sum_counts-step cnt n (i + 1) next k (omega arith) (omega arith)
      | no here ↦
          let e : i - 1 ≡ k = omega arith in
          let at : next (k + 1) ≡ idx (i - 1) + cnt (i - 1) = ground arith in
          let old : next k ≡ idx k = ground arith in
          let value : idx (i - 1) + cnt (i - 1) ≡ idx k + cnt k = ap (λ m. idx m + cnt m) e in
          omega (
            arith,
            sum_counts-before cnt n (i + 1) next (k + 1) (omega arith),
            sum_counts-before cnt n (i + 1) next k (omega arith),
            at,
            old,
            value,
          )
    ]

-- The places of the nodes are apart.
pub sum_counts-apart :
    (cnt idx : ℕ → ℕ) (c v d : ℕ)
    → ((k : ℕ) → k < c → idx (k + 1) ≡ idx k + cnt k)
    → v + suc d ≤ c
    → idx v + cnt v ≤ idx (v + suc d)
sum_counts-apart cnt idx c v zero h le =
    let e : v + 1 ≡ v + suc 0 = omega arith in
    subst (λ k. idx v + cnt v ≤ idx k) e (omega (arith, h v (omega arith)))
sum_counts-apart cnt idx c v (suc d) h le =
    let e : v + suc d + 1 ≡ v + suc (suc d) = omega arith in
    subst (λ k. idx v + cnt v ≤ idx k) e
      (omega (arith, h (v + suc d) (omega arith), sum_counts-apart cnt idx c v d h (omega arith)))

pub places-outside :
    (f : ℕ → ℕ) (p x a n : ℕ)
    → (ltb p a || leb (a + n) p) ≡ true
    → places (update f p x) a n ≡ places f a n
places-outside f p x a zero h = refl
places-outside f p x a (suc n) h =
    let here : update f p x a ≡ f a = ground arith in
    ap (λ y. y ∷ places (update f p x) (a + 1) n) here
    ∙ ap (λ ys. f a ∷ ys) (places-outside f p x (a + 1) n (ground arith))

pub count-places-last :
    (f : ℕ → ℕ) (e a n : ℕ)
    → count e (places f a (suc n)) ≡ count e (places f a n) + to_ℕ (f (a + n) == e)
count-places-last f e a zero = let z : a + 0 ≡ a = omega arith in rw z (omega arith)
count-places-last f e a (suc n) =
    let z : a + suc n ≡ a + 1 + n = omega arith in
    rw z (omega (arith, count-places-last f e (a + 1) n))

pub cnt-fill_edges :
    (pins : List ℕ) (idx : ℕ → ℕ) (order : List (ℕ × ℕ)) (s : Filling) (v : ℕ)
    → (fill_edges pins idx order s).cnt v ≡ s.cnt v + count_if (at_node pins v) order
unfolding fill_edges
cnt-fill_edges pins idx [] s v = omega arith
cnt-fill_edges pins idx ((i, j) ∷ order) s v =
    let node = get_or pins j 0 in
    let next : Filling = record {
      cnt = update s.cnt node (s.cnt node + 1);
      edges = update s.edges (s.cnt node + idx node) i;
    } in
    let same : v ≡ node → s.cnt v ≡ s.cnt node = ap s.cnt in
    ground (arith, cnt-fill_edges pins idx order next v, same)
