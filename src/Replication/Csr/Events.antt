-- ===== src/Replication/Csr/Events.antt =====
-- partition/src/replication_step.cpp, get_node2edge: the rounds of its parallel loops, in any order.
use max_embed.Prelude.{
  ℕ, zero, suc, ◌+◌, ◌-◌, ◌≤◌, ◌<◌, ◌≡◌, refl, ◌∙◌, ap, subst, Bool, List, [], ◌∷◌, ◌++◌, arith,
  ltb, leb, ◌==◌, ◌&&◌, if◌then◌else◌, to_ℕ, get_or, count,
}
use max_embed.Partition.Split.Sorted.{pins_from}
use max_embed.Partition.Whole.Rest.{range}
use max_embed.PartitionStep.{Hypergraph}
use max_embed.Replication.Csr.{Schedule}
use max_embed.Replication.Select.Adjacency.{edge_pins}

module _ {A : Type 0} where
  abbrev pub count_if : (A → Bool) → List A → ℕ
  count_if f [] = 0
  count_if f (x ∷ xs) = to_ℕ (f x) + count_if f xs

  -- The same rounds, in another order.
  abbrev pub IsReordering : List A → List A → Type 0
  IsReordering xs ys = (f : A → Bool) → count_if f xs ≡ count_if f ys

  pub count_if-append :
      (f : A → Bool) (xs ys : List A) → count_if f (xs ++ ys) ≡ count_if f xs + count_if f ys
  count_if-append f [] ys = omega arith
  count_if-append f (x ∷ xs) ys = omega (arith, count_if-append f xs ys)

-- The rounds of one edge: `n` positions from `j` on.
abbrev pub rounds_of_edge : ℕ → ℕ → ℕ → List (ℕ × ℕ)
rounds_of_edge e zero j = []
rounds_of_edge e (suc n) j = (e, j) ∷ rounds_of_edge e n (j + 1)

-- The rounds of the edges i, i + 1, …, `n` of them.
abbrev pub edge_rounds : List ℕ → ℕ → ℕ → List (ℕ × ℕ)
edge_rounds xpins zero i = []
edge_rounds xpins (suc n) i =
    rounds_of_edge i (get_or xpins (i + 1) 0 - get_or xpins i 0) (get_or xpins i 0)
    ++ edge_rounds xpins n (i + 1)

-- Every round is done once.
abbrev pub IsSchedule : Schedule → Hypergraph → Type 0
IsSchedule sched g =
    IsReordering sched.pin_order (range 0 (get_or g.xpins g.n 0))
    × IsReordering sched.edge_order (edge_rounds g.xpins g.n 0)

-- The edges are ranges from the first pin on without gaps, and the pins are nodes.
pub record IsHypergraph (g : Hypergraph) : Type 0 where
  pub first : get_or g.xpins 0 0 ≡ 0
  pub ordered : (i : ℕ) → i < g.n → get_or g.xpins i 0 ≤ get_or g.xpins (i + 1) 0
  pub nodes : (j : ℕ) → get_or g.pins j 0 < g.c

abbrev pub at_node : List ℕ → ℕ → ℕ × ℕ → Bool
at_node pins v r = get_or pins (r.1) 0 == v

abbrev pub at_edge : List ℕ → ℕ → ℕ → ℕ × ℕ → Bool
at_edge pins v e r = (get_or pins (r.1) 0 == v) && (r.0 == e)

range-append :
    (f : ℕ → Bool) (j n m : ℕ)
    → count_if f (range j n) + count_if f (range (j + n) m) ≡ count_if f (range j (n + m))
range-append f j zero m =
    let e : j + 0 ≡ j = omega arith in let z : 0 + m ≡ m = omega arith in rw (e, z) (omega arith)
range-append f j (suc n) m =
    let e : j + suc n ≡ j + 1 + n = omega arith in
    let s : suc n + m ≡ suc (n + m) = omega arith in
    rw (e, s) (omega (arith, range-append f (j + 1) n m))

node_of_edge :
    (pins : List ℕ) (v e n j : ℕ)
    → count_if (at_node pins v) (rounds_of_edge e n j)
      ≡ count_if (λ i. get_or pins i 0 == v) (range j n)
node_of_edge pins v e zero j = refl
node_of_edge pins v e (suc n) j = omega (arith, node_of_edge pins v e n (j + 1))

ordered_upto :
    (g : Hypergraph) (i n : ℕ)
    → ((k : ℕ) → k < g.n → get_or g.xpins k 0 ≤ get_or g.xpins (k + 1) 0)
    → i + n ≤ g.n
    → get_or g.xpins i 0 ≤ get_or g.xpins (i + n) 0
ordered_upto g i zero h le = let e : i + 0 ≡ i = omega arith in rw e (omega arith)
ordered_upto g i (suc n) h le =
    let e : i + suc n ≡ i + n + 1 = omega arith in
    rw e (omega (arith, ordered_upto g i n h (omega arith), h (i + n) (omega arith)))

-- The positions of the edges are those of the first loop.
node_of_edges :
    (g : Hypergraph) (v n i : ℕ)
    → ((k : ℕ) → k < g.n → get_or g.xpins k 0 ≤ get_or g.xpins (k + 1) 0)
    → i + n ≤ g.n
    → count_if (at_node g.pins v) (edge_rounds g.xpins n i)
      ≡ count_if
          (λ j. get_or g.pins j 0 == v)
          (range (get_or g.xpins i 0) (get_or g.xpins (i + n) 0 - get_or g.xpins i 0))
node_of_edges g v zero i h le =
    let z : get_or g.xpins (i + 0) 0 - get_or g.xpins i 0 ≡ 0 =
      let e : i + 0 ≡ i = omega arith in rw e (omega arith) in
    rw z
node_of_edges g v (suc n) i h le =
    let a = get_or g.xpins i 0 in
    let b = get_or g.xpins (i + 1) 0 in
    let end = get_or g.xpins (i + 1 + n) 0 in
    let f = λ (j : ℕ). get_or g.pins j 0 == v in
    let e : i + suc n ≡ i + 1 + n = omega arith in
    let ab = h i (omega arith) in
    let bc = ordered_upto g (i + 1) n h (omega arith) in
    let next : a + (b - a) ≡ b = omega arith in
    let whole : (b - a) + (end - b) ≡ end - a = omega arith in
    let joined = range-append f a (b - a) (end - b) in
    let joined' : count_if f (range a (b - a)) + count_if f (range b (end - b))
        ≡ count_if f (range a (end - a)) =
      subst
        (λ s.
          count_if f (range a (b - a)) + count_if f (range s (end - b))
          ≡ count_if f (range a (end - a)))
        next
        (subst
          (λ s.
            count_if f (range a (b - a)) + count_if f (range (a + (b - a)) (end - b))
            ≡ count_if f (range a s))
          whole joined) in
    rw e (
      omega (
        arith,
        count_if-append (at_node g.pins v) (rounds_of_edge i (b - a) a)
            (edge_rounds g.xpins n (i + 1)),
        node_of_edge g.pins v i (b - a) a,
        node_of_edges g v n (i + 1) h (omega arith),
        joined',
      ))

edge_of_edge :
    (pins : List ℕ) (v e i n j : ℕ)
    → count_if (at_edge pins v e) (rounds_of_edge i n j)
      ≡ (if i == e then count v (pins_from pins j n) else 0)
edge_of_edge pins v e i zero j = ground arith
edge_of_edge pins v e i (suc n) j = ground (arith, edge_of_edge pins v e i n (j + 1))

-- How often a node stands in an edge.
pub edge_of_edges :
    (g : Hypergraph) (v e n i : ℕ)
    → count_if (at_edge g.pins v e) (edge_rounds g.xpins n i)
      ≡ (if leb i e && ltb e (i + n) then count v (edge_pins g e) else 0)
edge_of_edges g v e zero i = ground arith
edge_of_edges g v e (suc n) i =
    let here =
      edge_of_edge g.pins v e i (get_or g.xpins (i + 1) 0 - get_or g.xpins i 0)
        (get_or g.xpins i 0) in
    let same : i ≡ e → count v (edge_pins g i) ≡ count v (edge_pins g e) =
      ap (λ k. count v (edge_pins g k)) in
    let split =
      count_if-append (at_edge g.pins v e)
        (rounds_of_edge i (get_or g.xpins (i + 1) 0 - get_or g.xpins i 0) (get_or g.xpins i 0))
        (edge_rounds g.xpins n (i + 1)) in
    ground (arith, here, same, split, edge_of_edges g v e n (i + 1))

pub pins_of_node :
    (g : Hypergraph) (v : ℕ)
    → IsHypergraph g
    → count_if (at_node g.pins v) (edge_rounds g.xpins g.n 0)
      ≡ count_if (λ j. get_or g.pins j 0 == v) (range 0 (get_or g.xpins g.n 0))
pins_of_node g v p =
    let e : 0 + g.n ≡ g.n = omega arith in
    let last : get_or g.xpins (0 + g.n) 0 - get_or g.xpins 0 0 ≡ get_or g.xpins g.n 0 =
      ap (λ k. get_or g.xpins k 0 - get_or g.xpins 0 0) e ∙ omega (arith, p.first) in
    node_of_edges g v g.n 0 p.ordered (omega arith)
    ∙ ap
        (λ a.
          count_if (λ j. get_or g.pins j 0 == v)
            (range a (get_or g.xpins (0 + g.n) 0 - get_or g.xpins 0 0)))
        p.first
    ∙ ap (λ n. count_if (λ j. get_or g.pins j 0 == v) (range 0 n)) last
