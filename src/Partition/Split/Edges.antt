-- ===== src/Partition/Split/Edges.antt =====
-- partition/src/partition.cpp, split_edge: what all the edges hold afterwards.
use max_embed.Prelude.{
  ℕ, ◌+◌, ◌-◌, ◌≤◌, ◌<◌, ◌≡◌, refl, sym, ◌∙◌, ap, Bool, true, false, List, [], ◌∷◌, arith, ltb,
  length, get_or, map, Bool-cases, inl, inr,
}
use max_embed.Partition.{Edge}
use max_embed.Partition.Split.{sides, sort_pins, keep_edge, split_edge}
use max_embed.Partition.Split.Sorted.{pins_from, of_side}
use max_embed.Partition.Split.Lists.{
  pins_of, reversed, length-reversed, long, IsChain, pins_from-agree, length-sort_pins, IsSplit,
  edge-IsSplit,
}

module _ (longest_edge size : ℕ) (info : ℕ → Bool) where
  IsSplit-first :
      (from : ℕ) (e : Edge) (es : List Edge) (pins : List ℕ)
      → size ≤ length pins
      → IsChain longest_edge size from (e ∷ es)
      → IsSplit longest_edge info pins e
  IsSplit-first from e es pins wide c =
      edge-IsSplit longest_edge info pins e c.1 (omega (arith, c.2)) c.3 c.4

  wide-sort_pins :
      (pins : List ℕ) (e : Edge)
      → size ≤ length pins
      → size ≤ length (sort_pins longest_edge info pins e)
  wide-sort_pins pins e wide = omega (arith, length-sort_pins longest_edge info pins e)

  -- The pins before the first edge stay.
  kept-split_edge :
      (from : ℕ) (es : List Edge) (pins : List ℕ) (m : ℕ)
      → size ≤ length pins
      → IsChain longest_edge size from es
      → m < from
      → get_or (split_edge longest_edge info es pins).pins m 0 ≡ get_or pins m 0
  unfolding split_edge
  kept-split_edge from [] pins m wide c h = refl
  kept-split_edge from (e ∷ es) pins m wide c h =
      kept-split_edge e.second es (sort_pins longest_edge info pins e) m
        (wide-sort_pins pins e wide) c.5 (omega (arith, c.0, c.1))
      ∙ (IsSplit-first from e es pins wide c).outside m (ground (arith, c.0))

  -- Sorting an edge leaves the later edges' pins.
  later-sort_pins :
      (f : List ℕ → List ℕ) (from : ℕ) (es : List Edge) (pins : List ℕ) (e : Edge)
      → IsSplit longest_edge info pins e
      → e.second ≤ from
      → IsChain longest_edge size from es
      → map (λ e'. f (pins_of (sort_pins longest_edge info pins e) e')) es
        ≡ map (λ e'. f (pins_of pins e')) es
  later-sort_pins f from [] pins e s le c = refl
  later-sort_pins f from (e' ∷ es) pins e s le c =
      let sorted = sort_pins longest_edge info pins e in
      let here : pins_of sorted e' ≡ pins_of pins e' =
        pins_from-agree sorted pins e'.first (e'.second - e'.first)
          (λ m a b. s.outside m (ground (arith, c.0))) in
      let rest = later-sort_pins f e'.second es pins e s (omega (arith, c.0, c.1)) c.5 in
      ap (λ xs. f xs ∷ map (λ x. f (pins_of sorted x)) es) here
      ∙ ap (λ xss. f (pins_of pins e') ∷ xss) rest

  map-keep_edge :
      (f : Edge → List ℕ) (n : ℕ) (e : Edge) (es : List Edge) (xs : List ℕ) (xss : List (List ℕ))
      → length xs ≡ n
      → f e ≡ xs
      → map f es ≡ long xss
      → map f (keep_edge n e es) ≡ long (xs ∷ xss)
  map-keep_edge f n e es xs xss len here rest = elim (Bool-cases (ltb 1 n)) [
    | inl b ↦ rw (len, b) (ap (λ ys. ys ∷ map f es) here ∙ ap (λ yss. xs ∷ yss) rest)
    | inr b ↦ rw (len, b) rest
  ]

  -- A range of the first edge, after all edges are done.
  first-split_edge :
      (e : Edge) (es : List Edge) (sorted : List ℕ) (a b n : ℕ) (xs : List ℕ)
      → size ≤ length sorted
      → IsChain longest_edge size e.second es
      → b - a ≡ n
      → b ≤ e.second
      → pins_from sorted a n ≡ xs
      → pins_of (split_edge longest_edge info es sorted).pins (record { first = a; second = b })
        ≡ xs
  first-split_edge e es sorted a b n xs wide c len le is =
      let final = (split_edge longest_edge info es sorted).pins in
      pins_from-agree final sorted a (b - a)
        (λ m lo hi. kept-split_edge e.second es sorted m wide c (omega arith))
      ∙ ap (pins_from sorted a) len
      ∙ is

  lists_from :
      (from : ℕ) (es : List Edge) (pins : List ℕ)
      → size ≤ length pins
      → IsChain longest_edge size from es
      → let s = split_edge longest_edge info es pins in
        (map (pins_of s.pins) s.edges_1 ≡ long (map (λ e. of_side info false (pins_of pins e)) es))
        × (map (pins_of s.pins) s.edges_2
            ≡ long (map (λ e. reversed (of_side info true (pins_of pins e))) es))
  unfolding split_edge
  lists_from from [] pins wide c = (refl, refl)
  lists_from from (e ∷ es) pins wide c =
      let sorted = sort_pins longest_edge info pins e in
      let zeros = of_side info false (pins_of pins e) in
      let ones = of_side info true (pins_of pins e) in
      let final = (split_edge longest_edge info es sorted).pins in
      let split = IsSplit-first from e es pins wide c in
      let wide' = wide-sort_pins pins e wide in
      let ih = lists_from e.second es sorted wide' c.5 in
      let later = λ (f : List ℕ → List ℕ).
        ap long (later-sort_pins f e.second es pins e split (omega arith) c.5) in
      let n0 = (sides longest_edge info pins e).part_0_cnt in
      let n1 = (sides longest_edge info pins e).part_1_cnt in
      let cut : e.first + n0 + n1 ≡ e.second =
        omega (arith, split.count_0, split.count_1, split.total, c.1) in
      (
        map-keep_edge (pins_of final) n0 _ _ zeros
            (map (λ x. of_side info false (pins_of pins x)) es) (sym split.count_0)
            (first-split_edge e es sorted e.first (e.first + n0) n0 zeros wide' c.5 (omega arith)
              (omega (arith, cut)) (ap (pins_from sorted e.first) split.count_0 ∙ split.front))
            (ih.0 ∙ later (of_side info false)),
        map-keep_edge (pins_of final) n1 _ _ (reversed ones)
            (map (λ x. reversed (of_side info true (pins_of pins x))) es)
            (length-reversed ones ∙ sym split.count_1)
            (first-split_edge e es sorted (e.first + n0) e.second n1 (reversed ones) wide' c.5
              (omega (arith, cut)) (omega arith)
              (ap (λ n. pins_from sorted (e.first + n) n1) split.count_0
                ∙ ap (pins_from sorted (e.first + length zeros)) split.count_1
                ∙ split.back))
            (ih.1 ∙ later (λ xs. reversed (of_side info true xs))),
      )

  chains_from :
      (from : ℕ) (es : List Edge) (pins : List ℕ)
      → size ≤ length pins
      → IsChain longest_edge size from es
      → let s = split_edge longest_edge info es pins in
        IsChain longest_edge size from s.edges_1 × IsChain longest_edge size from s.edges_2
  unfolding split_edge
  chains_from from [] pins wide c = (tt, tt)
  chains_from from (e ∷ es) pins wide c =
      let split = IsSplit-first from e es pins wide c in
      let ih =
        chains_from e.second es (sort_pins longest_edge info pins e) (wide-sort_pins pins e wide)
          c.5 in
      let n0 = (sides longest_edge info pins e).part_0_cnt in
      let n1 = (sides longest_edge info pins e).part_1_cnt in
      let cut : e.first + n0 + n1 ≡ e.second =
        omega (arith, split.count_0, split.count_1, split.total, c.1) in
      (
        keep_edge-IsChain n0 from e.first (e.first + n0) e.second _ (omega (arith, c.0))
            (omega arith) (omega (arith, cut)) c.2 (omega (arith, cut, c.3))
            (omega (arith, cut, c.4)) ih.0,
        keep_edge-IsChain n1 from (e.first + n0) e.second e.second _ (omega (arith, c.0))
            (omega (arith, cut)) (omega arith) c.2 (omega (arith, cut, c.3))
            (omega (arith, cut, c.4)) ih.1,
      )
    where
      IsChain-earlier :
          (a b : ℕ) (es : List Edge)
          → a ≤ b
          → IsChain longest_edge size b es
          → IsChain longest_edge size a es
      IsChain-earlier a b [] h c = tt
      IsChain-earlier a b (e ∷ es) h c = (omega (arith, c.0), c.1, c.2, c.3, c.4, c.5)

      keep_edge-IsChain :
          (n from a b last : ℕ) (es : List Edge)
          → from ≤ a
          → a ≤ b
          → b ≤ last
          → last ≤ size
          → b - a < 65536
          → b - a ≤ longest_edge
          → IsChain longest_edge size last es
          → IsChain longest_edge size from (keep_edge n (record { first = a; second = b }) es)
      keep_edge-IsChain n from a b last es fa ab bl ls small fits c = elim (Bool-cases (ltb 1 n)) [
        | inl e ↦ rw e (fa, ab, omega arith, small, fits, IsChain-earlier b last es bl c)
        | inr e ↦ rw e (IsChain-earlier from last es (omega arith) c)
      ]

-- Where the edges are disjoint ranges from left to right that fit the counters, split_edge makes of
-- each edge an edge with its pins of side 0, in order, and one with its pins of side 1, in reverse,
-- leaving out those of fewer than two pins.
pub split_edge-lists :
    (longest_edge : ℕ) (info : ℕ → Bool) (es : List Edge) (pins : List ℕ)
    → IsChain longest_edge (length pins) 0 es
    → let s = split_edge longest_edge info es pins in
      (map (pins_of s.pins) s.edges_1 ≡ long (map (λ e. of_side info false (pins_of pins e)) es))
      × (map (pins_of s.pins) s.edges_2
          ≡ long (map (λ e. reversed (of_side info true (pins_of pins e))) es))
split_edge-lists longest_edge info es pins c =
    lists_from longest_edge (length pins) info 0 es pins (omega arith) c

-- The edges of either side are again disjoint ranges from left to right that fit the counters.
pub split_edge-IsChain :
    (longest_edge : ℕ) (info : ℕ → Bool) (es : List Edge) (pins : List ℕ)
    → IsChain longest_edge (length pins) 0 es
    → let s = split_edge longest_edge info es pins in
      IsChain longest_edge (length pins) 0 s.edges_1
      × IsChain longest_edge (length pins) 0 s.edges_2
split_edge-IsChain longest_edge info es pins c =
    chains_from longest_edge (length pins) info 0 es pins (omega arith) c
