-- ===== src/PartitionStep/Pages.antt =====
-- partition/src/partition_step.cpp and client/src/mapper.cpp: the pages of the SSD that
-- follow from a partition.
use max_embed.Prelude.{
  ℕ, zero, suc, ◌+◌, ◌-◌, ◌^◌, ◌≤◌, ◌<◌, ◌≡◌, refl, true, ◌∙◌, ap, List, [], ◌∷◌, some, arith, ltb,
  ◌==◌, if◌then◌else◌, to_ℕ, get_or, length, map, replicate, count, length_of_count-le, All, ◌++◌,
  subst, Bool-cases, inl, inr,
}
use max_embed.Mapper.{Tables, construct}
use max_embed.Mapper.File.{open_mapping}
use max_embed.Mapper.Invert.{IsWellFormed, candidates, count-construct, construct-some}
use max_embed.Partition.Split.Lists.{IsChain}
use max_embed.Partition.{Runtime, Edge, State}
use max_embed.Partition.Divide.Tally.{tally}
use max_embed.Partition.Whole.{Partitioned, partition}
use max_embed.Partition.Whole.Rest.{range, count-range}
use max_embed.Partition.Whole.Parts.{appeared_nodes, partition_balanced}
use max_embed.PartitionStep.{Hypergraph, Related, relate, write_mapping, partition_step}
use max_embed.PartitionStep.RoundTrip.{single, open_mapping-write_mapping}

get_or-range : (i n j : ℕ) → j < n → get_or (range i n) j 0 ≡ i + j
get_or-range i zero j h = absurd (omega arith)
get_or-range i (suc n) zero h = omega arith
get_or-range i (suc n) (suc j) h = omega (arith, get_or-range (i + 1) n j)

pub get_or-map-range : (f : ℕ → ℕ) (i n j : ℕ) → j < n → get_or (map f (range i n)) j 0 ≡ f (i + j)
get_or-map-range f i zero j h = absurd (omega arith)
get_or-map-range f i (suc n) zero h = ap f (omega arith)
get_or-map-range f i (suc n) (suc j) h =
    let e : i + 1 + j ≡ i + suc j = omega arith in
    get_or-map-range f (i + 1) n j (omega arith) ∙ ap f e

get_or-replicate : (n v j : ℕ) → j < n → get_or (replicate n v) j 0 ≡ v
get_or-replicate zero v j h = absurd (omega arith)
get_or-replicate (suc n) v zero h = refl
get_or-replicate (suc n) v (suc j) h = get_or-replicate n v j (omega arith)

-- The one block of a node.
candidates-single :
    (c : ℕ) (part : ℕ → ℕ) (k : ℕ) → k < c → candidates (single c part) k ≡ part k ∷ []
candidates-single c part k h =
    let e : 0 + k ≡ k = omega arith in
    rw (get_or-replicate c 1 k h, get_or-range 0 c k h, e)
      (ap (λ b. b ∷ []) (get_or-map-range part 0 c k h ∙ ap part e))

map-range_small :
    (part : ℕ → ℕ) (i n j : ℕ)
    → ((k : ℕ) → k < i + n → part k + 1 < 2 ^ 32)
    → get_or (map part (range i n)) j 0 + 1 < 2 ^ 32
map-range_small part i zero j h = omega arith
map-range_small part i (suc n) zero h = h i (omega arith)
map-range_small part i (suc n) (suc j) h =
    map-range_small part (i + 1) n j (λ k l. h k (omega arith))

single-IsWellFormed :
    (c : ℕ) (part : ℕ → ℕ) → ((k : ℕ) → k < c → part k + 1 < 2 ^ 32) → IsWellFormed (single c part)
single-IsWellFormed c part small = record {
  in_range = λ i h. omega (arith, get_or-replicate c 1 i h, get_or-range 0 c i h);
  placed = λ i h. omega (arith, get_or-replicate c 1 i h);
  small = λ j. map-range_small part 0 c j (λ k l. small k (omega arith));
}

-- The nodes of a part among others.
select : (ℕ → ℕ) → ℕ → List ℕ → List ℕ
select part id [] = []
select part id (k ∷ ks) = if part k == id then k ∷ select part id ks else select part id ks

length-select :
    (part : ℕ → ℕ) (id : ℕ) (ks : List ℕ) → length (select part id ks) ≡ tally part id ks
unfolding select
length-select part id [] = refl
length-select part id (k ∷ ks) = ground (arith, length-select part id ks)

count-select :
    (part : ℕ → ℕ) (id k : ℕ) (ks : List ℕ)
    → (part k == id) ≡ true
    → count k (select part id ks) ≡ count k ks
unfolding select
count-select part id k [] h = refl
count-select part id k (j ∷ ks) h =
    let same : j ≡ k → part j ≡ part k = ap part in
    ground (arith, count-select part id k ks h, same)

-- Nodes of one part, each once, are no more than the part has.
pub length_of_part :
    (part : ℕ → ℕ) (b c : ℕ) (items : List ℕ)
    → ((k : ℕ) → count k items ≤ (if ltb k c then to_ℕ (part k == b) else 0))
    → length items ≤ tally part b (range 0 c)
length_of_part part b c items h =
    let chosen = select part b (range 0 c) in
    let each : (k : ℕ) → count k items ≤ count k chosen =
      λ k. ground (arith, h k, count-select part b k (range 0 c), count-range 0 c k) in
    omega (arith, length_of_count-le items chosen each, length-select part b (range 0 c))

module _ (c : ℕ) (part : ℕ → ℕ) (t : Tables) (small : (k : ℕ) → k < c → part k + 1 < 2 ^ 32)
    (built : construct (single c part) c ≡ some t) where
  count-single :
      (b k : ℕ)
      → count k (get_or t.block_to_elem b []) ≡ (if ltb k c then to_ℕ (part k == b) else 0)
  count-single b k =
      let all = count-construct (single c part) c t (single-IsWellFormed c part small) built b k in
      let one : k < c → count b (candidates (single c part) k) ≡ to_ℕ (part k == b) =
        λ h. ap (count b) (candidates-single c part k h) ∙ omega arith in
      ground (arith, all, one)

  -- A block holds no more items than the part has nodes.
  length-block : (b : ℕ) → length (get_or t.block_to_elem b []) ≤ tally part b (range 0 c)
  length-block b =
      length_of_part part b c (get_or t.block_to_elem b []) (λ k. omega (arith, count-single b k))

-- What partition_step writes, from what partition returns.
written :
    (R : Runtime) (g : Hypergraph) (cnt_per_part : ℕ) (st : State R.Float) (p : Partitioned)
    → let r = relate g.xpins g.n 0 (record { related_edge = []; longest_edge = 0 }) in
      partition R g.c r.related_edge r.longest_edge cnt_per_part
          (record st { pins = g.pins; partition = λ k. 2 ^ 64 - 1 })
        ≡ some p
      → partition_step R g cnt_per_part st ≡ some (write_mapping g.c p.part)
unfolding partition_step
written R g cnt_per_part st p e = rw (e, partition_step)

-- The nodes that stand in some edge of two pins or more.
abbrev pub edge_nodes : Hypergraph → List ℕ
edge_nodes g =
    (appeared_nodes g.pins
      (relate g.xpins g.n 0 (record { related_edge = []; longest_edge = 0 })).related_edge
      g.c).front

-- A hypergraph that fits partition's arrays: its edges lie in pins from left to right, none has more
-- than 65535 pins, and all pins are below c.
pub record IsPartitionable (g : Hypergraph) : Type 0 where
  pub ordered : (i : ℕ) → i < g.n → get_or g.xpins i 0 ≤ get_or g.xpins (i + 1) 0
  pub short : (i : ℕ) → i < g.n → get_or g.xpins (i + 1) 0 - get_or g.xpins i 0 < 65536
  pub within : get_or g.xpins g.n 0 ≤ length g.pins
  pub nodes : All (λ k. k < g.c) g.pins

IsChain-mono :
    (l l' size size' from : ℕ) (es : List Edge)
    → l ≤ l'
    → size ≤ size'
    → IsChain l size from es
    → IsChain l' size' from es
IsChain-mono l l' size size' from [] a b h = tt
IsChain-mono l l' size size' from (e ∷ es) a b (x, y, z, u, v, rest) = (
  x,
  y,
  omega (arith, z, b),
  u,
  omega (arith, v, a),
  IsChain-mono l l' size size' e.second es a b rest,
)

IsChain-append :
    (l size from : ℕ) (es : List Edge) (d : Edge) (top : ℕ)
    → IsChain l size from es
    → from ≤ size
    → size ≤ d.first
    → d.first ≤ d.second
    → d.second ≤ top
    → d.second - d.first < 65536
    → d.second - d.first ≤ l
    → IsChain l top from (es ++ d ∷ [])
IsChain-append l size from [] d top h a b c e s m = (omega (arith, a, b), c, e, s, m, tt)
IsChain-append l size from (x ∷ es) d top (p, q, r, u, v, rest) a b c e s m = (
  p,
  q,
  omega (arith, r, b, c, e),
  u,
  v,
  IsChain-append l size x.second es d top rest r b c e s m,
)

longer :
    (l second first : ℕ) (es : List Edge)
    → first ≤ second
    → second - first < 65536
    → IsChain l first 0 es
    → IsChain
        (if ltb l (second - first) then second - first else l)
        second
        0
        (es ++ record { first = first; second = second } ∷ [])
longer l second first es up short h =
    let l' = if ltb l (second - first) then second - first else l in
    let more : l ≤ l' = ground arith in
    let enough : second - first ≤ l' = ground arith in
    IsChain-append l' first 0 es (record { first = first; second = second }) second
      (IsChain-mono l l' first first 0 es more (omega arith) h) (omega arith) (omega arith) up
      (omega arith) short enough

relate-IsChain :
    (g : Hypergraph) (n i : ℕ) (r : Related)
    → IsPartitionable g
    → i + n ≡ g.n
    → IsChain r.longest_edge (get_or g.xpins i 0) 0 r.related_edge
    → let r' = relate g.xpins n i r in
      IsChain r'.longest_edge (get_or g.xpins g.n 0) 0 r'.related_edge
unfolding relate
relate-IsChain g zero i r p e h =
    let same : i ≡ g.n = omega (arith, e) in
    subst (λ k. IsChain r.longest_edge (get_or g.xpins k 0) 0 r.related_edge) same h
relate-IsChain g (suc n) i r p e h =
    let first = get_or g.xpins i 0 in
    let second = get_or g.xpins (i + 1) 0 in
    let up = p.ordered i (omega (arith, e)) in
    let short = p.short i (omega (arith, e)) in
    relate-IsChain g n (i + 1) _ p (omega (arith, e)) (elim (Bool-cases (ltb (second - first) 2)) [
      | inl small ↦ rw small (
          IsChain-mono r.longest_edge r.longest_edge first second 0 r.related_edge (omega arith) up
            h)
      | inr large ↦ rw large (longer r.longest_edge second first r.related_edge up short h)
    ])

-- partition_step writes the mapping of parts that fit.
pub partition_step-parts :
    (R : Runtime) (g : Hypergraph) (cnt_per_part : ℕ) (st : State R.Float)
    → 0 < cnt_per_part
    → 0 < length (edge_nodes g)
    → IsPartitionable g
    → (part : ℕ → ℕ) × (partition_step R g cnt_per_part st ≡ some (write_mapping g.c part))
      × ((k : ℕ) → k < g.c → part k ≤ g.c)
      × ((b : ℕ) → tally part b (range 0 g.c) ≤ cnt_per_part)
partition_step-parts R g cnt_per_part st pos some_node sound =
    let r = relate g.xpins g.n 0 (record { related_edge = []; longest_edge = 0 }) in
    let start = record st { pins = g.pins; partition = λ k. 2 ^ 64 - 1 } in
    let (p, e, numbered, last, bounded) =
      partition_balanced R g.c r.related_edge r.longest_edge cnt_per_part start pos some_node
        (IsChain-mono r.longest_edge r.longest_edge (get_or g.xpins g.n 0) (length g.pins) 0
          r.related_edge (omega arith) sound.within
          (relate-IsChain g g.n 0 (record { related_edge = []; longest_edge = 0 }) sound
            (omega arith) tt))
        sound.nodes in
    (p.part, written R g cnt_per_part st p e, λ k h. omega (arith, numbered k h, last), bounded)

-- From a hypergraph of fewer than 2 ^ 31 nodes with an edge of two pins, whose edges lie in its pins
-- one after the other, with no more than 65535 pins each and all pins below c, partition_step writes a
-- mapping file. The client opens it without a failed CHECK, and in the tables that it builds no
-- block holds more than cnt_per_part items, and every node is in one block once and in no other.
pub pages_fit :
    (R : Runtime) (g : Hypergraph) (cnt_per_part : ℕ) (st : State R.Float)
    → 0 < cnt_per_part
    → g.c < 2 ^ 31
    → 0 < length (edge_nodes g)
    → IsPartitionable g
    → (words : List ℕ) × (t : Tables) × (part : ℕ → ℕ) × (partition_step R g cnt_per_part st
        ≡ some words)
      × (construct (open_mapping words) g.c ≡ some t)
      × ((b : ℕ) → length (get_or t.block_to_elem b []) ≤ cnt_per_part)
      × ((b k : ℕ)
          → count k (get_or t.block_to_elem b []) ≡ (if ltb k g.c then to_ℕ (part k == b) else 0))
pages_fit R g cnt_per_part st pos few some_node sound =
    let (part, e, numbered, bounded) =
      partition_step-parts R g cnt_per_part st pos some_node sound in
    let small : (k : ℕ) → k < g.c → part k + 1 < 2 ^ 32 = λ k h. omega (arith, numbered k h, few) in
    let opened = open_mapping-write_mapping g.c part few (λ k h. omega (arith, small k h)) in
    let (t, built) = construct-some (single g.c part) g.c refl in
    (
      write_mapping g.c part,
      t,
      part,
      e,
      ap (λ f. construct f g.c) opened ∙ built,
      λ b. omega (arith, length-block g.c part t small built b, bounded b),
      count-single g.c part t small built,
    )
