-- ===== src/Partition/Divide/Arith.antt =====
-- The arithmetic of the bisections.
use native.Mathlib.Nat.{
  mul-le-mul_right, lt_of_mul-lt-mul_right, le-div_iff_mul-le, mul-pos, div-mul-le_self,
  lt-div-mul-add,
}
use native.Mathlib.Decide.{dec_lt, ℕ_discrete}
use max_embed.Prelude.{
  ℕ, suc, ◌+◌, ◌-◌, ◌*◌, ◌/◌, ◌≤◌, ◌<◌, ◌≡◌, arith, lt→ltb, le→ltb, ap, ==_of_eq, ==_of_ne,
}
use max_embed.Partition.Divide.{mid_offset, start_offset}

-- `m` is the number of parts of at most `ub` nodes that `n` nodes need.
pub record IsCeil (n ub m : ℕ) : Type 0 where
  pub enough : n ≤ m * ub
  pub tight : m * ub < n + ub

pub le_of_mul : (ub m k : ℕ) → m * ub < k * ub + ub → m ≤ k
le_of_mul ub m k h =
    let below : m < suc k = lt_of_mul-lt-mul_right ub (omega (arith, h)) in omega arith

pub IsCeil-unique : (n ub m k : ℕ) → IsCeil n ub m → IsCeil n ub k → m ≡ k
IsCeil-unique n ub m k p q = omega (
  arith,
  le_of_mul ub m k (omega (arith, p.tight, q.enough)),
  le_of_mul ub k m (omega (arith, q.tight, p.enough)),
)

-- A side that is a multiple of the bound wastes nothing.
pub IsCeil-exact : (ub m k : ℕ) → 0 < ub → IsCeil (k * ub) ub m → m ≡ k
IsCeil-exact ub m k pos p =
    IsCeil-unique (k * ub) ub m k p (record { enough = omega arith; tight = omega arith })

-- One part holds what fits it.
pub IsCeil-one : (n ub m : ℕ) → 0 < n → n ≤ ub → IsCeil n ub m → m ≡ 1
IsCeil-one n ub m pos fits p =
    IsCeil-unique n ub m 1 p (record { enough = omega arith; tight = omega arith })

half_pos : (len ub : ℕ) → 0 < ub → 2 * ub ≤ len → 0 < len / (2 * ub)
half_pos len ub pos big =
    (le-div_iff_mul-le {k = 2 * ub} {x = 1} {y = len} (omega arith)).1 (omega arith)

pub mid_offset_bounds :
    (len ub : ℕ) → 0 < ub → ub < len → (0 < mid_offset len ub) × (mid_offset len ub < len)
unfolding mid_offset
mid_offset_bounds len ub pos big = elim (dec_lt len (2 * ub)) [
  | yes small ↦ rw (lt→ltb _ _ small) (omega arith, omega arith)
  | no large ↦
      let q = len / (2 * ub) in
      let some_part : 0 < q = half_pos len ub pos (omega arith) in
      let wide : 0 < q * ub = mul-pos some_part pos in
      rw (le→ltb len (2 * ub) (omega arith))
        (wide, omega (arith, wide, div-mul-le_self len (2 * ub)))
]

-- The parts of the two sides add up to the parts of the whole.
pub IsCeil-mid_offset :
    (len ub m k : ℕ)
    → 0 < ub
    → ub < len
    → IsCeil (mid_offset len ub) ub m
    → IsCeil (len - mid_offset len ub) ub k
    → IsCeil len ub (m + k)
unfolding mid_offset
IsCeil-mid_offset len ub m k pos big p q = elim (dec_lt len (2 * ub)) [
  | yes small ↦
      let p' : IsCeil (len / 2) ub m = rw (lt→ltb _ _ small) at p in
      let q' : IsCeil (len - len / 2) ub k = rw (lt→ltb _ _ small) at q in
      let one = IsCeil-one (len / 2) ub m (omega arith) (omega arith) p' in
      let one' = IsCeil-one (len - len / 2) ub k (omega arith) (omega arith) q' in
      rw (one, one') (record { enough = omega arith; tight = omega arith })
  | no large ↦
      let n = len / (2 * ub) in
      let p' : IsCeil (n * ub) ub m = rw (le→ltb len (2 * ub) (omega arith)) at p in
      let q' : IsCeil (len - n * ub) ub k = rw (le→ltb len (2 * ub) (omega arith)) at q in
      let exact = IsCeil-exact ub m n pos p' in
      let fits = div-mul-le_self len (2 * ub) in
      rw exact
        (record { enough = omega (arith, q'.enough, fits); tight = omega (arith, q'.tight, fits) })
]

-- The parts on the right, where the left takes `q` of them.
right_parts :
    (rest low k q parts : ℕ)
    → 0 < low
    → q ≤ parts
    → rest + q * low ≡ parts * low
    → IsCeil rest low k
    → q + k ≡ parts
right_parts rest low k q parts pos le e p =
    let d = parts - q in
    let whole : parts ≡ q + d = omega arith in
    let spread = ap (λ x. x * low) whole in
    let same : k ≡ d =
      IsCeil-unique rest low k d p
        (record { enough = omega (arith, spread); tight = omega (arith, spread, p) }) in
    omega (arith, same)

-- The sizes of divide_start's parts: either all are equal, or the larger exceeds the smaller by one.
pub start_sizes :
    (len parts : ℕ)
    → 0 < parts
    → parts ≤ len
    → let low = len / parts in
      let up = (len + parts - 1) / parts in
      (0 < low)
      × (low ≤ up)
      × (up ≤ low + 1)
      × (low * parts ≤ len)
      × (len < low * parts + parts)
      × (len ≤ up * parts)
start_sizes len parts pos fits =
    let low = len / parts in
    let up = (len + parts - 1) / parts in
    let l1 = div-mul-le_self len parts in
    let l2 = lt-div-mul-add {a = len} {b = parts} pos in
    let u1 = div-mul-le_self (len + parts - 1) parts in
    let u2 = lt-div-mul-add {a = len + parts - 1} {b = parts} pos in
    (
      (le-div_iff_mul-le {k = parts} {x = 1} {y = len} pos).1 (omega arith),
      le_of_mul parts low up (omega (arith, l1, u2)),
      le_of_mul parts up (low + 1) (omega (arith, l2, u1)),
      l1,
      l2,
      omega (arith, u2),
    )

-- divide_start: parts of the larger size on the left, parts of the smaller on the right, and
-- together as many as asked for.
pub start_offset_parts :
    (len parts m k : ℕ)
    → 0 < parts
    → parts ≤ len
    → IsCeil (start_offset len parts) ((len + parts - 1) / parts) m
    → IsCeil (len - start_offset len parts) (len / parts) k
    → m + k ≡ parts
unfolding start_offset
start_offset_parts len parts m k pos fits p q =
    let low = len / parts in
    let up = (len + parts - 1) / parts in
    let (low_pos, ge, le, l1, l2, u) = start_sizes len parts pos fits in
    elim (ℕ_discrete up low) [
      | yes e ↦
          let n = len / (2 * up) in
          let same = ap (λ x. x * parts) e in
          let p' : IsCeil (n * up) up m = rw (==_of_eq up low e) at p in
          let q' : IsCeil (len - n * up) low k = rw (==_of_eq up low e) at q in
          let exact = IsCeil-exact up m n (omega (arith, e)) p' in
          let fits' = div-mul-le_self len (2 * up) in
          let steps = ap (λ x. n * x) e in
          let few : n ≤ parts = le_of_mul low n parts (omega (arith, fits', same, l1, u, steps)) in
          rw exact (
            right_parts (len - n * up) low k n parts low_pos few
              (omega (arith, fits', same, l1, u, steps)) q')
      | no ne ↦
          let res = len - low * parts in
          let next : up ≡ low + 1 = omega arith in
          let p' : IsCeil (res * up) up m = rw (==_of_ne up low ne) at p in
          let q' : IsCeil (len - res * up) low k = rw (==_of_ne up low ne) at q in
          let exact = IsCeil-exact up m res (omega arith) p' in
          let wide = ap (λ x. res * x) next in
          let short : res * low ≤ parts * low = mul-le-mul_right low (omega arith) in
          rw exact (
            right_parts (len - res * up) low k res parts low_pos (omega arith)
              (omega (arith, wide, short)) q')
    ]

pub start_offset-le : (len parts : ℕ) → 0 < parts → parts ≤ len → start_offset len parts ≤ len
unfolding start_offset
start_offset-le len parts pos fits =
    let low = len / parts in
    let up = (len + parts - 1) / parts in
    let (low_pos, ge, le, l1, l2, u) = start_sizes len parts pos fits in
    elim (ℕ_discrete up low) [
      | yes e ↦ rw (==_of_eq up low e) (omega (arith, div-mul-le_self len (2 * up)))
      | no ne ↦
          let res = len - low * parts in
          let next : up ≡ low + 1 = omega arith in
          let wide = ap (λ x. res * x) next in
          let short : res * low ≤ parts * low = mul-le-mul_right low (omega arith) in
          rw (==_of_ne up low ne) (omega (arith, wide, short))
    ]
