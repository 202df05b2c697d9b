-- ===== src/Partition/Split/Sorted.antt =====
-- partition/src/partition.cpp, split_edge: where the pins of an edge go.
use native.Mathlib.Decide.{dec_lt}
use mathlib.Core.List.{append-nil, append_assoc}
use max_embed.Prelude.{
  ℕ, zero, suc, ◌+◌, ◌-◌, ◌≤◌, ◌<◌, ◌≡◌, refl, sym, ◌∙◌, ap, Bool, true, false, List, [], ◌∷◌, ◌++◌,
  arith, leb, ltb, ◌&&◌, if◌then◌else◌, length, length-append, length-set, length-replicate, get_or,
  get_or-set, get_or-append_left, get_or-append_last, set, replicate, ==_of_eq, ==_of_ne,
  Bool-cases, inl, inr,
}
use max_embed.Partition.{Edge, u16}
use max_embed.Partition.Split.{Sides, place, place_all, copy_back, sides, sort_pins}

-- The pins at the `n` positions from `i` on.
abbrev pub pins_from : List ℕ → ℕ → ℕ → List ℕ
pins_from pins i zero = []
pins_from pins i (suc n) = get_or pins i 0 ∷ pins_from pins (i + 1) n

-- The pins of one side, in order.
pub of_side : (ℕ → Bool) → Bool → List ℕ → List ℕ
of_side info true [] = []
of_side info true (x ∷ xs) = if info x then x ∷ of_side info true xs else of_side info true xs
of_side info false [] = []
of_side info false (x ∷ xs) = if info x then of_side info false xs else x ∷ of_side info false xs

length-of_side :
    (info : ℕ → Bool) (xs : List ℕ)
    → length (of_side info false xs) + length (of_side info true xs) ≡ length xs
unfolding of_side
length-of_side info [] = refl
length-of_side info (x ∷ xs) = ground (arith, length-of_side info xs)

-- temp_pins with `zeros` from the front and `ones` from the back.
pub record IsSorted (size : ℕ) (zeros ones : List ℕ) (s : Sides) : Type 0 where
  pub wide : size ≤ length s.temp
  pub count_0 : s.part_0_cnt ≡ length zeros
  pub count_1 : s.part_1_cnt ≡ length ones
  pub front : (j : ℕ) → j < length zeros → get_or s.temp j 0 ≡ get_or zeros j 0
  pub back : (j : ℕ) → j < length ones → get_or s.temp (size - j - 1) 0 ≡ get_or ones j 0

module _ (info : ℕ → Bool) (size : ℕ) (zeros ones : List ℕ) (x : ℕ) (s : Sides)
    (small : size < 65536) (room : length zeros + length ones < size)
    (p : IsSorted size zeros ones s) where
  place_0 : info x ≡ false → IsSorted size (zeros ++ x ∷ []) ones (place info size x s)
  unfolding place
  place_0 e =
      let at = λ (j : ℕ). get_or-set s.temp s.part_0_cnt j x 0 (omega (arith, p.wide, p.count_0)) in
      rw (e, place)
        (record {
          wide = omega (arith, p.wide, length-set s.temp s.part_0_cnt x);
          count_0 = omega (arith, p.count_0, length-append zeros (x ∷ []));
          count_1 = p.count_1;
          front = λ j h. elim (dec_lt j (length zeros)) [
            | yes old ↦
                at j
                ∙ rw (==_of_ne s.part_0_cnt j (λ q. omega (arith, p.count_0)))
                    (p.front j old ∙ sym (get_or-append_left zeros (x ∷ []) j 0 old))
            | no new ↦
                let here : j ≡ length zeros = omega (arith, length-append zeros (x ∷ [])) in
                at j
                ∙ rw (==_of_eq s.part_0_cnt j (omega (arith, p.count_0, here)))
                    (sym (get_or-append_last zeros x j 0 here))
          ];
          back = λ j h.
              at (size - j - 1)
              ∙ rw (==_of_ne s.part_0_cnt (size - j - 1) (λ q. omega (arith, p.count_0)))
                  (p.back j h);
        })

  place_1 : info x ≡ true → IsSorted size zeros (ones ++ x ∷ []) (place info size x s)
  unfolding place
  place_1 e =
      let slot = size - s.part_1_cnt - 1 in
      let at = λ (j : ℕ). get_or-set s.temp slot j x 0 (omega (arith, p.wide, p.count_1)) in
      rw (e, place)
        (record {
          wide = omega (arith, p.wide, length-set s.temp slot x);
          count_0 = p.count_0;
          count_1 = omega (arith, p.count_1, length-append ones (x ∷ []));
          front = λ j h. at j ∙ rw (==_of_ne slot j (λ q. omega (arith, p.count_1))) (p.front j h);
          back = λ j h. elim (dec_lt j (length ones)) [
            | yes old ↦
                at (size - j - 1)
                ∙ rw (==_of_ne slot (size - j - 1) (λ q. omega (arith, p.count_1)))
                    (p.back j old ∙ sym (get_or-append_left ones (x ∷ []) j 0 old))
            | no new ↦
                let here : j ≡ length ones = omega (arith, length-append ones (x ∷ [])) in
                at (size - j - 1)
                ∙ rw (==_of_eq slot (size - j - 1) (omega (arith, p.count_1, here)))
                    (sym (get_or-append_last ones x j 0 here))
          ];
        })

-- After the loop over the pins.
place_all-IsSorted :
    (info : ℕ → Bool) (size : ℕ) (pins : List ℕ) (n i : ℕ) (zeros ones : List ℕ) (s : Sides)
    → size < 65536
    → length zeros + length ones + n ≤ size
    → IsSorted size zeros ones s
    → IsSorted size
        (zeros ++ of_side info false (pins_from pins i n))
        (ones ++ of_side info true (pins_from pins i n))
        (place_all info size pins n i s)
unfolding place_all of_side
place_all-IsSorted info size pins zero i zeros ones s small room p =
    rw (append-nil zeros, append-nil ones) p
place_all-IsSorted info size pins (suc n) i zeros ones s small room p =
    let x = get_or pins i 0 in
    let rest = pins_from pins (i + 1) n in
    let s' = place info size x s in
    elim (Bool-cases (info x)) [
      | inl e ↦
          let ih =
            place_all-IsSorted info size pins n (i + 1) zeros (ones ++ x ∷ []) s' small
              (omega (arith, length-append ones (x ∷ [])))
              (place_1 info size zeros ones x s small (omega arith) p e) in
          rw (e, of_side) (rw (append_assoc ones (x ∷ []) (of_side info true rest)) at ih)
      | inr e ↦
          let ih =
            place_all-IsSorted info size pins n (i + 1) (zeros ++ x ∷ []) ones s' small
              (omega (arith, length-append zeros (x ∷ [])))
              (place_0 info size zeros ones x s small (omega arith) p e) in
          rw (e, of_side) (rw (append_assoc zeros (x ∷ []) (of_side info false rest)) at ih)
    ]

pub length-pins_from : (pins : List ℕ) (i n : ℕ) → length (pins_from pins i n) ≡ n
length-pins_from pins i zero = refl
length-pins_from pins i (suc n) = ap suc (length-pins_from pins (i + 1) n)

get_or-copy_back :
    (temp : List ℕ) (first n j : ℕ) (pins : List ℕ) (m : ℕ)
    → j + first + n ≤ length pins
    → get_or (copy_back temp first n j pins) m 0 ≡ (
        if leb (j + first) m && ltb m (j + first + n)
        then get_or temp (m - first) 0
        else get_or pins m 0)
unfolding copy_back
get_or-copy_back temp first zero j pins m h = ground arith
get_or-copy_back temp first (suc n) j pins m h =
    let pins' = set pins (j + first) (get_or temp j 0) in
    let ih =
      get_or-copy_back temp first n (j + 1) pins' m
        (omega (arith, length-set pins (j + first) (get_or temp j 0))) in
    let at = get_or-set pins (j + first) m (get_or temp j 0) 0 (omega arith) in
    let here : j + first ≡ m → get_or temp j 0 ≡ get_or temp (m - first) 0 =
      λ e. ap (λ k. get_or temp k 0) (omega arith) in
    ground (arith, ih, at, here)

-- An edge of fewer than 2 ^ 16 pins, no longer than the longest edge, keeps its pins: those of side
-- 0 come first and in order, those of side 1 after them and in reverse. The counters say how many
-- there are of each, and no other pin moves.
pub sort_pins-sides :
    (longest_edge : ℕ) (info : ℕ → Bool) (pins : List ℕ) (e : Edge) (m : ℕ)
    → e.first ≤ e.second
    → e.second ≤ length pins
    → e.second - e.first < 65536
    → e.second - e.first ≤ longest_edge
    → let xs = pins_from pins e.first (e.second - e.first) in
      let zeros = of_side info false xs in
      let ones = of_side info true xs in
      (get_or (sort_pins longest_edge info pins e) m 0 ≡ (
        if leb e.first m && ltb m e.second
        then if ltb (m - e.first) (length zeros)
          then get_or zeros (m - e.first) 0
          else get_or ones (e.second - m - 1) 0
        else get_or pins m 0))
      × ((sides longest_edge info pins e).part_0_cnt ≡ length zeros)
      × ((sides longest_edge info pins e).part_1_cnt ≡ length ones)
      × (length zeros + length ones ≡ e.second - e.first)
unfolding sort_pins sides
sort_pins-sides longest_edge info pins e m le inside small fits =
    let size = e.second - e.first in
    let xs = pins_from pins e.first size in
    let zeros = of_side info false xs in
    let ones = of_side info true xs in
    let none_yet : ℕ = 0 in
    let blank = length-replicate longest_edge none_yet in
    let start : Sides = record {
      temp = replicate longest_edge 0;
      part_0_cnt = 0;
      part_1_cnt = 0;
    } in
    let p : IsSorted size zeros ones (place_all info size pins size e.first start) =
      place_all-IsSorted info size pins size e.first [] [] start small (omega arith) (record {
        wide = omega (arith, blank);
        count_0 = refl;
        count_1 = refl;
        front = λ j h. elim h [ ];
        back = λ j h. elim h [ ];
      }) in
    let keep : u16 size ≡ size = omega arith in
    let total = length-of_side info xs ∙ length-pins_from pins e.first size in
    let s = place_all info size pins size e.first start in
    let copied = get_or-copy_back s.temp e.first size 0 pins m (omega arith) in
    let low = p.front (m - e.first) in
    let high = p.back (e.second - m - 1) in
    let flip : e.first ≤ m
        → m < e.second
        → get_or s.temp (size - (e.second - m - 1) - 1) 0 ≡ get_or s.temp (m - e.first) 0 =
      λ a b. ap (λ k. get_or s.temp k 0) (omega arith) in
    rw keep (ground (arith, copied, low, high, flip, total), p.count_0, p.count_1, total)
