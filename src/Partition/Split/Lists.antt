-- ===== src/Partition/Split/Lists.antt =====
-- partition/src/partition.cpp, split_edge: the edges it makes, as lists of pins.
use native.Mathlib.Decide.{dec_lt}
use max_embed.Prelude.{
  ℕ, zero, suc, ◌+◌, ◌-◌, ◌≤◌, ◌<◌, ◌≡◌, refl, sym, ◌∙◌, ap, Bool, true, false, List, [], ◌∷◌, ◌++◌,
  arith, leb, ltb, ◌&&◌, if◌then◌else◌, length, length-append, get_or, get_or-append_left,
  get_or-append_last, set, length-set,
}
use max_embed.Partition.{Edge, u16}
use max_embed.Partition.Split.{copy_back, sides, sort_pins}
use max_embed.Partition.Split.Sorted.{pins_from, of_side, sort_pins-sides}

abbrev pub pins_of : List ℕ → Edge → List ℕ
pins_of pins e = pins_from pins e.first (e.second - e.first)

abbrev pub reversed : List ℕ → List ℕ
reversed [] = []
reversed (x ∷ xs) = reversed xs ++ x ∷ []

-- The lists of more than one pin.
abbrev pub long : List (List ℕ) → List (List ℕ)
long [] = []
long (xs ∷ xss) = if ltb 1 (length xs) then xs ∷ long xss else long xss

-- The edges are ranges of p_pins from left to right, none too long for the 16-bit counters or for
-- temp_pins. The first starts at `from` or later, and p_pins has `size` places.
abbrev pub IsChain : ℕ → ℕ → ℕ → List Edge → Type 0
IsChain longest_edge size from [] = Unit
IsChain longest_edge size from (e ∷ es) =
    (from ≤ e.first)
    × (e.first ≤ e.second)
    × (e.second ≤ size)
    × (e.second - e.first < 65536)
    × (e.second - e.first ≤ longest_edge)
    × IsChain longest_edge size e.second es

pub length-reversed : (xs : List ℕ) → length (reversed xs) ≡ length xs
length-reversed [] = refl
length-reversed (x ∷ xs) = omega (arith, length-append (reversed xs) (x ∷ []), length-reversed xs)

get_or-reversed :
    (xs : List ℕ) (j : ℕ)
    → j < length xs
    → get_or (reversed xs) j 0 ≡ get_or xs (length xs - j - 1) 0
get_or-reversed [] j h = absurd (omega arith)
get_or-reversed (x ∷ xs) j h = elim (dec_lt j (length xs)) [
  | yes early ↦
      get_or-append_left (reversed xs) (x ∷ []) j 0 (omega (arith, length-reversed xs))
      ∙ get_or-reversed xs j early
      ∙ sym (ap (λ k. get_or (x ∷ xs) k 0) (at early))
  | no late ↦
      get_or-append_last (reversed xs) x j 0 (omega (arith, length-reversed xs))
      ∙ sym (ap (λ k. get_or (x ∷ xs) k 0) (last late))
]
  where
    at : j < length xs → length (x ∷ xs) - j - 1 ≡ suc (length xs - j - 1)
    at early = omega arith

    last : ¬ (j < length xs) → length (x ∷ xs) - j - 1 ≡ 0
    last late = omega arith

-- A list that agrees with p_pins from `i` on.
pins_from-eq :
    (pins : List ℕ) (i n : ℕ) (xs : List ℕ)
    → length xs ≡ n
    → ((j : ℕ) → j < n → get_or pins (i + j) 0 ≡ get_or xs j 0)
    → pins_from pins i n ≡ xs
pins_from-eq pins i zero [] len h = refl
pins_from-eq pins i zero (x ∷ xs) len h = absurd (omega arith)
pins_from-eq pins i (suc n) [] len h = absurd (omega arith)
pins_from-eq pins i (suc n) (x ∷ xs) len h =
    ap (λ y. y ∷ pins_from pins (i + 1) n)
      (ap (λ k. get_or pins k 0) (omega arith) ∙ h 0 (omega arith))
    ∙ ap (λ ys. x ∷ ys)
        (pins_from-eq pins (i + 1) n xs (omega arith)
          (λ j l. ap (λ k. get_or pins k 0) (omega arith) ∙ h (suc j) (omega arith)))

pub pins_from-agree :
    (pins pins' : List ℕ) (i n : ℕ)
    → ((m : ℕ) → i ≤ m → m < i + n → get_or pins m 0 ≡ get_or pins' m 0)
    → pins_from pins i n ≡ pins_from pins' i n
pins_from-agree pins pins' i zero h = refl
pins_from-agree pins pins' i (suc n) h =
    ap (λ y. y ∷ pins_from pins (i + 1) n) (h i (omega arith) (omega arith))
    ∙ ap (λ ys. get_or pins' i 0 ∷ ys)
        (pins_from-agree pins pins' (i + 1) n (λ m a b. h m (omega arith) (omega arith)))

length-copy_back :
    (temp : List ℕ) (first n j : ℕ) (pins : List ℕ)
    → length (copy_back temp first n j pins) ≡ length pins
unfolding copy_back
length-copy_back temp first zero j pins = refl
length-copy_back temp first (suc n) j pins =
    length-copy_back temp first n (j + 1) (set pins (j + first) (get_or temp j 0))
    ∙ length-set pins (j + first) (get_or temp j 0)

pub length-sort_pins :
    (longest_edge : ℕ) (info : ℕ → Bool) (pins : List ℕ) (e : Edge)
    → length (sort_pins longest_edge info pins e) ≡ length pins
unfolding sort_pins
length-sort_pins longest_edge info pins e =
    length-copy_back (sides longest_edge info pins e).temp e.first (u16 (e.second - e.first)) 0 pins

-- One edge of the chain.
pub record IsSplit (longest_edge : ℕ) (info : ℕ → Bool) (pins : List ℕ) (e : Edge) : Type 0 where
  pub count_0 :
      (sides longest_edge info pins e).part_0_cnt ≡ length (of_side info false (pins_of pins e))
  pub count_1 :
      (sides longest_edge info pins e).part_1_cnt ≡ length (of_side info true (pins_of pins e))
  pub total :
      length (of_side info false (pins_of pins e)) + length (of_side info true (pins_of pins e))
      ≡ e.second - e.first
  pub front :
      pins_from
        (sort_pins longest_edge info pins e)
        e.first
        (length (of_side info false (pins_of pins e)))
      ≡ of_side info false (pins_of pins e)
  pub back :
      pins_from
        (sort_pins longest_edge info pins e)
        (e.first + length (of_side info false (pins_of pins e)))
        (length (of_side info true (pins_of pins e)))
      ≡ reversed (of_side info true (pins_of pins e))
  pub outside :
      (m : ℕ)
      → (leb e.first m && ltb m e.second) ≡ false
      → get_or (sort_pins longest_edge info pins e) m 0 ≡ get_or pins m 0

pub edge-IsSplit :
    (longest_edge : ℕ) (info : ℕ → Bool) (pins : List ℕ) (e : Edge)
    → e.first ≤ e.second
    → e.second ≤ length pins
    → e.second - e.first < 65536
    → e.second - e.first ≤ longest_edge
    → IsSplit longest_edge info pins e
edge-IsSplit longest_edge info pins e le inside small fits =
    let zeros = of_side info false (pins_of pins e) in
    let ones = of_side info true (pins_of pins e) in
    let sorted = sort_pins longest_edge info pins e in
    let at = λ (m : ℕ). sort_pins-sides longest_edge info pins e m le inside small fits in
    let (here, c0, c1, total) = at 0 in
    let low : (j : ℕ) → j < length zeros → get_or sorted (e.first + j) 0 ≡ get_or zeros j 0 = λ j h.
      let same : (e.first + j) - e.first ≡ j = omega arith in
      let look = (at (e.first + j)).0 in let look' = rw same at look in ground (arith, look') in
    let high : (j : ℕ)
        → j < length ones
        → get_or sorted (e.first + length zeros + j) 0 ≡ get_or (reversed ones) j 0 =
      λ j h.
        let m = e.first + length zeros + j in
        let same : e.second - m - 1 ≡ length ones - j - 1 = omega arith in
        let look = (at m).0 in
        let look' = rw same at look in ground (arith, look', get_or-reversed ones j h) in
    record {
      count_0 = c0;
      count_1 = c1;
      total = total;
      front = pins_from-eq sorted e.first (length zeros) zeros refl low;
      back =
          pins_from-eq sorted (e.first + length zeros) (length ones) (reversed ones)
            (length-reversed ones) high;
      outside = λ m h. let look = (at m).0 in ground (arith, look, h);
    }
