-- ===== src/Mapper/Order.antt =====
-- client/src/mapper.cpp, BatchGet: the request's keys are sorted by the number of blocks that hold
-- them, ties by key, and made unique.
use max_embed.Prelude.{
  ℕ, ◌+◌, ◌≤◌, ◌≡◌, ◌≢◌, ◌∙◌, refl, Bool, true, false, List, [], ◌∷◌, arith, ltb, ◌==◌, ◌&&◌, ◌||◌,
  if◌then◌else◌, to_ℕ, All, All-map, get_or, length, count, elem,
}

-- The comparison that std::sort is given.
unfoldable pub before : List ℕ → ℕ → ℕ → Bool
before block_cnt x y =
    ltb (get_or block_cnt x 0) (get_or block_cnt y 0)
    || ((get_or block_cnt x 0 == get_or block_cnt y 0) && ltb x y)

unfoldable pub insert_key : List ℕ → ℕ → List ℕ → List ℕ
insert_key block_cnt x [] = x ∷ []
insert_key block_cnt x (y ∷ ys) =
    if before block_cnt y x then y ∷ insert_key block_cnt x ys else x ∷ y ∷ ys

-- std::sort: the comparison orders any two different keys, so every sort gives this list.
unfoldable pub sort_keys : List ℕ → List ℕ → List ℕ
sort_keys block_cnt [] = []
sort_keys block_cnt (x ∷ xs) = insert_key block_cnt x (sort_keys block_cnt xs)

-- order.erase(std::unique(…), order.end()): of neighbours that are equal, the last stays here.
unfoldable pub unique : List ℕ → List ℕ
unique [] = []
unique (x ∷ []) = x ∷ []
unique (x ∷ y ∷ ys) = let rest = unique (y ∷ ys) in if x == y then rest else x ∷ rest

unfoldable pub order_keys : List ℕ → List ℕ → List ℕ
order_keys block_cnt keys = unique (sort_keys block_cnt keys)

before_asym : (c : List ℕ) (x y : ℕ) → before c x y ≡ true → before c y x ≡ false
unfolding before
before_asym c x y h = ground arith

before_total : (c : List ℕ) (x y : ℕ) → before c x y ≡ false → before c y x ≡ false → x ≡ y
unfolding before
before_total c x y h k = ground arith

before_trans :
    (c : List ℕ) (x y z : ℕ) → before c z y ≡ false → before c y x ≡ false → before c z x ≡ false
unfolding before
before_trans c x y z h k = ground arith

-- No later key belongs before an earlier one.
abbrev pub IsOrdered : List ℕ → List ℕ → Type 0
IsOrdered c [] = Unit
IsOrdered c (x ∷ xs) = All (λ z. before c z x ≡ false) xs × IsOrdered c xs

All-insert_key :
    (c : List ℕ) (b x : ℕ) (ys : List ℕ)
    → before c x b ≡ false
    → All (λ z. before c z b ≡ false) ys
    → All (λ z. before c z b ≡ false) (insert_key c x ys)
unfolding insert_key
All-insert_key c b x [] h a = (h, tt)
All-insert_key c b x (y ∷ ys) h a = ground (arith, All-insert_key c b x ys h a.1)

insert_key-IsOrdered :
    (c : List ℕ) (x : ℕ) (ys : List ℕ) → IsOrdered c ys → IsOrdered c (insert_key c x ys)
unfolding insert_key
insert_key-IsOrdered c x [] o = (tt, tt)
insert_key-IsOrdered c x (y ∷ ys) o =
    let rest = insert_key-IsOrdered c x ys o.1 in
    let early = λ (e : before c y x ≡ true). All-insert_key c y x ys (before_asym c y x e) o.0 in
    let late : before c y x ≡ false → All (λ z. before c z x ≡ false) ys =
      λ e. All-map ys (λ z h. before_trans c x y z h e) o.0 in
    ground (arith, rest, early, late)

sort_keys-IsOrdered : (c : List ℕ) (xs : List ℕ) → IsOrdered c (sort_keys c xs)
unfolding sort_keys
sort_keys-IsOrdered c [] = tt
sort_keys-IsOrdered c (x ∷ xs) =
    insert_key-IsOrdered c x (sort_keys c xs) (sort_keys-IsOrdered c xs)

elem-insert_key :
    (c : List ℕ) (k x : ℕ) (ys : List ℕ)
    → elem k (insert_key c x ys) ≡ (if x == k then true else elem k ys)
unfolding insert_key
elem-insert_key c k x [] = refl
elem-insert_key c k x (y ∷ ys) = ground (arith, elem-insert_key c k x ys)

elem-sort_keys : (c : List ℕ) (k : ℕ) (xs : List ℕ) → elem k (sort_keys c xs) ≡ elem k xs
unfolding sort_keys
elem-sort_keys c k [] = refl
elem-sort_keys c k (x ∷ xs) =
    ground (arith, elem-sort_keys c k xs, elem-insert_key c k x (sort_keys c xs))

elem-unique : (k : ℕ) (xs : List ℕ) → elem k (unique xs) ≡ elem k xs
unfolding unique
elem-unique k [] = refl
elem-unique k (x ∷ []) = refl
elem-unique k (x ∷ y ∷ ys) = ground (arith, elem-unique k (y ∷ ys))

All-unique :
    (c : List ℕ) (b : ℕ) (xs : List ℕ)
    → All (λ z. before c z b ≡ false) xs
    → All (λ z. before c z b ≡ false) (unique xs)
unfolding unique
All-unique c b [] a = tt
All-unique c b (x ∷ []) a = a
All-unique c b (x ∷ y ∷ ys) a = ground (arith, All-unique c b (y ∷ ys) a.1)

unique-IsOrdered : (c : List ℕ) (xs : List ℕ) → IsOrdered c xs → IsOrdered c (unique xs)
unfolding unique
unique-IsOrdered c [] o = tt
unique-IsOrdered c (x ∷ []) o = o
unique-IsOrdered c (x ∷ y ∷ ys) o =
    ground (arith, unique-IsOrdered c (y ∷ ys) o.1, All-unique c x (y ∷ ys) o.0)

-- A key with only other, later keys behind it does not come again.
absent :
    (c : List ℕ) (x y : ℕ) (ys : List ℕ)
    → x ≢ y
    → before c y x ≡ false
    → All (λ z. before c z y ≡ false) ys
    → elem x ys ≡ false
absent c x y [] d h a = refl
absent c x y (z ∷ zs) d h a =
    let apart : z ≢ x = λ e. d (before_total c x y (rw e at a.0) h) in
    ground (arith, absent c x y zs d h a.1)

count-unique :
    (c : List ℕ) (k : ℕ) (xs : List ℕ) → IsOrdered c xs → count k (unique xs) ≡ to_ℕ (elem k xs)
unfolding unique
count-unique c k [] o = refl
count-unique c k (x ∷ []) o = ground arith
count-unique c k (x ∷ y ∷ ys) o =
    let gone : x ≢ y → x ≡ k → elem k ys ≡ false = λ d e. rw e at (absent c x y ys d o.0.0 o.1.0) in
    ground (arith, count-unique c k (y ∷ ys) o.1, gone)

length-insert_key : (c : List ℕ) (x : ℕ) (ys : List ℕ) → length (insert_key c x ys) ≡ length ys + 1
unfolding insert_key
length-insert_key c x [] = omega arith
length-insert_key c x (y ∷ ys) = ground (arith, length-insert_key c x ys)

length-sort_keys : (c : List ℕ) (xs : List ℕ) → length (sort_keys c xs) ≡ length xs
unfolding sort_keys
length-sort_keys c [] = refl
length-sort_keys c (x ∷ xs) =
    omega (arith, length-sort_keys c xs, length-insert_key c x (sort_keys c xs))

length-unique : (xs : List ℕ) → length (unique xs) ≤ length xs
unfolding unique
length-unique [] = omega arith
length-unique (x ∷ []) = omega arith
length-unique (x ∷ y ∷ ys) = ground (arith, length-unique (y ∷ ys))

-- The keys to serve are the request's keys, each once.
pub count-order_keys :
    (c : List ℕ) (k : ℕ) (keys : List ℕ) → count k (order_keys c keys) ≡ to_ℕ (elem k keys)
unfolding order_keys
count-order_keys c k keys =
    rw (count-unique c k (sort_keys c keys) (sort_keys-IsOrdered c keys), elem-sort_keys c k keys)

pub elem-order_keys :
    (c : List ℕ) (k : ℕ) (keys : List ℕ) → elem k (order_keys c keys) ≡ elem k keys
unfolding order_keys
elem-order_keys c k keys = elem-unique k (sort_keys c keys) ∙ elem-sort_keys c k keys

pub order_keys-IsOrdered : (c : List ℕ) (keys : List ℕ) → IsOrdered c (order_keys c keys)
unfolding order_keys
order_keys-IsOrdered c keys = unique-IsOrdered c (sort_keys c keys) (sort_keys-IsOrdered c keys)

pub length-order_keys : (c : List ℕ) (keys : List ℕ) → length (order_keys c keys) ≤ length keys
unfolding order_keys
length-order_keys c keys = omega (arith, length-unique (sort_keys c keys), length-sort_keys c keys)
