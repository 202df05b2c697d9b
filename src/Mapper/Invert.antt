-- ===== src/Mapper/Invert.antt =====
-- client/src/mapper.cpp: what the constructor's loops build from the mapping file.
use max_embed.Prelude.{
  ℕ, zero, suc, ◌+◌, ◌-◌, ◌^◌, ◌≤◌, ◌<◌, ◌≡◌, refl, List, [], ◌∷◌, ◌++◌, some, arith, ltb, leb,
  ◌==◌, ◌&&◌, if◌then◌else◌, to_ℕ, get_or, get_or-set, replicate, length, length-set,
  length-replicate, count, count-append, true, ap, ==→eq, ==_of_eq,
}
use max_embed.Mapper.{
  MappingFile, Tables, max_block, push_at, invert_item, invert, block_slots, construct,
}

-- The blocks that stand in `all_blocks` at the `n` positions from `j` on.
abbrev pub blocks_from : List ℕ → ℕ → ℕ → List ℕ
blocks_from all zero j = []
blocks_from all (suc n) j = get_or all j 0 ∷ blocks_from all n (j + 1)

-- The blocks that the file lists for an item.
abbrev pub candidates : MappingFile → ℕ → List ℕ
candidates f i = blocks_from f.all_blocks (get_or f.block_cnt i 0) (get_or f.block_idx i 0)

-- What the files that partition/ writes satisfy.
pub record IsWellFormed (f : MappingFile) : Type 0 where
  pub in_range :
      (i : ℕ) → i < f.item_cnt → get_or f.block_idx i 0 + get_or f.block_cnt i 0 ≤ f.all_blocks_cnt
  pub placed : (i : ℕ) → i < f.item_cnt → 0 < get_or f.block_cnt i 0
  pub small : (j : ℕ) → get_or f.all_blocks j 0 + 1 < 2 ^ 32

max_block_mono : (all : List ℕ) (n i m : ℕ) → m ≤ max_block all n i m
unfolding max_block
max_block_mono all zero i m = omega arith
max_block_mono all (suc n) i m =
    ground
      (arith, max_block_mono all n (i + 1) (if ltb m (get_or all i 0) then get_or all i 0 else m))

pub max_block_bounds :
    (all : List ℕ) (n i m j : ℕ) → i ≤ j → j < i + n → get_or all j 0 ≤ max_block all n i m
unfolding max_block
max_block_bounds all zero i m j h k = absurd (omega arith)
max_block_bounds all (suc n) i m j h k =
    let m' = if ltb m (get_or all i 0) then get_or all i 0 else m in
    ground (arith, max_block_mono all n (i + 1) m', max_block_bounds all n (i + 1) m' j)

pub max_block_small :
    (all : List ℕ) (n i m b : ℕ) → ((j : ℕ) → get_or all j 0 < b) → m < b → max_block all n i m < b
unfolding max_block
max_block_small all zero i m b h k = k
max_block_small all (suc n) i m b h k = max_block_small all n (i + 1) _ b h (ground (arith, h i))

get_or-replicate : {A : Type 0} (n i : ℕ) (d : A) → get_or (replicate n d) i d ≡ d
get_or-replicate zero i d = refl
get_or-replicate (suc n) zero d = refl
get_or-replicate (suc n) (suc i) d = get_or-replicate n i d

length-push_at : (elems : List (List ℕ)) (b i : ℕ) → length (push_at elems b i) ≡ length elems
unfolding push_at
length-push_at elems b i = length-set elems b _

count-push_at :
    (elems : List (List ℕ)) (b i c k : ℕ)
    → b < length elems
    → count k (get_or (push_at elems b i) c [])
      ≡ count k (get_or elems c []) + to_ℕ ((b == c) && (i == k))
unfolding push_at
count-push_at elems b i c k h = ground (
  arith,
  get_or-set elems b c (get_or elems b [] ++ i ∷ []) [] h,
  count-append k (get_or elems b []) (i ∷ []),
)

length-invert_item :
    (all : List ℕ) (i n j : ℕ) (elems : List (List ℕ))
    → length (invert_item all i n j elems) ≡ length elems
unfolding invert_item
length-invert_item all i zero j elems = refl
length-invert_item all i (suc n) j elems = omega (
  arith,
  length-invert_item all i n (j + 1) (push_at elems (get_or all j 0) i),
  length-push_at elems (get_or all j 0) i,
)

-- One item is added to each of its blocks, as often as the file lists the block for it.
count-invert_item :
    (all : List ℕ) (i n j : ℕ) (elems : List (List ℕ)) (c k : ℕ)
    → ((p : ℕ) → j ≤ p → p < j + n → get_or all p 0 < length elems)
    → count k (get_or (invert_item all i n j elems) c [])
      ≡ count k (get_or elems c []) + (if i == k then count c (blocks_from all n j) else 0)
unfolding invert_item
count-invert_item all i zero j elems c k h = ground arith
count-invert_item all i (suc n) j elems c k h =
    let elems' = push_at elems (get_or all j 0) i in
    let rest =
      count-invert_item all i n (j + 1) elems' c k
        (λ p a b. omega (arith, h p, length-push_at elems (get_or all j 0) i)) in
    ground
      (arith, rest, count-push_at elems (get_or all j 0) i c k (h j (omega arith) (omega arith)))

count-invert :
    (f : MappingFile) (n i : ℕ) (elems : List (List ℕ)) (c k : ℕ)
    → ((p : ℕ) → p < f.all_blocks_cnt → get_or f.all_blocks p 0 < length elems)
    → ((m : ℕ) → m < i + n → get_or f.block_idx m 0 + get_or f.block_cnt m 0 ≤ f.all_blocks_cnt)
    → count k (get_or (invert f n i elems) c [])
      ≡ count k (get_or elems c [])
        + (if leb i k && ltb k (i + n) then count c (candidates f k) else 0)
unfolding invert
count-invert f zero i elems c k h r = ground arith
count-invert f (suc n) i elems c k h r =
    let cnt = get_or f.block_cnt i 0 in
    let start = get_or f.block_idx i 0 in
    let elems' = invert_item f.all_blocks i cnt start elems in
    let rest =
      count-invert f n (i + 1) elems' c k
        (λ p a. omega (arith, h p, length-invert_item f.all_blocks i cnt start elems))
        (λ m a. r m (omega arith)) in
    let here =
      count-invert_item f.all_blocks i cnt start elems c k (λ p a b. h p (omega (arith, r i))) in
    let same : (i == k) ≡ true → count c (candidates f i) ≡ count c (candidates f k) =
      λ e. ap (λ m. count c (candidates f m)) (==→eq i k e) in
    ground (arith, rest, here, same)

slots_suffice :
    (f : MappingFile)
    → IsWellFormed f
    → (p : ℕ) → p < f.all_blocks_cnt
    → get_or f.all_blocks p 0 < block_slots f
unfolding block_slots
slots_suffice f w p h =
    let all = f.all_blocks in
    let n = f.all_blocks_cnt in
    let top =
      max_block_small all n 0 0 (2 ^ 32 - 1) (λ j. omega (arith, w.small j)) (omega arith) in
    omega (arith, max_block_bounds all n 0 0 p, top)

-- The tables that the constructor builds from a well-formed file: a block's list holds an item as
-- often as the file lists the block for the item, and no item past item_cnt.
pub count-construct :
    (f : MappingFile) (num_items : ℕ) (t : Tables)
    → IsWellFormed f
    → construct f num_items ≡ some t
    → (c k : ℕ)
    → count k (get_or t.block_to_elem c [])
      ≡ (if ltb k f.item_cnt then count c (candidates f k) else 0)
unfolding construct
count-construct f num_items t w e c k =
    let nothing : List ℕ = [] in
    let empty = replicate (block_slots f) nothing in
    let built =
      count-invert f f.item_cnt 0 empty c k
        (λ p a. omega (arith, slots_suffice f w p a, length-replicate (block_slots f) nothing))
        (λ m a. w.in_range m (omega arith)) in
    let start = ap (count k) (get_or-replicate (block_slots f) c nothing) in
    ground (arith, built, start)

-- The constructor checks only the number of items.
pub construct-some :
    (f : MappingFile) (n : ℕ) → f.item_cnt ≡ n → (t : Tables) × (construct f n ≡ some t)
unfolding construct
construct-some f n e =
    let h : (f.item_cnt == n) ≡ true = ==_of_eq f.item_cnt n e in
    (
      record { file = f; block_to_elem = invert f f.item_cnt 0 (replicate (block_slots f) []) },
      rw (h, construct),
    )
