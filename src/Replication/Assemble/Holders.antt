-- ===== src/Replication/Assemble/Holders.antt =====
-- partition/src/replication_step.cpp, main: node_info, the further pages of every node.
use native.Mathlib.Decide.{dec_lt}
use mathlib.Core.List.{append-nil, append_assoc}
use max_embed.Prelude.{
  ℕ, zero, suc, ◌+◌, ◌*◌, ◌≤◌, ◌≡◌, refl, sym, ◌∙◌, ap, false, List, [], ◌∷◌, ◌++◌, some, arith,
  get_or, ◌-◌, leb, ◌&&◌, ltb, le→ltb, ◌==◌, if◌then◌else◌, to_ℕ, length, All, elem, count,
  Bool-cases, inl, inr, elem_of_count-zero,
}
use max_embed.Partition.{update}
use max_embed.Replication.Assemble.{push_all, distribute}

-- A page with each node once, and no more nodes than fit.
abbrev pub IsPage : ℕ → List ℕ → Type 0
IsPage cnt_per_part rep = ((k : ℕ) → count k rep ≤ 1) × (length rep ≤ cnt_per_part)

-- The numbers of the pages that hold a node; the first page has the number `i + exist`.
abbrev pub holders : ℕ → List (List ℕ) → ℕ → ℕ → List ℕ
holders exist [] i k = []
holders exist (rep ∷ reps) i k =
    if elem k rep then (i + exist) ∷ holders exist reps (i + 1) k else holders exist reps (i + 1) k

push_all-lem :
    (part : ℕ) (rep : List ℕ) (node_info : ℕ → List ℕ) (k : ℕ)
    → count k rep ≤ 1
    → push_all part rep node_info k ≡ (if elem k rep then node_info k ++ part ∷ [] else node_info k)
unfolding push_all
push_all-lem part [] node_info k h = refl
push_all-lem part (x ∷ rep) node_info k h =
    let next = update node_info x (node_info x ++ part ∷ []) in
    let none_left : x ≡ k → elem k rep ≡ false = λ e. elem_of_count-zero k rep (ground arith) in
    let same : x ≡ k → node_info x ≡ node_info k = ap node_info in
    ground (arith, push_all-lem part rep next k, none_left, same)

-- With pages that fit, the loop ends without the error.
pub distribute-holders :
    (cnt_per_part exist : ℕ) (reps : List (List ℕ)) (i : ℕ) (node_info : ℕ → List ℕ)
    → All (IsPage cnt_per_part) reps
    → (after : ℕ → List ℕ) × (distribute cnt_per_part exist reps i node_info ≡ some after)
      × ((k : ℕ) → after k ≡ node_info k ++ holders exist reps i k)
unfolding distribute
distribute-holders cnt_per_part exist [] i node_info h =
    (node_info, refl, λ k. sym (append-nil (node_info k)))
distribute-holders cnt_per_part exist (rep ∷ reps) i node_info h =
    let next = push_all (i + exist) rep node_info in
    let (after, path, is) = distribute-holders cnt_per_part exist reps (i + 1) next h.1 in
    (
      after,
      rw (le→ltb cnt_per_part (length rep) h.0.1) path,
      λ k. elim (Bool-cases (elem k rep)) [
        | inl e ↦
            let here : next k ≡ node_info k ++ (i + exist) ∷ [] =
              push_all-lem (i + exist) rep node_info k (h.0.0 k) ∙ rw e in
            let joined =
              append_assoc (node_info k) ((i + exist) ∷ []) (holders exist reps (i + 1) k) in
            is k ∙ ap (λ xs. xs ++ holders exist reps (i + 1) k) here ∙ rw e joined
        | inr e ↦
            let here : next k ≡ node_info k =
              push_all-lem (i + exist) rep node_info k (h.0.0 k) ∙ rw e in
            is k ∙ ap (λ xs. xs ++ holders exist reps (i + 1) k) here ∙ rw e
      ],
    )

-- A page number stands among a node's just when the page holds the node.
pub count-holders :
    (exist : ℕ) (reps : List (List ℕ)) (i k b : ℕ)
    → count b (holders exist reps i k) ≡ (
        if leb (i + exist) b && ltb b (i + exist + length reps)
        then to_ℕ (elem k (get_or reps (b - (i + exist)) []))
        else 0)
count-holders exist [] i k b = ground arith
count-holders exist (rep ∷ reps) i k b =
    let ih = count-holders exist reps (i + 1) k b in
    elim (dec_lt (i + exist) b) [
      | yes above ↦
          let e : b - (i + exist) ≡ suc (b - (i + 1 + exist)) = omega arith in
          rw e (ground (arith, ih))
      | no here ↦ let e : b - (i + exist) ≡ 0 = omega arith in rw e (ground (arith, ih))
    ]

-- The sum of a function over the nodes i, i + 1, …, `n` of them.
abbrev pub total : (ℕ → ℕ) → ℕ → ℕ → ℕ
total f zero i = 0
total f (suc n) i = f i + total f n (i + 1)

pub total-le : (f g : ℕ → ℕ) (n i : ℕ) → ((k : ℕ) → f k ≤ g k) → total f n i ≤ total g n i
total-le f g zero i h = omega arith
total-le f g (suc n) i h = omega (arith, h i, total-le f g n (i + 1) h)

total-add : (f g : ℕ → ℕ) (n i : ℕ) → total (λ k. f k + g k) n i ≡ total f n i + total g n i
total-add f g zero i = omega arith
total-add f g (suc n) i = omega (arith, total-add f g n (i + 1))

total_zero : (n i : ℕ) → total (λ k. 0) n i ≡ 0
total_zero zero i = refl
total_zero (suc n) i = omega (arith, total_zero n (i + 1))

total_one : (x n i : ℕ) → total (λ k. to_ℕ (x == k)) n i ≤ (if ltb x i then 0 else 1)
total_one x zero i = ground arith
total_one x (suc n) i = ground (arith, total_one x n (i + 1))

total-elem : (rep : List ℕ) (n i : ℕ) → total (λ k. to_ℕ (elem k rep)) n i ≤ length rep
total-elem [] n i = omega (arith, total_zero n i)
total-elem (x ∷ rep) n i =
    let split : (k : ℕ) → to_ℕ (elem k (x ∷ rep)) ≤ to_ℕ (x == k) + to_ℕ (elem k rep) =
      λ k. ground arith in
    let one : total (λ k. to_ℕ (x == k)) n i ≤ 1 = ground (arith, total_one x n i) in
    omega (
      arith,
      total-le (λ k. to_ℕ (elem k (x ∷ rep))) (λ k. to_ℕ (x == k) + to_ℕ (elem k rep)) n i split,
      total-add (λ k. to_ℕ (x == k)) (λ k. to_ℕ (elem k rep)) n i,
      one,
      total-elem rep n i,
    )

-- All nodes together stand on the pages no more often than the pages have places.
pub total-holders :
    (cnt_per_part exist : ℕ) (reps : List (List ℕ)) (j n i : ℕ)
    → All (IsPage cnt_per_part) reps
    → total (λ k. length (holders exist reps j k)) n i ≤ length reps * cnt_per_part
total-holders cnt_per_part exist [] j n i h = omega (arith, total_zero n i)
total-holders cnt_per_part exist (rep ∷ reps) j n i h =
    let rest = λ (k : ℕ). length (holders exist reps (j + 1) k) in
    let split : (k : ℕ) → length (holders exist (rep ∷ reps) j k) ≤ to_ℕ (elem k rep) + rest k =
      λ k. ground arith in
    grind (
      arith,
      total-le (λ k. length (holders exist (rep ∷ reps) j k)) (λ k. to_ℕ (elem k rep) + rest k) n i
          split,
      total-add (λ k. to_ℕ (elem k rep)) rest n i,
      total-elem rep n i,
      total-holders cnt_per_part exist reps (j + 1) n i h.1,
      h.0.1,
    )
