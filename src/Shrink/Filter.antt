-- ===== src/Shrink/Filter.antt =====
-- partition/src/shrink_replication.cpp: the loops that leave replicas out.
use mathlib.Core.List.{append-nil, append_assoc}
use max_embed.Prelude.{
  ℕ, zero, suc, ◌+◌, ◌^◌, ◌≤◌, ◌<◌, ◌≡◌, refl, sym, ◌∙◌, ap, subst, All, All-append, List, [], ◌∷◌,
  ◌++◌, arith, ltb, if◌then◌else◌, get_or, length, length-append, Bool-cases, inl, inr,
}
use max_embed.Mapper.Invert.{blocks_from}
use max_embed.Packed.{IsPacked, row-IsPacked}
use max_embed.Shrink.{MappingInfo, Shrunk, shrink_node, shrink_all, collect_node, collect_parts}

-- The parts below `tar`.
abbrev pub below : ℕ → List ℕ → List ℕ
below tar [] = []
below tar (p ∷ ps) = if ltb p tar then p ∷ below tar ps else below tar ps

-- The parts that the read mapping gives a node.
abbrev pub parts_of_node : MappingInfo → ℕ → List ℕ
parts_of_node info i = blocks_from info.mapping (get_or info.cnt i 0) (get_or info.idx i 0)

shrink_node-below :
    (tar : ℕ) (mapping : List ℕ) (n at : ℕ) (new_mapping : List ℕ) (cnt : ℕ)
    → let kept = below tar (blocks_from mapping n at) in
      shrink_node tar mapping n at (new_mapping, cnt) ≡ (new_mapping ++ kept, cnt + length kept)
unfolding shrink_node
shrink_node-below tar mapping zero at new_mapping cnt =
    let z : cnt ≡ cnt + 0 = omega arith in
    ap (λ xs. (xs, cnt)) (sym (append-nil new_mapping)) ∙ ap (λ m. (new_mapping ++ [], m)) z
shrink_node-below tar mapping (suc n) at new_mapping cnt =
    let part = get_or mapping at 0 in
    let kept = below tar (blocks_from mapping n (at + 1)) in
    elim (Bool-cases (ltb part tar)) [
      | inl e ↦
          let len : cnt + 1 + length kept ≡ cnt + suc (length kept) = omega arith in
          rw (e, shrink_node)
            (shrink_node-below tar mapping n (at + 1) (new_mapping ++ part ∷ []) (cnt + 1)
              ∙ ap (λ m. ((new_mapping ++ part ∷ []) ++ kept, m)) len
              ∙ ap (λ xs. (xs, cnt + suc (length kept)))
                  (append_assoc new_mapping (part ∷ []) kept))
      | inr e ↦ rw (e, shrink_node) (shrink_node-below tar mapping n (at + 1) new_mapping cnt)
    ]

-- One node.
shrink_node-kept :
    (tar : ℕ) (info : MappingInfo) (i : ℕ) (new_mapping : List ℕ)
    → let kept = below tar (parts_of_node info i) in
      shrink_node tar info.mapping (get_or info.cnt i 0) (get_or info.idx i 0) (new_mapping, 0)
      ≡ (new_mapping ++ kept, length kept)
shrink_node-kept tar info i new_mapping =
    let kept = below tar (parts_of_node info i) in
    let z : 0 + length kept ≡ length kept = omega arith in
    shrink_node-below tar info.mapping (get_or info.cnt i 0) (get_or info.idx i 0) new_mapping 0
    ∙ ap (λ m. (new_mapping ++ kept, m)) z

-- The vectors with one node more.
abbrev with_node : ℕ → MappingInfo → ℕ → Shrunk → Shrunk
with_node tar info i s =
    let kept = below tar (parts_of_node info i) in
    record {
      new_idx = s.new_idx ++ length s.new_mapping ∷ [];
      new_cnt = s.new_cnt ++ length kept ∷ [];
      new_mapping = s.new_mapping ++ kept;
    }

shrink_all-node :
    (tar : ℕ) (info : MappingInfo) (n i : ℕ) (s : Shrunk)
    → shrink_all tar info (suc n) i s ≡ shrink_all tar info n (i + 1) (with_node tar info i s)
unfolding shrink_all
shrink_all-node tar info n i s = rw (shrink_node-kept tar info i s.new_mapping) refl

-- The vectors after the first `i` nodes.
abbrev pub IsShrunk : ℕ → MappingInfo → ℕ → Shrunk → Type 0
IsShrunk tar info i s =
    IsPacked (λ k. below tar (parts_of_node info k)) i s.new_idx s.new_cnt s.new_mapping

pub shrink_all-IsShrunk :
    (tar : ℕ) (info : MappingInfo) (n i : ℕ) (s : Shrunk)
    → IsShrunk tar info i s
    → IsShrunk tar info (i + n) (shrink_all tar info n i s)
unfolding shrink_all
shrink_all-IsShrunk tar info zero i s p =
    let e : i ≡ i + 0 = omega arith in subst (λ m. IsShrunk tar info m s) e p
shrink_all-IsShrunk tar info (suc n) i s p =
    let e : i + 1 + n ≡ i + suc n = omega arith in
    let next = with_node tar info i s in
    let ih = shrink_all-IsShrunk tar info n (i + 1) next (
      row-IsPacked (λ k. below tar (parts_of_node info k)) i s.new_idx s.new_cnt s.new_mapping p) in
    let moved = subst (λ m. IsShrunk tar info m (shrink_all tar info n (i + 1) next)) e ih in
    subst (IsShrunk tar info (i + suc n)) (sym (shrink_all-node tar info n i s)) moved

length-below :
    (tar : ℕ) (mapping : List ℕ) (n j : ℕ) → length (below tar (blocks_from mapping n j)) ≤ n
length-below tar mapping zero j = omega arith
length-below tar mapping (suc n) j = ground (arith, length-below tar mapping n (j + 1))

-- What is left is no longer than what was counted.
pub length-shrink_all :
    (tar : ℕ) (info : MappingInfo) (n i : ℕ) (s : Shrunk) (parts : List (ℕ × List ℕ)) (tot_cnt : ℕ)
    → length (shrink_all tar info n i s).new_mapping + tot_cnt
      ≤ length s.new_mapping + (collect_parts info n i parts tot_cnt).1
unfolding shrink_all collect_parts
length-shrink_all tar info zero i s parts tot_cnt = omega arith
length-shrink_all tar info (suc n) i s parts tot_cnt =
    let kept = below tar (parts_of_node info i) in
    let cnt = get_or info.cnt i 0 in
    let ih =
      length-shrink_all tar info n (i + 1) (with_node tar info i s)
        (collect_node info.mapping i cnt (get_or info.idx i 0) parts) (tot_cnt + cnt) in
    omega (
      arith,
      ih,
      ap (λ r. length r.new_mapping) (shrink_all-node tar info n i s),
      length-append s.new_mapping kept,
      length-below tar info.mapping cnt (get_or info.idx i 0),
    )

-- The numbers of 32 bits stay such.
below_small :
    (tar : ℕ) (mapping : List ℕ) (n j : ℕ)
    → ((k : ℕ) → get_or mapping k 0 < 2 ^ 32)
    → All (λ b. b < 2 ^ 32) (below tar (blocks_from mapping n j))
below_small tar mapping zero j h = tt
below_small tar mapping (suc n) j h = elim (Bool-cases (ltb (get_or mapping j 0) tar)) [
  | inl e ↦ rw e (h j, below_small tar mapping n (j + 1) h)
  | inr e ↦ rw e (below_small tar mapping n (j + 1) h)
]

pub shrink_all_small :
    (tar : ℕ) (info : MappingInfo) (n i : ℕ) (s : Shrunk)
    → ((k : ℕ) → get_or info.mapping k 0 < 2 ^ 32)
    → All (λ b. b < 2 ^ 32) s.new_mapping
    → All (λ b. b < 2 ^ 32) (shrink_all tar info n i s).new_mapping
unfolding shrink_all
shrink_all_small tar info zero i s h all = all
shrink_all_small tar info (suc n) i s h all =
    let kept = below tar (parts_of_node info i) in
    let joined =
      All-append (λ b. b < 2 ^ 32) s.new_mapping kept all
        (below_small tar info.mapping (get_or info.cnt i 0) (get_or info.idx i 0) h) in
    let ih = shrink_all_small tar info n (i + 1) (with_node tar info i s) h joined in
    subst (λ r. All (λ b. b < 2 ^ 32) r.new_mapping) (sym (shrink_all-node tar info n i s)) ih
