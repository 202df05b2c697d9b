-- ===== src/Partition/Divide/Join.antt =====
-- partition/src/partition.cpp, divide: ranges that are numbered one after the other.
use native.Mathlib.Decide.{dec_lt}
use max_embed.Prelude.{
  ℕ, ◌+◌, ◌≤◌, ◌<◌, ◌≡◌, refl, ◌∙◌, ap, true, false, List, [], ◌∷◌, ◌++◌, arith, if◌then◌else◌,
  length, count, elem, count-append, count-pos_of_elem, elem_of_count-pos, count-eq-zero,
  elem_of_count-zero, Bool-cases, inl, inr,
}
use max_embed.Partition.{State, update}
use max_embed.Partition.Divide.{assign}
use max_embed.Partition.Divide.Arith.{IsCeil}
use max_embed.Partition.Divide.Tally.{
  tally, tally-append, tally_of_count, tally_agree, tally_none, tally-le-length,
}

abbrev pub IsDistinct : List ℕ → Type 0
IsDistinct nodes = (k : ℕ) → count k nodes ≤ 1

-- The nodes got new part numbers, at most `bound` nodes each; nothing else changed in p_partition.
pub record IsAssigned {A : Type 0} (bound : ℕ) (nodes : List ℕ) (st st' : State A) : Type 0 where
  pub grows : st.part_id ≤ st'.part_id
  pub kept : (k : ℕ) → elem k nodes ≡ false → st'.partition k ≡ st.partition k
  pub numbered :
      (k : ℕ)
      → elem k nodes ≡ true
      → (st.part_id ≤ st'.partition k) × (st'.partition k < st'.part_id)
  pub bounded : (id : ℕ) → tally st'.partition id nodes ≤ bound

assign_lem :
    (nodes : List ℕ) (id : ℕ) (p : ℕ → ℕ) (k : ℕ)
    → assign nodes id p k ≡ (if elem k nodes then id else p k)
unfolding assign
assign_lem [] id p k = refl
assign_lem (x ∷ xs) id p k = ground (arith, assign_lem xs id (update p x id) k)

-- Two disjoint ranges that are assigned one after the other.
module _ {A : Type 0} (bound lbound rbound : ℕ) (nodes left right : List ℕ) (st s t : State A)
    (lb : lbound ≤ bound) (rb : rbound ≤ bound) (distinct : IsDistinct nodes)
    (same : (k : ℕ) → count k left + count k right ≡ count k nodes)
    (p : IsAssigned lbound left st s) (q : IsAssigned rbound right s t) where
  not_right : (k : ℕ) → elem k left ≡ true → elem k right ≡ false
  not_right k e =
      elem_of_count-zero k right (omega (arith, same k, distinct k, count-pos_of_elem k left e))

  left_kept : (k : ℕ) → elem k left ≡ true → t.partition k ≡ s.partition k
  left_kept k e = q.kept k (not_right k e)

  join_numbered :
      (k : ℕ) → elem k nodes ≡ true → (st.part_id ≤ t.partition k) × (t.partition k < t.part_id)
  join_numbered k e = elim (Bool-cases (elem k right)) [
    | inl r ↦ (omega (arith, p.grows, (q.numbered k r).0), (q.numbered k r).1)
    | inr r ↦
        let l : elem k left ≡ true =
          elem_of_count-pos k left
            (omega (arith, same k, count-pos_of_elem k nodes e, count-eq-zero k right r)) in
        rw (left_kept k l) ((p.numbered k l).0, omega (arith, (p.numbered k l).1, q.grows))
  ]

  join_bounded : (id : ℕ) → tally t.partition id nodes ≤ bound
  join_bounded id =
      let whole : tally t.partition id nodes ≡ tally t.partition id (left ++ right) =
        tally_of_count t.partition id nodes (left ++ right)
          (λ k. omega (arith, same k, count-append k left right)) in
      let parts = tally-append t.partition id left right in
      let lefts = tally_agree t.partition s.partition id left left_kept in
      elim (dec_lt id s.part_id) [
        | yes early ↦
            let none_right =
              tally_none t.partition id right (λ k e h. omega (arith, (q.numbered k e).0)) in
            omega (arith, whole, parts, lefts, none_right, p.bounded id)
        | no late ↦
            let none_left =
              tally_none s.partition id left (λ k e h. omega (arith, (p.numbered k e).1)) in
            omega (arith, whole, parts, lefts, none_left, q.bounded id)
      ]

  pub join-IsAssigned : IsAssigned bound nodes st t
  join-IsAssigned = record {
    grows = omega (arith, p.grows, q.grows);
    kept = λ k e.
        q.kept k (elem_of_count-zero k right (omega (arith, same k, count-eq-zero k nodes e)))
        ∙ p.kept k (elem_of_count-zero k left (omega (arith, same k, count-eq-zero k nodes e)));
    numbered = join_numbered;
    bounded = join_bounded;
  }

-- p_partition and part_id are all that counts of the state before.
pub start-IsAssigned :
    {A : Type 0} (bound : ℕ) (nodes : List ℕ) (start st s : State A)
    → start.partition ≡ st.partition
    → start.part_id ≡ st.part_id
    → IsAssigned bound nodes start s
    → IsAssigned bound nodes st s
start-IsAssigned bound nodes start st s e f p = record {
  grows = omega (arith, f, p.grows);
  kept = λ k h. p.kept k h ∙ ap (λ (g : ℕ → ℕ). g k) e;
  numbered = λ k h. (omega (arith, f, (p.numbered k h).0), (p.numbered k h).1);
  bounded = p.bounded;
}

pub IsAssigned-mono :
    {A : Type 0} (small large : ℕ) (nodes : List ℕ) (st s : State A)
    → small ≤ large
    → IsAssigned small nodes st s
    → IsAssigned large nodes st s
IsAssigned-mono small large nodes st s h p = record {
  grows = p.grows;
  kept = p.kept;
  numbered = p.numbered;
  bounded = λ id. omega (arith, p.bounded id, h);
}

-- `m` new parts, as few as the bound allows.
pub record IsDivided {A : Type 0} (bound m : ℕ) (nodes : List ℕ) (st st' : State A) : Type 0 where
  pub assigned : IsAssigned bound nodes st st'
  pub parts : IsCeil (length nodes) bound m
  pub ids : st'.part_id ≡ st.part_id + m

pub empty-IsAssigned : {A : Type 0} (bound : ℕ) (st : State A) → IsAssigned bound [] st st
empty-IsAssigned bound st = record {
  grows = omega arith;
  kept = λ k e. refl;
  numbered = λ k e. cc;
  bounded = λ id. omega arith;
}

-- One part.
pub leaf-IsAssigned :
    {A : Type 0} (bound : ℕ) (nodes : List ℕ) (st : State A)
    → length nodes ≤ bound
    → IsAssigned bound nodes st
        (record st { partition = assign nodes st.part_id st.partition; part_id = st.part_id + 1 })
leaf-IsAssigned bound nodes st h =
    let at = assign_lem nodes st.part_id st.partition in
    record {
      grows = omega arith;
      kept = λ k e. ground (arith, at k);
      numbered = λ k e. ground (arith, at k);
      bounded =
          λ id. omega (arith, tally-le-length (assign nodes st.part_id st.partition) id nodes);
    }
