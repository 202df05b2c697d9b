-- ===== src/Partition/Divide/Balance.antt =====
-- partition/src/partition.cpp, divide: the numbers and the sizes of the parts.
use native.Mathlib.Decide.{dec_le}
use max_embed.Prelude.{
  ℕ, zero, suc, ◌+◌, ◌-◌, ◌/◌, ◌≤◌, ◌<◌, ◌≡◌, refl, subst, ◌∙◌, List, [], ◌∷◌, Option, some, arith,
  ◌==◌, if◌then◌else◌, length, take, drop, length-take_le, length-drop, count, count-take-drop,
  ==_of_ne, le→leb, lt→leb,
}
use max_embed.Partition.{Runtime, Edge, State}
use max_embed.Partition.Split.{split_edge}
use max_embed.Partition.Split.Lists.{IsChain}
use max_embed.Partition.Core.{devide_core}
use max_embed.Partition.Core.Permute.{devide_core-IsBisection}
use max_embed.Partition.Divide.{assign, mid_offset, start_offset, bisect, divide, divide_start}
use max_embed.Partition.Divide.Arith.{
  IsCeil, mid_offset_bounds, IsCeil-mid_offset, start_sizes, start_offset-le, start_offset_parts,
}
use max_embed.Partition.Divide.Join.{
  IsDistinct, IsAssigned, IsDivided, join-IsAssigned, start-IsAssigned, empty-IsAssigned,
  leaf-IsAssigned,
}

leaf-IsDivided :
    {A : Type 0} (bound : ℕ) (nodes : List ℕ) (st : State A)
    → 0 < bound
    → length nodes ≤ bound
    → (st' : State A) × (m : ℕ) × ((if length nodes == 0
          then some st
          else some (record st {
            partition = assign nodes st.part_id st.partition;
            part_id = st.part_id + 1;
          }))
        ≡ some st')
      × IsDivided bound m nodes st st'
leaf-IsDivided bound [] st pos h = (
  st,
  0,
  refl,
  record {
    assigned = empty-IsAssigned bound st;
    parts = record { enough = omega arith; tight = omega arith };
    ids = omega arith;
  },
)
leaf-IsDivided bound (x ∷ xs) st pos h = (
  record st { partition = assign (x ∷ xs) st.part_id st.partition; part_id = st.part_id + 1 },
  1,
  rw (==_of_ne (suc (length xs)) 0 (λ e. omega arith)),
  record {
    assigned = leaf-IsAssigned bound (x ∷ xs) st h;
    parts = record { enough = omega arith; tight = omega arith };
    ids = refl;
  },
)

module _ (R : Runtime) (longest_edge : ℕ) where
  open R use {Float}

  -- What divide promises for a range of so many nodes.
  abbrev pub Divides : ℕ → ℕ → (List ℕ → List Edge → State Float → Option (State Float)) → Type 0
  Divides bound size run =
      (nodes : List ℕ) (edges : List Edge) (st : State Float)
      → length nodes ≡ size
      → IsDistinct nodes
      → (st' : State Float) × (m : ℕ) × (run nodes edges st ≡ some st')
        × IsDivided bound m nodes st st'

  abbrev pub Bisects : ℕ → ℕ → ℕ → ℕ → List ℕ → State Float → Option (State Float) → Type 0
  Bisects bound lbound rbound mid nodes st r =
      (st' : State Float) × (m : ℕ) × (k : ℕ) × (r ≡ some st')
      × IsAssigned bound nodes st st'
      × IsCeil mid lbound m
      × IsCeil (length nodes - mid) rbound k
      × (st'.part_id ≡ st.part_id + (m + k))

  bisect-Bisects :
      (on_left on_right : List ℕ → List Edge → State Float → Option (State Float))
      (bound lbound rbound mid : ℕ) (nodes : List ℕ) (edges : List Edge) (st : State Float)
      → lbound ≤ bound
      → rbound ≤ bound
      → mid ≤ length nodes
      → IsDistinct nodes
      → Divides lbound mid on_left
      → Divides rbound (length nodes - mid) on_right
      → Bisects bound lbound rbound mid nodes st
          (bisect R longest_edge on_left on_right mid nodes edges st)
  unfolding bisect
  bisect-Bisects on_left on_right bound lbound rbound mid nodes edges st lb rb le distinct dl dr =
      let left = take mid nodes in
      let right = drop mid nodes in
      let b = devide_core R left right edges st in
      let is = devide_core-IsBisection R left right edges st in
      let sp = split_edge longest_edge b.after.part_info edges b.after.pins in
      let start = record b.after { pins = sp.pins } in
      let same : (k : ℕ) → count k b.left + count k b.right ≡ count k nodes =
        λ k. is.same k ∙ count-take-drop k mid nodes in
      let lsize : length b.left ≡ mid = is.left_size ∙ length-take_le mid nodes le in
      let rsize : length b.right ≡ length nodes - mid = is.right_size ∙ length-drop mid nodes in
      let (s, m, e, p) =
        dl b.left sp.edges_1 start lsize (λ k. omega (arith, same k, distinct k)) in
      let (t, n, f, q) = dr b.right sp.edges_2 s rsize (λ k. omega (arith, same k, distinct k)) in
      let assigned =
        join-IsAssigned bound lbound rbound nodes b.left b.right st s t lb rb distinct same
          (start-IsAssigned lbound b.left start st s is.partition_kept is.part_id_kept p.assigned)
          q.assigned in
      (
        t,
        m,
        n,
        rw e f,
        assigned,
        subst (λ x. IsCeil x lbound m) lsize p.parts,
        subst (λ x. IsCeil x rbound n) rsize q.parts,
        omega (arith, q.ids, p.ids, is.part_id_kept),
      )

  -- Every part that divide makes of a range has a new number of its own and at most upper_bound
  -- nodes; there are as few parts as that allows. Fuel above the size of the range is enough.
  pub divide-IsDivided :
      (fuel upper_bound size : ℕ)
      → 0 < upper_bound
      → size < fuel
      → Divides upper_bound size (divide R longest_edge fuel upper_bound)
  unfolding divide
  divide-IsDivided zero ub size pos f nodes edges st e distinct = absurd (omega arith)
  divide-IsDivided (suc fuel) ub size pos f nodes edges st e distinct =
      elim (dec_le (length nodes) ub) [
        | yes fits ↦ rw (le→leb (length nodes) ub fits) (leaf-IsDivided ub nodes st pos fits)
        | no big ↦
            let mid = mid_offset (length nodes) ub in
            let (lo, hi) = mid_offset_bounds (length nodes) ub pos (omega arith) in
            let (t, m, k, path, assigned, p, q, ids) =
              bisect-Bisects (divide R longest_edge fuel ub) (divide R longest_edge fuel ub) ub ub
                ub mid nodes edges st (omega arith) (omega arith) (omega arith) distinct
                (divide-IsDivided fuel ub mid pos (omega arith))
                (divide-IsDivided fuel ub (length nodes - mid) pos (omega arith)) in
            rw (lt→leb (length nodes) ub (omega arith)) (
              t,
              m + k,
              path,
              record {
                assigned = assigned;
                parts = IsCeil-mid_offset (length nodes) ub m k pos (omega arith) p q;
                ids = ids;
              },
            )
      ]

  -- On edges that are ranges of p_pins from left to right, none of more than longest_edge or 65535
  -- pins, divide_start ends, and makes exactly the number of parts that it is asked for.
  pub divide_start-parts :
      (fuel parts : ℕ) (nodes : List ℕ) (edges : List Edge) (st : State Float)
      → 0 < parts
      → parts ≤ length nodes
      → length nodes < fuel
      → IsDistinct nodes
      → IsChain longest_edge (length st.pins) 0 edges
      → (st' : State Float) × (divide_start R longest_edge fuel parts nodes edges st ≡ some st')
        × IsAssigned ((length nodes + parts - 1) / parts) nodes st st'
        × (st'.part_id ≡ st.part_id + parts)
  unfolding divide_start
  divide_start-parts fuel parts nodes edges st pos few f distinct chain =
      let len = length nodes in
      let up = (len + parts - 1) / parts in
      let low = len / parts in
      let mid = start_offset len parts in
      let (low_pos, ge, _, _, _, _) = start_sizes len parts pos few in
      let le = start_offset-le len parts pos few in
      let (t, m, k, path, assigned, p, q, ids) =
        bisect-Bisects (divide R longest_edge fuel up) (divide R longest_edge fuel low) up up low
          mid nodes edges st (omega arith) ge le distinct
          (divide-IsDivided fuel up mid (omega (arith, low_pos, ge)) (omega (arith, le)))
          (divide-IsDivided fuel low (len - mid) low_pos (omega arith)) in
      (t, path, assigned, omega (arith, ids, start_offset_parts len parts m k pos few p q))
