-- ===== src/Partition/Divide.antt =====
-- partition/src/partition.cpp, divide, divide_start and partition.
-- The two calls after a bisection are made one after the other, as in the branch that starts no
-- thread; in the other branch they work on the same disjoint ranges, and only the numbers that
-- get_part_id hands out may differ.
pub mod Arith
pub mod Tally
pub mod Join
pub mod Balance
use max_embed.Prelude.{
  ℕ, zero, suc, ◌+◌, ◌-◌, ◌*◌, ◌/◌, Bool, true, false, List, [], ◌∷◌, ◌++◌, Option, none, some, ltb,
  leb, ◌==◌, if◌then◌else◌, get_or, take, drop, length,
}
use max_embed.Partition.{Runtime, Edge, State, update}
use max_embed.Partition.Split.{split_edge}
use max_embed.Partition.Core.{devide_core}

-- p_partition[idx[i]] = part_id for the nodes of a part.
unfoldable pub assign : List ℕ → ℕ → (ℕ → ℕ) → ℕ → ℕ
assign [] id partition = partition
assign (k ∷ ks) id partition = assign ks id (update partition k id)

-- mid - start, for `len` nodes.
unfoldable pub mid_offset : ℕ → ℕ → ℕ
mid_offset len upper_bound =
    if ltb len (2 * upper_bound) then len / 2 else len / (2 * upper_bound) * upper_bound

-- mid - start in divide_start.
unfoldable pub start_offset : ℕ → ℕ → ℕ
start_offset len parts =
    let low = len / parts in
    let up = (len + parts - 1) / parts in
    if up == low then len / (2 * up) * up else (len - low * parts) * up

module _ (R : Runtime) (longest_edge : ℕ) where
  open R use {Float}

  infixl 5 ◌>>=◌
  abbrev ◌>>=◌ : Option (State Float) → (State Float → Option (State Float)) → Option (State Float)
  none >>= f = none
  some st >>= f = f st

  -- A bisection and its edges, handed to the two calls.
  unfoldable pub bisect :
      (List ℕ → List Edge → State Float → Option (State Float))
      → (List ℕ → List Edge → State Float → Option (State Float))
      → ℕ
      → List ℕ
      → List Edge
      → State Float
      → Option (State Float)
  bisect on_left on_right mid nodes edges st =
      let b = devide_core R (take mid nodes) (drop mid nodes) edges st in
      let s = split_edge longest_edge b.after.part_info edges b.after.pins in
      on_left b.left s.edges_1 (record b.after { pins = s.pins }) >>= λ st'.
      on_right b.right s.edges_2 st'

  -- `none` means that the fuel ran out.
  unfoldable pub divide : ℕ → ℕ → List ℕ → List Edge → State Float → Option (State Float)
  divide zero upper_bound nodes edges st = none
  divide (suc fuel) upper_bound nodes edges st =
      let rest =
        bisect (divide fuel upper_bound) (divide fuel upper_bound)
          (mid_offset (length nodes) upper_bound) nodes edges st in
      if leb (length nodes) upper_bound
      then if length nodes == 0
        then some st
        else some (record st {
          partition = assign nodes st.part_id st.partition;
          part_id = st.part_id + 1;
        })
      else rest

  unfoldable pub divide_start : ℕ → ℕ → List ℕ → List Edge → State Float → Option (State Float)
  divide_start fuel parts nodes edges st =
      let len = length nodes in
      bisect (divide fuel ((len + parts - 1) / parts)) (divide fuel (len / parts))
        (start_offset len parts) nodes edges st
