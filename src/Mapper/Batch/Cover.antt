-- ===== src/Mapper/Batch/Cover.antt =====
-- client/src/mapper.cpp, BatchGet: which keys of a request the reads serve, and how often.
use max_embed.Prelude.{
  ℕ, ◌+◌, ◌≤◌, ◌<◌, ◌≡◌, refl, ◌∙◌, ap, true, false, List, [], ◌∷◌, Option, arith, ◌==◌,
  if◌then◌else◌, to_ℕ, get_or, count, elem, count-append, count-eq-zero, Bool-cases, Option-cases,
  inl, inr, ==→eq,
}
use max_embed.FlatSet.{FlatSet}
use max_embed.Mapper.{Tables}
use max_embed.Mapper.Invert.{candidates}
use max_embed.Mapper.Order.{order_keys, count-order_keys}
use max_embed.Mapper.Batch.{
  Serving, insert_all, choose, take_items, erase_all, ask_cache, ask_all, read_block, serve_key,
  serve_all, begin, keys_of,
}
use max_embed.Mapper.Batch.Choice.{elem-choose}

-- Every block that the file lists for a key has the key in its list.
abbrev pub IsHeld : Tables → ℕ → Type 0
IsHeld t key =
    (b : ℕ) → elem b (candidates t.file key) ≡ true → elem key (get_or t.block_to_elem b []) ≡ true

module _ (F : FlatSet) where
  open F use {
    Carrier, clear, insert, erase, contains, contains-clear, contains-insert, contains-erase,
  }

  pub contains-insert_all :
      (k : ℕ) (ks : List ℕ) (s : Carrier)
      → contains k (insert_all F ks s) ≡ (if elem k ks then true else contains k s)
  unfolding insert_all
  contains-insert_all k [] s = refl
  contains-insert_all k (x ∷ xs) s =
      ground (arith, contains-insert_all k xs (insert x s), contains-insert k x s)

  pub contains-erase_all :
      (k : ℕ) (ks : List ℕ) (s : Carrier)
      → contains k (erase_all F ks s) ≡ (if elem k ks then false else contains k s)
  unfolding erase_all
  contains-erase_all k [] s = refl
  contains-erase_all k (x ∷ xs) s =
      ground (arith, contains-erase_all k xs (erase x s), contains-erase k x s)

  -- What is taken from a block leaves the set, and nothing else does.
  pub count-take_items :
      (k : ℕ) (items : List ℕ) (offset : ℕ) (s : Carrier)
      → count k (keys_of (take_items F items offset s)) + to_ℕ (contains k (erase_all F items s))
        ≡ to_ℕ (contains k s)
  unfolding take_items erase_all
  count-take_items k [] offset s = omega arith
  count-take_items k (x ∷ xs) offset s = ground (
    arith,
    count-take_items k xs (offset + 1) (erase x s),
    contains-erase k x s,
    contains-erase x x s,
    λ (e : x ≡ k). ap (λ m. contains m s) e,
  )

  -- The keys that were served and those that wait.
  abbrev pub balance : {V : Type 0} → ℕ → Serving Carrier V → ℕ
  balance k st = count k st.served + to_ℕ (contains k st.req_set)

  balance-read_block :
      {V : Type 0} (t : Tables) (b k : ℕ) (st : Serving Carrier V)
      → balance k (read_block F t b st) ≡ balance k st
  unfolding read_block
  balance-read_block t b k st =
      let items = get_or t.block_to_elem b [] in
      omega (
        arith,
        count-append k st.served (keys_of (take_items F items 0 st.req_set)),
        count-take_items k items 0 st.req_set,
      )

  balance-serve_key :
      {V : Type 0} (t : Tables) (x k : ℕ) (st : Serving Carrier V)
      → balance k (serve_key F t x st) ≡ balance k st
  unfolding serve_key
  balance-serve_key t x k st = elim (Bool-cases (contains x st.req_set)) [
    | inl e ↦ rw (e, serve_key) (balance-read_block t (choose F t st.req_set x) k st)
    | inr e ↦ rw (e, serve_key)
  ]

  pub balance-serve_all :
      {V : Type 0} (t : Tables) (ks : List ℕ) (k : ℕ) (st : Serving Carrier V)
      → balance k (serve_all F t ks st) ≡ balance k st
  unfolding serve_all
  balance-serve_all t [] k st = refl
  balance-serve_all t (x ∷ xs) k st =
      balance-serve_all t xs k (serve_key F t x st) ∙ balance-serve_key t x k st

  balance-ask_cache :
      {V : Type 0} (lookup : ℕ → Option V) (x k : ℕ) (st : Serving Carrier V)
      → contains x st.req_set ≡ true
      → balance k (ask_cache F lookup x st) ≡ balance k st
  unfolding ask_cache
  balance-ask_cache lookup x k st h = elim (Option-cases (lookup x)) [
    | inl e ↦ rw (e, ask_cache)
    | inr (v, e) ↦
        rw (e, ask_cache)
          (ground (
            arith,
            count-append k st.served (x ∷ []),
            contains-erase k x st.req_set,
            λ (e' : x ≡ k). ap (λ m. contains m st.req_set) e',
          ))
  ]

  -- The keys that are still to be asked for are in the set.
  abbrev pub IsWaiting : {V : Type 0} → List ℕ → Serving Carrier V → Type 0
  IsWaiting ks st = (k : ℕ) → count k ks ≤ to_ℕ (contains k st.req_set)

  ask_cache-IsWaiting :
      {V : Type 0} (lookup : ℕ → Option V) (x : ℕ) (xs : List ℕ) (st : Serving Carrier V)
      → IsWaiting (x ∷ xs) st
      → IsWaiting xs (ask_cache F lookup x st)
  unfolding ask_cache
  ask_cache-IsWaiting lookup x xs st w k = elim (Option-cases (lookup x)) [
    | inl e ↦ rw (e, ask_cache) (omega (arith, w k))
    | inr (v, e) ↦ rw (e, ask_cache) (ground (arith, w k, contains-erase k x st.req_set))
  ]

  pub balance-ask_all :
      {V : Type 0} (lookup : ℕ → Option V) (ks : List ℕ) (k : ℕ) (st : Serving Carrier V)
      → IsWaiting ks st
      → balance k (ask_all F lookup ks st) ≡ balance k st
  unfolding ask_all
  balance-ask_all lookup [] k st w = refl
  balance-ask_all lookup (x ∷ xs) k st w =
      let here : contains x st.req_set ≡ true = ground (arith, w x) in
      balance-ask_all lookup xs k (ask_cache F lookup x st) (ask_cache-IsWaiting lookup x xs st w)
      ∙ balance-ask_cache lookup x k st here

  -- Only requested keys wait, and a key that is not waiting never waits again.
  contains-read_block :
      {V : Type 0} (t : Tables) (b k : ℕ) (st : Serving Carrier V)
      → contains k (read_block F t b st).req_set
        ≡ (if elem k (get_or t.block_to_elem b []) then false else contains k st.req_set)
  unfolding read_block
  contains-read_block t b k st = contains-erase_all k (get_or t.block_to_elem b []) st.req_set

  contains-serve_key :
      {V : Type 0} (t : Tables) (x k : ℕ) (st : Serving Carrier V)
      → contains k st.req_set ≡ false
      → contains k (serve_key F t x st).req_set ≡ false
  unfolding serve_key
  contains-serve_key t x k st h =
      ground (arith, contains-read_block t (choose F t st.req_set x) k st)

  serve_key_clears :
      {V : Type 0} (t : Tables) (x : ℕ) (st : Serving Carrier V)
      → IsHeld t x
      → 0 < get_or t.block_cnt x 0
      → contains x (serve_key F t x st).req_set ≡ false
  unfolding serve_key
  serve_key_clears t x st held h =
      let b = choose F t st.req_set x in
      let mine = held b (elem-choose F t st.req_set x h) in
      ground (arith, contains-read_block t b x st, mine)

  pub contains-serve_all :
      {V : Type 0} (t : Tables) (ks : List ℕ) (k : ℕ) (st : Serving Carrier V)
      → contains k st.req_set ≡ false
      → contains k (serve_all F t ks st).req_set ≡ false
  unfolding serve_all
  contains-serve_all t [] k st h = h
  contains-serve_all t (x ∷ xs) k st h =
      contains-serve_all t xs k (serve_key F t x st) (contains-serve_key t x k st h)

  serve_all_clears :
      {V : Type 0} (t : Tables) (ks : List ℕ) (k : ℕ) (st : Serving Carrier V)
      → IsHeld t k
      → 0 < get_or t.block_cnt k 0
      → elem k ks ≡ true
      → contains k (serve_all F t ks st).req_set ≡ false
  unfolding serve_all
  serve_all_clears t [] k st held h e = cc
  serve_all_clears t (x ∷ xs) k st held h e = elim (Bool-cases (x == k)) [
    | inl same ↦
        contains-serve_all t xs k (serve_key F t x st)
          (rw (==→eq x k same) (serve_key_clears t k st held h))
    | inr other ↦ serve_all_clears t xs k (serve_key F t x st) held h (rw other at e)
  ]

  contains-ask_all :
      {V : Type 0} (lookup : ℕ → Option V) (ks : List ℕ) (k : ℕ) (st : Serving Carrier V)
      → contains k st.req_set ≡ false
      → contains k (ask_all F lookup ks st).req_set ≡ false
  unfolding ask_all ask_cache
  contains-ask_all lookup [] k st h = h
  contains-ask_all lookup (x ∷ xs) k st h =
      contains-ask_all lookup xs k (ask_cache F lookup x st)
        (ground (arith, contains-erase k x st.req_set))

  pub begin-IsWaiting :
      (V : Type 0) (c : List ℕ) (keys : List ℕ)
      → IsWaiting {V = V} (order_keys c keys) (begin F (order_keys c keys))
  unfolding begin
  begin-IsWaiting V c keys k =
      let order = order_keys c keys in
      ground
        (arith, count-order_keys c k keys, contains-insert_all k order clear, count-eq-zero k order)

  contains-begin :
      (V : Type 0) (order : List ℕ) (k : ℕ)
      → elem k order ≡ false
      → contains k (begin F {V = V} order).req_set ≡ false
  unfolding begin
  contains-begin V order k h = ground (arith, contains-insert_all k order clear, contains-clear k)

  pub balance-begin :
      (V : Type 0) (order : List ℕ) (k : ℕ)
      → balance k (begin F {V = V} order) ≡ to_ℕ (elem k order)
  unfolding begin
  balance-begin V order k = ground (arith, contains-insert_all k order clear, contains-clear k)

  -- After the main loop no key waits.
  pub clears_all :
      {V : Type 0} (t : Tables) (lookup : ℕ → Option V) (order : List ℕ) (k : ℕ)
      → (elem k order ≡ true → IsHeld t k × (0 < get_or t.block_cnt k 0))
      → contains k (serve_all F t order (ask_all F lookup order (begin F order))).req_set ≡ false
  clears_all {V} t lookup order k h = elim (Bool-cases (elem k order)) [
    | inl e ↦ serve_all_clears t order k _ (h e).0 (h e).1 e
    | inr e ↦
        contains-serve_all t order k _
          (contains-ask_all lookup order k _ (contains-begin V order k e))
  ]
