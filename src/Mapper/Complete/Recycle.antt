-- ===== src/Mapper/Complete/Recycle.antt =====
-- client/src/mapper.cpp: the entries of the two queues to the cache.
use max_embed.Prelude.{
  ℕ, ◌+◌, ◌-◌, ◌≡◌, refl, ◌∙◌, Bool, List, [], ◌∷◌, ◌++◌, Option, none, some, arith, ◌==◌, length,
  length-append, Bool-cases, Option-cases, inl, inr,
}
use max_embed.Mapper.Complete.{
  Transfers, Event, fills, finishes, fails, pops, stores, enqueue_items, read_complete, pop_write,
  store_write, cache_pop, step, run,
}

-- The entry that the cache_write thread holds, if it holds one.
abbrev pub held_cnt : {V : Type 0} → Option (ℕ × V) → ℕ
held_cnt none = 0
held_cnt (some e) = 1

-- All the queue entries that the constructor allocated.
abbrev pub entries : {V : Type 0} → Transfers V → ℕ
entries s = s.free + length s.write_queue + held_cnt s.held

module _ {V : Type 0} where
  entries-enqueue_items :
      (page : ℕ → V) (items : List (ℕ × ℕ)) (s : Transfers V)
      → entries (enqueue_items page items s) ≡ entries s
  unfolding enqueue_items
  entries-enqueue_items page [] s = refl
  entries-enqueue_items page ((k, o) ∷ items) s =
      let s' = record s {
        cache_cnt = s.cache_cnt + 1;
        free = s.free - 1;
        write_queue = s.write_queue ++ (k, page o) ∷ [];
      } in
      let size = length-append s.write_queue ((k, page o) ∷ []) in
      elim (Bool-cases (s.free == 0)) [
        | inl e ↦ rw (e, enqueue_items)
        | inr e ↦ rw (e, enqueue_items) (ground (arith, size, entries-enqueue_items page items s'))
      ]

  -- A step of any thread that does not end the program keeps the number of entries, so neither queue
  -- ever holds more than were allocated.
  pub entries-step :
      (disk : ℕ → ℕ → V) (use_cache : Bool) (e : Event) (s s' : Transfers V)
      → step disk use_cache e s ≡ some s'
      → entries s' ≡ entries s
  unfolding step read_complete cache_pop pop_write store_write
  entries-step disk use_cache (fills c) s s' h = ground arith
  entries-step disk use_cache (finishes c) s s' h =
      ground (arith, entries-enqueue_items (s.bounce c.src) c.items s)
  entries-step disk use_cache (fails c) s s' h = cc
  entries-step disk use_cache pops s s' h = ground arith
  entries-step disk use_cache stores s s' h = ground arith

  pub entries-run :
      (disk : ℕ → ℕ → V) (use_cache : Bool) (es : List Event) (s s' : Transfers V)
      → run disk use_cache es s ≡ some s'
      → entries s' ≡ entries s
  unfolding run
  entries-run disk use_cache [] s s' h = ground arith
  entries-run disk use_cache (e ∷ es) s s' h = elim (Option-cases (step disk use_cache e s)) [
    | inl n ↦ cc (rw (n, run) at h)
    | inr (m, n) ↦
        entries-run disk use_cache es m s' (rw (n, run) at h) ∙ entries-step disk use_cache e s m n
  ]
