-- ===== src/Mapper/Complete.antt =====
-- client/src/mapper.cpp: what happens to a request's reads after they are submitted. The SSD fills
-- pages of the bounce buffer, ReadCompleteCB copies out of them and hands the embeddings to the
-- cache, and the cache_write thread stores them there. These run in any interleaving.
-- The cache itself is CacheLib's: only what is inserted into it is kept here.
pub mod History
pub mod Deliver
pub mod Answer
pub mod Recycle
use max_embed.Prelude.{
  ℕ, zero, suc, ◌+◌, ◌-◌, ◌^◌, Bool, true, false, List, [], ◌∷◌, ◌++◌, Option, none, some, ◌==◌,
  if◌then◌else◌,
}
use max_embed.Mapper.Batch.{ReadCtx, update}

-- `bounce` is bouncedBuffer_[tid], by page and by offset in embeddings; `free` counts the entries
-- of write_queue_free; `held` is the entry that the cache_write thread has popped.
pub record Transfers (V : Type 0) : Type 0 where
  pub bounce : ℕ → ℕ → V
  pub results : ℕ → Option V
  pub read_cnt : ℕ
  pub free : ℕ
  pub write_queue : List (ℕ × V)
  pub held : Option (ℕ × V)
  pub inserted : List (ℕ × V)
  pub cache_cnt : ℕ
  pub cache_write_cnt : ℕ

pub data Event : Type 0 where
  fills finishes fails : ReadCtx → Event
  pops stores : Event

module _ {V : Type 0} where
  -- memcpy(dst + i * GLOBAL_VAL_SIZE, src + GLOBAL_VAL_SIZE * offset, …) for each item.
  unfoldable pub copy_items : (ℕ → V) → ℕ → List (ℕ × ℕ) → (ℕ → Option V) → ℕ → Option V
  copy_items page slot [] results = results
  copy_items page slot ((key, offset) ∷ items) results =
      copy_items page (slot + 1) items (update results slot (page offset))

  -- The loop over the items under use_cache: it stops when no free entry is left.
  unfoldable pub enqueue_items : (ℕ → V) → List (ℕ × ℕ) → Transfers V → Transfers V
  enqueue_items page [] s = s
  enqueue_items page ((key, offset) ∷ items) s =
      let rest = enqueue_items page items (record s {
        cache_cnt = s.cache_cnt + 1;
        free = s.free - 1;
        write_queue = s.write_queue ++ (key, page offset) ∷ [];
      }) in
      if s.free == 0 then record s { cache_cnt = s.cache_cnt + 1 } else rest

  unfoldable pub read_complete : Bool → ReadCtx → Transfers V → Transfers V
  read_complete use_cache ctx s =
      let page = s.bounce ctx.src in
      let s' = if use_cache then enqueue_items page ctx.items s else s in
      record s' {
        results = copy_items page ctx.dst ctx.items s'.results;
        read_cnt = s'.read_cnt + 1;
      }

  -- The cache_write thread: write_queue.try_pop …
  unfoldable pub pop_write : List (ℕ × V) → Transfers V → Transfers V
  pop_write [] s = s
  pop_write (entry ∷ rest) s = record s { write_queue = rest; held = some entry }

  -- … and then cache->insert and write_queue_free.push.
  unfoldable pub store_write : Option (ℕ × V) → Transfers V → Transfers V
  store_write none s = s
  store_write (some entry) s = record s {
    held = none;
    inserted = entry ∷ s.inserted;
    cache_write_cnt = s.cache_write_cnt + 1;
    free = s.free + 1;
  }

  -- The thread pops only when it holds no entry.
  unfoldable pub cache_pop : Option (ℕ × V) → Transfers V → Transfers V
  cache_pop none s = pop_write s.write_queue s
  cache_pop (some entry) s = s

  -- `disk` is the SSD's contents by block and offset. `none`: an I/O error is fatal.
  unfoldable pub step : (ℕ → ℕ → V) → Bool → Event → Transfers V → Option (Transfers V)
  step disk use_cache (fills c) s =
      some (record s { bounce = λ p. if p == c.src then disk c.block else s.bounce p })
  step disk use_cache (finishes c) s = some (read_complete use_cache c s)
  step disk use_cache (fails c) s = none
  step disk use_cache pops s = some (cache_pop s.held s)
  step disk use_cache stores s = some (store_write s.held s)

  unfoldable pub run : (ℕ → ℕ → V) → Bool → List Event → Transfers V → Option (Transfers V)
  run disk use_cache [] s = some s
  run disk use_cache (e ∷ es) s = elim (step disk use_cache e s) [
    | none ↦ none
    | some s' ↦ run disk use_cache es s'
  ]
