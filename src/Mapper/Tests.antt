-- ===== src/Mapper/Tests.antt =====
-- Runs of the mapper's model at concrete inputs, and its theorems there.
use max_embed.Prelude.{
  ℕ, zero, suc, ◌+◌, ◌*◌, ◌^◌, ◌≤◌, ◌<◌, ◌≡◌, refl, true, List, [], ◌∷◌, Option, none, some, arith,
  get_or, count, elem, to_ℕ, inl, inr, ◌==◌, if◌then◌else◌, All, take, length,
}
use max_embed.FlatSet.{list_set}
use max_embed.Mapper.{
  MappingFile, Tables, max_block, push_at, invert_item, invert, block_slots, construct,
}
use max_embed.Mapper.Invert.{IsWellFormed, candidates, count-construct}
use max_embed.Mapper.Order.{before, insert_key, sort_keys, unique, order_keys}
use max_embed.Mapper.Batch.{
  Serving, ReadCtx, insert_all, count_requested, scan, choose, take_items, erase_all, ask_cache,
  ask_all, read_block, serve_key, serve_all, begin, checks, batch_get, max_visit, items_fit,
  contexts_fit,
}
use max_embed.Mapper.Batch.Choice.{gain, choose_best}
use max_embed.Mapper.Batch.Serve.{answer, batch_get_serves, batch_get_layout}
use max_embed.Mapper.Batch.Layout.{IsLaidOut}
use max_embed.Mapper.Batch.Fits.{IsFitting}
use max_embed.Mapper.Complete.{
  Transfers, Event, fills, finishes, pops, stores, run, step, read_complete, enqueue_items,
  copy_items, cache_pop, pop_write, store_write,
}
use max_embed.Mapper.Complete.History.{Among, IsHistory, Finishes}
use max_embed.Mapper.Complete.Recycle.{entries, entries-run}
use max_embed.Mapper.Complete.Answer.{results_right}
use max_embed.Mapper.Wait.{
  ssd_id, queue_id, queue_id-queue_cnt, wait_reads, finish_cnt, sum_of, wait_reads-ends,
}
use max_embed.Spdk.{queue_cnt}

-- Items 0 and 2 have one block each, item 1 has both.
abbrev sample : MappingFile
sample = record {
  item_cnt = 3;
  all_blocks_cnt = 4;
  block_idx = 0 ∷ 1 ∷ 3 ∷ [];
  block_cnt = 1 ∷ 2 ∷ 1 ∷ [];
  all_blocks = 0 ∷ 0 ∷ 1 ∷ 1 ∷ [];
}

abbrev tables : Tables
tables = record { file = sample; block_to_elem = (0 ∷ 1 ∷ []) ∷ (1 ∷ 2 ∷ []) ∷ [] }

constructed : construct sample 3 ≡ some tables
unfolding construct invert invert_item push_at block_slots max_block
constructed = refl

sample-IsWellFormed : IsWellFormed sample
sample-IsWellFormed = record { in_range = in_range; placed = placed; small = small }
  where
    in_range : (i : ℕ) → i < 3 → get_or sample.block_idx i 0 + get_or sample.block_cnt i 0 ≤ 4
    in_range zero h = omega arith
    in_range (suc zero) h = omega arith
    in_range (suc (suc zero)) h = omega arith
    in_range (suc (suc (suc i))) h = absurd (omega arith)

    placed : (i : ℕ) → i < 3 → 0 < get_or sample.block_cnt i 0
    placed zero h = omega arith
    placed (suc zero) h = omega arith
    placed (suc (suc zero)) h = omega arith
    placed (suc (suc (suc i))) h = absurd (omega arith)

    small : (j : ℕ) → get_or sample.all_blocks j 0 + 1 < 2 ^ 32
    small zero = omega arith
    small (suc zero) = omega arith
    small (suc (suc zero)) = omega arith
    small (suc (suc (suc zero))) = omega arith
    small (suc (suc (suc (suc j)))) = omega arith

abbrev request : List ℕ
request = 2 ∷ 1 ∷ 2 ∷ []

known : (k : ℕ) → elem k request ≡ true → k < 3
known k h = ground arith

-- The embedding of an item, as a number.
abbrev emb : ℕ → ℕ
emb k = k * 10

misses : ℕ → Option ℕ
misses k = none

count-construct_example : count 1 (get_or tables.block_to_elem 1 []) ≡ 1
count-construct_example = count-construct sample 3 tables sample-IsWellFormed constructed 1 1

few : (b : ℕ) → length (get_or tables.block_to_elem b []) ≤ 64
few zero = omega arith
few (suc zero) = omega arith
few (suc (suc b)) = omega arith

in_page : (b : ℕ) → length (get_or tables.block_to_elem b []) * 128 ≤ 4096
in_page zero = omega arith
in_page (suc zero) = omega arith
in_page (suc (suc b)) = omega arith

batch_get_serves_example :
    (st : Serving list_set.Carrier ℕ) × (batch_get list_set tables misses 128 4096 request
      ≡ some st)
    × ((k : ℕ) → count k st.served ≡ to_ℕ (elem k request))
batch_get_serves_example =
    batch_get_serves list_set sample 3 tables misses 128 4096 request sample-IsWellFormed
      constructed known (omega arith) (omega arith) refl few in_page

-- One read of block 1 serves both keys.
abbrev read : ReadCtx
read = record { block = 1; src = 0; dst = 0; items = (1, 0) ∷ (2, 1) ∷ [] }

abbrev state : Serving list_set.Carrier ℕ
state = answer list_set tables misses request

state_contexts : state.contexts ≡ read ∷ []
unfolding list_set begin insert_all order_keys sort_keys insert_key unique before ask_all ask_cache
    misses serve_all serve_key choose scan count_requested read_block take_items erase_all
state_contexts = refl

answered : batch_get list_set tables misses 128 4096 request ≡ some state
unfolding batch_get checks contexts_fit items_fit
answered = rw state_contexts refl

-- With values as large as a page, the second item of a block is behind the page.
not_in_page : batch_get list_set tables misses 4096 4096 request ≡ none
unfolding batch_get checks contexts_fit items_fit
not_in_page = rw state_contexts refl

misses_right : (k v : ℕ) → misses k ≡ some v → v ≡ emb k
unfolding misses
misses_right k v e = cc

batch_get_layout_example :
    IsLaidOut tables emb state
    × (state.copy_cnt ≤ 3)
    × (state.ssd_request_cnt ≤ 3)
    × (3 ≤ 4096)
    × All (IsFitting 128 4096) state.contexts
batch_get_layout_example =
    batch_get_layout list_set sample 3 tables misses 128 4096 request sample-IsWellFormed
      constructed known emb state misses_right answered

abbrev disk : ℕ → ℕ → ℕ
disk b o = emb (get_or (get_or tables.block_to_elem b []) o 0)

abbrev events : List Event
events = fills read ∷ pops ∷ finishes read ∷ stores ∷ []

abbrev idle : Transfers ℕ
idle = record {
  bounce = λ p o. 0;
  results = state.results;
  read_cnt = 0;
  free = 4;
  write_queue = (7, 70) ∷ [];
  held = none;
  inserted = [];
  cache_cnt = 0;
  cache_write_cnt = 0;
}

history : IsHistory state.contexts [] events
history = rw state_contexts (inl refl, (inl refl, tt))

all_finish : (c : ReadCtx) → Among c state.contexts → Finishes c events
all_finish c m = finish (rw state_contexts at m)
  where
    finish : Among c (read ∷ []) → Finishes c events
    finish (inl e) = inl e
    finish (inr n) = absurd n

results_right_example :
    (s' : Transfers ℕ) × (run disk true events idle ≡ some s')
    × ((n : ℕ) → n < state.copy_cnt → s'.results n ≡ some (emb (get_or state.served n 0)))
results_right_example =
    results_right list_set sample 3 tables misses 128 4096 request sample-IsWellFormed constructed
      known emb disk (λ b o h. refl) state true events idle misses_right answered refl history
      all_finish

finished : Transfers ℕ
finished = record idle {
  bounce = λ p. if p == 0 then disk 1 else λ o. 0;
  results = copy_items (disk 1) 0 read.items state.results;
  read_cnt = 1;
  free = 3;
  write_queue = (1, 10) ∷ (2, 20) ∷ [];
  inserted = (7, 70) ∷ [];
  cache_cnt = 2;
  cache_write_cnt = 1;
}

run-events : run disk true events idle ≡ some finished
unfolding run step read_complete enqueue_items copy_items cache_pop pop_write store_write finished
run-events = refl

entries-run_example : entries finished ≡ 5
unfolding finished
entries-run_example = entries-run disk true events idle finished run-events

abbrev waiting : list_set.Carrier
waiting = list_set.insert 1 list_set.clear

choose_best_example :
    All
      (λ b.
        gain list_set tables waiting b
        ≤ gain list_set tables waiting (choose list_set tables waiting 1))
      (take max_visit (candidates sample 1))
choose_best_example = choose_best list_set tables waiting 1

-- Three threads and two SSDs: two queues each.
two_queues : queue_cnt 3 2 ≡ some 2
unfolding queue_cnt
two_queues = refl

abbrev other : ℕ
other = 0

queue_id-queue_cnt_example :
    (ssd_id 2 2 < 2)
    × (queue_id 2 2 < 2)
    × (ssd_id 2 2 ≡ ssd_id other 2 → queue_id 2 2 ≡ queue_id other 2 → 2 ≡ other)
queue_id-queue_cnt_example = queue_id-queue_cnt 3 2 2 2 other (omega arith) two_queues (omega arith)

wait_reads-ends_example :
    (s' : Transfers ℕ) × (left : List (List Event)) × (wait_reads disk true 1
        ([] ∷ events ∷ [] ∷ [])
        idle
      ≡ some (s', left))
    × (s'.read_cnt ≡ 1)
    × (sum_of finish_cnt left ≡ 0)
wait_reads-ends_example = wait_reads-ends disk true 1 ([] ∷ events ∷ [] ∷ []) idle refl refl
