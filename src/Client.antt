-- ===== src/Client.antt =====
-- client/src/client.cpp, main: the worker threads, the monitor, and the flags between them. A worker's
-- turn is one pass of its loop, with `stop` read once at its end, or what it does behind the loop.
-- Where a pass takes its batches from is in Client/Work, the statistics are in Client/Stats.
pub mod Work
pub mod Flags
pub mod Measure
pub mod Finish
pub mod Once
pub mod Whole
pub mod Deltas
pub mod Latency
pub mod Stats
pub mod Tests
use max_embed.Prelude.{
  ℕ, zero, suc, ◌+◌, ◌-◌, ◌*◌, Bool, true, false, List, [], ◌∷◌, ◌++◌, Option, none, some, ltb, leb,
  ◌==◌, not, if◌then◌else◌, get_or, set,
}

-- The arguments that the threads read; index_len is the distance from begin() to end().
pub record Args : Type 0 where
  pub batch_size : ℕ
  pub num_threads : ℕ
  pub run_time : ℕ
  pub index_len : ℕ

-- `turning` is a worker at the head of its loop with `iter`, `leaving` one that broke out of it, `gone`
-- one that returned.
pub data Phase : Type 0 where
  turning : ℕ → Phase
  leaving gone : Phase

-- `served` lists where the requests began that the worker gave to BatchGet.
pub record Worker : Type 0 where
  pub phase : Phase
  pub served : List ℕ

-- `cnt` to `deltas` are the monitor's: what it read last, what it printed, and whether its loop is
-- left.
pub record Bench : Type 0 where
  pub workers : List Worker
  pub stop : ℕ
  pub finished : ℕ
  pub global_load_cnt : ℕ
  pub global_request_cnt : ℕ
  pub global_batch_cnt : ℕ
  pub cnt : ℕ
  pub last_load_cnt : ℕ
  pub last_request_cnt : ℕ
  pub last_batch_cnt : ℕ
  pub deltas : List (ℕ × ℕ × ℕ)
  pub monitor_left : Bool

-- A worker's turn comes with load_cnt and load_emb_cnt of the GetResult, if it calls BatchGet.
pub data Event : Type 0 where
  turns : ℕ → ℕ → ℕ → Event
  reports : Event

abbrev pub start_iter : Args → ℕ → ℕ
start_iter a tid = tid * a.batch_size

abbrev pub stride : Args → ℕ
stride a = a.num_threads * a.batch_size

-- if (iter >= end_iter) …: `none` is the break.
unfoldable pub next_iter : Args → ℕ → ℕ → Option ℕ
next_iter a tid iter =
    if leb a.index_len iter
    then (if a.run_time == 0 then none else some (start_iter a tid))
    else some iter

-- The request of one pass, and the stop test.
unfoldable pub serve : Args → ℕ → ℕ → Worker → Worker
serve a stop iter w = record {
  phase = if stop == 0 then turning (iter + stride a) else leaving;
  served = w.served ++ iter ∷ [];
}

abbrev pub idle_worker : Worker
idle_worker = record { phase = gone; served = [] }

-- A pass of the worker's loop. Its latencies are in Client/Latency, the delay is left out.
unfoldable pub pass_loop : Args → ℕ → ℕ → ℕ → ℕ → Bench → Bench
pass_loop a tid iter load_cnt load_emb_cnt b =
    let w = get_or b.workers tid idle_worker in
    elim (next_iter a tid iter) [
      | none ↦ record b { workers = set b.workers tid (record w { phase = leaving }) }
      | some i ↦ record b {
        workers = set b.workers tid (serve a b.stop i w);
        global_load_cnt = b.global_load_cnt + load_cnt;
        global_request_cnt = b.global_request_cnt + load_emb_cnt;
        global_batch_cnt = b.global_batch_cnt + 1;
      }
    ]

-- stop.store(1); finished.fetch_add(1);
unfoldable pub return_worker : ℕ → Bench → Bench
return_worker tid b = record b {
  workers = set b.workers tid (record (get_or b.workers tid idle_worker) { phase = gone });
  stop = 1;
  finished = b.finished + 1;
}

unfoldable pub worker_turn : Args → ℕ → ℕ → ℕ → Phase → Bench → Bench
worker_turn a tid load_cnt load_emb_cnt (turning iter) b =
    pass_loop a tid iter load_cnt load_emb_cnt b
worker_turn a tid load_cnt load_emb_cnt leaving b = return_worker tid b
worker_turn a tid load_cnt load_emb_cnt gone b = b

-- One pass of the monitor's loop. The bandwidths and latencies that it prints are left out.
unfoldable pub report : Args → Bench → Bench
report a b =
    let b' = record b {
      deltas =
          b.deltas
          ++ (
            b.global_load_cnt - b.last_load_cnt,
            b.global_request_cnt - b.last_request_cnt,
            b.global_batch_cnt - b.last_batch_cnt,
          )
            ∷ [];
      last_load_cnt = b.global_load_cnt;
      last_request_cnt = b.global_request_cnt;
      last_batch_cnt = b.global_batch_cnt;
    } in
    if b.finished == a.num_threads
    then record b' { monitor_left = true }
    else if b.cnt + 1 == a.run_time
    then record b' { cnt = b.cnt + 1; stop = 1; monitor_left = true }
    else record b' { cnt = b.cnt + 1 }

unfoldable pub step : Args → Event → Bench → Bench
step a (turns tid load_cnt load_emb_cnt) b =
    worker_turn a tid load_cnt load_emb_cnt (get_or b.workers tid idle_worker).phase b
step a reports b = if b.monitor_left then b else report a b

unfoldable pub run : Args → List Event → Bench → Bench
run a [] b = b
run a (e ∷ es) b = run a es (step a e b)

-- threads.emplace_back(worker, i), from the i-th on.
unfoldable pub spawn : Args → ℕ → ℕ → List Worker
spawn a zero i = []
spawn a (suc n) i = record { phase = turning (start_iter a i); served = [] } ∷ spawn a n (i + 1)

unfoldable pub begin : Args → Bench
begin a = record {
  workers = spawn a a.num_threads 0;
  stop = 0;
  finished = 0;
  global_load_cnt = 0;
  global_request_cnt = 0;
  global_batch_cnt = 0;
  cnt = 0;
  last_load_cnt = 0;
  last_request_cnt = 0;
  last_batch_cnt = 0;
  deltas = [];
  monitor_left = false;
}
