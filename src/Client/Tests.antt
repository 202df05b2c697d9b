-- ===== src/Client/Tests.antt =====
-- Runs of the benchmark's threads at concrete arguments, and their theorems there.
use max_embed.Prelude.{
  ℕ, zero, suc, ◌+◌, ◌-◌, ◌≤◌, ◌<◌, ◌≡◌, refl, Bool, ltb, true, false, List, [], ◌∷◌, none, some,
  arith, map,
}
use max_embed.Client.{
  Args, leaving, gone, Worker, Event, turns, reports, next_iter, serve, pass_loop, return_worker,
  worker_turn, report, step, run, spawn, begin,
}
use max_embed.Client.Work.{work}
use max_embed.Client.Measure.{turn_cnt, phase_of}
use max_embed.Client.Finish.{run-finishes, run-stops}
use max_embed.Client.Once.{handed, handed_once}
use max_embed.Client.Whole.{handed_all}
use max_embed.Client.Deltas.{IsCounted, run-IsCounted}
use max_embed.Client.Latency.{Measured, IsTallied, record_all, no_latencies, record_all-IsTallied}
use max_embed.Client.Stats.{
  sum_from, process_stats, min_size, process_stats_n, total_all, process_stats_n-sums,
  process_stats_n-fails,
}

-- Two threads, and queries for three requests of two.
abbrev args : Args
args = record { batch_size = 2; num_threads = 2; run_time = 0; index_len = 6 }

shares : work args 6 0 ≡ 0 ∷ 4 ∷ []
unfolding work
shares = refl

abbrev turn : ℕ → Event
turn tid = turns tid 1 2

-- Thread 1 has one request only. It returns and sets `stop`, so thread 0 never takes its second one.
abbrev early : List Event
early = turn 1 ∷ turn 1 ∷ turn 1 ∷ turn 0 ∷ reports ∷ turn 0 ∷ []

lost :
    map (λ (w : Worker). w.served) (run args early (begin args)).workers ≡ (0 ∷ []) ∷ (2 ∷ []) ∷ []
unfolding run step worker_turn pass_loop return_worker report next_iter serve begin spawn
lost = refl

handed_once_example : handed args 3 (run args early (begin args)).workers ≤ 1
handed_once_example = handed_once args early 3 refl (omega arith) (omega arith) (omega arith)

-- Both threads come to the end, and thread 0 has not returned when thread 1 leaves its loop.
abbrev whole : List Event
whole = turn 0 ∷ turn 1 ∷ turn 0 ∷ turn 1 ∷ turn 0 ∷ []

running : (run args whole (begin args)).stop ≡ 0
unfolding run step worker_turn pass_loop return_worker next_iter serve begin spawn
running = refl

all_left : (tid : ℕ) → tid < 2 → phase_of tid (run args whole (begin args)) ≡ leaving
unfolding run step worker_turn pass_loop return_worker next_iter serve begin spawn
all_left zero h = refl
all_left (suc zero) h = refl
all_left (suc (suc tid)) h = absurd (omega arith)

handed_all_example : handed args 4 (run args whole (begin args)).workers ≡ 1
handed_all_example =
    handed_all args whole 4 refl (omega arith) (omega arith) (omega arith) running all_left

run-IsCounted_example : IsCounted (run args early (begin args))
run-IsCounted_example = run-IsCounted args early

abbrev rounds : ℕ → List Event
rounds zero = []
rounds (suc n) = turn 0 ∷ turn 1 ∷ rounds n

enough : (tid : ℕ) → tid < 2 → 6 + 2 ≤ turn_cnt tid (rounds 8)
enough zero h = omega arith
enough (suc zero) h = omega arith
enough (suc (suc tid)) h = absurd (omega arith)

run-finishes_example :
    let b = run args (rounds 8) (begin args) in
    ((tid : ℕ) → tid < 2 → phase_of tid b ≡ gone)
    × (b.finished ≡ 2)
    × ((step args reports b).monitor_left ≡ true)
run-finishes_example = run-finishes args (rounds 8) refl (omega arith) (omega arith) enough

abbrev timed : Args
timed = record { batch_size = 2; num_threads = 2; run_time = 1; index_len = 6 }

two_turns : (tid : ℕ) → tid < 2 → 2 ≤ turn_cnt tid (rounds 2)
two_turns zero h = omega arith
two_turns (suc zero) h = omega arith
two_turns (suc (suc tid)) h = absurd (omega arith)

run-stops_example :
    let b = run timed (turn 0 ∷ reports ∷ []) (begin timed) in
    let b' = run timed (rounds 2) b in
    (b.monitor_left ≡ true)
    × (0 < b.stop)
    × ((tid : ℕ) → tid < 2 → phase_of tid b' ≡ gone)
    × (b'.finished ≡ 2)
run-stops_example =
    run-stops timed (turn 0 ∷ reports ∷ []) (rounds 2) (omega arith) (omega arith) (omega arith)
      two_turns

-- Entries of one unit and one request each.
abbrev entries : ℕ → List (ℕ × ℕ)
entries zero = []
entries (suc n) = (1, 1) ∷ entries n

middle : process_stats ◌+◌ (entries 9) 0 ≡ some (2, 2)
unfolding process_stats sum_from
middle = refl

process_stats_n-sums_example :
    process_stats_n ◌+◌ (entries 9 ∷ entries 8 ∷ []) 0
    ≡ some (
        total_all ◌+◌ (min_size ◌+◌ 9 (entries 8 ∷ []) - 2 - 5) (entries 9 ∷ entries 8 ∷ []) (0, 0))
process_stats_n-sums_example =
    process_stats_n-sums ◌+◌ (entries 9) (entries 8 ∷ []) 0 (omega arith) (omega arith)
      (omega arith, tt)

short : min_size ◌+◌ 9 (entries 1 ∷ []) < 2
unfolding min_size
short = omega arith

process_stats_n-fails_example : process_stats_n ◌+◌ (entries 9 ∷ entries 1 ∷ []) 0 ≡ none
process_stats_n-fails_example =
    process_stats_n-fails ◌+◌ (entries 9) (entries 1 ∷ []) 0 (omega arith) short

abbrev sample : Measured ℕ
sample = record {
  timer_prepare1 = 1;
  timer_prepare2 = 2;
  timer_tot = 3;
  timer = 6;
  model_timer = 0;
}

abbrev passes : List (Bool × Measured ℕ)
passes = (false, sample) ∷ (true, sample) ∷ (true, sample) ∷ []

record_all-IsTallied_example :
    IsTallied 0 ◌+◌ ◌-◌ ltb 3 (record_all 0 ◌+◌ ◌-◌ ltb passes (no_latencies 0 ◌+◌ ◌-◌ ltb))
record_all-IsTallied_example = record_all-IsTallied 0 ◌+◌ ◌-◌ ltb passes
