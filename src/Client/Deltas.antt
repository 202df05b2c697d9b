-- ===== src/Client/Deltas.antt =====
-- client/src/client.cpp: what the monitor prints, against what the workers did.
use max_embed.Prelude.{
  ℕ, zero, suc, ◌+◌, ◌-◌, ◌≤◌, ◌<◌, ◌≡◌, refl, sym, ap, Bool, true, false, List, [], ◌∷◌, ◌++◌,
  arith, ◌==◌, if◌then◌else◌, get_or, set, length, length-append, Option-cases, inl, inr,
}
use max_embed.Client.{
  Args, Phase, turning, leaving, gone, Worker, Bench, Event, turns, reports, next_iter, serve,
  idle_worker, pass_loop, return_worker, worker_turn, report, step, run, spawn, begin,
}
use max_embed.Client.Flags.{is_gone, active}

-- The requests that all workers handed to BatchGet.
abbrev pub served_cnt : List Worker → ℕ
served_cnt [] = 0
served_cnt (w ∷ ws) = length w.served + served_cnt ws

-- The sums of the differences printed.
abbrev pub loads : List (ℕ × ℕ × ℕ) → ℕ
loads [] = 0
loads (d ∷ ds) = d.0 + loads ds

abbrev pub requests : List (ℕ × ℕ × ℕ) → ℕ
requests [] = 0
requests (d ∷ ds) = d.1 + requests ds

abbrev pub batches : List (ℕ × ℕ × ℕ) → ℕ
batches [] = 0
batches (d ∷ ds) = d.2 + batches ds

-- The sums of what was printed are the counters that were read last, which are not above the counters;
-- and global_batch_cnt counts the requests.
pub record IsCounted (b : Bench) : Type 0 where
  pub load : (loads b.deltas ≡ b.last_load_cnt) × (b.last_load_cnt ≤ b.global_load_cnt)
  pub request :
      (requests b.deltas ≡ b.last_request_cnt) × (b.last_request_cnt ≤ b.global_request_cnt)
  pub batch : (batches b.deltas ≡ b.last_batch_cnt) × (b.last_batch_cnt ≤ b.global_batch_cnt)
  pub served : b.global_batch_cnt ≡ served_cnt b.workers

served_cnt-set :
    (ws : List Worker) (i : ℕ) (w : Worker)
    → i < length ws
    → served_cnt (set ws i w) + length (get_or ws i idle_worker).served
      ≡ served_cnt ws + length w.served
served_cnt-set [] i w h = absurd (omega arith)
served_cnt-set (x ∷ ws) zero w h = omega arith
served_cnt-set (x ∷ ws) (suc i) w h = omega (arith, served_cnt-set ws i w (omega arith))

sums-append :
    (ds : List (ℕ × ℕ × ℕ)) (x y z : ℕ)
    → let es = ds ++ (x, y, z) ∷ [] in
      (loads es ≡ loads ds + x) × (requests es ≡ requests ds + y) × (batches es ≡ batches ds + z)
sums-append [] x y z = (omega arith, omega arith, omega arith)
sums-append (d ∷ ds) x y z =
    let (l, r, n) = sums-append ds x y z in (omega (arith, l), omega (arith, r), omega (arith, n))

length-serve :
    (a : Args) (stop iter : ℕ) (w : Worker)
    → length (serve a stop iter w).served ≡ length w.served + 1
unfolding serve
length-serve a stop iter w = omega (arith, length-append w.served (iter ∷ []))

turn-IsCounted :
    (a : Args) (i l r : ℕ) (p : Phase) (b : Bench)
    → (get_or b.workers i idle_worker).phase ≡ p
    → IsCounted b
    → IsCounted (worker_turn a i l r p b)
unfolding worker_turn pass_loop return_worker
turn-IsCounted a i l r (turning iter) b e c =
    let w = get_or b.workers i idle_worker in
    let at = active b.workers i (ap is_gone e) in
    elim (Option-cases (next_iter a i iter)) [
      | inl n ↦
          rw (n, pass_loop)
            (record {
              load = c.load;
              request = c.request;
              batch = c.batch;
              served =
                  omega
                    (arith, c.served, served_cnt-set b.workers i (record w { phase = leaving }) at);
            })
      | inr (j, n) ↦
          rw (n, pass_loop)
            (record {
              load = (c.load.0, omega (arith, c.load.1));
              request = (c.request.0, omega (arith, c.request.1));
              batch = (c.batch.0, omega (arith, c.batch.1));
              served = omega (
                arith,
                c.served,
                served_cnt-set b.workers i (serve a b.stop j w) at,
                length-serve a b.stop j w,
              );
            })
    ]
turn-IsCounted a i l r leaving b e c =
    let w = get_or b.workers i idle_worker in
    let at = active b.workers i (ap is_gone e) in
    record {
      load = c.load;
      request = c.request;
      batch = c.batch;
      served = omega (arith, c.served, served_cnt-set b.workers i (record w { phase = gone }) at);
    }
turn-IsCounted a i l r gone b e c = c

report-IsCounted : (a : Args) (b : Bench) → IsCounted b → IsCounted (report a b)
unfolding report
report-IsCounted a b c =
    either (b.finished == a.num_threads) _ _ (counted _ _ _)
      (either (b.cnt + 1 == a.run_time) _ _ (counted _ _ _) (counted _ _ _))
  where
    either : (t : Bool) (x y : Bench) → IsCounted x → IsCounted y → IsCounted (if t then x else y)
    either true x y p q = p
    either false x y p q = q

    counted :
        (n stop : ℕ) (m : Bool)
        → IsCounted (record b {
          deltas =
              b.deltas
              ++ (
                b.global_load_cnt - b.last_load_cnt,
                b.global_request_cnt - b.last_request_cnt,
                b.global_batch_cnt - b.last_batch_cnt,
              )
                ∷ [];
          last_load_cnt = b.global_load_cnt;
          last_request_cnt = b.global_request_cnt;
          last_batch_cnt = b.global_batch_cnt;
          cnt = n;
          stop = stop;
          monitor_left = m;
        })
    counted n stop m =
        let (l, r, k) =
          sums-append b.deltas (b.global_load_cnt - b.last_load_cnt)
            (b.global_request_cnt - b.last_request_cnt) (b.global_batch_cnt - b.last_batch_cnt) in
        record {
          load = (omega (arith, l, c.load), omega arith);
          request = (omega (arith, r, c.request), omega arith);
          batch = (omega (arith, k, c.batch), omega arith);
          served = c.served;
        }

served_cnt-spawn : (a : Args) (n i : ℕ) → served_cnt (spawn a n i) ≡ 0
unfolding spawn
served_cnt-spawn a zero i = refl
served_cnt-spawn a (suc n) i = omega (arith, served_cnt-spawn a n (i + 1))

run-keeps : (a : Args) (es : List Event) (b : Bench) → IsCounted b → IsCounted (run a es b)
unfolding run step
run-keeps a [] b c = c
run-keeps a (turns i l r ∷ es) b c =
    run-keeps a es (step a (turns i l r) b)
      (turn-IsCounted a i l r (get_or b.workers i idle_worker).phase b refl c)
run-keeps a (reports ∷ es) b c = run-keeps a es (step a reports b) (either b.monitor_left)
  where
    either : (t : Bool) → IsCounted (if t then b else report a b)
    either true = c
    either false = report-IsCounted a b c

begin-IsCounted : (a : Args) → IsCounted (begin a)
unfolding begin
begin-IsCounted a = record {
  load = (refl, omega arith);
  request = (refl, omega arith);
  batch = (refl, omega arith);
  served = sym (served_cnt-spawn a a.num_threads 0);
}

-- In every interleaving of the threads, the differences that the monitor printed add up to the counters
-- as it read them last, which are not above the counters; and global_batch_cnt is the number of the
-- requests that the workers handed to BatchGet.
pub run-IsCounted : (a : Args) (es : List Event) → IsCounted (run a es (begin a))
run-IsCounted a es = run-keeps a es (begin a) (begin-IsCounted a)
