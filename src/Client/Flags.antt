-- ===== src/Client/Flags.antt =====
-- client/src/client.cpp: how `finished`, `stop` and the end of the monitor's loop follow the workers.
use max_embed.Prelude.{
  ℕ, zero, suc, ◌+◌, ◌≤◌, ◌<◌, ◌≡◌, refl, sym, ap, ◌∙◌, Bool, true, false, List, [], ◌∷◌, arith,
  ◌==◌, if◌then◌else◌, get_or, set, length, length-set, Bool-cases, Option-cases, ==→eq, inl, inr,
}
use max_embed.Client.{
  Args, Phase, turning, leaving, gone, Worker, Bench, Event, turns, reports, next_iter, serve,
  idle_worker, pass_loop, return_worker, worker_turn, report, step, run, spawn, begin,
}

abbrev pub is_gone : Phase → ℕ
is_gone (turning iter) = 0
is_gone leaving = 0
is_gone gone = 1

abbrev pub gone_cnt : List Worker → ℕ
gone_cnt [] = 0
gone_cnt (w ∷ ws) = is_gone w.phase + gone_cnt ws

gone_cnt-set :
    (ws : List Worker) (i : ℕ) (w : Worker)
    → i < length ws
    → gone_cnt (set ws i w) + is_gone (get_or ws i idle_worker).phase
      ≡ gone_cnt ws + is_gone w.phase
gone_cnt-set [] i w h = absurd (omega arith)
gone_cnt-set (x ∷ ws) zero w h = omega arith
gone_cnt-set (x ∷ ws) (suc i) w h = omega (arith, gone_cnt-set ws i w (omega arith))

get_or-past : (ws : List Worker) (i : ℕ) → length ws ≤ i → get_or ws i idle_worker ≡ idle_worker
get_or-past [] i h = refl
get_or-past (w ∷ ws) zero h = absurd (omega arith)
get_or-past (w ∷ ws) (suc i) h = get_or-past ws i (omega arith)

-- A worker that is not gone is one of the list.
pub active :
    (ws : List Worker) (i : ℕ) → is_gone (get_or ws i idle_worker).phase ≡ 0 → i < length ws
active [] i h = absurd (omega (arith, h))
active (w ∷ ws) zero h = omega arith
active (w ∷ ws) (suc i) h = omega (arith, active ws i h)

pub record IsSound (a : Args) (b : Bench) : Type 0 where
  pub all : length b.workers ≡ a.num_threads
  pub counted : b.finished ≡ gone_cnt b.workers
  pub stopping : 0 < b.finished → 0 < b.stop
  pub monitored : b.monitor_left ≡ true → 0 < b.stop

serve-gone : (a : Args) (stop iter : ℕ) (w : Worker) → is_gone (serve a stop iter w).phase ≡ 0
unfolding serve
serve-gone a stop iter w = ground arith

pass_loop-IsSound :
    (a : Args) (tid iter l r : ℕ) (b : Bench)
    → (get_or b.workers tid idle_worker).phase ≡ turning iter
    → IsSound a b
    → IsSound a (pass_loop a tid iter l r b)
unfolding pass_loop
pass_loop-IsSound a tid iter l r b e s =
    let w = get_or b.workers tid idle_worker in
    let here : is_gone w.phase ≡ 0 = ap is_gone e in
    let i = active b.workers tid here in
    let keeps : (v : Worker) → is_gone v.phase ≡ 0 → b.finished ≡ gone_cnt (set b.workers tid v) =
      λ v h. omega (arith, s.counted, gone_cnt-set b.workers tid v i, here, h) in
    elim (Option-cases (next_iter a tid iter)) [
      | inl n ↦
          rw (n, pass_loop)
            (record {
              all = length-set b.workers tid _ ∙ s.all;
              counted = keeps _ refl;
              stopping = s.stopping;
              monitored = s.monitored;
            })
      | inr (j, n) ↦
          rw (n, pass_loop)
            (record {
              all = length-set b.workers tid _ ∙ s.all;
              counted = keeps _ (serve-gone a b.stop j w);
              stopping = s.stopping;
              monitored = s.monitored;
            })
    ]

return_worker-IsSound :
    (a : Args) (tid : ℕ) (b : Bench)
    → (get_or b.workers tid idle_worker).phase ≡ leaving
    → IsSound a b
    → IsSound a (return_worker tid b)
unfolding return_worker
return_worker-IsSound a tid b e s =
    let w = get_or b.workers tid idle_worker in
    let here : is_gone w.phase ≡ 0 = ap is_gone e in
    let v : Worker = record w { phase = gone } in
    record {
      all = length-set b.workers tid v ∙ s.all;
      counted =
          omega (arith, s.counted, gone_cnt-set b.workers tid v (active b.workers tid here), here);
      stopping = λ h. omega arith;
      monitored = λ h. omega arith;
    }

report-IsSound : (a : Args) (b : Bench) → 0 < a.num_threads → IsSound a b → IsSound a (report a b)
unfolding report
report-IsSound a b t s = elim (Bool-cases (b.finished == a.num_threads)) [
  | inl e ↦
      rw (e, report)
        (record {
          all = s.all;
          counted = s.counted;
          stopping = s.stopping;
          monitored = λ h. s.stopping (omega (arith, t, ==→eq b.finished a.num_threads e));
        })
  | inr e ↦ elim (Bool-cases (b.cnt + 1 == a.run_time)) [
    | inl f ↦
        rw (e, f, report)
          (record {
            all = s.all;
            counted = s.counted;
            stopping = λ h. omega arith;
            monitored = λ h. omega arith;
          })
    | inr f ↦
        rw (e, f, report)
          (record {
            all = s.all;
            counted = s.counted;
            stopping = s.stopping;
            monitored = s.monitored;
          })
  ]
]

pub step-IsSound :
    (a : Args) (e : Event) (b : Bench) → 0 < a.num_threads → IsSound a b → IsSound a (step a e b)
unfolding step worker_turn
step-IsSound a reports b t s = either b.monitor_left
  where
    either : (c : Bool) → IsSound a (if c then b else report a b)
    either true = s
    either false = report-IsSound a b t s
step-IsSound a (turns tid l r) b t s = turn (get_or b.workers tid idle_worker).phase refl
  where
    turn :
        (p : Phase)
        → (get_or b.workers tid idle_worker).phase ≡ p
        → IsSound a (worker_turn a tid l r p b)
    turn (turning iter) e = pass_loop-IsSound a tid iter l r b e s
    turn leaving e = return_worker-IsSound a tid b e s
    turn gone e = s

pub run-IsSound :
    (a : Args) (es : List Event) (b : Bench)
    → 0 < a.num_threads
    → IsSound a b
    → IsSound a (run a es b)
unfolding run
run-IsSound a [] b t s = s
run-IsSound a (e ∷ es) b t s = run-IsSound a es (step a e b) t (step-IsSound a e b t s)

length-spawn : (a : Args) (n i : ℕ) → length (spawn a n i) ≡ n
unfolding spawn
length-spawn a zero i = refl
length-spawn a (suc n) i = ap suc (length-spawn a n (i + 1))

gone_cnt-spawn : (a : Args) (n i : ℕ) → gone_cnt (spawn a n i) ≡ 0
unfolding spawn
gone_cnt-spawn a zero i = refl
gone_cnt-spawn a (suc n) i = omega (arith, gone_cnt-spawn a n (i + 1))

pub begin-IsSound : (a : Args) → IsSound a (begin a)
unfolding begin
begin-IsSound a = record {
  all = length-spawn a a.num_threads 0;
  counted = sym (gone_cnt-spawn a a.num_threads 0);
  stopping = λ h. absurd (omega (arith, h));
  monitored = λ h. cc;
}
