-- ===== src/Client/Finish.antt =====
-- client/src/client.cpp: the workers and the monitor come to their ends.
use max_embed.Prelude.{
  ℕ, suc, ◌+◌, ◌-◌, ◌≤◌, ◌<◌, ◌≡◌, refl, sym, subst, ap, ◌∙◌, true, List, [], ◌∷◌, arith, ◌==◌,
  if◌then◌else◌, get_or, length, Bool-cases, Option-cases, ==_of_eq, inl, inr,
}
use mathlib.Core.Logic.{◌⊎◌}
use native.Mathlib.Nat.{mul-pos}
use max_embed.Client.{
  Args, Phase, turning, leaving, gone, Worker, Bench, Event, turns, reports, stride, next_iter,
  idle_worker, pass_loop, return_worker, worker_turn, report, step, run, begin,
}
use max_embed.Client.Flags.{is_gone, gone_cnt, IsSound, run-IsSound, begin-IsSound}
use max_embed.Client.Measure.{
  turn_cnt, report_cnt, phase_of, stop_turns, end_turns, phase_after, lower-run,
}

gone_of_stop : (p : Phase) → stop_turns p ≤ 0 → p ≡ gone
gone_of_stop (turning iter) h = absurd (omega arith)
gone_of_stop leaving h = absurd (omega arith)
gone_of_stop gone h = refl

gone_of_end : (a : Args) (p : Phase) → end_turns a p ≤ 0 → p ≡ gone
gone_of_end a (turning iter) h = absurd (omega arith)
gone_of_end a leaving h = absurd (omega arith)
gone_of_end a gone h = refl

end_turns-le : (a : Args) (p : Phase) → end_turns a p ≤ a.index_len + 2
end_turns-le a (turning iter) = omega arith
end_turns-le a leaving = omega arith
end_turns-le a gone = omega arith

gone_cnt-all :
    (ws : List Worker)
    → ((i : ℕ) → i < length ws → (get_or ws i idle_worker).phase ≡ gone)
    → gone_cnt ws ≡ length ws
gone_cnt-all [] h = refl
gone_cnt-all (w ∷ ws) h =
    omega (arith, ap is_gone (h 0 (omega arith)), gone_cnt-all ws (λ i l. h (suc i) (omega arith)))

lower-stop :
    (a : Args) (i : ℕ) (b : Bench) (p : Phase)
    → 0 < b.stop
    → stop_turns (phase_after a b.stop i p) ≤ stop_turns p - 1
unfolding phase_after
lower-stop a i b (turning iter) h = ground arith
lower-stop a i b leaving h = omega arith
lower-stop a i b gone h = omega arith

lower-end :
    (a : Args) (i : ℕ) (b : Bench) (p : Phase)
    → a.run_time ≡ 0
    → 0 < stride a
    → end_turns a (phase_after a b.stop i p) ≤ end_turns a p - 1
unfolding phase_after next_iter
lower-end a i b (turning iter) e h = ground arith
lower-end a i b leaving e h = omega arith
lower-end a i b gone e h = omega arith

keep-stop : (a : Args) (e : Event) (b : Bench) → 0 < b.stop → 0 < (step a e b).stop
unfolding step worker_turn pass_loop return_worker report
keep-stop a (turns i l r) b h = ground arith
keep-stop a reports b h = ground arith

-- All workers are gone, so `finished` counts them all.
finished_all :
    (a : Args) (b : Bench)
    → IsSound a b
    → ((tid : ℕ) → tid < a.num_threads → phase_of tid b ≡ gone)
    → b.finished ≡ a.num_threads
finished_all a b s h =
    s.counted ∙ gone_cnt-all b.workers (λ i l. h i (omega (arith, s.all))) ∙ s.all

report-finished :
    (a : Args) (b : Bench) → b.finished ≡ a.num_threads → (step a reports b).monitor_left ≡ true
unfolding step report
report-finished a b e = let f = ==_of_eq b.finished a.num_threads e in ground (arith, f)

-- With run_time 0, at least one thread and a positive batch size: once every worker had two turns more
-- than there are queries, in any interleaving, all workers have returned, `finished` says so, and the
-- monitor leaves its loop at its next pass at the latest.
pub run-finishes :
    (a : Args) (es : List Event)
    → a.run_time ≡ 0
    → 0 < a.num_threads
    → 0 < a.batch_size
    → ((tid : ℕ) → tid < a.num_threads → a.index_len + 2 ≤ turn_cnt tid es)
    → let b = run a es (begin a) in
      ((tid : ℕ) → tid < a.num_threads → phase_of tid b ≡ gone)
      × (b.finished ≡ a.num_threads)
      × ((step a reports b).monitor_left ≡ true)
run-finishes a es zero_time t p enough =
    let b = run a es (begin a) in
    let width : 0 < stride a = mul-pos t p in
    let each : (tid : ℕ) → tid < a.num_threads → phase_of tid b ≡ gone = λ tid l.
      gone_of_end a (phase_of tid b) (
        omega (
          arith,
          lower-run a (λ x. Unit) (end_turns a) (λ e x c. tt)
              (λ i x q c. lower-end a i x q zero_time width) tid es (begin a) tt,
          end_turns-le a (phase_of tid (begin a)),
          enough tid l,
        )) in
    let all = finished_all a b (run-IsSound a es (begin a) t (begin-IsSound a)) each in
    (each, all, report-finished a b all)

-- The monitor's loop is left, or has made `n` passes, fewer than run_time.
abbrev Passed : Args → ℕ → Bench → Type 0
Passed a n b = (b.monitor_left ≡ true) ⊎ ((b.cnt ≡ n) × (n < a.run_time))

monitor-turn :
    (a : Args) (i l r : ℕ) (p : Phase) (b : Bench)
    → ((worker_turn a i l r p b).monitor_left ≡ b.monitor_left)
      × ((worker_turn a i l r p b).cnt ≡ b.cnt)
unfolding worker_turn pass_loop return_worker
monitor-turn a i l r (turning iter) b = elim (Option-cases (next_iter a i iter)) [
  | inl n ↦ rw (n, pass_loop) (refl, refl)
  | inr (j, n) ↦ rw (n, pass_loop) (refl, refl)
]
monitor-turn a i l r leaving b = (refl, refl)
monitor-turn a i l r gone b = (refl, refl)

Passed-pass : (a : Args) (b : Bench) → b.cnt < a.run_time → Passed a (b.cnt + 1) (report a b)
unfolding report
Passed-pass a b l = elim (Bool-cases (b.finished == a.num_threads)) [
  | inl e ↦ rw (e, report) (inl refl)
  | inr e ↦ elim (Bool-cases (b.cnt + 1 == a.run_time)) [
    | inl f ↦ rw (e, f, report) (inl refl)
    | inr f ↦ rw (e, f, report) (inr (refl, ground arith))
  ]
]

Passed-report : (a : Args) (n : ℕ) (b : Bench) → Passed a n b → Passed a (n + 1) (step a reports b)
unfolding step
Passed-report a n b (inl e) =
    subst (λ c. Passed a (n + 1) (if c then b else report a b)) (sym e) (inl e)
Passed-report a n b (inr (c, l)) = elim (Bool-cases b.monitor_left) [
  | inl e ↦ subst (λ m. Passed a (n + 1) (if m then b else report a b)) (sym e) (inl e)
  | inr e ↦
      subst (λ m. Passed a (n + 1) (if m then b else report a b)) (sym e)
        (subst (λ k. Passed a (k + 1) (report a b)) c (Passed-pass a b (omega (arith, c, l))))
]

run-Passed :
    (a : Args) (n : ℕ) (es : List Event) (b : Bench)
    → Passed a n b
    → Passed a (n + report_cnt es) (run a es b)
unfolding run step
run-Passed a n [] b p = subst (λ m. Passed a m b) (omega arith) p
run-Passed a n (reports ∷ es) b p =
    subst (λ m. Passed a m (run a es (step a reports b))) (omega arith)
      (run-Passed a (n + 1) es (step a reports b) (Passed-report a n b p))
run-Passed a n (turns i l r ∷ es) b p =
    let (m, c) = monitor-turn a i l r (phase_of i b) b in
    run-Passed a n es (step a (turns i l r) b)
      (elim p [ inl e ↦ inl (m ∙ e) | inr (d, k) ↦ inr (c ∙ d, k) ])

begin-cnt : (a : Args) → (begin a).cnt ≡ 0
unfolding begin
begin-cnt a = refl

-- With a run_time and at least one thread: after at least run_time passes of the monitor, whatever the
-- workers did meanwhile, the monitor has left its loop and `stop` is set; after two more turns of every
-- worker all of them have returned, and `finished` says so.
pub run-stops :
    (a : Args) (before after : List Event)
    → 0 < a.run_time
    → 0 < a.num_threads
    → a.run_time ≤ report_cnt before
    → ((tid : ℕ) → tid < a.num_threads → 2 ≤ turn_cnt tid after)
    → let b = run a before (begin a) in
      let b' = run a after b in
      (b.monitor_left ≡ true)
      × (0 < b.stop)
      × ((tid : ℕ) → tid < a.num_threads → phase_of tid b' ≡ gone)
      × (b'.finished ≡ a.num_threads)
run-stops a before after time t passes enough =
    let b = run a before (begin a) in
    let b' = run a after b in
    let s = run-IsSound a before (begin a) t (begin-IsSound a) in
    let left : b.monitor_left ≡ true =
      elim (run-Passed a 0 before (begin a) (inr (begin-cnt a, time))) [
        | inl e ↦ e
        | inr (c, l) ↦ absurd (omega (arith, l, passes))
      ] in
    let stops = s.monitored left in
    let each : (tid : ℕ) → tid < a.num_threads → phase_of tid b' ≡ gone = λ tid l.
      gone_of_stop (phase_of tid b') (
        omega (
          arith,
          lower-run a (λ x. 0 < x.stop) stop_turns (keep-stop a) (lower-stop a) tid after b stops,
          stop_turns-le (phase_of tid b),
          enough tid l,
        )) in
    (left, stops, each, finished_all a b' (run-IsSound a after b t s) each)
  where
    stop_turns-le : (p : Phase) → stop_turns p ≤ 2
    stop_turns-le (turning iter) = omega arith
    stop_turns-le leaving = omega arith
    stop_turns-le gone = omega arith
