-- ===== src/Client/Measure.antt =====
-- client/src/client.cpp: what a turn makes of a worker, and measures that every turn lowers.
use max_embed.Prelude.{
  ℕ, suc, ◌+◌, ◌-◌, ◌≤◌, ◌<◌, ◌≡◌, refl, sym, subst, ap, ◌∙◌, Bool, true, false, List, [], ◌∷◌,
  none, some, arith, ◌==◌, if◌then◌else◌, to_ℕ, get_or, set, get_or-set, length, Bool-cases,
  Option-cases, ==→eq, inl, inr,
}
use max_embed.Client.{
  Args, Phase, turning, leaving, gone, Worker, Bench, Event, turns, reports, stride, next_iter,
  serve, idle_worker, pass_loop, return_worker, worker_turn, report, step, run,
}
use max_embed.Client.Flags.{is_gone, active}

-- How many turns of a worker, and passes of the monitor, a schedule has.
abbrev pub turn_cnt : ℕ → List Event → ℕ
turn_cnt tid [] = 0
turn_cnt tid (turns i l r ∷ es) = to_ℕ (i == tid) + turn_cnt tid es
turn_cnt tid (reports ∷ es) = turn_cnt tid es

abbrev pub report_cnt : List Event → ℕ
report_cnt [] = 0
report_cnt (turns i l r ∷ es) = report_cnt es
report_cnt (reports ∷ es) = suc (report_cnt es)

abbrev pub phase_of : ℕ → Bench → Phase
phase_of tid b = (get_or b.workers tid idle_worker).phase

-- The turns that a worker still needs once `stop` is set, and, with run_time 0, without it.
abbrev pub stop_turns : Phase → ℕ
stop_turns (turning iter) = 2
stop_turns leaving = 1
stop_turns gone = 0

abbrev pub end_turns : Args → Phase → ℕ
end_turns a (turning iter) = (a.index_len - iter) + 2
end_turns a leaving = 1
end_turns a gone = 0

phase-set :
    (b : Bench) (i tid : ℕ) (w : Worker)
    → i < length b.workers
    → phase_of tid (record b { workers = set b.workers i w })
      ≡ (if i == tid then w.phase else phase_of tid b)
phase-set b i tid w h =
    ap (λ (v : Worker). v.phase) (get_or-set b.workers i tid w idle_worker h) ∙ pick (i == tid)
  where
    pick :
        (c : Bool)
        → (if c then w else get_or b.workers tid idle_worker).phase
          ≡ (if c then w.phase else phase_of tid b)
    pick true = refl
    pick false = refl

-- What a turn makes of the worker's phase.
unfoldable pub phase_after : Args → ℕ → ℕ → Phase → Phase
phase_after a stop tid (turning iter) = elim (next_iter a tid iter) [
  | none ↦ leaving
  | some j ↦ if stop == 0 then turning (j + stride a) else leaving
]
phase_after a stop tid leaving = gone
phase_after a stop tid gone = gone

turned :
    (b : Bench) (i tid : ℕ) (w : Worker) (p : Phase)
    → is_gone (phase_of i b) ≡ 0
    → w.phase ≡ p
    → phase_of tid (record b { workers = set b.workers i w })
      ≡ (if i == tid then p else phase_of tid b)
turned b i tid w p g e =
    phase-set b i tid w (active b.workers i g) ∙ ap (λ q. if i == tid then q else phase_of tid b) e

phase-turn :
    (a : Args) (i l r tid : ℕ) (b : Bench) (p : Phase)
    → phase_of i b ≡ p
    → phase_of tid (worker_turn a i l r p b)
      ≡ (if i == tid then phase_after a b.stop i p else phase_of tid b)
unfolding worker_turn pass_loop return_worker phase_after serve
phase-turn a i l r tid b (turning iter) e = elim (Option-cases (next_iter a i iter)) [
  | inl n ↦ rw (n, pass_loop, phase_after) (turned b i tid _ leaving (ap is_gone e) refl)
  | inr (j, n) ↦
      rw (n, pass_loop, phase_after)
        (turned b i tid (serve a b.stop j (get_or b.workers i idle_worker)) _ (ap is_gone e) refl)
]
phase-turn a i l r tid b leaving e = turned b i tid _ gone (ap is_gone e) refl
phase-turn a i l r tid b gone e = elim (Bool-cases (i == tid)) [
  | inl same ↦ rw same (subst (λ k. phase_of k b ≡ gone) (==→eq i tid same) e)
  | inr other ↦ rw other refl
]

workers-report : (a : Args) (b : Bench) → (report a b).workers ≡ b.workers
unfolding report
workers-report a b = ground arith

pub workers-either :
    (a : Args) (b : Bench) (c : Bool) → (if c then b else report a b).workers ≡ b.workers
workers-either a b true = refl
workers-either a b false = workers-report a b

-- A measure of phases that every turn lowers while `C` holds, and the steps keep `C`.
module _ (a : Args) (C : Bench → Type 0) (μ : Phase → ℕ)
    (keep : (e : Event) (b : Bench) → C b → C (step a e b))
    (lower : (i : ℕ) (b : Bench) (p : Phase) → C b → μ (phase_after a b.stop i p) ≤ μ p - 1) where
  pub lower-run :
      (tid : ℕ) (es : List Event) (b : Bench)
      → C b
      → μ (phase_of tid (run a es b)) ≤ μ (phase_of tid b) - turn_cnt tid es
  unfolding run step
  lower-run tid [] b c = omega arith
  lower-run tid (reports ∷ es) b c =
      let b' = step a reports b in
      let same : phase_of tid b' ≡ phase_of tid b =
        ap (λ ws. (get_or ws tid idle_worker).phase) (workers-either a b b.monitor_left) in
      subst (λ p. μ (phase_of tid (run a es b')) ≤ μ p - turn_cnt tid es) same
        (lower-run tid es b' (keep reports b c))
  lower-run tid (turns i l r ∷ es) b c =
      let b' = step a (turns i l r) b in
      let e = phase-turn a i l r tid b (phase_of i b) refl in
      let rest = lower-run tid es b' (keep (turns i l r) b c) in
      elim (Bool-cases (i == tid)) [
        | inl same ↦
            let at = ==→eq i tid same in
            let here : μ (phase_of tid b') ≤ μ (phase_of tid b) - 1 =
              subst (λ p. μ p ≤ μ (phase_of tid b) - 1) (sym (e ∙ rw same refl))
                (subst (λ k. μ (phase_after a b.stop i (phase_of k b)) ≤ μ (phase_of tid b) - 1)
                  (sym at) (lower i b (phase_of tid b) c)) in
            rw same (omega (arith, rest, here))
        | inr other ↦
            let here : μ (phase_of tid b') ≡ μ (phase_of tid b) = ap μ (e ∙ rw other refl) in
            rw other (omega (arith, rest, here))
      ]
