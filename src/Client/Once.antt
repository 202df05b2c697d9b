-- ===== src/Client/Once.antt =====
-- client/src/client.cpp: the queries that the workers hand to BatchGet.
use mathlib.Core.List.{append_assoc}
use native.Mathlib.Nat.{mul-pos}
use max_embed.Prelude.{
  ℕ, zero, suc, ◌+◌, ◌≤◌, ◌<◌, ◌≡◌, refl, sym, subst, ap, ◌∙◌, Bool, true, false, List, [], ◌∷◌,
  ◌++◌, none, some, arith, le→leb, ◌==◌, if◌then◌else◌, get_or, set, get_or-set, length,
  Option-cases, ==→eq, lt→leb, inl, inr,
}
use max_embed.Client.{
  Args, Phase, turning, leaving, gone, Worker, Bench, Event, turns, reports, start_iter, stride,
  next_iter, serve, idle_worker, pass_loop, return_worker, worker_turn, report, step, run, spawn,
  begin,
}
use max_embed.Client.Flags.{is_gone, active, run-IsSound, begin-IsSound}
use max_embed.Client.Measure.{workers-either}
use max_embed.Client.Work.{work, holding, holding_all, work_shared}

-- What is left of a worker's work: the batches from `iter` on while it turns, none when it left the
-- loop and nobody has set `stop`.
abbrev pub IsLeft : Args → ℕ → Phase → List ℕ → Type 0
IsLeft a stop (turning iter) rest = (n : ℕ) × (rest ≡ work a n iter) × (a.index_len ≤ iter + n)
IsLeft a stop leaving rest = stop ≡ 0 → rest ≡ []
IsLeft a stop gone rest = Unit

-- The worker has handed over the first batches of its work, in order.
abbrev pub IsPart : Args → ℕ → ℕ → Worker → Type 0
IsPart a stop tid w =
    (rest : List ℕ) × (work a a.index_len (start_iter a tid) ≡ w.served ++ rest)
    × IsLeft a stop w.phase rest

-- How many of the requests that were handed to BatchGet hold the q-th query.
unfoldable pub handed : Args → ℕ → List Worker → ℕ
handed a q [] = 0
handed a q (w ∷ ws) = holding a q w.served + handed a q ws

abbrev pub worker_of : ℕ → Bench → Worker
worker_of tid b = get_or b.workers tid idle_worker

IsLeft-later :
    (a : Args) (stop stop' : ℕ) (p : Phase) (rest : List ℕ)
    → (stop' ≡ 0 → stop ≡ 0)
    → IsLeft a stop p rest
    → IsLeft a stop' p rest
IsLeft-later a stop stop' (turning iter) rest h l = l
IsLeft-later a stop stop' leaving rest h l = λ z. l (h z)
IsLeft-later a stop stop' gone rest h l = tt

IsPart-later :
    (a : Args) (stop stop' tid : ℕ) (w : Worker)
    → (stop' ≡ 0 → stop ≡ 0)
    → IsPart a stop tid w
    → IsPart a stop' tid w
IsPart-later a stop stop' tid w h (rest, e, l) =
    (rest, e, IsLeft-later a stop stop' w.phase rest h l)

IsPart-set :
    (a : Args) (stop tid i : ℕ) (w : Worker) (ws : List Worker)
    → i < length ws
    → IsPart a stop i w
    → IsPart a stop tid (get_or ws tid idle_worker)
    → IsPart a stop tid (get_or (set ws i w) tid idle_worker)
IsPart-set a stop tid i w ws l p q =
    subst (IsPart a stop tid) (sym (get_or-set ws i tid w idle_worker l))
      (pick (i == tid) (==→eq i tid))
  where
    pick :
        (c : Bool)
        → (c ≡ true → i ≡ tid)
        → IsPart a stop tid (if c then w else get_or ws tid idle_worker)
    pick true e = subst (λ k. IsPart a stop k w) (e refl) p
    pick false e = q

IsPart-serve :
    (a : Args) (tid stop iter n : ℕ) (w : Worker)
    → work a a.index_len (start_iter a tid) ≡ w.served ++ work a (suc n) iter
    → 0 < stride a
    → iter < a.index_len
    → a.index_len ≤ iter + suc n
    → IsPart a stop tid (serve a stop iter w)
unfolding serve work
IsPart-serve a tid stop iter n w e s l f =
    let rest = work a n (iter + stride a) in
    let split : work a a.index_len (start_iter a tid) ≡ (w.served ++ iter ∷ []) ++ rest =
      e
      ∙ ap (λ (xs : List ℕ). w.served ++ xs) (rw (lt→leb a.index_len iter l) refl)
      ∙ sym (append_assoc w.served (iter ∷ []) rest) in
    (rest, split, next (stop == 0) refl)
  where
    next :
        (c : Bool)
        → stop == 0 ≡ c
        → IsLeft a stop
            (if c then turning (iter + stride a) else leaving)
            (work a n (iter + stride a))
    next true e = (n, refl, omega arith)
    next false e = λ z. absurd (ground (arith, e, z))

next_iter-some :
    (a : Args) (tid iter j : ℕ)
    → a.run_time ≡ 0
    → next_iter a tid iter ≡ some j
    → (iter < a.index_len) × (j ≡ iter)
unfolding next_iter
next_iter-some a tid iter j z e = (ground arith, ground arith)

work-end : (a : Args) (n iter : ℕ) → a.index_len ≤ iter → work a n iter ≡ []
unfolding work
work-end a zero iter h = refl
work-end a (suc n) iter h = rw (le→leb a.index_len iter h) refl

next_iter-none : (a : Args) (tid iter : ℕ) → next_iter a tid iter ≡ none → a.index_len ≤ iter
unfolding next_iter
next_iter-none a tid iter e = ground arith

IsPart-turn :
    (a : Args) (i l r tid : ℕ) (b : Bench) (p : Phase)
    → a.run_time ≡ 0
    → 0 < stride a
    → (worker_of i b).phase ≡ p
    → IsPart a b.stop i (worker_of i b)
    → IsPart a b.stop tid (worker_of tid b)
    → let b' = worker_turn a i l r p b in IsPart a b'.stop tid (worker_of tid b')
unfolding worker_turn pass_loop return_worker
IsPart-turn a i l r tid b (turning iter) zt s e h k =
    let (rest, split, left) = h in
    let at = active b.workers i (ap is_gone e) in
    let (m, r, f) = subst (λ q. IsLeft a b.stop q rest) e left in
    elim (Option-cases (next_iter a i iter)) [
      | inl n ↦
          let none_left = λ (z : b.stop ≡ 0). r ∙ work-end a m iter (next_iter-none a i iter n) in
          rw (n, pass_loop) (IsPart-set a b.stop tid i _ b.workers at (rest, split, none_left) k)
      | inr (j, n) ↦
          let (l, same) = next_iter-some a i iter j zt n in
          rw (n, pass_loop)
            (IsPart-set a b.stop tid i _ b.workers at
              (more m j same l f (split ∙ ap (λ xs. (worker_of i b).served ++ xs) r)) k)
    ]
  where
    more :
        (m j : ℕ)
        → j ≡ iter
        → iter < a.index_len
        → a.index_len ≤ iter + m
        → work a a.index_len (start_iter a i) ≡ (worker_of i b).served ++ work a m iter
        → IsPart a b.stop i (serve a b.stop j (worker_of i b))
    more zero j q l f w = absurd (omega arith)
    more (suc m) j q l f w =
        subst (λ x. IsPart a b.stop i (serve a b.stop x (worker_of i b))) (sym q)
          (IsPart-serve a i b.stop iter m (worker_of i b) w s l f)
IsPart-turn a i l r tid b leaving zt s e h k =
    let (rest, split, _) = h in
    let later = λ (z : 1 ≡ 0). absurd (omega (arith, z)) in
    IsPart-set a 1 tid i _ b.workers (active b.workers i (ap is_gone e)) (rest, split, tt)
      (IsPart-later a b.stop 1 tid _ later k)
IsPart-turn a i l r tid b gone zt s e h k = k

stop-report : (a : Args) (b : Bench) → (step a reports b).stop ≡ 0 → b.stop ≡ 0
unfolding step report
stop-report a b h = ground arith

IsPart-run :
    (a : Args) (es : List Event) (b : Bench)
    → a.run_time ≡ 0
    → 0 < stride a
    → ((tid : ℕ) → IsPart a b.stop tid (worker_of tid b))
    → let b' = run a es b in (tid : ℕ) → IsPart a b'.stop tid (worker_of tid b')
unfolding run step
IsPart-run a [] b z s h = h
IsPart-run a (turns i l r ∷ es) b z s h =
    IsPart-run a es (step a (turns i l r) b) z s
      (λ tid. IsPart-turn a i l r tid b (worker_of i b).phase z s refl (h i) (h tid))
IsPart-run a (reports ∷ es) b z s h = IsPart-run a es (step a reports b) z s (λ tid.
    subst (λ ws. IsPart a (step a reports b).stop tid (get_or ws tid idle_worker))
      (sym (workers-either a b b.monitor_left))
      (IsPart-later a b.stop (step a reports b).stop tid _ (stop-report a b) (h tid)))

idle-IsPart : (a : Args) (tid : ℕ) → IsPart a 0 tid idle_worker
idle-IsPart a tid = (work a a.index_len (start_iter a tid), refl, tt)

spawn-IsPart :
    (a : Args) (n i tid : ℕ) → IsPart a 0 (i + tid) (get_or (spawn a n i) tid idle_worker)
unfolding spawn
spawn-IsPart a zero i tid = idle-IsPart a (i + tid)
spawn-IsPart a (suc n) i zero =
    let e : i ≡ i + 0 = omega arith in
    subst (λ k. IsPart a 0 k (record { phase = turning (start_iter a i); served = [] })) e
      (work a a.index_len (start_iter a i), refl, (a.index_len, refl, omega arith))
spawn-IsPart a (suc n) i (suc tid) =
    let e : i + 1 + tid ≡ i + suc tid = omega arith in
    subst (λ k. IsPart a 0 k (get_or (spawn a n (i + 1)) tid idle_worker)) e
      (spawn-IsPart a n (i + 1) tid)

begin-IsPart : (a : Args) (tid : ℕ) → IsPart a (begin a).stop tid (worker_of tid (begin a))
unfolding begin
begin-IsPart a tid =
    let e : 0 + tid ≡ tid = omega arith in
    subst (λ k. IsPart a 0 k (get_or (spawn a a.num_threads 0) tid idle_worker)) e
      (spawn-IsPart a a.num_threads 0 tid)

-- What every worker has handed over after any interleaving.
pub begin-run-IsPart :
    (a : Args) (es : List Event)
    → a.run_time ≡ 0
    → 0 < a.num_threads
    → 0 < a.batch_size
    → let b = run a es (begin a) in (tid : ℕ) → IsPart a b.stop tid (worker_of tid b)
begin-run-IsPart a es z t p = IsPart-run a es (begin a) z (mul-pos t p) (begin-IsPart a)

holding-append :
    (a : Args) (q : ℕ) (xs ys : List ℕ) → holding a q (xs ++ ys) ≡ holding a q xs + holding a q ys
unfolding holding
holding-append a q [] ys = omega arith
holding-append a q (x ∷ xs) ys = omega (arith, holding-append a q xs ys)

holding-part :
    (a : Args) (q stop tid : ℕ) (w : Worker)
    → IsPart a stop tid w
    → holding a q w.served ≤ holding a q (work a a.index_len (start_iter a tid))
holding-part a q stop tid w (rest, e, _) =
    omega (arith, ap (holding a q) e, holding-append a q w.served rest)

handed-le :
    (a : Args) (q stop i : ℕ) (ws : List Worker)
    → ((tid : ℕ) → IsPart a stop (i + tid) (get_or ws tid idle_worker))
    → handed a q ws + holding_all a q i ≤ holding_all a q (i + length ws)
unfolding handed holding_all
handed-le a q stop i [] h = ap-le (omega arith)
  where
    ap-le : i ≡ i + 0 → 0 + holding_all a q i ≤ holding_all a q (i + 0)
    ap-le e = omega (arith, ap (holding_all a q) e)
handed-le a q stop i (w ∷ ws) h =
    let at : i + 0 ≡ i = omega arith in
    let here = holding-part a q stop i w (subst (λ k. IsPart a stop k w) at (h 0)) in
    let rest = handed-le a q stop (i + 1) ws (λ tid.
      subst (λ k. IsPart a stop k (get_or ws tid idle_worker)) (omega arith) (h (suc tid))) in
    let next : i + 1 ≡ suc i = omega arith in
    let past : i + 1 + length ws ≡ i + suc (length ws) = omega arith in
    let one : holding_all a q (suc i)
        ≡ holding_all a q i + holding a q (work a a.index_len (start_iter a i)) =
      refl in
    omega (arith, here, rest, one, ap (holding_all a q) next, ap (holding_all a q) past)

-- With run_time 0, at least one thread and a positive batch size: in no interleaving of the threads is
-- a query in two of the requests that BatchGet was given.
pub handed_once :
    (a : Args) (es : List Event) (q : ℕ)
    → a.run_time ≡ 0
    → 0 < a.num_threads
    → 0 < a.batch_size
    → q < a.index_len
    → handed a q (run a es (begin a)).workers ≤ 1
handed_once a es q z t p l =
    let b = run a es (begin a) in
    let size = (run-IsSound a es (begin a) t (begin-IsSound a)).all in
    let parts = begin-run-IsPart a es z t p in
    let few =
      handed-le a q b.stop 0 b.workers
        (λ tid. subst (λ k. IsPart a b.stop k (worker_of tid b)) (omega arith) (parts tid)) in
    let shared = work_shared a q p t l in
    let n : 0 + length b.workers ≡ a.num_threads = omega (arith, size) in
    omega (arith, few, shared, ap (holding_all a q) n)
