-- ===== src/Client/Whole.antt =====
-- client/src/client.cpp: whether the workers hand over all queries.
use mathlib.Core.List.{append-nil}
use max_embed.Prelude.{
  ℕ, suc, ◌+◌, ◌<◌, ◌≡◌, refl, sym, subst, ap, ◌∙◌, List, [], ◌∷◌, ◌++◌, arith, get_or, length,
}
use max_embed.Client.{Args, leaving, Worker, Event, start_iter, idle_worker, run, begin}
use max_embed.Client.Flags.{run-IsSound, begin-IsSound}
use max_embed.Client.Measure.{phase_of}
use max_embed.Client.Work.{work, holding, holding_all, work_shared}
use max_embed.Client.Once.{IsPart, IsLeft, handed, worker_of, begin-run-IsPart}

-- A worker that came to the end by itself has handed over all its work.
served-whole :
    (a : Args) (stop tid : ℕ) (w : Worker)
    → stop ≡ 0
    → w.phase ≡ leaving
    → IsPart a stop tid w
    → w.served ≡ work a a.index_len (start_iter a tid)
served-whole a stop tid w z e (rest, split, left) =
    let none_left = subst (λ p. IsLeft a stop p rest) e left z in
    sym (append-nil w.served) ∙ ap (λ xs. w.served ++ xs) (sym none_left) ∙ sym split

handed-holding_all :
    (a : Args) (q i : ℕ) (ws : List Worker)
    → ((tid : ℕ)
        → tid < length ws
        → (get_or ws tid idle_worker).served ≡ work a a.index_len (start_iter a (i + tid)))
    → handed a q ws + holding_all a q i ≡ holding_all a q (i + length ws)
unfolding handed holding_all
handed-holding_all a q i [] h =
    let e : i ≡ i + 0 = omega arith in omega (arith, ap (holding_all a q) e)
handed-holding_all a q i (w ∷ ws) h =
    let at : i + 0 ≡ i = omega arith in
    let here : holding a q w.served ≡ holding a q (work a a.index_len (start_iter a i)) =
      ap (holding a q) (h 0 (omega arith) ∙ ap (λ k. work a a.index_len (start_iter a k)) at) in
    let rest = handed-holding_all a q (i + 1) ws (λ tid l.
      let e : i + suc tid ≡ i + 1 + tid = omega arith in
      h (suc tid) (omega arith) ∙ ap (λ k. work a a.index_len (start_iter a k)) e) in
    let next : i + 1 ≡ suc i = omega arith in
    let past : i + 1 + length ws ≡ i + suc (length ws) = omega arith in
    let one : holding_all a q (suc i)
        ≡ holding_all a q i + holding a q (work a a.index_len (start_iter a i)) =
      refl in
    omega (arith, here, rest, one, ap (holding_all a q) next, ap (holding_all a q) past)

none_held : (a : Args) (q : ℕ) → holding_all a q 0 ≡ 0
unfolding holding_all
none_held a q = refl

-- With run_time 0, at least one thread and a positive batch size: in an interleaving after which every
-- worker has left its loop and none has returned yet, so that `stop` is not set, every query is in
-- exactly one of the requests that BatchGet was given.
pub handed_all :
    (a : Args) (es : List Event) (q : ℕ)
    → a.run_time ≡ 0
    → 0 < a.num_threads
    → 0 < a.batch_size
    → q < a.index_len
    → let b = run a es (begin a) in
      b.stop ≡ 0
      → ((tid : ℕ) → tid < a.num_threads → phase_of tid b ≡ leaving)
      → handed a q b.workers ≡ 1
handed_all a es q z t p l running left =
    let b = run a es (begin a) in
    let size = (run-IsSound a es (begin a) t (begin-IsSound a)).all in
    let parts = begin-run-IsPart a es z t p in
    let all = handed-holding_all a q 0 b.workers (λ tid i.
      let e : tid ≡ 0 + tid = omega arith in
      served-whole a b.stop tid (worker_of tid b) running (left tid (omega (arith, size, i)))
        (parts tid)
      ∙ ap (λ k. work a a.index_len (start_iter a k)) e) in
    let n : 0 + length b.workers ≡ a.num_threads = omega (arith, size) in
    omega (arith, all, work_shared a q p t l, ap (holding_all a q) n, none_held a q)
