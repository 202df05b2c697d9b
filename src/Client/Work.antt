-- ===== src/Client/Work.antt =====
-- client/src/client.cpp: the batches of a worker that runs to the end of the queries (run_time == 0),
-- and how the workers share the queries.
use native.Mathlib.Decide.{dec_lt}
use native.Mathlib.Nat.{
  mul-le-mul_right, div-add-mod, mod-lt, zero-mul, suc-mul, add-mul, mul_comm, mul_assoc,
}
use max_embed.Prelude.{
  ℕ, zero, suc, ◌+◌, ◌*◌, ◌/◌, ◌%◌, ◌≤◌, ◌<◌, ◌≡◌, refl, sym, subst, ap, ◌∙◌, List, [], ◌∷◌, arith,
  ltb, leb, ◌&&◌, if◌then◌else◌, ◌==◌, to_ℕ, ==_of_ne, ==_of_eq, lt→ltb,
}
use max_embed.Client.{Args, start_iter, stride}

-- The batches that the loop takes from `iter` on, for at most `n` passes, as long as `stop` is not set;
-- the loop with its test of `stop` is Client.step.
unfoldable pub work : Args → ℕ → ℕ → List ℕ
work a zero iter = []
work a (suc n) iter =
    let rest = work a n (iter + stride a) in if leb a.index_len iter then [] else iter ∷ rest

-- The requests among these that hold the q-th query.
unfoldable pub holding : Args → ℕ → List ℕ → ℕ
holding a q [] = 0
holding a q (iter ∷ iters) = to_ℕ (leb iter q && ltb q (iter + a.batch_size)) + holding a q iters

-- The same over the first `n` workers.
unfoldable pub holding_all : Args → ℕ → ℕ → ℕ
holding_all a q zero = 0
holding_all a q (suc n) = holding_all a q n + holding a q (work a a.index_len (start_iter a n))

holding-later : (a : Args) (q n iter : ℕ) → q < iter → holding a q (work a n iter) ≡ 0
unfolding work holding
holding-later a q zero iter h = refl
holding-later a q (suc n) iter h = ground (arith, holding-later a q n (iter + stride a))

holding-hit :
    (a : Args) (q n iter m : ℕ)
    → a.batch_size ≤ stride a
    → 0 < stride a
    → q < a.index_len
    → iter + m * stride a ≤ q
    → q < iter + m * stride a + a.batch_size
    → q < iter + n
    → holding a q (work a n iter) ≡ 1
unfolding work holding
holding-hit a q zero iter m b s l lo hi f = absurd (omega arith)
holding-hit a q (suc n) iter zero b s l lo hi f =
    ground (arith, zero-mul (stride a), holding-later a q n (iter + stride a))
holding-hit a q (suc n) iter (suc m) b s l lo hi f =
    let e = suc-mul m (stride a) in
    let rest =
      holding-hit a q n (iter + stride a) m b s l (omega (arith, e)) (omega (arith, e))
        (omega arith) in
    ground (arith, e, rest)

holding-miss :
    (a : Args) (q n iter m : ℕ)
    → iter + m * stride a + a.batch_size ≤ q
    → q < iter + (m * stride a + stride a)
    → holding a q (work a n iter) ≡ 0
unfolding work holding
holding-miss a q zero iter m lo hi = refl
holding-miss a q (suc n) iter zero lo hi =
    ground (arith, zero-mul (stride a), holding-later a q n (iter + stride a))
holding-miss a q (suc n) iter (suc m) lo hi =
    let e = suc-mul m (stride a) in
    let rest = holding-miss a q n (iter + stride a) m (omega (arith, e)) (omega (arith, e)) in
    ground (arith, e, rest)

-- The worker whose number is that of the query's batch, counted around, has the query; no other has.
holding-worker :
    (a : Args) (tid t m r : ℕ)
    → tid < a.num_threads
    → t < a.num_threads
    → r < a.batch_size
    → m * stride a + (t * a.batch_size + r) < a.index_len
    → holding a (m * stride a + (t * a.batch_size + r)) (work a a.index_len (start_iter a tid))
      ≡ to_ℕ (tid == t)
holding-worker a tid t m r i j k l =
    let b = a.batch_size in
    let fits : (x : ℕ) → x < a.num_threads → x * b + b ≤ stride a =
      λ x h. omega (arith, mul-le-mul_right {m = suc x} {n = a.num_threads} b h, suc-mul x b) in
    let q = m * stride a + (t * b + r) in
    elim (dec_lt tid t) [
      | yes lo ↦
          let le = mul-le-mul_right {m = suc tid} {n = t} b lo in
          rw (==_of_ne tid t (λ e. omega (arith, e, lo))) (
            holding-miss a q a.index_len (start_iter a tid) m (omega (arith, le, suc-mul tid b))
              (omega (arith, fits t j)))
      | no ge ↦ elim (dec_lt t tid) [
        | yes hi ↦
            rw (==_of_ne tid t (λ e. omega (arith, e, hi)))
              (above m (omega (arith, mul-le-mul_right {m = suc t} {n = tid} b hi, suc-mul t b)))
        | no le ↦
            let e : tid ≡ t = omega (arith, ge, le) in
            rw (==_of_eq tid t e) (
              subst (λ x. holding a q (work a a.index_len (start_iter a x)) ≡ 1) (sym e)
                (holding-hit a q a.index_len (start_iter a t) m (omega (arith, fits t j))
                  (omega (arith, fits t j)) l (omega arith) (omega arith) (omega arith)))
      ]
    ]
  where
    above :
        (n : ℕ)
        → t * a.batch_size + a.batch_size ≤ tid * a.batch_size
        → holding a (n * stride a + (t * a.batch_size + r)) (work a a.index_len (start_iter a tid))
          ≡ 0
    above zero h =
        holding-later a _ a.index_len (start_iter a tid) (omega (arith, zero-mul (stride a)))
    above (suc n) h =
        holding-miss a _ a.index_len (start_iter a tid) n
          (omega (
            arith,
            suc-mul n (stride a),
            suc-mul tid a.batch_size,
            mul-le-mul_right {m = suc tid} {n = a.num_threads} a.batch_size i,
          ))
          (omega (arith, suc-mul n (stride a)))

holding_all-worker :
    (a : Args) (t m r n : ℕ)
    → n ≤ a.num_threads
    → t < a.num_threads
    → r < a.batch_size
    → m * stride a + (t * a.batch_size + r) < a.index_len
    → holding_all a (m * stride a + (t * a.batch_size + r)) n ≡ to_ℕ (ltb t n)
unfolding holding_all
holding_all-worker a t m r zero i j k l = ground arith
holding_all-worker a t m r (suc n) i j k l = ground (
  arith,
  holding_all-worker a t m r n (omega arith) j k l,
  holding-worker a n t m r (omega arith) j k l,
)

place :
    (a : Args) (q : ℕ)
    → q
      ≡ q / a.batch_size / a.num_threads * stride a
        + (q / a.batch_size % a.num_threads * a.batch_size + q % a.batch_size)
place a q =
    let b = a.batch_size in
    let n = a.num_threads in
    let k = q / b in
    let outer : b * k + q % b ≡ q = div-add-mod q b in
    let inner : n * (k / n) + k % n ≡ k = div-add-mod k n in
    let split : (n * (k / n) + k % n) * b ≡ n * (k / n) * b + k % n * b =
      add-mul (n * (k / n)) (k % n) b in
    let move : n * (k / n) * b ≡ k / n * stride a =
      ap (λ x. x * b) (mul_comm n (k / n)) ∙ mul_assoc (k / n) n b in
    omega (arith, outer, mul_comm b k, sym (ap (λ x. x * b) inner), split, move)

-- The shares of the workers: each query is in one batch of one of them.
pub work_shared :
    (a : Args) (q : ℕ)
    → 0 < a.batch_size
    → 0 < a.num_threads
    → q < a.index_len
    → holding_all a q a.num_threads ≡ 1
work_shared a q b t l =
    let k = q / a.batch_size in
    let m = k / a.num_threads in
    let e = place a q in
    let owner : k % a.num_threads < a.num_threads = mod-lt k t in
    subst (λ x. holding_all a x a.num_threads ≡ 1) (sym e)
      (holding_all-worker a (k % a.num_threads) m (q % a.batch_size) a.num_threads (omega arith)
          owner (mod-lt q b) (omega (arith, e))
        ∙ ap to_ℕ (lt→ltb (k % a.num_threads) a.num_threads owner))
