-- ===== src/Mapper/Wait.antt =====
-- client/src/mapper.cpp, BatchGet: which queue a thread's reads go to, and the loop that waits for
-- them.
use native.Mathlib.Nat.{div-add-mod, mod-lt, le-div_iff_mul-le}
use max_embed.Prelude.{
  ℕ, suc, ◌+◌, ◌-◌, ◌*◌, ◌/◌, ◌%◌, ◌<◌, ◌≡◌, refl, ap, ◌∙◌, Bool, true, false, List, [], ◌∷◌, ◌++◌,
  Option, none, some, arith, ◌==◌, if◌then◌else◌, Bool-cases, ==→eq, ==_of_eq, inl, inr,
}
use max_embed.Mapper.Batch.{ReadCtx}
use max_embed.Mapper.Complete.{
  Transfers, Event, fills, finishes, fails, pops, stores, run, step, read_complete, enqueue_items,
  pop_write, cache_pop, store_write,
}
use max_embed.Spdk.{queue_cnt}

-- The SSD and the queue of thread `tid`.
unfoldable pub ssd_id : ℕ → ℕ → ℕ
ssd_id tid ssd_num = tid % ssd_num

unfoldable pub queue_id : ℕ → ℕ → ℕ
queue_id tid ssd_num = tid / ssd_num

-- Among the threads of a Mapping for which SpdkWrapper makes queue_cnt queues on an SSD, the number
-- of a thread's SSD is below ssd_num, that of its queue is below queue_cnt, and two threads that have
-- both in common are the same thread.
pub queue_id-queue_cnt :
    (thread_num ssd_num cnt tid other : ℕ)
    → 0 < ssd_num
    → queue_cnt thread_num ssd_num ≡ some cnt
    → tid < thread_num
    → (ssd_id tid ssd_num < ssd_num)
      × (queue_id tid ssd_num < cnt)
      × (ssd_id tid ssd_num ≡ ssd_id other ssd_num
          → queue_id tid ssd_num ≡ queue_id other ssd_num
          → tid ≡ other)
unfolding ssd_id queue_id queue_cnt
queue_id-queue_cnt thread_num ssd_num cnt tid other p q l = (
  mod-lt tid p,
  ground (arith, q, (le-div_iff_mul-le {k = ssd_num} {x = tid / ssd_num} {y = thread_num - 1} p)),
  λ s t.
      omega (arith, div-add-mod tid ssd_num, div-add-mod other ssd_num, s, ap (λ n. ssd_num * n) t),
)

-- while (read_cnt != ssd_request_cnt) PollCompleteQueue(…): each element of the list is what happens
-- during one more call, or between two. The result is the state behind the loop and what is left of the
-- list; `none` is an I/O error, or that the list ends before the loop does.
unfoldable pub wait_reads :
    {V : Type 0}
    → (ℕ → ℕ → V)
    → Bool
    → ℕ
    → List (List Event)
    → Transfers V
    → Option (Transfers V × List (List Event))
wait_reads disk use_cache ssd_request_cnt [] s =
    if s.read_cnt == ssd_request_cnt then some (s, []) else none
wait_reads disk use_cache ssd_request_cnt (es ∷ polls) s =
    if s.read_cnt == ssd_request_cnt then some (s, es ∷ polls) else elim (run disk use_cache es s) [
      | none ↦ none
      | some s' ↦ wait_reads disk use_cache ssd_request_cnt polls s'
    ]

-- How many reads finish.
abbrev pub finish_cnt : List Event → ℕ
finish_cnt [] = 0
finish_cnt (fills c ∷ es) = finish_cnt es
finish_cnt (finishes c ∷ es) = suc (finish_cnt es)
finish_cnt (fails c ∷ es) = finish_cnt es
finish_cnt (pops ∷ es) = finish_cnt es
finish_cnt (stores ∷ es) = finish_cnt es

abbrev pub fail_cnt : List Event → ℕ
fail_cnt [] = 0
fail_cnt (fills c ∷ es) = fail_cnt es
fail_cnt (finishes c ∷ es) = fail_cnt es
fail_cnt (fails c ∷ es) = suc (fail_cnt es)
fail_cnt (pops ∷ es) = fail_cnt es
fail_cnt (stores ∷ es) = fail_cnt es

abbrev pub sum_of : (List Event → ℕ) → List (List Event) → ℕ
sum_of f [] = 0
sum_of f (es ∷ polls) = f es + sum_of f polls

module _ {V : Type 0} (disk : ℕ → ℕ → V) (use_cache : Bool) where
  read_cnt-enqueue_items :
      (page : ℕ → V) (items : List (ℕ × ℕ)) (s : Transfers V)
      → (enqueue_items page items s).read_cnt ≡ s.read_cnt
  unfolding enqueue_items
  read_cnt-enqueue_items page [] s = refl
  read_cnt-enqueue_items page ((k, o) ∷ items) s = elim (Bool-cases (s.free == 0)) [
    | inl e ↦ rw (e, enqueue_items) refl
    | inr e ↦
        rw (e, enqueue_items)
          (read_cnt-enqueue_items page items (record s {
            cache_cnt = s.cache_cnt + 1;
            free = s.free - 1;
            write_queue = s.write_queue ++ (k, page o) ∷ [];
          }))
  ]

  read_cnt-read_complete :
      (c : ReadCtx) (s : Transfers V) → (read_complete use_cache c s).read_cnt ≡ s.read_cnt + 1
  unfolding read_complete
  read_cnt-read_complete c s = ap (λ n. n + 1) (either use_cache)
    where
      either :
          (b : Bool)
          → (if b then enqueue_items (s.bounce c.src) c.items s else s).read_cnt ≡ s.read_cnt
      either true = read_cnt-enqueue_items (s.bounce c.src) c.items s
      either false = refl

  read_cnt-cache_pop : (s : Transfers V) → (cache_pop s.held s).read_cnt ≡ s.read_cnt
  unfolding cache_pop pop_write
  read_cnt-cache_pop s = ground arith

  read_cnt-store_write : (s : Transfers V) → (store_write s.held s).read_cnt ≡ s.read_cnt
  unfolding store_write
  read_cnt-store_write s = ground arith

  read_cnt-run :
      (es : List Event) (s : Transfers V)
      → fail_cnt es ≡ 0
      → (s' : Transfers V) × (run disk use_cache es s ≡ some s')
        × (s'.read_cnt ≡ s.read_cnt + finish_cnt es)
  unfolding run step
  read_cnt-run [] s h = (s, refl, omega arith)
  read_cnt-run (fills c ∷ es) s h =
      read_cnt-run es (record s { bounce = λ p. if p == c.src then disk c.block else s.bounce p }) h
  read_cnt-run (finishes c ∷ es) s h =
      let (s', e, n) = read_cnt-run es (read_complete use_cache c s) h in
      (s', e, omega (arith, n, read_cnt-read_complete c s))
  read_cnt-run (fails c ∷ es) s h = absurd (omega (arith, h))
  read_cnt-run (pops ∷ es) s h =
      let (s', e, n) = read_cnt-run es (cache_pop s.held s) h in
      (s', e, n ∙ ap (λ k. k + finish_cnt es) (read_cnt-cache_pop s))
  read_cnt-run (stores ∷ es) s h =
      let (s', e, n) = read_cnt-run es (store_write s.held s) h in
      (s', e, n ∙ ap (λ k. k + finish_cnt es) (read_cnt-store_write s))

  -- Where no read fails and as many finish as BatchGet has submitted, the loop ends, with all of them
  -- finished; it does not end before.
  pub wait_reads-ends :
      (ssd_request_cnt : ℕ) (polls : List (List Event)) (s : Transfers V)
      → sum_of fail_cnt polls ≡ 0
      → s.read_cnt + sum_of finish_cnt polls ≡ ssd_request_cnt
      → (s' : Transfers V) × (left : List (List Event)) × (wait_reads disk use_cache ssd_request_cnt
            polls s
          ≡ some (s', left))
        × (s'.read_cnt ≡ ssd_request_cnt)
        × (sum_of finish_cnt left ≡ 0)
  unfolding wait_reads
  wait_reads-ends n [] s f h =
      let e : s.read_cnt ≡ n = omega (arith, h) in
      rw (==_of_eq s.read_cnt n e, wait_reads) (s, [], refl, e, refl)
  wait_reads-ends n (es ∷ polls) s f h = elim (Bool-cases (s.read_cnt == n)) [
    | inl e ↦
        let at = ==→eq s.read_cnt n e in
        rw (e, wait_reads) (s, es ∷ polls, refl, at, omega (arith, at, h))
    | inr e ↦
        let (s1, r, k) = read_cnt-run es s (omega (arith, f)) in
        let (s', left, w, m, z) =
          wait_reads-ends n polls s1 (omega (arith, f)) (omega (arith, h, k)) in
        rw (e, r, wait_reads) (s', left, w, m, z)
  ]
