-- ===== src/Mapper/Complete/Deliver.antt =====
-- client/src/mapper.cpp: the results of a request, after its reads completed in any order.
use mathlib.Core.Logic.{◌⊎◌}
use max_embed.Prelude.{
  ℕ, suc, ◌+◌, ◌≤◌, ◌<◌, ◌≡◌, refl, sym, subst, ◌∙◌, ap, Bool, true, false, List, [], ◌∷◌, Option,
  some, arith, ◌==◌, if◌then◌else◌, get_or, length, All, Bool-cases, inl, inr, ==→eq, ==_refl, ◌-◌,
  ◌++◌,
}
use max_embed.Mapper.{Tables}
use max_embed.Mapper.Batch.{ReadCtx, emb_cnt, keys_of, update}
use max_embed.Mapper.Batch.Layout.{IsEntry, IsPlaced, IsNumbered}
use max_embed.Mapper.Complete.History.{Among, IsHistory, Finishes, All-among, src-injective}
use max_embed.Mapper.Complete.{
  Transfers, Event, fills, finishes, fails, pops, stores, copy_items, enqueue_items, read_complete,
  pop_write, store_write, cache_pop, step, run,
}

module _ {V : Type 0} (t : Tables) (emb : ℕ → V) (disk : ℕ → ℕ → V) (served : List ℕ) where
  -- The slot holds the embedding of the key that it stands for.
  abbrev pub IsRight : (ℕ → Option V) → ℕ → Type 0
  IsRight results n = results n ≡ some (emb (get_or served n 0))

  -- Copying an item into its slot makes the slot right, and spoils none.
  copy_items-IsRight :
      (block slot : ℕ) (items : List (ℕ × ℕ)) (page : ℕ → V) (results : ℕ → Option V) (n : ℕ)
      → All (λ (p : ℕ × ℕ). page p.1 ≡ emb p.0) items
      → ((i : ℕ) → i < length items → get_or served (slot + i) 0 ≡ get_or (keys_of items) i 0)
      → (IsRight results n ⊎ ((slot ≤ n) × (n < slot + length items)))
      → IsRight (copy_items page slot items results) n
  unfolding copy_items
  copy_items-IsRight block slot [] page results n a s (inl h) = h
  copy_items-IsRight block slot [] page results n a s (inr h) = absurd (omega arith)
  copy_items-IsRight block slot ((key, offset) ∷ items) page results n a s h =
      copy_items-IsRight block (slot + 1) items page (update results slot (page offset)) n a.1
        (λ i l. ap (λ m. get_or served m 0) (shift i) ∙ s (suc i) (omega arith))
        (now (Bool-cases (n == slot)) h)
    where
      shift : (i : ℕ) → slot + 1 + i ≡ slot + suc i
      shift i = omega arith

      at : n ≡ slot → key ≡ get_or served n 0
      at e = sym (s 0 (omega arith)) ∙ ap (λ m. get_or served m 0) (omega arith)

      now :
          (((n == slot) ≡ true) ⊎ ((n == slot) ≡ false))
          → (IsRight results n ⊎ ((slot ≤ n) × (n < slot + length ((key, offset) ∷ items))))
          → (IsRight (update results slot (page offset)) n
              ⊎ ((slot + 1 ≤ n) × (n < slot + 1 + length items)))
      now (inl here) h = inl (rw here (ap some (a.0 ∙ ap emb (at (==→eq n slot here)))))
      now (inr other) (inl g) = inl (rw other g)
      now (inr other) (inr g) = inr (ground arith, ground arith)

  -- The reads that were filled have their block's contents in their page.
  abbrev pub IsFilled : List ReadCtx → (ℕ → ℕ → V) → Type 0
  IsFilled filled bounce = (c : ReadCtx) → Among c filled → bounce c.src ≡ disk c.block

  module _ (cs : List ReadCtx) (numbered : IsNumbered 0 cs) (placed : All (IsPlaced t served) cs)
      (written : (b o : ℕ)
        → o < length (get_or t.block_to_elem b [])
        → disk b o ≡ emb (get_or (get_or t.block_to_elem b []) o 0)) where
    items_right :
        (b : ℕ) (page : ℕ → V) (items : List (ℕ × ℕ))
        → page ≡ disk b
        → All (IsEntry t b) items
        → All (λ (p : ℕ × ℕ). page p.1 ≡ emb p.0) items
    items_right b page [] e a = tt
    items_right b page ((k, o) ∷ items) e a =
        (ap (λ f. f o) e ∙ written b o a.0.1 ∙ ap emb a.0.0, items_right b page items e a.1)

    results-enqueue_items :
        (page : ℕ → V) (items : List (ℕ × ℕ)) (s : Transfers V)
        → ((enqueue_items page items s).results ≡ s.results)
          × ((enqueue_items page items s).bounce ≡ s.bounce)
    unfolding enqueue_items
    results-enqueue_items page [] s = (refl, refl)
    results-enqueue_items page ((k, o) ∷ items) s = elim (Bool-cases (s.free == 0)) [
      | inl e ↦ rw (e, enqueue_items) (refl, refl)
      | inr e ↦
          rw (e, enqueue_items)
            (results-enqueue_items page items (record s {
              cache_cnt = s.cache_cnt + 1;
              free = s.free - 1;
              write_queue = s.write_queue ++ (k, page o) ∷ [];
            }))
    ]

    -- One read: its page is right, so all its slots become right.
    finish-IsRight :
        (use_cache : Bool) (c : ReadCtx) (s : Transfers V) (n : ℕ)
        → IsPlaced t served c
        → s.bounce c.src ≡ disk c.block
        → (IsRight s.results n ⊎ ((c.dst ≤ n) × (n < c.dst + emb_cnt c)))
        → IsRight (read_complete use_cache c s).results n
    unfolding read_complete
    finish-IsRight use_cache c s n p filled h =
        let page = s.bounce c.src in
        let s' = if use_cache then enqueue_items page c.items s else s in
        let same : s'.results ≡ s.results = kept use_cache page in
        copy_items-IsRight c.block c.dst c.items page s'.results n
          (items_right c.block page c.items filled p.entries) p.slots (rw same h)
      where
        kept :
            (b : Bool) (page : ℕ → V)
            → (if b then enqueue_items page c.items s else s).results ≡ s.results
        kept true page = (results-enqueue_items page c.items s).0
        kept false page = refl

    bounce-read_complete :
        (use_cache : Bool) (c : ReadCtx) (s : Transfers V)
        → (read_complete use_cache c s).bounce ≡ s.bounce
    unfolding read_complete
    bounce-read_complete true c s = (results-enqueue_items (s.bounce c.src) c.items s).1
    bounce-read_complete false c s = refl

    kept-cache_pop :
        (s : Transfers V)
        → ((cache_pop s.held s).results ≡ s.results) × ((cache_pop s.held s).bounce ≡ s.bounce)
    unfolding cache_pop pop_write
    kept-cache_pop s = (ground arith, ground arith)

    kept-store_write :
        (s : Transfers V)
        → ((store_write s.held s).results ≡ s.results) × ((store_write s.held s).bounce ≡ s.bounce)
    unfolding store_write
    kept-store_write s = (ground arith, ground arith)

    IsFilled-fills :
        (c : ReadCtx) (filled : List ReadCtx) (s : Transfers V)
        → Among c cs
        → ((d : ReadCtx) → Among d filled → Among d cs)
        → IsFilled filled s.bounce
        → IsFilled (c ∷ filled) (λ p. if p == c.src then disk c.block else s.bounce p)
    IsFilled-fills c filled s m sub g d (inl e) =
        rw (ap (λ x. x.src) e, ==_refl c.src) (ap (λ x. disk x.block) (sym e))
    IsFilled-fills c filled s m sub g d (inr k) = elim (Bool-cases (d.src == c.src)) [
      | inl e ↦ rw e (
          ap (λ x. disk x.block)
            (src-injective 0 cs c d numbered m (sub d k) (sym (==→eq d.src c.src e))))
      | inr e ↦ rw e (g d k)
    ]

    -- After a history without an error, every slot that was right, or that a finished read fills,
    -- is right.
    abbrev pub IsReached : ℕ → List Event → (ℕ → Option V) → Type 0
    IsReached n es results =
        IsRight results n
        ⊎ ((c : ReadCtx) × Finishes c es × Among c cs × (c.dst ≤ n) × (n < c.dst + emb_cnt c))

    sub-fills :
        (c : ReadCtx) (filled : List ReadCtx)
        → Among c cs
        → ((d : ReadCtx) → Among d filled → Among d cs)
        → (d : ReadCtx) → Among d (c ∷ filled)
        → Among d cs
    sub-fills c filled m sub d (inl e) = subst (λ x. Among x cs) (sym e) m
    sub-fills c filled m sub d (inr k) = sub d k

    IsReached-finishes :
        (use_cache : Bool) (c : ReadCtx) (es : List Event) (s : Transfers V) (n : ℕ)
        → Among c cs
        → s.bounce c.src ≡ disk c.block
        → IsReached n (finishes c ∷ es) s.results
        → IsReached n es (read_complete use_cache c s).results
    IsReached-finishes use_cache c es s n m f (inl g) =
        inl (finish-IsRight use_cache c s n (All-among _ cs c placed m) f (inl g))
    IsReached-finishes use_cache c es s n m f (inr (d, inl e, _, lo, hi)) =
        let slot = subst (λ x. (x.dst ≤ n) × (n < x.dst + emb_cnt x)) e (lo, hi) in
        inl (finish-IsRight use_cache c s n (All-among _ cs c placed m) f (inr slot))
    IsReached-finishes use_cache c es s n m f (inr (d, inr k, m', lo, hi)) = inr (d, k, m', lo, hi)

    pub run-IsRight :
        (use_cache : Bool) (es : List Event) (filled : List ReadCtx) (s : Transfers V)
        → IsHistory cs filled es
        → ((d : ReadCtx) → Among d filled → Among d cs)
        → IsFilled filled s.bounce
        → (s' : Transfers V) × (run disk use_cache es s ≡ some s')
          × ((n : ℕ) → IsReached n es s.results → IsRight s'.results n)
    unfolding run step
    run-IsRight use_cache [] filled s h sub g =
        (s, refl, λ n r. elim r [ inl k ↦ k | inr (c, f, m, lo, hi) ↦ absurd f ])
    run-IsRight use_cache (fills c ∷ es) filled s h sub g =
        run-IsRight use_cache es (c ∷ filled)
          (record s { bounce = λ p. if p == c.src then disk c.block else s.bounce p }) h.1
          (sub-fills c filled h.0 sub) (IsFilled-fills c filled s h.0 sub g)
    run-IsRight use_cache (finishes c ∷ es) filled s h sub g =
        let same = bounce-read_complete use_cache c s in
        let (s', e, right) =
          run-IsRight use_cache es filled (read_complete use_cache c s) h.1 sub
            (subst (IsFilled filled) (sym same) g) in
        (s', e, λ n r. right n (IsReached-finishes use_cache c es s n (sub c h.0) (g c h.0) r))
    run-IsRight use_cache (fails c ∷ es) filled s h sub g = absurd h
    run-IsRight use_cache (pops ∷ es) filled s h sub g =
        let (a, b) = kept-cache_pop s in
        let (s', e, right) =
          run-IsRight use_cache es filled (cache_pop s.held s) h sub
            (subst (IsFilled filled) (sym b) g) in
        (s', e, λ n r. right n (subst (IsReached n es) (sym a) r))
    run-IsRight use_cache (stores ∷ es) filled s h sub g =
        let (a, b) = kept-store_write s in
        let (s', e, right) =
          run-IsRight use_cache es filled (store_write s.held s) h sub
            (subst (IsFilled filled) (sym b) g) in
        (s', e, λ n r. right n (subst (IsReached n es) (sym a) r))
