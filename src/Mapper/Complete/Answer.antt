-- ===== src/Mapper/Complete/Answer.antt =====
-- client/src/mapper.cpp: what BatchGet leaves in `results`.
use native.Mathlib.Decide.{dec_lt}
use max_embed.Prelude.{
  ℕ, ◌+◌, ◌≤◌, ◌<◌, ◌≡◌, refl, ap, ◌∙◌, true, List, [], ◌∷◌, Option, some, arith, get_or, length,
  elem, inl, inr, Bool,
}
use max_embed.FlatSet.{FlatSet}
use max_embed.Mapper.{MappingFile, Tables, construct}
use max_embed.Mapper.Invert.{IsWellFormed}
use max_embed.Mapper.Batch.{Serving, ReadCtx, emb_cnt, batch_get}
use max_embed.Mapper.Batch.Layout.{IsCovered, IsLaidOut}
use max_embed.Mapper.Batch.Serve.{batch_get_layout}
use max_embed.Mapper.Complete.{Transfers, Event, run}
use max_embed.Mapper.Complete.History.{Among, IsHistory, Finishes}
use max_embed.Mapper.Complete.Deliver.{IsReached, run-IsRight}

covered-Among :
    (n : ℕ) (cs : List ReadCtx)
    → IsCovered n cs
    → (c : ReadCtx) × Among c cs × (c.dst ≤ n) × (n < c.dst + emb_cnt c)
covered-Among n [] h = absurd h
covered-Among n (c ∷ cs) (inl h) = (c, inl refl, h.0, h.1)
covered-Among n (c ∷ cs) (inr h) = let (d, m, lo, hi) = covered-Among n cs h in (d, inr m, lo, hi)

module _ (F : FlatSet) {V : Type 0} (f : MappingFile) (num_items : ℕ) (t : Tables)
    (lookup : ℕ → Option V) (value_size lba_size : ℕ) (keys : List ℕ) (w : IsWellFormed f)
    (built : construct f num_items ≡ some t) (known : (k : ℕ) → elem k keys ≡ true → k < f.item_cnt)
    (emb : ℕ → V) (disk : ℕ → ℕ → V)
    (written : (b o : ℕ)
      → o < length (get_or t.block_to_elem b [])
      → disk b o ≡ emb (get_or (get_or t.block_to_elem b []) o 0)) where
  -- With the SSD laid out by the same tables, and a cache that answers right, the results of a
  -- request that is answered, so with no read of more than 64 items or from behind its page, are
  -- right: after any history in which each of its reads is filled before it finishes, without an I/O
  -- error and whatever the cache thread does in between, every slot up to copy_cnt holds the
  -- embedding of the key that the slot stands for.
  pub results_right :
      (st : Serving F.Carrier V) (use_cache : Bool) (es : List Event) (s : Transfers V)
      → ((k : ℕ) (v : V) → lookup k ≡ some v → v ≡ emb k)
      → batch_get F t lookup value_size lba_size keys ≡ some st
      → s.results ≡ st.results
      → IsHistory st.contexts [] es
      → ((c : ReadCtx) → Among c st.contexts → Finishes c es)
      → (s' : Transfers V) × (run disk use_cache es s ≡ some s')
        × ((n : ℕ) → n < st.copy_cnt → s'.results n ≡ some (emb (get_or st.served n 0)))
  results_right st use_cache es s right answered same history all =
      let (laid, _, _, _, _) =
        batch_get_layout F f num_items t lookup value_size lba_size keys w built known emb st right
          answered in
      let (s', e, rights) =
        run-IsRight t emb disk st.served st.contexts laid.numbered laid.placed written use_cache es
          [] s history (λ c m. absurd m) (λ c m. absurd m) in
      (s', e, λ n l. rights n (reach laid n l))
    where
      reach :
          (laid : IsLaidOut t emb st) (n : ℕ)
          → n < st.copy_cnt
          → IsReached t emb disk st.served st.contexts laid.numbered laid.placed written n es
              s.results
      reach laid n l = elim (dec_lt n st.hit_cnt) [
        | yes hit ↦ inl (ap (λ r. r n) same ∙ laid.cached n hit)
        | no miss ↦
            let (c, m, lo, hi) = covered-Among n st.contexts (laid.covered n (omega arith) l) in
            inr (c, all c m, m, lo, hi)
      ]
