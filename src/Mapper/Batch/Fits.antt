-- ===== src/Mapper/Batch/Fits.antt =====
-- client/src/mapper.cpp, BatchGet: whether what a read serves fits the arrays of its SyncReadCtx and
-- the page that is read.
use native.Mathlib.Nat.{mul-le-mul_right}
use max_embed.Prelude.{
  ℕ, ◌+◌, ◌*◌, ◌≤◌, ◌≡◌, ◌∙◌, refl, true, List, [], ◌∷◌, ◌++◌, Option, arith, le→leb, get_or,
  length, All, Bool-cases, Option-cases, inl, inr,
}
use max_embed.FlatSet.{FlatSet}
use max_embed.Mapper.{Tables}
use max_embed.Mapper.Batch.{
  Serving, ReadCtx, emb_cnt, choose, take_items, ask_cache, ask_all, read_block, serve_key,
  serve_all, begin, max_items, items_fit, contexts_fit,
}

-- A context within its limits.
pub record IsFitting (value_size lba_size : ℕ) (c : ReadCtx) : Type 0 where
  pub few : emb_cnt c ≤ max_items
  pub in_page : All (λ (item : ℕ × ℕ). (item.1 + 1) * value_size ≤ lba_size) c.items

module _ (value_size lba_size : ℕ) where
  items_fit_sound :
      (items : List (ℕ × ℕ))
      → items_fit value_size lba_size items ≡ true
      → All (λ (item : ℕ × ℕ). (item.1 + 1) * value_size ≤ lba_size) items
  unfolding items_fit
  items_fit_sound [] e = tt
  items_fit_sound ((key, offset) ∷ items) e = (ground arith, items_fit_sound items (ground arith))

  pub contexts_fit_sound :
      (cs : List ReadCtx)
      → contexts_fit value_size lba_size cs ≡ true
      → All (IsFitting value_size lba_size) cs
  unfolding contexts_fit
  contexts_fit_sound [] e = tt
  contexts_fit_sound (c ∷ cs) e = (
    record { few = ground arith; in_page = items_fit_sound c.items (ground arith) },
    contexts_fit_sound cs (ground arith),
  )

  contexts_fit-append :
      (cs : List ReadCtx) (c : ReadCtx)
      → contexts_fit value_size lba_size cs ≡ true
      → emb_cnt c ≤ max_items
      → items_fit value_size lba_size c.items ≡ true
      → contexts_fit value_size lba_size (cs ++ c ∷ []) ≡ true
  unfolding contexts_fit
  contexts_fit-append [] c e few fits = rw (le→leb (emb_cnt c) max_items few, fits) refl
  contexts_fit-append (d ∷ ds) c e few fits =
      let rest = contexts_fit-append ds c (ground arith) few fits in ground arith

  module _ (F : FlatSet) where
    open F use {Carrier, contains, erase}

    length-take_items :
        (items : List ℕ) (offset : ℕ) (s : Carrier)
        → length (take_items F items offset s) ≤ length items
    unfolding take_items
    length-take_items [] offset s = omega arith
    length-take_items (x ∷ xs) offset s =
        let rest = length-take_items xs (offset + 1) (erase x s) in
        elim (Bool-cases (contains x s)) [
          | inl e ↦ rw (e, take_items) (omega (arith, rest))
          | inr e ↦ rw (e, take_items) (omega (arith, rest))
        ]

    take_items_fit :
        (items : List ℕ) (offset : ℕ) (s : Carrier)
        → (offset + length items) * value_size ≤ lba_size
        → items_fit value_size lba_size (take_items F items offset s) ≡ true
    unfolding take_items items_fit
    take_items_fit [] offset s h = refl
    take_items_fit (x ∷ xs) offset s h =
        let grow : (offset + 1) * value_size ≤ (offset + length (x ∷ xs)) * value_size =
          mul-le-mul_right value_size (omega arith) in
        let same : offset + length (x ∷ xs) ≡ offset + 1 + length xs = omega arith in
        let here = le→leb ((offset + 1) * value_size) lba_size (omega (arith, grow, h)) in
        let rest = take_items_fit xs (offset + 1) (erase x s) (rw (← same) h) in
        elim (Bool-cases (contains x s)) [
          | inl e ↦ rw (e, take_items) (rw (here, rest, items_fit) refl)
          | inr e ↦ rw (e, take_items) rest
        ]

    module _ {V : Type 0} (t : Tables)
        (few : (b : ℕ) → length (get_or t.block_to_elem b []) ≤ max_items)
        (in_page : (b : ℕ) → length (get_or t.block_to_elem b []) * value_size ≤ lba_size) where
      serve_all_fit :
          (ks : List ℕ) (st : Serving Carrier V)
          → contexts_fit value_size lba_size st.contexts ≡ true
          → contexts_fit value_size lba_size (serve_all F t ks st).contexts ≡ true
      unfolding serve_all serve_key read_block
      serve_all_fit [] st e = e
      serve_all_fit (k ∷ ks) st e =
          serve_all_fit ks (serve_key F t k st) (elim (Bool-cases (contains k st.req_set)) [
            | inl m ↦
                let b = choose F t st.req_set k in
                let items = get_or t.block_to_elem b [] in
                rw (m, serve_key)
                  (contexts_fit-append st.contexts _ e
                    (omega (arith, length-take_items items 0 st.req_set, few b))
                    (take_items_fit items 0 st.req_set (omega (arith, in_page b))))
            | inr m ↦ rw (m, serve_key) e
          ])

      -- The cache fills no context.
      contexts-ask_all :
          (lookup : ℕ → Option V) (ks : List ℕ) (st : Serving Carrier V)
          → (ask_all F lookup ks st).contexts ≡ st.contexts
      unfolding ask_all ask_cache
      contexts-ask_all lookup [] st = refl
      contexts-ask_all lookup (k ∷ ks) st = elim (Option-cases (lookup k)) [
        | inl e ↦ rw (e, ask_all, ask_cache) (contexts-ask_all lookup ks st)
        | inr (v, e) ↦ contexts-ask_all lookup ks (ask_cache F lookup k st) ∙ rw (e, ask_cache) refl
      ]

      pub contexts_fit-answer :
          (lookup : ℕ → Option V) (order : List ℕ)
          → contexts_fit value_size lba_size
              (serve_all F t order (ask_all F lookup order (begin F order))).contexts
            ≡ true
      unfolding begin contexts_fit
      contexts_fit-answer lookup order =
          serve_all_fit order (ask_all F lookup order (begin F order))
            (rw (contexts-ask_all lookup order (begin F order)) refl)
