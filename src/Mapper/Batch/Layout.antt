-- ===== src/Mapper/Batch/Layout.antt =====
-- client/src/mapper.cpp, BatchGet: where the reads of a request put what they serve.
use max_embed.Prelude.{
  ℕ, suc, ◌+◌, ◌≤◌, ◌<◌, ◌≡◌, refl, sym, ◌∙◌, ap, true, false, List, [], ◌∷◌, ◌++◌, Option, some,
  arith, ◌==◌, if◌then◌else◌, get_or, get_or-append_left, get_or-append_right, get_or-append_last,
  length, length-append, elem, count-le-length, All, All-map, All-append, Bool-cases, Option-cases,
  inl, inr,
}
use mathlib.Core.List.{append_assoc}
use mathlib.Core.Logic.{◌⊎◌}
use native.Mathlib.Decide.{dec_lt}
use max_embed.FlatSet.{FlatSet}
use max_embed.Mapper.{Tables}
use max_embed.Mapper.Batch.{
  Serving, ReadCtx, emb_cnt, keys_of, choose, take_items, ask_cache, ask_all, read_block, serve_key,
  serve_all, begin, update,
}
use max_embed.Mapper.Batch.Cover.{IsHeld, contains-erase_all, count-take_items}
use max_embed.Mapper.Batch.Choice.{elem-choose}

-- A context's items are entries of its block, at their offsets.
abbrev pub IsEntry : Tables → ℕ → ℕ × ℕ → Type 0
IsEntry t block (key, offset) =
    (get_or (get_or t.block_to_elem block []) offset 0 ≡ key)
    × (offset < length (get_or t.block_to_elem block []))

-- A context fills the slots of its keys, and no others.
pub record IsPlaced (t : Tables) (served : List ℕ) (c : ReadCtx) : Type 0 where
  pub some_item : 0 < emb_cnt c
  pub within : c.dst + emb_cnt c ≤ length served
  pub slots : (i : ℕ) → i < emb_cnt c → get_or served (c.dst + i) 0 ≡ get_or (keys_of c.items) i 0
  pub entries : All (IsEntry t c.block) c.items

-- The contexts use the pages `n`, `n + 1`, … of the bounce buffer.
abbrev pub IsNumbered : ℕ → List ReadCtx → Type 0
IsNumbered n [] = Unit
IsNumbered n (c ∷ cs) = (c.src ≡ n) × IsNumbered (suc n) cs

-- A context of the list fills the slot.
abbrev pub IsCovered : ℕ → List ReadCtx → Type 0
IsCovered n [] = ⊥
IsCovered n (c ∷ cs) = ((c.dst ≤ n) × (n < c.dst + emb_cnt c)) ⊎ IsCovered n cs

pub record IsLaidOut {C V : Type 0} (t : Tables) (emb : ℕ → V) (st : Serving C V) : Type 0 where
  pub counted : st.copy_cnt ≡ length st.served
  pub split : st.hit_cnt + st.load_emb_cnt ≡ st.copy_cnt
  pub requests : st.ssd_request_cnt ≡ length st.contexts
  pub few : st.ssd_request_cnt ≤ st.load_emb_cnt
  pub numbered : IsNumbered 0 st.contexts
  pub placed : All (IsPlaced t st.served) st.contexts
  pub covered : (n : ℕ) → st.hit_cnt ≤ n → n < st.copy_cnt → IsCovered n st.contexts
  pub cached : (n : ℕ) → n < st.hit_cnt → st.results n ≡ some (emb (get_or st.served n 0))

IsPlaced-append :
    (t : Tables) (xs ys : List ℕ) (c : ReadCtx) → IsPlaced t xs c → IsPlaced t (xs ++ ys) c
IsPlaced-append t xs ys c p = record {
  some_item = p.some_item;
  within = omega (arith, p.within, length-append xs ys);
  slots = λ i h. get_or-append_left xs ys (c.dst + i) 0 (omega (arith, p.within)) ∙ p.slots i h;
  entries = p.entries;
}

IsNumbered-append :
    (n m : ℕ) (cs : List ReadCtx) (c : ReadCtx)
    → IsNumbered n cs
    → c.src ≡ m
    → n + length cs ≡ m
    → IsNumbered n (cs ++ c ∷ [])
IsNumbered-append n m [] c h e l = (omega (arith, e, l), tt)
IsNumbered-append n m (d ∷ ds) c h e l = (h.0, IsNumbered-append (suc n) m ds c h.1 e (omega arith))

IsCovered-append : (n : ℕ) (cs ds : List ReadCtx) → IsCovered n cs → IsCovered n (cs ++ ds)
IsCovered-append n [] ds h = absurd h
IsCovered-append n (c ∷ cs) ds (inl h) = inl h
IsCovered-append n (c ∷ cs) ds (inr h) = inr (IsCovered-append n cs ds h)

IsCovered-last :
    (n : ℕ) (cs : List ReadCtx) (c : ReadCtx)
    → c.dst ≤ n
    → n < c.dst + emb_cnt c
    → IsCovered n (cs ++ c ∷ [])
IsCovered-last n [] c h k = inl (h, k)
IsCovered-last n (d ∷ ds) c h k = inr (IsCovered-last n ds c h k)

length-keys_of : (ps : List (ℕ × ℕ)) → length (keys_of ps) ≡ length ps
length-keys_of [] = refl
length-keys_of (p ∷ ps) = ap suc (length-keys_of ps)

module _ (F : FlatSet) {V : Type 0} (t : Tables) (emb : ℕ → V) where
  open F use {Carrier, contains}

  -- The loop over a block pairs each item with its position there.
  take_items_entries :
      (b : ℕ) (before items : List ℕ) (offset : ℕ) (s : Carrier)
      → get_or t.block_to_elem b [] ≡ before ++ items
      → length before ≡ offset
      → All (IsEntry t b) (take_items F items offset s)
  unfolding take_items
  take_items_entries b before [] offset s e l = tt
  take_items_entries b before (x ∷ xs) offset s e l =
      let at_end : length before + 0 ≡ offset = omega arith in
      let here : get_or (get_or t.block_to_elem b []) offset 0 ≡ x =
        ap (λ m. get_or m offset 0) e
        ∙ ap (λ n. get_or (before ++ x ∷ xs) n 0) (sym at_end)
        ∙ get_or-append_right before (x ∷ xs) 0 0 in
      let inside : offset < length (get_or t.block_to_elem b []) =
        omega (arith, ap length e, length-append before (x ∷ xs)) in
      let rest =
        take_items_entries b (before ++ x ∷ []) xs (offset + 1) (F.erase x s)
          (e ∙ sym (append_assoc before (x ∷ []) xs))
          (omega (arith, length-append before (x ∷ []))) in
      elim (contains x s)
        as (λ m. All (IsEntry t b) (
          if m
          then (x, offset) ∷ take_items F xs (offset + 1) (F.erase x s)
          else take_items F xs (offset + 1) (F.erase x s))) [
            | true ↦ ((here, inside), rest)
            | false ↦ rest
          ]

  -- A block that holds a requested key serves at least that key.
  take_items_some :
      (key : ℕ) (items : List ℕ) (s : Carrier)
      → contains key s ≡ true
      → elem key items ≡ true
      → 0 < length (take_items F items 0 s)
  take_items_some key items s h e =
      let taken = take_items F items 0 s in
      ground (
        arith,
        count-take_items F key items 0 s,
        contains-erase_all F key items s,
        count-le-length key (keys_of taken),
        length-keys_of taken,
      )

  read_block-IsLaidOut :
      (b key : ℕ) (st : Serving Carrier V)
      → contains key st.req_set ≡ true
      → elem key (get_or t.block_to_elem b []) ≡ true
      → IsLaidOut t emb st
      → IsLaidOut t emb (read_block F t b st)
  unfolding read_block
  read_block-IsLaidOut b key st h e o =
      let items = get_or t.block_to_elem b [] in
      let taken = take_items F items 0 st.req_set in
      let keys = keys_of taken in
      let some_taken = take_items_some key items st.req_set h e in
      let size = length-append st.served keys in
      let same = length-keys_of taken in
      let placed_new : IsPlaced t (st.served ++ keys)
          (record { block = b; src = st.ssd_request_cnt; dst = st.copy_cnt; items = taken }) =
        record {
          some_item = some_taken;
          within = omega (arith, o.counted, size, same);
          slots = λ i l.
              ap (λ n. get_or (st.served ++ keys) (n + i) 0) o.counted
              ∙ get_or-append_right st.served keys i 0;
          entries = take_items_entries b [] items 0 st.req_set refl refl;
        } in
      record {
        counted = omega (arith, o.counted, size, same);
        split = omega (arith, o.split);
        requests = omega (arith, o.requests, length-append st.contexts (_ ∷ []));
        few = omega (arith, o.few, some_taken);
        numbered = IsNumbered-append 0 _ st.contexts _ o.numbered refl (omega (arith, o.requests));
        placed =
            All-append _ st.contexts _
              (All-map st.contexts (IsPlaced-append t st.served keys) o.placed) (placed_new, tt);
        covered = λ n l h. elim (dec_lt n st.copy_cnt) [
          | yes old ↦ IsCovered-append n st.contexts _ (o.covered n l old)
          | no new ↦ IsCovered-last n st.contexts _ (omega arith) h
        ];
        cached = λ n l.
            o.cached n l
            ∙ ap (λ k. some (emb k))
                (sym (get_or-append_left st.served keys n 0 (omega (arith, o.split, o.counted))));
      }

  pub serve_key-IsLaidOut :
      (key : ℕ) (st : Serving Carrier V)
      → (contains key st.req_set ≡ true → IsHeld t key × (0 < get_or t.block_cnt key 0))
      → IsLaidOut t emb st
      → IsLaidOut t emb (serve_key F t key st)
  unfolding serve_key
  serve_key-IsLaidOut key st held o = elim (Bool-cases (contains key st.req_set)) [
    | inl e ↦
        let b = choose F t st.req_set key in
        rw (e, serve_key)
          (read_block-IsLaidOut b key st e
            ((held e).0 b (elem-choose F t st.req_set key (held e).1)) o)
    | inr e ↦ rw (e, serve_key) o
  ]

  pub serve_all-IsLaidOut :
      (ks : List ℕ) (st : Serving Carrier V)
      → ((k : ℕ) → elem k ks ≡ true → IsHeld t k × (0 < get_or t.block_cnt k 0))
      → IsLaidOut t emb st
      → IsLaidOut t emb (serve_all F t ks st)
  unfolding serve_all
  serve_all-IsLaidOut [] st held o = o
  serve_all-IsLaidOut (x ∷ xs) st held o =
      serve_all-IsLaidOut xs (serve_key F t x st) (λ k e. held k (ground arith))
        (serve_key-IsLaidOut x st (λ e. held x (ground arith)) o)

  -- Before the first read: all that is served came from the cache.
  ask_cache-IsLaidOut :
      (lookup : ℕ → Option V) (key : ℕ) (st : Serving Carrier V)
      → ((k : ℕ) (v : V) → lookup k ≡ some v → v ≡ emb k)
      → st.load_emb_cnt ≡ 0
      → IsLaidOut t emb st
      → IsLaidOut t emb (ask_cache F lookup key st) × ((ask_cache F lookup key st).load_emb_cnt ≡ 0)
  unfolding ask_cache
  ask_cache-IsLaidOut lookup key st right z o = elim (Option-cases (lookup key)) [
    | inl e ↦ rw (e, ask_cache) (o, z)
    | inr (v, e) ↦ rw (e, ask_cache) (hit v e, z)
  ]
    where
      hit :
          (v : V)
          → lookup key ≡ some v
          → IsLaidOut t emb (record st {
            req_set = F.erase key st.req_set;
            copy_cnt = st.copy_cnt + 1;
            hit_cnt = st.hit_cnt + 1;
            served = st.served ++ key ∷ [];
            results = update st.results st.copy_cnt v;
          })
      hit v e = record {
        counted = omega (arith, o.counted, length-append st.served (key ∷ []));
        split = omega (arith, o.split);
        requests = o.requests;
        few = o.few;
        numbered = o.numbered;
        placed = All-map st.contexts (IsPlaced-append t st.served (key ∷ [])) o.placed;
        covered = λ n l h. absurd (omega (arith, o.split));
        cached = λ n l. elim (Bool-cases (n == st.copy_cnt)) [
          | inl last ↦
              let at : n ≡ length st.served = ground (arith, o.counted) in
              rw last (
                ap some (right key v e)
                ∙ ap (λ k. some (emb k)) (sym (get_or-append_last st.served key n 0 at)))
          | inr early ↦
              let old : n < st.hit_cnt = ground (arith, o.split) in
              rw early (
                o.cached n old
                ∙ ap (λ k. some (emb k))
                    (sym (
                      get_or-append_left st.served (key ∷ []) n 0
                        (omega (arith, o.split, o.counted)))))
        ];
      }

  pub ask_all-IsLaidOut :
      (lookup : ℕ → Option V) (ks : List ℕ) (st : Serving Carrier V)
      → ((k : ℕ) (v : V) → lookup k ≡ some v → v ≡ emb k)
      → st.load_emb_cnt ≡ 0
      → IsLaidOut t emb st
      → IsLaidOut t emb (ask_all F lookup ks st)
  unfolding ask_all
  ask_all-IsLaidOut lookup [] st right z o = o
  ask_all-IsLaidOut lookup (x ∷ xs) st right z o =
      let asked = ask_cache-IsLaidOut lookup x st right z o in
      ask_all-IsLaidOut lookup xs (ask_cache F lookup x st) right asked.1 asked.0

  -- After the cache and the main loop.
  pub serve-IsLaidOut :
      (lookup : ℕ → Option V) (order : List ℕ)
      → ((k : ℕ) (v : V) → lookup k ≡ some v → v ≡ emb k)
      → ((k : ℕ) → elem k order ≡ true → IsHeld t k × (0 < get_or t.block_cnt k 0))
      → IsLaidOut t emb (serve_all F t order (ask_all F lookup order (begin F order)))
  unfolding begin
  serve-IsLaidOut lookup order right held = serve_all-IsLaidOut order _ held (
      ask_all-IsLaidOut lookup order (begin F order) right refl (record {
        counted = refl;
        split = refl;
        requests = refl;
        few = omega arith;
        numbered = tt;
        placed = tt;
        covered = λ n l h. absurd (omega arith);
        cached = λ n l. elim l [ ];
      }))
