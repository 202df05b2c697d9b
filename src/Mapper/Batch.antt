-- ===== src/Mapper/Batch.antt =====
-- client/src/mapper.cpp, BatchGet: which blocks one request reads, and what each read serves.
-- The SSD's answers are in Mapper/Complete; the timers are left out.
pub mod Choice
pub mod Cover
pub mod Fits
pub mod Layout
pub mod Serve
use max_embed.Prelude.{
  ℕ, zero, suc, ◌+◌, ◌*◌, ◌%◌, Bool, true, List, [], ◌∷◌, ◌++◌, Option, none, some, ltb, leb, ◌==◌,
  ◌&&◌, if◌then◌else◌, to_ℕ, get_or, length, map,
}
use max_embed.FlatSet.{FlatSet}
use max_embed.Mapper.{Tables}
use max_embed.Mapper.Order.{order_keys}

-- SyncReadCtx, as BatchGet fills it: `src` is the page of bouncedBuffer_[tid], `dst` the slot of
-- `results`; `items` are the pairs idx[i], offset[i] for i < emb_cnt, for which there is room only
-- while `contexts_fit`.
pub record ReadCtx : Type 0 where
  pub block : ℕ
  pub src : ℕ
  pub dst : ℕ
  pub items : List (ℕ × ℕ)

-- The local state of BatchGet after the cache was asked. `served` lists the keys whose embeddings
-- have a slot in `results`, in the order of the slots, so that copy_cnt counts them; `results` is the
-- caller's buffer, `none` where nothing was written yet.
pub record Serving (C V : Type 0) : Type 0 where
  pub req_set : C
  pub copy_cnt : ℕ
  pub hit_cnt : ℕ
  pub ssd_request_cnt : ℕ
  pub load_emb_cnt : ℕ
  pub contexts : List ReadCtx
  pub served : List ℕ
  pub results : ℕ → Option V

abbrev pub emb_cnt : ReadCtx → ℕ
emb_cnt c = length c.items

abbrev pub keys_of : List (ℕ × ℕ) → List ℕ
keys_of = map (λ p. p.0)

abbrev pub max_visit : ℕ
max_visit = 10

-- A slot of `results` is written.
abbrev pub update : {V : Type 0} → (ℕ → Option V) → ℕ → V → ℕ → Option V
update results slot v n = if n == slot then some v else results n

-- kBouncedBuffer_, and the CHECKs at the head of BatchGet.
abbrev pub bounced_buffer : ℕ
bounced_buffer = 4096

unfoldable pub checks : ℕ → ℕ → ℕ → Bool
checks size value_size lba_size =
    leb size bounced_buffer && leb value_size lba_size && (value_size % 4 == 0)

-- The size of idx and offset in a SyncReadCtx.
abbrev pub max_items : ℕ
max_items = 64

-- The embeddings that are copied lie in the page that is read.
unfoldable pub items_fit : ℕ → ℕ → List (ℕ × ℕ) → Bool
items_fit value_size lba_size [] = true
items_fit value_size lba_size ((key, offset) ∷ items) =
    leb ((offset + 1) * value_size) lba_size && items_fit value_size lba_size items

-- No context is filled past the end of idx and offset, and no copy is from behind a page.
unfoldable pub contexts_fit : ℕ → ℕ → List ReadCtx → Bool
contexts_fit value_size lba_size [] = true
contexts_fit value_size lba_size (c ∷ cs) =
    leb (emb_cnt c) max_items
    && (items_fit value_size lba_size c.items && contexts_fit value_size lba_size cs)

module _ (F : FlatSet) where
  open F use {Carrier, clear, insert, erase, contains}

  -- req_set.insert(order.begin(), order.end())
  unfoldable pub insert_all : List ℕ → Carrier → Carrier
  insert_all [] s = s
  insert_all (k ∷ ks) s = insert_all ks (insert k s)

  -- for (auto item : block_to_elem[block]) count += req_set.count(item);
  unfoldable pub count_requested : List ℕ → Carrier → ℕ
  count_requested [] s = 0
  count_requested (i ∷ items) s = to_ℕ (contains i s) + count_requested items s

  -- for (pos = start; pos < end; pos++): `n` rounds are left, `i` blocks were visited; the result
  -- is maxp.
  unfoldable pub scan : Tables → Carrier → ℕ → ℕ → ℕ → ℕ → ℕ → ℕ
  scan t s zero pos i max maxp = maxp
  scan t s (suc n) pos i max maxp =
      let block = get_or t.all_blocks pos 0 in
      let found = count_requested (get_or t.block_to_elem block []) s in
      let max' = if ltb max found then found else max in
      let maxp' = if ltb max found then block else maxp in
      let rest = scan t s n (pos + 1) (i + 1) max' maxp' in
      if i + 1 == max_visit then maxp' else rest

  -- The block to read for a key.
  unfoldable pub choose : Tables → Carrier → ℕ → ℕ
  choose t s key =
      let start = get_or t.block_idx key 0 in
      let maxp = get_or t.all_blocks start 0 in
      if get_or t.block_cnt key 0 == 1
      then maxp
      else scan t s (get_or t.block_cnt key 0) start 0 0 maxp

  -- for (offset = 0; …; offset++) if (req_set.erase(item)) …: the pairs taken.
  unfoldable pub take_items : List ℕ → ℕ → Carrier → List (ℕ × ℕ)
  take_items [] offset s = []
  take_items (item ∷ items) offset s =
      let rest = take_items items (offset + 1) (erase item s) in
      if contains item s then (item, offset) ∷ rest else rest

  -- The same loop: the set that is left.
  unfoldable pub erase_all : List ℕ → Carrier → Carrier
  erase_all [] s = s
  erase_all (item ∷ items) s = erase_all items (erase item s)

  -- One key of the cache loop; `lookup` is what findFast answers for each key.
  unfoldable pub ask_cache :
      {V : Type 0} → (ℕ → Option V) → ℕ → Serving Carrier V → Serving Carrier V
  ask_cache lookup key st = elim (lookup key) [
    | none ↦ st
    | some v ↦ record st {
      req_set = erase key st.req_set;
      copy_cnt = st.copy_cnt + 1;
      hit_cnt = st.hit_cnt + 1;
      served = st.served ++ key ∷ [];
      results = update st.results st.copy_cnt v;
    }
  ]

  unfoldable pub ask_all :
      {V : Type 0} → (ℕ → Option V) → List ℕ → Serving Carrier V → Serving Carrier V
  ask_all lookup [] st = st
  ask_all lookup (k ∷ ks) st = ask_all lookup ks (ask_cache lookup k st)

  -- Reading one block: the context is filled and submitted.
  unfoldable pub read_block : {V : Type 0} → Tables → ℕ → Serving Carrier V → Serving Carrier V
  read_block t maxp st =
      let items = get_or t.block_to_elem maxp [] in
      let taken = take_items items 0 st.req_set in
      record st {
        req_set = erase_all items st.req_set;
        copy_cnt = st.copy_cnt + length taken;
        ssd_request_cnt = st.ssd_request_cnt + 1;
        load_emb_cnt = st.load_emb_cnt + length taken;
        contexts =
            st.contexts
            ++ record { block = maxp; src = st.ssd_request_cnt; dst = st.copy_cnt; items = taken }
              ∷ [];
        served = st.served ++ keys_of taken;
      }

  -- One key of the main loop.
  unfoldable pub serve_key : {V : Type 0} → Tables → ℕ → Serving Carrier V → Serving Carrier V
  serve_key t key st =
      if contains key st.req_set then read_block t (choose t st.req_set key) st else st

  unfoldable pub serve_all : {V : Type 0} → Tables → List ℕ → Serving Carrier V → Serving Carrier V
  serve_all t [] st = st
  serve_all t (k ∷ ks) st = serve_all t ks (serve_key t k st)

  -- The state before the cache is asked.
  unfoldable pub begin : {V : Type 0} → List ℕ → Serving Carrier V
  begin order = record {
    req_set = insert_all order clear;
    copy_cnt = 0;
    hit_cnt = 0;
    ssd_request_cnt = 0;
    load_emb_cnt = 0;
    contexts = [];
    served = [];
    results = λ n. none;
  }

  -- Without a cache every lookup misses. `none`: a CHECK fails, or a context is filled past its arrays
  -- or served from behind its page, where the source goes on with the memory it has overwritten.
  unfoldable pub batch_get :
      {V : Type 0} → Tables → (ℕ → Option V) → ℕ → ℕ → List ℕ → Option (Serving Carrier V)
  batch_get t lookup value_size lba_size keys =
      let order = order_keys t.block_cnt keys in
      let st = serve_all t order (ask_all lookup order (begin order)) in
      if checks (length keys) value_size lba_size && contexts_fit value_size lba_size st.contexts
      then some st
      else none
