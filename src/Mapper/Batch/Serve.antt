-- ===== src/Mapper/Batch/Serve.antt =====
-- client/src/mapper.cpp: the constructor and BatchGet together.
use max_embed.Prelude.{
  All, refl, ◌*◌, subst, ap, length_of_count-le, [], elem_of_count-pos, ℕ, ◌%◌, ◌≤◌, ◌<◌, ◌≡◌, true,
  List, Option, some, arith, to_ℕ, get_or, length, count, elem, count-pos_of_elem,
}
use max_embed.FlatSet.{FlatSet}
use max_embed.Mapper.{MappingFile, Tables, construct}
use max_embed.Mapper.Invert.{candidates, IsWellFormed, count-construct}
use max_embed.Mapper.Order.{order_keys, elem-order_keys}
use max_embed.Mapper.Batch.{
  Serving, ask_all, serve_all, begin, batch_get, checks, bounced_buffer, max_items, contexts_fit,
}
use max_embed.Mapper.Batch.Fits.{IsFitting, contexts_fit_sound, contexts_fit-answer}
use max_embed.Mapper.Batch.Layout.{IsLaidOut, serve-IsLaidOut}
use max_embed.Mapper.Batch.Cover.{
  IsHeld, balance-begin, balance-serve_all, balance-ask_all, begin-IsWaiting, clears_all,
}

-- The CHECKs pass on a batch that fits the bounce buffer, of values that fit a page.
pub checks_pass :
    (size value_size lba_size : ℕ)
    → size ≤ bounced_buffer
    → value_size ≤ lba_size
    → value_size % 4 ≡ 0
    → checks size value_size lba_size ≡ true
unfolding checks
checks_pass size value_size lba_size h k e = ground arith

pub file-construct :
    (f : MappingFile) (num_items : ℕ) (t : Tables) → construct f num_items ≡ some t → t.file ≡ f
unfolding construct
file-construct f num_items t e = ground arith

pub IsHeld-construct :
    (f : MappingFile) (num_items : ℕ) (t : Tables)
    → IsWellFormed f
    → construct f num_items ≡ some t
    → (k : ℕ) → k < f.item_cnt
    → IsHeld t k × (0 < get_or t.block_cnt k 0)
IsHeld-construct f num_items t w e k h =
    let same = file-construct f num_items t e in
    let held = λ (b : ℕ) (m : elem b (candidates t.file k) ≡ true).
      let listed : elem b (candidates f k) ≡ true = rw (← same) m in
      elem_of_count-pos k (get_or t.block_to_elem b []) (
        ground (
          arith,
          count-construct f num_items t w e b k,
          count-pos_of_elem b (candidates f k) listed,
        )) in
    (held, rw same (w.placed k h))

-- What BatchGet runs once its CHECKs have passed.
abbrev pub answer :
    (F : FlatSet) {V : Type 0} → Tables → (ℕ → Option V) → List ℕ → Serving F.Carrier V
answer F t lookup keys =
    let order = order_keys t.block_cnt keys in
    serve_all F t order (ask_all F lookup order (begin F order))

batch_get-inv :
    (F : FlatSet) {V : Type 0} (t : Tables) (lookup : ℕ → Option V) (value_size lba_size : ℕ)
    (keys : List ℕ) (st : Serving F.Carrier V)
    → batch_get F t lookup value_size lba_size keys ≡ some st
    → (answer F t lookup keys ≡ st)
      × (length keys ≤ bounced_buffer)
      × (contexts_fit value_size lba_size st.contexts ≡ true)
unfolding batch_get checks
batch_get-inv F t lookup value_size lba_size keys st e = ground arith

module _ (F : FlatSet) {V : Type 0} (f : MappingFile) (num_items : ℕ) (t : Tables)
    (lookup : ℕ → Option V) (value_size lba_size : ℕ) (keys : List ℕ) (w : IsWellFormed f)
    (built : construct f num_items ≡ some t)
    (known : (k : ℕ) → elem k keys ≡ true → k < f.item_cnt) where
  held :
      (k : ℕ)
      → elem k (order_keys t.block_cnt keys) ≡ true
      → IsHeld t k × (0 < get_or t.block_cnt k 0)
  held k m =
      IsHeld-construct f num_items t w built k
        (known k (rw (elem-order_keys t.block_cnt k keys) at m))

  count-answer : (k : ℕ) → count k (answer F t lookup keys).served ≡ to_ℕ (elem k keys)
  count-answer k =
      let order = order_keys t.block_cnt keys in
      let start = begin F {V = V} order in
      let asked = ask_all F lookup order start in
      ground (
        arith,
        balance-serve_all F t order k asked,
        balance-ask_all F lookup order k start (begin-IsWaiting F V t.block_cnt keys),
        balance-begin F V order k,
        elem-order_keys t.block_cnt k keys,
        clears_all F t lookup order k (held k),
      )

  -- From a well-formed file that puts at most 64 items into a block, all within a page, a request for
  -- known keys that is within the limits is answered, and each of its keys, and no other, is served
  -- exactly once, whatever the cache answers.
  pub batch_get_serves :
      length keys ≤ bounced_buffer
      → value_size ≤ lba_size
      → value_size % 4 ≡ 0
      → ((b : ℕ) → length (get_or t.block_to_elem b []) ≤ max_items)
      → ((b : ℕ) → length (get_or t.block_to_elem b []) * value_size ≤ lba_size)
      → (st : Serving F.Carrier V) × (batch_get F t lookup value_size lba_size keys ≡ some st)
        × ((k : ℕ) → count k st.served ≡ to_ℕ (elem k keys))
  unfolding batch_get
  batch_get_serves size page four few in_page = (
    answer F t lookup keys,
    rw
        (
          checks_pass (length keys) value_size lba_size size page four,
          contexts_fit-answer value_size lba_size F t few in_page lookup
              (order_keys t.block_cnt keys),
        )
        refl,
    count-answer,
  )

  -- From a well-formed file and a cache that answers right, an answered request for known keys is
  -- laid out so: the slots of `results` belong to the hits, which are right, and then to the reads;
  -- the reads take the pages of the bounce buffer in turn; each read fills at least one slot with
  -- entries of its block, at most 64, all within the page; and neither slots nor reads are more than
  -- the request's keys, so no read is past the bounce buffer.
  pub batch_get_layout :
      (emb : ℕ → V) (st : Serving F.Carrier V)
      → ((k : ℕ) (v : V) → lookup k ≡ some v → v ≡ emb k)
      → batch_get F t lookup value_size lba_size keys ≡ some st
      → IsLaidOut t emb st
        × (st.copy_cnt ≤ length keys)
        × (st.ssd_request_cnt ≤ length keys)
        × (length keys ≤ bounced_buffer)
        × All (IsFitting value_size lba_size) st.contexts
  batch_get_layout emb st right run =
      let (same, size, fits) = batch_get-inv F t lookup value_size lba_size keys st run in
      let order = order_keys t.block_cnt keys in
      let laid : IsLaidOut t emb st =
        subst (IsLaidOut t emb) same (serve-IsLaidOut F t emb lookup order right held) in
      let few : length st.served ≤ length keys = length_of_count-le st.served keys (λ k.
        ground
          (arith, ap (λ s. count k s.served) same, count-answer k, count-pos_of_elem k keys)) in
      (
        laid,
        omega (arith, few, laid.counted),
        omega (arith, few, laid.counted, laid.split, laid.few),
        size,
        contexts_fit_sound value_size lba_size st.contexts fits,
      )
