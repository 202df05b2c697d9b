-- ===== src/Mapper/Batch/Choice.antt =====
-- client/src/mapper.cpp, BatchGet: the block that is read for a key.
use max_embed.Prelude.{
  ℕ, zero, suc, ◌+◌, ◌≤◌, ◌<◌, ◌≡◌, sym, ap, subst, true, false, [], ◌∷◌, arith, ltb, ◌==◌,
  if◌then◌else◌, get_or, take, elem, All,
}
use max_embed.FlatSet.{FlatSet}
use max_embed.Mapper.{Tables}
use max_embed.Mapper.Invert.{blocks_from, candidates}
use max_embed.Mapper.Batch.{count_requested, scan, choose, max_visit}

module _ (F : FlatSet) (t : Tables) (s : F.Carrier) where
  -- How many requested items a block holds.
  abbrev pub gain : ℕ → ℕ
  gain b = count_requested F (get_or t.block_to_elem b []) s

  elem-scan :
      (n pos i max maxp : ℕ)
      → elem (scan F t s n pos i max maxp) (maxp ∷ blocks_from t.all_blocks n pos) ≡ true
  unfolding scan
  elem-scan zero pos i max maxp = ground arith
  elem-scan (suc n) pos i max maxp =
      let block = get_or t.all_blocks pos 0 in
      let found = gain block in
      ground (
        arith,
        elem-scan n (pos + 1) (i + 1) (if ltb max found then found else max)
            (if ltb max found then block else maxp),
      )

  -- The block that is read for a key with a block is listed for it.
  pub elem-choose :
      (key : ℕ)
      → 0 < get_or t.block_cnt key 0
      → elem (choose F t s key) (candidates t.file key) ≡ true
  unfolding choose
  elem-choose key h = first (get_or t.block_cnt key 0) h
    where
      first :
          (n : ℕ)
          → 0 < n
          → elem
              (if n == 1
                then get_or t.all_blocks (get_or t.block_idx key 0) 0
                else scan F t s n
                    (get_or t.block_idx key 0)
                    0
                    0
                    (get_or t.all_blocks (get_or t.block_idx key 0) 0))
              (blocks_from t.all_blocks n (get_or t.block_idx key 0))
            ≡ true
      first zero h = absurd (omega arith)
      first (suc n) h =
          let start = get_or t.block_idx key 0 in
          ground (arith, elem-scan (suc n) start 0 0 (get_or t.all_blocks start 0))

  -- `max` is at most what `maxp` holds; the loop ends after max_visit rounds.
  scan_best :
      (n pos i max maxp m : ℕ)
      → max ≤ gain maxp
      → i + suc m ≡ max_visit
      → (max ≤ gain (scan F t s n pos i max maxp))
        × All
            (λ b. gain b ≤ gain (scan F t s n pos i max maxp))
            (take (suc m) (blocks_from t.all_blocks n pos))
  unfolding scan
  scan_best zero pos i max maxp m h e = (h, tt)
  scan_best (suc n) pos i max maxp zero h e = ground arith
  scan_best (suc n) pos i max maxp (suc m) h e =
      let block = get_or t.all_blocks pos 0 in
      let max' = if ltb max (gain block) then gain block else max in
      let maxp' = if ltb max (gain block) then block else maxp in
      let rest = scan_best n (pos + 1) (i + 1) max' maxp' m (ground arith) (omega arith) in
      let going : (i + 1 == max_visit) ≡ false = ground arith in
      let up : (max ≤ max') × (gain block ≤ max') = ground arith in
      let next = scan F t s n (pos + 1) (i + 1) max' maxp' in
      let goes_on : scan F t s (suc n) pos i max maxp ≡ next =
        ap (λ b. if b then maxp' else next) going in
      subst
        (λ r.
          (max ≤ gain r)
          × All (λ b. gain b ≤ gain r)
              (block ∷ take (suc m) (blocks_from t.all_blocks n (pos + 1))))
        (sym goes_on) (omega (arith, rest.0, up), (omega (arith, rest.0, up), rest.1))

  -- No other of the first ten blocks of a key holds more of the items that are still requested.
  pub choose_best :
      (key : ℕ)
      → All (λ b. gain b ≤ gain (choose F t s key)) (take max_visit (candidates t.file key))
  unfolding choose
  choose_best key = best (get_or t.block_cnt key 0)
    where
      best :
          (n : ℕ)
          → let start = get_or t.block_idx key 0 in
            let maxp = get_or t.all_blocks start 0 in
            All
              (λ b. gain b ≤ gain (if n == 1 then maxp else scan F t s n start 0 0 maxp))
              (take max_visit (blocks_from t.all_blocks n start))
      best zero = tt
      best (suc zero) = (omega arith, tt)
      best (suc (suc n)) =
          let start = get_or t.block_idx key 0 in
          let maxp = get_or t.all_blocks start 0 in
          let found = scan F t s (suc (suc n)) start 0 0 maxp in
          let many : (suc (suc n) == 1) ≡ false = ground arith in
          let scans : (if suc (suc n) == 1 then maxp else found) ≡ found =
            ap (λ b. if b then maxp else found) many in
          subst
            (λ r.
              All (λ b. gain b ≤ gain r)
                (take max_visit (blocks_from t.all_blocks (suc (suc n)) start)))
            (sym scans) (scan_best (suc (suc n)) start 0 0 maxp 9 (omega arith) (omega arith)).1
