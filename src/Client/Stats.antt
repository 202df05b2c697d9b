-- ===== src/Client/Stats.antt =====
-- client/src/client.cpp: the monitor's differences, and the two summaries that main prints at the end.
-- Times are of a type with the addition of double; the last division is left out.
use mathlib.Core.Logic.{◌⊎◌}
use max_embed.Prelude.{
  ℕ, zero, suc, ◌+◌, ◌-◌, ◌%◌, ◌^◌, ◌≤◌, ◌<◌, ◌≡◌, refl, sym, subst, ap, ◌∙◌, List, [], ◌∷◌, Option,
  none, some, arith, ltb, if◌then◌else◌, length, All, All-map, take, drop, Option-cases, inl, inr,
}

-- s[i]; `none` is a read past the end.
abbrev pub read_at : {A : Type 0} → List A → ℕ → Option A
read_at [] i = none
read_at (x ∷ xs) zero = some x
read_at (x ∷ xs) (suc i) = read_at xs i

read_at-some :
    {A : Type 0} (s : List A) (i : ℕ)
    → i < length s
    → (x : A) × (read_at s i ≡ some x) × (drop i s ≡ x ∷ drop (i + 1) s)
read_at-some [] i h = absurd (omega arith)
read_at-some (x ∷ s) zero h = (x, refl, refl)
read_at-some (x ∷ s) (suc i) h =
    let (y, e, d) = read_at-some s i (omega arith) in
    let at : suc i + 1 ≡ suc (i + 1) = omega arith in
    (y, e, subst (λ k. drop i s ≡ y ∷ drop k (x ∷ s)) (sym at) d)

read_at-none : {A : Type 0} (s : List A) (i : ℕ) → length s ≤ i → read_at s i ≡ none
read_at-none [] i h = refl
read_at-none (x ∷ s) zero h = absurd (omega arith)
read_at-none (x ∷ s) (suc i) h = read_at-none s i (omega arith)

module _ {T : Type 0} (plus : T → T → T) where
  -- tot += s[i].first; cnt += s[i].second; for `n` rounds from the i-th entry.
  unfoldable pub sum_from : List (T × ℕ) → ℕ → ℕ → T × ℕ → Option (T × ℕ)
  sum_from s zero i acc = some acc
  sum_from s (suc n) i acc = elim (read_at s i) [
    | none ↦ none
    | some (value, cnt) ↦ sum_from s n (i + 1) (plus acc.0 value, acc.1 + cnt)
  ]

  -- process_stats: i < (int)s.size() - 2
  unfoldable pub process_stats : List (T × ℕ) → T → Option (T × ℕ)
  process_stats s zero_value = sum_from s (length s - 2 - 5) 5 (zero_value, 0)

  -- end = min of the sizes, then end -= 2 in a size_t.
  unfoldable pub min_size : ℕ → List (List (T × ℕ)) → ℕ
  min_size end [] = end
  min_size end (s ∷ series) = min_size (if ltb (length s) end then length s else end) series

  unfoldable pub stats_end : List (List (T × ℕ)) → ℕ
  stats_end [] = 0
  stats_end (s ∷ series) = (min_size (length s) series + (2 ^ 64 - 2)) % 2 ^ 64

  -- for (j = 0; j < n; j++)
  unfoldable pub sum_series : ℕ → List (List (T × ℕ)) → T × ℕ → Option (T × ℕ)
  sum_series end [] acc = some acc
  sum_series end (s ∷ series) acc = elim (sum_from s (end - 5) 5 acc) [
    | none ↦ none
    | some acc' ↦ sum_series end series acc'
  ]

  unfoldable pub process_stats_n : List (List (T × ℕ)) → T → Option (T × ℕ)
  process_stats_n series zero_value = sum_series (stats_end series) series (zero_value, 0)

  -- The sum over a list's entries.
  abbrev pub total : List (T × ℕ) → T × ℕ → T × ℕ
  total [] acc = acc
  total ((value, cnt) ∷ s) acc = total s (plus acc.0 value, acc.1 + cnt)

  abbrev pub total_all : ℕ → List (List (T × ℕ)) → T × ℕ → T × ℕ
  total_all n [] acc = acc
  total_all n (s ∷ series) acc = total_all n series (total (take n (drop 5 s)) acc)

  sum_from-some :
      (s : List (T × ℕ)) (n i : ℕ) (acc : T × ℕ)
      → (i + n ≤ length s) ⊎ (n ≡ 0)
      → sum_from s n i acc ≡ some (total (take n (drop i s)) acc)
  unfolding sum_from
  sum_from-some s zero i acc h = refl
  sum_from-some s (suc n) i acc h =
      let fits : i + suc n ≤ length s = elim h [ inl l ↦ l | inr e ↦ absurd (omega (arith, e)) ] in
      let (x, e, d) = read_at-some s i (omega (arith, fits)) in
      rw (e, sum_from)
        (sum_from-some s n (i + 1) (plus acc.0 x.0, acc.1 + x.1) (inl (omega (arith, fits)))
          ∙ ap (λ ys. some (total (take (suc n) ys) acc)) (sym d))

  sum_from-none :
      (s : List (T × ℕ)) (n i : ℕ) (acc : T × ℕ)
      → 0 < n
      → length s < i + n
      → sum_from s n i acc ≡ none
  unfolding sum_from
  sum_from-none s zero i acc p h = absurd (omega arith)
  sum_from-none s (suc n) i acc p h = elim (Option-cases (read_at s i)) [
    | inl e ↦ rw (e, sum_from) refl
    | inr (x, e) ↦
        let inside : ¬ (n ≡ 0) = λ z. cc (e, read_at-none s i (omega (arith, z, h))) in
        rw (e, sum_from)
          (sum_from-none s n (i + 1) (plus acc.0 x.0, acc.1 + x.1) (omega (arith, inside))
            (omega arith))
  ]

  min_size-le : (end : ℕ) (series : List (List (T × ℕ))) → min_size end series ≤ end
  unfolding min_size
  min_size-le end [] = omega arith
  min_size-le end (s ∷ series) =
      ground (arith, min_size-le (if ltb (length s) end then length s else end) series)

  min_size-all :
      (end : ℕ) (series : List (List (T × ℕ))) → All (λ s. min_size end series ≤ length s) series
  unfolding min_size
  min_size-all end [] = tt
  min_size-all end (s ∷ series) =
      let end' = if ltb (length s) end then length s else end in
      (ground (arith, min_size-le end' series), min_size-all end' series)

  min_size-bound :
      (k end : ℕ) (series : List (List (T × ℕ)))
      → k ≤ end
      → All (λ s. k ≤ length s) series
      → k ≤ min_size end series
  unfolding min_size
  min_size-bound k end [] h a = h
  min_size-bound k end (s ∷ series) h a =
      min_size-bound k (if ltb (length s) end then length s else end) series (ground (arith, a.0))
        a.1

  sum_series-some :
      (end : ℕ) (series : List (List (T × ℕ))) (acc : T × ℕ)
      → All (λ s. end ≤ length s) series
      → sum_series end series acc ≡ some (total_all (end - 5) series acc)
  unfolding sum_series
  sum_series-some end [] acc a = refl
  sum_series-some end (s ∷ series) acc a =
      rw (sum_from-some s (end - 5) 5 acc (ground (arith, a.0)), sum_series)
        (sum_series-some end series _ a.1)

  -- Threads that all recorded at least two entries, fewer than 2 ^ 64: process_stats_n sums the entries
  -- from the sixth on of each, up to two less than the shortest has.
  pub process_stats_n-sums :
      (s : List (T × ℕ)) (series : List (List (T × ℕ))) (zero_value : T)
      → length s < 2 ^ 64
      → 2 ≤ length s
      → All (λ r. 2 ≤ length r) series
      → process_stats_n (s ∷ series) zero_value
        ≡ some (total_all (min_size (length s) series - 2 - 5) (s ∷ series) (zero_value, 0))
  unfolding process_stats_n stats_end
  process_stats_n-sums s series zero_value small two all =
      let m = min_size (length s) series in
      let low = min_size-bound 2 (length s) series two all in
      let high = min_size-le (length s) series in
      let e : (m + (2 ^ 64 - 2)) % 2 ^ 64 ≡ m - 2 = omega (arith, low, high) in
      rw e (
        sum_series-some (m - 2) (s ∷ series) (zero_value, 0)
          (
            omega (arith, high),
            All-map series (λ r h. omega (arith, h)) (min_size-all (length s) series),
          ))

  -- One thread that recorded fewer than two entries, as each does in a run of under two seconds: the
  -- end wraps around, and process_stats_n reads past the end of the first thread's entries.
  pub process_stats_n-fails :
      (s : List (T × ℕ)) (series : List (List (T × ℕ))) (zero_value : T)
      → length s < 2 ^ 63
      → min_size (length s) series < 2
      → process_stats_n (s ∷ series) zero_value ≡ none
  unfolding process_stats_n stats_end sum_series
  process_stats_n-fails s series zero_value small short =
      let m = min_size (length s) series in
      let e : 2 ^ 64 - 2 ≤ (m + (2 ^ 64 - 2)) % 2 ^ 64 = omega (arith, short) in
      let past =
        sum_from-none s ((m + (2 ^ 64 - 2)) % 2 ^ 64 - 5) 5 (zero_value, 0) (omega (arith, e))
          (omega (arith, e)) in
      rw (past, sum_series) refl
