-- ===== src/Timing/Sums.antt =====
-- client/include/timer.h, Counter: the sums and counts after any calls.
use max_embed.Prelude.{
  ◌≡◌, refl, sym, ap, ◌∙◌, Bool, List, [], ◌∷◌, ◌++◌, arith, length, length-append,
}
use max_embed.Timing.{Counter, Call, adds, clears, fresh, add_value, period_clear, perform}

module _ {T : Type 0} (zero_value : T) (plus minus : T → T → T) (greater : T → T → Bool) where
  -- The sum of some values, from the left.
  abbrev pub total_from : T → List T → T
  total_from acc [] = acc
  total_from acc (x ∷ xs) = total_from (plus acc x) xs

  abbrev pub total : List T → T
  total xs = total_from zero_value xs

  -- The values added before and in the calls, those of the current period only.
  abbrev pub recent : List T → List (Call T) → List T
  recent before [] = before
  recent before (adds value ∷ calls) = recent (before ++ value ∷ []) calls
  recent before (clears ∷ calls) = recent [] calls

  -- All of them.
  abbrev pub added : List T → List (Call T) → List T
  added before [] = before
  added before (adds value ∷ calls) = added (before ++ value ∷ []) calls
  added before (clears ∷ calls) = added before calls

  pub record IsSummed (all period : List T) (c : Counter T) : Type 0 where
    pub tot_value_is : c.tot_value ≡ total all
    pub tot_cnt_is : c.tot_cnt ≡ length all
    pub period_value_is : c.period_value ≡ total period
    pub period_cnt_is : c.period_cnt ≡ length period

  total_from-last :
      (acc : T) (xs : List T) (x : T) → total_from acc (xs ++ x ∷ []) ≡ plus (total_from acc xs) x
  total_from-last acc [] x = refl
  total_from-last acc (y ∷ xs) x = total_from-last (plus acc y) xs x

  add_value-IsSummed :
      (value : T) (all period : List T) (c : Counter T)
      → IsSummed all period c
      → IsSummed
          (all ++ value ∷ [])
          (period ++ value ∷ [])
          (add_value zero_value plus minus greater value c)
  unfolding add_value
  add_value-IsSummed value all period c p = record {
    tot_value_is =
        ap (λ t. plus t value) p.tot_value_is ∙ sym (total_from-last zero_value all value);
    tot_cnt_is = omega (arith, p.tot_cnt_is, length-append all (value ∷ []));
    period_value_is =
        ap (λ t. plus t value) p.period_value_is ∙ sym (total_from-last zero_value period value);
    period_cnt_is = omega (arith, p.period_cnt_is, length-append period (value ∷ []));
  }

  perform-from :
      (calls : List (Call T)) (all period : List T) (c : Counter T)
      → IsSummed all period c
      → IsSummed
          (added all calls)
          (recent period calls)
          (perform zero_value plus minus greater calls c)
  unfolding perform period_clear
  perform-from [] all period c p = p
  perform-from (adds value ∷ calls) all period c p =
      perform-from calls (all ++ value ∷ []) (period ++ value ∷ []) _
        (add_value-IsSummed value all period c p)
  perform-from (clears ∷ calls) all period c p = perform-from calls all [] _ (record {
    tot_value_is = p.tot_value_is;
    tot_cnt_is = p.tot_cnt_is;
    period_value_is = refl;
    period_cnt_is = refl;
  })

  -- After any calls on a new Counter, its totals are the sum and the number of all added values, and
  -- those of the period the sum and the number of the values added after the last PeriodClear.
  pub perform-IsSummed :
      (calls : List (Call T))
      → IsSummed
          (added [] calls)
          (recent [] calls)
          (perform zero_value plus minus greater calls (fresh zero_value plus minus greater))
  unfolding fresh
  perform-IsSummed calls = perform-from calls [] [] (fresh zero_value plus minus greater) (record {
    tot_value_is = refl;
    tot_cnt_is = refl;
    period_value_is = refl;
    period_cnt_is = refl;
  })
