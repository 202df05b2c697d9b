-- ===== src/Timing/Tests.antt =====
-- A run of Counter at concrete calls, and its theorem there.
use max_embed.Prelude.{ℕ, ◌+◌, ◌-◌, ◌≡◌, refl, Bool, List, [], ◌∷◌, ltb}
use max_embed.Timing.{Counter, Call, adds, clears, fresh, add_value, period_clear, perform}
use max_embed.Timing.Sums.{IsSummed, perform-IsSummed}

abbrev plus : ℕ → ℕ → ℕ
plus a b = a + b

abbrev minus : ℕ → ℕ → ℕ
minus a b = a - b

abbrev greater : ℕ → ℕ → Bool
greater a b = ltb b a

abbrev calls : List (Call ℕ)
calls = adds 3 ∷ adds 4 ∷ clears ∷ adds 5 ∷ []

abbrev counted : Counter ℕ
counted = perform 0 plus minus greater calls (fresh 0 plus minus greater)

counted_total : counted.tot_value ≡ 12
unfolding perform fresh add_value period_clear
counted_total = refl

perform-IsSummed_example : IsSummed 0 plus minus greater (3 ∷ 4 ∷ 5 ∷ []) (5 ∷ []) counted
perform-IsSummed_example = perform-IsSummed 0 plus minus greater calls
