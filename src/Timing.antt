-- ===== src/Timing.antt =====
-- client/include/timer.h: Counter, Timer and Event. Times and sums are of a type with the addition,
-- the subtraction and the order of double; counts are below 2 ^ 63.
pub mod Sums
mod Tests
use max_embed.Prelude.{ℕ, ◌+◌, Bool, List, [], ◌∷◌, if◌then◌else◌}

pub record Counter (T : Type 0) : Type 0 where
  pub tot_value : T
  pub period_value : T
  pub tot_cnt : ℕ
  pub period_cnt : ℕ

pub record Timer (T : Type 0) : Type 0 where
  pub counter : Counter T
  pub start : T

-- `calls` counts the calls of func.
pub record TimedEvent (T : Type 0) : Type 0 where
  pub start : T
  pub interval : T
  pub calls : ℕ

-- The calls that change a Counter.
pub data Call (T : Type 0) : Type 0 where
  adds : T → Call T
  clears : Call T

module _ {T : Type 0} (zero_value : T) (plus minus : T → T → T) (greater : T → T → Bool) where
  unfoldable pub fresh : Counter T
  fresh = record { tot_value = zero_value; period_value = zero_value; tot_cnt = 0; period_cnt = 0 }

  unfoldable pub add_value : T → Counter T → Counter T
  add_value value c = record {
    tot_value = plus c.tot_value value;
    period_value = plus c.period_value value;
    tot_cnt = c.tot_cnt + 1;
    period_cnt = c.period_cnt + 1;
  }

  unfoldable pub period_clear : Counter T → Counter T
  period_clear c = record c { period_value = zero_value; period_cnt = 0 }

  unfoldable pub perform : List (Call T) → Counter T → Counter T
  perform [] c = c
  perform (adds value ∷ calls) c = perform calls (add_value value c)
  perform (clears ∷ calls) c = perform calls (period_clear c)

  -- Timer::Start and Timer::End at a time that the clock shows.
  unfoldable pub start_timer : T → Timer T → Timer T
  start_timer now t = record t { start = now }

  unfoldable pub end_timer : T → Timer T → Timer T
  end_timer now t = record t { counter = add_value (minus now t.start) t.counter }

  -- Event::CheckOut
  unfoldable pub check_out : T → TimedEvent T → TimedEvent T
  check_out now e =
      if greater (minus now e.start) e.interval
      then record e { start = now; calls = e.calls + 1 }
      else e
