-- ===== src/Client/Latency.antt =====
-- client/src/client.cpp: the latencies that a worker keeps between the passes of its loop. The averages
-- over all threads, which are kept under latency_lock, are left out.
use max_embed.Prelude.{
  ℕ, ◌+◌, ◌≡◌, refl, subst, Bool, true, false, List, [], ◌∷◌, ◌++◌, arith, if◌then◌else◌, length,
}
use max_embed.Timing.{Counter, fresh, add_value, period_clear}

-- What one pass measured: the timers of the GetResult, and the worker's two.
pub record Measured (T : Type 0) : Type 0 where
  pub timer_prepare1 : T
  pub timer_prepare2 : T
  pub timer_tot : T
  pub timer : T
  pub model_timer : T

-- The thread's counters, and its entries of the vectors that main sums up.
pub record Latencies (T : Type 0) : Type 0 where
  pub latency_counter : Counter T
  pub latency_ssd_counter : Counter T
  pub latency_index_counter : Counter T
  pub latency_cache_counter : Counter T
  pub latency_model_counter : Counter T
  pub latency : List (T × ℕ)
  pub latency_ssd : List (T × ℕ)
  pub latency_index : List (T × ℕ)
  pub latency_cache : List (T × ℕ)
  pub latency_model : List (T × ℕ)

module _ {T : Type 0} (zero_value : T) (plus minus : T → T → T) (greater : T → T → Bool) where
  abbrev new : Counter T
  new = fresh zero_value plus minus greater

  abbrev add : T → Counter T → Counter T
  add = add_value zero_value plus minus greater

  abbrev clear : Counter T → Counter T
  clear = period_clear zero_value plus minus greater

  abbrev entry : Counter T → T × ℕ
  entry c = (c.period_value, c.period_cnt)

  -- The entries that are pushed; the one for the model takes the count of the cache's counter.
  unfoldable pub push_entries : Latencies T → Latencies T
  push_entries l = record {
    latency_counter = clear l.latency_counter;
    latency_ssd_counter = clear l.latency_ssd_counter;
    latency_index_counter = clear l.latency_index_counter;
    latency_cache_counter = clear l.latency_cache_counter;
    latency_model_counter = clear l.latency_model_counter;
    latency = l.latency ++ entry l.latency_counter ∷ [];
    latency_ssd = l.latency_ssd ++ entry l.latency_ssd_counter ∷ [];
    latency_index = l.latency_index ++ entry l.latency_index_counter ∷ [];
    latency_cache = l.latency_cache ++ entry l.latency_cache_counter ∷ [];
    latency_model =
        l.latency_model
        ++ (l.latency_model_counter.period_value, l.latency_cache_counter.period_cnt) ∷ [];
  }

  -- One pass; `late` is that more than a second has gone since the worker began.
  unfoldable pub record_pass : Bool → Measured T → Latencies T → Latencies T
  record_pass late m l =
      let l' = if late then push_entries l else l in
      record l' {
        latency_cache_counter = add m.timer_prepare1 l'.latency_cache_counter;
        latency_index_counter = add m.timer_prepare2 l'.latency_index_counter;
        latency_ssd_counter = add m.timer_tot l'.latency_ssd_counter;
        latency_counter = add m.timer l'.latency_counter;
        latency_model_counter = add m.model_timer l'.latency_model_counter;
      }

  unfoldable pub record_all : List (Bool × Measured T) → Latencies T → Latencies T
  record_all [] l = l
  record_all ((late, m) ∷ passes) l = record_all passes (record_pass late m l)

  unfoldable pub no_latencies : Latencies T
  no_latencies = record {
    latency_counter = new;
    latency_ssd_counter = new;
    latency_index_counter = new;
    latency_cache_counter = new;
    latency_model_counter = new;
    latency = [];
    latency_ssd = [];
    latency_index = [];
    latency_cache = [];
    latency_model = [];
  }

  -- The counts of the entries.
  abbrev pub entry_cnt : List (T × ℕ) → ℕ
  entry_cnt [] = 0
  entry_cnt (e ∷ s) = e.1 + entry_cnt s

  entry_cnt-append :
      (s : List (T × ℕ)) (v : T) (n : ℕ) → entry_cnt (s ++ (v, n) ∷ []) ≡ entry_cnt s + n
  entry_cnt-append [] v n = omega arith
  entry_cnt-append (e ∷ s) v n = omega (arith, entry_cnt-append s v n)

  -- Entries and counter together count the passes.
  abbrev pub Tallies : ℕ → List (T × ℕ) → Counter T → Type 0
  Tallies n s c = entry_cnt s + c.period_cnt ≡ n

  pub record IsTallied (n : ℕ) (l : Latencies T) : Type 0 where
    pub overall : Tallies n l.latency l.latency_counter
    pub ssd : Tallies n l.latency_ssd l.latency_ssd_counter
    pub index : Tallies n l.latency_index l.latency_index_counter
    pub cache : Tallies n l.latency_cache l.latency_cache_counter
    pub model : Tallies n l.latency_model l.latency_model_counter
    pub alike : l.latency_model_counter.period_cnt ≡ l.latency_cache_counter.period_cnt

  push_entries-IsTallied : (n : ℕ) (l : Latencies T) → IsTallied n l → IsTallied n (push_entries l)
  unfolding push_entries period_clear
  push_entries-IsTallied n l t = record {
    overall = omega (
      arith,
      t.overall,
      entry_cnt-append l.latency l.latency_counter.period_value l.latency_counter.period_cnt,
    );
    ssd = omega (
      arith,
      t.ssd,
      entry_cnt-append l.latency_ssd l.latency_ssd_counter.period_value
          l.latency_ssd_counter.period_cnt,
    );
    index = omega (
      arith,
      t.index,
      entry_cnt-append l.latency_index l.latency_index_counter.period_value
          l.latency_index_counter.period_cnt,
    );
    cache = omega (
      arith,
      t.cache,
      entry_cnt-append l.latency_cache l.latency_cache_counter.period_value
          l.latency_cache_counter.period_cnt,
    );
    model = omega (
      arith,
      t.model,
      t.alike,
      entry_cnt-append l.latency_model l.latency_model_counter.period_value
          l.latency_cache_counter.period_cnt,
    );
    alike = refl;
  }

  record_pass-IsTallied :
      (n : ℕ) (late : Bool) (m : Measured T) (l : Latencies T)
      → IsTallied n l
      → IsTallied (n + 1) (record_pass late m l)
  unfolding record_pass add_value
  record_pass-IsTallied n late m l t = added (if late then push_entries l else l) (either late)
    where
      either : (c : Bool) → IsTallied n (if c then push_entries l else l)
      either true = push_entries-IsTallied n l t
      either false = t

      added :
          (k : Latencies T)
          → IsTallied n k
          → IsTallied (n + 1) (record k {
            latency_cache_counter = add m.timer_prepare1 k.latency_cache_counter;
            latency_index_counter = add m.timer_prepare2 k.latency_index_counter;
            latency_ssd_counter = add m.timer_tot k.latency_ssd_counter;
            latency_counter = add m.timer k.latency_counter;
            latency_model_counter = add m.model_timer k.latency_model_counter;
          })
      added k s = record {
        overall = omega (arith, s.overall);
        ssd = omega (arith, s.ssd);
        index = omega (arith, s.index);
        cache = omega (arith, s.cache);
        model = omega (arith, s.model);
        alike = omega (arith, s.alike);
      }

  record_all-from :
      (n : ℕ) (passes : List (Bool × Measured T)) (l : Latencies T)
      → IsTallied n l
      → IsTallied (length passes + n) (record_all passes l)
  unfolding record_all
  record_all-from n [] l t = subst (λ k. IsTallied k l) (omega arith) t
  record_all-from n ((late, m) ∷ passes) l t =
      subst (λ k. IsTallied k (record_all passes (record_pass late m l))) (omega arith)
        (record_all-from (n + 1) passes (record_pass late m l) (record_pass-IsTallied n late m l t))

  none_yet : IsTallied 0 no_latencies
  unfolding no_latencies fresh
  none_yet = record {
    overall = refl;
    ssd = refl;
    index = refl;
    cache = refl;
    model = refl;
    alike = refl;
  }

  -- After any passes, in each of the five statistics the counts of the entries and of the counter add
  -- up to the number of passes, also in that of the model, whose entries take the cache's count.
  pub record_all-IsTallied :
      (passes : List (Bool × Measured T))
      → IsTallied (length passes) (record_all passes no_latencies)
  record_all-IsTallied passes =
      subst (λ k. IsTallied k (record_all passes no_latencies)) (omega arith)
        (record_all-from 0 passes no_latencies none_yet)
