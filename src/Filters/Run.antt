-- ===== src/Filters/Run.antt =====
-- layer1-filter/src/pipeline.py: a run over filters that answer for every log.
use aads.Prelude.{
  suc, ◌+◌, ◌≤◌, ◌<◌, Bool, true, false, not, ◌&&◌, List, [], ◌∷◌, any, length, ◌≡◌, refl, ap,
  arith, inl, inr, All, Bool-cases, if◌then◌else◌,
}
use aads.Python.{Py, ok}
use aads.Filters.{
  FilterResult, Filter, FilterStats, FilterPipeline, put_stats, stats_of, enabled_filters, logs_of,
  count_anomalies, run_filters, aggregate_results, run_enabled, run,
}

-- The filter returns, with one result for each log, in their order.
pub record Answers {L S : Type 0} (f : Filter L S) : Type 0 where
  pub results : List L → List (FilterResult L S)
  pub returns : (logs : List L) → f.predict logs ≡ ok (results logs)
  pub each : (logs : List L) → logs_of (results logs) ≡ logs

module _ {L S : Type 0} where
  -- the results of the loop are for the logs
  abbrev Ran : List L → Py (List (FilterResult L S) × List FilterStats) → Type 0
  Ran logs r =
      (results : List (FilterResult L S)) × (stats : List FilterStats) × (r ≡ ok (results, stats))
      × (logs_of results ≡ logs)

  Ran-if :
      (stop : Bool) (logs : List L) (here later : Py (List (FilterResult L S) × List FilterStats))
      → Ran logs here
      → Ran logs later
      → Ran logs (if stop then here else later)
  Ran-if true logs here later h l = h
  Ran-if false logs here later h l = l

  run_filters-Ran :
      (early : Bool) (fs : List (Filter L S)) (logs : List L) (results : List (FilterResult L S))
      (stats : List FilterStats)
      → All Answers fs
      → logs_of results ≡ logs
      → Ran logs (run_filters early fs logs results stats)
  unfolding run_filters
  run_filters-Ran early [] logs results stats a e = (results, stats, refl, e)
  run_filters-Ran early (f ∷ fs) logs results stats a e =
      let current = a.0.results logs in
      let noted = put_stats (stats_of f current) stats in
      let same = a.0.each logs in
      rw (a.0.returns logs) (
        Ran-if (early && not (any (λ (r : FilterResult L S). r.is_anomaly) current)) logs
          (ok (current, noted)) (run_filters early fs (logs_of current) current noted)
          (current, noted, refl, same)
          (rw (same) (run_filters-Ran early fs logs current noted a.1 same)))

  first_Ran :
      (f : Filter L S) (fs : List (Filter L S)) (logs : List L) (p : FilterPipeline L S)
      → All Answers (f ∷ fs)
      → Ran logs (run_filters p.early_stopping (f ∷ fs) logs [] p.stats.filter_stats)
  unfolding run_filters
  first_Ran f fs logs p a =
      run_filters-Ran p.early_stopping (f ∷ fs) logs (a.0.results logs) p.stats.filter_stats a
        (a.0.each logs)

  abbrev after_run :
      FilterPipeline L S → List L → List (FilterResult L S) → List FilterStats → FilterPipeline L S
  after_run p logs results stats = record p {
    stats = record {
      total_processed = p.stats.total_processed + length logs;
      total_anomalies = p.stats.total_anomalies + count_anomalies results;
      filter_stats = stats;
    };
  }

  enabled_returns :
      (fs : List (Filter L S)) (logs : List L) (p : FilterPipeline L S)
      → All Answers fs
      → 0 < length fs
      → (results : List (FilterResult L S)) × (after : FilterPipeline L S) × (run_enabled fs logs p
          ≡ ok (results, after))
        × (logs_of results ≡ logs)
        × (after.filters ≡ p.filters)
        × (after.stats.total_processed ≡ p.stats.total_processed + length logs)
        × (after.stats.total_anomalies ≡ p.stats.total_anomalies + count_anomalies results)
  unfolding run_enabled aggregate_results
  enabled_returns [] logs p a h = absurd (omega arith)
  enabled_returns (f ∷ fs) logs p a h =
      let (results, stats, e, same) = first_Ran f fs logs p a in
      (results, after_run p logs results stats, rw (e) refl, same, refl, refl, refl)

  count_le : (rs : List (FilterResult L S)) → count_anomalies rs ≤ length rs
  unfolding count_anomalies
  count_le [] = omega arith
  count_le (r ∷ rs) = elim (Bool-cases r.is_anomaly) [
    | inl t ↦ rw (t) (omega (arith, count_le rs))
    | inr f ↦ rw (f) (omega (arith, count_le rs))
  ]

  length-logs_of : (rs : List (FilterResult L S)) → length (logs_of rs) ≡ length rs
  length-logs_of [] = refl
  length-logs_of (r ∷ rs) = ap suc (length-logs_of rs)

-- The anomalies that the pipeline counted are among the logs that it counted.
abbrev pub IsCounted : {L S : Type 0} → FilterPipeline L S → Type 0
IsCounted p = p.stats.total_anomalies ≤ p.stats.total_processed

-- What a run of a pipeline gives: a result for each log, in their order, and the same filters; the
-- counts grow by the logs and by the anomalies of the results, and stay in proportion.
pub record IsRun {L S : Type 0} (logs : List L) (p : FilterPipeline L S)
    (results : List (FilterResult L S)) (after : FilterPipeline L S) : Type 0 where
  pub each : logs_of results ≡ logs
  pub same_filters : after.filters ≡ p.filters
  pub processed : after.stats.total_processed ≡ p.stats.total_processed + length logs
  pub anomalies : after.stats.total_anomalies ≡ p.stats.total_anomalies + count_anomalies results
  pub counted : IsCounted after

-- A pipeline of which some filter is enabled returns, if each enabled filter returns one result for
-- each log: with a result for every log in their order, with or without early stopping, and with
-- counts that grow by the logs and by the anomalies found, so that anomalies never outnumber logs.
pub run-IsRun :
    (L S : Type 0) (log : L) (logs : List L) (p : FilterPipeline L S)
    → All Answers (enabled_filters p.filters)
    → 0 < length (enabled_filters p.filters)
    → IsCounted p
    → (results : List (FilterResult L S)) × (after : FilterPipeline L S) × (run (log ∷ logs) p
        ≡ ok (results, after))
      × IsRun (log ∷ logs) p results after
unfolding run
run-IsRun L S log logs p answers some_filter counted =
    let (results, after, e, same, filters, processed, anomalies) =
      enabled_returns (enabled_filters p.filters) (log ∷ logs) p answers some_filter in
    (
      results,
      after,
      e,
      record {
        each = same;
        same_filters = filters;
        processed = processed;
        anomalies = anomalies;
        counted = omega (
          arith,
          processed,
          anomalies,
          counted,
          count_le results,
          length-logs_of results,
          ap length same,
        );
      },
    )
