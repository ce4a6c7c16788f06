-- ===== src/Filters.antt =====
-- layer1-filter/src/pipeline.py and layer1-filter/src/filters (base.py, pattern_filter.py). `L` is
-- the type of logs, `S` that of scores, and `predict` of a filter may raise. Times are left out.
pub mod Run
pub mod Removal
pub mod Pattern
use aads.Prelude.{
  ℕ, suc, ◌+◌, String, Bool, true, false, not, ◌&&◌, Option, none, some, List, [], ◌∷◌, ◌++◌, map,
  any, length, ltb, str_eq, if◌then◌else◌,
}
use aads.Python.{Py, ok, raise, ◌>>=◌, value_error, runtime_error}

pub record FilterResult (L S : Type 0) : Type 0 where
  pub log : L
  pub anomaly_score : S
  pub is_anomaly : Bool
  pub filter_stage : String
  pub matched_patterns : List String

-- `BaseFilter`, with the method that a subclass defines
pub record Filter (L S : Type 0) : Type 0 where
  pub filter_name : String
  pub threshold : S
  pub enabled : Bool
  pub predict : List L → Py (List (FilterResult L S))

pub record FilterStats : Type 0 where
  pub name : String
  pub processed : ℕ
  pub anomalies : ℕ

pub record PipelineStats : Type 0 where
  pub total_processed : ℕ
  pub total_anomalies : ℕ
  pub filter_stats : List FilterStats

pub record FilterPipeline (L S : Type 0) : Type 0 where
  pub early_stopping : Bool
  pub filters : List (Filter L S)
  pub stats : PipelineStats

-- `stats.filter_stats[name] = {...}`
unfoldable pub put_stats : FilterStats → List FilterStats → List FilterStats
put_stats s [] = s ∷ []
put_stats s (t ∷ ts) = if str_eq t.name s.name then s ∷ ts else t ∷ put_stats s ts

module _ {L S : Type 0} where
  -- the setter of `threshold`; `in_range` is `0 <= value <= 10`
  unfoldable pub set_threshold : (S → Bool) → S → Filter L S → Py (Filter L S)
  set_threshold in_range value f =
      if in_range value then ok (record f { threshold = value }) else raise value_error

  unfoldable pub add_filter : Filter L S → FilterPipeline L S → FilterPipeline L S
  add_filter f p = record p { filters = p.filters ++ f ∷ [] }

  unfoldable pub without : String → List (Filter L S) → List (Filter L S)
  without name [] = []
  without name (f ∷ fs) =
      let rest = without name fs in if str_eq f.filter_name name then rest else f ∷ rest

  -- the second component is the answer
  unfoldable pub remove_filter : String → FilterPipeline L S → FilterPipeline L S × Bool
  remove_filter name p = (
    record p { filters = without name p.filters },
    ltb (length (without name p.filters)) (length p.filters),
  )

  unfoldable pub find_filter : String → List (Filter L S) → Option (Filter L S)
  find_filter name [] = none
  find_filter name (f ∷ fs) =
      let rest = find_filter name fs in if str_eq f.filter_name name then some f else rest

  unfoldable pub get_filter : String → FilterPipeline L S → Option (Filter L S)
  get_filter name p = find_filter name p.filters

  unfoldable pub enabled_filters : List (Filter L S) → List (Filter L S)
  enabled_filters [] = []
  enabled_filters (f ∷ fs) = let rest = enabled_filters fs in if f.enabled then f ∷ rest else rest

  abbrev pub logs_of : List (FilterResult L S) → List L
  logs_of results = map (λ (r : FilterResult L S). r.log) results

  -- `sum(1 for r in results if r.is_anomaly)`
  unfoldable pub count_anomalies : List (FilterResult L S) → ℕ
  count_anomalies [] = 0
  count_anomalies (r ∷ rs) =
      let rest = count_anomalies rs in if r.is_anomaly then suc rest else rest

  abbrev pub stats_of : Filter L S → List (FilterResult L S) → FilterStats
  stats_of f results = record {
    name = f.filter_name;
    processed = length results;
    anomalies = count_anomalies results;
  }

  -- the loop over the enabled filters, from the one that is given the logs
  unfoldable pub run_filters :
      Bool
      → List (Filter L S)
      → List L
      → List (FilterResult L S)
      → List FilterStats
      → Py (List (FilterResult L S) × List FilterStats)
  run_filters early [] logs results stats = ok (results, stats)
  run_filters early (f ∷ fs) logs results stats = do
    current ← f.predict logs
    let noted : List FilterStats = put_stats (stats_of f current) stats
    let silent : Bool = not (any (λ (r : FilterResult L S). r.is_anomaly) current)
    if early && silent
        then ok (current, noted)
        else run_filters early fs (logs_of current) current noted

  -- `_aggregate_results` gives back the results of the last filter.
  unfoldable pub aggregate_results : List (FilterResult L S) → List (FilterResult L S)
  aggregate_results results = results

  unfoldable pub run_enabled :
      List (Filter L S)
      → List L
      → FilterPipeline L S
      → Py (List (FilterResult L S) × FilterPipeline L S)
  unfolding aggregate_results
  run_enabled [] logs p = raise runtime_error
  run_enabled (f ∷ fs) logs p = do
    last ← run_filters p.early_stopping (f ∷ fs) logs [] p.stats.filter_stats
    let results : List (FilterResult L S) = aggregate_results last.0
    ok (
      results,
      record p {
        stats = record {
          total_processed = p.stats.total_processed + length logs;
          total_anomalies = p.stats.total_anomalies + count_anomalies results;
          filter_stats = last.1;
        };
      },
    )

  -- `run`, with the pipeline after it
  unfoldable pub run :
      List L → FilterPipeline L S → Py (List (FilterResult L S) × FilterPipeline L S)
  run [] p = ok ([], p)
  run (log ∷ logs) p = run_enabled (enabled_filters p.filters) (log ∷ logs) p
