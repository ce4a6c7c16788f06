-- ===== src/Tests/Layers.antt =====
-- A buffer of logs, a pipeline with a pattern filter, and two anomalies of one container.
use mathlib.Core.List.{Perm}
use aads.Prelude.{
  ◌≡◌, ◌≢◌, ◌↔◌, refl, arith, ℕ, ◌≤◌, ◌<◌, String, Bool, true, false, Option, none, some, List, [],
  ◌∷◌, ◌++◌, All, In, ltb, length, contains, map,
}
use aads.Python.{Py, ok, raise, value_error}
use aads.LogBuffer.{State, fresh, add, adds, start, after}
use aads.LogBuffer.Kept.{IsKept, Reaches-IsKept}
use aads.Filters.{
  FilterResult, Filter, FilterPipeline, enabled_filters, run, remove_filter, get_filter,
}
use aads.Filters.Run.{Answers, IsRun, run-IsRun}
use aads.Filters.Removal.{is_found, remove_filter-get_filter}
use aads.Filters.Pattern.{Reader, pattern_filter, pattern_filter-Answers}
use aads.Clusters.{Floats, Anomaly, AnomalyCluster, Aggregator, at, aggregate}
use aads.Clusters.Bounds.{IsOrder, IsCluster, aggregate-IsCluster}
use aads.Clusters.Partition.{members, Kept, aggregate-Perm}
use aads.Clusters.Summary.{Scores, Entry, TemplateSummary, deduplicate_and_summarize}
use aads.Clusters.Summary.Counts.{total, ThreeSamples, deduplicate_and_summarize-counts}

abbrev one_log : State ℕ
one_log = add 7 (fresh 2 100 0 true)

Reaches-IsKept_example : IsKept one_log
Reaches-IsKept_example =
    Reaches-IsKept ℕ 2 100 0 (omega arith) one_log (after start (adds 7 (fresh 2 100 0 true)))

abbrev reader : Reader String ℕ
reader = record { message = λ s. some s; raw_message = λ s. none; one = 10; zero = 0 }

abbrev search : String → String → Bool
search pattern text = contains pattern text

abbrev panics : Filter String ℕ
panics = pattern_filter reader search ("panic" ∷ []) true

abbrev pipeline : FilterPipeline String ℕ
pipeline = record {
  early_stopping = true;
  filters = panics ∷ [];
  stats = record { total_processed = 0; total_anomalies = 0; filter_stats = [] };
}

answers : All Answers (enabled_filters pipeline.filters)
unfolding enabled_filters pattern_filter
answers = (pattern_filter-Answers reader search ("panic" ∷ []) true, tt)

some_filter : 0 < length (enabled_filters pipeline.filters)
unfolding enabled_filters pattern_filter
some_filter = omega arith

run-IsRun_example :
    (results : List (FilterResult String ℕ)) × (done : FilterPipeline String ℕ) × (run
        ("kernel panic" ∷ "ok" ∷ [])
        pipeline
      ≡ ok (results, done))
    × IsRun ("kernel panic" ∷ "ok" ∷ []) pipeline results done
run-IsRun_example =
    run-IsRun String ℕ "kernel panic" ("ok" ∷ []) pipeline answers some_filter (omega arith)

remove_filter-get_filter_example :
    ((remove_filter "pattern" pipeline).1 ≡ is_found (get_filter "pattern" pipeline))
    × ((get_filter "pattern" (remove_filter "pattern" pipeline).0 ≡ none)
        × ((get_filter "rf" (remove_filter "pattern" pipeline).0 ≡ get_filter "rf" pipeline)
            × ((remove_filter "pattern" pipeline).0.stats ≡ pipeline.stats)))
remove_filter-get_filter_example =
    remove_filter-get_filter String ℕ "pattern" "rf" pipeline (λ e. cc (e))

abbrev floats : Floats ℕ
floats = record { zero_score = 0; less = ltb; average = λ old n score. old }

ordered : IsOrder floats
ordered = record { irreflexive = λ a. ground arith; transitive = λ a b c h k. ground arith }

abbrev no_iso : String → Py ℕ
no_iso s = raise value_error

abbrev anomaly : ℕ → ℕ → Anomaly ℕ
anomaly t score = record {
  time = at t;
  container = some "web";
  service = some "nginx";
  template = none;
  anomaly_score = some score;
}

abbrev aggregator : Aggregator
aggregator = record {
  time_window = 300;
  min_cluster_size = 2;
  total_anomalies_processed = 0;
  total_clusters_created = 0;
}

abbrev both : AnomalyCluster ℕ
both = record {
  cluster_id = 0;
  anomalies = anomaly 10 4 ∷ anomaly 20 3 ∷ [];
  containers = "web" ∷ [];
  services = "nginx" ∷ [];
  templates = [];
  start_time = some 10;
  end_time = some 20;
  total_count = 2;
  avg_score = 0;
  max_score = 4;
}

abbrev aggregated : Aggregator
aggregated = record aggregator { total_anomalies_processed = 2; total_clusters_created = 1 }

clustered :
    aggregate floats no_iso aggregator (anomaly 20 3 ∷ anomaly 10 4 ∷ [])
    ≡ ok (both ∷ [], aggregated)
unfolding aggregate aads.Clusters.timed aads.Clusters.time_of aads.Clusters.of_size
    aads.Clusters.cluster_all aads.Prelude.sorted_by aads.Prelude.insert_by aads.Clusters.place
    aads.Clusters.fits aads.Clusters.with_anomaly
clustered = refl

aggregate-IsCluster_example : All (λ c. IsCluster floats no_iso c × (2 ≤ c.total_count)) (both ∷ [])
aggregate-IsCluster_example =
    aggregate-IsCluster ℕ floats no_iso ordered aggregator aggregated
      (anomaly 20 3 ∷ anomaly 10 4 ∷ []) (both ∷ []) clustered

aggregate-Perm_example :
    (formed : List (AnomalyCluster ℕ)) × (last : Aggregator) × ((aggregate floats no_iso
          (record aggregator { min_cluster_size = 0 })
          (anomaly 20 3 ∷ anomaly 10 4 ∷ [])
        ≡ ok (formed, last))
      × (Perm (members formed) (anomaly 20 3 ∷ anomaly 10 4 ∷ []) × Kept 2 (both ∷ []) formed))
aggregate-Perm_example =
    aggregate-Perm ℕ floats no_iso aggregator aggregated (anomaly 20 3 ∷ anomaly 10 4 ∷ [])
      (both ∷ []) clustered

abbrev scores : Scores ℕ
scores = record {
  zero_score = 0;
  less = ltb;
  mean = λ l. 0;
  above_8 = ltb 8;
  above_7 = ltb 7;
  above_5 = ltb 5;
}

abbrev hit : Entry ℕ
hit = record {
  template = some "failed";
  container = some "web";
  raw_message = some "it failed";
  log_message = none;
  anomaly_score = some 9;
  logbert_anomaly_score = none;
}

deduplicate_and_summarize-counts_example :
    ((deduplicate_and_summarize scores ("web" ∷ []) (hit ∷ hit ∷ [])).total_anomalies ≡ 2)
    × ((total (
            map
              (λ (t : TemplateSummary ℕ). t.count)
              (deduplicate_and_summarize scores ("web" ∷ []) (hit ∷ hit ∷ [])).template_summary)
          ≡ 2)
        × All
            (ThreeSamples scores)
            (deduplicate_and_summarize scores ("web" ∷ []) (hit ∷ hit ∷ [])).template_summary)
deduplicate_and_summarize-counts_example =
    deduplicate_and_summarize-counts ℕ scores ("web" ∷ []) (hit ∷ hit ∷ [])
