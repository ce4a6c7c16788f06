-- ===== src/Clusters.antt =====
-- layer2-analyzer/src/root_cause_analyzer/anomaly_aggregator.py: `AnomalyCluster` and
-- `AnomalyAggregator`. Scores are floats, of which the model knows the operations (Floats); times are
-- in microseconds, and `fromisoformat` reads a text. A set is a list without repetition.
pub mod Partition
pub mod Bounds
pub mod Summary
use aads.Prelude.{
  ℕ, zero, suc, ◌+◌, ◌-◌, ◌*◌, String, ◌<>◌, Bool, true, false, not, ◌&&◌, ◌||◌, Option, none, some,
  List, [], ◌∷◌, ◌++◌, map, length, leb, ltb, str_eq, str_mem, sorted_by, any, all, if◌then◌else◌,
}
use aads.Python.{Py, ok, raise, ◌>>=◌}

-- the floats: 0.0, `a < b`, and the new average of an old one over a count with a score
pub record Floats (F : Type 0) : Type 0 where
  pub zero_score : F
  pub less : F → F → Bool
  pub average : F → ℕ → F → F

pub data Time : Type 0 where
  at : ℕ → Time
  iso : String → Time

-- `container`, `service` and `template` may be missing
pub record Anomaly (F : Type 0) : Type 0 where
  pub time : Time
  pub container : Option String
  pub service : Option String
  pub template : Option String
  pub anomaly_score : Option F

pub record AnomalyCluster (F : Type 0) : Type 0 where
  pub cluster_id : ℕ
  pub anomalies : List (Anomaly F)
  pub containers : List String
  pub services : List String
  pub templates : List String
  pub start_time : Option ℕ
  pub end_time : Option ℕ
  pub total_count : ℕ
  pub avg_score : F
  pub max_score : F

-- `AnomalyAggregator`: its configuration and its statistics
pub record Aggregator : Type 0 where
  pub time_window : ℕ
  pub min_cluster_size : ℕ
  pub total_anomalies_processed : ℕ
  pub total_clusters_created : ℕ

-- `s.add(x)` of a set
unfoldable pub add_to : String → List String → List String
add_to x xs = if str_mem x xs then xs else xs ++ x ∷ []

abbrev pub text_or : Option String → String → String
text_or none d = d
text_or (some s) d = s

-- `if anomaly.get('template')`
unfoldable pub add_template : Option String → List String → List String
unfolding add_to
add_template none xs = xs
add_template (some t) xs = if str_eq t "" then xs else add_to t xs

-- `if self.start_time is None or t < self.start_time`, and the same for the end
abbrev pub earliest : Option ℕ → ℕ → ℕ
earliest none t = t
earliest (some s) t = if ltb t s then t else s

abbrev pub latest : Option ℕ → ℕ → ℕ
latest none t = t
latest (some e) t = if ltb e t then t else e

module _ {F : Type 0} (floats : Floats F) (fromisoformat : String → Py ℕ) where
  unfoldable pub time_of : Time → Py ℕ
  time_of (at t) = ok t
  time_of (iso s) = fromisoformat s

  abbrev pub score_of : Anomaly F → F
  score_of a = elim a.anomaly_score [ none ↦ floats.zero_score | some s ↦ s ]

  -- `max(a, b)`
  abbrev pub max_of : F → F → F
  max_of a b = if floats.less a b then b else a

  -- the cluster after `add_anomaly`, for the time of the anomaly
  unfoldable pub with_anomaly : AnomalyCluster F → Anomaly F → ℕ → AnomalyCluster F
  unfolding add_to add_template
  with_anomaly c a t = record c {
    anomalies = c.anomalies ++ a ∷ [];
    containers = add_to (text_or a.container "unknown") c.containers;
    services = add_to (text_or a.service "unknown") c.services;
    templates = add_template a.template c.templates;
    start_time = some (earliest c.start_time t);
    end_time = some (latest c.end_time t);
    total_count = length (c.anomalies ++ a ∷ []);
    avg_score = floats.average c.avg_score (length (c.anomalies ++ a ∷ [])) (score_of a);
    max_score = max_of c.max_score (score_of a);
  }

  unfoldable pub add_anomaly : AnomalyCluster F → Anomaly F → Py (AnomalyCluster F)
  add_anomaly c a = do t ← time_of a.time; ok (with_anomaly c a t)

  unfoldable pub new_cluster : ℕ → AnomalyCluster F
  new_cluster id = record {
    cluster_id = id;
    anomalies = [];
    containers = [];
    services = [];
    templates = [];
    start_time = none;
    end_time = none;
    total_count = 0;
    avg_score = floats.zero_score;
    max_score = floats.zero_score;
  }

  -- `abs((t - end).total_seconds()) <= window`
  abbrev is_near : ℕ → ℕ → Option ℕ → Bool
  is_near window t none = false
  is_near window t (some e) = leb ((t - e) + (e - t)) window

  -- the tests of the search for a cluster
  unfoldable pub fits : ℕ → ℕ → Anomaly F → AnomalyCluster F → Bool
  fits window t a c =
      is_near window t c.end_time
      && (str_mem (text_or a.container "unknown") c.containers
          || str_mem (text_or a.service "unknown") c.services)

  -- the anomaly goes to the first cluster that fits, or to a new one at the end
  unfoldable pub place : ℕ → ℕ → ℕ → Anomaly F → List (AnomalyCluster F) → List (AnomalyCluster F)
  unfolding new_cluster
  place window id t a [] = with_anomaly (new_cluster id) a t ∷ []
  place window id t a (c ∷ cs) =
      let rest = place window id t a cs in
      if fits window t a c then with_anomaly c a t ∷ cs else c ∷ rest

  -- the loop over the sorted anomalies; the counter of the ids is the number of clusters
  unfoldable pub cluster_all :
      ℕ → List (Anomaly F × ℕ) → List (AnomalyCluster F) → List (AnomalyCluster F)
  cluster_all window [] clusters = clusters
  cluster_all window (a ∷ as') clusters =
      cluster_all window as' (place window (length clusters) a.1 a.0 clusters)

  -- the anomalies with their times, which the key of `sorted` reads
  unfoldable pub timed : List (Anomaly F) → Py (List (Anomaly F × ℕ))
  timed [] = ok []
  timed (a ∷ as') = do t ← time_of a.time; rest ← timed as'; ok ((a, t) ∷ rest)

  unfoldable pub of_size : ℕ → List (AnomalyCluster F) → List (AnomalyCluster F)
  of_size min_size [] = []
  of_size min_size (c ∷ cs) =
      let rest = of_size min_size cs in if leb min_size c.total_count then c ∷ rest else rest

  abbrev pub earlier : Anomaly F × ℕ → Anomaly F × ℕ → Bool
  earlier a b = ltb a.1 b.1

  -- `aggregate`, with the aggregator after it
  unfoldable pub aggregate :
      Aggregator → List (Anomaly F) → Py (List (AnomalyCluster F) × Aggregator)
  aggregate g [] = ok ([], g)
  aggregate g (a ∷ as') = do
    all_timed ← timed (a ∷ as')
    let clusters : List (AnomalyCluster F) =
          of_size g.min_cluster_size (cluster_all g.time_window (sorted_by earlier all_timed) []) in
        ok (
          clusters,
          record g {
            total_anomalies_processed = g.total_anomalies_processed + length (a ∷ as');
            total_clusters_created = g.total_clusters_created + length clusters;
          },
        )
