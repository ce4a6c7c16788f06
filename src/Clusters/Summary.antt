-- ===== src/Clusters/Summary.antt =====
-- layer2-analyzer/src/aggregator/map_reduce.py: `deduplicate_and_summarize` and
-- `_calculate_severity`. The time range of the summary, which is copied from the cluster, is left out.
pub mod Counts
use aads.Prelude.{
  ℕ, zero, suc, ◌+◌, String, Bool, true, false, not, ◌&&◌, ◌||◌, Option, none, some, List, [], ◌∷◌,
  ◌++◌, map, length, leb, ltb, str_eq, str_lt, sorted_by, text_take, if◌then◌else◌,
}
use aads.Clusters.{text_or, add_to}

-- the floats: 0.0, `a < b`, the mean of scores, and the tests for more than 0.8, 0.7 and 0.5
pub record Scores (F : Type 0) : Type 0 where
  pub zero_score : F
  pub less : F → F → Bool
  pub mean : List F → F
  pub above_8 : F → Bool
  pub above_7 : F → Bool
  pub above_5 : F → Bool

-- the keys of an anomaly that are read, any of which may be missing
pub record Entry (F : Type 0) : Type 0 where
  pub template : Option String
  pub container : Option String
  pub raw_message : Option String
  pub log_message : Option String
  pub anomaly_score : Option F
  pub logbert_anomaly_score : Option F

pub record Sample (F : Type 0) : Type 0 where
  pub container : String
  pub message : String
  pub score : F

-- an entry of `template_map`, with its key
pub record TemplateData (F : Type 0) : Type 0 where
  pub template : String
  pub count : ℕ
  pub affected_containers : List String
  pub sample_messages : List (Sample F)
  pub scores : List F

pub record TemplateSummary (F : Type 0) : Type 0 where
  pub template : String
  pub count : ℕ
  pub affected_containers : List String
  pub max_score : F
  pub avg_score : F
  pub sample_messages : List (Sample F)

pub data Severity : Type 0 where
  low medium high critical : Severity

pub record Summary (F : Type 0) : Type 0 where
  pub template_summary : List (TemplateSummary F)
  pub affected_containers : List String
  pub total_anomalies : ℕ
  pub severity : Severity

module _ {F : Type 0} (floats : Scores F) where
  -- `_calculate_severity`
  unfoldable pub calculate_severity : ℕ → F → Severity
  calculate_severity num_containers max_score =
      if floats.above_8 max_score && leb 3 num_containers
      then critical
      else if floats.above_7 max_score || leb 5 num_containers
      then high
      else if floats.above_5 max_score || leb 2 num_containers
      then medium
      else low

  abbrev pub score_or : Option F → F → F
  score_or none d = d
  score_or (some s) d = s

  abbrev pub score_of : Entry F → F
  score_of e = score_or e.anomaly_score (score_or e.logbert_anomaly_score floats.zero_score)

  abbrev pub sample_of : Entry F → Sample F
  sample_of e = record {
    container = text_or e.container "unknown";
    message = text_take 200 (text_or e.raw_message (text_or e.log_message ""));
    score = score_of e;
  }

  -- the body of the map phase, for the entry of the template
  unfoldable pub noted : Entry F → TemplateData F → TemplateData F
  noted e d = record d {
    count = suc d.count;
    affected_containers = add_to (text_or e.container "unknown") d.affected_containers;
    scores = d.scores ++ score_of e ∷ [];
    sample_messages =
        if ltb (length d.sample_messages) 3
        then d.sample_messages ++ sample_of e ∷ []
        else d.sample_messages;
  }

  abbrev pub no_data : String → TemplateData F
  no_data template = record {
    template = template;
    count = 0;
    affected_containers = [];
    sample_messages = [];
    scores = [];
  }

  -- `template_map[template]` of a defaultdict
  unfoldable pub note : Entry F → List (TemplateData F) → List (TemplateData F)
  note e [] = noted e (no_data (text_or e.template "unknown")) ∷ []
  note e (d ∷ ds) =
      let rest = note e ds in
      if str_eq d.template (text_or e.template "unknown") then noted e d ∷ ds else d ∷ rest

  unfoldable pub map_phase : List (Entry F) → List (TemplateData F) → List (TemplateData F)
  map_phase [] ds = ds
  map_phase (e ∷ es) ds = map_phase es (note e ds)

  -- `max(xs, default=0.0)`
  abbrev pub max_from : F → List F → F
  max_from m [] = m
  max_from m (x ∷ xs) = max_from (if floats.less m x then x else m) xs

  abbrev pub max_or_zero : List F → F
  max_or_zero [] = floats.zero_score
  max_or_zero (x ∷ xs) = max_from x xs

  abbrev pub mean_or_zero : List F → F
  mean_or_zero [] = floats.zero_score
  mean_or_zero (x ∷ xs) = floats.mean (x ∷ xs)

  unfoldable pub summarize : TemplateData F → TemplateSummary F
  summarize d = record {
    template = d.template;
    count = d.count;
    affected_containers = sorted_by str_lt d.affected_containers;
    max_score = max_or_zero d.scores;
    avg_score = mean_or_zero d.scores;
    sample_messages = d.sample_messages;
  }

  unfoldable pub deduplicate_and_summarize : List String → List (Entry F) → Summary F
  deduplicate_and_summarize containers anomalies =
      let templates : List (TemplateSummary F) = map summarize (map_phase anomalies []) in
      record {
        template_summary = templates;
        affected_containers = sorted_by str_lt containers;
        total_anomalies = length anomalies;
        severity =
            calculate_severity (length containers)
              (max_or_zero (map (λ (t : TemplateSummary F). t.max_score) templates));
      }
