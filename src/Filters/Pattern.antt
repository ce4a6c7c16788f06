-- ===== src/Filters/Pattern.antt =====
-- layer1-filter/src/filters: `PatternFilter` (pattern_filter.py) and `PassThroughFilter` (base.py) as
-- filters of a pipeline. `search` is that of the language's `re`, without regard to case.
use aads.Prelude.{
  String, Bool, true, false, Option, none, some, List, [], ◌∷◌, map, str_eq, ◌≡◌, ◌↔◌, refl, ap, In,
  ◌⊎◌, if◌then◌else◌,
}
use aads.Python.{ok}
use aads.Filters.{FilterResult, Filter, logs_of}
use aads.Filters.Run.{Answers}

-- `log.get("message") or log.get("raw_message") or ""` and the scores 1.0 and 0.0
pub record Reader (L S : Type 0) : Type 0 where
  pub message : L → Option String
  pub raw_message : L → Option String
  pub one : S
  pub zero : S

pub default_patterns : List String
default_patterns =
    "\\bfailed to start\\b" ∷ "\\bnginx.*config.*failed\\b" ∷ "\\bnginx: \\[emerg\\]"
    ∷ "\\bconnection refused\\b" ∷ "\\boutofmemory|out of memory\\b" ∷ "\\bcritical\\b"
    ∷ "\\bfatal\\b" ∷ "\\bpanic\\b" ∷ "\\b(error|failed|failure)\\b" ∷ []

module _ {L S : Type 0} (reader : Reader L S) (search : String → String → Bool) where
  abbrev text_or : Option String → String → String
  text_or none d = d
  text_or (some s) d = if str_eq s "" then d else s

  abbrev pub text_of : L → String
  text_of log = text_or (reader.message log) (text_or (reader.raw_message log) "")

  unfoldable pub matched : List String → L → List String
  matched [] log = []
  matched (p ∷ ps) log =
      let rest = matched ps log in if search p (text_of log) then p ∷ rest else rest

  abbrev is_filled : List String → Bool
  is_filled [] = false
  is_filled (_ ∷ _) = true

  unfoldable pub pattern_result : List String → L → FilterResult L S
  pattern_result patterns log = record {
    log = log;
    anomaly_score = if is_filled (matched patterns log) then reader.one else reader.zero;
    is_anomaly = is_filled (matched patterns log);
    filter_stage = "pattern";
    matched_patterns = matched patterns log;
  }

  -- `patterns or DEFAULT_PATTERNS`
  unfoldable pub patterns_or_default : List String → List String
  unfolding default_patterns
  patterns_or_default [] = default_patterns
  patterns_or_default (p ∷ ps) = p ∷ ps

  unfoldable pub pattern_filter : List String → Bool → Filter L S
  pattern_filter patterns enabled = record {
    filter_name = "pattern";
    threshold = reader.one;
    enabled = enabled;
    predict = λ logs. ok (map (pattern_result (patterns_or_default patterns)) logs);
  }

  unfoldable pub pass_through_filter : S → Bool → Filter L S
  pass_through_filter threshold enabled = record {
    filter_name = "passthrough";
    threshold = threshold;
    enabled = enabled;
    predict = λ logs. ok (
        map
          (λ (log : L). record {
            log = log;
            anomaly_score = reader.zero;
            is_anomaly = false;
            filter_stage = "passthrough";
            matched_patterns = [];
          })
          logs);
  }

  each_log :
      (patterns : List String) (logs : List L) → logs_of (map (pattern_result patterns) logs) ≡ logs
  unfolding pattern_result
  each_log patterns [] = refl
  each_log patterns (log ∷ logs) = ap (λ (l : List L). log ∷ l) (each_log patterns logs)

  -- The pattern filter returns one result for each log, in their order.
  pub pattern_filter-Answers :
      (patterns : List String) (enabled : Bool) → Answers (pattern_filter patterns enabled)
  unfolding pattern_filter
  pattern_filter-Answers patterns enabled = record {
    results = map (pattern_result (patterns_or_default patterns));
    returns = λ logs. refl;
    each = each_log (patterns_or_default patterns);
  }

-- A text that is missing or empty.
abbrev pub Blank : Option String → Type 0
Blank o = (o ≡ none) ⊎ (o ≡ some "")

-- What a log says: its message, or its raw message if that is blank, or nothing.
pub data Says {L S : Type 0} (reader : Reader L S) (log : L) : String → Type 0 where
  in_message :
      (text : String)
      → reader.message log ≡ some text
      → str_eq text "" ≡ false
      → Says reader log text
  in_raw_message :
      (text : String)
      → Blank (reader.message log)
      → reader.raw_message log ≡ some text
      → str_eq text "" ≡ false
      → Says reader log text
  in_nothing : Blank (reader.message log) → Blank (reader.raw_message log) → Says reader log ""

-- The result is for the log, and marks it as anomalous, with the score one, exactly if a pattern is
-- found in what the log says.
pub record Marks {L S : Type 0} (reader : Reader L S) (search : String → String → Bool)
    (patterns : List String) (log : L) (result : FilterResult L S) : Type 0 where
  pub same_log : result.log ≡ log
  pub text : String
  pub says : Says reader log text
  pub decides : (result.is_anomaly ≡ true) ↔ ((p : String) × In p patterns × (search p text ≡ true))
  pub score : result.anomaly_score ≡ (if result.is_anomaly then reader.one else reader.zero)

abbrev pub MarksEach :
    {L S : Type 0}
    → Reader L S
    → (String → String → Bool)
    → List String
    → List L
    → List (FilterResult L S)
    → Type 0
MarksEach reader search patterns [] [] = Unit {0}
MarksEach reader search patterns [] (r ∷ rs) = ⊥
MarksEach reader search patterns (log ∷ logs) [] = ⊥
MarksEach reader search patterns (log ∷ logs) (r ∷ rs) =
    Marks reader search patterns log r × MarksEach reader search patterns logs rs
