-- ===== src/Clusters/Summary/Counts.antt =====
-- layer2-analyzer/src/aggregator/map_reduce.py: the counts of a summary.
use aads.Prelude.{
  ℕ, suc, ◌+◌, min, String, List, [], ◌∷◌, ◌++◌, map, length, length-append, ltb, str_eq, ◌≡◌, refl,
  ap, arith, inl, inr, All, Bool-cases, if◌then◌else◌,
}
use aads.Clusters.{text_or}
use aads.Clusters.Summary.{
  Scores, Entry, TemplateData, TemplateSummary, score_of, sample_of, noted, no_data, note,
  map_phase, summarize, deduplicate_and_summarize,
}

-- A template has been seen, keeps its first three messages, and all of its scores.
record IsNoted {F : Type 0} (d : TemplateData F) : Type 0 where
  scored : length d.scores ≡ d.count
  sampled : length d.sample_messages ≡ min d.count 3

abbrev pub total : List ℕ → ℕ
total [] = 0
total (n ∷ ns) = n + total ns

abbrev counts : {F : Type 0} → List (TemplateData F) → List ℕ
counts ds = map (λ (d : TemplateData _). d.count) ds

sampled_next :
    {A : Type 0} (xs : List A) (x : A) (n : ℕ)
    → length xs ≡ min n 3
    → length (if ltb (length xs) 3 then xs ++ x ∷ [] else xs) ≡ min (suc n) 3
sampled_next xs x n h = elim (Bool-cases (ltb (length xs) 3)) [
  | inl t ↦ rw (t) (ground (arith, length-append xs (x ∷ [])))
  | inr f ↦ rw (f) (ground arith)
]

module _ {F : Type 0} (floats : Scores F) where
  noted-IsNoted : (e : Entry F) (d : TemplateData F) → IsNoted d → IsNoted (noted floats e d)
  unfolding noted
  noted-IsNoted e d k = record {
    scored = omega (arith, length-append d.scores (score_of floats e ∷ []), k.scored);
    sampled = sampled_next d.sample_messages (sample_of floats e) d.count k.sampled;
  }

  noted_count : (e : Entry F) (d : TemplateData F) → (noted floats e d).count ≡ suc d.count
  unfolding noted
  noted_count e d = refl

  note-counts :
      (e : Entry F) (ds : List (TemplateData F))
      → total (counts (note floats e ds)) ≡ suc (total (counts ds))
  unfolding note
  note-counts e [] = omega (arith, noted_count e (no_data floats (text_or e.template "unknown")))
  note-counts e (d ∷ ds) = elim (Bool-cases (str_eq d.template (text_or e.template "unknown"))) [
    | inl t ↦ rw (t) (omega (arith, noted_count e d))
    | inr f ↦ rw (f) (omega (arith, note-counts e ds))
  ]

  note-IsNoted :
      (e : Entry F) (ds : List (TemplateData F)) → All IsNoted ds → All IsNoted (note floats e ds)
  unfolding note
  note-IsNoted e [] a = (
    noted-IsNoted e (no_data floats (text_or e.template "unknown"))
        (record { scored = refl; sampled = refl }),
    tt,
  )
  note-IsNoted e (d ∷ ds) a = elim (Bool-cases (str_eq d.template (text_or e.template "unknown"))) [
    | inl t ↦ rw (t) (noted-IsNoted e d a.0, a.1)
    | inr f ↦ rw (f) (a.0, note-IsNoted e ds a.1)
  ]

  map_phase-counts :
      (es : List (Entry F)) (ds : List (TemplateData F))
      → All IsNoted ds
      → (total (counts (map_phase floats es ds)) ≡ length es + total (counts ds))
        × All IsNoted (map_phase floats es ds)
  unfolding map_phase
  map_phase-counts [] ds a = (omega arith, a)
  map_phase-counts (e ∷ es) ds a =
      let (sum, all) = map_phase-counts es (note floats e ds) (note-IsNoted e ds a) in
      (omega (arith, sum, note-counts e ds), all)

  summary_counts :
      (ds : List (TemplateData F))
      → map (λ (t : TemplateSummary F). t.count) (map (summarize floats) ds) ≡ counts ds
  unfolding summarize
  summary_counts [] = refl
  summary_counts (d ∷ ds) = ap (λ (l : List ℕ). d.count ∷ l) (summary_counts ds)

  abbrev pub ThreeSamples : TemplateSummary F → Type 0
  ThreeSamples t = length t.sample_messages ≡ min t.count 3

  summary_samples :
      (ds : List (TemplateData F)) → All IsNoted ds → All ThreeSamples (map (summarize floats) ds)
  unfolding summarize
  summary_samples [] a = tt
  summary_samples (d ∷ ds) a = (a.0.sampled, summary_samples ds a.1)

-- The counts of the templates of a summary add up to its total, which is the number of anomalies,
-- and each template has as many sample messages as it has anomalies, up to three.
pub deduplicate_and_summarize-counts :
    (F : Type 0) (floats : Scores F) (containers : List String) (anomalies : List (Entry F))
    → ((deduplicate_and_summarize floats containers anomalies).total_anomalies ≡ length anomalies)
      × ((total (
              map
                (λ (t : TemplateSummary F). t.count)
                (deduplicate_and_summarize floats containers anomalies).template_summary)
            ≡ length anomalies)
          × All
              (ThreeSamples floats)
              (deduplicate_and_summarize floats containers anomalies).template_summary)
unfolding deduplicate_and_summarize
deduplicate_and_summarize-counts F floats containers anomalies =
    let (sum, all) = map_phase-counts floats anomalies [] tt in
    (
      refl,
      (
        rw (summary_counts floats (map_phase floats anomalies [])) (omega (arith, sum)),
        summary_samples floats (map_phase floats anomalies []) all,
      ),
    )
