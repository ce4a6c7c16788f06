-- ===== src/Clusters/Bounds.antt =====
-- layer2-analyzer/src/root_cause_analyzer/anomaly_aggregator.py: the fields of a cluster against its
-- anomalies.
use aads.Prelude.{
  ℕ, ◌≤◌, String, true, false, some, List, [], ◌∷◌, length, leb, ◌≡◌, refl, ap, arith, inl, inr,
  All, All-append, In, sorted_by, sorted_by-In, here, there, Bool-cases,
}
use aads.Python.{Py, ok}
use aads.Python.Laws.{>>=-returns}
use aads.Clusters.{
  Floats, Anomaly, AnomalyCluster, Aggregator, earliest, latest, time_of, score_of, max_of,
  with_anomaly, new_cluster, fits, place, cluster_all, timed, of_size, earlier, aggregate,
}

-- what the theorems need of the comparison of floats; it holds of IEEE floats, NaN included
pub record IsOrder {F : Type 0} (floats : Floats F) : Type 0 where
  pub irreflexive : (a : F) → floats.less a a ≡ false
  pub transitive :
      (a b c : F) → floats.less a b ≡ true → floats.less b c ≡ true → floats.less a c ≡ true

module _ {F : Type 0} (floats : Floats F) (fromisoformat : String → Py ℕ) where
  -- the time of the anomaly lies in the span
  abbrev pub InSpan : ℕ → ℕ → Anomaly F → Type 0
  InSpan s e a = (t : ℕ) × (time_of floats fromisoformat a.time ≡ ok t) × (s ≤ t) × (t ≤ e)

  abbrev pub Below : F → Anomaly F → Type 0
  Below m a = floats.less m (score_of floats fromisoformat a) ≡ false

  -- A cluster counts its anomalies, its span holds their times, and no score exceeds its maximum.
  pub record IsCluster (c : AnomalyCluster F) : Type 0 where
    pub counted : c.total_count ≡ length c.anomalies
    pub first : ℕ
    pub last : ℕ
    pub starts : c.start_time ≡ some first
    pub ends : c.end_time ≡ some last
    pub times : All (InSpan first last) c.anomalies
    pub scores : All (Below c.max_score) c.anomalies

  wider :
      (s e s' e' : ℕ) (as' : List (Anomaly F))
      → s' ≤ s
      → e ≤ e'
      → All (InSpan s e) as'
      → All (InSpan s' e') as'
  wider s e s' e' [] h k a = tt
  wider s e s' e' (x ∷ xs) h k a =
      let (t, f, below, above) = a.0 in
      ((t, f, omega arith, omega arith), wider s e s' e' xs h k a.1)

  module _ (order : IsOrder floats) where
    max_above : (m s : F) → floats.less (max_of floats fromisoformat m s) s ≡ false
    max_above m s = elim (Bool-cases (floats.less m s)) [
      | inl t ↦ rw (t) (order.irreflexive s)
      | inr f ↦ rw (f) f
    ]

    max_keeps :
        (m s x : F)
        → floats.less m x ≡ false
        → floats.less (max_of floats fromisoformat m s) x ≡ false
    max_keeps m s x h = elim (Bool-cases (floats.less m s)) [
      | inr f ↦ rw (f) h
      | inl t ↦ elim (Bool-cases (floats.less s x)) [
        | inl u ↦ cc (h, order.transitive m s x t u)
        | inr v ↦ rw (t) v
      ]
    ]

    all_below :
        (m s : F) (as' : List (Anomaly F))
        → All (Below m) as'
        → All (Below (max_of floats fromisoformat m s)) as'
    all_below m s [] a = tt
    all_below m s (x ∷ xs) a =
        (max_keeps m s (score_of floats fromisoformat x) a.0, all_below m s xs a.1)

    first_IsCluster :
        (id t : ℕ) (a : Anomaly F)
        → time_of floats fromisoformat a.time ≡ ok t
        → IsCluster (with_anomaly floats fromisoformat (new_cluster floats fromisoformat id) a t)
    unfolding with_anomaly new_cluster
    first_IsCluster id t a e = record {
      counted = refl;
      first = t;
      last = t;
      starts = refl;
      ends = refl;
      times = ((t, e, omega arith, omega arith), tt);
      scores = (max_above floats.zero_score (score_of floats fromisoformat a), tt);
    }

    earliest_le : (s t : ℕ) → (earliest (some s) t ≤ s) × (earliest (some s) t ≤ t)
    earliest_le s t = ground arith

    latest_le : (s t : ℕ) → (s ≤ latest (some s) t) × (t ≤ latest (some s) t)
    latest_le s t = ground arith

    with_anomaly-IsCluster :
        (c : AnomalyCluster F) (a : Anomaly F) (t : ℕ)
        → time_of floats fromisoformat a.time ≡ ok t
        → IsCluster c
        → IsCluster (with_anomaly floats fromisoformat c a t)
    unfolding with_anomaly
    with_anomaly-IsCluster c a t e k =
        let (below, own) = earliest_le k.first t in
        let (above, own') = latest_le k.last t in
        record {
          counted = refl;
          first = earliest (some k.first) t;
          last = latest (some k.last) t;
          starts = ap (λ o. some (earliest o t)) k.starts;
          ends = ap (λ o. some (latest o t)) k.ends;
          times =
              All-append _ c.anomalies (a ∷ [])
                (wider k.first k.last _ _ c.anomalies below above k.times) ((t, e, own, own'), tt);
          scores =
              All-append _ c.anomalies (a ∷ [])
                (all_below c.max_score (score_of floats fromisoformat a) c.anomalies k.scores)
                (max_above c.max_score (score_of floats fromisoformat a), tt);
        }

    place-IsCluster :
        (window id t : ℕ) (a : Anomaly F) (cs : List (AnomalyCluster F))
        → time_of floats fromisoformat a.time ≡ ok t
        → All IsCluster cs
        → All IsCluster (place floats fromisoformat window id t a cs)
    unfolding place
    place-IsCluster window id t a [] e k = (first_IsCluster id t a e, tt)
    place-IsCluster window id t a (c ∷ cs) e k =
        elim (Bool-cases (fits floats fromisoformat window t a c)) [
          | inl y ↦ rw (y) (with_anomaly-IsCluster c a t e k.0, k.1)
          | inr n ↦ rw (n) (k.0, place-IsCluster window id t a cs e k.1)
        ]

    abbrev Timed : Anomaly F × ℕ → Type 0
    Timed a = time_of floats fromisoformat a.0.time ≡ ok a.1

    cluster_all-IsCluster :
        (window : ℕ) (as' : List (Anomaly F × ℕ)) (cs : List (AnomalyCluster F))
        → ((a : Anomaly F × ℕ) → In a as' → Timed a)
        → All IsCluster cs
        → All IsCluster (cluster_all floats fromisoformat window as' cs)
    unfolding cluster_all
    cluster_all-IsCluster window [] cs h k = k
    cluster_all-IsCluster window (a ∷ as') cs h k =
        cluster_all-IsCluster window as' _ (λ b m. h b (there m))
          (place-IsCluster window (length cs) a.1 a.0 cs (h a (here refl)) k)

    listed :
        (x : Anomaly F) (t : ℕ) (us : List (Anomaly F × ℕ))
        → time_of floats fromisoformat x.time ≡ ok t
        → ((a : Anomaly F × ℕ) → In a us → Timed a)
        → (a : Anomaly F × ℕ) → In a ((x, t) ∷ us)
        → Timed a
    listed x t us e f a (here g) = rw (g) e
    listed x t us e f a (there m) = f a m

    timed-Timed :
        (as' : List (Anomaly F)) (ts : List (Anomaly F × ℕ))
        → timed floats fromisoformat as' ≡ ok ts
        → (a : Anomaly F × ℕ) → In a ts
        → Timed a
    unfolding timed
    timed-Timed [] [] h a m = elim m [ ]
    timed-Timed [] (t ∷ ts) h a m = cc (h)
    timed-Timed (x ∷ xs) ts h a m =
        let (t, e, rest) = >>=-returns (time_of floats fromisoformat x.time) _ h in
        let (us, f, last) = >>=-returns (timed floats fromisoformat xs) _ rest in
        let same : (x, t) ∷ us ≡ ts = cc (last) in
        listed x t us e (λ b n. timed-Timed xs us f b n) a (rw (← same) at m)

    of_size-All :
        (min_size : ℕ) (cs : List (AnomalyCluster F))
        → All IsCluster cs
        → All
            (λ c. IsCluster c × (min_size ≤ c.total_count))
            (of_size floats fromisoformat min_size cs)
    unfolding of_size
    of_size-All min_size [] k = tt
    of_size-All min_size (c ∷ cs) k = elim (Bool-cases (leb min_size c.total_count)) [
      | inl y ↦ rw (y) ((k.0, ground arith), of_size-All min_size cs k.1)
      | inr n ↦ rw (n) (of_size-All min_size cs k.1)
    ]

-- Every cluster that the aggregator returns counts its anomalies and has at least the minimal
-- number of them; its span, from the first time to the last, holds the time of each, and no score of
-- theirs exceeds its maximal score. The comparison of scores has to be irreflexive and transitive.
pub aggregate-IsCluster :
    (F : Type 0) (floats : Floats F) (fromisoformat : String → Py ℕ)
    → IsOrder floats
    → (g after : Aggregator) (anomalies : List (Anomaly F)) (clusters : List (AnomalyCluster F))
    → aggregate floats fromisoformat g anomalies ≡ ok (clusters, after)
    → All (λ c. IsCluster floats fromisoformat c × (g.min_cluster_size ≤ c.total_count)) clusters
unfolding aggregate
aggregate-IsCluster F floats fromisoformat order g after [] clusters h =
    let none_formed : [] ≡ clusters = cc (h) in rw (← none_formed) tt
aggregate-IsCluster F floats fromisoformat order g after (a ∷ as') clusters h =
    let (ts, e, rest) = >>=-returns (timed floats fromisoformat (a ∷ as')) _ h in
    let formed : of_size floats fromisoformat g.min_cluster_size (
          cluster_all floats fromisoformat g.time_window
            (sorted_by (earlier floats fromisoformat) ts) [])
        ≡ clusters =
      cc (rest) in
    rw (← formed) (
      of_size-All floats fromisoformat order g.min_cluster_size _ (
        cluster_all-IsCluster floats fromisoformat order g.time_window _ []
          (λ b m.
            timed-Timed floats fromisoformat order (a ∷ as') ts e b
              (sorted_by-In (earlier floats fromisoformat) b ts m))
          tt))
