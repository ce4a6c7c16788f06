-- ===== src/Clusters/Partition.antt =====
-- layer2-analyzer/src/root_cause_analyzer/anomaly_aggregator.py: where the anomalies go.
use mathlib.Core.List.{perm_middle, Perm}
use mathlib.Core.List.Perm
use mathlib.Core.Path.{subst}
use aads.Prelude.{
  ℕ, ◌+◌, ◌<◌, ◌≤◌, true, false, String, Bool, List, [], ◌∷◌, ◌++◌, append_nil, map, length, leb,
  ◌≡◌, refl, ap, arith, inl, inr, All, insert_by, sorted_by, Bool-cases,
}
use aads.Python.{Py, ok}
use aads.Python.Laws.{>>=-returns}
use aads.Clusters.{
  Floats, Anomaly, AnomalyCluster, Aggregator, time_of, with_anomaly, new_cluster, fits, place,
  cluster_all, timed, of_size, earlier, aggregate,
}

concat-Perm : {A : Type 0} (xs : List A) (x : A) → Perm (xs ++ x ∷ []) (x ∷ xs)
concat-Perm xs x = subst (λ l. Perm (xs ++ x ∷ []) (x ∷ l)) (append_nil xs) (perm_middle xs [])

insert_by-Perm :
    {A : Type 0} (lt : A → A → Bool) (x : A) (ys : List A) → Perm (insert_by lt x ys) (x ∷ ys)
unfolding insert_by
insert_by-Perm lt x [] = Perm.refl (x ∷ [])
insert_by-Perm lt x (y ∷ ys) = elim (Bool-cases (lt y x)) [
  | inl t ↦ rw (t) (Perm.trans (Perm.cons y (insert_by-Perm lt x ys)) (Perm.swap x y ys))
  | inr f ↦ rw (f) (Perm.refl (x ∷ y ∷ ys))
]

sorted_by-Perm : {A : Type 0} (lt : A → A → Bool) (xs : List A) → Perm (sorted_by lt xs) xs
unfolding sorted_by
sorted_by-Perm lt [] = Perm.refl []
sorted_by-Perm lt (x ∷ xs) =
    Perm.trans (insert_by-Perm lt x (sorted_by lt xs)) (Perm.cons x (sorted_by-Perm lt xs))

abbrev pub members : {F : Type 0} → List (AnomalyCluster F) → List (Anomaly F)
members [] = []
members (c ∷ cs) = c.anomalies ++ members cs

abbrev IsCounted : {F : Type 0} → AnomalyCluster F → Type 0
IsCounted c = c.total_count ≡ length c.anomalies

module _ {F : Type 0} (floats : Floats F) (fromisoformat : String → Py ℕ) where
  place-Perm :
      (window id t : ℕ) (a : Anomaly F) (cs : List (AnomalyCluster F))
      → Perm (members (place floats fromisoformat window id t a cs)) (a ∷ members cs)
  unfolding place with_anomaly new_cluster
  place-Perm window id t a [] = Perm.refl (a ∷ [])
  place-Perm window id t a (c ∷ cs) = elim (Bool-cases (fits floats fromisoformat window t a c)) [
    | inl y ↦ rw (y) (Perm.append_right (members cs) (concat-Perm c.anomalies a))
    | inr n ↦ rw (n) (
        Perm.trans (Perm.append_left c.anomalies (place-Perm window id t a cs))
          (perm_middle c.anomalies (members cs)))
  ]

  abbrev anomalies_of : List (Anomaly F × ℕ) → List (Anomaly F)
  anomalies_of ts = map (λ (a : Anomaly F × ℕ). a.0) ts

  cluster_all-Perm :
      (window : ℕ) (ts : List (Anomaly F × ℕ)) (cs : List (AnomalyCluster F))
      → Perm
          (members (cluster_all floats fromisoformat window ts cs))
          (anomalies_of ts ++ members cs)
  unfolding cluster_all
  cluster_all-Perm window [] cs = Perm.refl (members cs)
  cluster_all-Perm window (a ∷ ts) cs = Perm.trans (cluster_all-Perm window ts _) (
      Perm.trans (Perm.append_left (anomalies_of ts) (place-Perm window (length cs) a.1 a.0 cs))
        (perm_middle (anomalies_of ts) (members cs)))

  timed-anomalies :
      (as' : List (Anomaly F)) (ts : List (Anomaly F × ℕ))
      → timed floats fromisoformat as' ≡ ok ts
      → anomalies_of ts ≡ as'
  unfolding timed
  timed-anomalies [] ts h = let e : [] ≡ ts = cc (h) in rw (← e) refl
  timed-anomalies (x ∷ xs) ts h =
      let (t, e, rest) = >>=-returns (time_of floats fromisoformat x.time) _ h in
      let (us, f, last) = >>=-returns (timed floats fromisoformat xs) _ rest in
      let same : (x, t) ∷ us ≡ ts = cc (last) in
      rw (← same) (ap (λ (l : List (Anomaly F)). x ∷ l) (timed-anomalies xs us f))

  place-IsCounted :
      (window id t : ℕ) (a : Anomaly F) (cs : List (AnomalyCluster F))
      → All IsCounted cs
      → All IsCounted (place floats fromisoformat window id t a cs)
  unfolding place with_anomaly new_cluster
  place-IsCounted window id t a [] k = (refl, tt)
  place-IsCounted window id t a (c ∷ cs) k =
      elim (Bool-cases (fits floats fromisoformat window t a c)) [
        | inl y ↦ rw (y) (refl, k.1)
        | inr n ↦ rw (n) (k.0, place-IsCounted window id t a cs k.1)
      ]

  cluster_all-IsCounted :
      (window : ℕ) (ts : List (Anomaly F × ℕ)) (cs : List (AnomalyCluster F))
      → All IsCounted cs
      → All IsCounted (cluster_all floats fromisoformat window ts cs)
  unfolding cluster_all
  cluster_all-IsCounted window [] cs k = k
  cluster_all-IsCounted window (a ∷ ts) cs k =
      cluster_all-IsCounted window ts _ (place-IsCounted window (length cs) a.1 a.0 cs k)

  of_size-zero : (cs : List (AnomalyCluster F)) → of_size floats fromisoformat 0 cs ≡ cs
  unfolding of_size
  of_size-zero [] = refl
  of_size-zero (c ∷ cs) =
      let large : leb 0 c.total_count ≡ true = ground arith in
      rw (large) (ap (λ (l : List (AnomalyCluster F)). c ∷ l) (of_size-zero cs))

-- The clusters with at least so many anomalies, in their order, and no others.
pub data Kept {F : Type 0} (min_size : ℕ)
    : List (AnomalyCluster F) → List (AnomalyCluster F) → Type 0 where
  done : Kept min_size [] []
  keep :
      {c : AnomalyCluster F} {kept all : List (AnomalyCluster F)}
      → min_size ≤ length c.anomalies
      → Kept min_size kept all
      → Kept min_size (c ∷ kept) (c ∷ all)
  drop :
      {c : AnomalyCluster F} {kept all : List (AnomalyCluster F)}
      → length c.anomalies < min_size
      → Kept min_size kept all
      → Kept min_size kept (c ∷ all)

module _ {F : Type 0} (floats : Floats F) (fromisoformat : String → Py ℕ) where
  of_size-Kept :
      (min_size : ℕ) (cs : List (AnomalyCluster F))
      → All IsCounted cs
      → Kept min_size (of_size floats fromisoformat min_size cs) cs
  unfolding of_size
  of_size-Kept min_size [] k = done
  of_size-Kept min_size (c ∷ cs) k = elim (Bool-cases (leb min_size c.total_count)) [
    | inl y ↦ rw (y) (keep (large y k.0) (of_size-Kept min_size cs k.1))
    | inr n ↦ rw (n) (drop (small n k.0) (of_size-Kept min_size cs k.1))
  ]
    where
      large : {m n k : ℕ} → leb m n ≡ true → n ≡ k → m ≤ k
      large y e = ground arith

      small : {m n k : ℕ} → leb m n ≡ false → n ≡ k → k < m
      small y e = ground arith

-- The aggregator loses and repeats no anomaly: without a minimal size it returns clusters whose
-- anomalies are the given ones in another order, and with one it returns exactly those of these
-- clusters that have at least so many anomalies, in the same order.
pub aggregate-Perm :
    (F : Type 0) (floats : Floats F) (fromisoformat : String → Py ℕ) (g after : Aggregator)
    (anomalies : List (Anomaly F)) (clusters : List (AnomalyCluster F))
    → aggregate floats fromisoformat g anomalies ≡ ok (clusters, after)
    → (formed : List (AnomalyCluster F)) × (last : Aggregator) × ((aggregate floats fromisoformat
            (record g { min_cluster_size = 0 })
            anomalies
          ≡ ok (formed, last))
        × (Perm (members formed) anomalies × Kept g.min_cluster_size clusters formed))
unfolding aggregate
aggregate-Perm F floats fromisoformat g after [] clusters h =
    let e : [] ≡ clusters = cc (h) in
    ([], record g { min_cluster_size = 0 }, (refl, (Perm.refl [], rw (← e) done)))
aggregate-Perm F floats fromisoformat g after (a ∷ as') clusters h =
    let (ts, e, rest) = >>=-returns (timed floats fromisoformat (a ∷ as')) _ h in
    let formed =
      cluster_all floats fromisoformat g.time_window (sorted_by (earlier floats fromisoformat) ts)
        [] in
    let same : of_size floats fromisoformat g.min_cluster_size formed ≡ clusters = cc (rest) in
    let counted =
      cluster_all-IsCounted floats fromisoformat g.time_window
        (sorted_by (earlier floats fromisoformat) ts) [] tt in
    (
      of_size floats fromisoformat 0 formed,
      record g {
        min_cluster_size = 0;
        total_anomalies_processed = g.total_anomalies_processed + length (a ∷ as');
        total_clusters_created =
            g.total_clusters_created + length (of_size floats fromisoformat 0 formed);
      },
      (
        rw (e) refl,
        rw (of_size-zero floats fromisoformat formed) (
          subst (λ l. Perm (members formed) l) (timed-anomalies floats fromisoformat (a ∷ as') ts e)
              (Perm.trans
                (subst (λ l. Perm (members formed) l) (append_nil _)
                  (cluster_all-Perm floats fromisoformat g.time_window
                    (sorted_by (earlier floats fromisoformat) ts) []))
                (Perm.map (λ (x : Anomaly F × ℕ). x.0)
                  (sorted_by-Perm (earlier floats fromisoformat) ts))),
          subst (λ l. Kept g.min_cluster_size l formed) same
              (of_size-Kept floats fromisoformat g.min_cluster_size formed counted),
        ),
      ),
    )
