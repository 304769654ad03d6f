-- ===== src/Analyzer/Baseline/Laws.antt =====
-- What the baseline of the analyzer comes to.
use anti.Base.{
  ℕ, zero, suc, ◌+◌, ◌≤◌, ◌<◌, ◌≡◌, ◌↔◌, refl, sym, ◌∙◌, false, none, some, ◌==◌, arith, Bool-cases,
  Option-cases, inl, inr, success, ℤ,
}
use anti.Types.{IpStats}
use anti.Analyzer.{IpTable, ip_stats_table_size}
use anti.Analyzer.Baseline.{
  Doubles, TrafficPattern, TrafficAnalyzer, spin, spin_from, count_packets, add_totals, attacks,
  analyzer_calculate_entropy, update_metrics, analyzer_update_baseline, analyzer_is_anomaly,
}

-- No bucket of the table has an entry.
abbrev pub HasNoEntry : IpTable → Type 0
HasNoEntry table = (i : ℕ) → i < ip_stats_table_size → table i ≡ none

module _ {T : Type 0} (body : IpStats → T → T) (fuel : ℕ) where
  spin-some : (fuel : ℕ) (stats : IpStats) (t : T) → spin body fuel (some stats) t ≡ none
  unfolding spin
  spin-some zero stats t = refl
  spin-some (suc fuel) stats t = spin-some fuel stats (body stats t)

  spin-none : (t : T) → spin body fuel none t ≡ some t
  unfolding spin
  spin-none t = refl

  spin_from-blank :
      (left i : ℕ) (table : IpTable) (t : T)
      → ((j : ℕ) → i ≤ j → j < i + left → table j ≡ none)
      → spin_from body fuel left i table t ≡ some t
  unfolding spin_from
  spin_from-blank zero i table t blank = refl
  spin_from-blank (suc left) i table t blank =
      rw (blank i (omega arith) (omega arith), spin_from)
        (rw (spin-none t) (
          spin_from-blank left (i + 1) table t (λ j low high. blank j (omega arith) (omega arith))))

  spin_from-entry :
      (left i j : ℕ) (table : IpTable) (t : T) {stats : IpStats}
      → i ≤ j
      → j < i + left
      → table j ≡ some stats
      → spin_from body fuel left i table t ≡ none
  unfolding spin_from
  spin_from-entry zero i j table t low high e = absurd (omega arith)
  spin_from-entry (suc left) i j table t {stats} low high e =
      elim (Option-cases (spin body fuel (table i) t)) [
        | inl stuck ↦ rw (stuck, spin_from) refl
        | inr (u, moved) ↦ elim (Bool-cases (i == j)) [
          | inl here ↦
              let same : i ≡ j = ground arith in
              absurd (clash (sym (rw (same, e) at moved) ∙ spin-some fuel stats t))
          | inr there ↦
              rw (moved, spin_from)
                (spin_from-entry left (i + 1) j table u (ground arith) (omega arith) e)
        ]
      ]
    where
      clash : {A : Type 0} {a : A} → some a ≡ none → ⊥
      clash p = cc

module _ {D : Type 0} (d : Doubles D) (fuel now : ℕ) (a : TrafficAnalyzer D) where
  open d use {zero_d, two, minus, fabs, greater}

  analyzer_calculate_entropy-blank :
      HasNoEntry a.ip_table → analyzer_calculate_entropy d fuel a ≡ some zero_d
  unfolding analyzer_calculate_entropy
  analyzer_calculate_entropy-blank blank =
      rw
        (
          spin_from-blank (count_packets attacks) fuel ip_stats_table_size 0 a.ip_table
              (record { total_packets = 0; counts = λ i. 0 }) (λ j low high. blank j (omega arith)),
          analyzer_calculate_entropy,
        )
        refl

  -- The analyzer after a baseline over an empty table.
  abbrev pub emptied : TrafficAnalyzer D
  emptied = record a {
    baseline = record (a.baseline) { entropy = zero_d; unique_src_ips = 0 };
    baseline_updated = now;
  }

  update_baseline-blank :
      HasNoEntry a.ip_table → analyzer_update_baseline d fuel now a ≡ some (success, emptied)
  unfolding analyzer_update_baseline update_metrics
  update_baseline-blank blank =
      rw (analyzer_calculate_entropy-blank blank, analyzer_update_baseline)
        (rw
          (
            spin_from-blank (add_totals attacks) fuel ip_stats_table_size 0 a.ip_table
                (record { total_packets = 0; total_bytes = 0; unique_ips = 0 })
                (λ j low high. blank j (omega arith)),
            update_metrics,
          )
          refl)

  update_baseline-entry :
      (j : ℕ) {stats : IpStats}
      → j < ip_stats_table_size
      → a.ip_table j ≡ some stats
      → analyzer_update_baseline d fuel now a ≡ none
  unfolding analyzer_update_baseline analyzer_calculate_entropy
  update_baseline-entry j high e =
      rw
        (
          spin_from-entry (count_packets attacks) fuel ip_stats_table_size 0 j a.ip_table
              (record { total_packets = 0; counts = λ i. 0 }) (omega arith) (omega arith) e,
          analyzer_update_baseline,
          analyzer_calculate_entropy,
        )
        refl

  -- The update of the baseline comes to an end exactly where the table has no entry, however long its
  -- loops run.
  pub analyzer_update_baseline-ends :
      ((r : ℤ × TrafficAnalyzer D) × (analyzer_update_baseline d fuel now a ≡ some r))
      ↔ HasNoEntry a.ip_table
  analyzer_update_baseline-ends = (
    λ (r, e) i low. elim (Option-cases (a.ip_table i)) [
      | inl blank ↦ blank
      | inr (stats, there) ↦ cc (update_baseline-entry i low there)
    ],
    λ blank. ((success, emptied), update_baseline-blank blank),
  )

  -- After a baseline over an empty table, where none has recorded a size of packets, a pattern is an
  -- anomaly exactly when its entropy is too far from zero: the size of packets is not compared.
  pub analyzer_is_anomaly-update_baseline :
      (pattern : TrafficPattern D)
      → HasNoEntry a.ip_table
      → a.baseline.packet_size_avg ≡ zero_d
      → greater zero_d zero_d ≡ false
      → (after : TrafficAnalyzer D) × (analyzer_update_baseline d fuel now a
          ≡ some (success, after))
        × (analyzer_is_anomaly d after pattern ≡ greater (fabs (minus pattern.entropy zero_d)) two)
  unfolding analyzer_is_anomaly
  analyzer_is_anomaly-update_baseline pattern blank unsized order =
      let far = greater (fabs (minus pattern.entropy zero_d)) two in
      let sized = greater pattern.packet_size_avg zero_d in
      (
        emptied,
        update_baseline-blank blank,
        elim (Bool-cases far) [
          | inl yes_far ↦ rw (yes_far, analyzer_is_anomaly) refl
          | inr near ↦
              rw (near, analyzer_is_anomaly)
                (elim (Bool-cases sized) [
                  | inl large ↦ rw (large, unsized, order) refl
                  | inr small ↦ rw small refl
                ])
        ],
      )
