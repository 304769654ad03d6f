-- ===== src/Tests/Baseline.antt =====
-- An analyzer without traffic, for the theorems on the baseline of src/detection/analyzer.c.
use anti.Base.{ℕ, ◌-◌, ◌*◌, ◌/◌, ◌≡◌, ◌↔◌, refl, some, none, success, ltb, ℤ}
use anti.Analyzer.{initial}
use anti.Analyzer.Baseline.{
  Doubles, TrafficPattern, TrafficAnalyzer, no_pattern, analyzer_update_baseline,
  analyzer_is_anomaly,
}
use anti.Analyzer.Baseline.Laws.{
  HasNoEntry, analyzer_update_baseline-ends, analyzer_is_anomaly-update_baseline,
}

-- Natural numbers stand for the values of a `double`.
abbrev pub whole : Doubles ℕ
whole = record {
  zero_d = 0;
  two = 2;
  five = 5;
  fifth = 0;
  from_integer = λ n. n;
  minus = λ a b. a - b;
  times = λ a b. a * b;
  over = λ a b. a / b;
  log2 = λ a. a;
  fabs = λ a. a;
  greater = λ a b. ltb b a;
}

abbrev idle : TrafficAnalyzer ℕ
idle = record {
  ip_table = initial;
  baseline = no_pattern whole;
  blacklist = none;
  whitelist = none;
  baseline_updated = 0;
}

abbrev busy : TrafficPattern ℕ
busy = record (no_pattern whole) { entropy = 3 }

analyzer_update_baseline-ends_example :
    ((r : ℤ × TrafficAnalyzer ℕ) × (analyzer_update_baseline whole 9 40 idle ≡ some r))
    ↔ HasNoEntry idle.ip_table
analyzer_update_baseline-ends_example = analyzer_update_baseline-ends whole 9 40 idle

analyzer_is_anomaly-update_baseline_example :
    (after : TrafficAnalyzer ℕ) × (analyzer_update_baseline whole 9 40 idle ≡ some (success, after))
    × (analyzer_is_anomaly whole after busy
        ≡ whole.greater (whole.fabs (whole.minus busy.entropy 0)) 2)
analyzer_is_anomaly-update_baseline_example =
    analyzer_is_anomaly-update_baseline whole 9 40 idle busy (λ i low. refl) refl refl
