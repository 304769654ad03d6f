-- ===== src/Analyzer/Table.antt =====
-- The address table never gets an entry.
use anti.Base.{
  ℕ, ◌≡◌, refl, ap, Bool, List, [], ◌∷◌, none, update, length, replicate, arith, Bool-cases, inl,
  inr,
}
use anti.Addr.{IpAddr}
use anti.Analyzer.{
  IpTable, ip_stats_hash, search_bucket, analyzer_get_ip_stats, initial, calls, returned,
}

abbrev pub IsBlank : IpTable → Type 0
IsBlank table = (i : ℕ) → table i ≡ none

calls-blank :
    (table : IpTable) (xs : List (IpAddr × Bool))
    → IsBlank table
    → calls table xs ≡ replicate (length xs) none
unfolding calls analyzer_get_ip_stats search_bucket
calls-blank table [] blank = refl
calls-blank table ((ip, granted) ∷ xs) blank =
    let hash = ip_stats_hash ip in
    elim (Bool-cases granted) [
      | inl given ↦
          let after : IsBlank (update table hash none) = λ i. ground (arith, blank i) in
          rw (blank hash, given, calls, analyzer_get_ip_stats)
            (rw (blank hash) (ap (λ t. none ∷ t) (calls-blank (update table hash none) xs after)))
      | inr denied ↦
          rw (blank hash, denied, calls, analyzer_get_ip_stats)
            (ap (λ t. none ∷ t) (calls-blank table xs blank))
    ]

-- Whatever addresses are asked for after the initialisation, and in whatever order, each call of
-- `analyzer_get_ip_stats` ends and returns NULL, also where its allocation succeeds.
pub calls-initial : (xs : List (IpAddr × Bool)) → calls initial xs ≡ replicate (length xs) none
calls-initial xs = calls-blank initial xs (λ i. refl)

pub analyzer_get_ip_stats-IsBlank :
    (table : IpTable) (ip : IpAddr) (granted : Bool)
    → IsBlank table
    → (after : IpTable) × (analyzer_get_ip_stats table ip granted ≡ returned none after)
      × IsBlank after
unfolding analyzer_get_ip_stats search_bucket
analyzer_get_ip_stats-IsBlank table ip granted blank =
    let hash = ip_stats_hash ip in
    elim (Bool-cases granted) [
      | inl given ↦ (
        update table hash none,
        rw (blank hash, given, analyzer_get_ip_stats) (rw (blank hash) refl),
        λ i. ground (arith, blank i),
      )
      | inr denied ↦ (table, rw (blank hash, denied, analyzer_get_ip_stats) refl, blank)
    ]
