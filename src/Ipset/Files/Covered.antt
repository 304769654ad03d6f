-- ===== src/Ipset/Files/Covered.antt =====
-- The entries of a set in the order of the loops, and the addresses that they cover.
use mathlib.Core.List.{append_assoc}
use anti.Base.{
  ℕ, zero, suc, ◌+◌, ◌≤◌, ◌<◌, ◌≡◌, ◌↔◌, ◌⊎◌, refl, ap, sym, ◌∙◌, true, [], ◌∷◌, ◌++◌, length,
  length-append, arith, Bool-cases, inl, inr, ◌==◌, ==_refl, ==_iff,
}
use anti.Addr.{IpAddr}
use anti.Addr.Text.{Inet}
use anti.Ipset.{IpsetEntry, Chain, Ipset, ipset_hash, push}
use anti.Ipset.Cidr.{ip_in_cidr}
use anti.Ipset.Ranges.{Covers, first, later}
use anti.Ipset.Valid.Total.{total}
use anti.Ipset.Files.{entry_line, save_chain, save_from}
use anti.Ipset.Files.Load.{lasting, push_all}

-- The entries of the buckets from `i` on, in the order of the loop.
abbrev pub stored : ℕ → ℕ → Ipset → Chain
stored zero i set = []
stored (suc left) i set = set.buckets i ++ stored left (i + 1) set

save_chain-append :
    (net : Inet) (c d : Chain) → save_chain net (c ++ d) ≡ save_chain net c ++ save_chain net d
unfolding save_chain
save_chain-append net [] d = refl
save_chain-append net (e ∷ c) d =
    ap (λ t. entry_line net e ++ t) (save_chain-append net c d)
    ∙ sym (append_assoc (entry_line net e) (save_chain net c) (save_chain net d))

pub save_from-stored :
    (net : Inet) (left i : ℕ) (set : Ipset)
    → save_from net left i set ≡ (save_chain net (stored left i set), length (stored left i set))
unfolding save_from
save_from-stored net zero i set = refl
save_from-stored net (suc left) i set =
    let c = set.buckets i in
    let d = stored left (i + 1) set in
    rw (save_from-stored net left (i + 1) set)
      (rw (save_chain-append net c d, length-append c d) refl)

pub length-stored :
    (left i : ℕ) (set : Ipset)
    → length (stored left i set) + total i set.buckets ≡ total (i + left) set.buckets
unfolding total
length-stored zero i set =
    omega (arith, ap (λ n. total n set.buckets) (let e : i + 0 ≡ i = omega arith in e))
length-stored (suc left) i set =
    let shift : total (i + 1 + left) set.buckets ≡ total (i + suc left) set.buckets =
      ap (λ n. total n set.buckets) (omega arith) in
    let here : total (i + 1) set.buckets ≡ total i set.buckets + length (set.buckets i) =
      ap (λ n. total n set.buckets) (let e : i + 1 ≡ suc i = omega arith in e) in
    omega (
      arith,
      length-append (set.buckets i) (stored left (i + 1) set),
      length-stored left (i + 1) set,
      shift,
      here,
    )

-- Some entry of the chain has a range that the address lies in, whether it has expired or not.
abbrev pub Ranged : IpAddr → Chain → Type 0
Ranged ip [] = ⊥
Ranged ip (e ∷ c) = (ip_in_cidr ip e.ip e.prefix_len ≡ true) ⊎ Ranged ip c

Ranged-append : (ip : IpAddr) (c d : Chain) → Ranged ip (c ++ d) ↔ (Ranged ip c ⊎ Ranged ip d)
Ranged-append ip [] d = (λ r. inr r, λ s. elim s [ inl none_there ↦ absurd none_there | inr r ↦ r ])
Ranged-append ip (e ∷ c) d =
    let (split, join) = Ranged-append ip c d in
    (
      λ r. elim r [
        | inl here ↦ inl (inl here)
        | inr l ↦ elim (split l) [ inl left ↦ inl (inr left) | inr right ↦ inr right ]
      ],
      λ s. elim s [
        | inl r ↦ elim r [ inl here ↦ inl here | inr l ↦ inr (join (inl l)) ]
        | inr right ↦ inr (join (inr right))
      ],
    )

Covers-cons :
    {now : ℕ} {ip : IpAddr} {e : IpsetEntry} {c : Chain}
    → Covers now ip (e ∷ c)
    → (ip_in_cidr ip e.ip e.prefix_len ≡ true) ⊎ Covers now ip c
Covers-cons (first e c inside fresh) = inl inside
Covers-cons (later e c l) = inr l

module _ (ip : IpAddr) (now : ℕ) where
  abbrev pub AnyCovers : Ipset → Type 0
  AnyCovers set = (j : ℕ) × Covers now ip (set.buckets j)

  push-covers :
      (set : Ipset) (e : IpsetEntry)
      → AnyCovers (push set (lasting e))
        ↔ ((ip_in_cidr ip e.ip e.prefix_len ≡ true) ⊎ AnyCovers set)
  unfolding push
  push-covers set e =
      let h = ipset_hash e.ip in
      (
        λ (j, l). elim (Bool-cases (j == h)) [
          | inl here ↦ elim (Covers-cons (rw here at l)) [
            | inl inside ↦ inl inside
            | inr old ↦ inr (h, old)
          ]
          | inr there ↦ inr (j, rw there at l)
        ],
        λ s. elim s [
          | inl inside ↦ (h, rw (==_refl h) (first (lasting e) (set.buckets h) inside refl))
          | inr (j, l) ↦ elim (Bool-cases (j == h)) [
            | inl here ↦
                let same : j ≡ h = (==_iff j h).0 here in
                (h, rw (==_refl h) (later (lasting e) (set.buckets h) (rw same at l)))
            | inr there ↦ (j, rw there l)
          ]
        ],
      )

  pub push_all-covers :
      (c : Chain) (set : Ipset) → AnyCovers (push_all c set) ↔ (Ranged ip c ⊎ AnyCovers set)
  unfolding push_all
  push_all-covers [] set =
      (λ a. inr a, λ s. elim s [ inl none_there ↦ absurd none_there | inr a ↦ a ])
  push_all-covers (e ∷ c) set =
      let (split, join) = push_all-covers c (push set (lasting e)) in
      let (one, back) = push-covers set e in
      (
        λ a. elim (split a) [
          | inl ranged ↦ inl (inr ranged)
          | inr b ↦ elim (one b) [ inl inside ↦ inl (inl inside) | inr old ↦ inr old ]
        ],
        λ s. elim s [
          | inl r ↦ elim r [
            | inl inside ↦ join (inr (back (inl inside)))
            | inr ranged ↦ join (inl ranged)
          ]
          | inr old ↦ join (inr (back (inr old)))
        ],
      )

  -- An entry of some bucket of the set, from `i` on, is among the stored ones.
  pub stored-Ranged :
      (set : Ipset) (left i : ℕ)
      → Ranged ip (stored left i set)
        ↔ ((j : ℕ) × (i ≤ j) × (j < i + left) × Ranged ip (set.buckets j))
  stored-Ranged set zero i =
      (λ none_there. absurd none_there, λ (j, low, high, r). absurd (omega arith))
  stored-Ranged set (suc left) i =
      let (split, join) = Ranged-append ip (set.buckets i) (stored left (i + 1) set) in
      let (find, place) = stored-Ranged set left (i + 1) in
      (
        λ r. elim (split r) [
          | inl here ↦ (i, omega arith, omega arith, here)
          | inr l ↦ let (j, low, high, q) = find l in (j, omega arith, omega arith, q)
        ],
        λ (j, low, high, r). elim (Bool-cases (i == j)) [
          | inl here ↦ let e : i ≡ j = (==_iff i j).0 here in join (inl (rw (sym e) at r))
          | inr there ↦ join (inr (place (j, ground arith, omega arith, r)))
        ],
      )
