-- ===== src/Ipset/Files/RoundTrip.antt =====
-- A set that was saved and is loaded into a new one.
use mathlib.Core.List.{append-nil}
use anti.Base.{
  ℕ, zero, suc, ◌+◌, ◌≤◌, ◌<◌, ◌^◌, ◌≡◌, ◌↔◌, refl, ap, sym, ◌∙◌, true, List, [], ◌∷◌, ◌++◌, some,
  length, arith, inl, inr, pos, ok,
}
use anti.Addr.{IpAddr, IsIpAddr}
use anti.Addr.Text.{Inet}
use anti.Ipset.{Chain, Ipset, create, contains_cidr, host_prefix}
use anti.Ipset.Ranges.{Covers, contains_cidr_iff}
use anti.Ipset.Valid.{IsValid, AllInPlace, push-IsValid}
use anti.Ipset.Valid.Total.{total}
use anti.Ipset.Invariant.{create-IsValid}
use anti.Ipset.Files.{fgets_lines, save_chain, save_from, save_to_file, load_from_file}
use anti.Ipset.Files.Load.{
  IsWritten, AllSavable, push-entry_count, push-max_size, lasting, push_all, lines_of,
  fgets_lines-save_chain, load_lines-lines_of,
}
use anti.Ipset.Files.Covered.{
  stored, save_from-stored, length-stored, Ranged, push_all-covers, stored-Ranged,
}

-- `inet_ntop` writes the address of each entry as documented.
abbrev pub AllWritten : Inet → Chain → Type 0
AllWritten net [] = Unit {0}
AllWritten net (e ∷ c) = IsWritten net e.ip × AllWritten net c

AllSavable-append :
    (net : Inet) (i : ℕ) (c d : Chain)
    → AllInPlace i c
    → AllWritten net c
    → AllSavable net d
    → AllSavable net (c ++ d)
AllSavable-append net i [] d p w s = s
AllSavable-append net i (e ∷ c) d p w s =
    (record { written = w.0; prefix = p.0.prefix }, AllSavable-append net i c d p.1 w.1 s)

AllSavable-stored :
    (net : Inet) (left i : ℕ) (set : Ipset)
    → IsValid set
    → ((j : ℕ) → AllWritten net (set.buckets j))
    → AllSavable net (stored left i set)
AllSavable-stored net zero i set v w = tt
AllSavable-stored net (suc left) i set v w =
    AllSavable-append net i (set.buckets i) (stored left (i + 1) set) (v.placed i) (w i)
      (AllSavable-stored net left (i + 1) set v w)

abbrev AllAddressed : Chain → Type 0
AllAddressed [] = Unit {0}
AllAddressed (e ∷ c) = IsIpAddr e.ip × (e.prefix_len ≤ host_prefix e.ip) × AllAddressed c

AllAddressed-append :
    (i : ℕ) (c d : Chain) → AllInPlace i c → AllAddressed d → AllAddressed (c ++ d)
AllAddressed-append i [] d p a = a
AllAddressed-append i (e ∷ c) d p a = (p.0.address, p.0.prefix, AllAddressed-append i c d p.1 a)

AllAddressed-stored : (left i : ℕ) (set : Ipset) → IsValid set → AllAddressed (stored left i set)
AllAddressed-stored zero i set v = tt
AllAddressed-stored (suc left) i set v =
    AllAddressed-append i (set.buckets i) (stored left (i + 1) set) (v.placed i)
      (AllAddressed-stored left (i + 1) set v)

push_all-IsValid :
    (c : Chain) {set : Ipset}
    → AllAddressed c
    → set.entry_count + length c ≤ set.max_size
    → IsValid set
    → IsValid (push_all c set)
unfolding push_all
push_all-IsValid [] a room v = v
push_all-IsValid (e ∷ c) {set} a room v =
    push_all-IsValid c a.2 (omega (arith, push-entry_count set e, push-max_size set e, v.fits))
      (push-IsValid v (lasting e) (omega arith) a.0 a.1)

Covers-nil : {now : ℕ} {ip : IpAddr} → Covers now ip [] → ⊥
Covers-nil l = elim l [ ]

create-IsEmpty :
    (max_size : ℕ) {set : Ipset}
    → create max_size true true ≡ some set
    → (set.entry_count ≡ 0) × (set.max_size ≡ max_size) × ((j : ℕ) → set.buckets j ≡ [])
unfolding create
create-IsEmpty max_size {set} e = (ground arith, ground arith, λ j. ground arith)

module _ (net : Inet) {set fresh : Ipset} (max_size : ℕ) where
  -- A set whose addresses `inet_ntop` writes so that `inet_pton` reads them back is saved, and loaded into
  -- a new set that has room for it: the load returns the number of entries, and then an address is
  -- covered, at any time, exactly when it lies in the range of a saved entry, expired or not.
  pub load_from_file-save_to_file :
      IsValid set
      → ((j : ℕ) → AllWritten net (set.buckets j))
      → create max_size true true ≡ some fresh
      → set.entry_count ≤ max_size
      → max_size < 2 ^ 32
      → (after : Ipset) × (load_from_file net (λ i. true) fresh (save_to_file net set true).1
          ≡ ok (pos (set.entry_count), after))
        × ((ip : IpAddr) (now : ℕ)
            → (contains_cidr (some after) (some ip) now ≡ true)
              ↔ ((j : ℕ) × (j < set.bucket_count) × Ranged ip (set.buckets j)))
  unfolding load_from_file save_to_file
  load_from_file-save_to_file v w new small fits =
      let c = stored set.bucket_count 0 set in
      let (none_yet, sized, empty) = create-IsEmpty max_size new in
      let start : total 0 set.buckets ≡ 0 = unfold total in refl in
      let end : total (0 + set.bucket_count) set.buckets ≡ total set.bucket_count set.buckets =
        ap (λ n. total n set.buckets)
          (let e : 0 + set.bucket_count ≡ set.bucket_count = omega arith in e) in
      let counted : 0 + length c ≡ set.entry_count =
        omega (arith, length-stored set.bucket_count 0 set, v.counted, start, end) in
      let room : fresh.entry_count + length c ≤ fresh.max_size = omega arith in
      let savable = AllSavable-stored net set.bucket_count 0 set v w in
      let valid =
        push_all-IsValid c (AllAddressed-stored set.bucket_count 0 set v) room
          (create-IsValid max_size fits new) in
      let content : (save_from net set.bucket_count 0 set).0 ≡ save_chain net c ++ [] =
        ap (λ (p : List ℕ × ℕ). p.0) (save_from-stored net set.bucket_count 0 set)
        ∙ sym (append-nil (save_chain net c)) in
      let read : fgets_lines 255 (save_from net set.bucket_count 0 set).0 ≡ lines_of net c =
        ap (fgets_lines 255) content
        ∙ fgets_lines-save_chain net c [] savable
        ∙ append-nil (lines_of net c) in
      let loaded = load_lines-lines_of net c 0 fresh 0 savable room (omega arith) in
      (
        push_all c fresh,
        rw read (rw loaded (ap (λ n. ok (pos n, push_all c fresh)) counted)),
        λ ip now.
            let (split, join) = push_all-covers ip now c fresh in
            let (covers, back) = contains_cidr_iff {set = push_all c fresh} ip now valid in
            let (find, place) = stored-Ranged ip now set set.bucket_count 0 in
            (
              λ h. elim (split (covers h)) [
                | inl r ↦ let (j, low, high, q) = find r in (j, omega arith, q)
                | inr (j, l) ↦ absurd (Covers-nil (rw (empty j) at l))
              ],
              λ (j, high, r). back (join (inl (place (j, omega arith, omega arith, r)))),
            ),
      )
