-- ===== src/Ipset/Invariant.antt =====
-- The invariant of a set along every sequence of operations.
use anti.Base.{
  ℕ, arith, Bool-cases, Option-cases, inl, inr, Bool, ltb, leb, OnSome-elim, length, ◌≡◌, ◌+◌, refl,
  ◌≤◌, update, u8, sub32, suc, [], ◌∷◌, ◌^◌, ◌<◌, zero, sym, ap, ◌∙◌, some, true,
}
use anti.Addr.{IpAddr, IsIpAddr}
use mathlib.Core.Path.{subst}
use native.Mathlib.Nat.{le_refl, le_trans}
use anti.Ipset.{
  Ipset, IpsetEntry, ipset_buckets, expired, purge, wipe, create, clear_from, Chain, insert, delete,
  insert_range, host_prefix, refresh, unlink, ipset_hash,
}
use anti.Ipset.Valid.{
  AllInPlace, IsValid, Resized, refresh_lem, unlink_lem, replace-IsValid, push-IsValid,
  ipset_hash-lt,
}
use anti.Ipset.Valid.Total.{total, total-empty, length-le-total}
use anti.Ipset.Cleanup.{Cleaned, live, sweep_from_lem, clear_from_lem}

u8-le : (n : ℕ) → u8 n ≤ n
u8-le n = omega arith

module _ {set : Ipset} (v : IsValid set) (ip : IpAddr) where
  pub insert-IsValid :
      (expires : ℕ) (granted : Bool) → IsIpAddr ip → IsValid (insert set ip expires granted).1
  unfolding insert
  insert-IsValid expires granted a = elim (Bool-cases (leb set.max_size set.entry_count)) [
    | inl full ↦ rw (full, insert) v
    | inr room ↦ elim (Option-cases (refresh ip expires (set.buckets (ipset_hash ip)))) [
      | inl new ↦ elim (Bool-cases granted) [
        | inl given ↦ rw (room, new, given, insert) (push-IsValid v _ (ground arith) a (le_refl _))
        | inr denied ↦ rw (room, new, denied, insert) v
      ]
      | inr (c, e) ↦
          let k = ipset_hash ip in
          let old = set.buckets k in
          let kept =
            OnSome-elim (Resized k (length old)) (refresh ip expires old) e
              (refresh_lem k ip expires old (v.placed k)) in
          rw (room, e, insert)
            (replace-IsValid v k c set.entry_count (ipset_hash-lt ip) kept.1 (omega arith)
              v.bounded)
    ]
  ]

  pub insert_range-IsValid :
      (prefix_len : ℕ) (granted : Bool)
      → IsIpAddr ip
      → prefix_len ≤ host_prefix ip
      → IsValid (insert_range set ip prefix_len granted).1
  unfolding insert_range
  insert_range-IsValid prefix_len granted a h =
      elim (Bool-cases (leb set.max_size set.entry_count)) [
        | inl full ↦ rw (full, insert_range) v
        | inr room ↦ elim (Bool-cases granted) [
          | inl given ↦
              rw (room, given, insert_range)
                (push-IsValid v _ (ground arith) a (le_trans (u8-le prefix_len) h))
          | inr denied ↦ rw (room, denied, insert_range) v
        ]
      ]

  pub delete-IsValid : IsValid (delete set ip).1
  unfolding delete
  delete-IsValid = elim (Option-cases (unlink ip (set.buckets (ipset_hash ip)))) [
    | inl absent ↦ rw (absent, delete) v
    | inr (c, e) ↦
        let k = ipset_hash ip in
        let old = set.buckets k in
        let kept =
          OnSome-elim (λ r. (suc (length r) ≡ length old) × AllInPlace k r) (unlink ip old) e
            (unlink_lem k ip old (v.placed k)) in
        let held = length-le-total set.bucket_count set.buckets k (rw v.width (ipset_hash-lt ip)) in
        rw (e, delete)
          (replace-IsValid v k c (sub32 set.entry_count 1) (ipset_hash-lt ip) kept.1
            (omega (arith, v.counted, v.fits, v.bounded))
            (omega (arith, v.counted, v.fits, v.bounded)))
  ]

pub AllInPlace-nil_of_ge :
    (set : Ipset) → IsValid set → (j : ℕ) → ipset_buckets ≤ j → set.buckets j ≡ []
AllInPlace-nil_of_ge set v j h = none_there (set.buckets j) (v.placed j)
  where
    none_there : (c : Chain) → AllInPlace j c → c ≡ []
    none_there [] p = refl
    none_there (e ∷ c) p = absurd (omega (arith, p.0.hashed, ipset_hash-lt e.ip))

AllInPlace-live : (now j : ℕ) (c : Chain) → AllInPlace j c → AllInPlace j (live now c)
unfolding live
AllInPlace-live now j [] p = p
AllInPlace-live now j (e ∷ c) p = elim (Bool-cases (expired now e)) [
  | inl old ↦ rw (old, live) (AllInPlace-live now j c p.1)
  | inr fresh ↦ rw (fresh, live) (p.0, AllInPlace-live now j c p.1)
]

total-eq_zero : (n : ℕ) (f : ℕ → Chain) → ((i : ℕ) → i < n → f i ≡ []) → total n f ≡ 0
unfolding total
total-eq_zero zero f h = refl
total-eq_zero (suc n) f h = omega (
  arith,
  total-eq_zero n f (λ i p. h i (omega arith)),
  ap (λ (c : Chain). length c) (h n (omega arith)),
)

clear_from_fields :
    (left i : ℕ) (set : Ipset)
    → ((clear_from left i set).bucket_count ≡ set.bucket_count)
      × ((clear_from left i set).max_size ≡ set.max_size)
unfolding clear_from
clear_from_fields zero i set = (refl, refl)
clear_from_fields (suc left) i set =
    clear_from_fields left (i + 1) (record set { buckets = update set.buckets i [] })

module _ {set : Ipset} (v : IsValid set) where
  -- What `ipset_cleanup_expired` does: each bucket keeps its live entries, in their order.
  pub purge_lem : (now : ℕ) → Cleaned now set.bucket_count set.bucket_count 0 set 0 (purge now set)
  unfolding purge
  purge_lem now =
      sweep_from_lem now set.bucket_count set.bucket_count 0 set 0 (omega arith)
        (omega (arith, v.counted)) (omega (arith, v.bounded, v.fits))

  pub purge-buckets : (now j : ℕ) → (purge now set).0.buckets j ≡ live now (set.buckets j)
  unfolding live
  purge-buckets now j = elim (Bool-cases (ltb j set.bucket_count)) [
    | inl low ↦ (purge_lem now).buckets j ∙ ground arith
    | inr high ↦
        let empty = AllInPlace-nil_of_ge set v j (rw (sym v.width) (ground arith)) in
        (purge_lem now).buckets j ∙ rw empty (ground arith)
  ]

  pub purge-IsValid : (now : ℕ) → IsValid (purge now set).0
  purge-IsValid now =
      let r = purge_lem now in
      record {
        width = r.same_width ∙ v.width;
        counted = rw r.same_width (omega (arith, r.counted, v.counted));
        bounded = rw r.same_max (omega (arith, r.shrunk, v.bounded));
        fits = rw r.same_max v.fits;
        placed = λ j. rw (purge-buckets now j) (AllInPlace-live now j (set.buckets j) (v.placed j));
      }

  pub wipe-buckets : (j : ℕ) → (wipe set).buckets j ≡ []
  unfolding wipe
  wipe-buckets j = elim (Bool-cases (ltb j set.bucket_count)) [
    | inl low ↦ clear_from_lem set.bucket_count 0 set j ∙ ground arith
    | inr high ↦
        let empty = AllInPlace-nil_of_ge set v j (rw (sym v.width) (ground arith)) in
        clear_from_lem set.bucket_count 0 set j ∙ rw empty (ground arith)
  ]

  wipe_fields :
      ((wipe set).bucket_count ≡ set.bucket_count)
      × ((wipe set).max_size ≡ set.max_size)
      × ((wipe set).entry_count ≡ 0)
  unfolding wipe
  wipe_fields = let same = clear_from_fields set.bucket_count 0 set in (same.0, same.1, refl)

  pub wipe-IsValid : IsValid (wipe set)
  wipe-IsValid = record {
    width = wipe_fields.0 ∙ v.width;
    counted =
        wipe_fields.2
        ∙ sym (total-eq_zero (wipe set).bucket_count (wipe set).buckets (λ i h. wipe-buckets i));
    bounded = rw wipe_fields.2 (omega arith);
    fits = rw wipe_fields.1 v.fits;
    placed = λ j. rw (wipe-buckets j) tt;
  }

-- One call of an operation that changes a set.
pub data Step : Ipset → Ipset → Type 0 where
  inserted :
      (set : Ipset) (ip : IpAddr) (expires : ℕ) (granted : Bool)
      → IsIpAddr ip
      → Step set (insert set ip expires granted).1
  ranged :
      (set : Ipset) (network : IpAddr) (prefix_len : ℕ) (granted : Bool)
      → IsIpAddr network
      → prefix_len ≤ host_prefix network
      → Step set (insert_range set network prefix_len granted).1
  deleted : (set : Ipset) (ip : IpAddr) → Step set (delete set ip).1
  purged : (set : Ipset) (now : ℕ) → Step set (purge now set).0
  wiped : (set : Ipset) → Step set (wipe set)

pub data Reach (set : Ipset) : Ipset → Type 0 where
  here : Reach set set
  next : {t u : Ipset} → Reach set t → Step t u → Reach set u

Step-IsValid : {t u : Ipset} → Step t u → IsValid t → IsValid u
Step-IsValid (inserted set ip expires granted a) v = insert-IsValid v ip expires granted a
Step-IsValid (ranged set network prefix_len granted a h) v =
    insert_range-IsValid v network prefix_len granted a h
Step-IsValid (deleted set ip) v = delete-IsValid v ip
Step-IsValid (purged set now) v = purge-IsValid v now
Step-IsValid (wiped set) v = wipe-IsValid v

pub create-IsValid :
    (max_size : ℕ) {set : Ipset}
    → max_size < 2 ^ 32
    → create max_size true true ≡ some set
    → IsValid set
unfolding create
create-IsValid max_size {set} h e =
    let empty : Ipset = record {
      buckets = λ i. [];
      bucket_count = ipset_buckets;
      entry_count = 0;
      max_size = max_size;
    } in
    let same : empty ≡ set = cc in
    subst IsValid same (record {
      width = refl;
      counted = sym (total-empty IpsetEntry ipset_buckets);
      bounded = omega arith;
      fits = h;
      placed = λ i. tt;
    })

Reach-IsValid : {set after : Ipset} → IsValid set → Reach set after → IsValid after
Reach-IsValid v here = v
Reach-IsValid v (next r step) = Step-IsValid step (Reach-IsValid v r)

-- Whatever is called on a set after its creation: the count is the number of entries and at
-- most `max_size`, and each entry stands in the bucket of its hash with a prefix of its family.
pub create-Reach-IsValid :
    (max_size : ℕ) {set after : Ipset}
    → max_size < 2 ^ 32
    → create max_size true true ≡ some set
    → Reach set after
    → IsValid after
create-Reach-IsValid max_size h e r = Reach-IsValid (create-IsValid max_size h e) r
