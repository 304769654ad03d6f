-- ===== src/Ipset/Cleanup.antt =====
-- `ipset_cleanup_expired` and `ipset_clear`, bucket by bucket.
use anti.Base.{
  ℕ, zero, suc, ◌+◌, ◌^◌, ◌≤◌, ◌<◌, ◌≡◌, refl, sym, ap, ◌∙◌, [], ◌∷◌, length, if◌then◌else◌, update,
  arith, Bool-cases, inl, inr, ltb, leb, sub32, ◌&&◌,
}
use anti.Ipset.{Chain, Ipset, expired, sweep, sweep_from, clear_from}
use anti.Ipset.Valid.Total.{total, total-update, length-le-total}

-- The entries of a chain that have not expired at `now`.
unfoldable pub live : ℕ → Chain → Chain
live now [] = []
live now (e ∷ c) = if expired now e then live now c else e ∷ live now c

pub length-live-le : (now : ℕ) (c : Chain) → length (live now c) ≤ length c
unfolding live
length-live-le now [] = omega arith
length-live-le now (e ∷ c) = ground (arith, length-live-le now c)

record Swept (now : ℕ) (c : Chain) (count cleaned : ℕ) (r : Chain × ℕ × ℕ) : Type 0 where
  kept : r.0 ≡ live now c
  counted : r.1 + length c ≡ count + length (live now c)
  reported : r.2 + length (live now c) ≡ cleaned + length c

sweep_lem :
    (now : ℕ) (c : Chain) (count cleaned : ℕ)
    → length c ≤ count
    → count < 2 ^ 32
    → Swept now c count cleaned (sweep now c count cleaned)
unfolding sweep live
sweep_lem now [] count cleaned h w = record { kept = refl; counted = refl; reported = refl }
sweep_lem now (e ∷ c) count cleaned h w = elim (Bool-cases (expired now e)) [
  | inl old ↦
      let ih = sweep_lem now c (sub32 count 1) (cleaned + 1) (omega arith) (omega arith) in
      let dropped : live now (e ∷ c) ≡ live now c = ground arith in
      let shorter = ap (λ (t : Chain). length t) dropped in
      rw (old, sweep)
        (record {
          kept = ih.kept ∙ sym dropped;
          counted = omega (arith, ih.counted);
          reported = omega (arith, ih.reported);
        })
  | inr fresh ↦
      let ih = sweep_lem now c count cleaned (omega arith) w in
      let same : live now (e ∷ c) ≡ e ∷ live now c = ground arith in
      let longer = ap (λ (t : Chain). length t) same in
      rw (fresh, sweep)
        (record {
          kept = ap (λ t. e ∷ t) ih.kept ∙ sym same;
          counted = omega (arith, ih.counted);
          reported = omega (arith, ih.reported);
        })
]

-- What the loop over the buckets `i .. i + left` leaves of a set with `n` buckets.
pub record Cleaned (now n left i : ℕ) (set : Ipset) (cleaned : ℕ) (r : Ipset × ℕ) : Type 0 where
  pub buckets :
      (j : ℕ)
      → r.0.buckets j
        ≡ (if leb i j && ltb j (i + left) then live now (set.buckets j) else set.buckets j)
  pub counted : r.0.entry_count + total n set.buckets ≡ set.entry_count + total n r.0.buckets
  pub reported : r.1 + r.0.entry_count ≡ cleaned + set.entry_count
  pub shrunk : r.0.entry_count ≤ set.entry_count
  pub same_width : r.0.bucket_count ≡ set.bucket_count
  pub same_max : r.0.max_size ≡ set.max_size

pub sweep_from_lem :
    (now n left i : ℕ) (set : Ipset) (cleaned : ℕ)
    → i + left ≤ n
    → total n set.buckets ≤ set.entry_count
    → set.entry_count < 2 ^ 32
    → Cleaned now n left i set cleaned (sweep_from now left i set cleaned)
unfolding sweep_from
sweep_from_lem now n zero i set cleaned h few w = record {
  buckets = λ j. ground arith;
  counted = refl;
  reported = refl;
  shrunk = omega arith;
  same_width = refl;
  same_max = refl;
}
sweep_from_lem now n (suc left) i set cleaned h few w =
    let r = sweep now (set.buckets i) set.entry_count cleaned in
    let one =
      sweep_lem now (set.buckets i) set.entry_count cleaned
        (omega (arith, length-le-total n set.buckets i)) w in
    let next : Ipset = record set { buckets = update set.buckets i r.0; entry_count = r.1 } in
    let moved = total-update n set.buckets i r.0 (omega arith) in
    let same = ap (λ (c : Chain). length c) one.kept in
    let ih =
      sweep_from_lem now n left (i + 1) next r.2 (omega arith) (omega arith)
        (omega (arith, length-live-le now (set.buckets i))) in
    record {
      buckets = λ j. ih.buckets j ∙ ground (arith, one.kept);
      counted = omega (arith, length-live-le now (set.buckets i));
      reported = omega (arith, length-live-le now (set.buckets i));
      shrunk = omega (arith, length-live-le now (set.buckets i));
      same_width = ih.same_width;
      same_max = ih.same_max;
    }

-- `ipset_clear` empties the buckets that it walks.
pub clear_from_lem :
    (left i : ℕ) (set : Ipset) (j : ℕ)
    → (clear_from left i set).buckets j
      ≡ (if leb i j && ltb j (i + left) then [] else set.buckets j)
unfolding clear_from
clear_from_lem zero i set j = ground arith
clear_from_lem (suc left) i set j =
    clear_from_lem left (i + 1) (record set { buckets = update set.buckets i [] }) j ∙ ground arith
