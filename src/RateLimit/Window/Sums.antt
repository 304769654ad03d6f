-- ===== src/RateLimit/Window/Sums.antt =====
-- The sums of a window after any adds in the order of time.
use anti.Base.{
  ℕ, zero, ◌+◌, ◌≤◌, ◌<◌, ◌^◌, ◌≡◌, refl, sym, ap, ◌∙◌, [], ◌∷◌, some, leb, if◌then◌else◌,
  get_elem?, replicate, length-replicate, ok, arith, true,
}
use mathlib.Core.Path.{subst}
use anti.RateLimit.Window.{
  SlidingWindow, sliding_window_create, sliding_window_add, sum_from, sliding_window_sum,
}
use anti.RateLimit.Window.Cells.{get_elem?-replicate, total-replicate, sum_from-total}
use anti.RateLimit.Window.History.{History, aged, recent, sum_all, recent-le}
use anti.RateLimit.Window.Shows.{slot, Shows, add-Shows}

-- What has happened to a window: its creation, and adds in the order of time.
pub data Traced (size : ℕ) : SlidingWindow → History → Type 0 where
  created :
      (now : ℕ) (sw : SlidingWindow)
      → sliding_window_create size true true now ≡ some sw
      → Traced size sw []
  added :
      (sw r : SlidingWindow) (h : History) (value now : ℕ)
      → Traced size sw h
      → sw.window_start ≤ now
      → sum_all h + value < 2 ^ 64
      → sliding_window_add sw value now ≡ ok r
      → Traced size r ((now, value) ∷ h)

created-Shows :
    (size now : ℕ) {sw : SlidingWindow}
    → 0 < size
    → size < 2 ^ 32
    → sliding_window_create size true true now ≡ some sw
    → (sw.size ≡ size) × Shows sw [] sw.window_start
unfolding sliding_window_create
created-Shows size now {sw} p q e =
    let made : record {
      buckets = replicate size zero;
      size = size;
      current_idx = 0;
      window_start = now;
    }
        ≡ sw =
      cc in
    rw (sym made) (
      refl,
      record {
        width = length-replicate size zero;
        positive = p;
        fits = q;
        inside = p;
        cells = λ k lt. unfold aged in get_elem?-replicate size (slot 0 size k) (ground arith);
        whole = unfold recent in total-replicate size;
        past = tt;
        room = unfold sum_all in omega arith;
      },
    )

Traced-Shows :
    {size : ℕ} {sw : SlidingWindow} {h : History}
    → 0 < size
    → size < 2 ^ 32
    → Traced size sw h
    → (sw.size ≡ size) × Shows sw h sw.window_start
Traced-Shows p q (created now sw e) = created-Shows _ now p q e
Traced-Shows {size} p q (added sw r h value now traced order room e) =
    let (same, shown) = Traced-Shows p q traced in
    let (t, f, kept, start, after) = add-Shows sw h value now shown order room in
    let one : t ≡ r = cc (e, f) in
    subst (λ u. (u.size ≡ size) × Shows u ((now, value) ∷ h) u.window_start) one
      (kept ∙ same, rw start after)

-- For a window of 1 to 2 ^ 32 - 1 seconds, with values of less than 2 ^ 64 in all, an add in the
-- order of time never leaves the buckets, and the window then starts at its second.
pub sliding_window_add-returns :
    {size : ℕ} {sw : SlidingWindow} {h : History} (value now : ℕ)
    → 0 < size
    → size < 2 ^ 32
    → Traced size sw h
    → sw.window_start ≤ now
    → sum_all h + value < 2 ^ 64
    → (r : SlidingWindow) × (sliding_window_add sw value now ≡ ok r) × (r.window_start ≡ now)
sliding_window_add-returns {sw = sw} {h = h} value now p q traced order room =
    let (same, shown) = Traced-Shows p q traced in
    let (r, e, kept, start, after) = add-Shows sw h value now shown order room in (r, e, start)

-- For a window of 1 to 2 ^ 32 - 1 seconds, with values of less than 2 ^ 64 in all, added in the order
-- of time: until `size` seconds after the last add, the sum is that of all values added in the `size`
-- seconds up to the last add; from then on it is 0.
pub sliding_window_sum-recent :
    {size : ℕ} {sw : SlidingWindow} {h : History} (now : ℕ)
    → 0 < size
    → size < 2 ^ 32
    → Traced size sw h
    → sliding_window_sum sw now
      ≡ ok (if leb (sw.window_start + size) now then 0 else recent h sw.window_start size)
unfolding sliding_window_sum
sliding_window_sum-recent {sw = sw} {h = h} now p q traced =
    let (same, shown) = Traced-Shows p q traced in
    let all : sum_from sw.buckets sw.size 0 0 ≡ ok (recent h sw.window_start sw.size) =
      ap (λ n. sum_from sw.buckets n 0 0) (sym shown.width)
      ∙ sum_from-total sw.buckets sw.buckets 0 0
          (λ j. ap (λ (t : ℕ). get_elem? sw.buckets t) (omega arith))
          (omega (arith, shown.whole, shown.room, recent-le h sw.window_start sw.size))
      ∙ ap ok (omega (arith, shown.whole)) in
    rw (sym same) (ground (arith, all))
