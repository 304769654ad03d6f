-- ===== src/RateLimit/Window.antt =====
-- The sliding window of src/filter/ratelimit.c: one bucket per second. A write or a read outside
-- the buckets is a fault, as is a remainder by zero.
pub mod Cells
pub mod History
pub mod Shows
pub mod Sums
use anti.Base.{
  ℕ, zero, suc, ◌+◌, ◌-◌, ◌*◌, ◌%◌, Bool, ◌&&◌, List, [], ◌∷◌, Option, none, some, ltb, leb, ◌==◌,
  if◌then◌else◌, length, get_elem?, set, replicate, u32, u64, Run, ok, fault, deref, ◌>>=◌,
}

pub record SlidingWindow : Type 0 where
  pub buckets : List ℕ
  pub size : ℕ
  pub current_idx : ℕ
  pub window_start : ℕ

-- Two allocations: the window, then its buckets.
unfoldable pub sliding_window_create : ℕ → Bool → Bool → ℕ → Option SlidingWindow
sliding_window_create window_size granted buckets_granted now =
    if granted && buckets_granted
    then some (record {
      buckets = replicate window_size 0;
      size = window_size;
      current_idx = 0;
      window_start = now;
    })
    else none

-- `buckets[i] = value`.
unfoldable pub store : List ℕ → ℕ → ℕ → Run (List ℕ)
store xs i value = if ltb i (length xs) then ok (set xs i value) else fault

-- `buckets[i] += value`.
unfoldable pub accumulate : List ℕ → ℕ → ℕ → Run (List ℕ)
unfolding store
accumulate xs i value = do old ← deref (get_elem? xs i); store xs i (u64 (old + value))

-- The loop that clears the buckets of the seconds that passed.
unfoldable pub advance : ℕ → SlidingWindow → Run SlidingWindow
unfolding store
advance zero sw = ok sw
advance (suc left) sw =
    if sw.size == 0
    then fault
    else (let idx = u32 (sw.current_idx + 1) % sw.size in
        do
          cleared ← store sw.buckets idx 0
          advance left (record sw { current_idx = idx; buckets = cleared }))

unfoldable pub sliding_window_add : SlidingWindow → ℕ → ℕ → Run SlidingWindow
unfolding store accumulate advance
sliding_window_add sw value now =
    if leb (sw.window_start + sw.size) now
    then (do
      cells ← store (replicate sw.size 0) 0 value
      ok (record sw { buckets = cells; current_idx = 0; window_start = now }))
    else if ltb sw.window_start now
    then (do
      moved ← advance (now - sw.window_start) sw
      cells ← accumulate moved.buckets moved.current_idx value
      ok (record moved { buckets = cells; window_start = now }))
    else (do cells ← accumulate sw.buckets sw.current_idx value; ok (record sw { buckets = cells }))

-- The loop over the buckets from `i`, with `left` of them to go.
unfoldable pub sum_from : List ℕ → ℕ → ℕ → ℕ → Run ℕ
sum_from xs zero i sum = ok sum
sum_from xs (suc left) i sum = do
  cell ← deref (get_elem? xs i)
  sum_from xs left (i + 1) (u64 (sum + cell))

unfoldable pub sliding_window_sum : SlidingWindow → ℕ → Run ℕ
unfolding sum_from
sliding_window_sum sw now =
    if leb (sw.window_start + sw.size) now then ok 0 else sum_from sw.buckets sw.size 0 0
