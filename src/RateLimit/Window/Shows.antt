-- ===== src/RateLimit/Window/Shows.antt =====
-- The window and its history: how each operation keeps the two in step.
use anti.Base.{
  ℕ, zero, suc, ◌+◌, ◌-◌, ◌%◌, ◌≤◌, ◌<◌, ◌^◌, ◌≡◌, refl, sym, ap, ◌∙◌, List, ◌∷◌, some, ltb, leb,
  ◌==◌, if◌then◌else◌, length, get_elem?, set, replicate, length-set, length-replicate, u32, u64,
  ok, arith, Bool-cases, inl, inr, true, false,
}
use mathlib.Core.Path.{subst}
use anti.RateLimit.Window.{SlidingWindow, store, accumulate, advance, sliding_window_add}
use anti.RateLimit.Window.Cells.{
  total, get_elem?-set, total-set, get_elem?-replicate, total-replicate, next_index,
}
use anti.RateLimit.Window.History.{
  History, aged, recent, sum_all, AllBy, AllBy-mono, aged-le, aged-new, recent-new, aged-suc,
  recent-suc,
}

-- The bucket of the second that lies `k` before the current one.
abbrev pub slot : ℕ → ℕ → ℕ → ℕ
slot idx size k = if leb k idx then idx - k else idx + size - k

-- The window shows the history as it stands at second `s`.
pub record Shows (sw : SlidingWindow) (h : History) (s : ℕ) : Type 0 where
  pub width : length sw.buckets ≡ sw.size
  pub positive : 0 < sw.size
  pub fits : sw.size < 2 ^ 32
  pub inside : sw.current_idx < sw.size
  pub cells :
      (k : ℕ)
      → k < sw.size
      → get_elem? sw.buckets (slot sw.current_idx sw.size k) ≡ some (aged h s k)
  pub whole : total sw.buckets ≡ recent h s sw.size
  pub past : AllBy s h
  pub room : sum_all h < 2 ^ 64

-- One turn of the loop of `sliding_window_add`.
tick : SlidingWindow → SlidingWindow
tick sw =
    let idx = u32 (sw.current_idx + 1) % sw.size in
    record sw { current_idx = idx; buckets = set sw.buckets idx 0 }

tick-Shows : (sw : SlidingWindow) (h : History) (s : ℕ) → Shows sw h s → Shows (tick sw) h (s + 1)
unfolding tick
tick-Shows sw h s v =
    let n = sw.size in
    let i = sw.current_idx in
    let next = if i + 1 == n then zero else i + 1 in
    let e = next_index i n v.inside v.fits in
    let inside : next < n = ground (arith, v.inside, v.positive) in
    let last : slot i n (n - 1) ≡ next = ground (arith, v.inside, v.positive) in
    let oldest : get_elem? sw.buckets next ≡ some (aged h s (n - 1)) =
      ap (λ (t : ℕ). get_elem? sw.buckets t) (sym last)
      ∙ v.cells (n - 1) (omega (arith, v.positive)) in
    let width : length (set sw.buckets next 0) ≡ n = length-set sw.buckets next 0 ∙ v.width in
    rw e (record {
      width = width;
      positive = v.positive;
      fits = v.fits;
      inside = inside;
      cells = λ k lt. elim (Bool-cases (k == 0)) [
        | inl z ↦
            let k0 : k ≡ 0 = ground arith in
            let here : slot next n k ≡ next = ground arith in
            let gone : aged h (s + 1) k ≡ 0 = rw k0 (aged-new h s (s + 1) 0 v.past (omega arith)) in
            rw (here, get_elem?-set sw.buckets next 0 next (omega (arith, v.width, inside)), gone)
              (ground arith)
        | inr z ↦
            let back : slot next n k ≡ slot i n (k - 1) = ground (arith, v.inside) in
            let away : (slot i n (k - 1) == next) ≡ false = ground (arith, v.inside) in
            let older : aged h (s + 1) k ≡ aged h s (k - 1) =
              ap (aged h (s + 1)) (let k1 : k ≡ k - 1 + 1 = ground arith in k1)
              ∙ aged-suc h s (k - 1) in
            rw
              (
                back,
                get_elem?-set sw.buckets next 0 (slot i n (k - 1)) (omega (arith, v.width, inside)),
                away,
                older,
              )
              (v.cells (k - 1) (omega arith))
      ];
      whole = omega (
        arith,
        total-set sw.buckets next 0 oldest,
        v.whole,
        recent-suc h s (n - 1),
        ap (recent h s) (let n1 : n - 1 + 1 ≡ n = omega (arith, v.positive) in n1),
        ap (recent h (s + 1)) (let n1 : n - 1 + 1 ≡ n = omega (arith, v.positive) in n1),
      );
      past = AllBy-mono s (s + 1) h (omega arith) v.past;
      room = v.room;
    })

advance-Shows :
    (left : ℕ) (sw : SlidingWindow) (h : History) (s : ℕ)
    → Shows sw h s
    → (r : SlidingWindow) × (advance left sw ≡ ok r) × (r.size ≡ sw.size) × Shows r h (s + left)
unfolding advance store tick
advance-Shows zero sw h s v = (sw, refl, refl, rw (let e : s + 0 ≡ s = omega arith in e) v)
advance-Shows (suc left) sw h s v =
    let one = tick-Shows sw h s v in
    let (r, e, same, shown) = advance-Shows left (tick sw) h (s + 1) one in
    let nonzero : (sw.size == 0) ≡ false = ground (arith, v.positive) in
    let idx = u32 (sw.current_idx + 1) % sw.size in
    let held : ltb idx (length sw.buckets) ≡ true = ground (arith, one.inside, v.width) in
    (
      r,
      rw (nonzero, advance, store, held) e,
      same,
      subst (Shows r h) (let t : s + 1 + left ≡ s + suc left = omega arith in t) shown,
    )

-- The window with an event of the current second put into its bucket.
accumulate-Shows :
    (sw : SlidingWindow) (h : History) (s value : ℕ)
    → Shows sw h s
    → sum_all h + value < 2 ^ 64
    → (c : List ℕ) × (accumulate sw.buckets sw.current_idx value ≡ ok c)
      × Shows (record sw { buckets = c }) ((s, value) ∷ h) s
unfolding accumulate store
accumulate-Shows sw h s value v room =
    let i = sw.current_idx in
    let n = sw.size in
    let old = aged h s 0 in
    let now_slot : slot i n 0 ≡ i = ground arith in
    let current : get_elem? sw.buckets i ≡ some old =
      ap (λ (t : ℕ). get_elem? sw.buckets t) (sym now_slot) ∙ v.cells 0 v.positive in
    let small : u64 (old + value) ≡ old + value = omega (arith, aged-le h s 0) in
    let held : ltb i (length sw.buckets) ≡ true = ground (arith, v.inside, v.width) in
    (
      set sw.buckets i (old + value),
      rw (current, small, held),
      record {
        width = length-set sw.buckets i (old + value) ∙ v.width;
        positive = v.positive;
        fits = v.fits;
        inside = v.inside;
        cells = λ k lt. elim (Bool-cases (k == 0)) [
          | inl z ↦
              let k0 : k ≡ 0 = ground arith in
              let here : slot i n k ≡ i = ground arith in
              rw
                (
                  here,
                  get_elem?-set sw.buckets i (old + value) i (omega (arith, v.width, v.inside)),
                  k0,
                )
                (unfold aged in ground arith)
          | inr z ↦
              let away : (slot i n k == i) ≡ false = ground (arith, v.inside) in
              rw
                (
                  get_elem?-set sw.buckets i (old + value) (slot i n k)
                      (omega (arith, v.width, v.inside)),
                  away,
                  v.cells k lt,
                )
                (unfold aged in ground arith)
        ];
        whole =
            unfold recent in
            ground (arith, total-set sw.buckets i (old + value) current, v.whole, v.positive);
        past = (omega arith, v.past);
        room = unfold sum_all in omega arith;
      },
    )

-- A window whose seconds have all passed, cleared and given one event.
cleared-Shows :
    (sw : SlidingWindow) (h : History) (s value now : ℕ)
    → Shows sw h s
    → sum_all h + value < 2 ^ 64
    → s + sw.size ≤ now
    → Shows
        (record sw {
          buckets = set (replicate sw.size zero) 0 value;
          current_idx = 0;
          window_start = now;
        })
        ((now, value) ∷ h)
        now
cleared-Shows sw h s value now v room late =
    let n = sw.size in
    let long : length (replicate n zero) ≡ n = length-replicate n zero in
    let first = get_elem?-replicate n 0 v.positive in
    record {
      width = length-set (replicate n zero) 0 value ∙ long;
      positive = v.positive;
      fits = v.fits;
      inside = v.positive;
      cells = λ k lt.
          let none_old : aged h now k ≡ 0 = aged-new h s now k v.past (omega arith) in
          rw
            (get_elem?-set (replicate n zero) 0 value (slot 0 n k)
              (omega (arith, long, v.positive)))
            (elim (Bool-cases (k == 0)) [
              | inl z ↦ unfold aged in ground arith
              | inr z ↦
                  let cell = get_elem?-replicate n (slot 0 n k) (ground arith) in
                  unfold aged in ground arith
            ]);
      whole =
          unfold recent in
          ground (
            arith,
            total-set (replicate n zero) 0 value first,
            total-replicate n,
            recent-new h s now n v.past late,
            v.positive,
          );
      past = (omega arith, AllBy-mono s now h (omega arith) v.past);
      room = unfold sum_all in omega arith;
    }

restart :
    (sw : SlidingWindow) (h : History) (s start : ℕ)
    → Shows sw h s
    → Shows (record sw { window_start = start }) h s
restart sw h s start v = record {
  width = v.width;
  positive = v.positive;
  fits = v.fits;
  inside = v.inside;
  cells = v.cells;
  whole = v.whole;
  past = v.past;
  room = v.room;
}

-- An add in the order of time ends without a fault, and the window shows the event as well.
pub add-Shows :
    (sw : SlidingWindow) (h : History) (value now : ℕ)
    → Shows sw h sw.window_start
    → sw.window_start ≤ now
    → sum_all h + value < 2 ^ 64
    → (r : SlidingWindow) × (sliding_window_add sw value now ≡ ok r)
      × (r.size ≡ sw.size)
      × (r.window_start ≡ now)
      × Shows r ((now, value) ∷ h) now
unfolding sliding_window_add store
add-Shows sw h value now v order room = elim (Bool-cases (leb (sw.window_start + sw.size) now)) [
  | inl late ↦
      let held : ltb 0 (length (replicate sw.size zero)) ≡ true =
        ground (arith, length-replicate sw.size zero, v.positive) in
      (
        _,
        rw (late, sliding_window_add, store, held),
        refl,
        refl,
        cleared-Shows sw h sw.window_start value now v room (ground arith),
      )
  | inr soon ↦ elim (Bool-cases (ltb sw.window_start now)) [
    | inl further ↦
        let (m, e, same, shown) = advance-Shows (now - sw.window_start) sw h sw.window_start v in
        let at_now : Shows m h now =
          subst (Shows m h)
            (let t : sw.window_start + (now - sw.window_start) ≡ now = omega arith in t) shown in
        let (c, f, full) = accumulate-Shows m h now value at_now room in
        (
          record m { buckets = c; window_start = now },
          rw (soon, further, e, f),
          same,
          refl,
          restart _ _ now now full,
        )
    | inr still ↦
        let t : sw.window_start ≡ now = ground arith in
        let (c, f, full) = accumulate-Shows sw h sw.window_start value v room in
        (
          record sw { buckets = c },
          rw (soon, still, f),
          refl,
          t,
          subst (λ u. Shows (record sw { buckets = c }) ((u, value) ∷ h) u) t full,
        )
  ]
]
