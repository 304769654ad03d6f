-- ===== src/Lru/Links.antt =====
-- Runs of entries linked in both directions, as the list of src/storage/lru_cache.c links them, and
-- the writes of one link at an end of a run.
use anti.Base.{
  ℕ, ◌≡◌, refl, sym, ap, ◌∙◌, ◌==◌, ==_refl, Option, none, some, List, [], ◌∷◌, ◌++◌, arith, inl,
  inr, Bool-cases,
}
use anti.Conn.Heap.{ConnEntry, Heap, Outcome, done, wild, unfinished, modify, modify_if}
use anti.Conn.Reason.{Returns, update-Keeps}
use anti.Lru.{set_prev, set_next}
use anti.Lru.Calm.{Calm, Calm-refl, Gentle, same_entry, SameActivity-self}
use anti.Lru.Distinct.{Absent, Distinct, Apart, Apart-of_Absent}

abbrev pub Cells : Type 0
Cells = ℕ → Option ConnEntry

abbrev pub first_or : List ℕ → Option ℕ → Option ℕ
first_or [] b = b
first_or (p ∷ ps) b = some p

abbrev pub last_or : Option ℕ → List ℕ → Option ℕ
last_or a [] = a
last_or a (p ∷ ps) = last_or (some p) ps

pub record Node (cell : Cells) (p : ℕ) (a b : Option ℕ) : Type 0 where
  pub entry : ConnEntry
  pub here : cell p ≡ some entry
  pub prev : entry.lru_prev ≡ a
  pub next : entry.lru_next ≡ b

-- The entries of a run, between `a` and `b`.
abbrev pub Segment : Cells → Option ℕ → List ℕ → Option ℕ → Type 0
Segment cell a [] b = Unit
Segment cell a (p ∷ ps) b = Node cell p a (first_or ps b) × Segment cell (some p) ps b

pub first_or-append :
    (ps qs : List ℕ) (b : Option ℕ) → first_or (ps ++ qs) b ≡ first_or ps (first_or qs b)
first_or-append [] qs b = refl
first_or-append (p ∷ ps) qs b = refl

pub last_or-append :
    (a : Option ℕ) (ps qs : List ℕ) → last_or a (ps ++ qs) ≡ last_or (last_or a ps) qs
last_or-append a [] qs = refl
last_or-append a (p ∷ ps) qs = last_or-append (some p) ps qs

pub Segment-split :
    (cell : Cells) (a : Option ℕ) (ps qs : List ℕ) (b : Option ℕ)
    → Segment cell a (ps ++ qs) b
    → Segment cell a ps (first_or qs b) × Segment cell (last_or a ps) qs b
Segment-split cell a [] qs b s = (tt, s)
Segment-split cell a (p ∷ ps) qs b s =
    let rest = Segment-split cell (some p) ps qs b s.1 in
    ((rw⁻¹ (first_or-append ps qs b) s.0, rest.0), rest.1)

pub Segment-join :
    (cell : Cells) (a : Option ℕ) (ps qs : List ℕ) (b : Option ℕ)
    → Segment cell a ps (first_or qs b)
    → Segment cell (last_or a ps) qs b
    → Segment cell a (ps ++ qs) b
Segment-join cell a [] qs b s t = t
Segment-join cell a (p ∷ ps) qs b s t =
    (rw (first_or-append ps qs b) s.0, Segment-join cell (some p) ps qs b s.1 t)

-- Only cells of the list have changed.
abbrev pub Touched : Cells → Cells → List ℕ → Type 0
Touched cell cell' qs = (p : ℕ) → Absent p qs → cell' p ≡ cell p

pub Node-frame :
    {cell cell' : Cells} {p : ℕ} {a b : Option ℕ}
    → cell' p ≡ cell p
    → Node cell p a b
    → Node cell' p a b
Node-frame same n = record { entry = n.entry; here = same ∙ n.here; prev = n.prev; next = n.next }

pub Segment-frame :
    {cell cell' : Cells} (qs : List ℕ) (a : Option ℕ) (ps : List ℕ) (b : Option ℕ)
    → Touched cell cell' qs
    → Apart ps qs
    → Segment cell a ps b
    → Segment cell' a ps b
Segment-frame qs a [] b t d s = tt
Segment-frame qs a (p ∷ ps) b t d s =
    (Node-frame (t p d.0) s.0, Segment-frame qs (some p) ps b t d.1 s.1)

-- A write to an entry that is there.
abbrev pub Written : Heap → ℕ → ConnEntry → Heap → Type 0
Written h p e k = Calm h k × (k.cell p ≡ some e) × Touched h.cell k.cell (p ∷ [])

pub modify-Returns :
    (p : ℕ) (f : ConnEntry → ConnEntry) (h : Heap) (e : ConnEntry)
    → h.cell p ≡ some e
    → Gentle f
    → Returns (λ _ k. Written h p (f e) k) (modify p f h)
unfolding modify
modify-Returns p f h e here mild =
    rw (here, modify)
      (
        record {
          keeps = update-Keeps p h e (f e) here (mild.0 e).0 (mild.0 e).1;
          same_fresh = refl;
          nothing_new = λ q gone. elim (Bool-cases (q == p)) [
            | inl same ↦
                let eq : q ≡ p = ground arith in
                absurd (cc (sym gone ∙ ap (λ i. h.cell i) eq ∙ here))
            | inr other ↦ rw (other, gone) refl
          ];
          activity = λ q d c there before. elim (Bool-cases (q == p)) [
            | inl same ↦
                let eq : q ≡ p = ground arith in
                let old : c ≡ e = cc (sym before ∙ ap (λ i. h.cell i) eq ∙ here) in
                let now : some (f e) ≡ some d = rw same at there in
                let new : d ≡ f e = cc now in rw (new, old) (mild.1 e)
            | inr other ↦ SameActivity-self (same_entry h.cell (rw other at there) before)
          ];
        },
        rw (==_refl p) refl,
        λ q a. rw a.0 refl,
      )

pub Returns-weaken :
    {A : Type 0} (P Q : A → Heap → Type 0) (r : Outcome A)
    → ((a : A) (k : Heap) → P a k → Q a k)
    → Returns P r
    → Returns Q r
Returns-weaken P Q (done a k) f p = f a k p
Returns-weaken P Q wild f p = p
Returns-weaken P Q unfinished f p = p

-- The run `qs` is linked as told, and nothing else has changed.
abbrev pub Relinked : Heap → Option ℕ → List ℕ → Option ℕ → Heap → Type 0
Relinked h a qs b k = Calm h k × Segment k.cell a qs b × Touched h.cell k.cell qs

Touched-more :
    {cell cell' : Cells} (p : ℕ) (qs : List ℕ) → Touched cell cell' qs → Touched cell cell' (p ∷ qs)
Touched-more p qs t q a = t q a.1

-- The link to the run from what comes after it.
pub relink_last :
    (h : Heap) (a : Option ℕ) (p : ℕ) (ps : List ℕ) (b b' : Option ℕ)
    → Distinct (p ∷ ps)
    → Segment h.cell a (p ∷ ps) b
    → Returns (λ _ k. Relinked h a (p ∷ ps) b' k) (modify_if (last_or (some p) ps) (set_next b') h)
unfolding modify_if
relink_last h a p [] b b' d s =
    Returns-weaken (λ _ k. Written h p (set_next b' s.0.entry) k) _ (modify p (set_next b') h)
      (λ u k w. (
        w.0,
        (record { entry = set_next b' s.0.entry; here = w.1; prev = s.0.prev; next = refl }, tt),
        w.2,
      ))
      (modify-Returns p (set_next b') h s.0.entry s.0.here (
        λ e. (refl, refl),
        λ e. record { state = refl; first_seen = refl; packets = refl; bytes = refl },
      ))
relink_last h a p (q ∷ ps) b b' d s =
    Returns-weaken (λ _ k. Relinked h (some p) (q ∷ ps) b' k) _
      (modify_if (last_or (some q) ps) (set_next b') h)
      (λ u k r. (r.0, (Node-frame (r.2 p d.0) s.0, r.1), Touched-more p (q ∷ ps) r.2))
      (relink_last h (some p) q ps b b' d.1 s.1)

-- The link to the run from what comes before it.
pub relink_first :
    (h : Heap) (a a' : Option ℕ) (ps : List ℕ)
    → Distinct ps
    → Segment h.cell a ps none
    → Returns (λ _ k. Relinked h a' ps none k) (modify_if (first_or ps none) (set_prev a') h)
unfolding modify_if
relink_first h a a' [] d s = (Calm-refl h, tt, λ q x. refl)
relink_first h a a' (p ∷ ps) d s =
    Returns-weaken (λ _ k. Written h p (set_prev a' s.0.entry) k) _ (modify p (set_prev a') h)
      (λ u k w. (
        w.0,
        (
          record { entry = set_prev a' s.0.entry; here = w.1; prev = refl; next = s.0.next },
          Segment-frame (p ∷ []) (some p) ps none w.2 (Apart-of_Absent p ps d.0) s.1,
        ),
        λ q x. w.2 q (x.0, tt),
      ))
      (modify-Returns p (set_prev a') h s.0.entry s.0.here (
        λ e. (refl, refl),
        λ e. record { state = refl; first_seen = refl; packets = refl; bytes = refl },
      ))
