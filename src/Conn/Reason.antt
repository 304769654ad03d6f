-- ===== src/Conn/Reason.antt =====
-- What is known of a run over the entries: at its end, or unless it goes wild.
use anti.Base.{
  ◌≡◌, refl, ap, sym, ◌∙◌, ◌+◌, ◌≤◌, ◌==◌, ℕ, Option, some, none, update, arith, Bool-cases,
  Option-cases, inl, inr,
}
use anti.Conn.Heap.{
  ConnEntry, Heap, Outcome, done, wild, unfinished, M, after, load, modify, modify_if,
}
use native.Mathlib.Nat.{le_refl, le_trans}

-- `P` holds at the end of the run, and the run ends.
abbrev pub Returns : {A : Type 0} → (A → Heap → Type 0) → Outcome A → Type 0
Returns P (done a h) = P a h
Returns P wild = ⊥
Returns P unfinished = ⊥

-- The run goes wild, or ends in `P`.
abbrev pub Risks : {A : Type 0} → (A → Heap → Type 0) → Outcome A → Type 0
Risks P (done a h) = P a h
Risks P wild = Unit
Risks P unfinished = ⊥

pub Returns-after :
    {A B : Type 0} (P : A → Heap → Type 0) (Q : B → Heap → Type 0) (r : Outcome A) (f : A → M B)
    → Returns P r
    → ((a : A) (h : Heap) → P a h → Returns Q (f a h))
    → Returns Q (after r f)
Returns-after P Q (done a h) f p rest = rest a h p
Returns-after P Q wild f p rest = p
Returns-after P Q unfinished f p rest = p

pub Risks-after :
    {A B : Type 0} (P : A → Heap → Type 0) (Q : B → Heap → Type 0) (r : Outcome A) (f : A → M B)
    → Risks P r
    → ((a : A) (h : Heap) → P a h → Risks Q (f a h))
    → Risks Q (after r f)
Risks-after P Q (done a h) f p rest = rest a h p
Risks-after P Q wild f p rest = tt
Risks-after P Q unfinished f p rest = p

pub Risks-of_Returns :
    {A : Type 0} (P : A → Heap → Type 0) (r : Outcome A) → Returns P r → Risks P r
Risks-of_Returns P (done a h) p = p
Risks-of_Returns P wild p = tt
Risks-of_Returns P unfinished p = p

pub wild-after :
    {A B : Type 0} (P : A → Heap → Type 0) (r : Outcome A) (f : A → M B)
    → Risks P r
    → ((a : A) (h : Heap) → P a h → f a h ≡ wild)
    → after r f ≡ wild
wild-after P (done a h) f p rest = rest a h p
wild-after P wild f p rest = refl
wild-after P unfinished f p rest = absurd p

-- Every entry of `h` is in `k`, with the same key and the same link of its chain.
pub record KeepsEntry (e : ConnEntry) (cell : ℕ → Option ConnEntry) (p : ℕ) : Type 0 where
  pub entry : ConnEntry
  pub here : cell p ≡ some entry
  pub tuple : entry.tuple ≡ e.tuple
  pub next : entry.next ≡ e.next

pub record Keeps (h k : Heap) : Type 0 where
  pub entries : (p : ℕ) (e : ConnEntry) → h.cell p ≡ some e → KeepsEntry e k.cell p
  pub fresh : h.fresh ≤ k.fresh

pub Keeps-refl : (h : Heap) → Keeps h h
Keeps-refl h = record {
  entries = λ p e here. record { entry = e; here = here; tuple = refl; next = refl };
  fresh = le_refl _;
}

pub Keeps-trans : {h k l : Heap} → Keeps h k → Keeps k l → Keeps h l
Keeps-trans a b = record {
  entries = λ p e here.
      let x = a.entries p e here in
      let y = b.entries p x.entry x.here in
      record {
        entry = y.entry;
        here = y.here;
        tuple = cc (x.tuple, y.tuple);
        next = cc (x.next, y.next);
      };
  fresh = le_trans a.fresh b.fresh;
}

pub Keeps-tuple :
    {h k : Heap} {p : ℕ} {e d : ConnEntry}
    → Keeps h k
    → h.cell p ≡ some e
    → k.cell p ≡ some d
    → d.tuple ≡ e.tuple
Keeps-tuple {d = d} kept here there =
    let x = kept.entries _ _ here in
    let unique : d ≡ x.entry = cc (sym there ∙ x.here) in cc (unique, x.tuple)

-- A write that leaves the key and the link of the chain.
abbrev pub Mild : (ConnEntry → ConnEntry) → Type 0
Mild f = (e : ConnEntry) → ((f e).tuple ≡ e.tuple) × ((f e).next ≡ e.next)

pub update-Keeps :
    (p : ℕ) (h : Heap) (e new : ConnEntry)
    → h.cell p ≡ some e
    → new.tuple ≡ e.tuple
    → new.next ≡ e.next
    → Keeps h (record h { cell = update h.cell p (some new) })
update-Keeps p h e new here t n = record {
  entries = λ q d there. elim (Bool-cases (q == p)) [
    | inl same ↦
        let eq : q ≡ p = ground arith in
        let d_is_e : some d ≡ some e = sym there ∙ ap (λ i. h.cell i) eq ∙ here in
        let unique : d ≡ e = cc d_is_e in
        record { entry = new; here = rw same; tuple = cc (t, unique); next = cc (n, unique) }
    | inr other ↦ record { entry = d; here = rw (other, there); tuple = refl; next = refl }
  ];
  fresh = le_refl _;
}

-- A write to a pointer that `h` has not allocated.
pub write_new-Keeps :
    {h k : Heap} (q : ℕ) (e : ConnEntry)
    → h.cell q ≡ none
    → Keeps h k
    → Keeps h (record k { cell = update k.cell q (some e) })
write_new-Keeps {h = h} q e new kept = record {
  entries = λ p d here.
      let x = kept.entries p d here in
      elim (Bool-cases (p == q)) [
        | inl same ↦
            let eq : p ≡ q = ground arith in absurd (cc (sym here ∙ ap (λ i. h.cell i) eq ∙ new))
        | inr other ↦ record {
          entry = x.entry;
          here = rw (other, x.here);
          tuple = x.tuple;
          next = x.next;
        }
      ];
  fresh = kept.fresh;
}

pub calloc-Keeps :
    (h : Heap) (e : ConnEntry)
    → h.cell h.fresh ≡ none
    → Keeps h (record { cell = update h.cell h.fresh (some e); fresh = h.fresh + 1 })
calloc-Keeps h e new = record {
  entries = (write_new-Keeps h.fresh e new (Keeps-refl h)).entries;
  fresh = omega arith;
}

module _ {h k : Heap} (kept : Keeps h k) where
  pub load-Risks : (p : ℕ) → Risks (λ e l. Keeps h l × (l.cell p ≡ some e)) (load p k)
  unfolding load
  load-Risks p = elim (Option-cases (k.cell p)) [
    | inl gone ↦ rw (gone, load) tt
    | inr (e, here) ↦ rw (here, load) (kept, here)
  ]

  modify-Risks :
      (p : ℕ) (f : ConnEntry → ConnEntry) → Mild f → Risks (λ _ l. Keeps h l) (modify p f k)
  unfolding modify
  modify-Risks p f mild = elim (Option-cases (k.cell p)) [
    | inl gone ↦ rw (gone, modify) tt
    | inr (e, here) ↦
        rw (here, modify) (Keeps-trans kept (update-Keeps p k e (f e) here (mild e).0 (mild e).1))
  ]

  pub modify_if-Risks :
      (q : Option ℕ) (f : ConnEntry → ConnEntry)
      → Mild f
      → Risks (λ _ l. Keeps h l) (modify_if q f k)
  unfolding modify_if
  modify_if-Risks none f mild = kept
  modify_if-Risks (some p) f mild = modify-Risks p f mild

  pub modify_new-Risks :
      (q : ℕ) (f : ConnEntry → ConnEntry)
      → h.cell q ≡ none
      → Risks (λ _ l. Keeps h l) (modify q f k)
  unfolding modify
  modify_new-Risks q f new = elim (Option-cases (k.cell q)) [
    | inl gone ↦ rw (gone, modify) tt
    | inr (e, here) ↦ rw (here, modify) (write_new-Keeps q (f e) new kept)
  ]
