-- ===== src/Lru/Valid/Admission.antt =====
-- `lru_cache_get` of src/storage/lru_cache.c on a key that the table does not have, while the cache
-- has room.
use anti.Base.{
  ℕ, suc, ◌≤◌, ◌≡◌, refl, sym, ap, ◌∙◌, true, false, Option, none, some, List, [], ◌∷◌, ◌==◌,
  ==_refl, ==_iff, Bool-cases, inl, inr, update, arith,
}
use anti.Conn.{ConnTuple}
use anti.Conn.Laws.{IsConnTuple, eq_of_compare, compare_self}
use anti.Conn.Heap.{ConnEntry, Heap, done}
use anti.Conn.Reason.{Keeps}
use anti.Conn.Table.{matches, bucket_of, search_bucket, hashtable_lookup}
use anti.Conn.Table.Insertion.{added, lookup_new, lookup_old}
use anti.Lru.{LruCache}
use anti.Lru.Distinct.{Absent, IsIn}
use anti.Lru.DoubleFree.{IsListed}
use anti.Lru.Links.{Cells, Segment, Touched}
use anti.Lru.Valid.{IsValid, Answers}

-- The new entry is the only change.
pub record IsNew (h : Heap) (e : ConnEntry) (k : Heap) : Type 0 where
  pub here : k.cell h.fresh ≡ some e
  pub others : Touched h.cell k.cell (h.fresh ∷ [])
  pub fresh : k.fresh ≡ suc h.fresh

pub Segment-Absent :
    (cell : Cells) (q : ℕ) (a : Option ℕ) (ps : List ℕ) (b : Option ℕ)
    → cell q ≡ none
    → Segment cell a ps b
    → Absent q ps
Segment-Absent cell q a [] b gone s = tt
Segment-Absent cell q a (p ∷ ps) b gone s = (
  elim (Bool-cases (q == p)) [
    | inl same ↦ absurd (cc (sym gone ∙ ap cell ((==_iff q p).0 same) ∙ s.0.here))
    | inr other ↦ other
  ],
  Segment-Absent cell q (some p) ps b gone s.1,
)

pub IsNew-Keeps : {h k : Heap} {e : ConnEntry} → h.cell h.fresh ≡ none → IsNew h e k → Keeps h k
IsNew-Keeps {h = h} gone a = record {
  entries = λ q d here. elim (Bool-cases (q == h.fresh)) [
    | inl same ↦
        absurd (cc (sym gone ∙ ap (λ i. h.cell i) (sym ((==_iff q h.fresh).0 same)) ∙ here))
    | inr other ↦ record {
      entry = d;
      here = a.others q (other, tt) ∙ here;
      tuple = refl;
      next = refl;
    }
  ];
  fresh = omega (arith, a.fresh);
}

-- A write to the new entry leaves it the only change.
pub IsNew-write :
    {h k : Heap} {e : ConnEntry} (f : ConnEntry → ConnEntry)
    → IsNew h e k
    → IsNew h (f e) (record k { cell = update k.cell h.fresh (some (f e)) })
IsNew-write {h = h} f a = record {
  here = rw (==_refl h.fresh) refl;
  others = λ q x. rw (x.0) (a.others q x);
  fresh = a.fresh;
}

module _ {cache : LruCache} {h : Heap} {order : List ℕ} {k : Heap} {e : ConnEntry} (key : ConnTuple)
    (v : IsValid cache h order) (t : IsConnTuple key)
    (missing : hashtable_lookup cache.table key h ≡ done none h) (a : IsNew h e k)
    (tuple : e.tuple ≡ key) (link : e.next ≡ cache.table.heads (bucket_of cache.table key)) where
  kept : Keeps h k
  kept = IsNew-Keeps (v.beyond h.fresh (omega arith)) a

  sized : (cache.table.size == 0) ≡ false
  unfolding hashtable_lookup search_bucket
  sized = elim (Bool-cases (cache.table.size == 0)) [
    | inl empty ↦ absurd (cc (rw (empty, hashtable_lookup, search_bucket) at missing))
    | inr nonempty ↦ nonempty
  ]

  key_of : (other : ConnTuple) → IsConnTuple other → matches e other ≡ true → key ≡ other
  key_of other o same = sym tuple ∙ eq_of_compare (rw tuple t) o same

  own : hashtable_lookup (added cache.table key h.fresh) key k ≡ done (some h.fresh) k
  own =
      lookup_new h k cache.table key h.fresh e a.fresh a.here key sized refl
        (rw tuple (compare_self key t))

  still :
      {found : Option ℕ} (other : ConnTuple)
      → matches e other ≡ false
      → hashtable_lookup cache.table other h ≡ done found h
      → hashtable_lookup (added cache.table key h.fresh) other k ≡ done found k
  still other differ =
      lookup_old h k cache.table key h.fresh e a.fresh a.here other kept link (λ _. differ)

  pub new-Answers :
      (other : ConnTuple)
      → IsConnTuple other
      → Answers (added cache.table key h.fresh) k (h.fresh ∷ order) other
  new-Answers other o = elim (Bool-cases (matches e other)) [
    | inl same ↦ inr (h.fresh, inl refl, rw⁻¹ (key_of other o same) own)
    | inr differ ↦ elim (v.answers other o) [
      | inl nothing ↦ inl (still other differ nothing)
      | inr (p, there, found) ↦ inr (p, inr there, still other differ found)
    ]
  ]

  pub new-IsListed :
      (p : ℕ) → IsIn p (h.fresh ∷ order) → IsListed (added cache.table key h.fresh) k p
  new-IsListed p (inl eq) = rw eq (record { entry = e; here = a.here; found = rw tuple own })
  new-IsListed p (inr there) =
      let l = v.listed p there in
      let x = kept.entries p l.entry l.here in
      elim (Bool-cases (matches e l.entry.tuple)) [
        | inl same ↦
            let eq = key_of l.entry.tuple (v.tuples p l.entry l.here) same in
            let clash : hashtable_lookup cache.table key h ≡ done (some p) h = rw eq l.found in
            absurd (cc (sym missing ∙ clash))
        | inr differ ↦ record {
          entry = x.entry;
          here = x.here;
          found = rw x.tuple (still l.entry.tuple differ l.found);
        }
      ]

  pub new-tuples : (p : ℕ) (d : ConnEntry) → k.cell p ≡ some d → IsConnTuple d.tuple
  new-tuples p d here = elim (Bool-cases (p == h.fresh)) [
    | inl same ↦
        let eq : d ≡ e = cc (sym here ∙ ap (λ i. k.cell i) ((==_iff p h.fresh).0 same) ∙ a.here) in
        rw (eq, tuple) t
    | inr other ↦ v.tuples p d (sym (a.others p (other, tt)) ∙ here)
  ]

  pub new-beyond : (p : ℕ) → suc h.fresh ≤ p → k.cell p ≡ none
  new-beyond p above = a.others p (ground arith, tt) ∙ v.beyond p (omega arith)
