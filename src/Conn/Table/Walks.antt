-- ===== src/Conn/Table/Walks.antt =====
-- The walks of src/storage/hashtable.c over a chain find the same entry as long as the keys and the
-- links of the entries stay.
use anti.Base.{
  ℕ, zero, suc, ◌≤◌, ◌≡◌, refl, ap, sym, ◌∙◌, true, Option, none, some, arith, Bool-cases,
  Option-cases, inl, inr, ◌==◌, ◌⊎◌,
}
use anti.Conn.{ConnTuple}
use anti.Conn.Heap.{ConnEntry, Heap, done, load, after, read}
use anti.Conn.Reason.{Keeps}
use anti.Conn.Table.{HashTable, matches, bucket_of, walk, search_bucket, hashtable_lookup}

zero_or_suc : (n : ℕ) → (n ≡ 0) ⊎ ((m : ℕ) × (n ≡ suc m))
zero_or_suc zero = inl refl
zero_or_suc (suc m) = inr (m, refl)

-- A walk that ends leaves the heap, and has fuel.
pub walk_heap :
    {h end : Heap} {found : Option ℕ} (fuel : ℕ) (key : ConnTuple) (q : Option ℕ)
    → walk fuel key q h ≡ done found end
    → end ≡ h
unfolding walk load
walk_heap fuel key none e = cc e
walk_heap zero key (some q) e = absurd (cc e)
walk_heap {h = h} (suc fuel) key (some q) e = elim (Option-cases (h.cell q)) [
  | inl gone ↦ absurd (cc (rw (gone, walk, load, read, after) at e))
  | inr (entry, here) ↦ elim (Bool-cases (matches entry key)) [
    | inl same ↦ cc (rw (here, same, walk, load, read, after) at e)
    | inr other ↦ walk_heap fuel key entry.next (rw (here, other, walk, load, read, after) at e)
  ]
]

-- A lookup changes nothing.
pub lookup_heap :
    {h end : Heap} {found : Option ℕ} (ht : HashTable) (key : ConnTuple)
    → hashtable_lookup ht key h ≡ done found end
    → end ≡ h
unfolding hashtable_lookup search_bucket
lookup_heap {h = h} ht key found = elim (Bool-cases (ht.size == 0)) [
  | inl empty ↦ absurd (cc (rw (empty, hashtable_lookup, search_bucket) at found))
  | inr sized ↦
      walk_heap h.fresh key (ht.heads (bucket_of ht key))
        (rw (sized, hashtable_lookup, search_bucket) at found)
]

-- A lookup that finds an entry has fuel.
pub lookup_fuel :
    {h : Heap} (ht : HashTable) (key : ConnTuple) (p : ℕ)
    → hashtable_lookup ht key h ≡ done (some p) h
    → (n : ℕ) × (h.fresh ≡ suc n)
unfolding hashtable_lookup search_bucket walk
lookup_fuel {h = h} ht key p found = elim (Bool-cases (ht.size == 0)) [
  | inl empty ↦ absurd (cc (rw (empty, hashtable_lookup, search_bucket) at found))
  | inr sized ↦ elim (zero_or_suc h.fresh) [
    | inr fuel ↦ fuel
    | inl out ↦ elim (Option-cases (ht.heads (bucket_of ht key))) [
      | inl nothing ↦
          absurd (cc (rw (sized, nothing, hashtable_lookup, search_bucket, walk) at found))
      | inr (q, at_q) ↦
          absurd (cc (rw (sized, at_q, out, hashtable_lookup, search_bucket, walk) at found))
    ]
  ]
]

pub walk_kept :
    {h k end : Heap} {found : Option ℕ} (fuel more : ℕ) (key : ConnTuple) (q : Option ℕ)
    → Keeps h k
    → fuel ≤ more
    → walk fuel key q h ≡ done found end
    → walk more key q k ≡ done found k
unfolding walk load
walk_kept fuel more key none kept le e = cc e
walk_kept zero more key (some q) kept le e = absurd (cc e)
walk_kept (suc fuel) zero key (some q) kept le e = absurd (omega (arith, le))
walk_kept {h = h} (suc fuel) (suc more) key (some q) kept le e = elim (Option-cases (h.cell q)) [
  | inl gone ↦ absurd (cc (rw (gone, walk, load, read, after) at e))
  | inr (entry, here) ↦
      let there = kept.entries q entry here in
      elim (Bool-cases (matches entry key)) [
        | inl same ↦
            rw (there.here, there.tuple, same, walk, load, read, after)
              (cc (rw (here, same, walk, load, read, after) at e))
        | inr other ↦
            let rest =
              walk_kept fuel more key entry.next kept (omega (arith, le))
                (rw (here, other, walk, load, read, after) at e) in
            rw (there.here, there.tuple, other, there.next, walk, load, read, after) rest
      ]
]

-- A lookup is the same over every memory that keeps the entries.
pub lookup_kept :
    {h k : Heap} {found : Option ℕ} (ht : HashTable) (key : ConnTuple)
    → Keeps h k
    → hashtable_lookup ht key h ≡ done found h
    → hashtable_lookup ht key k ≡ done found k
unfolding hashtable_lookup search_bucket
lookup_kept {h = h} {k = k} ht key kept found = elim (Bool-cases (ht.size == 0)) [
  | inl empty ↦ absurd (cc (rw (empty, hashtable_lookup, search_bucket) at found))
  | inr sized ↦
      rw (sized, hashtable_lookup, search_bucket)
        (walk_kept h.fresh k.fresh key (ht.heads (bucket_of ht key)) kept kept.fresh
          (rw (sized, hashtable_lookup, search_bucket) at found))
]

walk_found :
    (h : Heap) {end : Heap} (fuel : ℕ) (key : ConnTuple) (q : Option ℕ) (p : ℕ)
    → walk fuel key q h ≡ done (some p) end
    → (e : ConnEntry) × (h.cell p ≡ some e) × (matches e key ≡ true)
unfolding walk load
walk_found h fuel key none p found = absurd (cc found)
walk_found h zero key (some q) p found = absurd (cc found)
walk_found h (suc fuel) key (some q) p found = elim (Option-cases (h.cell q)) [
  | inl gone ↦ absurd (cc (rw (gone, walk, load, read, after) at found))
  | inr (e, here) ↦ elim (Bool-cases (matches e key)) [
    | inl same ↦
        let at_q : q ≡ p = cc (rw (here, same, walk, load, read, after) at found) in
        (e, ap (λ i. h.cell i) (sym at_q) ∙ here, same)
    | inr other ↦
        walk_found h fuel key e.next p (rw (here, other, walk, load, read, after) at found)
  ]
]

-- What a lookup finds is for the key.
pub lookup_found :
    (h : Heap) {end : Heap} (ht : HashTable) (key : ConnTuple) (p : ℕ)
    → hashtable_lookup ht key h ≡ done (some p) end
    → (e : ConnEntry) × (h.cell p ≡ some e) × (matches e key ≡ true)
unfolding hashtable_lookup search_bucket
lookup_found h ht key p found = elim (Bool-cases (ht.size == 0)) [
  | inl empty ↦ absurd (cc (rw (empty, hashtable_lookup, search_bucket) at found))
  | inr sized ↦
      walk_found h h.fresh key (ht.heads (bucket_of ht key)) p
        (rw (sized, hashtable_lookup, search_bucket) at found)
]
