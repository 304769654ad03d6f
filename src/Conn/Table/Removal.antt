-- ===== src/Conn/Table/Removal.antt =====
-- `hashtable_remove` of src/storage/hashtable.c frees the entry that a lookup finds.
use anti.Base.{
  ℕ, zero, suc, ◌≤◌, ◌≡◌, refl, Option, none, some, arith, Bool-cases, Option-cases, inl, inr, ◌==◌,
  ==_refl, success, u64, ◌+◌, ◌-◌, ◌^◌, ℤ,
}
use anti.Conn.{ConnTuple}
use anti.Conn.Heap.{ConnEntry, Heap, done, wild, load, modify, free, after, read}
use anti.Conn.Reason.{Risks, Risks-after, Keeps, Keeps-refl, load-Risks}
use anti.Conn.Table.{
  HashTable, matches, bucket_of, walk, walk_pair, search_bucket, hashtable_lookup, hashtable_remove,
  unlink,
}

pub walk-walk_pair :
    {h k end : Heap} (fuel more : ℕ) (key : ConnTuple) (q prev : Option ℕ) (p : ℕ)
    → Keeps h k
    → fuel ≤ more
    → walk fuel key q h ≡ done (some p) end
    → (before : Option ℕ) × (walk_pair more key prev q k ≡ done (some (before, p)) k)
unfolding walk load walk_pair
walk-walk_pair fuel more key none prev p kept le found = absurd (cc found)
walk-walk_pair zero more key (some q) prev p kept le found = absurd (cc found)
walk-walk_pair (suc fuel) zero key (some q) prev p kept le found = absurd (omega (arith, le))
walk-walk_pair {h = h} (suc fuel) (suc more) key (some q) prev p kept le found =
    elim (Option-cases (h.cell q)) [
      | inl gone ↦ absurd (cc (rw (gone, walk, load, read, after) at found))
      | inr (e, here) ↦
          let there = kept.entries q e here in
          elim (Bool-cases (matches e key)) [
            | inl same ↦ (
              prev,
              rw (there.here, there.tuple, same, walk_pair, load, read, after)
                  (cc (rw (here, same, walk, load, read, after) at found)),
            )
            | inr other ↦
                let rest =
                  walk-walk_pair fuel more key e.next (some q) p kept (omega (arith, le))
                    (rw (here, other, walk, load, read, after) at found) in
                (
                  rest.0,
                  rw (there.here, there.tuple, other, there.next, walk_pair, load, read, after)
                      rest.1,
                )
          ]
    ]

pub free-Risks : (p : ℕ) (h : Heap) → Risks (λ _ k. k.cell p ≡ none) (free p h)
unfolding free
free-Risks p h = elim (Option-cases (h.cell p)) [
  | inl gone ↦ rw (gone, free) tt
  | inr (e, here) ↦ rw (here, free, ==_refl p) refl
]

pub free_gone : (p : ℕ) (h : Heap) → h.cell p ≡ none → free p h ≡ wild
unfolding free
free_gone p h gone = rw (gone, free) refl

unlink-Risks :
    (ht : HashTable) (idx : ℕ) (before : Option ℕ) (e : ConnEntry) (k : Heap)
    → Risks (λ _ _. Unit) (unlink ht idx before e k)
unfolding unlink modify
unlink-Risks ht idx none e k = tt
unlink-Risks ht idx (some q) e k = elim (Option-cases (k.cell q)) [
  | inl gone ↦ rw (gone, unlink, modify) tt
  | inr (d, here) ↦ rw (here, unlink, modify) tt
]

drop_found :
    (ht : HashTable) (idx : ℕ) (before : Option ℕ) (p : ℕ) (k : Heap)
    → Risks {A = ℤ × HashTable}
        (λ _ l. l.cell p ≡ none)
        (after (load p k) (λ e k₁. after (unlink ht idx before e k₁) (λ t k₂.
          after
            (free p k₂)
            (λ _ k₃. done (success, record t { entries = u64 (t.entries + 2 ^ 64 - 1) }) k₃))))
drop_found ht idx before p k = Risks-after _ _ (load p k) _ (load-Risks (Keeps-refl k) p) λ e k₁ a.
    Risks-after (λ _ _. Unit) _ (unlink ht idx before e k₁) _ (unlink-Risks ht idx before e k₁)
      λ t k₂ b.
        Risks-after (λ _ l. l.cell p ≡ none) _ (free p k₂) _ (free-Risks p k₂) λ u k₃ gone. gone

-- What a lookup finds, the removal frees.
pub hashtable_remove-Risks :
    {h k end : Heap} (ht : HashTable) (key : ConnTuple) (p : ℕ)
    → Keeps h k
    → hashtable_lookup ht key h ≡ done (some p) end
    → Risks (λ _ l. l.cell p ≡ none) (hashtable_remove ht key k)
unfolding hashtable_lookup search_bucket hashtable_remove
hashtable_remove-Risks {h = h} {k = k} ht key p kept found = elim (Bool-cases (ht.size == 0)) [
  | inl empty ↦ absurd (cc (rw (empty, hashtable_lookup, search_bucket) at found))
  | inr sized ↦
      let pair =
        walk-walk_pair h.fresh k.fresh key (ht.heads (bucket_of ht key)) none p kept kept.fresh
          (rw (sized, hashtable_lookup, search_bucket) at found) in
      rw (sized, pair.1, hashtable_remove) (drop_found ht (bucket_of ht key) pair.0 p k)
]
