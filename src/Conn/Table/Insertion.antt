-- ===== src/Conn/Table/Insertion.antt =====
-- What `hashtable_lookup` of src/storage/hashtable.c finds once `hashtable_insert` has put a new
-- entry at the head of its bucket.
use anti.Base.{
  ℕ, suc, ◌+◌, ◌≡◌, refl, ap, ◌∙◌, ==_iff, true, false, Option, none, some, arith, Bool-cases, inl,
  inr, ◌==◌, ==_refl, update, u64,
}
use native.Mathlib.Nat.{le_refl}
use anti.Conn.{ConnTuple}
use anti.Conn.Heap.{ConnEntry, Heap, done, load, modify, after, read}
use anti.Conn.Reason.{Keeps}
use anti.Conn.Table.{
  HashTable, matches, bucket_of, walk, search_bucket, hashtable_lookup, hashtable_insert,
}
use anti.Conn.Table.Walks.{walk_kept}

-- The table with the entry at the head of its bucket.
abbrev pub added : HashTable → ConnTuple → ℕ → HashTable
added ht key p = record ht {
  heads = update ht.heads (bucket_of ht key) (some p);
  entries = u64 (ht.entries + 1);
}

pub hashtable_insert_new :
    (ht : HashTable) (key : ConnTuple) (p : ℕ) (h : Heap) (e : ConnEntry)
    → hashtable_lookup ht key h ≡ done none h
    → h.cell p ≡ some e
    → hashtable_insert ht key p h
      ≡ done (added ht key p) (record h {
        cell = update h.cell p (some (record e { next = ht.heads (bucket_of ht key) }));
      })
unfolding hashtable_insert hashtable_lookup modify
hashtable_insert_new ht key p h e missing here =
    let search : search_bucket ht key h ≡ done none h = missing in
    rw (search, hashtable_insert, after, here, modify, read) refl

module _ (h k : Heap) (ht : HashTable) (key : ConnTuple) (p : ℕ) (e : ConnEntry)
    (more : k.fresh ≡ suc h.fresh) (here : k.cell p ≡ some e) where
  at_head :
      (other : ConnTuple)
      → (ht.size == 0) ≡ false
      → hashtable_lookup (added ht key p) other k
        ≡ walk
            (suc h.fresh)
            other
            (update ht.heads (bucket_of ht key) (some p) (bucket_of ht other))
            k
  unfolding hashtable_lookup search_bucket bucket_of
  at_head other sized =
      rw (sized, hashtable_lookup, search_bucket)
        (ap (λ n. walk n other (update ht.heads (bucket_of ht key) (some p) (bucket_of ht other)) k)
          more)

  walk_step :
      (other : ConnTuple) (n : ℕ)
      → walk (suc n) other (some p) k
        ≡ (elim (matches e other) [ true ↦ done (some p) k | false ↦ walk n other e.next k ])
  unfolding walk load
  walk_step other n = rw (here, walk, load, read, after) refl

  pub lookup_new :
      (other : ConnTuple)
      → (ht.size == 0) ≡ false
      → bucket_of ht other ≡ bucket_of ht key
      → matches e other ≡ true
      → hashtable_lookup (added ht key p) other k ≡ done (some p) k
  lookup_new other sized same found =
      let head : update ht.heads (bucket_of ht key) (some p) (bucket_of ht other) ≡ some p =
        rw (same, ==_refl (bucket_of ht key)) refl in
      at_head other sized
      ∙ ap (λ q. walk (suc h.fresh) other q k) head
      ∙ walk_step other h.fresh
      ∙ ap (λ b. elim b [ true ↦ done (some p) k | false ↦ walk h.fresh other e.next k ]) found

  -- The other keys are found as before.
  pub lookup_old :
      {found : Option ℕ} (other : ConnTuple)
      → Keeps h k
      → e.next ≡ ht.heads (bucket_of ht key)
      → (bucket_of ht other ≡ bucket_of ht key → matches e other ≡ false)
      → hashtable_lookup ht other h ≡ done found h
      → hashtable_lookup (added ht key p) other k ≡ done found k
  unfolding hashtable_lookup search_bucket
  lookup_old {found = found} other kept link differ before = elim (Bool-cases (ht.size == 0)) [
    | inl empty ↦ absurd (cc (rw (empty, hashtable_lookup, search_bucket) at before))
    | inr sized ↦
        let old : walk h.fresh other (ht.heads (bucket_of ht other)) h ≡ done found h =
          rw (sized, hashtable_lookup, search_bucket) at before in
        at_head other sized ∙ elim (Bool-cases (bucket_of ht other == bucket_of ht key)) [
          | inl one ↦
              let same : bucket_of ht other ≡ bucket_of ht key = (==_iff _ _).0 one in
              rw (same, ==_refl (bucket_of ht key))
                (walk_step other h.fresh
                  ∙ ap
                      (λ b. elim b [ true ↦ done (some p) k | false ↦ walk h.fresh other e.next k ])
                      (differ same)
                  ∙ walk_kept {end = h} h.fresh h.fresh other e.next kept (le_refl _)
                      (rw (link, ← same) old))
          | inr two ↦ rw two (walk_kept h.fresh (suc h.fresh) other _ kept (omega arith) old)
        ]
  ]
