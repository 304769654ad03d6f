-- ===== src/Conn/Table/Foreach.antt =====
-- `hashtable_foreach` of src/storage/hashtable.c. The callback gets the entry and `user_data`, here a
-- state that it hands on, and stops the walk by a result other than 0.
use anti.Base.{ℕ, zero, suc, ◌+◌, Option, none, some, ℤ, pos, failure, is_zero, true, false}
use anti.Conn.Heap.{done, unfinished, M, after, load}
use anti.Conn.Table.{HashTable}

-- Where a walk ends: at the end of the entries with their count, or at the callback's result.
pub data Walked (S : Type 0) : Type 0 where
  finished : ℕ → S → Walked S
  stopped : ℤ → S → Walked S

module _ {S : Type 0} (callback : ℕ → S → M (ℤ × S)) where
  -- The loop over a chain.
  unfoldable pub foreach_chain : ℕ → Option ℕ → ℕ → S → M (Walked S)
  unfolding load
  foreach_chain fuel none count s h = done (finished count s) h
  foreach_chain zero (some p) count s h = unfinished
  foreach_chain (suc fuel) (some p) count s h = after (callback p s h) (λ (ret, s₁) h₁.
      elim (is_zero ret) [
        | true ↦ after (load p h₁) (λ e h₂. foreach_chain fuel e.next (count + 1) s₁ h₂)
        | false ↦ done (stopped ret s₁) h₁
      ])

  -- The loop over the buckets from `i`, with `left` of them to go.
  unfoldable pub foreach_buckets : ℕ → ℕ → HashTable → ℕ → S → M (Walked S)
  unfolding foreach_chain
  foreach_buckets zero i ht count s h = done (finished count s) h
  foreach_buckets (suc left) i ht count s h =
      after (foreach_chain h.fresh (ht.heads i) count s h) (λ w h₁. elim w [
        | finished n s₁ ↦ foreach_buckets left (i + 1) ht n s₁ h₁
        | stopped ret s₁ ↦ done (stopped ret s₁) h₁
      ])

  abbrev result : Walked S → ℤ × S
  result (finished n s) = (pos n, s)
  result (stopped ret s) = (ret, s)

  unfoldable pub hashtable_foreach : Option HashTable → S → M (ℤ × S)
  unfolding foreach_buckets
  hashtable_foreach none s h = done (failure, s) h
  hashtable_foreach (some ht) s h =
      after (foreach_buckets ht.size 0 ht 0 s h) (λ w h₁. done (result w) h₁)
