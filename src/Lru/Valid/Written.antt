-- ===== src/Lru/Valid/Written.antt =====
-- A write to an entry of a valid cache that leaves its key and all its links, as the detectors write.
use anti.Base.{
  ℕ, ◌≡◌, refl, sym, ap, ◌∙◌, some, none, List, ◌==◌, ==_iff, ==_refl, Bool-cases, inl, inr, update,
}
use anti.Conn.Heap.{ConnEntry, Heap, done}
use anti.Conn.Reason.{update-Keeps}
use anti.Conn.Table.{hashtable_lookup}
use anti.Lru.{LruCache}
use anti.Lru.Distinct.{IsIn}
use anti.Lru.Calm.{same_entry}
use anti.Lru.Order.{IsOrder}
use anti.Lru.Valid.{IsValid, IsValid-reordered, Frame}
use anti.Lru.Valid.Hit.{Segment-rewritten}

abbrev pub written : Heap → ℕ → ConnEntry → Heap
written h p e = record h { cell = update h.cell p (some e) }

pub record SameLinks (d e : ConnEntry) : Type 0 where
  pub tuple : d.tuple ≡ e.tuple
  pub next : d.next ≡ e.next
  pub lru_prev : d.lru_prev ≡ e.lru_prev
  pub lru_next : d.lru_next ≡ e.lru_next

module _ {h : Heap} (p : ℕ) (e d : ConnEntry) (here : h.cell p ≡ some e)
    (same : SameLinks d e) where
  written-Frame : Frame h (written h p d)
  written-Frame = record {
    keeps = update-Keeps p h e d here same.tuple same.next;
    same_fresh = refl;
    nothing_new = λ q gone. elim (Bool-cases (q == p)) [
      | inl one ↦ absurd (cc (sym gone ∙ ap (λ i. h.cell i) ((==_iff q p).0 one) ∙ here))
      | inr other ↦ rw (other, gone) refl
    ];
  }

  pub written-IsValid :
      {cache : LruCache} {order : List ℕ}
      → IsValid cache h order
      → IsValid cache (written h p d) order
  written-IsValid {cache = cache} {order = order} v =
      let o : IsOrder cache (written h p d).cell order = record {
        head = v.in_order.head;
        tail = v.in_order.tail;
        links =
            Segment-rewritten h.cell (written h p d).cell p e d none order none here
              (rw (==_refl p) refl) same.lru_prev same.lru_next (λ q other. rw other refl)
              v.in_order.links;
        distinct = v.in_order.distinct;
      } in
      IsValid-reordered v written-Frame
        (record { table = refl; max_size = refl; current_size = refl }) o (λ q. (λ i. i, λ i. i))
        refl

-- The table finds an entry of the list by its key.
pub listed_here :
    {cache : LruCache} {h : Heap} {order : List ℕ} {p : ℕ} {e : ConnEntry}
    → IsValid cache h order
    → IsIn p order
    → h.cell p ≡ some e
    → hashtable_lookup cache.table e.tuple h ≡ done (some p) h
listed_here {h = h} v there here =
    let l = v.listed _ there in rw (same_entry h.cell here l.here) l.found
