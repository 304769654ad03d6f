-- ===== src/Lru/Valid/Hit.antt =====
-- `lru_cache_get` and `lru_cache_update` of src/storage/lru_cache.c on an entry of the list.
use anti.Base.{
  ℕ, ◌≡◌, refl, sym, ap, ◌∙◌, Bool, false, success, Option, none, some, List, [], ◌∷◌, ◌++◌, ◌==◌,
  ==_iff, Bool-cases, inl, inr,
}
use anti.Conn.{ConnTuple}
use anti.Conn.Laws.{IsConnTuple, eq_of_compare}
use anti.Conn.Heap.{ConnEntry, Heap, Outcome, done, modify, after}
use anti.Conn.Reason.{Returns, Returns-after, Keeps-tuple}
use anti.Conn.Table.{hashtable_lookup}
use anti.Conn.Table.Walks.{lookup_found}
use anti.Lru.{LruCache, lru_move_to_head, lru_cache_get, lru_cache_update}
use anti.Lru.Calm.{Calm-trans, SameActivity, same_entry}
use anti.Lru.Distinct.{IsIn-middle, length-middle}
use anti.Lru.Links.{Cells, Segment, Written, modify-Returns}
use anti.Lru.Order.{IsOrder, Reordered, lru_move_to_head_lem}
use anti.Lru.Valid.{IsValid, IsValid-reordered, Frame-Calm}

-- `last_seen = now`.
abbrev pub seen : ℕ → ConnEntry → ConnEntry
seen now e = record e { last_seen = now }

-- A write to an entry that leaves its links in the list.
pub Segment-rewritten :
    (cell cell' : Cells) (p : ℕ) (e d : ConnEntry) (a : Option ℕ) (ps : List ℕ) (b : Option ℕ)
    → cell p ≡ some e
    → cell' p ≡ some d
    → d.lru_prev ≡ e.lru_prev
    → d.lru_next ≡ e.lru_next
    → ((q : ℕ) → (q == p) ≡ false → cell' q ≡ cell q)
    → Segment cell a ps b
    → Segment cell' a ps b
Segment-rewritten cell cell' p e d a [] b here new before after rest s = tt
Segment-rewritten cell cell' p e d a (q ∷ ps) b here new before after rest s = (
  elim (Bool-cases (q == p)) [
    | inl same ↦
        let eq : q ≡ p = (==_iff q p).0 same in
        let one : e ≡ s.0.entry = cc (sym here ∙ ap cell (sym eq) ∙ s.0.here) in
        record {
          entry = d;
          here = ap cell' eq ∙ new;
          prev = before ∙ ap (λ x. x.lru_prev) one ∙ s.0.prev;
          next = after ∙ ap (λ x. x.lru_next) one ∙ s.0.next;
        }
    | inr other ↦ record {
      entry = s.0.entry;
      here = rest q other ∙ s.0.here;
      prev = s.0.prev;
      next = s.0.next;
    }
  ],
  Segment-rewritten cell cell' p e d (some q) ps b here new before after rest s.1,
)

-- The entry `p` for the key is at the front of a valid cache, and has just been used; its state and
-- its counts are those of `start`.
pub record IsFront (cache : LruCache) (key : ConnTuple) (now p : ℕ) (others : List ℕ)
    (start : ConnEntry) (c : LruCache) (k : Heap) : Type 0 where
  pub capacity : c.max_size ≡ cache.max_size
  pub valid : IsValid c k (p ∷ others)
  pub entry : ConnEntry
  pub here : k.cell p ≡ some entry
  pub tuple : entry.tuple ≡ key
  pub last_seen : entry.last_seen ≡ now
  pub activity : SameActivity entry start

touch_lem :
    {A : Type 0} (Q : A → Heap → Type 0) (cache : LruCache) (h : Heap) (ps : List ℕ) (p : ℕ)
    (qs : List ℕ) (now : ℕ) (e : ConnEntry) (f : LruCache → Heap → Outcome A)
    → IsValid cache h (ps ++ p ∷ qs)
    → h.cell p ≡ some e
    → ((c : LruCache) (k : Heap) → IsFront cache e.tuple now p (ps ++ qs) e c k → Returns Q (f c k))
    → Returns Q
        (after (lru_move_to_head cache p h) (λ c k. after (modify p (seen now) k) (λ _ l. f c l)))
touch_lem Q cache h ps p qs now e f v here rest =
    Returns-after (Reordered cache h (p ∷ ps ++ qs)) _ (lru_move_to_head cache p h) _
      (lru_move_to_head_lem cache h ps p qs v.in_order)
      λ c k r.
        let n = r.0.links.0 in
        Returns-after (λ _ l. Written k p (seen now n.entry) l) _ (modify p (seen now) k) _
          (modify-Returns p (seen now) k n.entry n.here (
            λ d. (refl, refl),
            λ d. record { state = refl; first_seen = refl; packets = refl; bytes = refl },
          ))
          λ u l w.
            let o : IsOrder c l.cell (p ∷ ps ++ qs) = record {
              head = r.0.head;
              tail = r.0.tail;
              links =
                  Segment-rewritten k.cell l.cell p n.entry (seen now n.entry) none (p ∷ ps ++ qs)
                    none n.here w.1 refl refl (λ q other. w.2 q (other, tt)) r.0.links;
              distinct = r.0.distinct;
            } in
            rest c l (record {
              capacity = r.2.max_size;
              valid =
                  IsValid-reordered v (Frame-Calm (Calm-trans r.1 w.0)) r.2 o
                    (λ q. IsIn-middle q p ps qs) (length-middle p ps qs);
              entry = seen now n.entry;
              here = w.1;
              tuple = Keeps-tuple r.1.keeps here n.here;
              last_seen = refl;
              activity = (Calm-trans r.1 w.0).activity p (seen now n.entry) e w.1 here;
            })

-- A hit moves the entry to the front, whether or not memory is left.
pub lru_cache_get_hit :
    (cache : LruCache) (h : Heap) (key : ConnTuple) (now : ℕ) (granted : Bool) (ps : List ℕ) (p : ℕ)
    (qs : List ℕ) (e : ConnEntry)
    → IsValid cache h (ps ++ p ∷ qs)
    → IsConnTuple key
    → hashtable_lookup cache.table key h ≡ done (some p) h
    → h.cell p ≡ some e
    → Returns
        (λ r k. (r.0 ≡ some p) × IsFront cache key now p (ps ++ qs) e r.1 k)
        (lru_cache_get cache key now granted h)
unfolding lru_cache_get
lru_cache_get_hit cache h key now granted ps p qs e v t found here =
    let (d, there, same) = lookup_found h cache.table key p found in
    let one : d ≡ e = same_entry h.cell there here in
    let tuple = ap (λ x. x.tuple) (sym one) ∙ eq_of_compare (v.tuples p d there) t same in
    rw (found, lru_cache_get)
      (touch_lem _ cache h ps p qs now e _ v here λ c k x. (refl, rw⁻¹ tuple x))

-- On a valid cache, `lru_cache_update` of an entry of the list returns 0, moves the entry to the
-- front, the others in their order, stores the time, and leaves the cache valid.
pub lru_cache_update_lem :
    (cache : LruCache) (h : Heap) (now : ℕ) (ps : List ℕ) (p : ℕ) (qs : List ℕ) (e : ConnEntry)
    → IsValid cache h (ps ++ p ∷ qs)
    → h.cell p ≡ some e
    → Returns
        (λ r k. (r.0 ≡ success) × IsFront cache e.tuple now p (ps ++ qs) e r.1 k)
        (lru_cache_update cache p now h)
unfolding lru_cache_update
lru_cache_update_lem cache h now ps p qs e v here =
    touch_lem _ cache h ps p qs now e _ v here λ c k x. (refl, x)
