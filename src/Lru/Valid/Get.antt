-- ===== src/Lru/Valid/Get.antt =====
-- What `lru_cache_get` of src/storage/lru_cache.c does with a valid cache.
use anti.Base.{
  ℕ, ◌+◌, ◌<◌, ◌≡◌, refl, true, false, Option, none, some, List, [], ◌∷◌, ==_refl, inl, inr, update,
  arith, leb, u32,
}
use anti.Conn.{ConnTuple}
use anti.Conn.Laws.{IsConnTuple}
use anti.Conn.Heap.{ConnEntry, Heap, Outcome, done, modify, after, read, zeroed, calloc}
use anti.Conn.Reason.{Returns, Returns-after}
use anti.Conn.Table.{HashTable, bucket_of, hashtable_lookup}
use anti.Conn.Table.Walks.{lookup_kept}
use anti.Conn.Table.Insertion.{added, hashtable_insert_new}
use anti.Lru.{LruCache, set_prev, set_next, opened, make_room, admit, link_head, lru_cache_get}
use anti.Lru.Distinct.{Absent, Apart-of_Absent}
use anti.Lru.Links.{Segment-frame}
use anti.Lru.Order.{IsOrder, Reordered, Fronted, link_head_lem}
use anti.Lru.Valid.{IsValid, IsListed-kept, tuples-kept, Frame-Calm}
use anti.Lru.Valid.Hit.{IsFront}
use anti.Lru.Valid.Admission.{
  IsNew, IsNew-Keeps, IsNew-write, Segment-Absent, new-Answers, new-IsListed, new-tuples,
  new-beyond,
}

-- The entry as it stands in the table.
abbrev entered : HashTable → ConnTuple → ℕ → ConnEntry
entered table key now = record (opened key now zeroed) { next = table.heads (bucket_of table key) }

module _ {cache : LruCache} {h : Heap} {order : List ℕ} (key : ConnTuple) (now : ℕ)
    (v : IsValid cache h order) (t : IsConnTuple key)
    (missing : hashtable_lookup cache.table key h ≡ done none h)
    (room : cache.current_size < cache.max_size) where
  gone : h.cell h.fresh ≡ none
  gone = v.beyond h.fresh (omega arith)

  absent : Absent h.fresh order
  absent = Segment-Absent h.cell h.fresh none order none gone v.in_order.links

  valid_lem :
      (k l : Heap) (c : LruCache)
      → IsNew h (entered cache.table key now) k
      → Reordered (record cache { table = added cache.table key h.fresh }) k (h.fresh ∷ order) c l
      → IsValid (record c { current_size = u32 (c.current_size + 1) }) l (h.fresh ∷ order)
  valid_lem k l c a r =
      let kept = r.1.keeps in
      record {
        in_order = record {
          head = r.0.head;
          tail = r.0.tail;
          links = r.0.links;
          distinct = r.0.distinct;
        };
        answers = λ other o.
            rw (r.2.table) (elim (new-Answers key v t missing a refl refl other o) [
              | inl nothing ↦ inl (lookup_kept (added cache.table key h.fresh) other kept nothing)
              | inr (p, there, found) ↦
                  inr (p, there, lookup_kept (added cache.table key h.fresh) other kept found)
            ]);
        listed = λ p there.
            rw (r.2.table) (IsListed-kept kept (new-IsListed key v t missing a refl refl p there));
        tuples = tuples-kept (Frame-Calm r.1) (new-tuples key v t missing a refl refl);
        beyond = λ p above. r.1.nothing_new p (
            new-beyond key v t missing a refl refl p
              (omega (arith, above, r.1.same_fresh, a.fresh)));
        counted = omega (arith, v.counted, r.2.current_size, room, v.wide);
        bounded = omega (arith, r.2.current_size, r.2.max_size, room, v.wide);
        nonzero = omega (arith, r.2.max_size, room);
        wide = omega (arith, r.2.max_size, v.wide);
      }

  linked_lem :
      (k : Heap)
      → IsNew h (entered cache.table key now) k
      → Returns {A = Option ℕ × LruCache}
          (λ r l.
            (r.0 ≡ some h.fresh)
            × IsFront cache key now h.fresh order (opened key now zeroed) r.1 l)
          (after
            (link_head (record cache { table = added cache.table key h.fresh }) h.fresh k)
            (λ c l. done (some h.fresh, record c { current_size = u32 (c.current_size + 1) }) l))
  linked_lem k a =
      let c₀ : LruCache = record cache { table = added cache.table key h.fresh } in
      let o : IsOrder c₀ k.cell order = record {
        head = v.in_order.head;
        tail = v.in_order.tail;
        links =
            Segment-frame (h.fresh ∷ []) none order none a.others
              (Apart-of_Absent h.fresh order absent) v.in_order.links;
        distinct = v.in_order.distinct;
      } in
      Returns-after (Fronted c₀ k h.fresh (entered cache.table key now) order) _
        (link_head c₀ h.fresh k) _
        (link_head_lem c₀ k h.fresh (entered cache.table key now) order o a.here absent)
        λ c l r. (
          refl,
          record {
            capacity = r.0.2.max_size;
            valid = valid_lem k l c a r.0;
            entry = set_prev none (set_next cache.head (entered cache.table key now));
            here = r.1;
            tuple = refl;
            last_seen = refl;
            activity = record { state = refl; first_seen = refl; packets = refl; bytes = refl };
          },
        )

  modify_then :
      {A : Type 0} (Q : A → Heap → Type 0) (p : ℕ) (g : ConnEntry → ConnEntry) (k : Heap)
      (e : ConnEntry) (f : Heap → Outcome A)
      → k.cell p ≡ some e
      → Returns Q (f (record k { cell = update k.cell p (some (g e)) }))
      → Returns Q (after (modify p g k) (λ _ l. f l))
  unfolding modify
  modify_then Q p g k e f here q = rw (here, modify, read, after) q

  make_room_roomy : (k : Heap) → make_room cache k ≡ done cache k
  unfolding make_room
  make_room_roomy k =
      let not_full : leb cache.max_size cache.current_size ≡ false = ground (arith, room) in
      rw (not_full, make_room) refl

  admit_lem :
      (k : Heap)
      → IsNew h zeroed k
      → Returns
          (λ r l.
            (r.0 ≡ some h.fresh)
            × IsFront cache key now h.fresh order (opened key now zeroed) r.1 l)
          (admit cache key now h.fresh k)
  unfolding admit
  admit_lem k a =
      let g = opened key now in
      let k₂ : Heap = record k { cell = update k.cell h.fresh (some (g zeroed)) } in
      let a₂ : IsNew h (g zeroed) k₂ = IsNew-write g a in
      let insertion =
        hashtable_insert_new cache.table key h.fresh k₂ (g zeroed)
          (lookup_kept cache.table key (IsNew-Keeps gone a₂) missing) a₂.here in
      modify_then _ h.fresh g k zeroed _ a.here (
        rw (make_room_roomy k₂, after, insertion)
          (linked_lem
            (record k₂ { cell = update k₂.cell h.fresh (some (entered cache.table key now)) })
            (IsNew-write (λ e. record e { next = cache.table.heads (bucket_of cache.table key) })
              a₂)))

  pub lru_cache_get_miss :
      Returns
        (λ r l.
          (r.0 ≡ some h.fresh) × IsFront cache key now h.fresh order (opened key now zeroed) r.1 l)
        (lru_cache_get cache key now true h)
  unfolding lru_cache_get calloc
  lru_cache_get_miss =
      rw (missing, lru_cache_get)
        (admit_lem (record { cell = update h.cell h.fresh (some zeroed); fresh = h.fresh + 1 })
          (record {
            here = rw (==_refl h.fresh) refl;
            others = λ q x. rw (x.0) refl;
            fresh = omega arith;
          }))
