-- ===== src/Lru/Order.antt =====
-- The order of use that the links of src/storage/lru_cache.c keep: `link_head` and
-- `lru_move_to_head` on a list that is linked as its order says.
use anti.Base.{
  ℕ, if◌then◌else◌, ◌≡◌, refl, ap, ◌∙◌, true, false, ==_refl, Option, none, some, List, [], ◌∷◌,
  ◌++◌,
}
use anti.Conn.Heap.{ConnEntry, Heap, Outcome, load, modify, modify_if, after, read}
use anti.Conn.Reason.{Returns, Returns-after}
use anti.Lru.{LruCache, is_at, or_else, set_prev, set_next, link_head, bypass, lru_move_to_head}
use anti.Lru.Calm.{Calm, Calm-refl, Calm-trans}
use anti.Lru.Distinct.{
  other_way, Absent, Distinct, Apart-of_Absent, Apart-sym, AroundOf, AroundOf-Distinct,
  Distinct-append, Absent-append,
}
use anti.Lru.Links.{
  Cells, first_or, last_or, Node, Segment, Segment-split, Segment-join, Segment-frame, Node-frame,
  last_or-append, Written, modify-Returns, Relinked, relink_first, relink_last, Returns-weaken,
}

-- The list of the cache is `order`, the most recently used first.
pub record IsOrder (cache : LruCache) (cell : Cells) (order : List ℕ) : Type 0 where
  pub head : cache.head ≡ first_or order none
  pub tail : cache.tail ≡ last_or none order
  pub links : Segment cell none order none
  pub distinct : Distinct order

-- All but the two ends of the list.
pub record SameRest (c cache : LruCache) : Type 0 where
  pub table : c.table ≡ cache.table
  pub max_size : c.max_size ≡ cache.max_size
  pub current_size : c.current_size ≡ cache.current_size

or_else-last_or : (p q : ℕ) (ps : List ℕ) → or_else (last_or (some p) ps) q ≡ last_or (some p) ps
or_else-last_or p q [] = refl
or_else-last_or p q (r ∷ ps) = or_else-last_or r q ps

tail_of : (p : ℕ) (ps : List ℕ) → or_else (last_or none ps) p ≡ last_or (some p) ps
tail_of p [] = refl
tail_of p (q ∷ ps) = or_else-last_or q p ps

abbrev pub Reordered : LruCache → Heap → List ℕ → LruCache → Heap → Type 0
Reordered cache h order c k = IsOrder c k.cell order × Calm h k × SameRest c cache

-- The new entry is at the front, with the links of the front.
abbrev pub Fronted : LruCache → Heap → ℕ → ConnEntry → List ℕ → LruCache → Heap → Type 0
Fronted cache h p e order c k =
    Reordered cache h (p ∷ order) c k × (k.cell p ≡ some (set_prev none (set_next cache.head e)))

pub link_head_lem :
    (cache : LruCache) (h : Heap) (p : ℕ) (e : ConnEntry) (order : List ℕ)
    → IsOrder cache h.cell order
    → h.cell p ≡ some e
    → Absent p order
    → Returns (Fronted cache h p e order) (link_head cache p h)
unfolding link_head
link_head_lem cache h p e order o here new =
    let opens : ConnEntry → ConnEntry = λ d. set_prev none (set_next cache.head d) in
    Returns-after (λ _ k. Written h p (opens e) k) _ (modify p opens h) _
      (modify-Returns p opens h e here (
        λ e. (refl, refl),
        λ e. record { state = refl; first_seen = refl; packets = refl; bytes = refl },
      ))
      λ u k w.
        Returns-after (λ _ l. Relinked k (some p) order none l) _
          (modify_if cache.head (set_prev (some p)) k) _
          (rw (o.head) (
            relink_first k none (some p) order o.distinct
              (Segment-frame (p ∷ []) none order none w.2 (Apart-of_Absent p order new) o.links)))
          λ v l r. (
            (
              record {
                head = refl;
                tail = rw (o.tail) (tail_of p order);
                links = (
                  Node-frame {cell = k.cell} (r.2 p new)
                      (record { entry = opens e; here = w.1; prev = refl; next = o.head }),
                  r.1,
                );
                distinct = (new, o.distinct);
              },
              Calm-trans w.0 r.0,
              record { table = refl; max_size = refl; current_size = refl },
            ),
            r.2 p new ∙ w.1,
          )

pub load_then :
    {A : Type 0} (Q : A → Heap → Type 0) (p : ℕ) (h : Heap) (e : ConnEntry)
    (f : ConnEntry → Heap → Outcome A)
    → h.cell p ≡ some e
    → Returns Q (f e h)
    → Returns Q (after (load p h) f)
unfolding load
load_then Q p h e f here q = rw (here, load, read, after) q

relink_back :
    (h : Heap) (ps : List ℕ) (b b' : Option ℕ)
    → Distinct ps
    → Segment h.cell none ps b
    → Returns (λ _ k. Relinked h none ps b' k) (modify_if (last_or none ps) (set_next b') h)
unfolding modify_if
relink_back h [] b b' d s = (Calm-refl h, tt, λ q x. refl)
relink_back h (p ∷ ps) b b' d s = relink_last h none p ps b b' d s

-- The entry is out of the list, and keeps its own links.
abbrev pub Bypassed : Heap → List ℕ → ℕ → List ℕ → Heap → Type 0
Bypassed h ps p qs k =
    Calm h k
    × Segment k.cell none (ps ++ qs) none
    × Node k.cell p (last_or none ps) (first_or qs none)

bypass_lem :
    (h : Heap) (ps : List ℕ) (p : ℕ) (qs : List ℕ)
    → AroundOf ps p qs
    → Segment h.cell none (ps ++ p ∷ qs) none
    → Returns (λ _ k. Bypassed h ps p qs k) (bypass p h)
unfolding bypass
bypass_lem h ps p qs d s =
    let parts = Segment-split h.cell none ps (p ∷ qs) none s in
    let n = parts.1.0 in
    load_then _ p h n.entry _ n.here (
      Returns-after (λ _ k. Relinked h none ps (first_or qs none) k) _
        (modify_if n.entry.lru_prev (set_next n.entry.lru_next) h) _
        (rw (n.prev, n.next) (relink_back h ps (some p) (first_or qs none) d.before parts.0))
        λ u k r.
          let there = r.2 p d.not_before ∙ n.here in
          load_then _ p k n.entry _ there (
            Returns-weaken (λ _ l. Relinked k (last_or none ps) qs none l) _
              (modify_if n.entry.lru_next (set_prev n.entry.lru_prev) k)
              (λ v l t. (
                Calm-trans r.0 t.0,
                Segment-join l.cell none ps qs none
                    (Segment-frame qs none ps (first_or qs none) t.2 d.apart r.1) t.1,
                record {
                  entry = n.entry;
                  here = t.2 p d.not_behind ∙ there;
                  prev = n.prev;
                  next = n.next;
                },
              ))
              (rw (n.prev, n.next)
                (relink_first k (some p) (last_or none ps) qs d.behind
                  (Segment-frame ps (some p) qs none r.2 (Apart-sym ps qs d.apart) parts.1.1)))))

not_last : (p q : ℕ) (qs : List ℕ) → Absent p (q ∷ qs) → is_at (last_or (some q) qs) p ≡ false
not_last p q [] a = other_way p q a.0
not_last p q (r ∷ qs) a = not_last p r qs a.1

-- Where the list ends once the entry is out.
tail_without :
    (ps : List ℕ) (p : ℕ) (qs : List ℕ)
    → Absent p qs
    → (if is_at (last_or (some p) qs) p then last_or none ps else last_or (some p) qs)
      ≡ last_or none (ps ++ qs)
tail_without ps p [] a = rw (last_or-append none ps [], ==_refl p) refl
tail_without ps p (q ∷ qs) a = rw (last_or-append none ps (q ∷ qs), not_last p q qs a) refl

-- The entry goes to the front, and the others stay in their order.
pub lru_move_to_head_lem :
    (cache : LruCache) (h : Heap) (ps : List ℕ) (p : ℕ) (qs : List ℕ)
    → IsOrder cache h.cell (ps ++ p ∷ qs)
    → Returns (Reordered cache h (p ∷ ps ++ qs)) (lru_move_to_head cache p h)
unfolding lru_move_to_head
lru_move_to_head_lem cache h [] p qs o =
    let first : is_at cache.head p ≡ true = ap (λ x. is_at x p) o.head ∙ ==_refl p in
    rw (first, lru_move_to_head)
      (o, Calm-refl h, record { table = refl; max_size = refl; current_size = refl })
lru_move_to_head_lem cache h (q ∷ ps) p qs o =
    let d = AroundOf-Distinct (q ∷ ps) p qs o.distinct in
    let later : is_at cache.head p ≡ false =
      ap (λ x. is_at x p) o.head ∙ other_way p q d.not_before.0 in
    let last : cache.tail ≡ last_or (some p) qs = o.tail ∙ last_or-append none (q ∷ ps) (p ∷ qs) in
    rw (later, lru_move_to_head)
      (Returns-after (λ _ k. Bypassed h (q ∷ ps) p qs k) _ (bypass p h) _
        (bypass_lem h (q ∷ ps) p qs d o.links)
        λ u k b.
          let n = b.2 in
          let c : LruCache = record cache {
            tail = if is_at cache.tail p then n.entry.lru_prev else cache.tail;
          } in
          let short : IsOrder c k.cell ((q ∷ ps) ++ qs) = record {
            head = o.head;
            tail = rw (last, n.prev) (tail_without (q ∷ ps) p qs d.not_behind);
            links = b.1;
            distinct = Distinct-append (q ∷ ps) qs d.before d.behind d.apart;
          } in
          load_then _ p k n.entry _ n.here (
            Returns-weaken (Fronted c k p n.entry ((q ∷ ps) ++ qs)) _ (link_head c p k)
              (λ r l x. (
                x.0.0,
                Calm-trans b.0 x.0.1,
                record {
                  table = x.0.2.table;
                  max_size = x.0.2.max_size;
                  current_size = x.0.2.current_size;
                },
              ))
              (link_head_lem c k p n.entry ((q ∷ ps) ++ qs) short n.here
                (Absent-append p (q ∷ ps) qs d.not_before d.not_behind))))
