-- ===== src/Lru/Valid.antt =====
-- The state that the operations of src/storage/lru_cache.c keep: a list linked in the order of use,
-- and a table that finds each entry of the list by its key and nothing else.
pub mod Get
pub mod Outcomes
pub mod Sequence
pub mod Hit
pub mod Written
pub mod Admission
use anti.Base.{
  ℕ, ◌+◌, ◌≤◌, ◌<◌, ◌^◌, ◌≡◌, ◌↔◌, refl, sym, ap, ◌∙◌, ◌⊎◌, inl, inr, Option, none, some, List, [],
  ◌∷◌, ◌++◌, length, Option-cases, arith, suc,
}
use anti.Conn.{ConnTuple}
use anti.Conn.Laws.{IsConnTuple}
use anti.Conn.Heap.{ConnEntry, Heap, Outcome, done}
use anti.Conn.Reason.{Keeps, Keeps-tuple}
use anti.Conn.Table.{HashTable, hashtable_lookup}
use anti.Conn.Table.Walks.{lookup_kept}
use anti.Lru.{LruCache}
use anti.Lru.DoubleFree.{IsListed}
use anti.Lru.Calm.{Calm}
use anti.Lru.Distinct.{IsIn}
use anti.Lru.Order.{IsOrder, SameRest}

-- A lookup ends, and finds entries of the list only.
abbrev pub Answers : HashTable → Heap → List ℕ → ConnTuple → Type 0
Answers table h order key =
    (hashtable_lookup table key h ≡ done none h)
    ⊎ ((p : ℕ) × IsIn p order × (hashtable_lookup table key h ≡ done (some p) h))

pub record IsValid (cache : LruCache) (h : Heap) (order : List ℕ) : Type 0 where
  pub in_order : IsOrder cache h.cell order
  pub answers : (key : ConnTuple) → IsConnTuple key → Answers cache.table h order key
  pub listed : (p : ℕ) → IsIn p order → IsListed cache.table h p
  pub tuples : (p : ℕ) (e : ConnEntry) → h.cell p ≡ some e → IsConnTuple e.tuple
  pub beyond : (p : ℕ) → h.fresh ≤ p → h.cell p ≡ none
  pub counted : length order ≡ cache.current_size
  pub bounded : cache.current_size ≤ cache.max_size
  pub nonzero : 0 < cache.max_size
  pub wide : cache.max_size < 2 ^ 32

-- A change of the entries that leaves which there are, with their keys and chains.
pub record Frame (h k : Heap) : Type 0 where
  pub keeps : Keeps h k
  pub same_fresh : k.fresh ≡ h.fresh
  pub nothing_new : (p : ℕ) → h.cell p ≡ none → k.cell p ≡ none

pub Frame-Calm : {h k : Heap} → Calm h k → Frame h k
Frame-Calm f = record { keeps = f.keeps; same_fresh = f.same_fresh; nothing_new = f.nothing_new }

pub IsListed-kept :
    {table : HashTable} {h k : Heap} {p : ℕ} → Keeps h k → IsListed table h p → IsListed table k p
IsListed-kept {table = table} kept l =
    let x = kept.entries _ l.entry l.here in
    record {
      entry = x.entry;
      here = x.here;
      found = rw (x.tuple) (lookup_kept table l.entry.tuple kept l.found);
    }

pub tuples-kept :
    {h k : Heap}
    → Frame h k
    → ((p : ℕ) (e : ConnEntry) → h.cell p ≡ some e → IsConnTuple e.tuple)
    → (p : ℕ) (e : ConnEntry) → k.cell p ≡ some e
    → IsConnTuple e.tuple
tuples-kept {h = h} f t p e here = elim (Option-cases (h.cell p)) [
  | inl gone ↦ absurd (cc (sym here ∙ f.nothing_new p gone))
  | inr (d, there) ↦ rw (Keeps-tuple f.keeps there here) (t p d there)
]

-- A change of the links alone, to another order of the same entries.
pub IsValid-reordered :
    {cache c : LruCache} {h k : Heap} {order after : List ℕ}
    → IsValid cache h order
    → Frame h k
    → SameRest c cache
    → IsOrder c k.cell after
    → ((p : ℕ) → IsIn p after ↔ IsIn p order)
    → length after ≡ length order
    → IsValid c k after
IsValid-reordered {cache = cache} v f s o same len = record {
  in_order = o;
  answers = λ key t. rw (s.table) (elim (v.answers key t) [
    | inl missing ↦ inl (lookup_kept cache.table key f.keeps missing)
    | inr (p, there, found) ↦ inr (p, (same p).1 there, lookup_kept cache.table key f.keeps found)
  ]);
  listed = λ p there. rw (s.table) (IsListed-kept f.keeps (v.listed p ((same p).0 there)));
  tuples = tuples-kept f v.tuples;
  beyond = λ p above. f.nothing_new p (v.beyond p (rw⁻¹ (f.same_fresh) above));
  counted = len ∙ v.counted ∙ sym s.current_size;
  bounded = rw (s.current_size, s.max_size) v.bounded;
  nonzero = rw (s.max_size) v.nonzero;
  wide = rw (s.max_size) v.wide;
}
