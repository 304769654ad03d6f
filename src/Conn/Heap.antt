-- ===== src/Conn/Heap.antt =====
-- Entries of connections in memory, for src/storage/hashtable.c and src/storage/lru_cache.c, which
-- share them through pointers. A pointer is the number of its allocation, and numbers are not used
-- again: a freed entry stays freed.
use anti.Base.{ℕ, ◌+◌, Bool, Option, none, some, if◌then◌else◌, update, Run, ok, fault}
use anti.Addr.{inet}
use anti.Conn.{ConnTuple}

pub data TcpState : Type 0 where
  syn_sent syn_received established fin_wait close_wait closed : TcpState

pub record ConnEntry : Type 0 where
  pub tuple : ConnTuple
  pub state : TcpState
  pub first_seen : ℕ
  pub last_seen : ℕ
  pub packets : ℕ
  pub bytes : ℕ
  pub next : Option ℕ
  pub lru_prev : Option ℕ
  pub lru_next : Option ℕ

-- What `calloc` leaves: `TCP_STATE_SYN_SENT` is 0.
abbrev pub zeroed : ConnEntry
zeroed = record {
  tuple = record { src_ip = inet 0; dst_ip = inet 0; src_port = 0; dst_port = 0; protocol = 0 };
  state = syn_sent;
  first_seen = 0;
  last_seen = 0;
  packets = 0;
  bytes = 0;
  next = none;
  lru_prev = none;
  lru_next = none;
}

-- `cell p` is `none` before the allocation of `p` and after it is freed.
pub record Heap : Type 0 where
  pub cell : ℕ → Option ConnEntry
  pub fresh : ℕ

-- A run over the heap: a value with the heap after it; `wild` where the code reads, writes or frees
-- through NULL or a freed pointer, or divides by zero; `unfinished` where a loop has run for its
-- fuel and not ended.
pub data Outcome (A : Type 0) : Type 0 where
  done : A → Heap → Outcome A
  wild : Outcome A
  unfinished : Outcome A

abbrev pub M : Type 0 → Type 0
M A = Heap → Outcome A

abbrev pub pure : {A : Type 0} → A → M A
pure a h = done a h

-- The rest runs on the value and the heap.
abbrev pub after : {A B : Type 0} → Outcome A → (A → M B) → Outcome B
after (done a h) f = f a h
after wild f = wild
after unfinished f = unfinished

infixl 5 ◌>>=◌ ◌>>◌
abbrev pub ◌>>=◌ : {A B : Type 0} → M A → (A → M B) → M B
◌>>=◌ m f h = after (m h) f

abbrev pub ◌>>◌ : {B : Type 0} → M (Unit {0}) → M B → M B
m >> k = m >>= λ _. k

abbrev pub lost : {A : Type 0} → M A
lost h = wild

-- A run of code that does not touch the entries.
abbrev pub lift : {A : Type 0} → Run A → M A
lift (ok a) h = done a h
lift fault h = wild

abbrev pub read : {A : Type 0} → Option ConnEntry → (ConnEntry → Outcome A) → Outcome A
read none k = wild
read (some e) k = k e

-- `*p`.
unfoldable pub load : ℕ → M ConnEntry
load p h = read (h.cell p) (λ e. done e h)

-- `*p = e`.
unfoldable pub store : ℕ → ConnEntry → M (Unit {0})
store p e h = read (h.cell p) (λ old. done tt (record h { cell = update h.cell p (some e) }))

-- The assignment of a field of `*p`.
unfoldable pub modify : ℕ → (ConnEntry → ConnEntry) → M (Unit {0})
modify p f h = read (h.cell p) (λ e. done tt (record h { cell = update h.cell p (some (f e)) }))

-- `if (p) p->field = …`.
unfoldable pub modify_if : Option ℕ → (ConnEntry → ConnEntry) → M (Unit {0})
unfolding modify
modify_if none f = pure tt
modify_if (some p) f = modify p f

-- `free(p)`, of an entry that is allocated.
unfoldable pub free : ℕ → M (Unit {0})
free p h = read (h.cell p) (λ e. done tt (record h { cell = update h.cell p none }))

-- `calloc(1, sizeof(*entry))`: the new pointer, or NULL.
unfoldable pub calloc : Bool → M (Option ℕ)
calloc granted h =
    if granted
    then done (some (h.fresh))
        (record { cell = update h.cell h.fresh (some zeroed); fresh = h.fresh + 1 })
    else done none h
