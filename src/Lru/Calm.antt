-- ===== src/Lru/Calm.antt =====
-- What the writes of the links of src/storage/lru_cache.c leave of the entries.
use anti.Base.{ℕ, ◌≡◌, refl, sym, ap, ◌∙◌, Option, none, some}
use anti.Conn.Heap.{ConnEntry, Heap}
use anti.Conn.Reason.{Keeps, Keeps-refl, Keeps-trans, Mild}

-- The same state and counts.
pub record SameActivity (d e : ConnEntry) : Type 0 where
  pub state : d.state ≡ e.state
  pub first_seen : d.first_seen ≡ e.first_seen
  pub packets : d.packets ≡ e.packets
  pub bytes : d.bytes ≡ e.bytes

pub SameActivity-trans :
    {d e f : ConnEntry} → SameActivity d e → SameActivity e f → SameActivity d f
SameActivity-trans a b = record {
  state = a.state ∙ b.state;
  first_seen = a.first_seen ∙ b.first_seen;
  packets = a.packets ∙ b.packets;
  bytes = a.bytes ∙ b.bytes;
}

-- What every write of a link leaves.
pub record Calm (h k : Heap) : Type 0 where
  pub keeps : Keeps h k
  pub same_fresh : k.fresh ≡ h.fresh
  pub nothing_new : (p : ℕ) → h.cell p ≡ none → k.cell p ≡ none
  pub activity :
      (p : ℕ) (d e : ConnEntry) → k.cell p ≡ some d → h.cell p ≡ some e → SameActivity d e

pub same_entry :
    (cell : ℕ → Option ConnEntry) {p : ℕ} {d e : ConnEntry}
    → cell p ≡ some d
    → cell p ≡ some e
    → d ≡ e
same_entry cell a b = cc (sym a ∙ b)

pub SameActivity-self : {d e : ConnEntry} → d ≡ e → SameActivity d e
SameActivity-self e = record {
  state = ap (λ x. x.state) e;
  first_seen = ap (λ x. x.first_seen) e;
  packets = ap (λ x. x.packets) e;
  bytes = ap (λ x. x.bytes) e;
}

pub Calm-refl : (h : Heap) → Calm h h
Calm-refl h = record {
  keeps = Keeps-refl h;
  same_fresh = refl;
  nothing_new = λ p e. e;
  activity = λ p d e a b. SameActivity-self (same_entry h.cell a b);
}

pub Calm-trans : {h k l : Heap} → Calm h k → Calm k l → Calm h l
Calm-trans a b = record {
  keeps = Keeps-trans a.keeps b.keeps;
  same_fresh = b.same_fresh ∙ a.same_fresh;
  nothing_new = λ p e. b.nothing_new p (a.nothing_new p e);
  activity = λ p d e there here.
      let x = a.keeps.entries p e here in
      SameActivity-trans (b.activity p d x.entry there x.here) (a.activity p x.entry e x.here here);
}

-- A write that leaves the key, the link of the chain, the state and the counts.
abbrev pub Gentle : (ConnEntry → ConnEntry) → Type 0
Gentle f = Mild f × ((e : ConnEntry) → SameActivity (f e) e)
