-- ===== src/Tests/Bytes.antt =====
-- Buffers whose cells are bytes can be read up to their length.
use anti.Base.{
  ℕ, zero, suc, ◌+◌, ◌≤◌, ◌<◌, ◌≡◌, refl, Bool, true, ◌&&◌, List, [], ◌∷◌, some, ltb, length,
  get_elem?, arith,
}
use anti.Packet.{byte_at}
use anti.Packet.Reads.{Readable}

abbrev pub all_bytes : List ℕ → Bool
all_bytes [] = true
all_bytes (x ∷ xs) = ltb x 256 && all_bytes xs

get_byte :
    (xs : List ℕ) (i : ℕ)
    → all_bytes xs ≡ true
    → i < length xs
    → (b : ℕ) × (get_elem? xs i ≡ some b) × (b < 256)
get_byte [] i h lt = absurd (omega arith)
get_byte (x ∷ xs) zero h lt = (x, refl, ground arith)
get_byte (x ∷ xs) (suc i) h lt = get_byte xs i (ground arith) (omega arith)

pub Readable-of_bytes :
    (xs : List ℕ) (base n : ℕ)
    → all_bytes xs ≡ true
    → base + n ≤ length xs
    → Readable xs (some base) n
unfolding byte_at
Readable-of_bytes xs base n h le =
    λ i lt. let (b, e, p) = get_byte xs (base + i) h (omega arith) in (b, rw e, p)

pub all_bytes-lt :
    (xs : List ℕ) → all_bytes xs ≡ true → (i b : ℕ) → get_elem? xs i ≡ some b → b < 256
all_bytes-lt [] h i b e = cc
all_bytes-lt (x ∷ xs) h zero b e = ground arith
all_bytes-lt (x ∷ xs) h (suc i) b e = all_bytes-lt xs (ground arith) i b e
