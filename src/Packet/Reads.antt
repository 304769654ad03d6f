-- ===== src/Packet/Reads.antt =====
-- Reads of a readable packet do not fault.
use anti.Base.{
  ℕ, zero, suc, ◌+◌, ◌≤◌, ◌<◌, ◌≡◌, refl, Bool, List, Option, arith, ok, [], ◌∷◌, ◌*◌, Run-total,
}
use anti.Packet.{
  Packet, byte_at, ntohs_at, bytes_at, packet_is_fragment, packet_is_malformed, iphdr_size,
}

-- The first `n` bytes behind a pointer can be read.
abbrev pub Readable : List ℕ → Option ℕ → ℕ → Type 0
Readable bytes base n = (i : ℕ) → i < n → (b : ℕ) × (byte_at bytes base i ≡ ok b) × (b < 256)

pub ntohs_at-returns :
    (bytes : List ℕ) (base : Option ℕ) (n i : ℕ)
    → Readable bytes base n
    → i + 1 < n
    → (w : ℕ) × (ntohs_at bytes base i ≡ ok w)
unfolding ntohs_at
ntohs_at-returns bytes base n i h lt =
    let (hi, e, p) = h i (omega arith) in
    let (lo, f, q) = h (i + 1) lt in (hi * 256 + lo, rw (e, f))

pub bytes_at-returns :
    (bytes : List ℕ) (base : Option ℕ) (n i k : ℕ)
    → Readable bytes base n
    → i + k ≤ n
    → (bs : List ℕ) × (bytes_at bytes base i k ≡ ok bs)
unfolding bytes_at
bytes_at-returns bytes base n i zero h le = ([], refl)
bytes_at-returns bytes base n i (suc k) h le =
    let (b, e, p) = h i (omega arith) in
    let (bs, f) = bytes_at-returns bytes base n (i + 1) k h (omega arith) in (b ∷ bs, rw (e, f))

-- Every byte of the payload can be read, and of the fixed part of the IP header.
pub record IsReadable (pkt : Packet) : Type 0 where
  pub header : Readable pkt.bytes pkt.ip_header iphdr_size
  pub body : Readable pkt.bytes pkt.payload pkt.payload_len

module _ {pkt : Packet} (r : IsReadable pkt) where
  pub fragment-returns : (b : Bool) × (packet_is_fragment pkt ≡ ok b)
  unfolding packet_is_fragment
  fragment-returns =
      let (w, f) = ntohs_at-returns pkt.bytes pkt.ip_header 20 6 r.header (omega arith) in
      Run-total (packet_is_fragment pkt) (λ e. ground arith)

  pub malformed-returns : (b : Bool) × (packet_is_malformed pkt ≡ ok b)
  unfolding packet_is_malformed
  malformed-returns =
      let (w, f) = ntohs_at-returns pkt.bytes pkt.ip_header 20 2 r.header (omega arith) in
      Run-total (packet_is_malformed pkt) (λ e. ground arith)
