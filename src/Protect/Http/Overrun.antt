-- ===== src/Protect/Http/Overrun.antt =====
-- The header check on a captured payload that no NUL ends: `strstr` then stops at a match only.
use anti.Base.{
  ℕ, zero, suc, ◌+◌, ◌<◌, ◌≡◌, ◌⊎◌, inl, inr, Bool, true, false, List, [], ◌∷◌, Option, some, ltb,
  if◌then◌else◌, get_elem?, drop, ok, arith, Run-cases, Bool-cases, Option-cases,
}
use anti.Packet.{Packet, byte_at}
use anti.Packet.Http.{strstr, starts_with}
use anti.Protect.Http.{
  payload_has, headers_long, has_nul, version_missing, is_http_header_anomaly, http_text, host_text,
}

abbrev pub NoNul : List ℕ → Type 0
NoNul [] = Unit
NoNul (x ∷ xs) = (0 < x) × NoNul xs

strstr-NoNul :
    (text pattern : List ℕ) {o : Option (List ℕ)}
    → NoNul text
    → strstr text pattern ≡ ok o
    → (t : List ℕ) × (o ≡ some t)
unfolding strstr
strstr-NoNul [] pattern n e = cc
strstr-NoNul (t ∷ ts) pattern n e = elim (Run-cases (starts_with (t ∷ ts) pattern)) [
  | inl f ↦ absurd (ground arith)
  | inr (b, f) ↦ elim (Bool-cases b) [
    | inl hit ↦ (t ∷ ts, ground arith)
    | inr miss ↦ strstr-NoNul ts pattern n.1 (ground arith)
  ]
]

payload_has-NoNul :
    (pkt : Packet) (pattern : List ℕ) (o : ℕ) {b : Bool}
    → pkt.payload ≡ some o
    → NoNul (drop o pkt.bytes)
    → payload_has pkt pattern ≡ ok b
    → b ≡ true
unfolding payload_has
payload_has-NoNul pkt pattern o p n e = elim (Run-cases (strstr (drop o pkt.bytes) pattern)) [
  | inl f ↦ absurd (ground arith)
  | inr (found, f) ↦ let (t, g) = strstr-NoNul (drop o pkt.bytes) pattern n f in ground arith
]

NoNul-lt :
    (bytes : List ℕ) (o i : ℕ) {c : ℕ}
    → NoNul (drop o bytes)
    → get_elem? bytes (o + i) ≡ some c
    → 0 < c
NoNul-lt [] o i n e = cc
NoNul-lt (x ∷ xs) zero zero n e = ground arith
NoNul-lt (x ∷ xs) zero (suc i) n e =
    NoNul-lt xs zero i n.1 (rw (let s : 0 + suc i ≡ suc (0 + i) = omega arith in s) at e)
NoNul-lt (x ∷ xs) (suc o) i n e =
    NoNul-lt xs o i n (rw (let s : suc o + i ≡ suc (o + i) = omega arith in s) at e)

has_nul-NoNul :
    (pkt : Packet) (o left i : ℕ) {b : Bool}
    → pkt.payload ≡ some o
    → NoNul (drop o pkt.bytes)
    → has_nul pkt left i ≡ ok b
    → b ≡ false
unfolding has_nul byte_at
has_nul-NoNul pkt o zero i p n e = ground arith
has_nul-NoNul pkt o (suc left) i p n e = elim (Option-cases (get_elem? pkt.bytes (o + i))) [
  | inl past ↦ absurd (ground arith)
  | inr (c, there) ↦
      let positive = NoNul-lt pkt.bytes o i n there in
      has_nul-NoNul pkt o left (i + 1) p n (ground arith)
]

abbrev pub version : List ℕ
version = http_text (b'1' ∷ b'.' ∷ b'0' ∷ [])

-- Where no NUL follows in the captured bytes, the header check of a request ends in two cases
-- only: headers of more than 8192 characters, or a text with "HTTP/1.0" in it. For any other
-- request, "HTTP/1.1" ones included, it reads past the buffer.
pub is_http_header_anomaly-NoNul :
    (pkt : Packet) (o : ℕ) {b : Bool}
    → pkt.is_http ≡ true
    → pkt.payload ≡ some o
    → NoNul (drop o pkt.bytes)
    → is_http_header_anomaly pkt ≡ ok b
    → ((b ≡ true) × (headers_long pkt ≡ ok true))
      ⊎ ((b ≡ false) × (payload_has pkt version ≡ ok true))
unfolding is_http_header_anomaly version_missing
is_http_header_anomaly-NoNul pkt o {b} p q n e =
    let checked = if ltb pkt.payload_len 2048 then pkt.payload_len else 2048 in
    elim (Run-cases (payload_has pkt host_text)) [
      | inl f ↦ absurd (ground arith)
      | inr (host, f) ↦
          let named = payload_has-NoNul pkt host_text o q n f in
          elim (Run-cases (headers_long pkt)) [
            | inl g ↦ absurd (ground arith)
            | inr (long, g) ↦ elim (Bool-cases long) [
              | inl over ↦ inl (ground arith, rw over at g)
              | inr within ↦ elim (Run-cases (has_nul pkt checked 0)) [
                | inl k ↦ absurd (ground arith)
                | inr (nul, k) ↦
                    let no_nul = has_nul-NoNul pkt o checked 0 q n k in
                    elim (Run-cases (payload_has pkt version)) [
                      | inl m ↦ absurd (ground arith)
                      | inr (old, m) ↦
                          let found = payload_has-NoNul pkt version o q n m in
                          inr (ground arith, rw found at m)
                    ]
              ]
            ]
          ]
    ]
