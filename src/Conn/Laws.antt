-- ===== src/Conn/Laws.antt =====
-- The comparison decides equality of tuples.
use anti.Base.{
  ℕ, ◌≡◌, refl, ◌↔◌, true, false, arith, Bool-cases, inl, inr, is_zero, ◌==◌, sub_ℕ, ==_refl,
}
use anti.Addr.{IsIpAddr, same_ip}
use anti.Addr.Laws.{same_ip_iff}
use anti.Conn.{ConnTuple, conn_tuple_compare}

-- Both addresses of the tuple have their size.
abbrev pub IsConnTuple : ConnTuple → Type 0
IsConnTuple t = IsIpAddr t.src_ip × IsIpAddr t.dst_ip

nonzero_of_test : (m n : ℕ) → (m == n) ≡ false → is_zero (sub_ℕ m n) ≡ false
nonzero_of_test m n h = ground arith

eq_of_test : (m n : ℕ) → (m == n) ≡ true → m ≡ n
eq_of_test m n h = ground arith

same_tuple :
    (a b : ConnTuple)
    → is_zero (conn_tuple_compare a b) ≡ true
    → (same_ip a.src_ip b.src_ip ≡ true)
      × (same_ip a.dst_ip b.dst_ip ≡ true)
      × (a.src_port ≡ b.src_port)
      × (a.dst_port ≡ b.dst_port)
      × (a.protocol ≡ b.protocol)
unfolding conn_tuple_compare
same_tuple a b h = elim (Bool-cases (a.protocol == b.protocol)) [
  | inr e ↦ absurd (ground (arith, nonzero_of_test a.protocol b.protocol e))
  | inl e ↦ elim (Bool-cases (a.src_port == b.src_port)) [
    | inr f ↦ absurd (ground (arith, nonzero_of_test a.src_port b.src_port f))
    | inl f ↦ elim (Bool-cases (a.dst_port == b.dst_port)) [
      | inr g ↦ absurd (ground (arith, nonzero_of_test a.dst_port b.dst_port g))
      | inl g ↦ elim (Bool-cases (same_ip a.src_ip b.src_ip)) [
        | inr k ↦ absurd (cc (rw (e, f, g, k, conn_tuple_compare) at h))
        | inl k ↦ (
          k,
          rw (e, f, g, k, conn_tuple_compare) at h,
          eq_of_test _ _ f,
          eq_of_test _ _ g,
          eq_of_test _ _ e,
        )
      ]
    ]
  ]
]

-- Two tuples compare as equal exactly when all five parts are the same.
pub conn_tuple_compare_iff :
    (a b : ConnTuple)
    → IsConnTuple a
    → IsConnTuple b
    → (is_zero (conn_tuple_compare a b) ≡ true) ↔ (
        (a.src_ip ≡ b.src_ip)
        × (a.dst_ip ≡ b.dst_ip)
        × (a.src_port ≡ b.src_port)
        × (a.dst_port ≡ b.dst_port)
        × (a.protocol ≡ b.protocol))
unfolding conn_tuple_compare
conn_tuple_compare_iff a b p q =
    let src = same_ip_iff a.src_ip b.src_ip p.0 q.0 in
    let dst = same_ip_iff a.dst_ip b.dst_ip p.1 q.1 in
    (
      λ h. let (s, d, f, g, e) = same_tuple a b h in (src.0 s, dst.0 d, f, g, e),
      λ (s, d, f, g, e).
          rw
            (
              e,
              f,
              g,
              ==_refl b.protocol,
              ==_refl b.src_port,
              ==_refl b.dst_port,
              src.1 s,
              conn_tuple_compare,
            )
            (dst.1 d),
    )

pub eq_of_compare :
    {a b : ConnTuple}
    → IsConnTuple a
    → IsConnTuple b
    → is_zero (conn_tuple_compare a b) ≡ true
    → a ≡ b
eq_of_compare {a = a} {b = b} p q h =
    let parts = (conn_tuple_compare_iff a b p q).0 h in
    λ i. record {
      src_ip = parts.0 i;
      dst_ip = parts.1 i;
      src_port = parts.2 i;
      dst_port = parts.3 i;
      protocol = parts.4 i;
    }

pub compare_self : (a : ConnTuple) → IsConnTuple a → is_zero (conn_tuple_compare a a) ≡ true
compare_self a p = (conn_tuple_compare_iff a a p p).1 (refl, refl, refl, refl, refl)
