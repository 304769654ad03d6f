-- ===== src/Geoip/Laws.antt =====
-- What the test for a blocked country depends on.
use anti.Base.{ℕ, ◌≡◌, ◌↔◌, ◌⊎◌, refl, true, List, [], ◌∷◌, some, arith, Bool-cases, inl, inr}
use anti.Addr.{IpAddr}
use anti.Geoip.{GeoipDb, blocks, placeholder, geoip_is_blocked_country, geoip_lookup_country}
use anti.Protect.Http.{same_text}

same_text_iff : (s t : List ℕ) → (same_text s t ≡ true) ↔ (s ≡ t)
unfolding same_text
same_text_iff [] [] = (λ e. refl, λ e. refl)
same_text_iff [] (y ∷ ys) = (λ e. cc, λ e. cc)
same_text_iff (x ∷ xs) [] = (λ e. cc, λ e. cc)
same_text_iff (x ∷ xs) (y ∷ ys) = ground (arith, same_text_iff xs ys)

-- The country is in the list.
abbrev pub Listed : List ℕ → List (List ℕ) → Type 0
Listed c [] = ⊥
Listed c (d ∷ ds) = (c ≡ d) ⊎ Listed c ds

blocks_iff : (c : List ℕ) (cs : List (List ℕ)) → (blocks c cs ≡ true) ↔ Listed c cs
unfolding blocks
blocks_iff c [] = (λ e. cc, λ l. absurd l)
blocks_iff c (d ∷ ds) = elim (Bool-cases (same_text c d)) [
  | inl same ↦ rw same (λ e. inl ((same_text_iff c d).0 same), λ l. refl)
  | inr other ↦ rw other (
    λ e. inr ((blocks_iff c ds).0 e),
    λ l. elim l [
      | inl e ↦ cc (other, (same_text_iff c d).1 e)
      | inr later ↦ (blocks_iff c ds).1 later
    ],
  )
]

-- An address is in a blocked country exactly when the list holds the placeholder "XX", whatever the
-- address: either every address is blocked or none is.
pub geoip_is_blocked_country_iff :
    (db : GeoipDb) (ip : IpAddr) (countries : List (List ℕ))
    → (geoip_is_blocked_country (some db) (some ip) (some countries) ≡ true)
      ↔ Listed placeholder countries
unfolding geoip_is_blocked_country geoip_lookup_country
geoip_is_blocked_country_iff db ip countries = blocks_iff placeholder countries
