-- ===== src/Geoip.antt =====
-- src/geoip/geoip.c: the country of an address, which is the placeholder "XX" as long as no database is
-- opened. A pointer that may be NULL is an `Option`; the text of a country is its bytes.
pub mod Laws
use anti.Base.{
  ℕ, Bool, true, false, ◌&&◌, List, [], ◌∷◌, Option, none, some, ltb, if◌then◌else◌, ℤ, success,
  failure,
}
use anti.Addr.{IpAddr}
use anti.Addr.Text.{ascii}
use anti.Protect.Http.{same_text}

pub record GeoipDb : Type 0 where
  pub db_path : Option (List ℕ)

-- `granted` is the success of `calloc`, and `copied` of `strdup`.
unfoldable pub geoip_init : Option (List ℕ) → Bool → Bool → Option GeoipDb
geoip_init none granted copied = none
geoip_init (some path) granted copied =
    if granted then some (record { db_path = if copied then some path else none }) else none

abbrev pub placeholder : List ℕ
placeholder = ascii "XX"

-- The result, and the text that the buffer of `len` bytes holds where it is 0.
unfoldable pub geoip_lookup_country : Option GeoipDb → Option IpAddr → ℕ → ℤ × List ℕ
geoip_lookup_country (some db) (some ip) len =
    if ltb len 3 then (failure, []) else (success, placeholder)
geoip_lookup_country db ip len = (failure, [])

unfoldable pub geoip_lookup_asn : Option GeoipDb → Option IpAddr → ℕ
geoip_lookup_asn db ip = 0

-- The loop over the countries.
unfoldable pub blocks : List ℕ → List (List ℕ) → Bool
unfolding same_text
blocks country [] = false
blocks country (c ∷ cs) = if same_text country c then true else blocks country cs

-- The array and its count as a list, `none` for NULL.
unfoldable pub geoip_is_blocked_country :
    Option GeoipDb → Option IpAddr → Option (List (List ℕ)) → Bool
unfolding geoip_lookup_country blocks
geoip_is_blocked_country (some db) (some ip) (some countries) =
    blocks (geoip_lookup_country (some db) (some ip) 3).1 countries
geoip_is_blocked_country db ip countries = false
