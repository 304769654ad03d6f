-- ===== src/Ipset/Text.antt =====
-- `ipset_add_cidr` of src/storage/ipset.c with its text, and what it uses of `strchr`, `strncpy` and
-- `atoi`. A text is the list of its bytes up to the NUL. `atoi` keeps 32 bits of what `strtol` reads, as `prefix_len` does.
use anti.Base.{
  ℕ, ◌+◌, ◌-◌, ◌*◌, ◌^◌, Bool, true, false, ◌&&◌, ◌||◌, List, [], ◌∷◌, Option, none, some, ltb, leb,
  ◌==◌, if◌then◌else◌, length, u32, ℤ, failure, Run, ok, take, ◌>>=◌,
}
use anti.Addr.{IpAddr}
use anti.Addr.Text.{Inet, string_to_ip_addr}
use anti.Ipset.{Ipset, insert_range, host_prefix}

-- The text before the first slash.
unfoldable pub host_part : List ℕ → List ℕ
host_part [] = []
host_part (c ∷ cs) = if c == b'/' then [] else c ∷ host_part cs

-- The text after the first slash, or `none` where there is no slash.
unfoldable pub prefix_part : List ℕ → Option (List ℕ)
prefix_part [] = none
prefix_part (c ∷ cs) = if c == b'/' then some cs else prefix_part cs

abbrev pub is_digit : ℕ → Bool
is_digit c = leb b'0' c && leb c b'9'

-- `isspace`.
abbrev pub is_space : ℕ → Bool
is_space c = c == 0x20 || (leb 9 c && leb c 13)

unfoldable pub read_digits : ℕ → List ℕ → ℕ
read_digits acc [] = acc
read_digits acc (c ∷ cs) = elim (is_digit c) [
  | true ↦ read_digits (acc * 10 + (c - b'0')) cs
  | false ↦ acc
]

-- `strtol` stops at the bounds of `long`, before `atoi` keeps its low 32 bits.
abbrev pub capped : ℕ → ℕ → ℕ
capped bound n = if ltb bound n then bound else n

-- The sign, then the digits.
unfoldable pub read_signed : List ℕ → ℕ
unfolding read_digits
read_signed [] = 0
read_signed (c ∷ cs) =
    if c == b'-'
    then u32 (2 ^ 32 - u32 (capped (2 ^ 63) (read_digits 0 cs)))
    else u32 (capped (2 ^ 63 - 1) (if c == b'+' then read_digits 0 cs else read_digits 0 (c ∷ cs)))

unfoldable pub atoi : List ℕ → ℕ
unfolding read_signed
atoi [] = 0
atoi (c ∷ cs) = elim (is_space c) [ true ↦ atoi cs | false ↦ read_signed (c ∷ cs) ]

abbrev pub max_ip_str_len : ℕ
max_ip_str_len = 46

-- "Validate prefix length".
abbrev pub checked : ℕ → Option IpAddr → Option (IpAddr × ℕ)
checked prefix_len none = none
checked prefix_len (some ip) =
    if ltb (host_prefix ip) prefix_len then none else some (ip, prefix_len)

module _ (net : Inet) where
  -- The text that fills `ip_str` up to its last byte.
  abbrev unended : List ℕ → Run (Option (IpAddr × ℕ))
  unended cidr = do ip ← net.unended (take (max_ip_str_len - 1) cidr); ok (checked 32 ip)

  -- "Parse CIDR notation". Without a slash, `strncpy` copies 45 bytes and no NUL behind them: a text
  -- that is no shorter leaves the last byte of `ip_str` unset.
  unfoldable pub parse_cidr : List ℕ → Run (Option (IpAddr × ℕ))
  unfolding host_part prefix_part atoi string_to_ip_addr
  parse_cidr cidr = elim (prefix_part cidr) [
    | Option.none ↦
        if leb (max_ip_str_len - 1) (length cidr)
        then unended cidr
        else ok (checked 32 (string_to_ip_addr net cidr))
    | Option.some prefix ↦
        let host = host_part cidr in
        if leb max_ip_str_len (length host)
        then ok none
        else ok (checked (atoi prefix) (string_to_ip_addr net host))
  ]

  -- `ipset_add_cidr` on a set and a text.
  unfoldable pub add_text : Ipset → List ℕ → Bool → Run (ℤ × Ipset)
  unfolding parse_cidr insert_range
  add_text set cidr granted = do
    parsed ← parse_cidr cidr
    elim parsed [
      | Option.none ↦ ok (failure, set)
      | Option.some (ip, prefix_len) ↦ ok (insert_range set ip prefix_len granted)
    ]

  -- The pointers may be NULL.
  unfoldable pub add_cidr : Option Ipset → Option (List ℕ) → Bool → Run (ℤ × Option Ipset)
  unfolding add_text
  add_cidr (some set) (some cidr) granted = do
    (ret, after) ← add_text set cidr granted
    ok (ret, some after)
  add_cidr set cidr granted = ok (failure, set)
