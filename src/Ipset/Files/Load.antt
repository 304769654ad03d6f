-- ===== src/Ipset/Files/Load.antt =====
-- The load of a saved file, entry by entry.
use mathlib.Core.List.{append_assoc}
use anti.Base.{
  ℕ, suc, ◌+◌, ◌≤◌, ◌<◌, ◌^◌, ◌≡◌, refl, ap, sym, ◌∙◌, true, false, List, [], ◌∷◌, ◌++◌, some, none,
  ltb, leb, length, length-append, arith, success, ok, u8, u32,
}
use anti.Addr.{IpAddr, inet, inet6}
use anti.Addr.Text.{Inet, string_to_ip_addr, ip_addr_to_string}
use anti.Ipset.{IpsetEntry, Chain, Ipset, push, insert_range, host_prefix}
use anti.Ipset.Text.{add_text, parse_cidr}
use anti.Ipset.Files.{
  is_skipped, fgets_lines, line_text, decimal, load_lines, entry_line, save_chain,
}
use anti.Ipset.Files.Lines.{
  IsPlain, IsLine, IsLine-append, fgets_lines-append, line_text-append, host_part-append,
  prefix_part-append, atoi-decimal, decimal-IsLine, length-decimal-le,
}

-- `inet_pton` reads the text of the address, as an address of its family only.
abbrev pub ReadsBack : Inet → IpAddr → Type 0
ReadsBack net (inet a) = net.pton4 (net.ntop (inet a)) ≡ some a
ReadsBack net (inet6 bs) =
    (net.pton4 (net.ntop (inet6 bs)) ≡ none) × (net.pton6 (net.ntop (inet6 bs)) ≡ some bs)

-- What `inet_ntop` documents of a text: `inet_pton` reads it back; it fits the buffer with its NUL, is
-- not empty, and has none of the characters that end a part of a line or make it a comment.
pub record IsWritten (net : Inet) (ip : IpAddr) : Type 0 where
  pub reads : ReadsBack net ip
  pub plain : IsPlain (net.ntop ip)
  pub short : length (net.ntop ip) < 46
  pub kept : is_skipped (net.ntop ip) ≡ false

-- An entry that a file can hold.
pub record IsSavable (net : Inet) (e : IpsetEntry) : Type 0 where
  pub written : IsWritten net e.ip
  pub prefix : e.prefix_len ≤ host_prefix e.ip

abbrev pub AllSavable : Inet → Chain → Type 0
AllSavable net [] = Unit {0}
AllSavable net (e ∷ c) = IsSavable net e × AllSavable net c

-- An entry as it is loaded: it never expires.
abbrev pub lasting : IpsetEntry → IpsetEntry
lasting e = record e { expires = 0 }

unfoldable pub push_all : Chain → Ipset → Ipset
push_all [] set = set
push_all (e ∷ c) set = push_all c (push set (lasting e))

pub push-entry_count :
    (set : Ipset) (e : IpsetEntry) → (push set (lasting e)).entry_count ≡ u32 (set.entry_count + 1)
unfolding push
push-entry_count set e = refl

pub push-max_size : (set : Ipset) (e : IpsetEntry) → (push set (lasting e)).max_size ≡ set.max_size
unfolding push
push-max_size set e = refl

module _ (net : Inet) where
  abbrev pub text_of : IpsetEntry → List ℕ
  text_of e = net.ntop e.ip ++ (b'/' ∷ decimal e.prefix_len)

  entry_line-text_of : (e : IpsetEntry) → entry_line net e ≡ text_of e ++ (b'\n' ∷ [])
  unfolding entry_line ip_addr_to_string
  entry_line-text_of e =
      sym (append_assoc (net.ntop e.ip) (b'/' ∷ decimal e.prefix_len) (b'\n' ∷ []))

  string_to_ip_addr-ntop :
      (ip : IpAddr) → ReadsBack net ip → string_to_ip_addr net (net.ntop ip) ≡ some ip
  unfolding string_to_ip_addr
  string_to_ip_addr-ntop (inet a) r = rw (r, string_to_ip_addr)
  string_to_ip_addr-ntop (inet6 bs) r = rw (r.0, r.1, string_to_ip_addr)

  text_of-IsLine : (e : IpsetEntry) → IsSavable net e → IsLine (text_of e)
  text_of-IsLine e s =
      IsLine-append (net.ntop e.ip) (b'/' ∷ decimal e.prefix_len) s.written.plain
        (omega arith, omega arith, decimal-IsLine e.prefix_len)

  host_prefix-le : (ip : IpAddr) → host_prefix ip ≤ 128
  host_prefix-le (inet a) = omega arith
  host_prefix-le (inet6 bs) = omega arith

  parse_cidr-text_of :
      (e : IpsetEntry)
      → IsSavable net e
      → parse_cidr net (text_of e) ≡ ok (some (e.ip, e.prefix_len))
  unfolding parse_cidr
  parse_cidr-text_of e s =
      let digits = decimal e.prefix_len in
      let byte : e.prefix_len < 256 = omega (arith, s.prefix, host_prefix-le e.ip) in
      let fits : leb 46 (length (net.ntop e.ip)) ≡ false = ground (arith, s.written.short) in
      let low : ltb (host_prefix e.ip) e.prefix_len ≡ false = ground (arith, s.prefix) in
      let host = host_part-append (net.ntop e.ip) digits s.written.plain in
      let prefix = prefix_part-append (net.ntop e.ip) digits s.written.plain in
      let value = atoi-decimal e.prefix_len byte in
      let address = string_to_ip_addr-ntop e.ip s.written.reads in
      rw (prefix, parse_cidr) (rw (host, fits, value, address) (rw low refl))

  add_text-text_of :
      (set : Ipset) (e : IpsetEntry)
      → IsSavable net e
      → set.entry_count < set.max_size
      → add_text net set (text_of e) true ≡ ok (success, push set (lasting e))
  unfolding add_text insert_range
  add_text-text_of set e s room =
      let byte : u8 e.prefix_len ≡ e.prefix_len = omega (arith, s.prefix, host_prefix-le e.ip) in
      let free : leb set.max_size set.entry_count ≡ false = ground arith in
      rw (parse_cidr-text_of e s) (rw (free, byte) refl)

  -- The text is read as a line of its own, and is not skipped.
  entry_line-kept : (e : IpsetEntry) → IsSavable net e → is_skipped (text_of e) ≡ false
  entry_line-kept e s = starts (net.ntop e.ip) (b'/' ∷ decimal e.prefix_len) s.written.kept
    where
      starts : (t rest : List ℕ) → is_skipped t ≡ false → is_skipped (t ++ rest) ≡ false
      starts [] rest h = cc
      starts (c ∷ cs) rest h = h

  abbrev pub lines_of : Chain → List (List ℕ)
  lines_of [] = []
  lines_of (e ∷ c) = entry_line net e ∷ lines_of c

  pub load_lines-lines_of :
      (c : Chain) (i : ℕ) (set : Ipset) (count : ℕ)
      → AllSavable net c
      → set.entry_count + length c ≤ set.max_size
      → set.max_size < 2 ^ 32
      → load_lines net (λ n. true) i (lines_of c) set count ≡ ok (push_all c set, count + length c)
  unfolding load_lines push_all
  load_lines-lines_of [] i set count a room fits =
      ap (λ (n : ℕ). ok (set, n)) (let e : count ≡ count + 0 = omega arith in e)
  load_lines-lines_of (e ∷ c) i set count a room fits =
      let after = push set (lasting e) in
      let line : line_text (entry_line net e) ≡ text_of e =
        ap line_text (entry_line-text_of e) ∙ line_text-append (text_of e) (text_of-IsLine e a.0) in
      let skipped : is_skipped (line_text (entry_line net e)) ≡ false =
        ap is_skipped line ∙ entry_line-kept e a.0 in
      let added = add_text-text_of set e a.0 (omega arith) in
      let more =
        load_lines-lines_of c (i + 1) after (count + 1) a.1 (omega (arith, push-entry_count set e))
          (omega (arith, push-max_size set e)) in
      let total : count + 1 + length c ≡ count + suc (length c) = omega arith in
      rw (skipped, load_lines) (rw line (rw added (rw (← total) more)))

  length-text_of-lt : (e : IpsetEntry) → IsSavable net e → length (text_of e) < 255
  length-text_of-lt e s = omega (
    arith,
    length-append (net.ntop e.ip) (b'/' ∷ decimal e.prefix_len),
    length-decimal-le e.prefix_len,
    s.written.short,
  )

  -- What `fgets` makes of a saved chain.
  pub fgets_lines-save_chain :
      (c : Chain) (rest : List ℕ)
      → AllSavable net c
      → fgets_lines 255 (save_chain net c ++ rest) ≡ lines_of c ++ fgets_lines 255 rest
  unfolding save_chain
  fgets_lines-save_chain [] rest a = refl
  fgets_lines-save_chain (e ∷ c) rest a =
      let l = text_of e in
      let tail = save_chain net c ++ rest in
      let split : (entry_line net e ++ save_chain net c) ++ rest ≡ l ++ (b'\n' ∷ tail) =
        append_assoc (entry_line net e) (save_chain net c) rest
        ∙ ap (λ t. t ++ tail) (entry_line-text_of e)
        ∙ append_assoc l (b'\n' ∷ []) tail in
      ap (fgets_lines 255) split
      ∙ fgets_lines-append l tail 255 (length-text_of-lt e a.0) (text_of-IsLine e a.0)
      ∙ ap (λ t. t ∷ fgets_lines 255 tail) (sym (entry_line-text_of e))
      ∙ ap (λ t. entry_line net e ∷ t) (fgets_lines-save_chain c rest a.1)
