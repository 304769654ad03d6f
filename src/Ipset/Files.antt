-- ===== src/Ipset/Files.antt =====
-- `ipset_load_from_file`, `ipset_save_to_file` and `ipset_destroy` of src/storage/ipset.c, over the bytes
-- of the file.
pub mod Lines
pub mod Load
pub mod Covered
pub mod Bare
pub mod RoundTrip
use anti.Base.{
  ℕ, zero, suc, ◌+◌, ◌-◌, ◌/◌, ◌%◌, Bool, true, false, ◌||◌, List, [], ◌∷◌, ◌++◌, Option, none,
  some, ltb, ◌==◌, if◌then◌else◌, ℤ, pos, failure, is_zero, Run, ok, ◌>>=◌, length,
}
use anti.Addr.Text.{Inet, ip_addr_to_string}
use anti.Ipset.{IpsetEntry, Chain, Ipset}
use anti.Ipset.Text.{add_text}

-- A byte in front of the first line.
abbrev pub onto : ℕ → List (List ℕ) → List (List ℕ)
onto c [] = (c ∷ []) ∷ []
onto c (l ∷ ls) = (c ∷ l) ∷ ls

-- What `fgets(line, sizeof(line), fp)` returns, call after call: up to a newline, or the 255 bytes that
-- `line` has room for. `room` is what is left for the first of them.
unfoldable pub fgets_lines : ℕ → List ℕ → List (List ℕ)
fgets_lines room [] = []
fgets_lines room (c ∷ cs) = elim (c == b'\n' || room == 1) [
  | true ↦ (c ∷ []) ∷ fgets_lines 255 cs
  | false ↦ onto c (fgets_lines (room - 1) cs)
]

-- `line[strcspn(line, "\n")] = '\0'`, as the text that is left.
unfoldable pub line_text : List ℕ → List ℕ
line_text [] = []
line_text (c ∷ cs) = if c == b'\n' || c == 0 then [] else c ∷ line_text cs

-- "Skip comments and empty lines".
abbrev pub is_skipped : List ℕ → Bool
is_skipped [] = true
is_skipped (c ∷ cs) = c == b'#'

-- `%u` of a `uint8_t`.
unfoldable pub decimal : ℕ → List ℕ
decimal n =
    let units = n % 10 + b'0' in
    let tens = n / 10 % 10 + b'0' in
    if ltb n 10
    then units ∷ []
    else if ltb n 100
    then tens ∷ units ∷ []
    else (n / 100 % 10 + b'0') ∷ tens ∷ units ∷ []

module _ (net : Inet) where
  -- The loop over the lines from number `i` on, where `granted i` is the success of the allocation for
  -- that line: the set, and `count`.
  unfoldable pub load_lines : (ℕ → Bool) → ℕ → List (List ℕ) → Ipset → ℕ → Run (Ipset × ℕ)
  unfolding line_text add_text
  load_lines granted i [] set count = ok (set, count)
  load_lines granted i (l ∷ ls) set count =
      let line = line_text l in
      elim (is_skipped line) [
        | true ↦ load_lines granted (i + 1) ls set count
        | false ↦ add_text net set line (granted i) >>= λ (ret, after).
            load_lines granted (i + 1) ls after (if is_zero ret then count + 1 else count)
      ]

  -- `content` is what the file holds, and `none` where it cannot be opened.
  unfoldable pub load_from_file : (ℕ → Bool) → Ipset → Option (List ℕ) → Run (ℤ × Ipset)
  unfolding fgets_lines load_lines
  load_from_file granted set none = ok (failure, set)
  load_from_file granted set (some content) = do
    (after, count) ← load_lines granted 0 (fgets_lines 255 content) set 0
    ok (pos count, after)

  -- `fprintf(fp, "%s/%u\n", ip_str, entry->prefix_len)`.
  unfoldable pub entry_line : IpsetEntry → List ℕ
  unfolding ip_addr_to_string decimal
  entry_line e = ip_addr_to_string net e.ip ++ (b'/' ∷ (decimal e.prefix_len ++ (b'\n' ∷ [])))

  unfoldable pub save_chain : Chain → List ℕ
  unfolding entry_line
  save_chain [] = []
  save_chain (e ∷ c) = entry_line e ++ save_chain c

  -- The loop over the buckets from `i`, with `left` of them to go: the bytes, and `count`.
  unfoldable pub save_from : ℕ → ℕ → Ipset → List ℕ × ℕ
  unfolding save_chain
  save_from zero i set = ([], 0)
  save_from (suc left) i set =
      let (rest, count) = save_from left (i + 1) set in
      (save_chain (set.buckets i) ++ rest, length (set.buckets i) + count)

  -- The result, and what the file holds afterwards, `none` where it cannot be opened.
  unfoldable pub save_to_file : Ipset → Bool → ℤ × Option (List ℕ)
  unfolding save_from
  save_to_file set opened =
      let (content, count) = save_from set.bucket_count 0 set in
      if opened then (pos count, some content) else (failure, none)
