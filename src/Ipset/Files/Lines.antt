-- ===== src/Ipset/Files/Lines.antt =====
-- The pieces of a saved line, as they are read back.
use anti.Base.{
  ℕ, zero, suc, ◌-◌, ◌≤◌, ◌<◌, ◌≡◌, ◌≢◌, refl, ap, Bool, true, false, ◌&&◌, List, [], ◌∷◌, ◌++◌,
  some, ◌==◌, length, arith,
}
use anti.Ipset.Files.{onto, fgets_lines, line_text, decimal}
use anti.Ipset.Text.{host_part, prefix_part, atoi, read_signed, read_digits}

-- A text that holds neither a NUL nor a newline nor a slash.
abbrev pub IsPlain : List ℕ → Type 0
IsPlain [] = Unit {0}
IsPlain (c ∷ cs) = (c ≢ 0) × (c ≢ b'\n') × (c ≢ b'/') × IsPlain cs

-- The same with slashes.
abbrev pub IsLine : List ℕ → Type 0
IsLine [] = Unit {0}
IsLine (c ∷ cs) = (c ≢ 0) × (c ≢ b'\n') × IsLine cs

pub IsLine-append : (host rest : List ℕ) → IsPlain host → IsLine rest → IsLine (host ++ rest)
IsLine-append [] rest p q = q
IsLine-append (c ∷ cs) rest p q = (p.0, p.1, IsLine-append cs rest p.3 q)

pub fgets_lines-append :
    (l rest : List ℕ) (room : ℕ)
    → length l < room
    → IsLine l
    → fgets_lines room (l ++ (b'\n' ∷ rest)) ≡ (l ++ (b'\n' ∷ [])) ∷ fgets_lines 255 rest
unfolding fgets_lines
fgets_lines-append [] rest room h p = refl
fgets_lines-append (c ∷ cs) rest room h p =
    let short : (room == 1) ≡ false = ground arith in
    let other : (c == b'\n') ≡ false = ground (arith, p.1) in
    rw (other, short, fgets_lines)
      (ap (onto c) (fgets_lines-append cs rest (room - 1) (omega arith) p.2))

pub line_text-append : (l : List ℕ) → IsLine l → line_text (l ++ (b'\n' ∷ [])) ≡ l
unfolding line_text
line_text-append [] p = refl
line_text-append (c ∷ cs) p = ground (arith, p.0, p.1, line_text-append cs p.2)

pub host_part-append :
    (host rest : List ℕ) → IsPlain host → host_part (host ++ (b'/' ∷ rest)) ≡ host
unfolding host_part
host_part-append [] rest p = refl
host_part-append (c ∷ cs) rest p = ground (arith, p.2, host_part-append cs rest p.3)

pub prefix_part-append :
    (host rest : List ℕ) → IsPlain host → prefix_part (host ++ (b'/' ∷ rest)) ≡ some rest
unfolding prefix_part
prefix_part-append [] rest p = refl
prefix_part-append (c ∷ cs) rest p = ground (arith, p.2, prefix_part-append cs rest p.3)

-- Over the values of a byte, by evaluation.
below : ℕ → (ℕ → Bool) → Bool
below zero p = true
below (suc n) p = p n && below n p

below_sound : (n : ℕ) (p : ℕ → Bool) (x : ℕ) → below n p ≡ true → x < n → p x ≡ true
unfolding below
below_sound zero p x h lt = absurd (omega arith)
below_sound (suc n) p x h lt = ground (arith, below_sound n p x)

pub atoi-decimal : (n : ℕ) → n < 256 → atoi (decimal n) ≡ n
unfolding decimal atoi read_signed read_digits below
atoi-decimal n h = ground (arith, below_sound 256 (λ k. atoi (decimal k) == k) n refl h)

pub decimal-IsLine : (n : ℕ) → IsLine (decimal n)
unfolding decimal
decimal-IsLine n = ground arith

pub length-decimal-le : (n : ℕ) → length (decimal n) ≤ 3
unfolding decimal
length-decimal-le n = ground arith
