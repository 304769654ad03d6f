-- ===== src/Logger/Laws.antt =====
-- When a call of the logger returns, and when it blocks its thread.
use anti.Base.{
  ℕ, suc, ◌+◌, ◌≤◌, ◌<◌, ◌≡◌, ◌≢◌, ◌↔◌, ◌⊎◌, ℤ, refl, true, false, List, none, length, arith,
  Option-cases, inl, inr, u64, success,
}
use anti.Logger.{
  LogLevel, rank, info, Logger, Outcome, done, blocked, unfinished, Files, max_log_size, clipped,
  log_message, log_by, rotate_by, write_file, echo,
}

-- The message makes the file too large, the file is opened again, and the note of the rotation is
-- not filtered.
pub record Jams (files : Files) (level : LogLevel) (text : List ℕ) (g : Logger) : Type 0 where
  pub heard : g.level ≤ rank level
  pub writes : g.open_file ≡ true
  pub named : g.log_file ≢ none
  pub over : max_log_size < u64 (g.bytes_written + length (clipped text) + 64)
  pub reopens : files.opened ≡ true
  pub tells : g.level ≤ 1

-- The nested note of the rotation, with the lock held.
log_held :
    (depth : ℕ) (files : Files) (text : List ℕ) (g : Logger)
    → g.locked ≡ true
    → g.level ≤ 1
    → log_message (suc depth) files info text g ≡ blocked
unfolding log_message log_by
log_held depth files text g held low = ground arith

log_filtered :
    (depth : ℕ) (files : Files) (text : List ℕ) (g : Logger)
    → 1 < g.level
    → log_message (suc depth) files info text g ≡ done success g
unfolding log_message log_by
log_filtered depth files text g high = ground arith

pub Outcome-cases :
    (o : Outcome) → (o ≡ blocked) ⊎ (o ≡ unfinished) ⊎ ((r : ℤ) × (g : Logger) × (o ≡ done r g))
Outcome-cases blocked = inl refl
Outcome-cases unfinished = inr (inl refl)
Outcome-cases (done r g) = inr (inr (r, g, refl))

module _ (depth : ℕ) (files : Files) (level : LogLevel) (text : List ℕ) (g : Logger)
    (free : g.locked ≡ false) where
  Jams-blocked :
      Jams files level text g → log_message (suc (suc depth)) files level text g ≡ blocked
  unfolding log_message log_by rotate_by write_file echo
  Jams-blocked j = elim (Option-cases g.log_file) [
    | inl anonymous ↦ absurd (j.named anonymous)
    | inr (name, e) ↦ ground (arith, j.heard, j.writes, j.over, j.reopens, j.tells)
  ]

  blocked-Jams :
      log_message (suc (suc depth)) files level text g ≡ blocked → Jams files level text g
  unfolding log_message log_by rotate_by write_file echo
  blocked-Jams b = elim (Option-cases g.log_file) [
    | inl anonymous ↦ absurd (ground arith)
    | inr (name, e) ↦ record {
      heard = ground arith;
      writes = ground arith;
      named = ground arith;
      over = ground arith;
      reopens = ground arith;
      tells = ground arith;
    }
  ]

  log_message-ne-unfinished : log_message (suc (suc depth)) files level text g ≢ unfinished
  unfolding log_message log_by rotate_by write_file echo
  log_message-ne-unfinished u = elim (Option-cases g.log_file) [
    | inl anonymous ↦ ground arith
    | inr (name, e) ↦ ground arith
  ]

  log_message-unlocks :
      {r : ℤ} {g' : Logger}
      → log_message (suc (suc depth)) files level text g ≡ done r g'
      → (r ≡ success) × (g'.locked ≡ false)
  unfolding log_message log_by rotate_by write_file echo
  log_message-unlocks d = elim (Option-cases g.log_file) [
    | inl anonymous ↦ (ground arith, ground arith)
    | inr (name, e) ↦ (ground arith, ground arith)
  ]

  -- Where the lock is free, a message that makes the file larger than 100 MB, while the file is open
  -- and is opened again and notes of level INFO are not filtered, blocks the thread for ever. Each other
  -- message returns with the lock free again. Two calls inside one another are all there are.
  pub log_message-Jams :
      ((log_message (suc (suc depth)) files level text g ≡ blocked) ↔ Jams files level text g)
      × ((log_message (suc (suc depth)) files level text g ≡ blocked)
          ⊎ ((g' : Logger) × (log_message (suc (suc depth)) files level text g ≡ done success g')
              × (g'.locked ≡ false)))
  log_message-Jams = (
    (blocked-Jams, Jams-blocked),
    elim (Outcome-cases (log_message (suc (suc depth)) files level text g)) [
      | inl b ↦ inl b
      | inr (inl u) ↦ absurd (log_message-ne-unfinished u)
      | inr (inr (r, g', d)) ↦
          let (ok, opened) = log_message-unlocks d in inr (g', rw (← ok) d, opened)
    ],
  )
