-- ===== src/LogFile/Bounds.antt =====
-- How large a file of the log becomes.

use my_chat_respons.Common.{
  ℕ, suc, ◌-◌, ◌*◌, ◌/◌, ◌≤◌, Bool, true, some, ltb, leb, ◌==◌, ok, ◌>>=◌, ◌≡◌, refl, ◌⊎◌, inl, inr,
  arith, Bool-cases, Returns, Returns-bind,
}
use my_chat_respons.LogFile.{
  AppendFile, LogFile, Line, append, flush, roll_per_seconds, roll_file, check_period, after_append,
  append_unlocked, new_append_file,
}
use my_chat_respons.LogFile.Writes.{Progresses, Appended, append-Appended}

-- The file in use is within the size, or the clock has not moved since the last roll.
abbrev pub Within : ℕ → ℕ → ℕ → LogFile → Type 0
Within size now last_roll l =
    (f : AppendFile) × (l.file ≡ some f) × ((f.write_bytes ≤ size) ⊎ (now ≤ last_roll))

module _ (opens : ℕ → Bool) (always : (t : ℕ) → opens t ≡ true) where
  rolled-Within :
      (now : ℕ) (f : AppendFile) (l : LogFile)
      → l.file ≡ some f
      → Returns (Within l.roll_size now l.last_roll) (roll_file opens now l >>= λ r. ok (r.1))
  unfolding roll_file new_append_file
  rolled-Within now f l e = elim (Bool-cases (ltb l.last_roll now)) [
    | inl t ↦ rw (t, always now) (new_append_file now, refl, inl (omega arith))
    | inr t ↦ let same : now ≤ l.last_roll = ground arith in rw t (f, e, inr same)
  ]

  check_period-Within :
      (x : Line) (f : AppendFile) (l : LogFile)
      → l.file ≡ some f
      → f.write_bytes ≤ l.roll_size
      → Returns (Within l.roll_size x.roll_now l.last_roll) (check_period opens x f l)
  unfolding check_period flush
  check_period-Within x f l e small =
      elim (Bool-cases (x.now / roll_per_seconds * roll_per_seconds == l.start_of_period)) [
        | inl t ↦ elim (Bool-cases (ltb l.flush_interval (x.now - l.last_flush))) [
          | inl u ↦ rw (t, u) (flush f, refl, inl small)
          | inr u ↦ rw (t, u) (f, e, inl small)
        ]
        | inr t ↦ rw t (rolled-Within x.roll_now f l e)
      ]

  after_append-Within :
      (x : Line) (f : AppendFile) (l : LogFile)
      → l.file ≡ some f
      → Returns (Within l.roll_size x.roll_now l.last_roll) (after_append opens x f l)
  unfolding after_append
  after_append-Within x f l e = elim (Bool-cases (ltb l.roll_size f.write_bytes)) [
    | inl t ↦ rw t (rolled-Within x.roll_now f l e)
    | inr t ↦
        let small : f.write_bytes ≤ l.roll_size = ground arith in
        elim (Bool-cases (leb l.check_every_n (suc l.count))) [
          | inl u ↦ rw (t, u) (check_period-Within x f (record l { count = 0 }) e small)
          | inr u ↦ rw (t, u) (f, e, inl small)
        ]
  ]

  -- Where every file opens and each call of fwrite accepts a byte or sets the error, `append_unlocked` of a
  -- log with a file returns, and leaves a file of at most `roll_size` counted bytes; but in the
  -- second of the last roll, or before it, the file is kept and grows past that.
  append_unlocked-Within :
      (x : Line) (f : AppendFile) (l : LogFile)
      → Progresses x.fwrite
      → l.file ≡ some f
      → Returns (Within l.roll_size x.roll_now l.last_roll) (append_unlocked opens x l)
  unfolding append_unlocked
  append_unlocked-Within x f l progress e = simp e (
      Returns-bind (λ f'. Appended x.fwrite x.bytes f f' × (f'.opened ≡ f.opened))
        (Within l.roll_size x.roll_now l.last_roll) (append x.fwrite x.bytes f)
        (λ f'. after_append opens x f' (record l { file = some f' }))
        (append-Appended x.fwrite progress x.bytes f)
        (λ f' h. after_append-Within x f' (record l { file = some f' }) refl))
