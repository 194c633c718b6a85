-- ===== src/LogFile/Rolls.antt =====
-- What a roll, a flush and the branches after an append keep of the files of the log.
use mathlib.Core.List.{append-nil, append_assoc}
use my_chat_respons.Common.{
  ℕ, suc, ◌-◌, ◌*◌, ◌/◌, ◌≤◌, ◌<◌, Bool, true, Option, some, List, [], ◌∷◌, ◌++◌, ltb, leb, ◌==◌,
  ok, ◌>>=◌, ◌≡◌, refl, sym, ap, ◌∙◌, ◌⊎◌, inl, inr, arith, Bool-cases, Returns, Returns-bind,
  ltb→lt,
}
use my_chat_respons.LogFile.{
  AppendFile, LogFile, Line, flush, roll_per_seconds, closing, roll_file, check_period,
  after_append, new_append_file,
}

-- What the files hold together, from the oldest on.
abbrev pub texts : List AppendFile → List ℕ
texts [] = []
texts (f ∷ fs) = texts fs ++ f.text

abbrev pub all_files : LogFile → List AppendFile
all_files l = closing l.file l.closed

-- Each file was opened at a later second than the one before, the newest before `t`.
abbrev pub OpenedBefore : ℕ → List AppendFile → Type 0
OpenedBefore t [] = Unit
OpenedBefore t (f ∷ fs) = (f.opened < t) × OpenedBefore f.opened fs

-- There is a file; no two files have the same second in their names; the period is that of the last roll,
-- which is not after the last flush; and the lines are counted up to `check_every_n`.
pub record Tidy (l : LogFile) : Type 0 where
  pub has_file : (f : AppendFile) × (l.file ≡ some f)
  pub names : OpenedBefore (suc l.last_roll) (all_files l)
  pub period : l.start_of_period ≡ l.last_roll / roll_per_seconds * roll_per_seconds
  pub flushes : l.last_roll ≤ l.last_flush
  pub counts : (l.count ≡ 0) ⊎ (l.count < l.check_every_n)

abbrev pub Kept : LogFile → List ℕ → LogFile → Type 0
Kept l new l' = Tidy l' × (texts (all_files l') ≡ texts (all_files l) ++ new)

OpenedBefore-mono : (s t : ℕ) (fs : List AppendFile) → s ≤ t → OpenedBefore s fs → OpenedBefore t fs
OpenedBefore-mono s t [] le h = tt
OpenedBefore-mono s t (f ∷ fs) le (lt, h) = (omega arith, h)

-- A file that a line was added to, or that was flushed.
pub with_file-Kept :
    (l : LogFile) (f f' : AppendFile) (new : List ℕ)
    → Tidy l
    → l.file ≡ some f
    → f'.opened ≡ f.opened
    → f'.text ≡ f.text ++ new
    → Kept l new (record l { file = some f' })
with_file-Kept l f f' new v e o t =
    let before : OpenedBefore (suc l.last_roll) (f ∷ l.closed) = rw e at v.names in
    (
      record {
        has_file = (f', refl);
        names = (omega arith, OpenedBefore-mono f.opened f'.opened l.closed (omega arith) before.1);
        period = v.period;
        flushes = v.flushes;
        counts = v.counts;
      },
      ap (λ (ys : List ℕ). texts l.closed ++ ys) t
          ∙ sym (append_assoc (texts l.closed) f.text new)
          ∙ ap (λ (o : Option AppendFile). texts (closing o l.closed) ++ new) (sym e),
    )

with_count-Tidy :
    (n : ℕ) (l : LogFile) → Tidy l → (n ≡ 0) ⊎ (n < l.check_every_n) → Tidy (record l { count = n })
with_count-Tidy n l v h = record {
  has_file = v.has_file;
  names = v.names;
  period = v.period;
  flushes = v.flushes;
  counts = h;
}

with_flush-Tidy :
    (now : ℕ) (l : LogFile) → Tidy l → l.last_roll ≤ now → Tidy (record l { last_flush = now })
with_flush-Tidy now l v h = record {
  has_file = v.has_file;
  names = v.names;
  period = v.period;
  flushes = h;
  counts = v.counts;
}

pub same-Kept : (l : LogFile) → Tidy l → Kept l [] l
same-Kept l v = (v, sym (append-nil (texts (all_files l))))

module _ (opens : ℕ → Bool) (always : (t : ℕ) → opens t ≡ true) where
  roll_file-Kept :
      (now : ℕ) (l : LogFile) → Tidy l → Returns (λ r. Kept l [] r.1) (roll_file opens now l)
  unfolding roll_file new_append_file
  roll_file-Kept now l v = elim (Bool-cases (ltb l.last_roll now)) [
    | inl t ↦
        let later : l.last_roll < now = ltb→lt l.last_roll now t in
        rw (t, always now)
          (
            record {
              has_file = (new_append_file now, refl);
              names = (
                omega arith,
                OpenedBefore-mono (suc l.last_roll) now (all_files l) (omega arith) v.names,
              );
              period = refl;
              flushes = omega arith;
              counts = v.counts;
            },
            refl,
          )
    | inr f ↦ rw f (same-Kept l v)
  ]

  -- A roll whose result is not looked at.
  rolled-Kept :
      (now : ℕ) (l : LogFile)
      → Tidy l
      → Returns (Kept l []) (roll_file opens now l >>= λ r. ok (r.1))
  rolled-Kept now l v =
      Returns-bind (λ r. Kept l [] r.1) (Kept l []) (roll_file opens now l) (λ r. ok (r.1))
        (roll_file-Kept now l v) (λ r h. h)

  check_period-Kept :
      (x : Line) (f : AppendFile) (l : LogFile)
      → Tidy l
      → l.file ≡ some f
      → Returns (Kept l []) (check_period opens x f l)
  unfolding check_period flush
  check_period-Kept x f l v e =
      elim (Bool-cases (x.now / roll_per_seconds * roll_per_seconds == l.start_of_period)) [
        | inl t ↦ elim (Bool-cases (ltb l.flush_interval (x.now - l.last_flush))) [
          | inl u ↦
              let later : l.flush_interval < x.now - l.last_flush = ltb→lt _ _ u in
              let (w, s) = with_file-Kept l f (flush f) [] v e refl (sym (append-nil f.text)) in
              rw (t, u)
                (
                  with_flush-Tidy x.now (record l { file = some (flush f) }) w
                      (omega (arith, later, v.flushes)),
                  s,
                )
          | inr u ↦ rw (t, u) (same-Kept l v)
        ]
        | inr t ↦ rw t (rolled-Kept x.roll_now l v)
      ]

  pub after_append-Kept :
      (x : Line) (f : AppendFile) (l : LogFile)
      → Tidy l
      → l.file ≡ some f
      → Returns (Kept l []) (after_append opens x f l)
  unfolding after_append
  after_append-Kept x f l v e = elim (Bool-cases (ltb l.roll_size f.write_bytes)) [
    | inl t ↦ rw t (rolled-Kept x.roll_now l v)
    | inr t ↦ elim (Bool-cases (leb l.check_every_n (suc l.count))) [
      | inl u ↦
          rw (t, u)
            (check_period-Kept x f (record l { count = 0 }) (with_count-Tidy 0 l v (inl refl)) e)
      | inr u ↦
          let fewer : suc l.count < l.check_every_n = ground arith in
          rw (t, u) (with_count-Tidy (suc l.count) l v (inr fewer), (same-Kept l v).1)
    ]
  ]
