-- ===== src/LogFile/Lines.antt =====
-- Over a row of lines the log keeps every byte in the order of its files, whose names differ.
use mathlib.Core.List.{append-nil, append_assoc}
use my_chat_respons.Common.{
  ℕ, ◌+◌, ◌<◌, Bool, true, false, some, List, [], ◌∷◌, ◌++◌, ltb, length, Outcome, ok, ◌>>=◌, ◌≡◌,
  refl, ap, ◌∙◌, inl, inr, arith, Returns, Returns-bind, Returns-mono,
}
use my_chat_respons.LogFile.{
  AppendFile, LogFile, Line, Fwrite, append, roll_file, new_log_file, after_append, append_unlocked,
  new_append_file,
}
use my_chat_respons.LogFile.Writes.{Progresses, Appended, append-Appended}
use my_chat_respons.LogFile.Rolls.{
  texts, all_files, Tidy, Kept, with_file-Kept, same-Kept, after_append-Kept,
}

-- A stream that takes at least a byte at each call and never fails.
abbrev pub Healthy : Fwrite → Type 0
Healthy fwrite = Progresses fwrite × ((call remain : ℕ) → (fwrite call remain).1 ≡ false)

pub Appended-Healthy :
    (fwrite : Fwrite) (line : List ℕ) (f f' : AppendFile)
    → Healthy fwrite
    → Appended fwrite line f f'
    → (f'.text ≡ f.text ++ line) × (f'.write_bytes ≡ f.write_bytes + length line)
Appended-Healthy fwrite line f f' h (inl whole) = whole
Appended-Healthy fwrite line f f' h (inr ((call, remain, bad), _, _, _, _)) =
    let good = h.1 call remain in cc

abbrev pub AllHealthy : List Line → Type 0
AllHealthy [] = Unit
AllHealthy (x ∷ xs) = Healthy x.fwrite × AllHealthy xs

abbrev pub bytes_of : List Line → List ℕ
bytes_of [] = []
bytes_of (x ∷ xs) = x.bytes ++ bytes_of xs

-- The lines given to the log, one after the other.
unfoldable pub append_each : (ℕ → Bool) → List Line → LogFile → Outcome LogFile
append_each opens [] l = ok l
append_each opens (x ∷ xs) l = do l' ← append_unlocked opens x l; append_each opens xs l'

Kept-trans :
    (l l' l'' : LogFile) (new new' : List ℕ)
    → Kept l new l'
    → Kept l' new' l''
    → Kept l (new ++ new') l''
Kept-trans l l' l'' new new' (v, s) (w, t) =
    (w, t ∙ ap (λ (ys : List ℕ). ys ++ new') s ∙ append_assoc (texts (all_files l)) new new')

module _ (opens : ℕ → Bool) (always : (t : ℕ) → opens t ≡ true) where
  append_unlocked-Kept :
      (x : Line) (l : LogFile)
      → Healthy x.fwrite
      → Tidy l
      → Returns (Kept l x.bytes) (append_unlocked opens x l)
  unfolding append_unlocked
  append_unlocked-Kept x l healthy v =
      let (f, e) = v.has_file in
      simp e (
        Returns-bind (λ f'. Appended x.fwrite x.bytes f f' × (f'.opened ≡ f.opened))
          (Kept l x.bytes) (append x.fwrite x.bytes f)
          (λ f'. after_append opens x f' (record l { file = some f' }))
          (append-Appended x.fwrite (healthy.0) x.bytes f)
          (λ f' (h, o).
            let t = (Appended-Healthy x.fwrite x.bytes f f' healthy h).0 in
            let k = with_file-Kept l f f' x.bytes v e o t in
            Returns-mono (Kept (record l { file = some f' }) []) (Kept l x.bytes)
              (after_append opens x f' (record l { file = some f' }))
              (λ l'' k'.
                (k'.0, k'.1 ∙ append-nil (texts (all_files (record l { file = some f' }))) ∙ k.1))
              (after_append-Kept opens always x f' (record l { file = some f' }) (k.0) refl)))

  append_each-Kept :
      (xs : List Line) (l : LogFile)
      → AllHealthy xs
      → Tidy l
      → Returns (Kept l (bytes_of xs)) (append_each opens xs l)
  unfolding append_each
  append_each-Kept [] l healthy v = same-Kept l v
  append_each-Kept (x ∷ xs) l (healthy, rest) v =
      Returns-bind (Kept l x.bytes) (Kept l (bytes_of (x ∷ xs))) (append_unlocked opens x l)
        (λ l'. append_each opens xs l') (append_unlocked-Kept x l healthy v)
        (λ l' k.
          Returns-mono (Kept l' (bytes_of xs)) (Kept l (bytes_of (x ∷ xs)))
            (append_each opens xs l') (λ l'' k'. Kept-trans l l' l'' x.bytes (bytes_of xs) k k')
            (append_each-Kept xs l' rest (k.0)))

  -- Where every file opens, the clock is past 0 and each call of fwrite accepts a byte and never fails, a new
  -- log takes every row of lines. Its files then hold all bytes of the lines, once and in order, whatever
  -- the clock shows meanwhile; no two files were opened in the same second, so their names differ; and
  -- the period, the last flush and the count of lines are as `Tidy` says.
  pub append_each-bytes_of :
      (start roll_size flush_interval check_every_n : ℕ) (xs : List Line)
      → 0 < start
      → AllHealthy xs
      → Returns
          (λ l. Tidy l × (texts (all_files l) ≡ bytes_of xs))
          (new_log_file opens start roll_size flush_interval check_every_n >>= λ l.
            append_each opens xs l)
  unfolding new_log_file roll_file new_append_file
  append_each-bytes_of start roll_size flush_interval check_every_n xs started healthy =
      let starts : ltb 0 start ≡ true = ground arith in
      Returns-bind (λ l. Tidy l × (texts (all_files l) ≡ []))
        (λ l. Tidy l × (texts (all_files l) ≡ bytes_of xs))
        (new_log_file opens start roll_size flush_interval check_every_n)
        (λ l. append_each opens xs l)
        (rw (starts, always start)
          (
            record {
              has_file = (new_append_file start, refl);
              names = (omega arith, tt);
              period = refl;
              flushes = omega arith;
              counts = inl refl;
            },
            refl,
          ))
        (λ l (v, s).
          Returns-mono (Kept l (bytes_of xs)) (λ l'. Tidy l' × (texts (all_files l') ≡ bytes_of xs))
            (append_each opens xs l)
            (λ l' k. (k.0, k.1 ∙ ap (λ (ys : List ℕ). ys ++ bytes_of xs) s))
            (append_each-Kept xs l healthy v))
