-- ===== src/LogFile/Writes.antt =====
-- The loop of `AppendFile::append` ends, and what it leaves in the stream.
use my_chat_respons.Common.{
  ℕ, zero, suc, ◌+◌, ◌-◌, ◌≤◌, ◌<◌, Bool, true, false, not, ◌&&◌, Option, none, some, List, [], ◌∷◌,
  ◌++◌, ◌==◌, length, take, drop, ◌≡◌, refl, sym, ap, ◌∙◌, ◌⊎◌, inl, inr, arith, Bool-cases,
  drop-drop, Returns, ==_iff, take-append-drop, drop_all, take_eq, take-nil,
}
use mathlib.Core.List.{append_assoc, append-nil}
use my_chat_respons.LogFile.{AppendFile, Fwrite, append_loop, counted, append}

-- What the documentation of fwrite promises, and less: it accepts no more than it is given, and one byte
-- at least where it does not set the error.
abbrev pub Progresses : Fwrite → Type 0
Progresses fwrite =
    (call remain : ℕ)
    → 0 < remain
    → ((fwrite call remain).0 ≤ remain)
      × ((0 < (fwrite call remain).0) ⊎ ((fwrite call remain).1 ≡ true))

-- A call that sets the error.
abbrev pub Fails : Fwrite → Type 0
Fails fwrite = (call : ℕ) × (remain : ℕ) × ((fwrite call remain).1 ≡ true)

-- The rest of a line is in the stream, and counted; or a call fails, the stream has a part of the rest,
-- and no more than that is counted.
abbrev pub Wrote : Fwrite → List ℕ → ℕ → List ℕ → Option (ℕ × List ℕ) → Type 0
Wrote fwrite line written text none = ⊥
Wrote fwrite line written text (some (w, t)) =
    ((w ≡ length line) × (t ≡ text ++ drop written line))
    ⊎ (Fails fwrite
        × (n : ℕ) × (t ≡ text ++ take n (drop written line))
        × (written ≤ w)
        × (w ≤ written + n))

take-take-drop {ℓ} :
    {A : Type ℓ} (n m : ℕ) (xs : List A) → take n xs ++ take m (drop n xs) ≡ take (n + m) xs
take-take-drop zero m xs = take_eq m (0 + m) xs (omega arith)
take-take-drop (suc n) m [] = take-nil m ∙ sym (take-nil (suc n + m))
take-take-drop (suc n) m (x ∷ xs) =
    ap (λ ys. x ∷ ys) (take-take-drop n m xs)
    ∙ take_eq (suc (n + m)) (suc n + m) (x ∷ xs) (omega arith)

Wrote-shift :
    (fwrite : Fwrite) (line : List ℕ) (written n : ℕ) (text : List ℕ) (o : Option (ℕ × List ℕ))
    → Wrote fwrite line (written + n) (text ++ take n (drop written line)) o
    → Wrote fwrite line written text o
Wrote-shift fwrite line written n text none h = h
Wrote-shift fwrite line written n text (some (w, t)) (inl (e, s)) = inl (
  e,
  s
      ∙ append_assoc text (take n (drop written line)) (drop (written + n) line)
      ∙ ap (λ (ys : List ℕ). text ++ ys)
          (ap (λ (ys : List ℕ). take n (drop written line) ++ ys) (sym (drop-drop n written line))
            ∙ take-append-drop n (drop written line)),
)
Wrote-shift fwrite line written n text (some (w, t)) (inr (bad, k, s, lo, hi)) = inr (
  bad,
  n + k,
  s
      ∙ append_assoc text (take n (drop written line)) (take k (drop (written + n) line))
      ∙ ap (λ (ys : List ℕ). text ++ ys)
          (ap (λ (ys : List ℕ). take n (drop written line) ++ take k ys)
              (sym (drop-drop n written line))
            ∙ take-take-drop n k (drop written line)),
  omega arith,
  omega arith,
)

and_right : (a b : Bool) → (a && b) ≡ true → b ≡ true
and_right true b h = h
and_right false b h = cc

-- A line that is in the stream, and counted; or a part of it, after a failing call.
abbrev pub Appended : Fwrite → List ℕ → AppendFile → AppendFile → Type 0
Appended fwrite line f f' =
    ((f'.text ≡ f.text ++ line) × (f'.write_bytes ≡ f.write_bytes + length line))
    ⊎ (Fails fwrite
        × (n : ℕ) × (f'.text ≡ f.text ++ take n line)
        × (f.write_bytes ≤ f'.write_bytes)
        × (f'.write_bytes ≤ f.write_bytes + n))

counted-Wrote :
    (fwrite : Fwrite) (line : List ℕ) (f : AppendFile) (o : Option (ℕ × List ℕ))
    → Wrote fwrite line 0 f.text o
    → Returns (λ f'. Appended fwrite line f f' × (f'.opened ≡ f.opened)) (counted f o)
counted-Wrote fwrite line f none h = absurd h
counted-Wrote fwrite line f (some (w, t)) (inl (e, s)) = (inl (s, omega arith), refl)
counted-Wrote fwrite line f (some (w, t)) (inr (bad, n, s, lo, hi)) =
    (inr (bad, n, s, omega arith, omega arith), refl)

module _ (fwrite : Fwrite) (progress : Progresses fwrite) where
  -- A call that neither fails nor accepts all that remains accepts a byte.
  accepted :
      (call remain : ℕ)
      → 0 < remain
      → (not ((fwrite call remain).0 == remain) && (fwrite call remain).1) ≡ false
      → (0 < (fwrite call remain).0) × ((fwrite call remain).0 ≤ remain)
  accepted call remain some_left e =
      let (le, p) = progress call remain some_left in
      elim p [
        | inl pos ↦ (pos, le)
        | inr err ↦ elim (Bool-cases ((fwrite call remain).0 == remain)) [
          | inl t ↦ (let same = (==_iff (fwrite call remain).0 remain).0 t in omega arith, le)
          | inr f ↦ let no_error : (fwrite call remain).1 ≡ false = rw f at e in cc
        ]
      ]

  append_loop-Wrote :
      (fuel call : ℕ) (line : List ℕ) (written : ℕ) (text : List ℕ)
      → written ≤ length line
      → length line - written < fuel
      → Wrote fwrite line written text (append_loop fwrite fuel call line written text)
  unfolding append_loop
  append_loop-Wrote zero call line written text le enough = omega arith
  append_loop-Wrote (suc fuel) call line written text le enough =
      elim (Bool-cases (written == length line)) [
        | inl t ↦
            let same : written ≡ length line = (==_iff written (length line)).0 t in
            let nothing : drop written line ≡ [] = drop_all written line (omega arith) in
            rw t
              (inl (same, sym (append-nil text) ∙ ap (λ (ys : List ℕ). text ++ ys) (sym nothing)))
        | inr f ↦
            elim (Bool-cases (
              not ((fwrite call (length line - written)).0 == length line - written)
              && (fwrite call (length line - written)).1)) [
                | inl t ↦
                    let err : (fwrite call (length line - written)).1 ≡ true =
                      and_right
                        (not ((fwrite call (length line - written)).0 == length line - written))
                        ((fwrite call (length line - written)).1) t in
                    rw (f, t)
                      (inr (
                        (call, length line - written, err),
                        (fwrite call (length line - written)).0,
                        refl,
                        omega arith,
                        omega arith,
                      ))
                | inr g ↦
                    let n = (fwrite call (length line - written)).0 in
                    let some_left : 0 < length line - written = ground arith in
                    let (more, most) = accepted call (length line - written) some_left g in
                    rw (f, g)
                      (Wrote-shift fwrite line written n text _ (
                        append_loop-Wrote fuel (suc call) line (written + n)
                          (text ++ take n (drop written line)) (omega arith) (omega arith)))
              ]
      ]

  -- Where each call of fwrite accepts a byte or sets the error, and never more than it is given, the loop of
  -- `append` ends: the line is behind what the stream had, and all of it counted; or a call has failed, a
  -- part of the line is there, and no more than that part counted. The name of the file stays.
  pub append-Appended :
      (line : List ℕ) (f : AppendFile)
      → Returns (λ f'. Appended fwrite line f f' × (f'.opened ≡ f.opened)) (append fwrite line f)
  unfolding append
  append-Appended line f =
      counted-Wrote fwrite line f (append_loop fwrite (suc (length line)) 0 line 0 f.text)
        (append_loop-Wrote (suc (length line)) 0 line 0 f.text (omega arith) (omega arith))
