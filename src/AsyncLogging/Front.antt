-- ===== src/AsyncLogging/Front.antt =====
-- What the threads that log put into the buffers.
use mathlib.Core.List.{append-nil, append_assoc}
use my_chat_respons.Common.{
  ℕ, ◌<◌, Option, none, some, List, [], ◌∷◌, ◌++◌, Outcome, ok, ◌>>=◌, ◌≡◌, refl, sym, ap, ◌∙◌,
  arith, Bool-cases, inl, inr, Returns, Returns-bind, Returns-mono, length, ltb,
}
use my_chat_respons.LogStream.{FixBuffer, new_fix_buffer, avail}
use my_chat_respons.LogStream
use my_chat_respons.AsyncLogging.{AsyncLogging, large_buffer, new_logging, append, spare_or_new}

abbrev pub joined : List FixBuffer → List ℕ
joined [] = []
joined (b ∷ bs) = b.text ++ joined bs

-- The bytes that wait to be written.
abbrev pub waiting : AsyncLogging → Option FixBuffer → List ℕ
waiting a none = joined a.buffers
waiting a (some b) = joined a.buffers ++ b.text

-- There is a current buffer of the large size, and the next one, if it is there, is such a one and empty.
abbrev pub Large : FixBuffer → Type 0
Large b = b.size ≡ large_buffer

abbrev pub Spare : Option FixBuffer → Type 0
Spare none = Unit
Spare (some b) = (b.size ≡ large_buffer) × (b.text ≡ [])

pub record Ready (a : AsyncLogging) : Type 0 where
  pub writable : (b : FixBuffer) × (a.current ≡ some b) × (b.size ≡ large_buffer)
  pub spare : Spare a.next

joined-append :
    (bs : List FixBuffer) (b : FixBuffer) → joined (bs ++ (b ∷ [])) ≡ joined bs ++ b.text
joined-append [] b = append-nil b.text
joined-append (c ∷ bs) b =
    ap (λ (ys : List ℕ). c.text ++ ys) (joined-append bs b)
    ∙ sym (append_assoc c.text (joined bs) b.text)

-- An empty buffer of the large size takes every shorter line.
fresh : (o : Option FixBuffer) → Spare o → (Large (spare_or_new o)) × ((spare_or_new o).text ≡ [])
unfolding new_fix_buffer
fresh none h = (refl, refl)
fresh (some b) h = h

fits :
    (line : List ℕ) (b : FixBuffer)
    → length line < avail b
    → (LogStream.append line b).text ≡ b.text ++ line
unfolding LogStream.append
fits line b h = ground (arith, h)

roomy :
    (line : List ℕ) (b : FixBuffer)
    → length line < large_buffer
    → b.size ≡ large_buffer
    → b.text ≡ []
    → length line < avail b
unfolding avail
roomy line b short size empty = rw (size, empty) short

size-append : (line : List ℕ) (b : FixBuffer) → (LogStream.append line b).size ≡ b.size
unfolding LogStream.append
size-append line b = ground arith

abbrev pub Queued : List ℕ → AsyncLogging → AsyncLogging → Type 0
Queued line a a' = Ready a' × (waiting a' a'.current ≡ waiting a a.current ++ line)

append-Queued :
    (line : List ℕ) (a : AsyncLogging)
    → length line < large_buffer
    → Ready a
    → Returns (Queued line a) (append line a)
unfolding append
append-Queued line a short v =
    let (b, e, size) = v.writable in
    elim (Bool-cases (ltb (length line) (avail b))) [
      | inl t ↦
          simp (e, t)
            (
              record {
                writable = (record b { text = b.text ++ line }, refl, size);
                spare = v.spare;
              },
              sym (append_assoc (joined a.buffers) b.text line),
            )
      | inr f ↦
          let n = spare_or_new a.next in
          let (large, empty) = fresh a.next v.spare in
          let whole : (LogStream.append line n).text ≡ line =
            fits line n (roomy line n short large empty) ∙ ap (λ (ys : List ℕ). ys ++ line) empty in
          simp (e, f)
            (
              record {
                writable = (LogStream.append line n, refl, size-append line n ∙ large);
                spare = tt;
              },
              ap (λ (ys : List ℕ). ys ++ (LogStream.append line n).text) (joined-append a.buffers b)
                  ∙ ap (λ (ys : List ℕ). joined a.buffers ++ b.text ++ ys) whole,
            )
    ]

-- The lines given to the log by its threads, one after the other.
unfoldable pub append_all : List (List ℕ) → AsyncLogging → Outcome AsyncLogging
append_all [] a = ok a
append_all (x ∷ xs) a = do a' ← append x a; append_all xs a'

abbrev pub AllShort : List (List ℕ) → Type 0
AllShort [] = Unit
AllShort (x ∷ xs) = (length x < large_buffer) × AllShort xs

abbrev pub concat : List (List ℕ) → List ℕ
concat [] = []
concat (x ∷ xs) = x ++ concat xs

append_all-Queued :
    (xs : List (List ℕ)) (a : AsyncLogging)
    → AllShort xs
    → Ready a
    → Returns (Queued (concat xs) a) (append_all xs a)
unfolding append_all
append_all-Queued [] a short v = (v, sym (append-nil (waiting a a.current)))
append_all-Queued (x ∷ xs) a (short, rest) v =
    Returns-bind (Queued x a) (Queued (concat (x ∷ xs)) a) (append x a) (λ a'. append_all xs a')
      (append-Queued x a short v)
      (λ a' (v', s).
        Returns-mono (Queued (concat xs) a') (Queued (concat (x ∷ xs)) a) (append_all xs a')
          (λ a'' (v'', t). (
            v'',
            t
                ∙ ap (λ (ys : List ℕ). ys ++ concat xs) s
                ∙ append_assoc (waiting a a.current) x (concat xs),
          ))
          (append_all-Queued xs a' rest v'))

-- Every row of lines, each shorter than a large buffer, is taken by a new log: `append` never meets a null
-- pointer, the buffers together hold all lines, once and in order, and the log is ready for more.
pub append_all-concat :
    (xs : List (List ℕ))
    → AllShort xs
    → Returns (λ a. Ready a × (waiting a a.current ≡ concat xs)) (append_all xs new_logging)
unfolding new_logging new_fix_buffer
append_all-concat xs short =
    append_all-Queued xs new_logging short
      (record { writable = (new_fix_buffer large_buffer, refl, refl); spare = (refl, refl) })
