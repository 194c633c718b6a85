-- ===== src/AsyncLogging/Rounds.antt =====
-- The thread that writes the log does not come round.
use my_chat_respons.Common.{
  ℕ, Bool, true, false, Option, none, some, List, [], ◌∷◌, Outcome, ok, fault, ◌≡◌, refl, Ensures,
  Ensures-any, ◌++◌, assert, ◌>>◌, not, if◌then◌else◌, Ensures-bind,
}
use my_chat_respons.LogStream.{FixBuffer}
use my_chat_respons.LogFile.{Line, pointed}
use my_chat_respons.AsyncLogging.{
  AsyncLogging, Writer, is_empty, is_clean, fill_next, swap_buffers, write_round,
}

-- No value comes of it.
abbrev pub Stops {ℓ} : {A : Type ℓ} → Outcome A → Type 0
Stops m = Ensures (λ _. ⊥) m

stopped {ℓ} : {A : Type ℓ} (m : Outcome A) → Stops m → m ≡ fault
stopped (ok a) h = absurd h
stopped fault h = refl

nothing_in : (bs : List FixBuffer) → is_empty bs ≡ true → bs ≡ []
nothing_in [] h = refl
nothing_in (b ∷ bs) h = cc

assert_then : {A : Type 0} (b : Bool) (m : Outcome A) → (b ≡ true → Stops m) → Stops (assert b >> m)
assert_then true m h = h refl
assert_then false m h = tt

gives :
    (next : Option FixBuffer) (a : AsyncLogging) (w : Writer)
    → w.buffers_to_writes ≡ []
    → ((fill_next next a w).1.spare1 ≡ none) × ((fill_next next a w).1.buffers_to_writes ≡ [])
gives none a w e = (refl, e)
gives (some n) a w e = (refl, e)

-- Nothing is put into `buffers_to_writes`, and the first spare buffer is given away.
swap_buffers-gives :
    (meanwhile : AsyncLogging → AsyncLogging) (a : AsyncLogging) (w : Writer)
    → is_empty w.buffers_to_writes ≡ true
    → Ensures (λ r. (r.1.spare1 ≡ none) × (r.1.buffers_to_writes ≡ [])) (swap_buffers meanwhile a w)
unfolding swap_buffers
swap_buffers-gives meanwhile a w e =
    let empty : w.buffers_to_writes ≡ [] = nothing_in w.buffers_to_writes e in
    let a' : AsyncLogging = if is_empty a.buffers then meanwhile a else a in
    Ensures-bind (λ _. Unit) (λ r. (r.1.spare1 ≡ none) × (r.1.buffers_to_writes ≡ []))
      (pointed a'.current)
      (λ b.
        let a'' : AsyncLogging = record a' {
          buffers = a'.buffers ++ (b ∷ []);
          current = w.spare1;
        } in
        ok (fill_next a''.next a'' w))
      (Ensures-any (pointed a'.current))
      (λ b _.
        gives a'.next (record a' { buffers = a'.buffers ++ (b ∷ []); current = w.spare1 }) w empty)

-- Every round of the writer stops at an assertion, whatever the threads that log do meanwhile and the files of
-- the log take.
pub write_round-stops :
    (opens : ℕ → Bool) (line : List ℕ → Line) (dropped : List ℕ)
    (meanwhile : AsyncLogging → AsyncLogging) (a : AsyncLogging) (w : Writer)
    → write_round opens line dropped meanwhile a w ≡ fault
unfolding write_round
write_round-stops opens line dropped meanwhile a w =
    stopped (write_round opens line dropped meanwhile a w) (
      assert_then (is_clean w.spare1) _ (λ _. assert_then (is_empty w.buffers_to_writes) _ (λ e.
        Ensures-bind (λ r. (r.1.spare1 ≡ none) × (r.1.buffers_to_writes ≡ [])) (λ _. ⊥)
          (swap_buffers meanwhile a w) _ (swap_buffers-gives meanwhile a w e)
          (λ r (gone, empty).
            assert_then (not (is_empty r.0.buffers)) _ (λ _. rw (gone, empty) tt)))))
