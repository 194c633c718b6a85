-- ===== src/TimerQueue/Expired.antt =====
-- Which timers `getExpired` (net/timer_queue.cpp) takes out, and what `handleRead` leaves.
use my_chat_respons.Common.{
  ℕ, ◌<◌, ◌≡◌, refl, ap, ◌∙◌, inl, inr, true, false, Option, List, [], ◌∷◌, ◌++◌, arith, ◌==◌,
  ==_refl, if◌then◌else◌, Bool-cases, length, Outcome, ok, assert, Returns, Returns-value,
  Ensures-at, Ensures-bind, Ensures-any,
}
use my_chat_respons.Common.Int.{ℤ, ltb_ℤ}
use my_chat_respons.TimerQueue.{
  Timer, Entry, ActiveTimer, TimerQueue, lt_entry, uintptr_max, split_due, bound_holds,
  erase_expired, get_expired, run_all, handle_read,
}
use my_chat_respons.TimerQueue.Ordered.{Above, Increasing, Paired, InStep, Paired-length}

abbrev pub AllPointers : List Entry → Type 0
AllPointers [] = Unit
AllPointers (x ∷ xs) = (x.1 < uintptr_max) × AllPointers xs

-- Not after the given time, and after it.
abbrev pub AllDue : ℤ → List Entry → Type 0
AllDue now [] = Unit
AllDue now (x ∷ xs) = (ltb_ℤ now x.0 ≡ false) × AllDue now xs

abbrev pub AllLater : ℤ → List Entry → Type 0
AllLater now [] = Unit
AllLater now (x ∷ xs) = (ltb_ℤ now x.0 ≡ true) × AllLater now xs

before_sentry :
    (now t : ℤ) (p : ℕ)
    → p < uintptr_max
    → lt_entry (t, p) (now, uintptr_max) ≡ (if ltb_ℤ now t then false else true)
before_sentry now t p h = ground arith

split_due-append : (now : ℤ) (xs : List Entry) → (split_due now xs).0 ++ (split_due now xs).1 ≡ xs
unfolding split_due
split_due-append now [] = refl
split_due-append now (x ∷ xs) = elim (Bool-cases (lt_entry x (now, uintptr_max))) [
  | inl t ↦ rw t (ap (◌∷◌ x) (split_due-append now xs))
  | inr f ↦ rw f refl
]

later_on :
    (now : ℤ) (x : Entry) (xs : List Entry)
    → ltb_ℤ now x.0 ≡ true
    → Above x xs
    → Increasing xs
    → AllLater now xs
later_on now x [] h above inc = tt
later_on now (t, p) ((u, r) ∷ xs) h above (next, inc) =
    let k : ltb_ℤ now u ≡ true = ground (arith, h, above) in (k, later_on now (u, r) xs k next inc)

split_due-All :
    (now : ℤ) (xs : List Entry)
    → AllPointers xs
    → Increasing xs
    → AllDue now (split_due now xs).0 × AllLater now (split_due now xs).1
unfolding split_due
split_due-All now [] ptrs inc = (tt, tt)
split_due-All now ((t, p) ∷ xs) (ptr, ptrs) (above, inc) =
    let e = before_sentry now t p ptr in
    let (due, later) = split_due-All now xs ptrs inc in
    elim (Bool-cases (ltb_ℤ now t)) [
      | inl y ↦
          let f : lt_entry (t, p) (now, uintptr_max) ≡ false =
            e ∙ ap (λ b. if b then false else true) y in
          rw f (tt, (y, later_on now (t, p) xs y above inc))
      | inr n ↦
          let f : lt_entry (t, p) (now, uintptr_max) ≡ true =
            e ∙ ap (λ b. if b then false else true) n in
          rw f ((n, due), later)
    ]

bound_holds-later : (now : ℤ) (xs : List Entry) → AllLater now xs → bound_holds now xs ≡ true
bound_holds-later now [] h = refl
bound_holds-later now ((t, p) ∷ xs) (h, _) = ground (arith, h)

Increasing-rest : (xs ys : List Entry) → Increasing (xs ++ ys) → Increasing ys
Increasing-rest [] ys h = h
Increasing-rest (x ∷ xs) ys h = Increasing-rest xs ys h.1

erase_expired-Paired :
    (heap : ℕ → Option Timer) (xs ys : List Entry) (active : List ActiveTimer)
    → Paired heap (xs ++ ys) active
    → Returns (λ rest. Paired heap ys rest) (erase_expired heap xs active)
unfolding erase_expired
erase_expired-Paired heap [] ys active h = h
erase_expired-Paired heap ((t, p) ∷ xs) ys active (timer, rest, found, erased, h) =
    rw (found, erased) (erase_expired-Paired heap xs ys rest h)

-- What `getExpired` promises: the timers that are not after `now` come out, in order, all others
-- stay, and the two sets are in step again.
abbrev pub Splits : ℤ → TimerQueue → List Entry × TimerQueue → Type 0
Splits now q r =
    (r.0 ++ r.1.timers ≡ q.timers) × AllDue now r.0 × AllLater now r.1.timers × InStep r.1

-- Where the two sets are in step, and no pointer is the largest number, `getExpired` returns: exactly the
-- timers that are not after `now` come out, in order, the others stay, and the sets are in step.
pub get_expired-Splits :
    (now : ℤ) (q : TimerQueue)
    → InStep q
    → AllPointers q.timers
    → Returns (Splits now q) (get_expired now q)
unfolding get_expired
get_expired-Splits now q v ptrs =
    let whole = split_due-append now q.timers in
    let (due, later) = split_due-All now q.timers ptrs v.increasing in
    let xs = (split_due now q.timers).0 in
    let ys = (split_due now q.timers).1 in
    let (rest, e, paired) =
      Returns-value (λ rest. Paired q.heap ys rest) (erase_expired q.heap xs q.active)
        (erase_expired-Paired q.heap xs ys q.active (rw whole v.paired)) in
    rw
      (
        Paired-length q.heap q.timers q.active v.paired,
        ==_refl (length q.active),
        bound_holds-later now ys later,
        e,
        Paired-length q.heap ys rest paired,
        ==_refl (length rest),
      )
      (
        whole,
        due,
        later,
        record { increasing = Increasing-rest xs ys (rw whole v.increasing); paired = paired },
      )

run_all-quiet :
    (run : ℕ → TimerQueue → Outcome TimerQueue) (es : List Entry) (q : TimerQueue)
    → ((p : ℕ) (q : TimerQueue) → run p q ≡ ok q)
    → run_all run es q ≡ ok q
unfolding run_all
run_all-quiet run [] q quiet = refl
run_all-quiet run ((t, p) ∷ es) q quiet = rw (quiet p q) (run_all-quiet run es q quiet)

armed_same :
    (now : ℤ) (q : TimerQueue) (r : List Entry × TimerQueue)
    → get_expired now q ≡ ok r
    → r.1.armed ≡ q.armed
unfolding get_expired
armed_same now q r e =
    Ensures-at (λ r. r.1.armed ≡ q.armed) {m = get_expired now q}
      (Ensures-bind (λ _. Unit {0}) (λ r. r.1.armed ≡ q.armed)
        (assert (length q.timers == length q.active)) _ (Ensures-any _)
        (λ _ _.
          Ensures-bind (λ _. Unit {0}) (λ r. r.1.armed ≡ q.armed)
            (assert (bound_holds now (split_due now q.timers).1)) _ (Ensures-any _)
            (λ _ _.
              Ensures-bind (λ _. Unit {0}) (λ r. r.1.armed ≡ q.armed)
                (erase_expired q.heap (split_due now q.timers).0 q.active) _ (Ensures-any _)
                (λ rest _.
                  Ensures-bind (λ _. Unit {0}) (λ r. r.1.armed ≡ q.armed)
                    (assert (length (split_due now q.timers).1 == length rest)) _ (Ensures-any _)
                    (λ _ _. refl)))))
      e

-- A repeating timer runs once: where the sets are in step, no pointer is the largest number, and the callbacks touch
-- no timers, `handleRead` returns with no timer waiting that is not after `now`, repeating or not, and has not
-- set the timer descriptor again.
handle_read_forgets :
    (run : ℕ → TimerQueue → Outcome TimerQueue) (now : ℤ) (q : TimerQueue)
    → InStep q
    → AllPointers q.timers
    → ((p : ℕ) (q : TimerQueue) → run p q ≡ ok q)
    → Returns (λ q'. AllLater now q'.timers × (q'.armed ≡ q.armed)) (handle_read run now q)
unfolding handle_read
handle_read_forgets run now q v ptrs quiet =
    let (r, e, (_, _, later, _)) =
      Returns-value (Splits now q) (get_expired now q) (get_expired-Splits now q v ptrs) in
    rw (e, run_all-quiet run r.0 (record (r.1) { calling_expired = true; canceling = [] }) quiet)
      (later, armed_same now q r e)
