-- ===== src/TimerQueue/RoundTrip.antt =====
-- A timer that is added and cancelled (net/timer_queue.cpp).
use my_chat_respons.Common.{
  ℕ, suc, ◌≡◌, refl, ap, ◌∙◌, true, false, none, some, List, [], ◌∷◌, arith, ◌==◌, length, ok,
  ◌>>=◌, Returns,
}
use my_chat_respons.Common.Int.{ℤ}
use my_chat_respons.TimerQueue.{
  Timer, Entry, ActiveTimer, TimerQueue, same_entry, same_timer, is_active, insert_entry,
  insert_active, insert, erase_entry, cancel_in_loop,
}
use my_chat_respons.TimerQueue.Ordered.{
  InStep, Paired-length, insert_entry-new, insert_entry-nil, insert_entry-Inserted, front, deeper,
  not_active-not_waiting,
}
use my_chat_respons.TimerQueue.Cancel.{Apart}

same_self : (t : ℤ) (p : ℕ) → same_entry (t, p) (t, p) ≡ true
same_self t p = ground arith

other_pointer : (t u : ℤ) (p r : ℕ) → (r == p) ≡ false → same_entry (t, p) (u, r) ≡ false
other_pointer t u p r f = ground arith

erase_head : (t : ℤ) (p : ℕ) (xs : List Entry) → erase_entry (t, p) ((t, p) ∷ xs) ≡ some xs
unfolding erase_entry
erase_head t p xs = rw (same_self t p) refl

erase_deeper :
    (e x : Entry) (xs ys : List Entry)
    → same_entry e x ≡ false
    → erase_entry e xs ≡ some ys
    → erase_entry e (x ∷ xs) ≡ some (x ∷ ys)
unfolding erase_entry
erase_deeper e x xs ys f h = rw (f, h) refl

-- What was put in comes out again.
erase_entry-insert_entry :
    (t : ℤ) (p : ℕ) (xs ys : List Entry)
    → Apart p xs
    → insert_entry (t, p) xs ≡ some ys
    → erase_entry (t, p) ys ≡ some xs
erase_entry-insert_entry t p [] ys apart h =
    ap (erase_entry (t, p)) (insert_entry-nil (t, p) ys h) ∙ erase_head t p []
erase_entry-insert_entry t p ((u, r) ∷ xs) ys (other, apart) h =
    elim (insert_entry-Inserted (t, p) (u, r) xs ys h) [
      | front less e ↦ ap (erase_entry (t, p)) e ∙ erase_head t p ((u, r) ∷ xs)
      | deeper zs more i e ↦
          ap (erase_entry (t, p)) e
          ∙ erase_deeper (t, p) (u, r) zs xs (other_pointer t u p r other)
              (erase_entry-insert_entry t p xs zs apart i)
    ]

-- The queue behind `insert` of a timer.
abbrev with_timer : ActiveTimer → List Entry → TimerQueue → TimerQueue
with_timer k ys q = record q { timers = ys; active = k ∷ q.active }

insert-with_timer :
    (p : ℕ) (timer : Timer) (ys : List Entry) (q : TimerQueue)
    → (length q.timers == length q.active) ≡ true
    → q.heap p ≡ some timer
    → insert_entry (timer.expiration, p) q.timers ≡ some ys
    → is_active (p, timer.sequence) q.active ≡ false
    → insert p q ≡ ok (with_timer (p, timer.sequence) ys q)
unfolding insert insert_active
insert-with_timer p timer ys q same found i new = rw (same, found, i, new) refl

same_timer_self : (k : ActiveTimer) → same_timer k k ≡ true
same_timer_self (p, s) = ground arith

-- In a queue whose sets are in step, `insert` of a timer of which no entry has the pointer and that is not active, followed by its
-- `cancelInLoop`, returns: both sets are as they were, and the timer is deleted.
pub insert-cancel_in_loop :
    (p : ℕ) (timer : Timer) (q : TimerQueue)
    → InStep q
    → q.heap p ≡ some timer
    → Apart p q.timers
    → is_active (p, timer.sequence) q.active ≡ false
    → Returns
        (λ r. (r.timers ≡ q.timers) × (r.active ≡ q.active) × (r.heap p ≡ none))
        (insert p q >>= cancel_in_loop (p, timer.sequence))
unfolding cancel_in_loop
insert-cancel_in_loop p timer q v found apart new =
    let k : ActiveTimer = (p, timer.sequence) in
    let e : Entry = (timer.expiration, p) in
    let (ys, i, n) = insert_entry-new e q.timers (
      not_active-not_waiting q.heap timer.expiration p timer q.timers q.active found new
        v.paired) in
    let same = Paired-length q.heap q.timers q.active v.paired in
    let equal : (length q.timers == length q.active) ≡ true = ground arith in
    let more : (length ys == suc (length q.active)) ≡ true = ground arith in
    let out = erase_entry-insert_entry timer.expiration p q.timers ys apart i in
    rw (insert-with_timer p timer ys q equal found i new)
      (simp (more, same_timer_self k, found, out, equal) (refl, refl, ground arith))
