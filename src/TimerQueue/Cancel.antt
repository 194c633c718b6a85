-- ===== src/TimerQueue/Cancel.antt =====
-- `cancelInLoop` (net/timer_queue.cpp) takes one timer out of both sets.
use my_chat_respons.Common.{
  ℕ, suc, ◌≡◌, refl, sym, ap, ◌∙◌, inl, inr, true, false, Option, none, some, List, [], ◌∷◌, arith,
  ◌==◌, Bool-cases, ==_iff, ==_refl, length, Returns,
}
use my_chat_respons.Common.Int.{ℤ}
use my_chat_respons.TimerQueue.{
  Timer, Entry, ActiveTimer, TimerQueue, same_entry, same_timer, is_active, erase_active,
  erase_entry, write_heap, cancel_in_loop,
}
use my_chat_respons.TimerQueue.Ordered.{Paired, InStep, Paired-length}
use my_chat_respons.TimerQueue.Erase.{
  same_timer_eq, erase_active-erase_active, is_active-erase_active, erase_entry-Increasing,
}

-- No entry has this pointer.
abbrev pub Apart : ℕ → List Entry → Type 0
Apart p [] = Unit
Apart p ((t, r) ∷ es) = ((r == p) ≡ false) × Apart p es

-- Every entry has the time of its timer, and no two entries have one pointer.
abbrev pub Timed : (ℕ → Option Timer) → List Entry → Type 0
Timed heap [] = Unit
Timed heap ((t, p) ∷ es) =
    ((timer : Timer) → heap p ≡ some timer → timer.expiration ≡ t) × Apart p es × Timed heap es

-- What erasing a timer that waits leaves of the two sets.
abbrev Taken : (ℕ → Option Timer) → ℕ → ℕ → List Entry → List ActiveTimer → Type 0
Taken heap p sequence es active =
    (timer : Timer) × (heap p ≡ some timer)
    × (es' : List Entry) × (erase_entry (timer.expiration, p) es ≡ some es')
    × (active' : List ActiveTimer) × (erase_active (p, sequence) active ≡ some active')
    × Paired heap es' active'
    × Timed heap es'
    × Apart p es'
    × (length es ≡ suc (length es'))
    × ((r : ℕ) → Apart r es → Apart r es')

same_entry_of_eq : (t u : ℤ) (p r : ℕ) → t ≡ u → r ≡ p → same_entry (t, p) (u, r) ≡ true
same_entry_of_eq t u p r e f = ground arith

other_entry : (t u : ℤ) (p r : ℕ) → (r == p) ≡ false → same_entry (t, p) (u, r) ≡ false
other_entry t u p r f = ground arith

-- What has no entry is not erased.
erase_entry-Apart : (u : ℤ) (p : ℕ) (es : List Entry) → Apart p es → erase_entry (u, p) es ≡ none
unfolding erase_entry
erase_entry-Apart u p [] h = refl
erase_entry-Apart u p ((t, r) ∷ es) (f, h) =
    rw (other_entry u t p r f, erase_entry-Apart u p es h) refl

take_out :
    (heap : ℕ → Option Timer) (p sequence : ℕ) (es : List Entry) (active : List ActiveTimer)
    → Paired heap es active
    → Timed heap es
    → is_active (p, sequence) active ≡ true
    → Taken heap p sequence es active
unfolding erase_entry
take_out heap p sequence [] active pairs timed h = let no : false ≡ true = rw pairs at h in cc
take_out heap p sequence ((t, r) ∷ es) active (timer, rest, found, erased, pairs)
      (time, apart, timed) h =
    elim (Bool-cases (same_timer (r, timer.sequence) (p, sequence))) [
      | inl y ↦
          let same : Path ActiveTimer (r, timer.sequence) (p, sequence) =
            same_timer_eq (r, timer.sequence) (p, sequence) y in
          let pointer : r ≡ p = ap (λ (k : ActiveTimer). k.0) same in
          let apart' : Apart p es = rw pointer at apart in
          (
            timer,
            ap heap (sym pointer) ∙ found,
            es,
            rw (same_entry_of_eq timer.expiration t p r (time timer found) pointer) refl,
            rest,
            ap (λ (k : ActiveTimer). erase_active k active) (sym same) ∙ erased,
            pairs,
            timed,
            apart',
            refl,
            λ r' k. k.1,
          )
      | inr f ↦
          let (tm, f1, es', e1, active', a1, pairs', timed', apart', n, keep) =
            take_out heap p sequence es rest pairs timed
              (is_active-erase_active (r, timer.sequence) (p, sequence) active rest f erased h) in
          let (ws, a, b) =
            erase_active-erase_active (r, timer.sequence) (p, sequence) active rest active' f erased
              a1 in
          elim (Bool-cases (r == p)) [
            | inl z ↦
                let pointer : r ≡ p = (==_iff r p).0 z in
                let apart'' : Apart p es = rw pointer at apart in
                let gone = erase_entry-Apart tm.expiration p es apart'' in
                absurd
                  (let no : ◌≡◌ {A = Option (List Entry)} none (some es') = sym gone ∙ e1 in cc)
            | inr g ↦ (
              tm,
              f1,
              (t, r) ∷ es',
              rw (other_entry tm.expiration t p r g, e1) refl,
              ws,
              a,
              (timer, active', found, b, pairs'),
              (time, keep r apart, timed'),
              (g, apart'),
              ap suc n,
              λ r' k. (k.0, keep r' k.1),
            )
          ]
    ]

-- Without a timer that no entry points at, the pairs and the times are as before.
write_heap-Paired :
    (heap : ℕ → Option Timer) (p : ℕ) (es : List Entry) (active : List ActiveTimer)
    → Apart p es
    → Paired heap es active
    → Paired (write_heap p none heap) es active
write_heap-Paired heap p [] active apart h = h
write_heap-Paired heap p ((t, r) ∷ es) active (f, apart) (timer, rest, found, erased, h) =
    (timer, rest, rw f found, erased, write_heap-Paired heap p es rest apart h)

write_heap-Timed :
    (heap : ℕ → Option Timer) (p : ℕ) (es : List Entry)
    → Apart p es
    → Timed heap es
    → Timed (write_heap p none heap) es
write_heap-Timed heap p [] apart h = tt
write_heap-Timed heap p ((t, r) ∷ es) (f, apart) (time, other, h) =
    ((λ timer found. time timer (rw f at found)), other, write_heap-Timed heap p es apart h)

-- The two sets are in step; every entry has the time of its timer, and a pointer of its own.
pub record IsWhole (q : TimerQueue) : Type 0 where
  pub step : InStep q
  pub times : Timed q.heap q.timers

-- In a queue whose sets are in step, where every entry has the time of its timer and a pointer of its own,
-- `cancelInLoop` of a timer that waits returns: the timer is deleted, no entry points at it, the sets have one
-- timer less each, and all the queue's invariant holds again.
pub cancel_in_loop-IsWhole :
    (p sequence : ℕ) (q : TimerQueue)
    → IsWhole q
    → is_active (p, sequence) q.active ≡ true
    → Returns
        (λ q'.
          IsWhole q'
          × (q'.heap p ≡ none)
          × Apart p q'.timers
          × (length q.timers ≡ suc (length q'.timers)))
        (cancel_in_loop (p, sequence) q)
unfolding cancel_in_loop
cancel_in_loop-IsWhole p sequence q w waits =
    let v = w.step in
    let same = Paired-length q.heap q.timers q.active v.paired in
    let (timer, found, es', e1, active', a1, pairs, timed, apart, n, _) =
      take_out q.heap p sequence q.timers q.active v.paired w.times waits in
    let pairs' = write_heap-Paired q.heap p es' active' apart pairs in
    let same' = Paired-length (write_heap p none q.heap) es' active' pairs' in
    simp (same, ==_refl (length q.active), waits, found, e1, a1, same', ==_refl (length active'))
      (
        record {
          step = record {
            increasing = erase_entry-Increasing (timer.expiration, p) q.timers es' v.increasing e1;
            paired = pairs';
          };
          times = write_heap-Timed q.heap p es' apart timed;
        },
        ground arith,
        apart,
        omega (arith, same, same', n),
      )
