-- ===== src/TimerQueue.antt =====
-- net/timer_queue.h, net/timer_queue.cpp, net/timer.h, net/timer.cpp and base/time_stamp.h: the
-- timers of a loop, in its thread. A pointer to a timer is a number, with what it points at in
-- `heap`; a time is microseconds. `timers` is the set ordered by time and pointer, `active` the set
-- of pointers and sequence numbers, in no order. `insert` ends without its return: what its caller
-- finds in place of the result is an argument.
pub mod Ordered
pub mod Expired
mod Erase
pub mod Cancel
pub mod RoundTrip
mod Tests
use my_chat_respons.Common.{
  ℕ, ◌-◌, ◌*◌, ◌/◌, ◌%◌, ◌^◌, Bool, true, false, not, ◌&&◌, ◌||◌, Option, none, some, List, [], ◌∷◌,
  ltb, ◌==◌, if◌then◌else◌, length, Outcome, ok, fault, assert, ◌>>=◌, ◌>>◌,
}
use my_chat_respons.Common.Int.{ℤ, pos, pos_part, ◌+ℤ◌, ◌-ℤ◌, ◌*ℤ◌, quot, ltb_ℤ, eqb_ℤ}

abbrev pub micro_seconds_persecond : ℕ
micro_seconds_persecond = 1000000

-- `TimeStamp::valid`.
unfoldable pub is_valid_time : ℤ → Bool
is_valid_time t = ltb_ℤ (pos 0) t

-- `from_unix_time` does not use its microseconds; `now` does not use those of `gettimeofday`.
unfoldable pub from_unix_time : ℤ → ℤ → ℤ
from_unix_time t microseconds = t *ℤ pos micro_seconds_persecond

unfoldable pub now_of : ℤ → ℤ → ℤ
now_of tv_sec tv_usec = tv_sec *ℤ pos micro_seconds_persecond

unfoldable pub seconds_since_epoch : ℤ → ℤ
seconds_since_epoch t = quot t micro_seconds_persecond

-- `add_time`, from what the product in `double` is rounded to.
unfoldable pub add_time : ℤ → ℤ → ℤ
add_time t delta = t +ℤ delta

-- The interval is its microseconds.
pub record Timer : Type 0 where
  pub expiration : ℤ
  pub interval : ℤ
  pub repeat : Bool
  pub sequence : ℕ

-- The constructor; `sequence` is the counter that `increment_and_get` gives.
unfoldable pub new_timer : ℤ → ℤ → ℕ → Timer
new_timer when interval sequence = record {
  expiration = when;
  interval = interval;
  repeat = ltb_ℤ (pos 0) interval;
  sequence = sequence;
}

unfoldable pub restart : ℤ → Timer → Timer
unfolding add_time
restart now t =
    if t.repeat
    then record t { expiration = add_time now t.interval }
    else record t { expiration = pos 0 }

abbrev pub Entry : Type 0
Entry = ℤ × ℕ

abbrev pub ActiveTimer : Type 0
ActiveTimer = ℕ × ℕ

pub record TimerQueue : Type 0 where
  pub heap : ℕ → Option Timer
  pub timers : List Entry
  pub active : List ActiveTimer
  pub calling_expired : Bool
  pub canceling : List ActiveTimer
  pub armed : List ℤ

-- `operator<` of the pairs.
abbrev pub lt_entry : Entry → Entry → Bool
lt_entry (t, p) (u, r) = ltb_ℤ t u || (eqb_ℤ t u && ltb p r)

-- `set::insert`; `none` if the entry is there.
unfoldable pub insert_entry : Entry → List Entry → Option (List Entry)
insert_entry e [] = some (e ∷ [])
insert_entry e (x ∷ xs) =
    let deeper : Option (List Entry) = elim (insert_entry e xs) [
      | none ↦ none
      | some ys ↦ some (x ∷ ys)
    ] in
    if lt_entry e x then some (e ∷ x ∷ xs) else if lt_entry x e then deeper else none

abbrev pub same_timer : ActiveTimer → ActiveTimer → Bool
same_timer (p, s) (r, t) = (p == r) && (s == t)

abbrev pub is_active : ActiveTimer → List ActiveTimer → Bool
is_active k [] = false
is_active k (x ∷ xs) = same_timer k x || is_active k xs

unfoldable pub insert_active : ActiveTimer → List ActiveTimer → Option (List ActiveTimer)
insert_active k xs = if is_active k xs then none else some (k ∷ xs)

-- `erase`; `none` if there is no such element.
unfoldable pub erase_active : ActiveTimer → List ActiveTimer → Option (List ActiveTimer)
erase_active k [] = none
erase_active k (x ∷ xs) =
    let deeper : Option (List ActiveTimer) = elim (erase_active k xs) [
      | none ↦ none
      | some ys ↦ some (x ∷ ys)
    ] in
    if same_timer k x then some xs else deeper

abbrev pub same_entry : Entry → Entry → Bool
same_entry (t, p) (u, r) = eqb_ℤ t u && (p == r)

unfoldable pub erase_entry : Entry → List Entry → Option (List Entry)
erase_entry e [] = none
erase_entry e (x ∷ xs) =
    let deeper : Option (List Entry) = elim (erase_entry e xs) [
      | none ↦ none
      | some ys ↦ some (x ∷ ys)
    ] in
    if same_entry e x then some xs else deeper

-- An assertion that there was a result, or that a pointer points at something.
abbrev pub need {ℓ} : {A : Type ℓ} → Option A → Outcome A
need none = fault
need (some a) = ok a

abbrev pub write_heap : ℕ → Option Timer → (ℕ → Option Timer) → ℕ → Option Timer
write_heap p t heap = λ r. if r == p then t else heap r

-- Whether the timer is earlier than all that wait.
abbrev pub is_earliest : ℤ → List Entry → Bool
is_earliest when [] = true
is_earliest when ((t, p) ∷ es) = ltb_ℤ when t

unfoldable pub insert : ℕ → TimerQueue → Outcome TimerQueue
unfolding insert_entry insert_active
insert p q = do
  assert (length q.timers == length q.active)
  timer ← need (q.heap p)
  timers ← need (insert_entry (timer.expiration, p) q.timers)
  active ← need (insert_active (p, timer.sequence) q.active)
  ok (record q { timers = timers; active = active })

-- `howMuchTimeFromNow`: the seconds and nanoseconds of a `timespec`.
unfoldable pub how_much_time_from_now : ℤ → ℤ → ℕ × ℕ
how_much_time_from_now when now =
    let micro_second = when -ℤ now in
    let at_least : ℕ = if ltb_ℤ micro_second (pos 100) then 100 else pos_part micro_second in
    (at_least / micro_seconds_persecond, at_least % micro_seconds_persecond * 1000)

-- `resetTimerfd`.
abbrev pub reset_timerfd : ℤ → TimerQueue → TimerQueue
reset_timerfd expiration q = record q { armed = expiration ∷ q.armed }

-- `left` is what stands for the result of `insert`.
unfoldable pub add_timer_in_loop : Bool → ℕ → TimerQueue → Outcome TimerQueue
unfolding insert
add_timer_in_loop left p q = do
  q' ← insert p q
  timer ← need (q'.heap p)
  ok (if left then reset_timerfd timer.expiration q' else q')

unfoldable pub cancel_in_loop : ActiveTimer → TimerQueue → Outcome TimerQueue
unfolding erase_entry erase_active
cancel_in_loop (p, sequence) q = do
  assert (length q.timers == length q.active)
  q' ←
      (if is_active (p, sequence) q.active
        then (do
          timer ← need (q.heap p)
          timers ← need (erase_entry (timer.expiration, p) q.timers)
          active ← need (erase_active (p, sequence) q.active)
          ok (record q { heap = write_heap p none q.heap; timers = timers; active = active }))
        else ok (
            if q.calling_expired
            then record q {
              canceling =
                  if is_active (p, sequence) q.canceling
                  then q.canceling
                  else (p, sequence) ∷ q.canceling;
            }
            else q))
  assert (length q'.timers == length q'.active)
  ok q'

abbrev pub uintptr_max : ℕ
uintptr_max = 2 ^ 64 - 1

-- Up to the lower bound of the sentry, and from there on.
unfoldable pub split_due : ℤ → List Entry → List Entry × List Entry
split_due now [] = ([], [])
split_due now (x ∷ xs) =
    let (due, later) = split_due now xs in
    if lt_entry x (now, uintptr_max) then (x ∷ due, later) else ([], x ∷ xs)

abbrev pub bound_holds : ℤ → List Entry → Bool
bound_holds now [] = true
bound_holds now ((t, p) ∷ es) = not (ltb_ℤ t now)

unfoldable pub erase_expired :
    (ℕ → Option Timer) → List Entry → List ActiveTimer → Outcome (List ActiveTimer)
unfolding erase_active
erase_expired heap [] active = ok active
erase_expired heap ((t, p) ∷ es) active = do
  timer ← need (heap p)
  active' ← need (erase_active (p, timer.sequence) active)
  erase_expired heap es active'

unfoldable pub get_expired : ℤ → TimerQueue → Outcome (List Entry × TimerQueue)
unfolding split_due erase_expired
get_expired now q = do
  assert (length q.timers == length q.active)
  let (expired, later) = split_due now q.timers
  assert (bound_holds now later)
  active ← erase_expired q.heap expired q.active
  assert (length later == length active)
  ok (expired, record q { timers = later; active = active })

-- `reset`, which nothing calls: a repeating timer is put back, unless it was cancelled meanwhile.
unfoldable pub reset_all : List Entry → ℤ → TimerQueue → Outcome TimerQueue
unfolding insert restart
reset_all [] now q = ok q
reset_all ((t, p) ∷ es) now q = do
  timer ← need (q.heap p)
  q' ←
      (if timer.repeat && not (is_active (p, timer.sequence) q.canceling)
        then insert p (record q { heap = write_heap p (some (restart now timer)) q.heap })
        else ok (record q { heap = write_heap p none q.heap }))
  reset_all es now q'

unfoldable pub reset : List Entry → ℤ → TimerQueue → Outcome TimerQueue
unfolding reset_all is_valid_time
reset expired now q = do
  q' ← reset_all expired now q
  elim q'.timers [
    | [] ↦ ok q'
    | x ∷ es ↦ (do
      timer ← need (q'.heap x.1)
      ok (if is_valid_time timer.expiration then reset_timerfd timer.expiration q' else q'))
  ]

-- The callbacks of the expired timers, which may add and cancel timers: `run` is a parameter.
unfoldable pub run_all :
    (ℕ → TimerQueue → Outcome TimerQueue) → List Entry → TimerQueue → Outcome TimerQueue
run_all run [] q = ok q
run_all run ((t, p) ∷ es) q = do q' ← run p q; run_all run es q'

unfoldable pub handle_read :
    (ℕ → TimerQueue → Outcome TimerQueue) → ℤ → TimerQueue → Outcome TimerQueue
unfolding get_expired run_all
handle_read run now q = do
  r ← get_expired now q
  q' ← run_all run r.0 (record (r.1) { calling_expired = true; canceling = [] })
  ok (record q' { calling_expired = false })
