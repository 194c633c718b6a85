-- ===== src/TimerQueue/Tests.antt =====
-- Timers (net/timer_queue.cpp) at concrete values.
use my_chat_respons.Common.{
  ℕ, suc, sym, ap, ◌≡◌, refl, true, false, none, some, [], ◌∷◌, ◌==◌, if◌then◌else◌, arith, ◌>>=◌,
  length, Returns,
}
use my_chat_respons.Common.Int.{ℤ, pos}
use my_chat_respons.TimerQueue.{
  Timer, TimerQueue, erase_active, cancel_in_loop, insert, get_expired,
}
use my_chat_respons.TimerQueue.Ordered.{InStep, insert-InStep}
use my_chat_respons.TimerQueue.Cancel.{IsWhole, Apart, cancel_in_loop-IsWhole}
use my_chat_respons.TimerQueue.RoundTrip.{insert-cancel_in_loop}
use my_chat_respons.TimerQueue.Expired.{Splits, get_expired-Splits}

abbrev repeating : ℤ → ℕ → Timer
repeating when sequence = record {
  expiration = when;
  interval = pos 10;
  repeat = true;
  sequence = sequence;
}

-- Two timers wait, at 5 and at 9; a third is made for 7.
abbrev two_timers : TimerQueue
two_timers = record {
  heap = λ p.
      if p == 100
      then some (repeating (pos 5) 1)
      else if p == 200
      then some (repeating (pos 9) 2)
      else if p == 300
      then some (repeating (pos 7) 3)
      else none;
  timers = (pos 5, 100) ∷ (pos 9, 200) ∷ [];
  active = (200, 2) ∷ (100, 1) ∷ [];
  calling_expired = false;
  canceling = [];
  armed = pos 5 ∷ [];
}

two_timers-InStep : InStep two_timers
unfolding erase_active
two_timers-InStep = record {
  increasing = (refl, (tt, tt));
  paired =
      (repeating (pos 5) 1, (200, 2) ∷ [], refl, refl, (repeating (pos 9) 2, [], refl, refl, refl));
}

insert-InStep_example : Returns (λ q'. InStep q' × (length q'.timers ≡ 3)) (insert 300 two_timers)
insert-InStep_example =
    insert-InStep 300 (repeating (pos 7) 3) two_timers two_timers-InStep refl refl

get_expired-Splits_example : Returns (Splits (pos 6) two_timers) (get_expired (pos 6) two_timers)
get_expired-Splits_example = get_expired-Splits (pos 6) two_timers two_timers-InStep (omega arith)

two_timers-IsWhole : IsWhole two_timers
two_timers-IsWhole = record {
  step = two_timers-InStep;
  times = (
    (λ timer found.
        let same : repeating (pos 5) 1 ≡ timer = cc in sym (ap (λ (t : Timer). t.expiration) same)),
    (refl, tt),
    (
      (λ timer found.
          let same : repeating (pos 9) 2 ≡ timer = cc in
          sym (ap (λ (t : Timer). t.expiration) same)),
      tt,
      tt,
    ),
  );
}

cancel_in_loop-IsWhole_example :
    Returns
      (λ q'. IsWhole q' × (q'.heap 100 ≡ none) × Apart 100 q'.timers × (2 ≡ suc (length q'.timers)))
      (cancel_in_loop (100, 1) two_timers)
cancel_in_loop-IsWhole_example = cancel_in_loop-IsWhole 100 1 two_timers two_timers-IsWhole refl

insert-cancel_in_loop_example :
    Returns
      (λ r. (r.timers ≡ two_timers.timers) × (r.active ≡ two_timers.active) × (r.heap 300 ≡ none))
      (insert 300 two_timers >>= cancel_in_loop (300, 3))
insert-cancel_in_loop_example =
    insert-cancel_in_loop 300 (repeating (pos 7) 3) two_timers two_timers-InStep refl
      (refl, (refl, tt)) refl
