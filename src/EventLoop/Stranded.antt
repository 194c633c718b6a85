-- ===== src/EventLoop/Stranded.antt =====
-- What becomes of the tasks that are given to a loop by `queueInLoop` (net/event_loop.cpp), in every order of the
-- steps of its thread and the others.
use my_chat_respons.Common.{
  ℕ, ◌≡◌, refl, ap, sym, ◌∙◌, ◌⊎◌, inl, inr, true, false, List, [], ◌∷◌, ◌++◌,
}
use my_chat_respons.EventLoop.{EventLoop, wakeup, queue_in_loop}
use my_chat_respons.EventLoop.Interleaving.{
  Place, outside, testing, handling, calling, Threads, new_threads, enter, Step, pushes, wakes,
  queues_outside, quits_elsewhere, enters, leaves, polls, handler_quits, reads, handler_queues,
  swaps, calls, ends, Reach, here, next,
}

-- The loop's thread is outside of `loop`, or about to leave it; every task that was queued waits and none ran.
pub record IsStranded (s : Threads) : Type 0 where
  pub place : (s.place ≡ outside) ⊎ ((s.place ≡ testing) × (s.quit_set ≡ true))
  pub waits : s.event_loop.pending ≡ s.queued
  pub none_ran : s.event_loop.ran ≡ []
  pub idle : s.event_loop.calling_pending ≡ false

-- At no other place.
elsewhere :
    {s : Threads} {p : Place}
    → IsStranded s
    → s.place ≡ p
    → ((p ≡ outside) ⊎ ((p ≡ testing) × (s.quit_set ≡ true)))
elsewhere v e = elim (v.place) [ inl o ↦ inl (sym e ∙ o) | inr (t, q) ↦ inr (sym e ∙ t, q) ]

not_handling : {s : Threads} → IsStranded s → s.place ≡ handling → ⊥
not_handling v e = elim (elsewhere v e) [ inl o ↦ cc | inr (t, q) ↦ cc ]

not_calling : {s : Threads} (ts : List ℕ) → IsStranded s → s.place ≡ calling ts → ⊥
not_calling ts v e = elim (elsewhere v e) [ inl o ↦ cc | inr (t, q) ↦ cc ]

queued_one :
    (l : EventLoop) (task : ℕ)
    → l.calling_pending ≡ false
    → queue_in_loop true task l ≡ record l { pending = l.pending ++ (task ∷ []) }
unfolding queue_in_loop
queued_one l task idle = simp idle refl

Step-IsStranded :
    (queues : ℕ → List ℕ) {s t : Threads} → Step queues s t → IsStranded s → IsStranded t
unfolding wakeup enter
Step-IsStranded queues (pushes s task) v = record {
  place = v.place;
  waits = ap (λ (ys : List ℕ). ys ++ (task ∷ [])) v.waits;
  none_ran = v.none_ran;
  idle = v.idle;
}
Step-IsStranded queues (wakes s n e) v = record {
  place = v.place;
  waits = v.waits;
  none_ran = v.none_ran;
  idle = v.idle;
}
Step-IsStranded queues (queues_outside s task e) v =
    let one = queued_one s.event_loop task v.idle in
    record {
      place = v.place;
      waits =
          ap (λ (l : EventLoop). l.pending) one ∙ ap (λ (ys : List ℕ). ys ++ (task ∷ [])) v.waits;
      none_ran = ap (λ (l : EventLoop). l.ran) one ∙ v.none_ran;
      idle = ap (λ (l : EventLoop). l.calling_pending) one ∙ v.idle;
    }
Step-IsStranded queues (quits_elsewhere s) v = record {
  place = elim (v.place) [ inl o ↦ inl o | inr (t, q) ↦ inr (t, refl) ];
  waits = v.waits;
  none_ran = v.none_ran;
  idle = v.idle;
}
Step-IsStranded queues (enters s e) v = record {
  place = inr (refl, refl);
  waits = v.waits;
  none_ran = v.none_ran;
  idle = v.idle;
}
Step-IsStranded queues (leaves s e q) v = record {
  place = inl refl;
  waits = v.waits;
  none_ran = v.none_ran;
  idle = v.idle;
}
Step-IsStranded queues (polls s e going) v = elim (elsewhere v e) [
  | inl o ↦ absurd cc
  | inr (t, q) ↦ absurd cc
]
Step-IsStranded queues (handler_quits s e) v = absurd (not_handling v e)
Step-IsStranded queues (reads s e) v = absurd (not_handling v e)
Step-IsStranded queues (handler_queues s task e) v = absurd (not_handling v e)
Step-IsStranded queues (swaps s e) v = absurd (not_handling v e)
Step-IsStranded queues (calls s task tasks e) v = absurd (not_calling (task ∷ tasks) v e)
Step-IsStranded queues (ends s e) v = absurd (not_calling [] v e)

-- From a new loop on, in every order of the steps of its thread, which may call `loop` again and again, and of the other
-- threads, which queue tasks, wake the loop up and call `quit`: the loop's thread never gets past the test of
-- `while`, so that each task given to `queueInLoop` still waits, in the order in which they were given, and none of
-- them has run.
pub Reach-IsStranded : (queues : ℕ → List ℕ) (s : Threads) → Reach queues s → IsStranded s
unfolding new_threads
Reach-IsStranded queues s here = record {
  place = inl refl;
  waits = refl;
  none_ran = refl;
  idle = refl;
}
Reach-IsStranded queues s (next {r} path st) =
    Step-IsStranded queues st (Reach-IsStranded queues r path)
