-- ===== src/MThread/Starting.antt =====
-- A thread that is started (base/m_thread.cpp), with the steps at its latch (base/count_down_latch.cpp).
use my_chat_respons.Common.{ℕ, ◌≡◌, ◌≢◌, refl, sym, ap, ◌∙◌, true, false, List, Returns}
use my_chat_respons.Common.Int.{pos, ltb_ℤ}
use my_chat_respons.CountDownLatch.{
  CountDownLatch, Place, outside, testing, blocked, passed, new_latch, put_at, test_count, calls,
}
use my_chat_respons.CountDownLatch
use my_chat_respons.CountDownLatch.Waiting.{downs, Reach-new_latch}
use my_chat_respons.MThread.{
  MThread, created, new_thread, start, Step, tests, wakes, runs, finishes, crashes, Reach, here,
  next,
}

-- A run of the latch in which nobody counts down.
abbrev Quiet : CountDownLatch → Type 0
Quiet l = (r : CountDownLatch.Reach (new_latch (pos 1)) l) × (downs r ≡ 0)

record IsStuck (t : MThread) : Type 0 where
  quiet : Quiet t.latch
  unknown : t.tid ≡ 0

Step-IsStuck : {t u : MThread} → Step t u → IsStuck t → IsStuck u
Step-IsStuck (tests t at) v = record {
  quiet = (CountDownLatch.next (v.quiet.0) (CountDownLatch.tests t.latch 0 at), v.quiet.1);
  unknown = v.unknown;
}
Step-IsStuck (wakes t at) v = record {
  quiet = (CountDownLatch.next (v.quiet.0) (CountDownLatch.wakes t.latch 0 at), v.quiet.1);
  unknown = v.unknown;
}
Step-IsStuck (runs t at) v = record { quiet = v.quiet; unknown = v.unknown }
Step-IsStuck (finishes t at) v = record { quiet = v.quiet; unknown = v.unknown }
Step-IsStuck (crashes t at) v = record { quiet = v.quiet; unknown = v.unknown }

Reach-IsStuck : {t u : MThread} → IsStuck t → Reach t u → IsStuck u
Reach-IsStuck v here = v
Reach-IsStuck v (next r st) = Step-IsStuck st (Reach-IsStuck v r)

-- The thread when `start` has made it.
abbrev started_thread : (ℕ → List ℕ) → ℕ → List ℕ → MThread
started_thread text num name = record (new_thread text num name) {
  started = true;
  latch = record (new_latch (pos 1)) { place = put_at ((new_latch (pos 1)).place) 0 testing };
  life = created;
}

one_left : ltb_ℤ (pos 0) (pos 1) ≡ false → ⊥
one_left e = let e' : true ≡ false = e in cc

-- Whoever has started a thread that could be made never comes back from `start`, whatever the thread does and in whatever order: in
-- every state that is reached it is still at the latch, which the thread does not count down, and the number of
-- the thread is still 0.
pub start-stuck :
    (text : ℕ → List ℕ) (num : ℕ) (name : List ℕ)
    → Returns
        (λ t. (u : MThread) → Reach t u → (u.latch.place 0 ≢ passed) × (u.tid ≡ 0))
        (start true (new_thread text num name))
unfolding start new_thread
start-stuck text num name u r =
    let at_start : IsStuck (started_thread text num name) = record {
      quiet = (
        CountDownLatch.next CountDownLatch.here
            (CountDownLatch.calls (new_latch (pos 1)) 0 (unfold new_latch in refl)),
        refl,
      );
      unknown = refl;
    } in
    let v = Reach-IsStuck at_start r in
    let (_, behind, _) = Reach-new_latch (pos 1) u.latch v.quiet.0 in
    ((λ e. one_left (ap (λ n. ltb_ℤ (pos n) (pos 1)) (sym v.quiet.1) ∙ behind 0 e)), v.unknown)
