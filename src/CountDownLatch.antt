-- ===== src/CountDownLatch.antt =====
-- base/count_down_latch.h and base/count_down_latch.cpp: threads that wait until a count has gone down. The
-- lock is held from a wake-up to the next wait, so what stands between two of these is one step; a
-- thread that waits may also wake up for no reason. The count is an int that does not overflow.
pub mod Waiting
mod Tests
use my_chat_respons.Common.{ℕ, ◌==◌, if◌then◌else◌, ◌≡◌}
use my_chat_respons.Common.Int.{ℤ, pos, ◌-ℤ◌, ltb_ℤ, eqb_ℤ}

-- Where a thread is: before its call of `wait`, at the test of the loop, in `cond_.wait()`, or behind the call.
pub data Place : Type 0 where
  outside testing blocked passed : Place

pub record CountDownLatch : Type 0 where
  pub count : ℤ
  pub place : ℕ → Place

unfoldable pub new_latch : ℤ → CountDownLatch
new_latch count = record { count = count; place = λ i. outside }

abbrev pub put_at : (ℕ → Place) → ℕ → Place → ℕ → Place
put_at place i p j = if j == i then p else place j

-- `notify_all`: every thread that is blocked goes back to its test.
abbrev pub woken : Place → Place
woken outside = outside
woken testing = testing
woken blocked = testing
woken passed = passed

-- One test of the loop of `wait`.
unfoldable pub test_count : ℕ → CountDownLatch → CountDownLatch
test_count i l = record l {
  place = put_at l.place i (if ltb_ℤ (pos 0) l.count then blocked else passed);
}

unfoldable pub count_down : CountDownLatch → CountDownLatch
count_down l =
    let count = l.count -ℤ pos 1 in
    record l {
      count = count;
      place = if eqb_ℤ count (pos 0) then (λ i. woken (l.place i)) else l.place;
    }

pub get_count : CountDownLatch → ℤ
get_count l = l.count

-- The steps of the threads: a call of `wait`, a test of its loop, a wake-up for no reason, and `count_down`.
pub data Step : CountDownLatch → CountDownLatch → Type 0 where
  calls :
      (l : CountDownLatch) (i : ℕ)
      → l.place i ≡ outside
      → Step l (record l { place = put_at l.place i testing })
  tests : (l : CountDownLatch) (i : ℕ) → l.place i ≡ testing → Step l (test_count i l)
  wakes :
      (l : CountDownLatch) (i : ℕ)
      → l.place i ≡ blocked
      → Step l (record l { place = put_at l.place i testing })
  counts : (l : CountDownLatch) → Step l (count_down l)

-- The latches that come of one by such steps.
pub data Reach (l : CountDownLatch) : CountDownLatch → Type 0 where
  here : Reach l l
  next : {m n : CountDownLatch} → Reach l m → Step m n → Reach l n
