-- ===== src/CountDownLatch/Tests.antt =====
-- Two threads that wait for two calls of `count_down`, and the property at that run.
use my_chat_respons.Common.{ℕ, true, false, ◌≡◌, refl}
use my_chat_respons.Common.Int.{pos, ◌-ℤ◌, ltb_ℤ}
use my_chat_respons.CountDownLatch.{
  CountDownLatch, passed, blocked, new_latch, test_count, count_down, calls, tests, counts, Reach,
  here, next, put_at, testing,
}
use my_chat_respons.CountDownLatch.Waiting.{downs, Reach-new_latch}

-- Thread 0 sleeps, one call comes, thread 1 is about to test.
abbrev one_down : CountDownLatch
one_down = count_down (
    test_count 0
      (record (new_latch (pos 2)) { place = put_at ((new_latch (pos 2)).place) 0 testing }))

one_down_reached : Reach (new_latch (pos 2)) one_down
unfolding new_latch
one_down_reached = next (next (next here (calls _ 0 refl)) (tests _ 0 refl)) (counts _)

Reach-new_latch_example :
    ((i : ℕ) → one_down.place i ≡ blocked → ltb_ℤ (pos (downs one_down_reached)) (pos 2) ≡ true)
    × ((i : ℕ) → one_down.place i ≡ passed → ltb_ℤ (pos (downs one_down_reached)) (pos 2) ≡ false)
    × (one_down.count ≡ pos 2 -ℤ pos (downs one_down_reached))
Reach-new_latch_example = Reach-new_latch (pos 2) one_down one_down_reached
