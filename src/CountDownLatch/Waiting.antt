-- ===== src/CountDownLatch/Waiting.antt =====
-- Who waits, and who has passed, in every state of a latch that can be reached.
use my_chat_respons.Common.{
  ℕ, suc, ◌≢◌, true, false, ◌≡◌, refl, sym, ap, ◌∙◌, arith, Bool-cases, inl, inr,
}
use my_chat_respons.Common.Int.{ℤ, pos, ◌-ℤ◌, ◌+ℤ◌, ltb_ℤ, eqb_ℤ}
use my_chat_respons.CountDownLatch.{
  Place, outside, testing, blocked, passed, CountDownLatch, new_latch, put_at, woken, test_count,
  count_down, Step, calls, tests, wakes, counts, Reach, here, next,
}

-- Whoever sleeps does so while the count is positive, and whoever has passed while it is not.
pub record IsFair (l : CountDownLatch) : Type 0 where
  pub asleep : (i : ℕ) → l.place i ≡ blocked → ltb_ℤ (pos 0) l.count ≡ true
  pub through : (i : ℕ) → l.place i ≡ passed → ltb_ℤ (pos 0) l.count ≡ false

called :
    (l : CountDownLatch) (i : ℕ) → IsFair l → IsFair (record l { place = put_at l.place i testing })
called l i v = record {
  asleep = λ j e. ground (arith, e, v.asleep j);
  through = λ j e. ground (arith, e, v.through j);
}

tested : (l : CountDownLatch) (i : ℕ) → IsFair l → IsFair (test_count i l)
unfolding test_count
tested l i v = record {
  asleep = λ j e. ground (arith, e, v.asleep j);
  through = λ j e. ground (arith, e, v.through j);
}

still_positive :
    (c : ℤ)
    → ltb_ℤ (pos 0) c ≡ true
    → eqb_ℤ (c -ℤ pos 1) (pos 0) ≡ false
    → ltb_ℤ (pos 0) (c -ℤ pos 1) ≡ true
unfolding ◌-ℤ◌ ◌+ℤ◌
still_positive c h k = ground arith

still_not_positive : (c : ℤ) → ltb_ℤ (pos 0) c ≡ false → ltb_ℤ (pos 0) (c -ℤ pos 1) ≡ false
unfolding ◌-ℤ◌ ◌+ℤ◌
still_not_positive c h = ground arith

zero_not_positive : (c : ℤ) → eqb_ℤ c (pos 0) ≡ true → ltb_ℤ (pos 0) c ≡ false
zero_not_positive c h = ground arith

woken-blocked : (p : Place) → woken p ≢ blocked
woken-blocked outside = λ e. cc
woken-blocked testing = λ e. cc
woken-blocked blocked = λ e. cc
woken-blocked passed = λ e. cc

woken-passed : (p : Place) → woken p ≡ passed → p ≡ passed
woken-passed outside e = cc
woken-passed testing e = cc
woken-passed blocked e = cc
woken-passed passed e = refl

fewer : (l : CountDownLatch) → IsFair l → IsFair (count_down l)
unfolding count_down
fewer l v = elim (Bool-cases (eqb_ℤ (l.count -ℤ pos 1) (pos 0))) [
  | inl t ↦ rw t (record {
    asleep = λ j e. absurd (woken-blocked (l.place j) e);
    through = λ j e. zero_not_positive (l.count -ℤ pos 1) t;
  })
  | inr f ↦ rw f (record {
    asleep = λ j e. still_positive l.count (v.asleep j e) f;
    through = λ j e. still_not_positive l.count (v.through j e);
  })
]

Step-IsFair : {l m : CountDownLatch} → Step l m → IsFair l → IsFair m
Step-IsFair (calls l i at) v = called l i v
Step-IsFair (tests l i at) v = tested l i v
Step-IsFair (wakes l i at) v = called l i v
Step-IsFair (counts l) v = fewer l v

-- The calls of `count_down` on the way.
abbrev pub downs : {l m : CountDownLatch} → Reach l m → ℕ
downs here = 0
downs (next r (calls l i at)) = downs r
downs (next r (tests l i at)) = downs r
downs (next r (wakes l i at)) = downs r
downs (next r (counts l)) = suc (downs r)

minus_zero : (c : ℤ) → c ≡ c -ℤ pos 0
unfolding ◌-ℤ◌ ◌+ℤ◌
minus_zero c = ground arith

minus_suc : (c : ℤ) (n : ℕ) → c -ℤ pos n -ℤ pos 1 ≡ c -ℤ pos (suc n)
unfolding ◌-ℤ◌ ◌+ℤ◌
minus_suc c n = ground arith

less-minus : (c : ℤ) (n : ℕ) → ltb_ℤ (pos 0) (c -ℤ pos n) ≡ ltb_ℤ (pos n) c
unfolding ◌-ℤ◌ ◌+ℤ◌
less-minus c n = ground arith

Reach-IsFair : {l m : CountDownLatch} → IsFair l → Reach l m → IsFair m
Reach-IsFair v here = v
Reach-IsFair v (next r st) = Step-IsFair st (Reach-IsFair v r)

Reach-count : {l m : CountDownLatch} (r : Reach l m) → m.count ≡ l.count -ℤ pos (downs r)
unfolding test_count count_down
Reach-count {l} here = minus_zero l.count
Reach-count (next r (calls m i at)) = Reach-count r
Reach-count (next r (tests m i at)) = Reach-count r
Reach-count (next r (wakes m i at)) = Reach-count r
Reach-count {l} (next r (counts m)) =
    ap (λ (c : ℤ). c -ℤ pos 1) (Reach-count r) ∙ minus_suc l.count (downs r)

-- In every state that the threads of a new latch can come to, in any order of their steps, a thread sleeps in
-- `wait` only while the count is positive, so no wake-up is lost; a thread is behind `wait` only after at
-- least as many calls of `count_down` as the latch was made with; and the count is the number it was
-- made with, less those calls.
pub Reach-new_latch :
    (count : ℤ) (m : CountDownLatch) (r : Reach (new_latch count) m)
    → ((i : ℕ) → m.place i ≡ blocked → ltb_ℤ (pos (downs r)) count ≡ true)
      × ((i : ℕ) → m.place i ≡ passed → ltb_ℤ (pos (downs r)) count ≡ false)
      × (m.count ≡ count -ℤ pos (downs r))
unfolding new_latch
Reach-new_latch count m r =
    let at_first : IsFair (new_latch count) = record { asleep = λ i e. cc; through = λ i e. cc } in
    let v = Reach-IsFair at_first r in
    let left = Reach-count r in
    let same = ap (ltb_ℤ (pos 0)) left ∙ less-minus count (downs r) in
    (λ i e. sym same ∙ v.asleep i e, λ i e. sym same ∙ v.through i e, left)
