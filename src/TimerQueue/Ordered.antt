-- ===== src/TimerQueue/Ordered.antt =====
-- The invariant of the two sets of timers (net/timer_queue.cpp), and that `insert` keeps it.
use my_chat_respons.Common.{
  ℕ, suc, ◌≡◌, refl, ap, ◌∙◌, inl, inr, Bool, true, false, ◌||◌, Option, some, List, [], ◌∷◌, arith,
  ◌==◌, Bool-cases, Option-cases, ==_iff, ==_refl, length, Returns,
}
use my_chat_respons.Common.Int.{ℤ}
use my_chat_respons.TimerQueue.{
  Timer, Entry, ActiveTimer, TimerQueue, lt_entry, same_entry, insert_entry, same_timer, is_active,
  insert_active, erase_active, insert,
}

-- The first of the entries comes after `b`.
abbrev pub Above : Entry → List Entry → Type 0
Above b [] = Unit
Above b (x ∷ es) = lt_entry b x ≡ true

-- The times and pointers increase.
abbrev pub Increasing : List Entry → Type 0
Increasing [] = Unit
Increasing (x ∷ es) = Above x es × Increasing es

-- The entries of the first set, in order, erase the second: each stands for one of its elements,
-- and none is left.
abbrev pub Paired : (ℕ → Option Timer) → List Entry → List ActiveTimer → Type 0
Paired heap [] active = active ≡ []
Paired heap ((t, p) ∷ es) active =
    (timer : Timer) × (rest : List ActiveTimer) × (heap p ≡ some timer)
    × (erase_active (p, timer.sequence) active ≡ some rest)
    × Paired heap es rest

pub record InStep (q : TimerQueue) : Type 0 where
  pub increasing : Increasing q.timers
  pub paired : Paired q.heap q.timers q.active

erase_active-length :
    (k : ActiveTimer) (xs : List ActiveTimer) {ys : List ActiveTimer}
    → erase_active k xs ≡ some ys
    → length xs ≡ suc (length ys)
unfolding erase_active
erase_active-length k [] e = cc
erase_active-length k (x ∷ xs) {ys} e = elim (Bool-cases (same_timer k x)) [
  | inl t ↦ ground (arith, t, e)
  | inr f ↦ elim (Option-cases (erase_active k xs)) [
    | inl n ↦ ground (arith, f, n, e)
    | inr (zs, s) ↦ ground (arith, f, s, e, erase_active-length k xs s)
  ]
]

pub Paired-length :
    (heap : ℕ → Option Timer) (es : List Entry) (active : List ActiveTimer)
    → Paired heap es active
    → length es ≡ length active
Paired-length heap [] active e = rw e refl
Paired-length heap ((t, p) ∷ es) active (timer, rest, _, e, h) =
    omega (arith, erase_active-length (p, timer.sequence) active e, Paired-length heap es rest h)

lt_entry_asym : (x y : Entry) → lt_entry x y ≡ true → lt_entry y x ≡ false
lt_entry_asym x y h = ground arith

pub lt_entry_trans :
    (x y z : Entry) → lt_entry x y ≡ true → lt_entry y z ≡ true → lt_entry x z ≡ true
lt_entry_trans x y z h k = ground arith

-- How `insert_entry` goes: in front, deeper, or nowhere.
pub data Inserted (e x : Entry) (xs : List Entry) (ys : List Entry) : Type 0 where
  front : lt_entry e x ≡ true → ys ≡ e ∷ x ∷ xs → Inserted e x xs ys
  deeper :
      (zs : List Entry)
      → lt_entry x e ≡ true
      → insert_entry e xs ≡ some zs
      → ys ≡ x ∷ zs
      → Inserted e x xs ys

pub insert_entry-Inserted :
    (e x : Entry) (xs ys : List Entry) → insert_entry e (x ∷ xs) ≡ some ys → Inserted e x xs ys
unfolding insert_entry
insert_entry-Inserted e x xs ys h = elim (Bool-cases (lt_entry e x)) [
  | inl t ↦ front t (cc (rw t at h))
  | inr f ↦ elim (Bool-cases (lt_entry x e)) [
    | inl t ↦ elim (Option-cases (insert_entry e xs)) [
      | inl n ↦ absurd (cc (rw (f, t, n) at h))
      | inr (zs, s) ↦ deeper zs t s (cc (rw (f, t, s) at h))
    ]
    | inr g ↦ absurd (cc (rw (f, g) at h))
  ]
]

pub insert_entry-nil : (e : Entry) (ys : List Entry) → insert_entry e [] ≡ some ys → ys ≡ e ∷ []
unfolding insert_entry
insert_entry-nil e ys h = cc

insert_entry-Above :
    (b e : Entry) (xs ys : List Entry)
    → lt_entry b e ≡ true
    → Above b xs
    → insert_entry e xs ≡ some ys
    → Above b ys
insert_entry-Above b e [] ys h k i = rw (insert_entry-nil e ys i) h
insert_entry-Above b e (x ∷ xs) ys h k i = elim (insert_entry-Inserted e x xs ys i) [
  | front t q ↦ rw q h
  | deeper zs t s q ↦ rw q k
]

insert_entry-Increasing :
    (e : Entry) (xs ys : List Entry) → Increasing xs → insert_entry e xs ≡ some ys → Increasing ys
insert_entry-Increasing e [] ys h i = rw (insert_entry-nil e ys i) (tt, tt)
insert_entry-Increasing e (x ∷ xs) ys (above, inc) i = elim (insert_entry-Inserted e x xs ys i) [
  | front t q ↦ rw q (t, (above, inc))
  | deeper zs t s q ↦
      rw q (insert_entry-Above x e xs zs t above s, insert_entry-Increasing e xs zs inc s)
]

same_timer_refl : (k : ActiveTimer) → same_timer k k ≡ true
same_timer_refl (p, s) = ground arith

-- What is not there is not erased, nor there afterwards.
erase_active-other :
    (j k : ActiveTimer) (xs : List ActiveTimer) {ys : List ActiveTimer}
    → erase_active j xs ≡ some ys
    → is_active k xs ≡ false
    → (same_timer j k ≡ false) × (is_active k ys ≡ false)
unfolding erase_active
erase_active-other j k [] e n = cc
erase_active-other (p, s) (r, t) ((u, v) ∷ xs) {ys} e n =
    elim (Bool-cases (same_timer (p, s) (u, v))) [
      | inl y ↦ ground (arith, y, e, n)
      | inr f ↦ elim (Option-cases (erase_active (p, s) xs)) [
        | inl z ↦ ground (arith, f, z, e)
        | inr (zs, z) ↦ ground (arith, f, z, e, n, erase_active-other (p, s) (r, t) xs z)
      ]
    ]

erase_active-cons :
    (j k : ActiveTimer) (xs ys : List ActiveTimer)
    → same_timer j k ≡ false
    → erase_active j xs ≡ some ys
    → erase_active j (k ∷ xs) ≡ some (k ∷ ys)
unfolding erase_active
erase_active-cons j k xs ys f e = rw (f, e) refl

erase_active-front : (k : ActiveTimer) (xs : List ActiveTimer) → erase_active k (k ∷ xs) ≡ some xs
unfolding erase_active
erase_active-front k xs = rw (same_timer_refl k) refl

insert-Paired :
    (heap : ℕ → Option Timer) (t : ℤ) (p : ℕ) (timer : Timer) (xs ys : List Entry)
    (active : List ActiveTimer)
    → heap p ≡ some timer
    → insert_entry (t, p) xs ≡ some ys
    → is_active (p, timer.sequence) active ≡ false
    → Paired heap xs active
    → Paired heap ys ((p, timer.sequence) ∷ active)
insert-Paired heap t p timer [] ys active found i new pairs =
    rw (insert_entry-nil (t, p) ys i)
      (timer, active, found, erase_active-front (p, timer.sequence) active, pairs)
insert-Paired heap t p timer ((u, r) ∷ xs) ys active found i new (tm, rest, found', erased, pairs) =
    let k : ActiveTimer = (p, timer.sequence) in
    elim (insert_entry-Inserted (t, p) (u, r) xs ys i) [
      | front _ q ↦
          rw q
            (timer, active, found, erase_active-front k active, (tm, rest, found', erased, pairs))
      | deeper zs _ s q ↦
          let (other, still) = erase_active-other (r, tm.sequence) k active erased new in
          rw q (
            tm,
            k ∷ rest,
            found',
            erase_active-cons (r, tm.sequence) k active rest other erased,
            insert-Paired heap t p timer xs zs rest found s still pairs,
          )
    ]

-- One pointer points at one timer.
clash :
    (heap : ℕ → Option Timer) (p r : ℕ) (timer tm : Timer)
    → heap p ≡ some timer
    → heap r ≡ some tm
    → p ≡ r
    → same_timer (r, tm.sequence) (p, timer.sequence) ≡ false
    → ⊥
clash heap p r timer tm found found' e f =
    let same : timer ≡ tm = cc in ground (arith, f, ap (λ (t : Timer). t.sequence) same, e)

abbrev has_entry : Entry → List Entry → Bool
has_entry e [] = false
has_entry e (x ∷ xs) = same_entry e x || has_entry e xs

no_more : (e x : Entry) (xs : List Entry) → has_entry e (x ∷ xs) ≡ false → has_entry e xs ≡ false
no_more e x xs h = ground (arith, h)

-- A timer that is not in the second set is not in the first.
pub not_active-not_waiting :
    (heap : ℕ → Option Timer) (t : ℤ) (p : ℕ) (timer : Timer) (xs : List Entry)
    (active : List ActiveTimer)
    → heap p ≡ some timer
    → is_active (p, timer.sequence) active ≡ false
    → Paired heap xs active
    → has_entry (t, p) xs ≡ false
not_active-not_waiting heap t p timer [] active found new pairs = refl
not_active-not_waiting heap t p timer ((u, r) ∷ xs) active found new
      (tm, rest, found', erased, pairs) =
    let (other, still) =
      erase_active-other (r, tm.sequence) (p, timer.sequence) active erased new in
    let deeper = not_active-not_waiting heap t p timer xs rest found still pairs in
    elim (Bool-cases (p == r)) [
      | inl same ↦ absurd (clash heap p r timer tm found found' ((==_iff p r).0 same) other)
      | inr differ ↦ rw (differ, deeper) (ground arith)
    ]

tests : (x y : Entry) → lt_entry x y ≡ false → lt_entry y x ≡ false → same_entry x y ≡ true
tests x y h k = ground arith

pub insert_entry-new :
    (e : Entry) (xs : List Entry)
    → has_entry e xs ≡ false
    → (ys : List Entry) × (insert_entry e xs ≡ some ys) × (length ys ≡ suc (length xs))
unfolding insert_entry
insert_entry-new e [] h = (e ∷ [], refl, refl)
insert_entry-new e (x ∷ xs) h = elim (Bool-cases (lt_entry e x)) [
  | inl t ↦ (e ∷ x ∷ xs, rw t refl, refl)
  | inr f ↦ elim (Bool-cases (lt_entry x e)) [
    | inl t ↦
        let (ys, i, n) = insert_entry-new e xs (no_more e x xs h) in
        (x ∷ ys, rw (f, t, i) refl, omega (arith, n))
    | inr g ↦ absurd (ground (arith, h, tests e x f g))
  ]
]

-- Where the two sets are in step, `insert` of a timer that does not wait returns; the sets are in
-- step again, and have one timer more.
pub insert-InStep :
    (p : ℕ) (timer : Timer) (q : TimerQueue)
    → InStep q
    → q.heap p ≡ some timer
    → is_active (p, timer.sequence) q.active ≡ false
    → Returns (λ q'. InStep q' × (length q'.timers ≡ suc (length q.timers))) (insert p q)
unfolding insert insert_active
insert-InStep p timer q v found new =
    let e : Entry = (timer.expiration, p) in
    let (ys, i, n) = insert_entry-new e q.timers (
      not_active-not_waiting q.heap timer.expiration p timer q.timers q.active found new
        v.paired) in
    let same = Paired-length q.heap q.timers q.active v.paired in
    rw (same, ==_refl (length q.active), found, i, new)
      (
        record {
          increasing = insert_entry-Increasing e q.timers ys v.increasing i;
          paired =
              insert-Paired q.heap timer.expiration p timer q.timers ys q.active found i new
                v.paired;
        },
        n ∙ ap suc same,
      )
