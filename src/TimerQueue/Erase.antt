-- ===== src/TimerQueue/Erase.antt =====
-- `erase` of the two sets of timers (net/timer_queue.cpp): its order does not matter, and it keeps the order.
use my_chat_respons.Common.{
  ◌≡◌, refl, ◌⊎◌, inl, inr, true, false, Option, none, some, List, [], ◌∷◌, arith, Bool-cases,
  Option-cases,
}
use my_chat_respons.TimerQueue.{
  Entry, ActiveTimer, lt_entry, same_entry, same_timer, is_active, erase_active, erase_entry,
}
use my_chat_respons.TimerQueue.Ordered.{Above, Increasing, lt_entry_trans}

-- What `erase` finds at the head, or behind it.
erase_active_cases :
    (k x : ActiveTimer) (xs ys : List ActiveTimer)
    → erase_active k (x ∷ xs) ≡ some ys
    → ((same_timer k x ≡ true) × (ys ≡ xs))
      ⊎ ((same_timer k x ≡ false)
          × (zs : List ActiveTimer) × (erase_active k xs ≡ some zs)
          × (ys ≡ x ∷ zs))
unfolding erase_active
erase_active_cases k x xs ys e = elim (Bool-cases (same_timer k x)) [
  | inl t ↦ inl (t, let e' : some xs ≡ some ys = rw t at e in cc)
  | inr f ↦ elim (Option-cases (erase_active k xs)) [
    | inl n ↦ let e' : ◌≡◌ {A = Option (List ActiveTimer)} none (some ys) = rw (f, n) at e in cc
    | inr (zs, s) ↦ inr (f, zs, s, let e' : some (x ∷ zs) ≡ some ys = rw (f, s) at e in cc)
  ]
]

pub same_timer_eq : (j k : ActiveTimer) → same_timer j k ≡ true → j ≡ k
same_timer_eq (p, s) (r, t) h = ground arith

erase_active-skip :
    (k x : ActiveTimer) (xs ys : List ActiveTimer)
    → same_timer k x ≡ false
    → erase_active k xs ≡ some ys
    → erase_active k (x ∷ xs) ≡ some (x ∷ ys)
unfolding erase_active
erase_active-skip k x xs ys f e = rw (f, e) refl

erase_active-head :
    (k x : ActiveTimer) (xs : List ActiveTimer)
    → same_timer k x ≡ true
    → erase_active k (x ∷ xs) ≡ some xs
unfolding erase_active
erase_active-head k x xs t = rw t refl

nothing_erased : (k : ActiveTimer) (ys : List ActiveTimer) → erase_active k [] ≡ some ys → ⊥
unfolding erase_active
nothing_erased k ys e = cc

same_timer_other :
    (j k x : ActiveTimer) → same_timer j x ≡ true → same_timer j k ≡ false → same_timer k x ≡ false
same_timer_other (p, s) (r, t) (u, v) h n = ground arith

-- Two different elements can be erased in either order.
pub erase_active-erase_active :
    (j k : ActiveTimer) (xs ys zs : List ActiveTimer)
    → same_timer j k ≡ false
    → erase_active j xs ≡ some ys
    → erase_active k ys ≡ some zs
    → (ws : List ActiveTimer) × (erase_active k xs ≡ some ws) × (erase_active j ws ≡ some zs)
erase_active-erase_active j k [] ys zs d e g = absurd (nothing_erased j ys e)
erase_active-erase_active j k (x ∷ xs) ys zs d e g = elim (erase_active_cases j x xs ys e) [
  | inl (t, s) ↦
      let g' : erase_active k xs ≡ some zs = rw s at g in
      (
        x ∷ zs,
        erase_active-skip k x xs zs (same_timer_other j k x t d) g',
        erase_active-head j x zs t,
      )
  | inr (f, us, u, s) ↦ elim (erase_active_cases k x us zs (rw s at g)) [
    | inl (t, s') ↦ (xs, erase_active-head k x xs t, rw s' u)
    | inr (f', vs, v, s') ↦
        let (ws, a, b) = erase_active-erase_active j k xs us vs d u v in
        (x ∷ ws, erase_active-skip k x xs ws f' a, rw s' (erase_active-skip j x ws vs f b))
  ]
]

pub is_active-erase_active :
    (j k : ActiveTimer) (xs ys : List ActiveTimer)
    → same_timer j k ≡ false
    → erase_active j xs ≡ some ys
    → is_active k xs ≡ true
    → is_active k ys ≡ true
is_active-erase_active j k [] ys d e h = cc
is_active-erase_active j k (x ∷ xs) ys d e h = elim (erase_active_cases j x xs ys e) [
  | inl (t, s) ↦ let h' : is_active k xs ≡ true = rw (same_timer_other j k x t d) at h in rw s h'
  | inr (f, us, u, s) ↦ elim (Bool-cases (same_timer k x)) [
    | inl t ↦ rw (s, t) refl
    | inr f' ↦
        let h' : is_active k xs ≡ true = rw f' at h in
        rw (s, f') (is_active-erase_active j k xs us d u h')
  ]
]

erase_entry_cases :
    (e x : Entry) (xs ys : List Entry)
    → erase_entry e (x ∷ xs) ≡ some ys
    → (ys ≡ xs) ⊎ ((zs : List Entry) × (erase_entry e xs ≡ some zs) × (ys ≡ x ∷ zs))
unfolding erase_entry
erase_entry_cases e x xs ys h = elim (Bool-cases (same_entry e x)) [
  | inl t ↦ inl (let h' : some xs ≡ some ys = rw t at h in cc)
  | inr f ↦ elim (Option-cases (erase_entry e xs)) [
    | inl n ↦ let h' : ◌≡◌ {A = Option (List Entry)} none (some ys) = rw (f, n) at h in cc
    | inr (zs, s) ↦ inr (zs, s, let h' : some (x ∷ zs) ≡ some ys = rw (f, s) at h in cc)
  ]
]

no_entry : (e : Entry) (ys : List Entry) → erase_entry e [] ≡ some ys → ⊥
unfolding erase_entry
no_entry e ys h = cc

Above-rest : (b x : Entry) (xs : List Entry) → lt_entry b x ≡ true → Above x xs → Above b xs
Above-rest b x [] h k = tt
Above-rest b x (y ∷ xs) h k = lt_entry_trans b x y h k

erase_entry-Above :
    (b e : Entry) (xs ys : List Entry)
    → Above b xs
    → Increasing xs
    → erase_entry e xs ≡ some ys
    → Above b ys
erase_entry-Above b e [] ys h v g = absurd (no_entry e ys g)
erase_entry-Above b e (x ∷ xs) ys h (above, v) g = elim (erase_entry_cases e x xs ys g) [
  | inl s ↦ rw s (Above-rest b x xs h above)
  | inr (zs, _, s) ↦ rw s h
]

pub erase_entry-Increasing :
    (e : Entry) (xs ys : List Entry) → Increasing xs → erase_entry e xs ≡ some ys → Increasing ys
erase_entry-Increasing e [] ys v g = absurd (no_entry e ys g)
erase_entry-Increasing e (x ∷ xs) ys (above, v) g = elim (erase_entry_cases e x xs ys g) [
  | inl s ↦ rw s v
  | inr (zs, z, s) ↦
      rw s (erase_entry-Above x e xs zs above v z, erase_entry-Increasing e xs zs v z)
]
