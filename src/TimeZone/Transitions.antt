-- ===== src/TimeZone/Transitions.antt =====
-- Which local time `findLocaltime` (base/time_zone.cpp) finds, against a plain reading of the list
-- of transitions.
use my_chat_respons.Common.{
  ℕ, ◌≡◌, refl, ◌∙◌, ap, Bool, true, false, List, [], ◌∷◌, arith, if◌then◌else◌, ◌⊎◌, Bool-cases,
  inl, inr, sym,
}
use my_chat_respons.Common.Int.{ℤ, ltb_ℤ, eqb_ℤ}
use my_chat_respons.TimeZone.{
  Transition, Localtime, ZoneData, compared, comp, comp_equal, localtime_at, from_bound,
  find_localtime,
}

-- The transition in force: the last that is not after the given time, and before any of them the
-- local time number zero.
pub in_force : Bool → ℤ → ℕ → List Transition → ℕ
in_force compare_gmt now earlier [] = earlier
in_force compare_gmt now earlier (t ∷ ts) =
    let rest = in_force compare_gmt now t.localtime_idx ts in
    if ltb_ℤ now (compared compare_gmt t) then earlier else rest

-- The times of the transitions increase.
abbrev pub Increases : Bool → List Transition → Type 0
Increases g [] = Unit
Increases g (t ∷ []) = Unit
Increases g (t ∷ u ∷ ts) = (ltb_ℤ (compared g t) (compared g u) ≡ true) × Increases g (u ∷ ts)

-- Every transition of the list is after the given time.
later-in_force :
    (g : Bool) (now : ℤ) (k : ℕ) (t : Transition) (ts : List Transition)
    → Increases g (t ∷ ts)
    → ltb_ℤ now (compared g t) ≡ true
    → in_force g now k (t ∷ ts) ≡ k
unfolding in_force
later-in_force g now k t ts inc h = rw h refl

orders :
    (a b : ℤ)
    → ((ltb_ℤ a b ≡ true) × (ltb_ℤ b a ≡ false))
      ⊎ ((ltb_ℤ a b ≡ false) × (eqb_ℤ b a ≡ true) × (ltb_ℤ b a ≡ false))
      ⊎ ((ltb_ℤ a b ≡ false) × (eqb_ℤ b a ≡ false) × (ltb_ℤ b a ≡ true))
orders a b = ground arith

same_before : (a b c : ℤ) → eqb_ℤ b a ≡ true → ltb_ℤ a c ≡ true → ltb_ℤ b c ≡ true
same_before a b c e h = ground arith

-- At the transition itself, the next one is later.
reached :
    (g : Bool) (now : ℤ) (t : Transition) (ts : List Transition)
    → Increases g (t ∷ ts)
    → eqb_ℤ now (compared g t) ≡ true
    → in_force g now t.localtime_idx ts ≡ t.localtime_idx
unfolding in_force
reached g now t [] inc e = refl
reached g now t (u ∷ ts) (lt, inc) e = rw (same_before (compared g t) now (compared g u) e lt) refl

Increases-tail :
    (g : Bool) (t : Transition) (ts : List Transition) → Increases g (t ∷ ts) → Increases g ts
Increases-tail g t [] inc = tt
Increases-tail g t (u ∷ ts) inc = inc.1

from_bound-in_force :
    (g : Bool) (sentry before : Transition) (ts : List Transition)
    → Increases g ts
    → from_bound g sentry before ts ≡ in_force g (compared g sentry) before.localtime_idx ts
unfolding from_bound comp comp_equal in_force
from_bound-in_force g sentry before [] inc = refl
from_bound-in_force g sentry before (t ∷ ts) inc =
    elim (orders (compared g t) (compared g sentry)) [
      | inl (x, y) ↦ rw (x, y) (from_bound-in_force g sentry t ts (Increases-tail g t ts inc))
      | inr (inl (x, y, z)) ↦ rw (x, y, z) (sym (reached g (compared g sentry) t ts inc y))
      | inr (inr (x, y, z)) ↦ rw (x, y, z) refl
    ]

passed :
    (g : Bool) (sentry t : Transition) (ts : List Transition)
    → ltb_ℤ (compared g sentry) (compared g t) ≡ false
    → in_force g (compared g sentry) t.localtime_idx (t ∷ ts)
      ≡ in_force g (compared g sentry) t.localtime_idx ts
unfolding in_force
passed g sentry t ts h = rw h refl

chosen :
    (ts : List Transition) (l : List Localtime) (names : List ℕ) (sentry : Transition) (g : Bool)
    → Increases g ts
    → let zone : ZoneData = record { transitions = ts; localtimes = l; abbreviation = names } in
      find_localtime zone sentry g ≡ localtime_at zone (in_force g (compared g sentry) 0 ts)
unfolding find_localtime comp in_force
chosen [] l names sentry g inc = refl
chosen (t ∷ ts) l names sentry g inc =
    let zone : ZoneData = record { transitions = t ∷ ts; localtimes = l; abbreviation = names } in
    elim (Bool-cases (ltb_ℤ (compared g sentry) (compared g t))) [
      | inl h ↦ rw h refl
      | inr h ↦ rw h (
          ap (localtime_at zone)
            (from_bound-in_force g sentry t (t ∷ ts) inc ∙ passed g sentry t ts h))
    ]

-- Where the times that are compared increase, `findLocaltime` finds the local time of the last transition that is
-- not after the given time, and before the first transition the first local time.
pub find_localtime-in_force :
    (zone : ZoneData) (sentry : Transition) (g : Bool)
    → Increases g zone.transitions
    → find_localtime zone sentry g
      ≡ localtime_at zone (in_force g (compared g sentry) 0 zone.transitions)
find_localtime-in_force zone sentry g inc =
    chosen zone.transitions zone.localtimes zone.abbreviation sentry g inc
