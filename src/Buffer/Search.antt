-- ===== src/Buffer/Search.antt =====
-- `findCRLF` and `findEOL` (net/buffer.h). A pointer is an offset into the vector.
use my_chat_respons.Common.{
  ℕ, suc, ◌+◌, ◌≤◌, ◌<◌, ◌≡◌, refl, sym, ap, ◌∙◌, ◌≢◌, ◌⊎◌, inl, inr, true, false, ◌&&◌, Option,
  none, some, List, [], ◌∷◌, ◌++◌, arith, ltb, leb, ◌==◌, if◌then◌else◌, Bool-cases, length,
  length-append, Outcome, ok, fault, ◌>>◌, assert,
}
use native.Mathlib.Decide.{dec_lt, ℕ_discrete}
use my_chat_respons.Buffer.{Buffer, readable_bytes, range, peek, begin_write, begin_write_const}
use my_chat_respons.Buffer.Valid.{IsValid, length-range}
use mathlib.Core.Option

abbrev pub cr : ℕ
cr = 13

abbrev pub lf : ℕ
lf = 10

-- `std::search` for "\r\n": the place of the first match, or the length.
search_crlf : List ℕ → ℕ
search_crlf [] = 0
search_crlf (x ∷ []) = 1
search_crlf (x ∷ y ∷ r) =
    let rest = search_crlf (y ∷ r) in if (x == cr) && (y == lf) then 0 else suc rest

-- The search from offset `start` to the end of the readable bytes, with null for no match.
find_crlf_at : ℕ → Buffer → Option ℕ
find_crlf_at start b =
    let crlf = start + search_crlf (range b.bytes start (begin_write_const b)) in
    if crlf == begin_write_const b then none else some crlf

pub find_crlf : Buffer → Option ℕ
unfolding find_crlf_at
find_crlf b = find_crlf_at (peek b) b

pub find_crlf_from : ℕ → Buffer → Outcome (Option ℕ)
unfolding find_crlf_at
find_crlf_from start b = do
  assert (leb (peek b) start)
  assert (leb start (begin_write_const b))
  ok (find_crlf_at start b)

-- `memchr`: the place of the first such byte.
memchr : ℕ → List ℕ → Option ℕ
memchr c [] = none
memchr c (x ∷ xs) =
    let rest = Option.map (λ (i : ℕ). suc i) (memchr c xs) in if x == c then some 0 else rest

pub find_eol : Buffer → Option ℕ
unfolding memchr
find_eol b =
    Option.map (λ i. peek b + i) (memchr lf (range b.bytes (peek b) (peek b + readable_bytes b)))

-- This overload is not const, so its `beginWrite` is the one for a mutable buffer.
pub find_eol_from : ℕ → Buffer → Outcome (Option ℕ)
unfolding memchr
find_eol_from start b = do
  assert (ltb start (begin_write b))
  assert (leb (peek b) start)
  ok (Option.map (λ i. start + i) (memchr lf (range b.bytes start (begin_write b))))

search_crlf-le : (xs : List ℕ) → search_crlf xs ≤ length xs
unfolding search_crlf
search_crlf-le [] = omega arith
search_crlf-le (x ∷ []) = omega arith
search_crlf-le (x ∷ y ∷ r) = ground (arith, search_crlf-le (y ∷ r))

-- No match lies before the place that the search returns.
search_crlf-first :
    (before after : List ℕ) → search_crlf (before ++ (cr ∷ lf ∷ after)) ≤ length before
unfolding search_crlf
search_crlf-first [] after = ground arith
search_crlf-first (x ∷ []) after = ground (arith, search_crlf-first [] after)
search_crlf-first (x ∷ y ∷ r) after = ground (arith, search_crlf-first (y ∷ r) after)

-- A place within the text is a match.
abbrev IsCrlfAt : ℕ → List ℕ → Type 0
IsCrlfAt i xs =
    (before : List ℕ) × (after : List ℕ) × (xs ≡ before ++ (cr ∷ lf ∷ after)) × (length before ≡ i)

search_crlf-miss :
    (x y : ℕ) (r : List ℕ)
    → ((x == cr) && (y == lf)) ≡ false
    → search_crlf (x ∷ y ∷ r) ≡ suc (search_crlf (y ∷ r))
unfolding search_crlf
search_crlf-miss x y r f = rw f

search_crlf-hit :
    (x y : ℕ) (r : List ℕ) → ((x == cr) && (y == lf)) ≡ true → search_crlf (x ∷ y ∷ r) ≡ 0
unfolding search_crlf
search_crlf-hit x y r t = rw t

search_crlf-match : (xs : List ℕ) → search_crlf xs ≢ length xs → IsCrlfAt (search_crlf xs) xs
search_crlf-match [] h = absurd (h (unfold search_crlf in refl))
search_crlf-match (x ∷ []) h = absurd (h (unfold search_crlf in refl))
search_crlf-match (x ∷ y ∷ r) h = elim (Bool-cases ((x == cr) && (y == lf))) [
  | inl t ↦ ([], r, ground arith, sym (search_crlf-hit x y r t))
  | inr f ↦
      let step = search_crlf-miss x y r f in
      let (before, after, e, n) = search_crlf-match (y ∷ r) (λ e. h (step ∙ ap suc e)) in
      (x ∷ before, after, ap (◌∷◌ x) e, ap suc n ∙ sym step)
]

-- `p` is the offset of the first CR LF among the bytes from `start` to the end of the unread ones.
abbrev pub FindsCrlf : ℕ → Buffer → ℕ → Type 0
FindsCrlf start b p =
    (before : List ℕ) × (after : List ℕ) × (range b.bytes start b.write_index
      ≡ before ++ (cr ∷ lf ∷ after))
    × (p ≡ start + length before)
    × ((pre post : List ℕ)
        → range b.bytes start b.write_index ≡ pre ++ (cr ∷ lf ∷ post)
        → length before ≤ length pre)

-- There is no CR LF among them.
abbrev pub HasNoCrlf : ℕ → Buffer → Type 0
HasNoCrlf start b =
    (pre post : List ℕ) → range b.bytes start b.write_index ≢ pre ++ (cr ∷ lf ∷ post)

-- The search of the bytes from `start` on, and what its answer says.
module _ (start : ℕ) (b : Buffer) (v : IsValid b) (inside : start ≤ b.write_index) where
  found-Finds :
      start + search_crlf (range b.bytes start b.write_index) ≢ b.write_index
      → FindsCrlf start b (start + search_crlf (range b.bytes start b.write_index))
  found-Finds h =
      let xs = range b.bytes start b.write_index in
      let (before, after, e, n) =
        search_crlf-match xs
          (λ q. h (omega (arith, q, length-range b.bytes start b.write_index v.fits))) in
      (
        before,
        after,
        e,
        omega (arith, n),
        λ pre post q. omega (arith, n, ap search_crlf q, search_crlf-first pre post),
      )

  missed-HasNo :
      start + search_crlf (range b.bytes start b.write_index) ≡ b.write_index → HasNoCrlf start b
  missed-HasNo h pre post q = absurd (
      omega (
        arith,
        ap search_crlf q,
        search_crlf-first pre post,
        length-range b.bytes start b.write_index v.fits,
        ap length q,
        length-append pre (cr ∷ lf ∷ post),
      ))

-- `findCRLF(start)` on a valid buffer: it stops exactly at a start outside the unread bytes;
-- otherwise it returns the offset of the first CR LF from there on, or null where there is none.
pub find_crlf_from-Finds :
    (start : ℕ) (b : Buffer)
    → IsValid b
    → ((find_crlf_from start b ≡ fault) × ((start < b.read_index) ⊎ (b.write_index < start)))
      ⊎ ((p : ℕ) × (find_crlf_from start b ≡ ok (some p)) × FindsCrlf start b p)
      ⊎ ((find_crlf_from start b ≡ ok none) × HasNoCrlf start b)
unfolding find_crlf_from find_crlf_at begin_write_const peek
find_crlf_from-Finds start b v = elim (dec_lt start b.read_index) [
  | yes before ↦ inl (ground arith, inl before)
  | no from ↦ elim (dec_lt b.write_index start) [
    | yes past ↦ inl (ground arith, inr past)
    | no inside ↦
        let at = start + search_crlf (range b.bytes start b.write_index) in
        elim (ℕ_discrete at b.write_index) [
          | yes e ↦ inr (inr (ground arith, missed-HasNo start b v (omega arith) e))
          | no ne ↦ inr (inl (at, ground arith, found-Finds start b v (omega arith) ne))
        ]
  ]
]

-- `findEOL(start)` stops at every argument, on every buffer: its two assertions contradict one
-- another.
find_eol_from_stops : (start : ℕ) (b : Buffer) → find_eol_from start b ≡ fault
unfolding find_eol_from begin_write peek
find_eol_from_stops start b = ground arith
