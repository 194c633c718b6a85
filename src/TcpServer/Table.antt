-- ===== src/TcpServer/Table.antt =====
-- The table of the connections of a server, whose names have increasing numbers.
use my_chat_respons.Common.{
  ℕ, suc, ◌+◌, ◌^◌, ◌≤◌, ◌<◌, true, false, List, [], ◌∷◌, if◌then◌else◌, ◌≡◌, refl, sym, ap, ◌∙◌,
  arith, ◌≢◌, same_bytes, same_bytes_refl, same_bytes→eq, Bool-cases, inl, inr, ◌⊎◌,
}
use my_chat_respons.TcpServer.{Conn, put, erase}

-- How often a name stands in a list.
abbrev pub times : List ℕ → List (List ℕ) → ℕ
times k [] = 0
times k (x ∷ xs) = (if same_bytes k x then 1 else 0) + times k xs

abbrev pub open_names : List (List ℕ × Conn) → List (List ℕ)
open_names [] = []
open_names ((k, c) ∷ es) = c.conn_name ∷ open_names es

module _ (nm : ℕ → List ℕ) where
  -- The entries have the names of their connections, with increasing numbers from `lo` and below `hi`.
  abbrev pub Numbered : ℕ → ℕ → List (List ℕ × Conn) → Type 0
  Numbered lo hi [] = Unit
  Numbered lo hi ((k, c) ∷ es) =
      (c.conn_name ≡ k) × (i : ℕ) × (lo ≤ i) × (i < hi) × (k ≡ nm i) × Numbered (suc i) hi es

  Numbered-mono :
      (lo lo' hi : ℕ) (es : List (List ℕ × Conn))
      → lo' ≤ lo
      → Numbered lo hi es
      → Numbered lo' hi es
  Numbered-mono lo lo' hi [] le h = tt
  Numbered-mono lo lo' hi ((k, c) ∷ es) le (e, i, a, b, f, h) = (e, i, omega arith, b, f, h)

  module _ (distinct : (i j : ℕ) → i < 2 ^ 31 → j < 2 ^ 31 → nm i ≡ nm j → i ≡ j) where
    pub differ : (i j : ℕ) → i < j → j < 2 ^ 31 → same_bytes (nm j) (nm i) ≡ false
    differ i j lt bound = elim (Bool-cases (same_bytes (nm j) (nm i))) [
      | inl t ↦
          let same : j ≡ i = distinct j i bound (omega arith) (same_bytes→eq (nm j) (nm i) t) in
          let no : j ≢ i = omega arith in absurd (no same)
      | inr f ↦ f
    ]

    pub Numbered-put :
        (lo hi : ℕ) (c : Conn) (es : List (List ℕ × Conn))
        → c.conn_name ≡ nm hi
        → lo ≤ hi
        → hi < 2 ^ 31
        → Numbered lo hi es
        → Numbered lo (suc hi) (put (nm hi) c es)
    unfolding put
    Numbered-put lo hi c [] e le bound h = (e, hi, le, omega arith, refl, tt)
    Numbered-put lo hi c ((k, d) ∷ es) e le bound (e', i, a, b, f, h) =
        let other : same_bytes (nm hi) k ≡ false =
          ap (λ (ys : List ℕ). same_bytes (nm hi) ys) f ∙ differ i hi b bound in
        rw other (e', i, a, omega arith, f, Numbered-put (suc i) hi c es e b bound h)

    pub times-put :
        (q : List ℕ) (lo hi : ℕ) (c : Conn) (es : List (List ℕ × Conn))
        → hi < 2 ^ 31
        → Numbered lo hi es
        → times q (open_names (put (nm hi) c es))
          ≡ times q (open_names es) + times q (c.conn_name ∷ [])
    unfolding put
    times-put q lo hi c [] bound h = omega arith
    times-put q lo hi c ((k, d) ∷ es) bound (e', i, a, b, f, h) =
        let other : same_bytes (nm hi) k ≡ false =
          ap (λ (ys : List ℕ). same_bytes (nm hi) ys) f ∙ differ i hi b bound in
        let rest = times-put q (suc i) hi c es bound h in rw other (omega (arith, rest))

  -- What `erase` leaves of the table, where a connection of the name stands in it.
  abbrev pub Erased : ℕ → ℕ → List ℕ → List (List ℕ × Conn) → Type 0
  Erased lo hi q es =
      (rest : List (List ℕ × Conn)) × (erase q es ≡ (1, rest))
      × Numbered lo hi rest
      × ((p : List ℕ) → times p (open_names es) ≡ times p (open_names rest) + times p (q ∷ []))

  pub erase-cases :
      (lo hi : ℕ) (q : List ℕ) (es : List (List ℕ × Conn))
      → Numbered lo hi es
      → ((times q (open_names es) ≡ 0) × (erase q es ≡ (0, es)))
        ⊎ ((1 ≤ times q (open_names es)) × Erased lo hi q es)
  unfolding erase
  erase-cases lo hi q [] h = inl (refl, refl)
  erase-cases lo hi q ((j, d) ∷ es) (e', i, a, b, f, h) = elim (Bool-cases (same_bytes q j)) [
    | inl t ↦
        let own : d.conn_name ≡ q = e' ∙ sym (same_bytes→eq q j t) in
        let here : same_bytes q d.conn_name ≡ true = rw own (same_bytes_refl q) in
        inr (
          rw here (omega arith),
          (
            es,
            rw t refl,
            Numbered-mono (suc i) lo hi es (omega arith) h,
            (λ p. rw own (omega arith)),
          ),
        )
    | inr other ↦
        let past : same_bytes q d.conn_name ≡ false = rw e' other in
        elim (erase-cases (suc i) hi q es h) [
          | inl (missing, kept) ↦ inl (rw past (omega (arith, missing)), rw (kept, other) refl)
          | inr (there, (rest, gone, numbered, balance)) ↦ inr (
            rw past (omega (arith, there)),
            (
              (j, d) ∷ rest,
              rw (gone, other) refl,
              (e', i, a, b, f, numbered),
              (λ p. let here = balance p in omega (arith, here)),
            ),
          )
        ]
  ]
