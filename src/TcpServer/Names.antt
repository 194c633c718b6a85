-- ===== src/TcpServer/Names.antt =====
-- The names of the connections of a server differ.
use mathlib.Core.List.{append_cancel_left}
use my_chat_respons.Common.{
  ℕ, ◌^◌, ◌≤◌, ◌<◌, List, ◌∷◌, ◌++◌, length, ◌≡◌, sym, ap, ◌∙◌, arith, take_all, length-append,
}
use my_chat_respons.TcpServer.{name_of}

-- What %d writes: texts that differ, of at most 10 digits for a positive int.
pub record Prints (text : ℕ → List ℕ) : Type 0 where
  pub distinct : (m n : ℕ) → text m ≡ text n → m ≡ n
  pub short : (n : ℕ) → n < 2 ^ 31 → length (text n) ≤ 10

module _ (text : ℕ → List ℕ) (prints : Prints text) (name ip_port : List ℕ) where
  -- The part of a name that snprintf writes is not cut off.
  whole :
      (i : ℕ)
      → i < 2 ^ 31
      → length ip_port ≤ 51
      → name_of text name ip_port i ≡ name ++ (45 ∷ ip_port ++ (35 ∷ text i))
  unfolding name_of
  whole i lt room =
      let short = prints.short i lt in
      let size = length-append ip_port (35 ∷ text i) in
      ap (λ (ys : List ℕ). name ++ ys)
        (take_all 63 (45 ∷ ip_port ++ (35 ∷ text i)) (omega (arith, short, size)))

  pub name_of-distinct :
      (i j : ℕ)
      → i < 2 ^ 31
      → j < 2 ^ 31
      → length ip_port ≤ 51
      → name_of text name ip_port i ≡ name_of text name ip_port j
      → i ≡ j
  name_of-distinct i j li lj room h =
      let same = sym (whole i li room) ∙ h ∙ whole j lj room in
      let numbers =
        append_cancel_left (45 ∷ ip_port) (35 ∷ text i) (35 ∷ text j)
          (append_cancel_left name _ _ same) in
      let digits : text i ≡ text j = cc in prints.distinct i j digits
