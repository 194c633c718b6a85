-- ===== src/TcpClient/Names.antt =====
-- The names of the connections of a client (net/tcp_client.cpp): how much room 31 characters leave.
use mathlib.Core.List.{append_cancel_left}
use my_chat_respons.Common.{
  ℕ, ◌≤◌, ◌<◌, List, ◌∷◌, ◌++◌, length, ◌≡◌, sym, ap, ◌∙◌, arith, take_all, take-append_le,
  length-append,
}
use my_chat_respons.TcpClient.{name_of}

-- What %d writes: texts that differ, of at most 8 digits below a hundred million.
pub record Prints (text : ℕ → List ℕ) : Type 0 where
  pub distinct : (m n : ℕ) → text m ≡ text n → m ≡ n
  pub short : (n : ℕ) → n < 100000000 → length (text n) ≤ 8

module _ (text : ℕ → List ℕ) (prints : Prints text) (name ip_port : List ℕ) where
  whole :
      (i : ℕ)
      → i < 100000000
      → length ip_port ≤ 21
      → name_of text name ip_port i ≡ name ++ (58 ∷ ip_port ++ (35 ∷ text i))
  unfolding name_of
  whole i lt room =
      let short = prints.short i lt in
      let size = length-append ip_port (35 ∷ text i) in
      ap (λ (ys : List ℕ). name ++ ys)
        (take_all 31 (58 ∷ ip_port ++ (35 ∷ text i)) (omega (arith, short, size)))

  -- With the text of an IPv4 address, of 21 characters at most, and a number below a hundred million, the name
  -- tells the number of the connection.
  name_of-distinct :
      (i j : ℕ)
      → i < 100000000
      → j < 100000000
      → length ip_port ≤ 21
      → name_of text name ip_port i ≡ name_of text name ip_port j
      → i ≡ j
  name_of-distinct i j li lj room h =
      let same = sym (whole i li room) ∙ h ∙ whole j lj room in
      let numbers =
        append_cancel_left (58 ∷ ip_port) (35 ∷ text i) (35 ∷ text j)
          (append_cancel_left name _ _ same) in
      let digits : text i ≡ text j = cc in prints.distinct i j digits

-- With the text of an address of 30 characters or more, as those of IPv6 can be, all connections to it have
-- one name.
name_of_long :
    (text : ℕ → List ℕ) (name ip_port : List ℕ) (i j : ℕ)
    → 30 ≤ length ip_port
    → name_of text name ip_port i ≡ name_of text name ip_port j
unfolding name_of
name_of_long text name ip_port i j long =
    ap (λ (ys : List ℕ). name ++ ys)
      (take-append_le 31 (58 ∷ ip_port) (35 ∷ text i) (omega arith)
        ∙ sym (take-append_le 31 (58 ∷ ip_port) (35 ∷ text j) (omega arith)))
