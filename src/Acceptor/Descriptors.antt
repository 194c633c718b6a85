-- ===== src/Acceptor/Descriptors.antt =====
-- The descriptors of an acceptor (net/acceptor.cpp): each that is opened is closed or given away once.
use my_chat_respons.Common.{
  ℕ, ◌+◌, Bool, true, false, Option, none, some, List, [], ◌∷◌, ◌≡◌, arith, ◌==◌, if◌then◌else◌,
  Returns, Ensures, Bool-cases, inl, inr, fault,
}
use my_chat_respons.Poller.{Ctl, Poller}
use my_chat_respons.Poller.Registration.{new_channel-stops}
use my_chat_respons.Acceptor.{
  or_die, is_emfile, Answer, connection, failed, is_expected, accept, Call, opened, closed, given,
  Acceptor, new_acceptor, listen, handle_read, take_connection, drop_connection, destroy_acceptor,
}

-- One if the descriptor is `fd`.
abbrev pub counts : ℕ → Option ℕ → ℕ
counts fd none = 0
counts fd (some n) = if n == fd then 1 else 0

-- How often `fd` was opened, and how often it was closed or given away.
abbrev pub opens : ℕ → List Call → ℕ
opens fd [] = 0
opens fd (opened n ∷ cs) = counts fd n + opens fd cs
opens fd (closed n ∷ cs) = opens fd cs
opens fd (given n ∷ cs) = opens fd cs

abbrev pub leaves : ℕ → List Call → ℕ
leaves fd [] = 0
leaves fd (opened n ∷ cs) = leaves fd cs
leaves fd (closed n ∷ cs) = counts fd n + leaves fd cs
leaves fd (given n ∷ cs) = counts fd (some n) + leaves fd cs

-- What is open and not given away is the socket and the reserve.
abbrev pub Balanced : Acceptor → Type 0
Balanced a =
    (fd : ℕ)
    → opens fd a.calls ≡ leaves fd a.calls + counts fd (some a.accept_socket) + counts fd a.idle_fd

taken-Balanced : (fd : ℕ) (a : Acceptor) → Balanced a → Balanced (take_connection fd a)
taken-Balanced fd a v n = elim (Bool-cases a.has_callback) [
  | inl t ↦ rw t (omega (arith, v n))
  | inr f ↦ rw f (omega (arith, v n))
]

dropped-Balanced :
    (taken reserve : Option ℕ) (a : Acceptor)
    → Balanced a
    → Balanced (drop_connection taken reserve a)
unfolding drop_connection
dropped-Balanced taken reserve a v n = omega (arith, v n)

handle_read-Balanced :
    (answer : Answer) (taken reserve : Option ℕ) (a : Acceptor)
    → Balanced a
    → Ensures Balanced (handle_read answer taken reserve a)
unfolding handle_read accept
handle_read-Balanced (connection fd) taken reserve a v = taken-Balanced fd a v
handle_read-Balanced (failed e) taken reserve a v = elim (Bool-cases (is_expected e)) [
  | inr f ↦ rw f tt
  | inl t ↦ elim (Bool-cases (is_emfile e)) [
    | inl s ↦ rw (t, s) (dropped-Balanced taken reserve a v)
    | inr s ↦ rw (t, s) v
  ]
]

-- An acceptor just made, whose descriptor the poller of its loop does not know: `listen` stops at an assertion, and
-- so does the destructor, whatever the kernel answers to them, since the index of its channel starts at 0. Until
-- then the socket and the reserve are all that is open.
pub new_acceptor-stops :
    (epoll_ctl : Ctl → Bool) (has listened : Bool) (id socket idle : ℕ) (p : Poller)
    → p.channels socket ≡ none
    → Returns
        (λ a.
          (listen epoll_ctl listened a p ≡ fault)
          × (destroy_acceptor epoll_ctl a p ≡ fault)
          × Balanced a)
        (new_acceptor has id (some socket) (some idle) true)
unfolding new_acceptor or_die listen destroy_acceptor
new_acceptor-stops epoll_ctl has listened id socket idle p unknown =
    let (reads, _, all, _) =
      new_channel-stops epoll_ctl id socket
        (record { on_read = true; on_write = false; on_close = false; on_error = false }) p
        unknown in
    (
      elim (Bool-cases listened) [ inl t ↦ simp (t, reads) | inr f ↦ simp f ],
      simp all,
      λ n. omega arith,
    )
