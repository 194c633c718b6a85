-- ===== src/MThread.antt =====
-- base/m_thread.h and base/m_thread.cpp: a thread, and the one that starts it and waits at its latch. What `pthread_create`
-- answers, the counter of threads and what %d writes are arguments. A time of the thread's life is a step; the thread that
-- starts is number 0 at the latch.
pub mod Starting
mod Tests
use my_chat_respons.Common.{
  ℕ, Bool, true, false, not, ◌&&◌, List, [], ◌∷◌, take, if◌then◌else◌, ◌≡◌, Outcome, ok, assert,
  ◌>>=◌, ◌>>◌,
}
use my_chat_respons.Common.Int.{pos}
use my_chat_respons.CountDownLatch.{CountDownLatch, testing, blocked, new_latch, put_at, test_count}

-- Where the new thread is: not made, made, in the user's function, behind it, or ended with the process.
pub data Life : Type 0 where
  absent created running finished crashed : Life

pub record MThread : Type 0 where
  pub started : Bool
  pub joined : Bool
  pub name : List ℕ
  pub tid : ℕ
  pub latch : CountDownLatch
  pub life : Life

-- `set_default_name`: snprintf writes at most 31 characters.
unfoldable pub set_default_name : (ℕ → List ℕ) → ℕ → List ℕ → List ℕ
set_default_name text num [] = take 31 (b'T' ∷ b'h' ∷ b'r' ∷ b'e' ∷ b'a' ∷ b'd' ∷ b' ' ∷ text num)
set_default_name text num (c ∷ cs) = c ∷ cs

-- The constructor; `num` is what the counter of threads gives.
unfoldable pub new_thread : (ℕ → List ℕ) → ℕ → List ℕ → MThread
unfolding set_default_name
new_thread text num name = record {
  started = false;
  joined = false;
  name = set_default_name text num name;
  tid = 0;
  latch = new_latch (pos 1);
  life = absent;
}

-- `start` up to the test in `wait`; `made` says whether the thread could be made.
unfoldable pub start : Bool → MThread → Outcome MThread
start made t = do
  assert (not t.started)
  ok (
      if made
      then record t {
        started = true;
        latch = record (t.latch) { place = put_at (t.latch.place) 0 testing };
        life = created;
      }
      else record t { started = false })

-- The steps of the thread that waits in `start`, and of `run_in_thread`, which names the thread, calls the function and
-- is done, or ends the process at an exception.
pub data Step : MThread → MThread → Type 0 where
  tests :
      (t : MThread) → t.latch.place 0 ≡ testing → Step t (record t { latch = test_count 0 t.latch })
  wakes :
      (t : MThread)
      → t.latch.place 0 ≡ blocked
      → Step t (record t { latch = record (t.latch) { place = put_at (t.latch.place) 0 testing } })
  runs : (t : MThread) → t.life ≡ created → Step t (record t { life = running })
  finishes : (t : MThread) → t.life ≡ running → Step t (record t { life = finished })
  crashes : (t : MThread) → t.life ≡ running → Step t (record t { life = crashed })

pub data Reach (t : MThread) : MThread → Type 0 where
  here : Reach t t
  next : {s u : MThread} → Reach t s → Step s u → Reach t u

unfoldable pub jion : MThread → Outcome MThread
jion t = do assert t.started; assert (not t.joined); ok (record t { joined = true })

-- The destructor: whether the thread is detached.
pub is_detached : MThread → Bool
is_detached t = t.started && not t.joined
