-- ===== src/LogFile.antt =====
-- base/log_file.h, base/log_file.cpp and the class AppendFile of base/file_util.cpp: the files of the
-- log. The lock that `append` and `flush` may hold is left out. A time is in seconds. A file keeps the
-- second at which it was opened, on which its name depends, and all that the stream has accepted. What
-- fwrite accepts and fopen answers are arguments; a loop that does not end is a fault.
pub mod Writes
pub mod Rolls
pub mod Lines
pub mod Bounds
mod Tests
use my_chat_respons.Common.{
  ℕ, zero, suc, ◌+◌, ◌-◌, ◌*◌, ◌/◌, Bool, true, false, not, ◌&&◌, Option, none, some, List, [], ◌∷◌,
  ◌++◌, ltb, leb, ◌==◌, if◌then◌else◌, length, take, drop, Outcome, ok, fault, assert, ◌>>=◌, ◌>>◌,
}

pub record AppendFile : Type 0 where
  pub opened : ℕ
  pub text : List ℕ
  pub write_bytes : ℕ
  pub synced : ℕ

unfoldable pub new_append_file : ℕ → AppendFile
new_append_file now = record { opened = now; text = []; write_bytes = 0; synced = 0 }

-- What fwrite_unlocked does at its calls of one `append`, by the number of the call and the bytes that
-- remain: how many it accepts, and whether ferror is then set.
abbrev pub Fwrite : Type 0
Fwrite = ℕ → ℕ → ℕ × Bool

-- The loop of `AppendFile::append`: the number that it counts as written, and the stream. A failing
-- call leaves the loop before what it accepted is counted.
unfoldable pub append_loop : Fwrite → ℕ → ℕ → List ℕ → ℕ → List ℕ → Option (ℕ × List ℕ)
append_loop fwrite zero call line written text = none
append_loop fwrite (suc fuel) call line written text =
    let remain = length line - written in
    let n = (fwrite call remain).0 in
    let text' = text ++ take n (drop written line) in
    let rest = append_loop fwrite fuel (suc call) line (written + n) text' in
    if written == length line
    then some (written, text)
    else if not (n == remain) && (fwrite call remain).1
    then some (written, text')
    else rest

abbrev pub counted : AppendFile → Option (ℕ × List ℕ) → Outcome AppendFile
counted f none = fault
counted f (some (written, text)) =
    ok (record f { text = text; write_bytes = f.write_bytes + written })

-- Enough fuel for a stream that accepts a byte at each call.
unfoldable pub append : Fwrite → List ℕ → AppendFile → Outcome AppendFile
unfolding append_loop
append fwrite line f = counted f (append_loop fwrite (suc (length line)) 0 line 0 f.text)

unfoldable pub flush : AppendFile → AppendFile
flush f = record f { synced = length f.text }

pub record LogFile : Type 0 where
  pub roll_size : ℕ
  pub flush_interval : ℕ
  pub check_every_n : ℕ
  pub count : ℕ
  pub start_of_period : ℕ
  pub last_roll : ℕ
  pub last_flush : ℕ
  pub file : Option AppendFile
  pub closed : List AppendFile

abbrev pub roll_per_seconds : ℕ
roll_per_seconds = 86400

-- The file that `reset` of the pointer closes goes to the closed ones.
abbrev pub closing : Option AppendFile → List AppendFile → List AppendFile
closing none fs = fs
closing (some f) fs = f ∷ fs

-- `roll_file`, with the time that get_log_filename reads; `opens` is whether fopen opens a file.
unfoldable pub roll_file : (ℕ → Bool) → ℕ → LogFile → Outcome (Bool × LogFile)
roll_file opens now l =
    if ltb l.last_roll now
    then (do
      assert (opens now)
      ok (
        true,
        record l {
          last_roll = now;
          last_flush = now;
          start_of_period = now / roll_per_seconds * roll_per_seconds;
          file = some (new_append_file now);
          closed = closing l.file l.closed;
        },
      ))
    else ok (false, l)

-- The constructor, with the members that it leaves at 0. That the name has no slash, which it asserts, is taken for
-- granted.
unfoldable pub new_log_file : (ℕ → Bool) → ℕ → ℕ → ℕ → ℕ → Outcome LogFile
unfolding roll_file
new_log_file opens now roll_size flush_interval check_every_n = do
  r ← roll_file opens now (record {
    roll_size = roll_size;
    flush_interval = flush_interval;
    check_every_n = check_every_n;
    count = 0;
    start_of_period = 0;
    last_roll = 0;
    last_flush = 0;
    file = none;
    closed = [];
  })
  ok (r.1)

-- A null pointer.
abbrev pub pointed {ℓ} : {A : Type ℓ} → Option A → Outcome A
pointed none = fault
pointed (some a) = ok a

-- One of the lines given to the log: what fwrite does with it, the time that `append_unlocked` reads,
-- and the time that `roll_file` reads.
pub record Line : Type 0 where
  pub bytes : List ℕ
  pub fwrite : Fwrite
  pub now : ℕ
  pub roll_now : ℕ

-- The branch of `append_unlocked` for every `check_every_n`-th line.
unfoldable pub check_period : (ℕ → Bool) → Line → AppendFile → LogFile → Outcome LogFile
unfolding roll_file flush
check_period opens x f l =
    if not (x.now / roll_per_seconds * roll_per_seconds == l.start_of_period)
    then (do r ← roll_file opens x.roll_now l; ok (r.1))
    else ok (
        if ltb l.flush_interval (x.now - l.last_flush)
        then record l { last_flush = x.now; file = some (flush f) }
        else l)

-- What follows the call of `AppendFile::append`.
unfoldable pub after_append : (ℕ → Bool) → Line → AppendFile → LogFile → Outcome LogFile
unfolding roll_file check_period
after_append opens x f l =
    if ltb l.roll_size f.write_bytes
    then (do r ← roll_file opens x.roll_now l; ok (r.1))
    else if leb l.check_every_n (suc l.count)
    then check_period opens x f (record l { count = 0 })
    else ok (record l { count = suc l.count })

unfoldable pub append_unlocked : (ℕ → Bool) → Line → LogFile → Outcome LogFile
unfolding append after_append
append_unlocked opens x l = do
  f ← pointed l.file
  f' ← append x.fwrite x.bytes f
  after_append opens x f' (record l { file = some f' })

-- `LogFile::flush`.
unfoldable pub flush_log : LogFile → Outcome LogFile
unfolding flush
flush_log l = do f ← pointed l.file; ok (record l { file = some (flush f) })
