-- ===== src/Logging/Head.antt =====
-- The head of a log line (base/logging.cpp).
use my_chat_respons.Common.{◌≡◌, refl, ap, Outcome, ok, fault, ◌>>=◌, length}
use my_chat_respons.Common.Int.{ℤ}
use my_chat_respons.LogStream.{FixBuffer, new_fix_buffer, small_buffer}
use my_chat_respons.Logging.{
  LogLevel, trace, debug, info, warn, error, fatal, log_m_levelname, put_known, format_time,
  put_error, HeadTexts, new_impl,
}

bind_fault :
    {A B : Type 0} (m : Outcome A) (f : A → Outcome B) → ((a : A) → f a ≡ fault) → (m >>= f) ≡ fault
bind_fault (ok a) f h = h a
bind_fault fault f h = refl

-- The name of a level has four or five characters, and six are asserted.
level-fault :
    (level : LogLevel) (stream : FixBuffer) → put_known (log_m_levelname level) 6 stream ≡ fault
unfolding put_known
level-fault trace stream = refl
level-fault debug stream = refl
level-fault info stream = refl
level-fault warn stream = refl
level-fault error stream = refl
level-fault fatal stream = refl

-- Every log line stops the process before it is written: whatever the time, the thread and the error, the head of a line of any level fails
-- the assertion on the length of the level's name.
pub new_impl-fault :
    (h : HeadTexts) (level : LogLevel) (saved_no : ℤ) → new_impl h level saved_no ≡ fault
unfolding new_impl
new_impl-fault h level saved_no =
    bind_fault (format_time h.fresh h.zone_valid h.time h.us (new_fix_buffer small_buffer)) _
      (λ stream. bind_fault (put_known h.tid (length h.tid) stream) _ (λ stream'.
        ap (λ (m : Outcome FixBuffer). m >>= λ s. put_error saved_no h.error_text s)
          (level-fault level stream')))
