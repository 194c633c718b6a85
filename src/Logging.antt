-- ===== src/Logging.antt =====
-- base/logging.h and base/logging.cpp: a log line, in the buffer of a LogStream. The text of the time and that of the microseconds, of the
-- thread and of an error are arguments, as is the number of the line, which the source never sets.
pub mod Head
mod Tests
use my_chat_respons.Common.{
  ℕ, Bool, true, Option, none, some, List, [], ◌∷◌, leb, ◌==◌, if◌then◌else◌, length, Outcome, ok,
  fault, assert, ◌>>=◌, ◌>>◌,
}
use my_chat_respons.Common.Int.{ℤ, pos, eqb_ℤ}
use my_chat_respons.LogStream.{
  FixBuffer, new_fix_buffer, small_buffer, append, put_text, format_integer,
}

pub data LogLevel : Type 0 where
  trace debug info warn error fatal : LogLevel

abbrev pub rank : LogLevel → ℕ
rank trace = 0
rank debug = 1
rank info = 2
rank warn = 3
rank error = 4
rank fatal = 5

abbrev pub log_m_levelname : LogLevel → List ℕ
log_m_levelname trace = b'T' ∷ b'R' ∷ b'A' ∷ b'C' ∷ b'E' ∷ []
log_m_levelname debug = b'D' ∷ b'E' ∷ b'B' ∷ b'U' ∷ b'G' ∷ []
log_m_levelname info = b'I' ∷ b'N' ∷ b'F' ∷ b'O' ∷ []
log_m_levelname warn = b'W' ∷ b'A' ∷ b'R' ∷ b'N' ∷ []
log_m_levelname error = b'E' ∷ b'R' ∷ b'R' ∷ b'O' ∷ b'R' ∷ []
log_m_levelname fatal = b'F' ∷ b'A' ∷ b'T' ∷ b'A' ∷ b'L' ∷ []

-- The macros: whether a line of a level is made at all.
unfoldable pub is_logged : LogLevel → LogLevel → Bool
is_logged threshold trace = leb (rank threshold) (rank trace)
is_logged threshold debug = leb (rank threshold) (rank debug)
is_logged threshold info = leb (rank threshold) (rank info)
is_logged threshold warn = true
is_logged threshold error = true
is_logged threshold fatal = true

-- `init_log_level`, from the two variables of the environment.
unfoldable pub init_log_level : Bool → Bool → LogLevel
init_log_level has_trace has_debug = if has_trace then trace else if has_debug then debug else info

-- `SourceFile`: what stands behind the first slash, if there is one.
unfoldable pub after_slash : List ℕ → Option (List ℕ)
after_slash [] = none
after_slash (c ∷ cs) = if c == b'/' then some cs else after_slash cs

unfoldable pub base_name : List ℕ → List ℕ
unfolding after_slash
base_name file = elim (after_slash file) [ none ↦ file | some rest ↦ rest ]

-- `operator<<` of a text of known length: its constructor asserts the length.
unfoldable pub put_known : List ℕ → ℕ → FixBuffer → Outcome FixBuffer
put_known text len stream = do assert (length text == len); ok (append text stream)

-- `format_time`; `fresh` says whether the second is new.
unfoldable pub format_time : Bool → Bool → List ℕ → List ℕ → FixBuffer → Outcome FixBuffer
unfolding put_known
format_time fresh zone_valid time us stream = do
  assert (if fresh then length time == 17 else true)
  let width : ℕ = if zone_valid then 8 else 9
  assert (length us == width)
  stream' ← put_known time 17 stream
  put_known us width stream'

abbrev pub written : Option FixBuffer → Outcome FixBuffer
written none = fault
written (some b) = ok b

-- The text of an error behind the head.
unfoldable pub put_error : ℤ → List ℕ → FixBuffer → Outcome FixBuffer
put_error saved_no text stream = if eqb_ℤ saved_no (pos 0) then ok stream else (do
  let before =
      put_text (some (b'(' ∷ b'e' ∷ b'r' ∷ b'r' ∷ b'n' ∷ b'o' ∷ b' ' ∷ b'=' ∷ b' ' ∷ []))
        (put_text (some text) stream)
  stream' ← written (format_integer saved_no before)
  ok (put_text (some (b')' ∷ [])) stream'))

-- What the head of a line is made of.
pub record HeadTexts : Type 0 where
  pub fresh : Bool
  pub zone_valid : Bool
  pub time : List ℕ
  pub us : List ℕ
  pub tid : List ℕ
  pub error_text : List ℕ

-- The constructor of `Impl`.
unfoldable pub new_impl : HeadTexts → LogLevel → ℤ → Outcome FixBuffer
unfolding format_time put_known put_error
new_impl h level saved_no = do
  stream ← format_time h.fresh h.zone_valid h.time h.us (new_fix_buffer small_buffer)
  stream' ← put_known h.tid (length h.tid) stream
  stream'' ← put_known (log_m_levelname level) 6 stream'
  put_error saved_no h.error_text stream''

-- `finish`.
unfoldable pub finish : List ℕ → ℤ → FixBuffer → Outcome FixBuffer
finish file line stream = do
  let named = append file (put_text (some (b' ' ∷ b'-' ∷ b' ' ∷ [])) stream)
  stream' ← written (format_integer line (append (b':' ∷ []) named))
  ok (append (b'\n' ∷ []) stream')
