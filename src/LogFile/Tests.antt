-- ===== src/LogFile/Tests.antt =====
-- Runs of the log, and the properties applied to them.
use my_chat_respons.Common.{
  ℕ, Bool, true, false, some, List, [], ◌∷◌, ◌≡◌, refl, inl, arith, Returns, ◌>>=◌,
}
use my_chat_respons.LogFile.{AppendFile, Fwrite, Line, LogFile, append, new_log_file}
use my_chat_respons.LogFile.Writes.{Progresses, Appended, append-Appended}
use my_chat_respons.LogFile.Rolls.{Tidy, texts, all_files}
use my_chat_respons.LogFile.Lines.{Healthy, append_each, append_each-bytes_of}

abbrev one_byte : Fwrite
one_byte call remain = (1, false)

one_byte-Progresses : Progresses one_byte
one_byte-Progresses call remain h = (h, inl (omega arith))

abbrev small_file : AppendFile
small_file = record { opened = 5; text = 1 ∷ []; write_bytes = 1; synced = 0 }

-- A stream that takes one byte at a time.
append-Appended_example :
    Returns
      (λ f'. Appended one_byte (7 ∷ 8 ∷ 9 ∷ []) small_file f' × (f'.opened ≡ 5))
      (append one_byte (7 ∷ 8 ∷ 9 ∷ []) small_file)
append-Appended_example = append-Appended one_byte one_byte-Progresses (7 ∷ 8 ∷ 9 ∷ []) small_file

abbrev opens_all : ℕ → Bool
opens_all t = true

one_byte-Healthy : Healthy one_byte
one_byte-Healthy = (one_byte-Progresses, λ call remain. refl)

-- Three lines of two bytes: the second is past the size of a file, the third comes on a later day.
abbrev three_lines : List Line
three_lines =
    record { bytes = 1 ∷ 2 ∷ []; fwrite = one_byte; now = 10; roll_now = 10 }
    ∷ record { bytes = 3 ∷ 4 ∷ []; fwrite = one_byte; now = 20; roll_now = 21 }
    ∷ record { bytes = 5 ∷ 6 ∷ []; fwrite = one_byte; now = 90000; roll_now = 90000 }
    ∷ []

append_each-bytes_of_example :
    Returns
      (λ l. Tidy l × (texts (all_files l) ≡ 1 ∷ 2 ∷ 3 ∷ 4 ∷ 5 ∷ 6 ∷ []))
      (new_log_file opens_all 10 3 3 1 >>= λ l. append_each opens_all three_lines l)
append_each-bytes_of_example =
    append_each-bytes_of opens_all (λ t. refl) 10 3 3 1 three_lines (omega arith)
      (one_byte-Healthy, (one_byte-Healthy, (one_byte-Healthy, tt)))

abbrev small_log : LogFile
small_log = record {
  roll_size = 3;
  flush_interval = 3;
  check_every_n = 1;
  count = 0;
  start_of_period = 0;
  last_roll = 5;
  last_flush = 5;
  file = some small_file;
  closed = [];
}
