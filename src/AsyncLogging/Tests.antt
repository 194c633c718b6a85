-- ===== src/AsyncLogging/Tests.antt =====
-- Runs of the asynchronous log, and the properties applied to them.
use my_chat_respons.Common.{ℕ, true, false, some, List, [], ◌∷◌, fault, ◌≡◌, arith, Returns}
use my_chat_respons.LogStream.{new_fix_buffer}
use my_chat_respons.LogFile.{LogFile, Line}
use my_chat_respons.AsyncLogging.{Writer, large_buffer, new_logging, write_round}
use my_chat_respons.AsyncLogging.Front.{
  append_all, append_all-concat, Ready, waiting, AllShort, concat,
}
use my_chat_respons.AsyncLogging.Rounds.{write_round-stops}

abbrev three_lines : List (List ℕ)
three_lines = (1 ∷ 2 ∷ []) ∷ [] ∷ (3 ∷ []) ∷ []

three_lines-AllShort : AllShort three_lines
three_lines-AllShort = (omega arith, (omega arith, (omega arith, tt)))

append_all-concat_example :
    Returns
      (λ a. Ready a × (waiting a a.current ≡ concat three_lines))
      (append_all three_lines new_logging)
append_all-concat_example = append_all-concat three_lines three_lines-AllShort

abbrev line_of : List ℕ → Line
line_of bytes = record {
  bytes = bytes;
  fwrite = λ call remain. (remain, false);
  now = 10;
  roll_now = 10;
}

abbrev output : LogFile
output = record {
  roll_size = 1000;
  flush_interval = 3;
  check_every_n = 1024;
  count = 0;
  start_of_period = 0;
  last_roll = 9;
  last_flush = 9;
  file = some (record { opened = 9; text = []; write_bytes = 0; synced = 0 });
  closed = [];
}

abbrev writer : Writer
writer = record {
  spare1 = some (new_fix_buffer large_buffer);
  spare2 = some (new_fix_buffer large_buffer);
  buffers_to_writes = [];
  output = output;
}

write_round-stops_example :
    write_round (λ t. true) line_of (1 ∷ []) (λ a. a) new_logging writer ≡ fault
write_round-stops_example =
    write_round-stops (λ t. true) line_of (1 ∷ []) (λ a. a) new_logging writer
