-- ===== src/LogStream/Tests.antt =====
-- Runs of the log line (base/log_stream.h, base/log_stream.cpp) on small inputs.
use my_chat_respons.Common.{ℕ, ◌≤◌, ◌≡◌, refl, List, [], ◌∷◌, arith, length, some}
use my_chat_respons.Common.Int.{pos, negsuc}
use my_chat_respons.LogStream.Iec.{format_iec, Shown, format_iec-Shown}
use my_chat_respons.LogStream.{FixBuffer, convert}
use my_chat_respons.LogStream.Decimal.{read_text, convert-read_text}

abbrev small_line : FixBuffer
small_line = record { size = 4; text = 65 ∷ [] }

convert-read_text_example :
    (t : List ℕ) × (convert (negsuc 41) ≡ some t) × (read_text t ≡ negsuc 41) × (length t ≤ 21)
convert-read_text_example = convert-read_text (negsuc 41) (ground arith)

format_iec-Shown_example : Shown (pos 10235) (format_iec (pos 10235))
format_iec-Shown_example = format_iec-Shown (pos 10235) (10235, 0, omega arith, refl) (omega arith)
