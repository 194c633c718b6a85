-- ===== src/StringPiece/Tests.antt =====
-- Pieces (base/string_piece.h) that are compared.
use my_chat_respons.Common.{◌≡◌, not, [], ◌∷◌}
use my_chat_respons.StringPiece.{
  StringPiece, is_negative, is_null, is_positive, equals, differs, less, less_equal, greater_equal,
  greater, compare,
}
use my_chat_respons.StringPiece.Order.{Tells, compare-Tells}

abbrev short_piece : StringPiece
short_piece = record { text = 97 ∷ 98 ∷ [] }

abbrev long_piece : StringPiece
long_piece = record { text = 97 ∷ 98 ∷ 99 ∷ [] }

compare-Tells_example :
    Tells (compare short_piece long_piece) (97 ∷ 98 ∷ []) (97 ∷ 98 ∷ 99 ∷ [])
    × (equals short_piece long_piece ≡ is_null (compare short_piece long_piece))
    × (differs short_piece long_piece ≡ not (is_null (compare short_piece long_piece)))
    × (less short_piece long_piece ≡ is_negative (compare short_piece long_piece))
    × (less_equal short_piece long_piece ≡ not (is_positive (compare short_piece long_piece)))
    × (greater_equal short_piece long_piece ≡ not (is_negative (compare short_piece long_piece)))
    × (greater short_piece long_piece ≡ is_positive (compare short_piece long_piece))
compare-Tells_example = compare-Tells short_piece long_piece
