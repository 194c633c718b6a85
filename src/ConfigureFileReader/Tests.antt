-- ===== src/ConfigureFileReader/Tests.antt =====
-- A file of settings, and the property applied to it.
use my_chat_respons.Common.{ℕ, Bool, true, false, some, List, [], ◌∷◌, ok, ◌≡◌, refl, arith}
use my_chat_respons.ConfigureFileReader.{
  ConfigureFileReader, Settings, ends_blank, load_file, write_pairs,
}
use my_chat_respons.ConfigureFileReader.RoundTrip.{AreNew, settings_of, load_file-write_pairs}

-- port = 80, and ip = 1 2 with a blank inside.
abbrev two_settings : Settings
two_settings =
    (b'p' ∷ b'o' ∷ b'r' ∷ b't' ∷ [], b'8' ∷ b'0' ∷ [])
    ∷ (b'i' ∷ b'p' ∷ [], b'1' ∷ b' ' ∷ b'2' ∷ [])
    ∷ []

two_settings-AreNew : AreNew [] two_settings
unfolding ends_blank
two_settings-AreNew = (
  record {
    whole_key = (
      (refl, (refl, (refl, (refl, tt)))),
      (refl, (refl, (refl, (refl, tt)))),
      (refl, (refl, (refl, (refl, tt)))),
      (refl, (refl, (refl, (refl, tt)))),
    );
    whole_value = ((refl, (refl, tt)), (refl, (refl, tt)), (refl, (refl, tt)));
    key_starts = refl;
    key_ends = refl;
    value_starts = refl;
    short = omega arith;
  },
  refl,
  (
    record {
      whole_key = ((refl, (refl, tt)), (refl, (refl, tt)), (refl, (refl, tt)), (refl, (refl, tt)));
      whole_value =
          ((refl, (refl, (refl, tt))), (refl, (refl, (refl, tt))), (refl, (refl, (refl, tt))));
      key_starts = refl;
      key_ends = refl;
      value_starts = refl;
      short = omega arith;
    },
    refl,
    tt,
  ),
)

abbrev empty_reader : ConfigureFileReader
empty_reader = record { load_ok = false; configure_map = [] }

abbrev takes_all : List ℕ → Bool
takes_all pair = true

load_file-write_pairs_example :
    load_file (some (write_pairs takes_all (settings_of two_settings))) empty_reader
    ≡ ok (record { load_ok = true; configure_map = settings_of two_settings })
load_file-write_pairs_example =
    load_file-write_pairs takes_all two_settings empty_reader (λ pair. refl) two_settings-AreNew
      refl
