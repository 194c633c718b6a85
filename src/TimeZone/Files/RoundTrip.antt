-- ===== src/TimeZone/Files/RoundTrip.antt =====
-- A whole zone file, and what `readTimeZoneFile` (base/time_zone.cpp) makes of it; and of no file.
use my_chat_respons.Common.{
  same_bytes, ℕ, ◌^◌, ◌<◌, ◌≡◌, refl, sym, ap, ◌∙◌, ◌≢◌, false, not, Option, none, some, List, [],
  ◌∷◌, ◌++◌, arith, length, ok, fault,
}
use my_chat_respons.Common.Int.{ℤ, pos, ltb_ℤ}
use my_chat_respons.TimeZone.{
  Tm, Localtime, ZoneData, to_local_time, from_local_time, find_localtime, localtime_at,
}
use my_chat_respons.TimeZone.Files.{
  done, Reader, ◌>>=◌, ◌>>◌, throw_if, read_bytes, read_int32, read_times, read_indices,
  read_localtimes, push_transitions, magic, read_body, read_file, push_abbreviation,
  read_time_zone_file, finished, reset_if_false, empty_zone, zone_of_file,
}
use my_chat_respons.TimeZone.Files.Encoding.{
  bytes32, Is32, read_int32-bytes32, bind-done, AllOf, times_bytes, read_times-times_bytes,
  read_indices-append, types_bytes, AllOffsets, read_localtimes-types_bytes, transitions_of,
  AllBelow, push_transitions-of, read_bytes-append,
}

-- A zone file in its format: the counts that the reader skips, the times and their indices, the local times and
-- their text, and what follows.
pub record ZoneFile : Type 0 where
  pub version : ℕ
  pub reserved : List ℕ
  pub skipped : ℤ × ℤ × ℤ
  pub times : List ℤ
  pub indices : List ℕ
  pub localtimes : List Localtime
  pub text : List ℕ
  pub rest : List ℕ

abbrev pub body_bytes : ZoneFile → List ℕ
body_bytes z = times_bytes z.times (z.indices ++ types_bytes z.localtimes (z.text ++ z.rest))

abbrev pub count_bytes : ZoneFile → List ℕ
count_bytes z = bytes32 z.skipped.0 (
    bytes32 z.skipped.1 (
      bytes32 z.skipped.2 (
        bytes32 (pos (length z.times))
          (bytes32 (pos (length z.localtimes)) (bytes32 (pos (length z.text)) (body_bytes z))))))

abbrev pub file_bytes : ZoneFile → List ℕ
file_bytes z = magic ++ ((z.version ∷ []) ++ (z.reserved ++ count_bytes z))

pub record IsWritten (z : ZoneFile) : Type 0 where
  pub reserved_bytes : length z.reserved ≡ 15
  pub skipped_small : Is32 z.skipped.0 × Is32 z.skipped.1 × Is32 z.skipped.2
  pub few_times : length z.times < 2 ^ 31
  pub few_localtimes : length z.localtimes < 2 ^ 31
  pub short_text : length z.text < 2 ^ 31
  pub times_small : AllOf Is32 z.times
  pub one_index_each : length z.indices ≡ length z.times
  pub indices_below : AllBelow (length z.localtimes) z.indices
  pub offsets_small : AllOffsets z.localtimes

abbrev pub zone_of : ZoneFile → ZoneData
zone_of z = record {
  transitions = transitions_of z.localtimes z.times z.indices;
  localtimes = z.localtimes;
  abbreviation = z.text;
}

not_negative : (n : ℕ) → ltb_ℤ (pos n) (pos 0) ≡ false
not_negative n = ground arith

module _ (z : ZoneFile) (w : IsWritten z) where
  indices_read :
      (zone : ZoneData) (rest : List ℕ)
      → read_indices (length z.times) (z.indices ++ rest) zone ≡ done z.indices rest zone
  indices_read zone rest =
      ap (λ n. read_indices n (z.indices ++ rest) zone) (sym w.one_index_each)
      ∙ read_indices-append z.indices rest zone

  -- What `read_body` does after each of its steps.
  abbrev then_text : Reader (Unit {0})
  then_text = read_bytes (pos (length z.text)) >>= λ text. push_abbreviation text

  abbrev then_push : List ℤ → List ℕ → Reader (Unit {0})
  then_push trans is = push_transitions trans is >>= λ _. then_text

  abbrev then_localtimes : List ℤ → List ℕ → Reader (Unit {0})
  then_localtimes trans is = read_localtimes (length z.localtimes) >>= λ _. then_push trans is

  abbrev then_indices : List ℤ → Reader (Unit {0})
  then_indices trans = read_indices (length z.times) >>= then_localtimes trans

  abbrev then_times : Reader (Unit {0})
  then_times = read_times (length z.times) >>= then_indices

  text_read :
      (zone : ZoneData)
      → then_text (z.text ++ z.rest) zone ≡ done tt z.rest (record zone { abbreviation = z.text })
  text_read zone =
      bind-done (read_bytes (pos (length z.text))) (λ text. push_abbreviation text)
        (z.text ++ z.rest) zone (read_bytes-append z.text z.rest zone)

  body_read :
      read_body
        (pos (length z.times))
        (pos (length z.localtimes))
        (pos (length z.text))
        (body_bytes z)
        empty_zone
      ≡ done tt z.rest (zone_of z)
  unfolding read_body
  body_read =
      let text = z.text ++ z.rest in
      let types = types_bytes z.localtimes text in
      let typed : ZoneData = record empty_zone { localtimes = z.localtimes } in
      bind-done (throw_if (ltb_ℤ (pos (length z.times)) (pos 0))) (λ _. then_times) (body_bytes z)
        empty_zone (ap (λ b. throw_if b (body_bytes z) empty_zone) (not_negative (length z.times)))
      ∙ bind-done (read_times (length z.times)) then_indices (body_bytes z) empty_zone
          (read_times-times_bytes z.times (z.indices ++ types) empty_zone w.times_small)
      ∙ bind-done (read_indices (length z.times)) (then_localtimes z.times) (z.indices ++ types)
          empty_zone (indices_read empty_zone types)
      ∙ bind-done (read_localtimes (length z.localtimes)) (λ _. then_push z.times z.indices) types
          empty_zone (read_localtimes-types_bytes z.localtimes text empty_zone w.offsets_small)
      ∙ bind-done (push_transitions z.times z.indices) (λ _. then_text) text typed
          (push_transitions-of z.times z.indices text typed w.indices_below)
      ∙ text_read (record typed { transitions = transitions_of z.localtimes z.times z.indices })

-- What `read_file` does with its six counts, the last first, and after its head.
abbrev count6 : ℤ → ℤ → Reader (Unit {0})
count6 timecnt typecnt = read_int32 >>= read_body timecnt typecnt

abbrev count5 : ℤ → Reader (Unit {0})
count5 timecnt = read_int32 >>= count6 timecnt

abbrev count4 : Reader (Unit {0})
count4 = read_int32 >>= count5

abbrev count3 : Reader (Unit {0})
count3 = read_int32 >>= λ _. count4

abbrev count2 : Reader (Unit {0})
count2 = read_int32 >>= λ _. count3

abbrev count1 : Reader (Unit {0})
count1 = read_int32 >>= λ _. count2

abbrev after_head : List ℕ → Reader (Unit {0})
after_head head =
    throw_if (not (same_bytes head magic))
    >> (read_bytes (pos 1) >>= λ _. read_bytes (pos 15) >>= λ _. count1)

count_read :
    (k : ℤ → Reader (Unit {0})) (v : ℤ) (rest : List ℕ) (zone : ZoneData)
    → Is32 v
    → ◌>>=◌ read_int32 k (bytes32 v rest) zone ≡ k v rest zone
count_read k v rest zone h =
    bind-done read_int32 k (bytes32 v rest) zone (read_int32-bytes32 v rest zone h)

counts_read :
    (a b c d e f : ℤ) (body : List ℕ) (zone : ZoneData)
    → Is32 a
    → Is32 b
    → Is32 c
    → Is32 d
    → Is32 e
    → Is32 f
    → count1 (bytes32 a (bytes32 b (bytes32 c (bytes32 d (bytes32 e (bytes32 f body)))))) zone
      ≡ read_body d e f body zone
counts_read a b c d e f body zone p q r s t u =
    let r6 = bytes32 f body in
    let r5 = bytes32 e r6 in
    let r4 = bytes32 d r5 in
    let r3 = bytes32 c r4 in
    let r2 = bytes32 b r3 in
    count_read (λ _. count2) a r2 zone p
    ∙ count_read (λ _. count3) b r3 zone q
    ∙ count_read (λ _. count4) c r4 zone r
    ∙ count_read count5 d r5 zone s
    ∙ count_read (count6 d) e r6 zone t
    ∙ count_read (read_body d e) f body zone u

file_read :
    (z : ZoneFile) → IsWritten z → read_file (file_bytes z) empty_zone ≡ done tt z.rest (zone_of z)
unfolding read_file
file_read z w =
    let r15 = z.reserved ++ count_bytes z in
    bind-done (read_bytes (pos 4)) after_head (file_bytes z) empty_zone
      (read_bytes-append magic ((z.version ∷ []) ++ r15) empty_zone)
    ∙ bind-done (read_bytes (pos 1)) (λ _. read_bytes (pos 15) >>= λ _. count1)
        ((z.version ∷ []) ++ r15) empty_zone (read_bytes-append (z.version ∷ []) r15 empty_zone)
    ∙ bind-done (read_bytes (pos 15)) (λ _. count1) r15 empty_zone
        (ap (λ n. read_bytes (pos n) r15 empty_zone) (sym w.reserved_bytes)
          ∙ read_bytes-append z.reserved (count_bytes z) empty_zone)
    ∙ counts_read z.skipped.0 z.skipped.1 z.skipped.2 (pos (length z.times))
        (pos (length z.localtimes)) (pos (length z.text)) (body_bytes z) empty_zone
        w.skipped_small.0 w.skipped_small.1 w.skipped_small.2 (w.few_times, omega arith)
        (w.few_localtimes, omega arith) (w.short_text, omega arith)
    ∙ body_read z w

-- A zone file in its format, whose counts and offsets fit in 32 bits and whose indices name local times of
-- the file, is read back: the zone has the transitions, local times and text of the file.
pub zone_of_file-file_bytes :
    (z : ZoneFile) → IsWritten z → zone_of_file (some (file_bytes z)) ≡ ok (some (zone_of z))
unfolding zone_of_file read_time_zone_file
zone_of_file-file_bytes z w = ap (λ r. reset_if_false (finished r)) (file_read z w)

-- A zone whose file cannot be opened is made all the same, and counts as valid; but
-- every `to_local_time` and `from_local_time` of it reads past its empty vector.
zone_of_file_missing :
    (gmtime : ℤ → Tm) (timegm : Tm → ℤ) (seconds : ℤ) (local_tm : Tm)
    → (zone : Option ZoneData) × (zone_of_file none ≡ ok zone)
      × (zone ≢ none)
      × (to_local_time gmtime zone seconds ≡ fault)
      × (from_local_time gmtime timegm zone local_tm ≡ fault)
unfolding zone_of_file read_time_zone_file to_local_time from_local_time find_localtime localtime_at
zone_of_file_missing gmtime timegm seconds local_tm = (some empty_zone, refl, (λ e. cc), refl, refl)
