-- ===== src/TimeZone/Files.antt =====
-- `readTimeZoneFile` and its `File` (base/time_zone.cpp). What is left of the file is a list of
-- bytes. An exception ends the reading and keeps what the zone's data has got; an array of negative
-- size and an index past a vector are faults.
pub mod Encoding
pub mod RoundTrip
use my_chat_respons.Common.{
  ℕ, zero, suc, ◌+◌, ◌-◌, ◌*◌, ◌^◌, Bool, true, false, not, ◌&&◌, Option, none, some, List, [], ◌∷◌,
  ◌++◌, ltb, ◌==◌, same_bytes, if◌then◌else◌, length, take, drop, get_elem?, Outcome, ok, fault,
}
use my_chat_respons.Common.Int.{ℤ, pos, negsuc, pos_part, ◌+ℤ◌, ltb_ℤ}
use my_chat_respons.TimeZone.{Localtime, ZoneData}

pub data Read {ℓ} (A : Type ℓ) : Type ℓ where
  done : A → List ℕ → ZoneData → Read A
  threw : ZoneData → Read A
  broken : Read A

abbrev pub Reader {ℓ} : Type ℓ → Type ℓ
Reader A = List ℕ → ZoneData → Read A

infixl 5 ◌>>=◌ ◌>>◌
abbrev pub ◌>>=◌ {ℓ κ} : {A : Type ℓ} {B : Type κ} → Reader A → (A → Reader B) → Reader B
◌>>=◌ m f file zone = elim (m file zone) [
  | done a rest zone' ↦ f a rest zone'
  | threw zone' ↦ threw zone'
  | broken ↦ broken
]

abbrev pub ◌>>◌ {ℓ} : {B : Type ℓ} → Reader (Unit {0}) → Reader B → Reader B
m >> k = m >>= λ _. k

abbrev pub give {ℓ} : {A : Type ℓ} → A → Reader A
give a file zone = done a file zone

abbrev pub throw_if : Bool → Reader (Unit {0})
throw_if true file zone = threw zone
throw_if false file zone = done tt file zone

-- `readBytes`.
unfoldable pub read_bytes : ℤ → Reader (List ℕ)
read_bytes (negsuc n) file zone = broken
read_bytes (pos n) file zone =
    if ltb (length file) n then threw zone else done (take n file) (drop n file) zone

-- The value of 32 bits as an `int32_t`.
unfoldable pub signed : ℕ → ℤ
signed n = if ltb n (2 ^ 31) then pos n else negsuc (2 ^ 32 - n - 1)

-- `readInt32`: four bytes, the most significant first.
unfoldable pub read_int32 : Reader ℤ
unfolding signed
read_int32 (a ∷ b ∷ c ∷ d ∷ rest) zone =
    done (signed (a * 16777216 + b * 65536 + c * 256 + d)) rest zone
read_int32 file zone = threw zone

unfoldable pub read_uint8 : Reader ℕ
read_uint8 (a ∷ rest) zone = done a rest zone
read_uint8 [] zone = threw zone

-- The loops; their counts are not negative.
unfoldable pub read_times : ℕ → Reader (List ℤ)
unfolding read_int32
read_times zero = give []
read_times (suc n) = do t ← read_int32; ts ← read_times n; give (t ∷ ts)

unfoldable pub read_indices : ℕ → Reader (List ℕ)
unfolding read_uint8
read_indices zero = give []
read_indices (suc n) = do i ← read_uint8; rest ← read_indices n; give (i ∷ rest)

abbrev pub push_localtime : Localtime → Reader (Unit {0})
push_localtime l file zone = done tt file (record zone { localtimes = zone.localtimes ++ (l ∷ []) })

unfoldable pub read_localtimes : ℕ → Reader (Unit {0})
unfolding read_int32 read_uint8
read_localtimes zero = give tt
read_localtimes (suc n) = do
  gmtoff ← read_int32
  isdst ← read_uint8
  abbrind ← read_uint8
  push_localtime (record { gmt_offset = gmtoff; is_dst = not (isdst == 0); arrb_idx = abbrind })
  read_localtimes n

abbrev pub push_transition : ℤ → ℕ → Reader (Unit {0})
push_transition t i file zone = elim (get_elem? zone.localtimes i) [
  | none ↦ broken
  | some l ↦ done tt file (record zone {
    transitions =
        zone.transitions
        ++ (record { gmttime = t; localtime = t +ℤ l.gmt_offset; localtime_idx = i } ∷ []);
  })
]

unfoldable pub push_transitions : List ℤ → List ℕ → Reader (Unit {0})
push_transitions (t ∷ ts) (i ∷ is) = do push_transition t i; push_transitions ts is
push_transitions _ _ = give tt

abbrev pub magic : List ℕ
magic = b'T' ∷ b'Z' ∷ b'i' ∷ b'f' ∷ []

abbrev pub push_abbreviation : List ℕ → Reader (Unit {0})
push_abbreviation text file zone = done tt file (record zone { abbreviation = text })

-- After the six counts. `reserve` of a negative count throws a `length_error`, a `logic_error`.
unfoldable pub read_body : ℤ → ℤ → ℤ → Reader (Unit {0})
unfolding read_times read_indices read_localtimes push_transitions read_bytes
read_body timecnt typecnt charcnt = do
  throw_if (ltb_ℤ timecnt (pos 0))
  trans ← read_times (pos_part timecnt)
  localtimes ← read_indices (pos_part timecnt)
  read_localtimes (pos_part typecnt)
  push_transitions trans localtimes
  text ← read_bytes charcnt
  push_abbreviation text

unfoldable pub read_file : Reader (Unit {0})
unfolding read_bytes read_int32 read_body
read_file = do
  head ← read_bytes (pos 4)
  throw_if (not (same_bytes head magic))
  version ← read_bytes (pos 1)
  reserved ← read_bytes (pos 15)
  isgmtcnt ← read_int32
  isstdcnt ← read_int32
  leapcnt ← read_int32
  timecnt ← read_int32
  typecnt ← read_int32
  charcnt ← read_int32
  read_body timecnt typecnt charcnt

-- The end of `readTimeZoneFile`: what was thrown is caught.
abbrev pub finished : Read (Unit {0}) → Outcome (Bool × ZoneData)
finished (done _ _ zone) = ok (true, zone)
finished (threw zone) = ok (true, zone)
finished broken = fault

-- `readTimeZoneFile`: true whatever happened. `none` is a file that cannot be opened.
unfoldable pub read_time_zone_file : Option (List ℕ) → ZoneData → Outcome (Bool × ZoneData)
unfolding read_file
read_time_zone_file none zone = ok (true, zone)
read_time_zone_file (some file) zone = finished (read_file file zone)

abbrev pub empty_zone : ZoneData
empty_zone = record { transitions = []; localtimes = []; abbreviation = [] }

abbrev pub zone_if : Bool × ZoneData → Option ZoneData
zone_if (b, zone) = if b then some zone else none

abbrev pub reset_if_false : Outcome (Bool × ZoneData) → Outcome (Option ZoneData)
reset_if_false (ok r) = ok (zone_if r)
reset_if_false fault = fault

-- The constructor from a file.
unfoldable pub zone_of_file : Option (List ℕ) → Outcome (Option ZoneData)
unfolding read_time_zone_file
zone_of_file file = reset_if_false (read_time_zone_file file empty_zone)
