-- ===== src/TimeZone/Files/Encoding.antt =====
-- The parts of a zone file written down in its format, and that the readers of base/time_zone.cpp
-- take them back.
use my_chat_respons.Common.{
  ℕ, zero, suc, ◌+◌, ◌-◌, ◌*◌, ◌/◌, ◌%◌, ◌^◌, ◌≤◌, ◌<◌, ◌≡◌, refl, ap, ◌∙◌, Bool, true, false, not,
  Option, none, some, List, [], ◌∷◌, ◌++◌, arith, ltb, ◌==◌, if◌then◌else◌, length, take, drop,
  get_elem?, get_or, length-append,
}
use mathlib.Core.List.{append-nil, append_assoc}
use my_chat_respons.Common.Int.{ℤ, pos, negsuc, pos_part, neg_part, ◌+ℤ◌}
use my_chat_respons.TimeZone.{Transition, Localtime, ZoneData}
use my_chat_respons.TimeZone.Files.{
  Read, done, threw, broken, Reader, ◌>>=◌, ◌>>◌, give, read_bytes, signed, read_int32, read_uint8,
  read_times, read_indices, push_localtime, read_localtimes, push_transition, push_transitions,
}

-- The bit pattern of an integer, its four bytes, and the range.
abbrev pub bits : ℤ → ℕ
bits (pos n) = n
bits (negsuc n) = 2 ^ 32 - 1 - n

abbrev pub bytes32 : ℤ → List ℕ → List ℕ
bytes32 v rest = let n = bits v in n / 16777216 ∷ n / 65536 % 256 ∷ n / 256 % 256 ∷ n % 256 ∷ rest

abbrev pub Is32 : ℤ → Type 0
Is32 v = (pos_part v < 2 ^ 31) × (neg_part v ≤ 2 ^ 31)

four :
    (n : ℕ) → n / 16777216 * 16777216 + n / 65536 % 256 * 65536 + n / 256 % 256 * 256 + n % 256 ≡ n
four n = omega arith

signed-bits : (v : ℤ) → Is32 v → signed (bits v) ≡ v
unfolding signed
signed-bits (pos n) h = ground arith
signed-bits (negsuc n) h = ground arith

pub read_int32-bytes32 :
    (v : ℤ) (rest : List ℕ) (zone : ZoneData)
    → Is32 v
    → read_int32 (bytes32 v rest) zone ≡ done v rest zone
unfolding read_int32
read_int32-bytes32 v rest zone h = rw (four (bits v), signed-bits v h) refl

-- A read that is done hands on.
pub bind-done {ℓ κ} :
    {A : Type ℓ} {B : Type κ} (m : Reader A) (f : A → Reader B) (file : List ℕ) (zone : ZoneData)
    {rest : List ℕ} {zone' : ZoneData} {a : A}
    → m file zone ≡ done a rest zone'
    → ◌>>=◌ m f file zone ≡ f a rest zone'
bind-done m f file zone {rest} {zone'} {a} e =
    ap
      (λ r. elim r [
        | done a rest zone' ↦ f a rest zone'
        | threw zone' ↦ threw zone'
        | broken ↦ broken
      ])
      e

abbrev pub AllOf : (ℤ → Type 0) → List ℤ → Type 0
AllOf P [] = Unit
AllOf P (x ∷ xs) = P x × AllOf P xs

abbrev pub times_bytes : List ℤ → List ℕ → List ℕ
times_bytes [] rest = rest
times_bytes (t ∷ ts) rest = bytes32 t (times_bytes ts rest)

pub read_times-times_bytes :
    (ts : List ℤ) (rest : List ℕ) (zone : ZoneData)
    → AllOf Is32 ts
    → read_times (length ts) (times_bytes ts rest) zone ≡ done ts rest zone
unfolding read_times
read_times-times_bytes [] rest zone h = refl
read_times-times_bytes (t ∷ ts) rest zone (h, hs) =
    bind-done read_int32 (λ t. read_times (length ts) >>= λ ts. give (t ∷ ts))
      (bytes32 t (times_bytes ts rest)) zone (read_int32-bytes32 t (times_bytes ts rest) zone h)
    ∙ bind-done (read_times (length ts)) (λ ts. give (t ∷ ts)) (times_bytes ts rest) zone
        (read_times-times_bytes ts rest zone hs)

pub read_indices-append :
    (is rest : List ℕ) (zone : ZoneData)
    → read_indices (length is) (is ++ rest) zone ≡ done is rest zone
unfolding read_indices read_uint8
read_indices-append [] rest zone = refl
read_indices-append (i ∷ is) rest zone =
    bind-done (read_indices (length is)) (λ is. give (i ∷ is)) (is ++ rest) zone
      (read_indices-append is rest zone)

abbrev pub types_bytes : List Localtime → List ℕ → List ℕ
types_bytes [] rest = rest
types_bytes (l ∷ ls) rest =
    bytes32 l.gmt_offset ((if l.is_dst then 1 else 0) ∷ l.arrb_idx ∷ types_bytes ls rest)

abbrev pub AllOffsets : List Localtime → Type 0
AllOffsets [] = Unit
AllOffsets (l ∷ ls) = Is32 l.gmt_offset × AllOffsets ls

flag : (b : Bool) → not ((if b then 1 else 0) == 0) ≡ b
flag true = refl
flag false = refl

-- A local time, once its offset is read.
abbrev read_type : ℕ → ℤ → Reader (Unit {0})
read_type n gmtoff = do
  isdst ← read_uint8
  abbrind ← read_uint8
  push_localtime (record { gmt_offset = gmtoff; is_dst = not (isdst == 0); arrb_idx = abbrind })
  read_localtimes n

pub read_localtimes-types_bytes :
    (ls : List Localtime) (rest : List ℕ) (zone : ZoneData)
    → AllOffsets ls
    → read_localtimes (length ls) (types_bytes ls rest) zone
      ≡ done tt rest (record zone { localtimes = zone.localtimes ++ ls })
unfolding read_localtimes read_uint8
read_localtimes-types_bytes [] rest zone h = rw (append-nil zone.localtimes) refl
read_localtimes-types_bytes (l ∷ ls) rest zone (h, hs) =
    let after : List ℕ = (if l.is_dst then 1 else 0) ∷ l.arrb_idx ∷ types_bytes ls rest in
    bind-done read_int32 (read_type (length ls)) (bytes32 l.gmt_offset after) zone
      (read_int32-bytes32 l.gmt_offset after zone h)
    ∙ ap
        (λ b. read_localtimes (length ls) (types_bytes ls rest) (record zone {
          localtimes =
              zone.localtimes
              ++ (record { gmt_offset = l.gmt_offset; is_dst = b; arrb_idx = l.arrb_idx } ∷ []);
        }))
        (flag l.is_dst)
    ∙ read_localtimes-types_bytes ls rest (record zone { localtimes = zone.localtimes ++ (l ∷ []) })
        hs
    ∙ ap (λ k. done tt rest (record zone { localtimes = k }))
        (append_assoc zone.localtimes (l ∷ []) ls)

-- A local time that stands for none.
abbrev pub no_localtime : Localtime
no_localtime = record { gmt_offset = pos 0; is_dst = false; arrb_idx = 0 }

-- The transitions that the times and their indices stand for.
abbrev pub transitions_of : List Localtime → List ℤ → List ℕ → List Transition
transitions_of ls (t ∷ ts) (i ∷ is) =
    record {
      gmttime = t;
      localtime = t +ℤ (get_or ls i no_localtime).gmt_offset;
      localtime_idx = i;
    }
    ∷ transitions_of ls ts is
transitions_of ls [] is = []
transitions_of ls (t ∷ ts) [] = []

abbrev pub AllBelow : ℕ → List ℕ → Type 0
AllBelow n [] = Unit
AllBelow n (i ∷ is) = (i < n) × AllBelow n is

get_elem?-lt :
    (ls : List Localtime) (i : ℕ) → i < length ls → get_elem? ls i ≡ some (get_or ls i no_localtime)
get_elem?-lt [] i h = absurd (omega arith)
get_elem?-lt (l ∷ ls) zero h = refl
get_elem?-lt (l ∷ ls) (suc i) h = get_elem?-lt ls i (omega arith)

abbrev push_found : ℤ → ℕ → List ℕ → ZoneData → Option Localtime → Read (Unit {0})
push_found t i file zone o = elim o [
  | none ↦ broken
  | some l ↦ done tt file (record zone {
    transitions =
        zone.transitions
        ++ (record { gmttime = t; localtime = t +ℤ l.gmt_offset; localtime_idx = i } ∷ []);
  })
]

pub push_transitions-of :
    (ts : List ℤ) (is file : List ℕ) (zone : ZoneData)
    → AllBelow (length zone.localtimes) is
    → push_transitions ts is file zone
      ≡ done tt file
          (record zone { transitions = zone.transitions ++ transitions_of zone.localtimes ts is })
unfolding push_transitions
push_transitions-of [] is file zone h = rw (append-nil zone.transitions) refl
push_transitions-of (t ∷ ts) [] file zone h = rw (append-nil zone.transitions) refl
push_transitions-of (t ∷ ts) (i ∷ is) file zone (h, hs) =
    let l = get_or zone.localtimes i no_localtime in
    let made : Transition = record {
      gmttime = t;
      localtime = t +ℤ l.gmt_offset;
      localtime_idx = i;
    } in
    bind-done (push_transition t i) (λ _. push_transitions ts is) file zone
      (ap (push_found t i file zone) (get_elem?-lt zone.localtimes i h))
    ∙ (push_transitions-of ts is file
          (record zone { transitions = zone.transitions ++ (made ∷ []) }) hs
        ∙ ap (λ k. done tt file (record zone { transitions = k }))
            (append_assoc zone.transitions (made ∷ []) (transitions_of zone.localtimes ts is)))

take_front : (xs rest : List ℕ) → take (length xs) (xs ++ rest) ≡ xs
take_front [] rest = refl
take_front (x ∷ xs) rest = ap (◌∷◌ x) (take_front xs rest)

drop_front : (xs rest : List ℕ) → drop (length xs) (xs ++ rest) ≡ rest
drop_front [] rest = refl
drop_front (x ∷ xs) rest = drop_front xs rest

pub read_bytes-append :
    (xs rest : List ℕ) (zone : ZoneData)
    → read_bytes (pos (length xs)) (xs ++ rest) zone ≡ done xs rest zone
unfolding read_bytes
read_bytes-append xs rest zone = rw (enough, take_front xs rest, drop_front xs rest) refl
  where
    enough : ltb (length (xs ++ rest)) (length xs) ≡ false
    enough = ground (arith, length-append xs rest)
