-- ===== src/ReadSmallFile/Contents.antt =====
-- What `ReadSmallFile` (base/file_util.cpp) reads of a file.
use my_chat_respons.Common.{
  ℕ, zero, suc, ◌-◌, ◌<◌, ◌≤◌, min, ◌≡◌, refl, sym, ap, ◌∙◌, inl, inr, Bool, true, false, some,
  List, [], ◌∷◌, ◌++◌, ltb, Bool-cases, length, take, take_all, take-append_le, length-append,
  arith,
}
use mathlib.Core.List.{append_assoc, append-nil}
use my_chat_respons.ReadSmallFile.{
  Answer, bytes, buff_size, opens, read_loop, read_stat, stat, regular, when, read_to_string,
  read_file, new_read_small_file,
}

-- `read` on a file with these contents, as it is documented: at the end, no bytes; before it, one byte at least,
-- and no more than are wanted, from where the last call ended.
pub record Reads (file : List ℕ) (read : ℕ → ℕ → Answer) : Type 0 where
  pub at_end : (n : ℕ) → read (length file) n ≡ bytes []
  pub inside :
      (done rest : List ℕ) (n : ℕ)
      → done ++ rest ≡ file
      → 0 < length rest
      → 0 < n
      → (x : ℕ) × (xs : List ℕ) × (left : List ℕ) × (read (length done) n ≡ bytes (x ∷ xs))
        × ((x ∷ xs) ++ left ≡ rest)
        × (length (x ∷ xs) ≤ n)

module _ (file : List ℕ) (read : ℕ → ℕ → Answer) (reads : Reads file read) (max_size : ℕ) where
  ended :
      (done : List ℕ) (fuel err : ℕ)
      → done ≡ file
      → length done < max_size
      → read_loop read max_size (suc fuel) done err ≡ some (take max_size file, err)
  unfolding read_loop
  ended done fuel err e lt =
      let under : ltb (length done) max_size ≡ true = ground arith in
      let stop =
        ap (λ (xs : List ℕ). read (length xs) (min (max_size - length done) buff_size)) e
        ∙ reads.at_end _ in
      let all = take_all max_size done (omega arith) in
      rw (under, stop) (ap (λ (xs : List ℕ). some (xs, err)) (sym all ∙ ap (take max_size) e))

  full :
      (done rest : List ℕ) (fuel err : ℕ)
      → done ++ rest ≡ file
      → length done ≡ max_size
      → read_loop read max_size (suc fuel) done err ≡ some (take max_size file, err)
  unfolding read_loop
  full done rest fuel err e n =
      let over : ltb (length done) max_size ≡ false = ground arith in
      let first = take-append_le max_size done rest (omega arith) in
      let all = take_all max_size done (omega arith) in
      rw over (ap (λ (xs : List ℕ). some (xs, err)) (sym all ∙ sym first ∙ ap (take max_size) e))

  read_loop-take :
      (fuel : ℕ) (done rest : List ℕ) (err : ℕ)
      → done ++ rest ≡ file
      → length done ≤ max_size
      → max_size - length done < fuel
      → read_loop read max_size fuel done err ≡ some (take max_size file, err)
  unfolding read_loop
  read_loop-take zero done rest err e few h = absurd (omega arith)
  read_loop-take (suc fuel) done [] err e few h =
      let whole : done ≡ file = sym (append-nil done) ∙ e in
      elim (Bool-cases (ltb (length done) max_size)) [
        | inr f ↦ full done [] fuel err e (ground arith)
        | inl t ↦ ended done fuel err whole (ground arith)
      ]
  read_loop-take (suc fuel) done (y ∷ ys) err e few h =
      elim (Bool-cases (ltb (length done) max_size)) [
        | inr f ↦ full done (y ∷ ys) fuel err e (ground arith)
        | inl t ↦
            let under : length done < max_size = ground arith in
            let want = min (max_size - length done) buff_size in
            let (x, xs, left, got, split, fits) =
              reads.inside done (y ∷ ys) want e (omega arith) (omega arith) in
            let size = length-append done (x ∷ xs) in
            let next =
              append_assoc done (x ∷ xs) left ∙ ap (λ (zs : List ℕ). done ++ zs) split ∙ e in
            rw (t, got)
              (read_loop-take fuel (done ++ (x ∷ xs)) left err next
                (omega (arith, size, fits, under)) (omega (arith, size, h)))
      ]

-- With fuel for one round a byte, reading a regular file of which `fstat` gives the size comes to an end without an error, whatever
-- sizes its reads have: the string, whatever it held, is the file's first `maxSize` bytes, or all of it if it
-- is shorter, and the size and the times are those asked for.
pub read_file-take :
    (file : List ℕ) (read : ℕ → ℕ → Answer) (fd max_size mtime ctime : ℕ)
    (wants_modify wants_create : Bool) (content : List ℕ)
    → Reads file read
    → read_file
        (opens fd)
        read
        max_size
        true
        wants_modify
        wants_create
        (stat regular (length file) mtime ctime)
        (suc max_size)
        content
      ≡ some (record {
        content = take max_size file;
        file_size = some (length file);
        modify_time = when wants_modify mtime;
        create_time = when wants_create ctime;
        error = 0;
      })
unfolding read_file read_stat read_to_string new_read_small_file
read_file-take file read fd max_size mtime ctime wants_modify wants_create content reads =
    rw
      (read_loop-take file read reads max_size (suc max_size) [] file 0 refl (omega arith)
        (omega arith))
      refl
