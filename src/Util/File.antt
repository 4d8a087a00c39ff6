-- ===== src/Util/File.antt =====
-- File of src/util/file.h and file.cc, as far as bytes go in and out: a FILE of the C library, or a
-- file of zlib. Both libraries are parameters. `none` is the use of a file that was closed.
use parameter_server.Base.{
  ℕ, ◌-◌, ◌%◌, ◌^◌, ◌<◌, ◌≡◌, refl, sym, ap, ap₂, ◌∙◌, arith, Bool, true, false, Option, none, some,
  List, [], ◌∷◌, ◌++◌, length, take, drop, ◌>>=◌, if◌then◌else◌,
}

-- The calls on an open file F, of bytes B: what was written counts as a number, what was read is a
-- list. gzread answers -1, here `none`, on an error. fclose and gzclose say if they succeeded.
pub record FileLib (F : Type 0) (B : Type 0) : Type 0 where
  pub fwrite : F → List B → F × ℕ
  pub fread : F → ℕ → F × List B
  pub fclose : F → Bool
  pub gzwrite : F → List B → F × ℕ
  pub gzread : F → ℕ → F × Option (List B)
  pub gzclose : F → Bool

-- gz_f_ and f_ are one pointer, which is null, `none`, once the file is closed.
pub record File (F : Type 0) : Type 0 where
  pub is_gz : Bool
  pub handle : Option F

abbrev pub opened : {F : Type 0} → Bool → F → File F
opened is_gz f = record { is_gz = is_gz; handle = some f }

abbrev pub u32_mod : ℕ
u32_mod = 2 ^ 32

module _ {B : Type 0} where
  take-append : (xs ys : List B) → take (length xs) (xs ++ ys) ≡ xs
  take-append [] ys = refl
  take-append (x ∷ xs) ys = ap (λ zs. x ∷ zs) (take-append xs ys)

  drop-append : (xs ys : List B) → drop (length xs) (xs ++ ys) ≡ ys
  drop-append [] ys = refl
  drop-append (x ∷ xs) ys = drop-append xs ys

  pub take-length : (xs : List B) → take (length xs) xs ≡ xs
  take-length [] = refl
  take-length (x ∷ xs) = ap (λ zs. x ∷ zs) (take-length xs)

module _ {F B : Type 0} (lib : FileLib F B) where
  -- File::write(buf, size): gzwrite takes a size of 32 bits.
  unfoldable pub write : File F → List B → Option (File F × ℕ)
  write file buf = do
    f ← file.handle
    let (g, m) = lib.gzwrite f (take (length buf % u32_mod) buf)
    let (h, n) = lib.fwrite f buf
    some (
        if file.is_gz
        then (record file { handle = some g }, m)
        else (record file { handle = some h }, n))

  -- The number and the bytes that gzread leaves: -1 as a size_t.
  abbrev pub gz_count : Option (List B) → ℕ × List B
  gz_count none = (2 ^ 64 - 1, [])
  gz_count (some bytes) = (length bytes, bytes)

  -- File::read(buf, size): what it returns, and what it puts into buf.
  unfoldable pub read : File F → ℕ → Option (File F × ℕ × List B)
  read file size = do
    f ← file.handle
    let (g, answer) = lib.gzread f (size % u32_mod)
    let (h, bytes) = lib.fread f size
    some (
        if file.is_gz
        then (record file { handle = some g }, (gz_count answer).0, (gz_count answer).1)
        else (record file { handle = some h }, length bytes, bytes))

  -- File::close()
  unfoldable pub close : File F → Option (File F × Bool)
  close file = do
    f ← file.handle
    some (record file { handle = none }, if file.is_gz then lib.gzclose f else lib.fclose f)

  -- What the libraries document of a file without errors, whose bytes are written at the end and
  -- read from the front.
  pub record IsSequential (content : F → List B) : Type 0 where
    pub fwrite_count : (f : F) (bs : List B) → (lib.fwrite f bs).1 ≡ length bs
    pub fwrite_content : (f : F) (bs : List B) → content (lib.fwrite f bs).0 ≡ content f ++ bs
    pub fread_bytes : (f : F) (n : ℕ) → (lib.fread f n).1 ≡ take n (content f)
    pub fread_content : (f : F) (n : ℕ) → content (lib.fread f n).0 ≡ drop n (content f)
    pub gzwrite_count :
        (f : F) (bs : List B) → length bs < 2 ^ 31 → (lib.gzwrite f bs).1 ≡ length bs
    pub gzwrite_content :
        (f : F) (bs : List B) → length bs < 2 ^ 31 → content (lib.gzwrite f bs).0 ≡ content f ++ bs
    pub gzread_bytes : (f : F) (n : ℕ) → n < 2 ^ 31 → (lib.gzread f n).1 ≡ some (take n (content f))
    pub gzread_content :
        (f : F) (n : ℕ) → n < 2 ^ 31 → content (lib.gzread f n).0 ≡ drop n (content f)

  take-length_mod : (bs : List B) → length bs < 2 ^ 31 → take (length bs % u32_mod) bs ≡ bs
  take-length_mod bs h =
      let m : length bs % u32_mod ≡ length bs = ground (arith, h) in
      ap (λ n. take n bs) m ∙ take-length bs

  module _ (content : F → List B) (is_seq : IsSequential content) where
    -- Writing fewer than 2^31 bytes to an open file of either kind adds them at its end.
    pub write_lem :
        (is_gz : Bool) (f : F) (bs : List B)
        → length bs < 2 ^ 31
        → (f' : F) × (write (opened is_gz f) bs ≡ some (opened is_gz f', length bs))
          × (content f' ≡ content f ++ bs)
    unfolding write
    write_lem true f bs h =
        let e = take-length_mod bs h in
        (
          (lib.gzwrite f bs).0,
          rw (e, is_seq.gzwrite_count f bs h) refl,
          is_seq.gzwrite_content f bs h,
        )
    write_lem false f bs h =
        ((lib.fwrite f bs).0, rw (is_seq.fwrite_count f bs) refl, is_seq.fwrite_content f bs)

    -- Reading fewer than 2^31 bytes from an open file that begins with them returns them, and leaves
    -- what is behind.
    pub read_lem :
        (is_gz : Bool) (f : F) (bs rest : List B) (n : ℕ)
        → content f ≡ bs ++ rest
        → length bs ≡ n
        → n < 2 ^ 31
        → (f' : F) × (read (opened is_gz f) n ≡ some (opened is_gz f', n, bs)) × (content f' ≡ rest)
    unfolding read
    read_lem true f bs rest n c l h =
        let m : n % u32_mod ≡ n = ground (arith, h) in
        let got = is_seq.gzread_bytes f n h ∙ ap some (ap₂ take (sym l) c ∙ take-append bs rest) in
        (
          (lib.gzread f n).0,
          rw (m, got, l) refl,
          is_seq.gzread_content f n h ∙ ap₂ drop (sym l) c ∙ drop-append bs rest,
        )
    read_lem false f bs rest n c l h =
        let got = is_seq.fread_bytes f n ∙ ap₂ take (sym l) c ∙ take-append bs rest in
        (
          (lib.fread f n).0,
          rw (got, l) refl,
          is_seq.fread_content f n ∙ ap₂ drop (sym l) c ∙ drop-append bs rest,
        )
