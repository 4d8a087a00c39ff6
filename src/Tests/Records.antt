-- ===== src/Tests/Records.antt =====
-- A record written to an empty file and read back; a file is its bytes, and so is an int, in four.
use parameter_server.Base.{
  ℕ, ◌≡◌, refl, true, false, some, List, [], ◌∷◌, ◌++◌, length, take, drop, arith,
}
use parameter_server.Util.File.{FileLib, IsSequential, opened}
use parameter_server.Util.RecordIo.{RecordEnv, write_protocol_message, read_protocol_message}
use parameter_server.Util.RecordIo.RoundTrip.{IsLayout, read-write}

abbrev four : ℕ → List ℕ
four n = n ∷ 0 ∷ 0 ∷ 0 ∷ []

abbrev first : List ℕ → ℕ
first [] = 0
first (b ∷ bs) = b

abbrev byte_lib : FileLib (List ℕ) ℕ
byte_lib = record {
  fwrite = λ f bs. (f ++ bs, length bs);
  fread = λ f n. (drop n f, take n f);
  fclose = λ f. true;
  gzwrite = λ f bs. (f ++ bs, length bs);
  gzread = λ f n. (drop n f, some (take n f));
  gzclose = λ f. true;
}

abbrev byte_env : RecordEnv (List ℕ) ℕ (List ℕ)
byte_env = record {
  lib = byte_lib;
  bytes_of = four;
  int_of = first;
  serialize = λ p. p;
  parse = λ p bs n. bs;
}

byte_lib-IsSequential : IsSequential byte_lib (λ f. f)
byte_lib-IsSequential = record {
  fwrite_count = λ f bs. refl;
  fwrite_content = λ f bs. refl;
  fread_bytes = λ f n. refl;
  fread_content = λ f n. refl;
  gzwrite_count = λ f bs h. refl;
  gzwrite_content = λ f bs h. refl;
  gzread_bytes = λ f n h. refl;
  gzread_content = λ f n h. refl;
}

byte_env-IsLayout : IsLayout byte_env
byte_env-IsLayout = record { length-bytes_of = λ n. refl; int_of-bytes_of = λ n h. refl }

read-write_example :
    (f' : List ℕ) × (write_protocol_message byte_env (some (opened true [])) (5 ∷ 6 ∷ [])
      ≡ some (some (opened true f'), true))
    × ((g rest : List ℕ)
        → g ≡ f' ++ rest
        → (g' : List ℕ) × (read_protocol_message byte_env (opened false g) []
            ≡ some (opened false g', 5 ∷ 6 ∷ [], true))
          × (g' ≡ rest))
read-write_example =
    read-write byte_env (λ f. f) byte_lib-IsSequential byte_env-IsLayout true false [] (5 ∷ 6 ∷ [])
      [] (omega arith) refl
