-- ===== src/Util/RecordIo/RoundTrip.antt =====
-- About reading what RecordWriter of src/util/recordio.h wrote, through File of src/util/file.cc.
use mathlib.Core.List.{append_assoc}
use parameter_server.Base.{
  ℕ, ◌%◌, ◌-◌, ◌^◌, ◌<◌, ◌≡◌, refl, ap, ◌∙◌, Bool, true, some, pos, List, [], ◌++◌, length, ltb,
  lt→ltb, arith, ◌==◌,
}
use parameter_server.Util.File.{IsSequential, u32_mod, opened, write_lem, read_lem, take-length}
use parameter_server.Util.RecordIo.{
  RecordEnv, magic_number, write_protocol_message, read_protocol_message,
}

module _ {F B P : Type 0} (env : RecordEnv F B P) where
  -- The four bytes of a 32-bit number, from which it is read back.
  pub record IsLayout : Type 0 where
    pub length-bytes_of : (n : ℕ) → length (env.bytes_of n) ≡ 4
    pub int_of-bytes_of : (n : ℕ) → n < u32_mod → env.int_of (env.bytes_of n) ≡ n

  -- The format that recordio.h documents: the magic number, the size and the payload.
  abbrev record_of : P → List B
  record_of p =
      env.bytes_of magic_number ++ (env.bytes_of (length (env.serialize p)) ++ env.serialize p)

  module _ (content : F → List B) (is_seq : IsSequential env.lib content) (layout : IsLayout) where
    write_protocol_message_lem :
        (is_gz : Bool) (f : F) (p : P)
        → length (env.serialize p) < 2 ^ 31
        → (f' : F) × (write_protocol_message env (some (opened is_gz f)) p
            ≡ some (some (opened is_gz f'), true))
          × (content f' ≡ content f ++ record_of p)
    unfolding write_protocol_message
    write_protocol_message_lem is_gz f p h =
        let size = length (env.serialize p) in
        let m : size % u32_mod ≡ size = ground (arith, h) in
        let l1 = layout.length-bytes_of magic_number in
        let l2 = layout.length-bytes_of size in
        let same : (size == size) ≡ true = ground arith in
        let (f1, w1, c1) =
          write_lem env.lib content is_seq is_gz f (env.bytes_of magic_number)
            (omega (arith, l1)) in
        let (f2, w2, c2) =
          write_lem env.lib content is_seq is_gz f1 (env.bytes_of size) (omega (arith, l2)) in
        let (f3, w3, c3) = write_lem env.lib content is_seq is_gz f2 (env.serialize p) h in
        (
          f3,
          rw (m, w1, l1, w2, l2, take-length (env.serialize p), w3, same) refl,
          c3
              ∙ ap (λ l. l ++ env.serialize p) (c2 ∙ ap (λ l. l ++ env.bytes_of size) c1)
              ∙ append_assoc (content f ++ env.bytes_of magic_number) (env.bytes_of size)
                  (env.serialize p)
              ∙ append_assoc (content f) (env.bytes_of magic_number)
                  (env.bytes_of size ++ env.serialize p),
        )

    read_protocol_message_lem :
        (is_gz : Bool) (g : F) (p q : P) (rest : List B)
        → length (env.serialize p) < 2 ^ 31
        → content g ≡ record_of p ++ rest
        → (g' : F) × (read_protocol_message env (opened is_gz g) q
            ≡ some (
              opened is_gz g',
              env.parse q (env.serialize p) (pos (length (env.serialize p))),
              true,
            ))
          × (content g' ≡ rest)
    unfolding read_protocol_message
    read_protocol_message_lem is_gz g p q rest h c =
        let size = length (env.serialize p) in
        let payload = env.bytes_of size ++ env.serialize p in
        let (g1, r1, c1) =
          read_lem env.lib content is_seq is_gz g (env.bytes_of magic_number) (payload ++ rest) 4
            (c ∙ append_assoc (env.bytes_of magic_number) payload rest)
            (layout.length-bytes_of magic_number) (omega arith) in
        let (g2, r2, c2) =
          read_lem env.lib content is_seq is_gz g1 (env.bytes_of size) (env.serialize p ++ rest) 4
            (c1 ∙ append_assoc (env.bytes_of size) (env.serialize p) rest)
            (layout.length-bytes_of size) (omega arith) in
        let (g3, r3, c3) =
          read_lem env.lib content is_seq is_gz g2 (env.serialize p) rest size c2 refl h in
        let i1 = layout.int_of-bytes_of magic_number (omega arith) in
        let i2 = layout.int_of-bytes_of size (omega (arith, h)) in
        let same : (size == size) ≡ true = ground arith in
        let fits : ltb size (u32_mod - 1) ≡ true = ground (arith, h) in
        let small : ltb size (2 ^ 31) ≡ true = lt→ltb size (2 ^ 31) h in
        (g3, rw (r1, i1, r2, i2, fits, r3, same, small) refl, c3)

    -- Writing a message of fewer than 2^31 bytes to an empty file, plain or of zlib, returns true,
    -- and reading from any file of either kind that begins with what was written returns true and
    -- parses the bytes that the message was serialised to, with their number, and leaves what is
    -- behind them. The C library and zlib do what they document for files without errors.
    pub read-write :
        (is_gz gz' : Bool) (f : F) (p q : P)
        → length (env.serialize p) < 2 ^ 31
        → content f ≡ []
        → (f' : F) × (write_protocol_message env (some (opened is_gz f)) p
            ≡ some (some (opened is_gz f'), true))
          × ((g : F) (rest : List B)
              → content g ≡ content f' ++ rest
              → (g' : F) × (read_protocol_message env (opened gz' g) q
                  ≡ some (
                    opened gz' g',
                    env.parse q (env.serialize p) (pos (length (env.serialize p))),
                    true,
                  ))
                × (content g' ≡ rest))
    read-write is_gz gz' f p q h e =
        let (f', w, c) = write_protocol_message_lem is_gz f p h in
        (
          f',
          w,
          λ g rest d.
              read_protocol_message_lem gz' g p q rest h
                (d ∙ ap (λ l. l ++ rest) (c ∙ ap (λ l. l ++ record_of p) e)),
        )
