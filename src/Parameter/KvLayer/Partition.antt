-- ===== src/Parameter/KvLayer/Partition.antt =====
-- About Slice of src/parameter/kv_layer.h: what the servers receive together.
use mathlib.Core.List.{append-nil}
use native.Mathlib.Nat.{mod-lt}
use parameter_server.Base.{
  ℕ, suc, ◌+◌, ◌-◌, ◌%◌, ◌≤◌, ◌<◌, ◌≡◌, refl, sym, ap, ◌∙◌, true, false, ◌&&◌, some, List, [], ◌∷◌,
  ◌++◌, arith, ◌==◌, ltb, leb, length, take, drop, subst, drop-add, take-add, All, if◌then◌else◌,
  Bool-cases, inl, inr, ==_iff, le→leb, ℤ,
}
use parameter_server.Util.Range
use parameter_server.Util.Range.{Range, valid}
use parameter_server.Util.Range.Divide.{IsIeee, even_divide-eq-some, point, cut, cut_zero, cut_mono}
use parameter_server.Util.Range.Laws.{size_lem}
use parameter_server.Util.SortedArray.{segment, slice as slice_of}
use parameter_server.System.Message.{Message, add_value, key_range_of}
use parameter_server.Parameter.KvLayer.{
  LayerEnv, KvLayer, with_range, scaled_key, divide_one, divide_ranges, add_piece, add_pieces,
  divide_values, slice,
}

flatten : {A : Type 0} → List (List A) → List A
flatten [] = []
flatten (x ∷ xs) = x ++ flatten xs

take-length : {A : Type 0} (xs : List A) → take (length xs) xs ≡ xs
take-length [] = refl
take-length (x ∷ xs) = ap (◌∷◌ x) (take-length xs)

drop-length : {A : Type 0} (xs : List A) → drop (length xs) xs ≡ []
drop-length [] = refl
drop-length (x ∷ xs) = drop-length xs

slice-append-slice :
    {A : Type 0} (a b c : ℕ) (xs : List A)
    → a ≤ b
    → b ≤ c
    → slice_of a b xs ++ slice_of b c xs ≡ slice_of a c xs
slice-append-slice a b c xs h k =
    ap (λ n. slice_of a b xs ++ take (c - b) (drop n xs)) (omega arith)
    ∙ ap (λ ys. slice_of a b xs ++ take (c - b) ys) (drop-add a (b - a) xs)
    ∙ sym (take-add (b - a) (c - b) (drop a xs))
    ∙ ap (λ n. take n (drop a xs)) (omega arith)

slice-none : {A : Type 0} (a b : ℕ) (xs : List A) → a ≡ b → slice_of a b xs ≡ []
slice-none a b xs e =
    let none_taken : b - a ≡ 0 = omega (arith, e) in ap (λ n. take n (drop a xs)) none_taken

slice-whole : {A : Type 0} (xs : List A) → slice_of 0 (length xs) xs ≡ xs
slice-whole xs = ap (λ n. take n xs) (omega arith) ∙ take-length xs

-- The server k is among those from i on, or behind them.
window_here :
    {A : Type 0} (xs : List A) (i k n : ℕ)
    → (i == k) ≡ true
    → slice_of 0 (length xs) xs ++ (if leb (suc i) k && ltb k (suc i + n) then xs else [])
      ≡ (if leb i k && ltb k (i + suc n) then xs else [])
window_here xs i k n e =
    ap (λ ys. ys ++ (if leb (suc i) k && ltb k (suc i + n) then xs else [])) (slice-whole xs)
    ∙ ground (arith, append-nil xs)

window_other :
    {A : Type 0} (xs : List A) (i k n : ℕ)
    → (i == k) ≡ false
    → (if leb (suc i) k && ltb k (suc i + n) then xs else [])
      ≡ (if leb i k && ltb k (i + suc n) then xs else [])
window_other xs i k n e = ground arith

module _ {V : Type 0} (env : LayerEnv V) where
  -- What the messages that are sent carry, in their order.
  pub carried : List (Message V) → List V
  carried [] = []
  carried (msg ∷ msgs) = (if msg.valid then flatten msg.value else []) ++ carried msgs

  -- A message that the slicing starts from.
  pub record IsFresh (msg : Message V) : Type 0 where
    pub no_value : msg.value ≡ []
    pub is_valid : msg.valid ≡ true

  segment-slice :
      (vals : List V) (a b : ℕ)
      → a ≤ b
      → b ≤ length vals
      → segment vals (record { begin = a; end = b }) ≡ some (slice_of a b vals)
  unfolding segment valid
  segment-slice vals a b h k = rw (le→leb a b h, le→leb b (length vals) k) refl

  -- The i-th message, once it has its range and its piece.
  with_piece : Range → List V → Message V → Message V
  with_piece r piece msg = add_value env.value_type piece (with_range env r msg)

  add_piece-with_piece :
      (vals : List V) (msg : Message V) (a b : ℕ)
      → IsFresh msg
      → a ≤ b
      → b ≤ length vals
      → add_piece env vals (with_range env (record { begin = a; end = b }) msg)
        ≡ some (with_piece (record { begin = a; end = b }) (slice_of a b vals) msg)
  unfolding add_piece with_range with_piece
  add_piece-with_piece vals msg a b f h k = rw (f.is_valid, segment-slice vals a b h k) refl

  carried-with_piece :
      (r : Range) (piece : List V) (msg : Message V) (msgs : List (Message V))
      → IsFresh msg
      → carried (with_piece r piece msg ∷ msgs) ≡ piece ++ carried msgs
  unfolding with_piece with_range add_value carried flatten
  carried-with_piece r piece msg msgs f =
      rw (f.is_valid, f.no_value) (ap (λ xs. xs ++ carried msgs) (append-nil piece))

  -- What both loops make of the messages from index i on.
  abbrev Division : (n thr : ℕ) → ℤ → Range → ℕ → List V → List (Message V) → List V → Type 0
  Division n thr key kr i vals msgs expected =
      (mid outs : List (Message V)) × (divide_ranges env n thr key kr i msgs ≡ some mid)
      × (add_pieces env vals mid ≡ some outs)
      × (carried outs ≡ expected)

  divided_step :
      (n thr : ℕ) (key : ℤ) (kr : Range) (i : ℕ) (vals : List V) (msg mid out : Message V)
      (msgs : List (Message V)) (piece rest : List V)
      → divide_one env n thr key kr i msg ≡ some mid
      → add_piece env vals mid ≡ some out
      → ((outs : List (Message V)) → carried (out ∷ outs) ≡ piece ++ carried outs)
      → Division n thr key kr (suc i) vals msgs rest
      → Division n thr key kr i vals (msg ∷ msgs) (piece ++ rest)
  unfolding divide_ranges add_pieces
  divided_step n thr key kr i vals msg mid out msgs piece rest d a c (mids, outs, ds, es, cs) =
      (mid ∷ mids, out ∷ outs, rw (d, ds) refl, rw (a, es) refl, c outs ∙ ap (λ xs. piece ++ xs) cs)

  divide_one-even :
      (n thr : ℕ) (key : ℤ) (kr : Range) (i : ℕ) (msg : Message V)
      → ltb (Range.size kr) thr ≡ false
      → valid kr ≡ true
      → i < n
      → divide_one env n thr key kr i msg
        ≡ some (
            with_range env
              (record {
                begin = cut env.long_double kr n i;
                end = cut env.long_double kr n (i + 1);
              })
              msg)
  unfolding divide_one
  divide_one-even n thr key kr i msg big v h =
      rw (big, even_divide-eq-some env.long_double kr n i v h) refl

  even_divided :
      (n thr : ℕ) (key : ℤ) (kr : Range) (i : ℕ) (vals : List V) (msgs : List (Message V))
      → ltb (Range.size kr) thr ≡ false
      → valid kr ≡ true
      → ((j k : ℕ) → j ≤ k → k ≤ n → cut env.long_double kr n j ≤ cut env.long_double kr n k)
      → i + length msgs ≡ n
      → cut env.long_double kr n n ≤ length vals
      → All IsFresh msgs
      → Division n thr key kr i vals msgs
          (slice_of (cut env.long_double kr n i) (cut env.long_double kr n n) vals)
  unfolding divide_ranges add_pieces carried
  even_divided n thr key kr i vals [] big v up e c f = (
    [],
    [],
    refl,
    refl,
    sym (
        slice-none (cut env.long_double kr n i) (cut env.long_double kr n n) vals
          (ap (cut env.long_double kr n) (omega (arith, e)))),
  )
  even_divided n thr key kr i vals (msg ∷ msgs) big v up e c f =
      let a = cut env.long_double kr n i in
      let b = cut env.long_double kr n (i + 1) in
      let z = cut env.long_double kr n n in
      let ab = up i (i + 1) (omega arith) (omega (arith, e)) in
      let bc = up (i + 1) n (omega (arith, e)) (omega arith) in
      let next : suc i ≡ i + 1 = omega arith in
      subst (Division n thr key kr i vals (msg ∷ msgs)) (slice-append-slice a b z vals ab bc) (
        divided_step n thr key kr i vals msg (with_range env (record { begin = a; end = b }) msg)
          (with_piece (record { begin = a; end = b }) (slice_of a b vals) msg) msgs
          (slice_of a b vals) (slice_of b z vals)
          (divide_one-even n thr key kr i msg big v (omega (arith, e)))
          (add_piece-with_piece vals msg a b f.0 ab (omega (arith, bc, c)))
          (λ outs. carried-with_piece _ _ msg outs f.0)
          (subst
            (λ m.
              Division n thr key kr (suc i) vals msgs
                (slice_of (cut env.long_double kr n m) z vals))
            next (even_divided n thr key kr (suc i) vals msgs big v up (omega (arith, e)) c f.1)))

  -- A layer below the threshold: all of it goes to the server k.
  tiny_here :
      (n thr k : ℕ) (key : ℤ) (kr : Range) (i : ℕ) (msg : Message V)
      → ltb (Range.size kr) thr ≡ true
      → k ≡ scaled_key key % n
      → i ≡ k
      → divide_one env n thr key kr i msg ≡ some (with_range env kr msg)
  unfolding divide_one
  tiny_here n thr k key kr i msg small ke e =
      rw (small, (==_iff i (scaled_key key % n)).1 (e ∙ ke)) refl

  tiny_other :
      (n thr k : ℕ) (key : ℤ) (kr : Range) (i : ℕ) (msg : Message V)
      → ltb (Range.size kr) thr ≡ true
      → k ≡ scaled_key key % n
      → (i == k) ≡ false
      → divide_one env n thr key kr i msg
        ≡ some (record (with_range env (record { begin = 0; end = 0 }) msg) { valid = false })
  unfolding divide_one
  tiny_other n thr k key kr i msg small ke e = rw (small, ap (λ m. i == m) (sym ke) ∙ e) refl

  tiny_divided :
      (n thr k : ℕ) (key : ℤ) (i : ℕ) (vals : List V) (msgs : List (Message V))
      → ltb (Range.size (record { begin = 0; end = length vals })) thr ≡ true
      → k ≡ scaled_key key % n
      → All IsFresh msgs
      → Division n thr key
          (record { begin = 0; end = length vals })
          i
          vals
          msgs
          (if leb i k && ltb k (i + length msgs) then vals else [])
  unfolding divide_ranges add_pieces carried
  tiny_divided n thr k key i vals [] small ke f = ([], [], refl, refl, ground arith)
  tiny_divided n thr k key i vals (msg ∷ msgs) small ke f =
      let kr : Range = record { begin = 0; end = length vals } in
      let rest = tiny_divided n thr k key (suc i) vals msgs small ke f.1 in
      elim (Bool-cases (i == k)) [
        | inl e ↦
            subst (Division n thr key kr i vals (msg ∷ msgs)) (window_here vals i k (length msgs) e)
              (divided_step n thr key kr i vals msg (with_range env kr msg)
                (with_piece kr (slice_of 0 (length vals) vals) msg) msgs
                (slice_of 0 (length vals) vals) _
                (tiny_here n thr k key kr i msg small ke (ground arith))
                (add_piece-with_piece vals msg 0 (length vals) f.0 (omega arith) (omega arith))
                (λ outs. carried-with_piece kr _ msg outs f.0) rest)
        | inr e ↦
            subst (Division n thr key kr i vals (msg ∷ msgs))
              (window_other vals i k (length msgs) e)
              (divided_step n thr key kr i vals msg
                (record (with_range env (record { begin = 0; end = 0 }) msg) { valid = false })
                (record (with_range env (record { begin = 0; end = 0 }) msg) { valid = false }) msgs
                [] _ (tiny_other n thr k key kr i msg small ke e) (unfold add_piece in refl)
                (λ outs. refl) rest)
      ]

  window_all : (xs : List V) (k n : ℕ) → k < n → (if leb 0 k && ltb k (0 + n) then xs else []) ≡ xs
  window_all xs k n h = ground arith

  valid-whole : (n : ℕ) → valid (record { begin = 0; end = n }) ≡ true
  unfolding valid
  valid-whole n = ground arith

  size-whole : (n : ℕ) → n < Range.u64_mod → n ≡ Range.size (record { begin = 0; end = n })
  size-whole n h = omega (arith, (size_lem (record { begin = 0; end = n }) (valid-whole n) h).0)

  sliced :
      (m : KvLayer env) (request : Message V) (krs : List Range) (msgs : List (Message V))
      (vals : List V) {expected : List V}
      → request.value ≡ vals ∷ []
      → length vals ≡ Range.size (key_range_of request.task)
      → Division
          (length krs)
          m.partition_thr
          request.task.key_channel
          (key_range_of request.task)
          0
          vals
          msgs
          expected
      → (outs : List (Message V)) × (slice env m request krs msgs ≡ some outs)
        × (carried outs ≡ expected)
  unfolding slice divide_values
  sliced m request krs msgs vals one size (mid, outs, d, a, c) = (
    outs,
    rw (d, one, (==_iff (length vals) (Range.size (key_range_of request.task))).1 size, a) refl,
    c,
  )

  -- A request for the whole array, of fewer than 2^64 values, is sliced over fewer than 2^64 servers,
  -- with one message for each of them, none with a value yet: the call succeeds, and the messages
  -- that will be sent carry, one after the other, no value twice and none out of order. Of a layer
  -- below the threshold, which one server gets, they carry all; of one that the servers share,
  -- exactly the values before the last cut of the division, so that the values behind a cut that is
  -- rounded down are lost. Arithmetic on long double is as IEEE says, and the last cut is not
  -- rounded up past the array.
  pub slice-carried :
      (ieee : IsIeee env.long_double) (m : KvLayer env) (request : Message V) (krs : List Range)
      (msgs : List (Message V)) (vals : List V)
      → request.value ≡ vals ∷ []
      → key_range_of request.task ≡ record { begin = 0; end = length vals }
      → length vals < Range.u64_mod
      → 0 < length krs
      → length krs < Range.u64_mod
      → length msgs ≡ length krs
      → All IsFresh msgs
      → ieee.truncate (
          point env.long_double (record { begin = 0; end = length vals }) (length krs) (length krs))
        ≤ length vals
      → (outs : List (Message V)) × (slice env m request krs msgs ≡ some outs)
        × (carried outs ≡ (
            if ltb (length vals) m.partition_thr
            then vals
            else take
                (cut env.long_double
                  (record { begin = 0; end = length vals })
                  (length krs)
                  (length krs))
                vals))
  slice-carried ieee m request krs msgs vals one kr bound p few len f last =
      let whole : Range = record { begin = 0; end = length vals } in
      let n = length krs in
      let key = request.task.key_channel in
      let v : valid whole ≡ true = valid-whole (length vals) in
      let whole_size = size-whole (length vals) bound in
      let size : length vals ≡ Range.size (key_range_of request.task) =
        whole_size ∙ ap Range.size (sym kr) in
      let at_request : (expected : List V)
          → Division n m.partition_thr key whole 0 vals msgs expected
          → Division n m.partition_thr key (key_range_of request.task) 0 vals msgs expected =
        λ expected. subst (λ r. Division n m.partition_thr key r 0 vals msgs expected) (sym kr) in
      elim (Bool-cases (ltb (length vals) m.partition_thr)) [
        | inl small ↦
            let k = scaled_key key % n in
            rw small (
              sliced m request krs msgs vals one size (
                at_request vals (
                  subst (Division n m.partition_thr key whole 0 vals msgs)
                    (window_all vals k (length msgs)
                      (omega (arith, mod-lt (scaled_key key) p, len)))
                    (tiny_divided n m.partition_thr k key 0 vals msgs
                      (ap (λ l. ltb l m.partition_thr) (sym whole_size) ∙ small) refl f))))
        | inr big ↦
            let z = cut env.long_double whole n n in
            let up : (j k : ℕ)
                → j ≤ k
                → k ≤ n
                → cut env.long_double whole n j ≤ cut env.long_double whole n k =
              λ j k h g.
                cut_mono env.long_double ieee whole n j k (omega (arith, bound)) bound few
                  (omega (arith, last, bound)) h g p in
            let from_start : z - 0 ≡ z = omega arith in
            let end_cut =
              ieee.converts (point env.long_double whole n n) (omega (arith, last, bound)) in
            rw big (
              sliced m request krs msgs vals one size (
                at_request (take z vals) (
                  subst (Division n m.partition_thr key whole 0 vals msgs)
                    (ap (λ c. slice_of c z vals)
                        (cut_zero env.long_double ieee whole n p few (omega (arith, bound)) bound)
                      ∙ ap (λ n. take n vals) from_start)
                    (even_divided n m.partition_thr key whole 0 vals msgs
                      (ap (λ l. ltb l m.partition_thr) (sym whole_size) ∙ big) v up
                      (omega (arith, len)) (omega (arith, end_cut, last)) f))))
      ]
