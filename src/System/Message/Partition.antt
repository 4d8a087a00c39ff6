-- ===== src/System/Message/Partition.antt =====
-- About the pieces of SliceKOFVMessage of src/system/message.h, one range at a time.
use parameter_server.Base.{
  ℕ, ◌+◌, ◌-◌, ◌*◌, ◌/◌, ◌%◌, ◌≤◌, ◌<◌, ◌≡◌, refl, sym, ap, ◌∙◌, Bool, true, false, List, [], ◌∷◌,
  ◌++◌, some, arith, le→leb, ==_iff, length, take, drop, if◌then◌else◌, Bool-cases, inl, inr, All,
  All-zip, All-take, All-drop, subst, not, ◌&&◌, drop-add, drop-take_add, take-add, map,
}
use parameter_server.Util.Range
use parameter_server.Util.Range.{Range}
use parameter_server.Util.SortedArray.{IsSorted, lower_bound, segment, slice}
use parameter_server.Util.SortedArray.Bounds.{
  All-take-lower_bound, All-drop-lower_bound, lower_bound-le, lower_bound_mono,
}
use parameter_server.System.Message.{Message, DataType, key_range_of, set_key, has_key}
use parameter_server.System.Message.Slice.{later_positions, slice_values, slice_piece, slice_pieces}

module _ {ℓ} {A : Type ℓ} where
  pub slice-append :
      (a b c : ℕ) (xs : List A) → a ≤ b → b ≤ c → slice a b xs ++ slice b c xs ≡ slice a c xs
  slice-append a b c xs h k =
      ap (λ ys. slice a b xs ++ take (c - b) ys)
        (ap (λ n. drop n xs) {x = b} {y = a + (b - a)} (omega arith) ∙ drop-add a (b - a) xs)
      ∙ sym (take-add (b - a) (c - b) (drop a xs))
      ∙ ap (λ n. take n (drop a xs)) (omega arith)

  pub segment-eq-slice :
      (xs : List A) (a b : ℕ)
      → a ≤ b
      → b ≤ length xs
      → segment xs (record { begin = a; end = b }) ≡ some (slice a b xs)
  unfolding segment Range.valid
  segment-eq-slice xs a b h k = rw (le→leb a b h, le→leb b (length xs) k)

  slice-eq-drop : (a b : ℕ) (xs : List A) → a ≤ b → slice a b xs ≡ drop a (take b xs)
  slice-eq-drop a b xs h =
      sym (drop-take_add a (b - a) xs) ∙ ap (λ n. drop a (take n xs)) (omega arith)

-- The ranges are valid, adjacent, and begin at b.
abbrev pub Chain : ℕ → List Range → Type 0
Chain b [] = Unit {0}
Chain b (kr ∷ krs) = (kr.begin ≡ b) × (kr.begin ≤ kr.end) × Chain kr.end krs

unfoldable pub chain_end : ℕ → List Range → ℕ
chain_end b [] = b
chain_end b (kr ∷ krs) = chain_end kr.end krs

module _ (whole : Range) (key : List ℕ) where
  -- The position at which the keys from v on begin.
  abbrev pub cut : ℕ → ℕ
  cut v = lower_bound key (Range.project whole v)

  pub later_positions-eq-map :
      (b : ℕ) (krs : List Range)
      → Chain b krs
      → later_positions whole key b krs ≡ some (map (λ kr. cut kr.end) krs)
  unfolding later_positions
  later_positions-eq-map b [] h = refl
  later_positions-eq-map b (kr ∷ krs) h =
      rw ((==_iff b kr.begin).1 (sym h.0), later_positions-eq-map kr.end krs h.2)

  project_mono : (u v : ℕ) → u ≤ v → Range.project whole u ≤ Range.project whole v
  unfolding Range.project
  project_mono u v h = omega arith

  pub cut_mono : (u v : ℕ) → u ≤ v → cut u ≤ cut v
  cut_mono u v h = lower_bound_mono key _ _ (project_mono u v h)

  -- A range outside the message's gets no keys.
  cut_outside :
      (kr : Range)
      → kr.begin ≤ kr.end
      → whole.begin ≤ whole.end
      → Range.empty (Range.set_intersection kr whole) ≡ true
      → cut kr.begin ≡ cut kr.end
  unfolding Range.empty Range.set_intersection Range.project
  cut_outside kr h w e = ap (lower_bound key) (ground arith)

  contains_between :
      (kr : Range) (x : ℕ)
      → kr.begin ≤ kr.end
      → Range.project whole kr.begin ≤ x
      → x < Range.project whole kr.end
      → Range.contains whole x ≡ true
      → Range.contains kr x ≡ true
  unfolding Range.contains Range.project
  contains_between kr x h lo hi inside = ground arith

  -- The keys between two cuts are those of the range between, if they are in the message's range.
  pub All-contains :
      (kr : Range)
      → kr.begin ≤ kr.end
      → IsSorted key
      → All (λ x. Range.contains whole x ≡ true) key
      → All (λ x. Range.contains kr x ≡ true) (slice (cut kr.begin) (cut kr.end) key)
  All-contains kr h s w =
      All-zip pieces (λ x bounds inside. contains_between kr x h bounds.0 bounds.1 inside)
        (All-zip {R = λ x. (Range.project whole kr.begin ≤ x) × (x < Range.project whole kr.end)}
          pieces (λ x lo hi. (lo, hi))
          (All-take _ (q - p) (drop p key)
            (All-drop-lower_bound key (Range.project whole kr.begin) s))
          (subst (All (λ x. x < Range.project whole kr.end))
            (sym (slice-eq-drop p q key (cut_mono _ _ h)))
            (All-drop _ p (take q key) (All-take-lower_bound key (Range.project whole kr.end)))))
        (All-take _ (q - p) (drop p key) (All-drop _ p key w))
    where
      p : ℕ
      p = cut kr.begin

      q : ℕ
      q = cut kr.end

      pieces : List ℕ
      pieces = slice p q key

pub slice_same {ℓ} : {A : Type ℓ} (p q : ℕ) (xs : List A) → p ≡ q → slice p q xs ≡ []
slice_same p q xs h = ap (λ n. take n (drop p xs)) {x = q - p} {y = 0} (omega arith)

slice_nil {ℓ} :
    {A : Type ℓ} (p q : ℕ) (xs : List A) → xs ≡ [] → p ≤ q → q ≤ length xs → slice p q xs ≡ []
slice_nil p q xs e h k = let z : p ≡ q = omega (arith, ap length e) in slice_same p q xs z

module _ {V : Type 0} where
  -- Each value array holds a block of values for each key, and fits in memory.
  abbrev pub IsAligned : ℕ → List V → Type 0
  IsAligned n v = (n * (length v / n) ≡ length v) × (length v < Range.u64_mod)

  abbrev pub block_slice : ℕ → ℕ → ℕ → List V → List V
  block_slice n p q v = slice (p * (length v / n)) (q * (length v / n)) v

  slice_values-eq-map :
      (n p q : ℕ) (vs : List (List V))
      → p ≤ q
      → q ≤ n
      → All (IsAligned n) vs
      → slice_values n (record { begin = p; end = q }) vs ≡ some (map (block_slice n p q) vs)
  unfolding slice_values Range.scale
  slice_values-eq-map n p q [] h k al = refl
  slice_values-eq-map n p q (v ∷ vs) h k al =
      let w = length v / n in
      let pw : p * w ≤ q * w = grind arith in
      let qw : q * w ≤ length v = grind arith in
      let pe : p * w % Range.u64_mod ≡ p * w = grind arith in
      let qe : q * w % Range.u64_mod ≡ q * w = grind arith in
      rw (
        (==_iff (n * w) (length v)).1 al.0.0,
        pe,
        qe,
        segment-eq-slice v (p * w) (q * w) pw qw,
        slice_values-eq-map n p q vs h k al.1,
      )

  -- A message as the executor makes it before slicing: a task and no data.
  abbrev pub IsFresh : Message V → Type 0
  IsFresh m = (m.key ≡ []) × (m.value ≡ [])

  module _ (ty : DataType) (msg : Message V) where
    abbrev pub whole : Range
    whole = key_range_of msg.task

    abbrev pub reaches : Range → Bool
    reaches kr = not (Range.empty (Range.set_intersection kr whole))

    has_key-eq-false : (m : Message V) → has_key m ≡ false → m.key ≡ []
    unfolding has_key
    has_key-eq-false m h = ground arith

    -- What one node is sent: its keys, their values, and a mark if the ranges do not meet.
    pub record IsPiece (kr : Range) (p q : ℕ) (out : Message V) : Type 0 where
      pub keys : out.key ≡ slice p q msg.key
      pub sent : out.valid ≡ reaches kr
      pub values : out.value ≡ (
          if reaches kr && has_key msg
          then map (block_slice (length msg.key) p q) msg.value
          else [])

    slice_piece_lem :
        (kr : Range) (p q : ℕ) (ret : Message V)
        → p ≤ q
        → q ≤ length msg.key
        → (Range.empty (Range.set_intersection kr whole) ≡ true → p ≡ q)
        → All (IsAligned (length msg.key)) msg.value
        → IsFresh ret
        → (out : Message V) × (slice_piece ty msg kr p q ret ≡ some out) × IsPiece kr p q out
    unfolding slice_piece has_key set_key
    slice_piece_lem kr p q ret h k out_same al fresh =
        elim (Bool-cases (Range.empty (Range.set_intersection kr whole))) [
          | inl away ↦ (
            record ret { valid = false },
            rw away,
            record {
              keys = fresh.0 ∙ sym (slice_same p q msg.key (out_same away));
              sent = rw away;
              values = rw away fresh.1;
            },
          )
          | inr meets ↦ elim (Bool-cases (has_key msg)) [
            | inr bare ↦ (
              record ret { valid = true },
              rw (meets, bare),
              record {
                keys = fresh.0 ∙ sym (slice_nil p q msg.key (has_key-eq-false msg bare) h k);
                sent = rw meets;
                values = rw (meets, bare) fresh.1;
              },
            )
            | inl keyed ↦ (
              record (set_key ty (slice p q msg.key) (record ret { valid = true })) {
                value = ret.value ++ map (block_slice (length msg.key) p q) msg.value;
              },
              rw (
                meets,
                keyed,
                segment-eq-slice msg.key p q h k,
                slice_values-eq-map (length msg.key) p q msg.value h k al,
              ),
              record {
                keys = refl;
                sent = rw meets;
                values =
                    rw (meets, keyed)
                      (ap (λ ws. ws ++ map (block_slice (length msg.key) p q) msg.value) fresh.1);
              },
            )
          ]
        ]

    -- One piece for each range.
    abbrev pub ArePieces : List Range → List (Message V) → Type 0
    ArePieces [] [] = Unit {0}
    ArePieces (kr ∷ krs) (out ∷ outs) =
        IsPiece kr (cut whole msg.key kr.begin) (cut whole msg.key kr.end) out × ArePieces krs outs
    ArePieces _ _ = ⊥

    pub slice_pieces_lem :
        (b : ℕ) (krs : List Range) (rets : List (Message V))
        → Chain b krs
        → length krs ≡ length rets
        → whole.begin ≤ whole.end
        → All (IsAligned (length msg.key)) msg.value
        → All IsFresh rets
        → (outs : List (Message V)) × (slice_pieces ty msg
              (cut whole msg.key b ∷ map (λ kr. cut whole msg.key kr.end) krs)
              krs
              rets
            ≡ some outs)
          × ArePieces krs outs
    unfolding slice_pieces
    slice_pieces_lem b [] rets ch n w al fresh = ([], refl, tt)
    slice_pieces_lem b (kr ∷ krs) [] ch n w al fresh = absurd (omega arith)
    slice_pieces_lem b (kr ∷ krs) (ret ∷ rets) ch n w al fresh =
        let p = cut whole msg.key kr.begin in
        let q = cut whole msg.key kr.end in
        let (out, e, piece) =
          slice_piece_lem kr p q ret (cut_mono whole msg.key _ _ ch.1) (lower_bound-le msg.key _)
            (cut_outside whole msg.key kr ch.1 w) al fresh.0 in
        let (outs, es, pieces) = slice_pieces_lem kr.end krs rets ch.2 (omega arith) w al fresh.1 in
        (out ∷ outs, rw (← ch.0, e, es), (piece, pieces))
