-- ===== src/System/Message/Cover.antt =====
-- About the result of SliceKOFVMessage of src/system/message.h as a whole.
use parameter_server.Base.{
  ℕ, zero, suc, ◌-◌, ◌≤◌, ◌<◌, ◌≡◌, refl, sym, ap, ap₂, ◌∙◌, subst, true, List, [], ◌∷◌, ◌++◌, some,
  arith, ==_iff, length, take, All,
}
use parameter_server.Util.Range
use parameter_server.Util.Range.{Range}
use parameter_server.Util.SortedArray.{IsSorted, lower_bound, slice}
use parameter_server.System.Message.{Message, DataType}
use parameter_server.System.Message.Slice.{slice_message}
use parameter_server.System.Message.Partition.{
  Chain, chain_end, cut, cut_mono, later_positions-eq-map, All-contains, slice-append, slice_same,
  IsAligned, IsFresh, whole, ArePieces, slice_pieces_lem,
}

lower_bound-eq-zero : (xs : List ℕ) (k : ℕ) → All (λ x. k ≤ x) xs → lower_bound xs k ≡ 0
unfolding lower_bound
lower_bound-eq-zero [] k h = refl
lower_bound-eq-zero (x ∷ xs) k h = ground arith

lower_bound-eq-length : (xs : List ℕ) (k : ℕ) → All (λ x. x < k) xs → lower_bound xs k ≡ length xs
unfolding lower_bound
lower_bound-eq-length [] k h = refl
lower_bound-eq-length (x ∷ xs) k h = ground (arith, lower_bound-eq-length xs k h.1)

take_all {ℓ} : {A : Type ℓ} (n : ℕ) (xs : List A) → n ≡ length xs → take n xs ≡ xs
take_all zero [] h = refl
take_all (suc n) [] h = refl
take_all zero (x ∷ xs) h = absurd (omega arith)
take_all (suc n) (x ∷ xs) h = ap (◌∷◌ x) (take_all n xs (omega arith))

All-weaken {ℓ} :
    {A : Type ℓ} {P Q : A → Type 0} (xs : List A) → ((x : A) → P x → Q x) → All P xs → All Q xs
All-weaken [] f h = tt
All-weaken (x ∷ xs) f h = (f x h.0, All-weaken xs f h.1)

above_project :
    {r : Range} {b x : ℕ}
    → b ≤ r.begin
    → r.begin ≤ r.end
    → Range.contains r x ≡ true
    → Range.project r b ≤ x
unfolding Range.project Range.contains
above_project h w c = ground arith

below_project :
    {r : Range} {e x : ℕ}
    → r.end ≤ e
    → r.begin ≤ r.end
    → Range.contains r x ≡ true
    → x < Range.project r e
unfolding Range.project Range.contains
below_project h w c = ground arith

chain_end-le : (b : ℕ) (krs : List Range) → Chain b krs → b ≤ chain_end b krs
unfolding chain_end
chain_end-le b [] h = omega arith
chain_end-le b (kr ∷ krs) h = omega (arith, chain_end-le kr.end krs h.2)

module _ {V : Type 0} (ty : DataType) (msg : Message V) where
  -- The keys of the pieces, one after another.
  pub keys_of : List (Message V) → List ℕ
  keys_of [] = []
  keys_of (out ∷ outs) = out.key ++ keys_of outs

  -- Each piece's keys lie in its node's range.
  abbrev pub AreRouted : List Range → List (Message V) → Type 0
  AreRouted [] [] = Unit {0}
  AreRouted (kr ∷ krs) (out ∷ outs) =
      All (λ x. Range.contains kr x ≡ true) out.key × AreRouted krs outs
  AreRouted _ _ = ⊥

  keys_of-eq-slice :
      (b : ℕ) (krs : List Range) (outs : List (Message V))
      → Chain b krs
      → ArePieces ty msg krs outs
      → keys_of outs
        ≡ slice
            (cut (whole ty msg) msg.key b)
            (cut (whole ty msg) msg.key (chain_end b krs))
            msg.key
  unfolding keys_of chain_end
  keys_of-eq-slice b [] [] ch ps = sym (slice_same _ _ msg.key refl)
  keys_of-eq-slice b (kr ∷ krs) [] ch ps = absurd ps
  keys_of-eq-slice b [] (out ∷ outs) ch ps = absurd ps
  keys_of-eq-slice b (kr ∷ krs) (out ∷ outs) ch ps =
      let w = whole ty msg in
      ap₂ ◌++◌ ps.0.keys (keys_of-eq-slice kr.end krs outs ch.2 ps.1)
      ∙ slice-append (cut w msg.key kr.begin) (cut w msg.key kr.end)
          (cut w msg.key (chain_end kr.end krs)) msg.key (cut_mono w msg.key _ _ ch.1)
          (cut_mono w msg.key _ _ (chain_end-le kr.end krs ch.2))
      ∙ ap (λ u. slice (cut w msg.key u) (cut w msg.key (chain_end kr.end krs)) msg.key) ch.0

  routed :
      (b : ℕ) (krs : List Range) (outs : List (Message V))
      → Chain b krs
      → IsSorted msg.key
      → All (λ x. Range.contains (whole ty msg) x ≡ true) msg.key
      → ArePieces ty msg krs outs
      → AreRouted krs outs
  routed b [] [] ch s w ps = tt
  routed b (kr ∷ krs) [] ch s w ps = absurd ps
  routed b [] (out ∷ outs) ch s w ps = absurd ps
  routed b (kr ∷ krs) (out ∷ outs) ch s w ps = (
    subst (All (λ x. Range.contains kr x ≡ true)) (sym ps.0.keys)
        (All-contains (whole ty msg) msg.key kr ch.1 s w),
    routed kr.end krs outs ch.2 s w ps.1,
  )

  -- A group of adjacent valid ranges that covers the message's key range slices the message: the
  -- call returns, with one piece for each range; the pieces' keys, put together, are the message's
  -- keys; each key is in the range of the node that it is sent to; and each piece is as `IsPiece`
  -- says: marked as sent exactly if its range meets the message's, and with the blocks of values
  -- that belong to its keys.
  pub slice_message_lem :
      (kr : Range) (krs : List Range) (rets : List (Message V))
      → Chain kr.begin (kr ∷ krs)
      → length (kr ∷ krs) ≡ length rets
      → (whole ty msg).begin ≤ (whole ty msg).end
      → kr.begin ≤ (whole ty msg).begin
      → (whole ty msg).end ≤ chain_end kr.begin (kr ∷ krs)
      → IsSorted msg.key
      → All (λ x. Range.contains (whole ty msg) x ≡ true) msg.key
      → All (IsAligned (length msg.key)) msg.value
      → All IsFresh rets
      → (outs : List (Message V)) × (slice_message ty msg (kr ∷ krs) rets ≡ some outs)
        × (keys_of outs ≡ msg.key)
        × AreRouted (kr ∷ krs) outs
        × ArePieces ty msg (kr ∷ krs) outs
  unfolding slice_message
  slice_message_lem kr krs rets ch n w lo hi s inside al fresh =
      let (outs, e, ps) = slice_pieces_lem ty msg kr.begin (kr ∷ krs) rets ch n w al fresh in
      (
        outs,
        rw
            (
              (==_iff (length (kr ∷ krs)) (length rets)).1 n,
              later_positions-eq-map (whole ty msg) msg.key kr.end krs ch.2,
            )
            e,
        keys_of-eq-slice kr.begin (kr ∷ krs) outs ch ps ∙ everything,
        routed kr.begin (kr ∷ krs) outs ch s inside ps,
        ps,
      )
    where
      first : cut (whole ty msg) msg.key kr.begin ≡ 0
      first =
          lower_bound-eq-zero msg.key _ (All-weaken msg.key (λ x c. above_project lo w c) inside)

      last : cut (whole ty msg) msg.key (chain_end kr.begin (kr ∷ krs)) ≡ length msg.key
      last =
          lower_bound-eq-length msg.key _ (All-weaken msg.key (λ x c. below_project hi w c) inside)

      everything :
          slice
            (cut (whole ty msg) msg.key kr.begin)
            (cut (whole ty msg) msg.key (chain_end kr.begin (kr ∷ krs)))
            msg.key
          ≡ msg.key
      everything =
          ap₂ (λ a b. slice a b msg.key) first last
          ∙ take_all (length msg.key - 0) msg.key (omega arith)
