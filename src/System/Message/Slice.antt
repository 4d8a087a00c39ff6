-- ===== src/System/Message/Slice.antt =====
-- SliceKOFVMessage of src/system/message.h: a message is cut by key ranges into one message for
-- each node of a group.
use parameter_server.Base.{
  ℕ, ◌*◌, ◌/◌, true, false, List, [], ◌∷◌, ◌++◌, Option, some, ◌==◌, check, ◌>>=◌, ◌>>◌, length,
  if◌then◌else◌,
}
use parameter_server.Util.Range
use parameter_server.Util.Range.{Range}
use parameter_server.Util.SortedArray.{lower_bound, segment}
use parameter_server.System.Message.{Message, DataType, key_range_of, has_key, set_key}

-- pos[i+1] for the ranges after the one that ends at `prev`.
unfoldable pub later_positions : Range → List ℕ → ℕ → List Range → Option (List ℕ)
later_positions whole key prev [] = some []
later_positions whole key prev (kr ∷ krs) = do
  check (prev == kr.begin)
  rest ← later_positions whole key kr.end krs
  some (lower_bound key (Range.project whole kr.end) ∷ rest)

-- The positions in msg.key: `pos` has one entry more than there are ranges.
unfoldable pub positions : Range → List ℕ → List Range → Option (List ℕ)
unfolding later_positions
positions whole key [] = some (0 ∷ [])
positions whole key (kr ∷ krs) = do
  rest ← later_positions whole key kr.end krs
  some (
      lower_bound key (Range.project whole kr.begin)
      ∷ lower_bound key (Range.project whole kr.end)
      ∷ rest)

module _ {V : Type 0} where
  -- The entries of each value array that go with the keys lr.
  unfoldable pub slice_values : ℕ → Range → List (List V) → Option (List (List V))
  slice_values n lr [] = some []
  slice_values n lr (v ∷ vs) = do
    let k = length v / n
    check (n * k == length v)
    piece ← segment v (Range.scale lr k)
    rest ← slice_values n lr vs
    some (piece ∷ rest)

  -- One round of the loop that splits the message.
  unfoldable pub slice_piece : DataType → Message V → Range → ℕ → ℕ → Message V → Option (Message V)
  unfolding slice_values
  slice_piece ty msg kr p q ret =
      let lr : Range = record { begin = p; end = q } in
      let whole = key_range_of msg.task in
      if Range.empty (Range.set_intersection kr whole)
      then some (record ret { valid = false })
      else if has_key msg
      then (do
        keys ← segment msg.key lr
        values ← slice_values (length msg.key) lr msg.value
        some (record (set_key ty keys (record ret { valid = true })) {
          value = ret.value ++ values;
        }))
      else some (record ret { valid = true })

  unfoldable pub slice_pieces :
      DataType → Message V → List ℕ → List Range → List (Message V) → Option (List (Message V))
  unfolding slice_piece
  slice_pieces ty msg (p ∷ q ∷ ps) (kr ∷ krs) (ret ∷ rets) = do
    piece ← slice_piece ty msg kr p q ret
    rest ← slice_pieces ty msg (q ∷ ps) krs rets
    some (piece ∷ rest)
  slice_pieces ty msg ps krs rets = some []

  -- SliceKOFVMessage(msg, krs, rets)
  unfoldable pub slice_message :
      DataType → Message V → List Range → List (Message V) → Option (List (Message V))
  unfolding positions slice_pieces
  slice_message ty msg krs rets = do
    check (length krs == length rets)
    ps ← positions (key_range_of msg.task) msg.key krs
    slice_pieces ty msg ps krs rets
