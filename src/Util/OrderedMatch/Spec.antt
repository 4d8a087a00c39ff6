-- ===== src/Util/OrderedMatch/Spec.antt =====
-- What ordered matching means: each destination key takes the block of the equal source key, if
-- there is one, by the operator, and every other block stays.
use mathlib.Core.List.{append_assoc}
use native.Mathlib.Nat.{add_assoc}
use parameter_server.Base.{
  ℕ, suc, ◌+◌, ◌*◌, ◌≤◌, ◌≡◌, refl, sym, ap, ◌∙◌, List, [], ◌∷◌, ◌++◌, Option, none, some, arith,
  ltb, ◌==◌, ◌>>=◌, length, take, drop, take-append-drop, take-take_add, drop-take_add, drop-add,
  if◌then◌else◌, Bool-cases, inl, inr, All, ==_iff, ltb→lt, ap₂,
}
use parameter_server.Util.AssignOp.{Arith, AssignOpType}
use parameter_server.Util.SortedArray.{Above, IsSorted, lower_bound}
use parameter_server.Util.SortedArray.Laws.{Above-mono, IsSorted-tail}
use parameter_server.Util.OrderedMatch.{Matched, past, assign_block, match_loop}

module _ (F : Arith) where
  open F use {V}

  -- The block of the first source key that equals `key`.
  unfoldable pub find_block : ℕ → ℕ → List ℕ → List V → Option (List V)
  find_block k key [] src_val = none
  find_block k key (s ∷ src) src_val =
      if s == key then some (take k src_val) else find_block k key src (drop k src_val)

  unfoldable pub join_entry :
      ℕ → AssignOpType → Option (List V) → List V → Option (Matched F) → Option (Matched F)
  join_entry k op none dst_val rest = past F (take k dst_val) 0 rest
  join_entry k op (some b) dst_val rest = do
    block ← assign_block F op (take k dst_val) b
    past F block k rest

  unfoldable pub join : ℕ → AssignOpType → List ℕ → List V → List ℕ → List V → Option (Matched F)
  join k op src_key src_val [] dst_val = some (dst_val, 0)
  join k op src_key src_val (d ∷ dst) dst_val =
      join_entry k op (find_block k d src_key src_val) dst_val
        (join k op src_key src_val dst (drop k dst_val))

  pub find_block_below :
      (k b v : ℕ) (src : List ℕ) (src_val : List V)
      → Above b src
      → v ≤ b
      → find_block k v src src_val ≡ none
  unfolding find_block
  find_block_below k b v [] sv s h = refl
  find_block_below k b v (x ∷ src) sv s h =
      ground (arith, find_block_below k x v src (drop k sv) s.1)

  -- A source key below all destination keys can be dropped.
  pub join_skip :
      (k : ℕ) (op : AssignOpType) (s : ℕ) (src : List ℕ) (sv : List V) (dst : List ℕ) (dv : List V)
      → Above s dst
      → join k op (s ∷ src) sv dst dv ≡ join k op src (drop k sv) dst dv
  unfolding join
  join_skip k op s src sv [] dv h = refl
  join_skip k op s src sv (d ∷ dst) dv h =
      ap (λ b. join_entry k op b dv (join k op (s ∷ src) sv dst (drop k dv))) found
      ∙ ap (join_entry k op (find_block k d src (drop k sv)) dv)
          (join_skip k op s src sv dst (drop k dv) (Above-mono s d dst (omega arith) h.1))
    where
      found : find_block k d (s ∷ src) sv ≡ find_block k d src (drop k sv)
      found = unfold find_block in ground arith

  past_nothing : (k : ℕ) (dv : List V) → past F (take k dv) 0 (some (drop k dv, 0)) ≡ some (dv, 0)
  past_nothing k dv = ap (λ vs. some (vs, 0)) (take-append-drop k dv)

  -- Destination keys that the source does not hold leave the values as they are.
  pub join_missing :
      (k : ℕ) (op : AssignOpType) (src : List ℕ) (sv : List V) (dst : List ℕ) (dv : List V)
      → All (λ d. find_block k d src sv ≡ none) dst
      → join k op src sv dst dv ≡ some (dv, 0)
  unfolding join join_entry
  join_missing k op src sv [] dv h = refl
  join_missing k op src sv (d ∷ dst) dv h =
      ap (λ b. join_entry k op b dv (join k op src sv dst (drop k dv))) h.0
      ∙ ap (past F (take k dv) 0) (join_missing k op src sv dst (drop k dv) h.1)
      ∙ past_nothing k dv

  pub find_block-nil :
      (k : ℕ) (sv : List V) (dst : List ℕ) → All (λ d. find_block k d [] sv ≡ none) dst
  unfolding find_block
  find_block-nil k sv [] = tt
  find_block-nil k sv (d ∷ dst) = (refl, find_block-nil k sv dst)

  join-none :
      (k : ℕ) (op : AssignOpType) (src : List ℕ) (sv : List V) (d : ℕ) (dst : List ℕ) (dv : List V)
      → find_block k d src sv ≡ none
      → join k op src sv (d ∷ dst) dv ≡ past F (take k dv) 0 (join k op src sv dst (drop k dv))
  unfolding join join_entry
  join-none k op src sv d dst dv e =
      ap (λ b. join_entry k op b dv (join k op src sv dst (drop k dv))) e

  join-some :
      (k : ℕ) (op : AssignOpType) (s : ℕ) (src : List ℕ) (sv : List V) (d : ℕ) (dst : List ℕ)
      (dv : List V)
      → s ≡ d
      → join k op (s ∷ src) sv (d ∷ dst) dv
        ≡ join_entry k op (some (take k sv)) dv (join k op (s ∷ src) sv dst (drop k dv))
  unfolding join find_block
  join-some k op s src sv d dst dv e =
      ap (λ b. join_entry k op b dv (join k op (s ∷ src) sv dst (drop k dv)))
        (ap (λ b. if b then some (take k sv) else find_block k d src (drop k sv))
          ((==_iff s d).1 e))

  -- The loop computes the join, for sorted keys.
  pub match_loop-eq-join :
      (k : ℕ) (op : AssignOpType) (src : List ℕ) (sv : List V) (dst : List ℕ) (dv : List V)
      → IsSorted src
      → IsSorted dst
      → match_loop F k op src sv dst dv ≡ join k op src sv dst dv
  unfolding match_loop join_entry
  match_loop-eq-join k op [] sv dst dv hs hd =
      sym (join_missing k op [] sv dst dv (find_block-nil k sv dst))
  match_loop-eq-join k op (s ∷ src) sv [] dv hs hd = unfold join in refl
  match_loop-eq-join k op (s ∷ src) sv (d ∷ dst) dv hs hd = elim (Bool-cases (ltb s d)) [
    | inl lt ↦
        rw (lt, match_loop)
          (match_loop-eq-join k op src (drop k sv) (d ∷ dst) dv (IsSorted-tail s src hs) hd
            ∙ sym (join_skip k op s src sv (d ∷ dst) dv (ltb→lt s d lt, hd)))
    | inr ge ↦ elim (Bool-cases (ltb d s)) [
      | inl gt ↦
          rw (ge, gt, match_loop)
            (ap (past F (take k dv) 0)
                (match_loop-eq-join k op (s ∷ src) sv dst (drop k dv) hs (IsSorted-tail d dst hd))
              ∙ sym (
                  join-none k op (s ∷ src) sv d dst dv
                    (find_block_below k d d (s ∷ src) sv (ltb→lt d s gt, hs) (omega arith))))
      | inr le ↦
          rw (ge, le, match_loop)
            (ap (λ rest. join_entry k op (some (take k sv)) dv rest)
                (match_loop-eq-join k op src (drop k sv) dst (drop k dv) (IsSorted-tail s src hs)
                    (IsSorted-tail d dst hd)
                  ∙ sym (
                      join_skip k op s src sv dst (drop k dv)
                        (Above-mono s d dst (ground arith) hd)))
              ∙ sym (join-some k op s src sv d dst dv (ground arith)))
    ]
  ]

  unfoldable pub both : Option (Matched F) → Option (Matched F) → Option (Matched F)
  both left right = do (l, n) ← left; (r, m) ← right; some (l ++ r, n + m)

  both-past :
      (block : List V) (n : ℕ) (left right : Option (Matched F))
      → both (past F block n left) right ≡ past F block n (both left right)
  unfolding both
  both-past block n none right = refl
  both-past block n (some (l, a)) none = refl
  both-past block n (some (l, a)) (some (r, b)) =
      ap₂ (λ vs m. some (vs, m)) (append_assoc block l r) (add_assoc n a b)

  both-join_entry :
      (k : ℕ) (op : AssignOpType) (b : Option (List V)) (dv : List V)
      (left right : Option (Matched F))
      → both (join_entry k op b dv left) right ≡ join_entry k op b dv (both left right)
  unfolding join_entry
  both-join_entry k op none dv left right = both-past (take k dv) 0 left right
  both-join_entry k op (some b) dv left right = go (assign_block F op (take k dv) b)
    where
      go :
          (m : Option (List V))
          → both (m >>= λ block. past F block k left) right
            ≡ (m >>= λ block. past F block k (both left right))
      go none = unfold both in refl
      go (some block) = both-past block k left right

  both-nil : (right : Option (Matched F)) → right ≡ both (some ([], 0)) right
  unfolding both
  both-nil none = refl
  both-nil (some (r, m)) = ap (λ n. some (r, n)) (omega arith)

  join_entry-take :
      (k : ℕ) (op : AssignOpType) (b : Option (List V)) (dv dv' : List V)
      (rest : Option (Matched F))
      → take k dv ≡ take k dv'
      → join_entry k op b dv rest ≡ join_entry k op b dv' rest
  unfolding join_entry
  join_entry-take k op none dv dv' rest e = ap (λ vs. past F vs 0 rest) e
  join_entry-take k op (some b) dv dv' rest e =
      ap (λ vs. assign_block F op vs b >>= λ block. past F block k rest) e

  -- The join of a destination in two parts is the joins of the parts.
  pub join-append :
      (k : ℕ) (op : AssignOpType) (src : List ℕ) (sv : List V) (xs ys : List ℕ) (dv : List V)
      (n : ℕ)
      → n ≡ length xs * k
      → join k op src sv (xs ++ ys) dv
        ≡ both (join k op src sv xs (take n dv)) (join k op src sv ys (drop n dv))
  unfolding join
  join-append k op src sv [] ys dv n e =
      let z : n ≡ 0 = omega arith in rw z (both-nil (join k op src sv ys dv))
  join-append k op src sv (x ∷ xs) ys dv n e =
      let z : n ≡ k + length xs * k = grind arith in
      let m = length xs * k in
      rw (z, drop-take_add k m dv, drop-add k m dv)
        (ap (join_entry k op (find_block k x src sv) dv)
            (join-append k op src sv xs ys (drop k dv) m refl)
          ∙ sym (
              both-join_entry k op (find_block k x src sv) dv
                (join k op src sv xs (take m (drop k dv)))
                (join k op src sv ys (drop m (drop k dv))))
          ∙ ap (λ left. both left (join k op src sv ys (drop m (drop k dv))))
              (join_entry-take k op (find_block k x src sv) dv (take (k + m) dv)
                (join k op src sv xs (take m (drop k dv))) (sym (take-take_add k m dv))))

  -- Source keys below the first destination key can be dropped.
  pub join-lower_bound :
      (k : ℕ) (op : AssignOpType) (src : List ℕ) (sv : List V) (d : ℕ) (dst : List ℕ) (dv : List V)
      → Above d dst
      → join k op (drop (lower_bound src d) src) (drop (lower_bound src d * k) sv) (d ∷ dst) dv
        ≡ join k op src sv (d ∷ dst) dv
  unfolding lower_bound
  join-lower_bound k op [] sv d dst dv h = let z : 0 * k ≡ 0 = omega arith in rw z
  join-lower_bound k op (s ∷ src) sv d dst dv h = elim (Bool-cases (ltb s d)) [
    | inr ge ↦ let z : 0 * k ≡ 0 = omega arith in rw (ge, lower_bound, z)
    | inl lt ↦
        let n = lower_bound src d in
        let z : suc n * k ≡ k + n * k = grind arith in
        rw (lt, lower_bound, z, drop-add k (n * k) sv)
          (join-lower_bound k op src (drop k sv) d dst dv h
            ∙ sym (join_skip k op s src sv (d ∷ dst) dv (ltb→lt s d lt, h)))
  ]
