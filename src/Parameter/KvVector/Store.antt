-- ===== src/Parameter/KvVector/Store.antt =====
-- About SetValue of src/parameter/kv_vector.h: the channels as maps from keys to blocks of values.
use parameter_server.Base.{
  ℕ, ◌⊎◌, zero, suc, ◌*◌, ◌<◌, ◌-◌, ◌≡◌, refl, sym, ap, ap₂, ◌∙◌, Bool, true, false, List, [], ◌∷◌,
  Option, none, some, arith, ◌>>=◌, if_of_false, if_empty-cons, length, if◌then◌else◌, All, ==_iff,
  ℤ, lookup, lookup-insert, int_eq, eqb_ℤ, eqb_ℤ_iff, subst, Bool-cases, inl, inr,
}
use parameter_server.Util.Range
use parameter_server.Util.AssignOp.{Arith, AssignOpType, assign_op}
use parameter_server.Util.SortedArray.{IsSorted}
use parameter_server.Util.SortedArray.Laws.{mem}
use parameter_server.Util.OrderedMatch.{allocate, ordered_match}
use parameter_server.Util.OrderedMatch.Spec.{find_block}
use parameter_server.Util.OrderedMatch.Whole.{ordered_match-eq-join}
use parameter_server.System.Message.{Message}
use parameter_server.Parameter.{param_of}
use parameter_server.Parameter.KvVector.{
  Env, KvPairs, KvVector, pairs_or, pairs_at, set_pairs, add_values, store_values, set_filtered,
  set_value,
}
use parameter_server.Parameter.KvVector.Blocks.{
  common, common_full, merged, merged_block, length-merged, find_block-merged, join-merged,
}

nonempty : (v : ℕ) (xs : List ℕ) → mem v xs ≡ true → (d : ℕ) × (ds : List ℕ) × (xs ≡ d ∷ ds)
unfolding mem
nonempty v [] h = ground arith
nonempty v (x ∷ xs) h = (x, xs, refl)

-- The keys that the match can take: ascending, and below 2^64 - 1.
pub record AreKeys (keys : List ℕ) : Type 0 where
  pub sorted : IsSorted keys
  pub bounded : All (λ s. s < Range.u64_mod - 1) keys

module _ (F : Arith) (env : Env F.V) where
  open F use {V, add}

  -- What a channel holds for a key, where an array that is not yet allocated counts as zeros.
  abbrev pub block_of : ℕ → KvPairs F env → ℕ → Option (List V)
  block_of k kv j = find_block F k j kv.key (allocate F (length kv.key * k) kv.value)

  abbrev pub content : KvVector F env → ℤ → ℕ → Option (List V)
  content m chl j = block_of m.k (pairs_at F env chl m) j

  pub record IsStored (k : ℕ) (kv : KvPairs F env) : Type 0 where
    pub sorted : IsSorted kv.key
    pub sized : length (allocate F (length kv.key * k) kv.value) ≡ length kv.key * k

  allocate_again : (n : ℕ) (vs : List V) → allocate F n (allocate F n vs) ≡ allocate F n vs
  unfolding allocate
  allocate_again zero [] = refl
  allocate_again (suc n) [] = refl
  allocate_again n (v ∷ vs) = refl

  allocate_sized : (n : ℕ) (vs : List V) → length vs ≡ n → allocate F n vs ≡ vs
  unfolding allocate
  allocate_sized zero [] h = refl
  allocate_sized (suc n) [] h = ground (arith, h)
  allocate_sized n (v ∷ vs) h = refl

  plus_total : (a b : V) → assign_op F AssignOpType.plus a b ≡ some (add a b)
  unfolding assign_op
  plus_total a b = refl

  -- The match of a push with its channel.
  ordered_match-merged :
      (k : ℕ) (keys : List ℕ) (vals : List V) (kv : KvPairs F env)
      → 0 < env.num_threads
      → AreKeys keys
      → IsStored k kv
      → length keys * k ≡ length vals
      → ordered_match F env.num_threads k AssignOpType.plus keys vals kv.key
          (allocate F (length kv.key * k) kv.value)
        ≡ some (
          merged F AssignOpType.plus add k keys vals kv.key
              (allocate F (length kv.key * k) kv.value),
          common keys kv.key * k,
        )
  ordered_match-merged k keys vals kv t a s n =
      let same = allocate_again (length kv.key * k) kv.value in
      ordered_match-eq-join F env.num_threads k AssignOpType.plus keys vals kv.key
        (allocate F (length kv.key * k) kv.value) t n (ap length same ∙ s.sized) a.sorted s.sorted
        a.bounded
      ∙ join-merged F AssignOpType.plus add plus_total k keys vals kv.key _
      ∙ ap
          (λ dv.
            some (merged F AssignOpType.plus add k keys vals kv.key dv, common keys kv.key * k))
          same

  unfoldable pub added : ℕ → List ℕ → List V → KvPairs F env → KvPairs F env
  added k keys vals kv = record kv {
    value =
        merged F AssignOpType.plus add k keys vals kv.key (allocate F (length kv.key * k) kv.value);
  }

  add_values-added :
      (k : ℕ) (keys : List ℕ) (vals : List V) (kv : KvPairs F env)
      → 0 < env.num_threads
      → AreKeys keys
      → IsStored k kv
      → length keys * k ≡ length vals
      → All (λ s. mem s kv.key ≡ true) keys
      → add_values F env k 0 keys (vals ∷ []) kv ≡ some (added k keys vals kv)
  unfolding add_values added
  add_values-added k keys vals kv t a s n inside =
      rw
        (
          (==_iff (length vals) (length keys * k)).1 (sym n),
          (==_iff (length kv.key * k) (length (allocate F (length kv.key * k) kv.value))).1
              (sym s.sized),
          ordered_match-merged k keys vals kv t a s n,
          (==_iff (common keys kv.key * k) (length keys * k)).1
              (ap (λ c. c * k) (common_full keys kv.key a.sorted s.sorted inside)),
        )
        refl

  pub pairs_at-set_pairs :
      (chl c : ℤ) (kv : KvPairs F env) (m : KvVector F env)
      → pairs_at F env c (set_pairs F env chl kv m)
        ≡ (if eqb_ℤ chl c then kv else pairs_at F env c m)
  unfolding pairs_at set_pairs
  pairs_at-set_pairs chl c kv m =
      ap (pairs_or F env) (lookup-insert chl c kv m.data_) ∙ ap-if (eqb_ℤ chl c)
    where
      ap-if :
          (b : Bool)
          → pairs_or F env (if b then some kv else lookup c m.data_)
            ≡ (if b then kv else pairs_or F env (lookup c m.data_))
      ap-if true = refl
      ap-if false = refl

  -- A push that SetValue can add to a channel: its values fit its keys, which the channel has.
  pub record IsPush (m : KvVector F env) (push : Message V) (vals : List V) : Type 0 where
    pub threads : 0 < env.num_threads
    pub direct : m.buffer_value ≡ false
    pub no_filter : (param_of push.task).tail_filter ≡ none
    pub one_value : push.value ≡ vals ∷ []
    pub keys : AreKeys push.key
    pub fits : length push.key * m.k ≡ length vals
    pub known : All (λ s. mem s (pairs_at F env push.task.key_channel m).key ≡ true) push.key

  store_values-added :
      (m : KvVector F env) (push : Message V) (vals : List V) (kv : KvPairs F env) (key : ℕ)
      (keys : List ℕ)
      → 0 < env.num_threads
      → m.buffer_value ≡ false
      → push.value ≡ vals ∷ []
      → push.key ≡ key ∷ keys
      → AreKeys (key ∷ keys)
      → length (key ∷ keys) * m.k ≡ length vals
      → IsStored m.k kv
      → All (λ s. mem s kv.key ≡ true) (key ∷ keys)
      → store_values F env push.task.key_channel push kv m
        ≡ some (set_pairs F env push.task.key_channel (added m.k (key ∷ keys) vals kv) m)
  unfolding store_values
  store_values-added m push vals kv key keys t b one e a n s inside =
      let (d, ds, f) = nonempty key kv.key inside.0 in
      if_empty-cons _ one
      ∙ if_empty-cons _ f
      ∙ if_of_false _ b
      ∙ ap₂
          (λ xs vs. add_values F env m.k 0 xs vs kv >>= λ kv'.
            some (set_pairs F env push.task.key_channel kv' m))
          e one
      ∙ ap (λ r. r >>= λ kv'. some (set_pairs F env push.task.key_channel kv' m))
          (add_values-added m.k (key ∷ keys) vals kv t a s n inside)

  -- What SetValue makes of such a push, where the push has a key.
  pub set_value-added :
      (m : KvVector F env) (push : Message V) (vals : List V) (key : ℕ) (keys : List ℕ)
      → IsPush m push vals
      → IsStored m.k (pairs_at F env push.task.key_channel m)
      → push.key ≡ key ∷ keys
      → set_value F env m push
        ≡ some (
            set_pairs F env push.task.key_channel
              (added m.k (key ∷ keys) vals (pairs_at F env push.task.key_channel m))
              m)
  unfolding set_value set_filtered
  set_value-added m push vals key keys p s e =
      if_empty-cons _ e
      ∙ ap (λ tail. set_filtered F env tail push.task.key_channel push m) p.no_filter
      ∙ store_values-added m push vals (pairs_at F env push.task.key_channel m) key keys p.threads
          p.direct p.one_value e (subst AreKeys e p.keys)
          (ap (λ xs. length xs * m.k) (sym e) ∙ p.fits) s
          (subst (All (λ s. mem s (pairs_at F env push.task.key_channel m).key ≡ true)) e p.known)

  -- The channels as maps, after a push of `blocks` to the channel chl.
  abbrev pub push_spec :
      (ℤ → ℕ → Option (List V)) → ℤ → (ℕ → Option (List V)) → ℤ → ℕ → Option (List V)
  push_spec store chl blocks c j =
      if eqb_ℤ chl c then merged_block F AssignOpType.plus add (store c j) (blocks j) else store c j

  pub push_spec-none :
      (store : ℤ → ℕ → Option (List V)) (chl : ℤ) (blocks : ℕ → Option (List V)) (c : ℤ) (j : ℕ)
      → blocks j ≡ none
      → store c j ≡ push_spec store chl blocks c j
  push_spec-none store chl blocks c j h = go (eqb_ℤ chl c) (store c j) (blocks j) h
    where
      go :
          (b : Bool) (o p : Option (List V))
          → p ≡ none
          → o ≡ (if b then merged_block F AssignOpType.plus add o p else o)
      go true none none e = refl
      go true (some d) none e = refl
      go true o (some s) e = cc
      go false o p e = refl

  allocate-added :
      (k : ℕ) (keys : List ℕ) (vals : List V) (kv : KvPairs F env)
      → IsStored k kv
      → allocate F (length kv.key * k) (added k keys vals kv).value ≡ (added k keys vals kv).value
  unfolding added
  allocate-added k keys vals kv s =
      allocate_sized (length kv.key * k) _
        (length-merged F AssignOpType.plus add k keys vals kv.key _ s.sized)

  block_of-added :
      (k : ℕ) (keys : List ℕ) (vals : List V) (kv : KvPairs F env) (j : ℕ)
      → IsStored k kv
      → block_of k (added k keys vals kv) j
        ≡ merged_block F AssignOpType.plus add (block_of k kv j) (find_block F k j keys vals)
  unfolding added
  block_of-added k keys vals kv j s =
      ap (find_block F k j kv.key) (allocate-added k keys vals kv s)
      ∙ find_block-merged F AssignOpType.plus add k j keys vals kv.key _ s.sized

  pub added-IsStored :
      (k : ℕ) (keys : List ℕ) (vals : List V) (kv : KvPairs F env)
      → IsStored k kv
      → IsStored k (added k keys vals kv)
  unfolding added
  added-IsStored k keys vals kv s = record {
    sorted = s.sorted;
    sized =
        ap length (allocate-added k keys vals kv s)
        ∙ length-merged F AssignOpType.plus add k keys vals kv.key _ s.sized;
  }

  pub content-added :
      (m : KvVector F env) (chl : ℤ) (keys : List ℕ) (vals : List V) (c : ℤ) (j : ℕ)
      → IsStored m.k (pairs_at F env chl m)
      → content (set_pairs F env chl (added m.k keys vals (pairs_at F env chl m)) m) c j
        ≡ push_spec (content m) chl (λ i. find_block F m.k i keys vals) c j
  unfolding set_pairs
  content-added m chl keys vals c j s =
      ap (λ kv. block_of m.k kv j)
        (pairs_at-set_pairs chl c (added m.k keys vals (pairs_at F env chl m)) m)
      ∙ go (Bool-cases (eqb_ℤ chl c))
    where
      go :
          ((eqb_ℤ chl c ≡ true) ⊎ (eqb_ℤ chl c ≡ false))
          → block_of m.k
              (if eqb_ℤ chl c
                then added m.k keys vals (pairs_at F env chl m)
                else pairs_at F env c m)
              j
            ≡ push_spec (content m) chl (λ i. find_block F m.k i keys vals) c j
      go (inl e) = rw e (
          block_of-added m.k keys vals (pairs_at F env chl m) j s
          ∙ ap
              (λ i.
                merged_block F AssignOpType.plus add (content m i j) (find_block F m.k j keys vals))
              ((eqb_ℤ_iff chl c).0 e))
      go (inr e) = rw e refl
