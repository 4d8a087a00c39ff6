-- ===== src/Parameter/KvVector/PushPull.antt =====
-- About SetValue and GetValue of src/parameter/kv_vector.h, one after the other.
use parameter_server.Base.{
  ℕ, ◌⊎◌, ◌*◌, ◌<◌, ◌≡◌, refl, sym, ap, ◌∙◌, List, [], ◌∷◌, none, some, if_empty-nil, length,
  if◌then◌else◌, ℤ, int_eq, subst, inl, inr, eqb_refl, if_of_true,
}
use parameter_server.Util.AssignOp.{Arith, AssignOpType}
use parameter_server.Util.SortedArray.{IsSorted}
use parameter_server.Util.SortedArray.Laws.{mem}
use parameter_server.Util.OrderedMatch.Spec.{find_block}
use parameter_server.System.Message.{Message, clear_value, add_value}
use parameter_server.Parameter.{param_of}
use parameter_server.Parameter.KvVector.{
  Env, KvPairs, KvVector, pairs_at, set_pairs, set_value, get_value,
}
use parameter_server.Parameter.KvVector.Blocks.{merged_block, length-merged, find_block-merged}
use parameter_server.Parameter.KvVector.Pull.{
  nonempty, pulled, block_or_zeros, find_block-pulled, get_value-pulled,
}
use parameter_server.Parameter.KvVector.Store.{
  AreKeys, IsStored, IsPush, content, push_spec, added, set_value-added, content-added,
  added-IsStored, push_spec-none, pairs_at-set_pairs,
}

list-cases : (xs : List ℕ) → (xs ≡ []) ⊎ ((y : ℕ) × (ys : List ℕ) × (xs ≡ y ∷ ys))
list-cases [] = inl refl
list-cases (x ∷ xs) = inr (x, xs, refl)

module _ (F : Arith) (env : Env F.V) where
  open F use {V, add}

  set_value-nil :
      (m : KvVector F env) (push : Message V) → push.key ≡ [] → set_value F env m push ≡ some m
  unfolding set_value
  set_value-nil m push e = if_empty-nil _ e

  find_block-none :
      (k j : ℕ) (keys : List ℕ) (vals : List V) → keys ≡ [] → find_block F k j keys vals ≡ none
  unfolding find_block
  find_block-none k j keys vals e = ap (λ xs. find_block F k j xs vals) e

  set_pairs-IsStored :
      (m : KvVector F env) (chl : ℤ) (kv : KvPairs F env)
      → IsStored F env m.k kv
      → IsStored F env m.k (pairs_at F env chl (set_pairs F env chl kv m))
  set_pairs-IsStored m chl kv s =
      subst (IsStored F env m.k)
        (sym (pairs_at-set_pairs F env chl chl kv m ∙ if_of_true _ (eqb_refl chl))) s

  -- A push of values to keys that the channel has, one block for each, is taken and does on the
  -- store what its specification says: in the push's channel, each key that the push names has the
  -- pushed block added to its own, and every other key of every channel has the block that it had.
  -- The vector adds directly, there is no tail filter, the keys of both sides are sorted, those of
  -- the push below 2^64 - 1, and at least one thread matches them.
  pub set_value-push_spec :
      (m : KvVector F env) (push : Message V) (vals : List V)
      → IsPush F env m push vals
      → IsStored F env m.k (pairs_at F env push.task.key_channel m)
      → (m' : KvVector F env) × (set_value F env m push ≡ some m')
        × (m'.k ≡ m.k)
        × IsStored F env m.k (pairs_at F env push.task.key_channel m')
        × ((c : ℤ) (j : ℕ)
            → content F env m' c j
              ≡ push_spec F env
                  (content F env m)
                  push.task.key_channel
                  (λ i. find_block F m.k i push.key vals)
                  c
                  j)
  unfolding set_pairs
  set_value-push_spec m push vals p s = elim (list-cases push.key) [
    | inl e ↦ (
      m,
      set_value-nil m push e,
      refl,
      s,
      λ c j.
          push_spec-none F env (content F env m) push.task.key_channel
            (λ i. find_block F m.k i push.key vals) c j (find_block-none m.k j push.key vals e),
    )
    | inr (key, keys, e) ↦ (
      set_pairs F env push.task.key_channel
          (added F env m.k (key ∷ keys) vals (pairs_at F env push.task.key_channel m)) m,
      set_value-added F env m push vals key keys p s e,
      refl,
      set_pairs-IsStored m push.task.key_channel _ (added-IsStored F env m.k (key ∷ keys) vals _ s),
      λ c j.
          content-added F env m push.task.key_channel (key ∷ keys) vals c j s
          ∙ ap
              (λ xs.
                push_spec F env (content F env m) push.task.key_channel
                  (λ i. find_block F m.k i xs vals) c j)
              (sym e),
    )
  ]

  length-added :
      (k : ℕ) (keys : List ℕ) (vals : List V) (kv : KvPairs F env)
      → IsStored F env k kv
      → length (added F env k keys vals kv).value ≡ length kv.key * k
  unfolding added
  length-added k keys vals kv s = length-merged F AssignOpType.plus add k keys vals kv.key _ s.sized

  find_block-added :
      (m : KvVector F env) (chl : ℤ) (xs keys : List ℕ) (vals : List V) (j : ℕ)
      → IsStored F env m.k (pairs_at F env chl m)
      → xs ≡ keys
      → find_block F m.k j
          (pairs_at F env chl m).key
          (added F env m.k keys vals (pairs_at F env chl m)).value
        ≡ push_spec F env (content F env m) chl (λ i. find_block F m.k i xs vals) chl j
  unfolding added
  find_block-added m chl xs keys vals j s e =
      find_block-merged F AssignOpType.plus add m.k j keys vals (pairs_at F env chl m).key _ s.sized
      ∙ ap
          (λ ys.
            merged_block F AssignOpType.plus add (content F env m chl j)
              (find_block F m.k j ys vals))
          (sym e)
      ∙ sym (if_of_true _ (eqb_refl chl))

  -- A pull that comes after such a push, of any sorted and not empty array of keys of the same
  -- channel and without a tail filter, is answered by the request with one value array in place of
  -- its values: for each key that the pull names, the block that the push's specification gives,
  -- and zeros for a key that the channel does not have. The push has at least one key, and the keys
  -- of the channel are below 2^64 - 1.
  pub get_value-set_value :
      (m : KvVector F env) (push pull : Message V) (vals : List V)
      → IsPush F env m push vals
      → IsStored F env m.k (pairs_at F env push.task.key_channel m)
      → AreKeys (pairs_at F env push.task.key_channel m).key
      → 0 < length push.key
      → pull.task.key_channel ≡ push.task.key_channel
      → (param_of pull.task).tail_filter ≡ none
      → IsSorted pull.key
      → 0 < length pull.key
      → (m' m'' : KvVector F env) × (reply : List V) × (set_value F env m push ≡ some m')
        × (get_value F env m' pull ≡ some (m'', add_value env.value_type reply (clear_value pull)))
        × ((j : ℕ)
            → find_block F m.k j pull.key reply ≡ (
                if mem j pull.key
                then some (
                    block_or_zeros F env m.k (
                      push_spec F env
                        (content F env m)
                        push.task.key_channel
                        (λ i. find_block F m.k i push.key vals)
                        push.task.key_channel
                        j))
                else none))
  unfolding set_pairs added
  get_value-set_value m push pull vals p s a np same f sorted n =
      let chl = push.task.key_channel in
      let kv = pairs_at F env chl m in
      let (key, keys, e) = nonempty push.key np in
      let kv' = added F env m.k (key ∷ keys) vals kv in
      let m' = set_pairs F env chl kv' m in
      let here : pairs_at F env pull.task.key_channel m' ≡ kv' =
        ap (λ c. pairs_at F env c m') same
        ∙ pairs_at-set_pairs F env chl chl kv' m
        ∙ if_of_true _ (eqb_refl chl) in
      let sized = length-added m.k (key ∷ keys) vals kv s in
      (
        m',
        set_pairs F env pull.task.key_channel kv' m',
        pulled F env m.k pull.key kv',
        set_value-added F env m push vals key keys p s e,
        get_value-pulled F env m' pull kv' here p.threads f a sorted sized n,
        λ j.
            find_block-pulled F env m.k j pull.key kv' sized
            ∙ ap (λ bs. if mem j pull.key then some (block_or_zeros F env m.k bs) else none)
                (find_block-added m chl push.key (key ∷ keys) vals j s e),
      )
