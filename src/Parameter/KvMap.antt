-- ===== src/Parameter/KvMap.antt =====
-- KVMap of src/parameter/kv_map.h: a store of blocks of k values by key. The entry type and the
-- state type, which the class takes as template arguments, are a record; so is their default.
pub mod RoundTrip
use parameter_server.Base.{
  ℕ, zero, suc, ◌*◌, Bool, Option, some, none, List, [], ◌∷◌, ◌++◌, ◌==◌, length, take, drop,
  replicate, check, ◌>>=◌, ◌>>◌, Assoc, lookup, insert, nat_eq,
}
use parameter_server.System.Message.{Message, DataType, add_value}
use parameter_server.Parameter.{Methods}

-- An entry type E and a state type S: Get writes to the block it is given, Set reads from one.
pub record EntryType (V : Type 0) : Type 1 where
  pub E : Type 0
  pub S : Type 0
  -- what data_[key] makes for a new key
  pub new_entry : E
  pub get : E → S → List V → E × S × List V
  pub set : List V → E → S → E × S
  pub update : S → S

module _ {V : Type 0} (T : EntryType V) where
  open T use {E, S}

  pub record KvMap : Type 0 where
    pub k : ℕ
    pub state : S
    pub data_ : Assoc ℕ E

  -- data_[key]
  unfoldable pub entry_at : ℕ → Assoc ℕ E → E
  entry_at key d = elim (lookup key d) [ none ↦ T.new_entry | some e ↦ e ]

  -- The loop of GetValue, over an array `blank` not yet written.
  unfoldable pub get_loop : V → ℕ → List ℕ → S → Assoc ℕ E → List V × S × Assoc ℕ E
  unfolding entry_at
  get_loop blank k [] s d = ([], s, d)
  get_loop blank k (key ∷ keys) s d =
      let (e, s', block) = T.get (entry_at key d) s (replicate k blank) in
      let (vals, s'', d') = get_loop blank k keys s' (insert key e d) in (block ++ vals, s'', d')

  -- GetValue(msg)
  unfoldable pub get_value : DataType → V → KvMap → Message V → Option (KvMap × Message V)
  unfolding get_loop
  get_value ty blank m msg =
      let (vals, s, d) = get_loop blank m.k msg.key m.state m.data_ in
      some (record m { state = s; data_ = d }, add_value ty vals msg)

  -- The loop of SetValue.
  unfoldable pub set_loop : ℕ → List ℕ → List V → S → Assoc ℕ E → S × Assoc ℕ E
  unfolding entry_at
  set_loop k [] vals s d = (s, d)
  set_loop k (key ∷ keys) vals s d =
      let (e, s') = T.set (take k vals) (entry_at key d) s in
      set_loop k keys (drop k vals) s' (insert key e d)

  -- SetValue(msg)
  unfoldable pub set_value : KvMap → Message V → Option KvMap
  unfolding set_loop
  set_value m msg = elim msg.value [
    | vals ∷ [] ↦ do
      check (length msg.key * m.k == length vals)
      let (s, d) = set_loop m.k msg.key vals m.state m.data_
      some (record m { state = T.update s; data_ = d })
    | _ ↦ none
  ]

  -- The methods that Parameter calls; those on replicas are inherited and do nothing.
  abbrev pub methods : DataType → V → Methods KvMap V
  methods ty blank = record {
    get_value = get_value ty blank;
    set_value = set_value;
    get_replica = λ m msg. some (m, msg);
    set_replica = λ m msg. some m;
    recover = λ m msg. some m;
  }

-- KVMapEntry and KVMapState
abbrev pub plain_entry : (V : Type 0) → V → EntryType V
plain_entry V zero_value = record {
  E = V;
  S = Unit {0};
  new_entry = zero_value;
  get = λ e s block. (e, s, elim block [ [] ↦ [] | _ ∷ rest ↦ e ∷ rest ]);
  set = λ block e s. (elim block [ [] ↦ e | v ∷ _ ↦ v ], s);
  update = λ s. s;
}
