-- ===== src/System/RemoteNode.antt =====
-- RemoteNode of src/system/remote_node.h and remote_node.cc. A group holds pointers to entries of
-- the executor's node map, which are never erased: a pointer is the entry's id.
pub mod Group
use parameter_server.Base.{
  ℕ, zero, suc, ◌+◌, ◌≡◌, ◌↔◌, refl, Bool, true, false, List, [], ◌∷◌, ◌++◌, Option, none, some,
  String, ◌==◌, arith, Assoc, Eq, lookup, insert, length, check, ◌>>=◌, ◌>>◌, if◌then◌else◌, ◌=?◌,
  map, ap, sym, some_inj, >>=-eq-some,
}
use mathlib.Core.List.{reverse}
use parameter_server.Util.Range
use parameter_server.Util.Range.{Range}
use parameter_server.System.Tracker.{Tracker, fresh}
use parameter_server.System.Message.{
  Node, Role, server, Message, Task, FilterConfig, FilterType, key_caching, compressing,
  fixing_float, noise,
}

-- The virtual class Filter of src/filter/filter.h. Each of `encode` and `decode` changes the
-- filter's own state and the message, or is `none` where a CHECK in it fails.
pub record Filters (V : Type 0) : Type 1 where
  pub Filter : Type 0
  pub create : FilterType → Filter
  pub encode : Filter → Message V → Option (Filter × Message V)
  pub decode : Filter → Message V → Option (Filter × Message V)

abbrev type_code : FilterType → ℕ
type_code key_caching = 1
type_code compressing = 2
type_code fixing_float = 3
type_code noise = 4

pub type_code_iff : (a b : FilterType) → ((type_code a == type_code b) ≡ true) ↔ (a ≡ b)
type_code_iff key_caching b = ground arith
type_code_iff compressing b = ground arith
type_code_iff fixing_float b = ground arith
type_code_iff noise b = ground arith

instance abbrev pub filter_type_eq : Eq FilterType
filter_type_eq = record { beq = λ a b. type_code a == type_code b; beq_iff = type_code_iff }

pub record RemoteNode (Filter : Type 0) : Type 0 where
  pub node : Node
  pub alive : Bool
  pub sent_req_tracker : Tracker
  pub recv_req_tracker : Tracker
  pub group : List String
  pub keys : List Range
  pub filters : Assoc FilterType Filter

module _ {Filter : Type 0} where
  -- RemoteNode(), with its node set.
  unfoldable pub make : Node → RemoteNode Filter
  make n = record {
    node = n;
    alive = true;
    sent_req_tracker = fresh;
    recv_req_tracker = fresh;
    group = [];
    keys = [];
    filters = [];
  }

  -- The tracker that CheckFinished and NumFinished choose.
  abbrev pub tracker_of : Bool → RemoteNode Filter → Tracker
  tracker_of true r = r.sent_req_tracker
  tracker_of false r = r.recv_req_tracker

  abbrev pub set_tracker : Bool → Tracker → RemoteNode Filter → RemoteNode Filter
  set_tracker true t r = record r { sent_req_tracker = t }
  set_tracker false t r = record r { recv_req_tracker = t }

module _ {V : Type 0} (F : Filters V) where
  open F use {Filter, create, encode, decode}

  -- FindFilterOrCreate(conf)
  unfoldable pub find_filter_or_create : FilterType → RemoteNode Filter → Filter
  find_filter_or_create ty r = elim (lookup ty r.filters) [ some f ↦ f | none ↦ create ty ]

  unfoldable pub apply_filters :
      (Filter → Message V → Option (Filter × Message V))
      → List FilterType
      → RemoteNode Filter
      → Message V
      → Option (RemoteNode Filter × Message V)
  apply_filters op [] r m = some (r, m)
  apply_filters op (ty ∷ tys) r m = do
    (f, m') ← op (find_filter_or_create ty r) m
    apply_filters op tys (record r { filters = insert ty f r.filters }) m'

  abbrev pub filter_types : Message V → List FilterType
  filter_types m = map (λ c. c.type) m.task.filter

  -- EncodeMessage(msg): the filters in order. A filter keeps the list of filters of a message, and
  -- the type of each.
  unfoldable pub encode_message :
      RemoteNode Filter → Message V → Option (RemoteNode Filter × Message V)
  unfolding apply_filters find_filter_or_create
  encode_message r m = apply_filters encode (filter_types m) r m

  -- DecodeMessage(msg): the filters in reverse order.
  unfoldable pub decode_message :
      RemoteNode Filter → Message V → Option (RemoteNode Filter × Message V)
  unfolding apply_filters find_filter_or_create
  decode_message r m = apply_filters decode (reverse (filter_types m)) r m

  pub apply_filters_keeps :
      (op : Filter → Message V → Option (Filter × Message V))
      → (tys : List FilterType) (r r' : RemoteNode Filter) (m m' : Message V)
      → apply_filters op tys r m ≡ some (r', m')
      → (r'.node ≡ r.node)
        × (r'.alive ≡ r.alive)
        × (r'.sent_req_tracker ≡ r.sent_req_tracker)
        × (r'.recv_req_tracker ≡ r.recv_req_tracker)
        × (r'.group ≡ r.group)
        × (r'.keys ≡ r.keys)
  unfolding apply_filters
  apply_filters_keeps op [] r r' m m' h =
      let same : r' ≡ r = ap (λ p. p.0) (sym (some_inj h)) in
      (
        ap (λ (x : RemoteNode Filter). x.node) same,
        ap (λ (x : RemoteNode Filter). x.alive) same,
        ap (λ (x : RemoteNode Filter). x.sent_req_tracker) same,
        ap (λ (x : RemoteNode Filter). x.recv_req_tracker) same,
        ap (λ (x : RemoteNode Filter). x.group) same,
        ap (λ (x : RemoteNode Filter). x.keys) same,
      )
  apply_filters_keeps op (ty ∷ tys) r r' m m' h =
      let ((f, m1), applied, h1) = >>=-eq-some (op (find_filter_or_create ty r) m) _ h in
      apply_filters_keeps op tys (record r { filters = insert ty f r.filters }) r' m1 m' h1
