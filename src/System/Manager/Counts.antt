-- ===== src/System/Manager/Counts.antt =====
-- Counting the nodes of a role in the node map of src/system/manager.cc.
use parameter_server.Base.{
  ℕ, ◌+◌, ◌≡◌, refl, Bool, true, false, [], ◌∷◌, none, some, String, Assoc, string_eq, lookup,
  insert, erase, lookup-insert, lookup-erase, eqb_refl, subst, if◌then◌else◌, ◌=?◌, arith,
}
use parameter_server.System.Message.{Node, Role}

-- Every id stands in the map once.
unfoldable pub IsMap : Assoc String Node → Type 0
IsMap [] = Unit {0}
IsMap ((k, n) ∷ m) = (lookup k m ≡ none) × IsMap m

-- How many nodes have a role of the kind.
unfoldable pub count_role : (Role → Bool) → Assoc String Node → ℕ
count_role is [] = 0
count_role is ((k, n) ∷ m) = (if is n.role then 1 else 0) + count_role is m

pub count_role-insert_new :
    (is : Role → Bool) (k : String) (n : Node) (m : Assoc String Node)
    → lookup k m ≡ none
    → count_role is (insert k n m) ≡ (if is n.role then 1 else 0) + count_role is m
unfolding count_role lookup insert
count_role-insert_new is k n [] h = refl
count_role-insert_new is k n ((j, v) ∷ m) h = ground (arith, count_role-insert_new is k n m)

if-IsMap :
    (c : Bool) (xs ys : Assoc String Node)
    → (c ≡ true → IsMap xs)
    → (c ≡ false → IsMap ys)
    → IsMap (if c then xs else ys)
if-IsMap true xs ys h k = h refl
if-IsMap false xs ys h k = k refl

absent_insert :
    (j k : String) (n : Node) (m : Assoc String Node)
    → (j =? k) ≡ false
    → lookup j m ≡ none
    → lookup j (insert k n m) ≡ none
absent_insert j k n m h a =
    ground (arith, lookup-insert k j n m, string_eq.beq_iff j k, string_eq.beq_iff k j, eqb_refl k)

absent_erase :
    (j k : String) (m : Assoc String Node) → lookup j m ≡ none → lookup j (erase k m) ≡ none
absent_erase j k m a = ground (arith, lookup-erase k j m)

pub IsMap-insert : (k : String) (n : Node) (m : Assoc String Node) → IsMap m → IsMap (insert k n m)
unfolding IsMap insert lookup
IsMap-insert k n [] h = (refl, tt)
IsMap-insert k n ((j, v) ∷ m) h =
    if-IsMap (j =? k) ((k, n) ∷ m) ((j, v) ∷ insert k n m)
      (λ e. (subst (λ i. lookup i m ≡ none) ((string_eq.beq_iff j k).0 e) h.0, h.1))
      (λ e. (absent_insert j k n m e h.0, IsMap-insert k n m h.1))

pub IsMap-erase : (k : String) (m : Assoc String Node) → IsMap m → IsMap (erase k m)
unfolding IsMap erase
IsMap-erase k [] h = tt
IsMap-erase k ((j, v) ∷ m) h =
    if-IsMap (j =? k) (erase k m) ((j, v) ∷ erase k m) (λ e. IsMap-erase k m h.1)
      (λ e. (absent_erase j k m h.0, IsMap-erase k m h.1))

count_role-erase_absent :
    (is : Role → Bool) (k : String) (m : Assoc String Node)
    → lookup k m ≡ none
    → count_role is (erase k m) ≡ count_role is m
unfolding count_role erase lookup
count_role-erase_absent is k [] h = refl
count_role-erase_absent is k ((j, v) ∷ m) h = ground (arith, count_role-erase_absent is k m)

pub count_role-erase :
    (is : Role → Bool) (k : String) (n : Node) (m : Assoc String Node)
    → IsMap m
    → lookup k m ≡ some n
    → (if is n.role then 1 else 0) + count_role is (erase k m) ≡ count_role is m
unfolding count_role erase lookup IsMap
count_role-erase is k n [] u h = ground arith
count_role-erase is k n ((j, v) ∷ m) u h =
    let absent : (j =? k) ≡ true → lookup k m ≡ none =
      λ e. subst (λ i. lookup i m ≡ none) ((string_eq.beq_iff j k).0 e) u.0 in
    ground (arith, absent, count_role-erase_absent is k m, count_role-erase is k n m u.1)

pub count_role-insert_known :
    (is : Role → Bool) (k : String) (n old : Node) (m : Assoc String Node)
    → lookup k m ≡ some old
    → is n.role ≡ is old.role
    → count_role is (insert k n m) ≡ count_role is m
unfolding count_role insert lookup
count_role-insert_known is k n old [] h r = ground arith
count_role-insert_known is k n old ((j, v) ∷ m) h r =
    ground (arith, count_role-insert_known is k n old m)
