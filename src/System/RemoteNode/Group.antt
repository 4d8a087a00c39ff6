-- ===== src/System/RemoteNode/Group.antt =====
-- AddGroupNode and RemoveGroupNode of src/system/remote_node.cc on a node's `group` and `keys`.
use parameter_server.Base.{
  ℕ, suc, ◌≤◌, ◌≡◌, refl, true, List, [], ◌∷◌, Option, some, String, ◌==◌, arith, length, check,
  ◌>>◌, if◌then◌else◌, ◌=?◌, string_eq, ==_iff, ◌-◌, ◌↔◌,
}
use parameter_server.Util.Range
use parameter_server.Util.Range.{Range}

-- A group with the key range of each of its nodes.
pub record Group : Type 0 where
  pub group : List String
  pub keys : List Range

-- The loop that finds where `kr` goes, and the two inserts at that place. `key_of` reads the key
-- range out of a member.
unfoldable pub insert_ordered :
    (String → Range) → String → Range → List String → List Range → List String × List Range
insert_ordered key_of id kr [] keys = (id ∷ [], kr ∷ keys)
insert_ordered key_of id kr (g ∷ group) [] = (id ∷ g ∷ group, kr ∷ [])
insert_ordered key_of id kr (g ∷ group) (k ∷ keys) =
    let (group', keys') = insert_ordered key_of id kr group keys in
    if Range.in_left kr (key_of g) then (id ∷ g ∷ group, kr ∷ k ∷ keys) else (g ∷ group', k ∷ keys')

-- AddGroupNode(rnode)
unfoldable pub add_group_node : (String → Range) → String → Range → Group → Group
unfolding insert_ordered
add_group_node key_of id kr g =
    let (group, keys) = insert_ordered key_of id kr g.group g.keys in
    record { group = group; keys = keys }

-- The first entry of the node, and its range.
unfoldable pub remove_first : String → List String → List Range → List String × List Range
remove_first id (g ∷ group) (k ∷ keys) =
    let (group', keys') = remove_first id group keys in
    if g =? id then (group, keys) else (g ∷ group', k ∷ keys')
remove_first id group keys = (group, keys)

-- RemoveGroupNode(rnode)
unfoldable pub remove_group_node : String → Group → Option Group
unfolding remove_first
remove_group_node id g = do
  check (length g.group == length g.keys)
  let (group, keys) = remove_first id g.group g.keys
  some (record { group = group; keys = keys })

-- keys[i] is the range of group[i], and the ranges ascend by their first keys.
abbrev pub Ordered : ℕ → List Range → Type 0
Ordered b [] = Unit {0}
Ordered b (k ∷ keys) = (b ≤ k.begin) × Ordered k.begin keys

abbrev pub Matches : (String → Range) → List String → List Range → Type 0
Matches key_of [] [] = Unit {0}
Matches key_of (g ∷ group) (k ∷ keys) = (key_of g ≡ k) × Matches key_of group keys
Matches key_of _ _ = ⊥

pub record IsOrdered (key_of : String → Range) (g : Group) : Type 0 where
  pub matches : Matches key_of g.group g.keys
  pub ordered : Ordered 0 g.keys

insert_ordered_lem :
    (key_of : String → Range) (id : String) (kr : Range) (b : ℕ)
    → (group : List String) (keys : List Range) → key_of id ≡ kr
    → b ≤ kr.begin
    → Matches key_of group keys
    → Ordered b keys
    → Matches key_of
        (insert_ordered key_of id kr group keys).0
        (insert_ordered key_of id kr group keys).1
      × Ordered b (insert_ordered key_of id kr group keys).1
unfolding insert_ordered Range.in_left
insert_ordered_lem key_of id kr b [] [] e h m o = ((e, tt), (h, tt))
insert_ordered_lem key_of id kr b [] (k ∷ keys) e h m o = absurd m
insert_ordered_lem key_of id kr b (g ∷ group) [] e h m o = absurd m
insert_ordered_lem key_of id kr b (g ∷ group) (k ∷ keys) e h m o =
    ground (arith, insert_ordered_lem key_of id kr k.begin group keys e)

-- Adding a node to an ordered group leaves it ordered, with every range beside its node.
pub add_group_node-IsOrdered :
    (key_of : String → Range) (id : String) (g : Group)
    → IsOrdered key_of g
    → IsOrdered key_of (add_group_node key_of id (key_of id) g)
unfolding add_group_node
add_group_node-IsOrdered key_of id g o =
    let r =
      insert_ordered_lem key_of id (key_of id) 0 g.group g.keys refl (omega arith) o.matches
        o.ordered in
    record { matches = r.0; ordered = r.1 }

length-Matches :
    (key_of : String → Range) (group : List String) (keys : List Range)
    → Matches key_of group keys
    → length group ≡ length keys
length-Matches key_of [] [] m = refl
length-Matches key_of [] (k ∷ keys) m = absurd m
length-Matches key_of (g ∷ group) [] m = absurd m
length-Matches key_of (g ∷ group) (k ∷ keys) m = omega (arith, length-Matches key_of group keys m.1)

Ordered-mono : (a b : ℕ) (keys : List Range) → a ≤ b → Ordered b keys → Ordered a keys
Ordered-mono a b [] h o = tt
Ordered-mono a b (k ∷ keys) h o = (omega arith, o.1)

remove_first_lem :
    (key_of : String → Range) (id : String) (b : ℕ) (group : List String) (keys : List Range)
    → Matches key_of group keys
    → Ordered b keys
    → Matches key_of (remove_first id group keys).0 (remove_first id group keys).1
      × Ordered b (remove_first id group keys).1
unfolding remove_first
remove_first_lem key_of id b [] [] m o = (tt, tt)
remove_first_lem key_of id b [] (k ∷ keys) m o = absurd m
remove_first_lem key_of id b (g ∷ group) [] m o = absurd m
remove_first_lem key_of id b (g ∷ group) (k ∷ keys) m o =
    ground
      (arith, remove_first_lem key_of id k.begin group keys m.1 o.1, Ordered-mono b k.begin keys)

-- Removing a node from an ordered group never aborts, and leaves it ordered, with every range
-- beside its node.
pub remove_group_node-IsOrdered :
    (key_of : String → Range) (id : String) (g : Group)
    → IsOrdered key_of g
    → (g' : Group) × (remove_group_node id g ≡ some g') × IsOrdered key_of g'
unfolding remove_group_node
remove_group_node-IsOrdered key_of id g o =
    let r = remove_first_lem key_of id 0 g.group g.keys o.matches o.ordered in
    (
      record {
        group = (remove_first id g.group g.keys).0;
        keys = (remove_first id g.group g.keys).1;
      },
      rw (
          (==_iff (length g.group) (length g.keys)).1
            (length-Matches key_of g.group g.keys o.matches)),
      record { matches = r.0; ordered = r.1 },
    )

eqb_lem : (a b : String) → ((a =? b) ≡ true) ↔ (a ≡ b)
eqb_lem a b = string_eq.beq_iff a b

unfoldable pub occurrences : String → List String → ℕ
occurrences id [] = 0
occurrences id (g ∷ group) = let n = occurrences id group in if g =? id then suc n else n

occurrences-insert_ordered :
    (key_of : String → Range) (id : String) (kr : Range) (group : List String) (keys : List Range)
    → (j : String)
    → occurrences j (insert_ordered key_of id kr group keys).0 ≡ occurrences j (id ∷ group)
unfolding occurrences insert_ordered
occurrences-insert_ordered key_of id kr [] keys j = refl
occurrences-insert_ordered key_of id kr (g ∷ group) [] j = refl
occurrences-insert_ordered key_of id kr (g ∷ group) (k ∷ keys) j =
    ground (arith, occurrences-insert_ordered key_of id kr group keys j)

occurrences-remove_first :
    (id j : String) (group : List String) (keys : List Range)
    → length group ≡ length keys
    → occurrences j (remove_first id group keys).0
      ≡ (if id =? j then occurrences j group - 1 else occurrences j group)
unfolding occurrences remove_first
occurrences-remove_first id j [] [] h = ground arith
occurrences-remove_first id j [] (k ∷ keys) h = absurd (omega arith)
occurrences-remove_first id j (g ∷ group) [] h = absurd (omega arith)
occurrences-remove_first id j (g ∷ group) (k ∷ keys) h =
    ground
      (arith, occurrences-remove_first id j group keys, eqb_lem g id, eqb_lem g j, eqb_lem id j)

-- Removing a node that was just added to an ordered group leaves every node, that one included, in
-- the group as often as before.
pub remove_group_node-add_group_node :
    (key_of : String → Range) (id : String) (g g' : Group)
    → IsOrdered key_of g
    → remove_group_node id (add_group_node key_of id (key_of id) g) ≡ some g'
    → (j : String) → occurrences j g'.group ≡ occurrences j g.group
unfolding remove_group_node add_group_node occurrences
remove_group_node-add_group_node key_of id g g' o e j =
    let added = insert_ordered key_of id (key_of id) g.group g.keys in
    let m = (add_group_node-IsOrdered key_of id g o).matches in
    ground (
      arith,
      occurrences-insert_ordered key_of id (key_of id) g.group g.keys j,
      occurrences-remove_first id j added.0 added.1 (length-Matches key_of added.0 added.1 m),
      length-Matches key_of added.0 added.1 m,
      eqb_lem id j,
    )
