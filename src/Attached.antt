-- ===== src/Attached.antt =====
-- app/db/crud: the nodes that a rule, an inbound or an outbound is for. The functions that create and
-- update them all read the ids given against the table of nodes in the same way.
use marzban.Common.{
  ℕ, Bool, true, false, not, ◌&&◌, List, [], ◌∷◌, ◌==◌, if◌then◌else◌, keep, ◌≡◌, refl, sym, ◌∙◌,
  Bool-cases, inl, inr, arith,
}
use marzban.Positions.{has, all_in}
use marzban.World.{Result, ok, err, value_error}

-- `dict.fromkeys(node_ids)`: each id once, where it stands first.
unfoldable pub from_ids : List ℕ → List ℕ → List ℕ
from_ids seen [] = []
from_ids seen (i ∷ l) =
    let again = from_ids seen l in
    let fresh = i ∷ from_ids (i ∷ seen) l in if has i seen then again else fresh

-- The nodes to relate, by the ids of the table of nodes; a `ValueError` if one is missing.
unfoldable pub existing_nodes : List ℕ → List ℕ → Result (List ℕ)
unfolding from_ids
existing_nodes nodes node_ids =
    if all_in node_ids nodes then ok (from_ids [] node_ids) else err value_error

-- `_node_has_relation`
abbrev pub node_has_relation : List ℕ → ℕ → Bool
node_has_relation items node_id = has node_id items

-- `_other_relation_ids`, as a list
unfoldable pub other_relation_ids : List ℕ → ℕ → List ℕ
other_relation_ids items node_id = keep (λ i. not (i == node_id)) items

-- `_detach_node`
unfoldable pub detach_node : List ℕ → ℕ → List ℕ
detach_node items node_id = keep (λ i. not (i == node_id)) items

-- After it, the node is not related, and the other nodes are as they were.
pub detach_node-has :
    (items : List ℕ) (n m : ℕ) → has m (detach_node items n) ≡ (has m items && not (m == n))
unfolding detach_node
detach_node-has [] n m = refl
detach_node-has (i ∷ items) n m = ground (arith, detach_node-has items n m)

same_has : (i m : ℕ) (seen : List ℕ) → has i seen ≡ true → (i == m) ≡ true → has m seen ≡ true
same_has i m seen e h = let same : i ≡ m = ground arith in rw (sym same) e

same_has_not : (i m : ℕ) (seen : List ℕ) → has i seen ≡ false → (i == m) ≡ true → has m seen ≡ false
same_has_not i m seen e h = let same : i ≡ m = ground arith in rw (sym same) e

from_ids-has : (seen l : List ℕ) (m : ℕ) → has m (from_ids seen l) ≡ (has m l && not (has m seen))
unfolding from_ids
from_ids-has seen [] m = refl
from_ids-has seen (i ∷ l) m = elim (Bool-cases (has i seen)) [
  | inl e ↦
      let rest = from_ids-has seen l m in let covered = same_has i m seen e in rw e (ground arith)
  | inr e ↦
      let rest = from_ids-has (i ∷ seen) l m in
      let fresh = same_has_not i m seen e in rw e (ground arith)
]

has_in_keys : (l : List ℕ) (m : ℕ) → has m (from_ids [] l) ≡ has m l
has_in_keys l m = let keys = from_ids-has [] l m in ground arith

all_in-has : (a b : List ℕ) (m : ℕ) → all_in a b ≡ true → has m a ≡ true → has m b ≡ true
all_in-has [] b m h k = cc
all_in-has (x ∷ a) b m h k = elim (Bool-cases (x == m)) [
  | inl e ↦ let same : x ≡ m = ground arith in rw (sym same) (ground arith)
  | inr e ↦ all_in-has a b m (ground arith) (ground arith)
]

-- The nodes related are those asked for, and they exist.
pub existing_nodes-has :
    (nodes node_ids related : List ℕ)
    → existing_nodes nodes node_ids ≡ ok related
    → (m : ℕ) → (has m related ≡ has m node_ids) × (has m related ≡ true → has m nodes ≡ true)
unfolding existing_nodes
existing_nodes-has nodes node_ids related h m = elim (Bool-cases (all_in node_ids nodes)) [
  | inr e ↦ absurd (let g = h in ground arith)
  | inl e ↦
      let same : from_ids [] node_ids ≡ related = ground arith in
      rw (sym same) (
        has_in_keys node_ids m,
        λ k. all_in-has node_ids nodes m e (sym (has_in_keys node_ids m) ∙ k),
      )
]
