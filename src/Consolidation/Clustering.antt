-- ===== src/Consolidation/Clustering.antt =====
-- src/rootmem/consolidation/clustering.py: union-find with path halving.
pub mod Roots
pub mod Find
pub mod Union
pub mod Partition
pub mod Clusters
pub mod Similarity
use rootmem.Base.{
  ℕ, zero, suc, String, Bool, true, false, ◌==◌, Option, none, some, List, [], ◌∷◌, ◌++◌, length,
  if◌then◌else◌, Result, ok, raise, ◌>>=◌, string_eq,
}
use mathlib.Core.Option
use rootmem.Base.Dict
use rootmem.Base.Dict.{Dict, values, keys}
use rootmem.Base.Float.{Float}

-- `out_of_fuel` stands for a `while` that does not end.
pub data Fault : Type 0 where
  key_error out_of_fuel : Fault

abbrev pub Parents : Type 0
Parents = Dict String String

-- `{item: item for item in items}`
unfoldable pub init_from : Parents → List String → Parents
init_from parent [] = parent
init_from parent (item ∷ items) = init_from (Dict.put parent item item) items

unfoldable pub init : List String → Parents
unfolding init_from
init = init_from []

-- `self._parent[item]`
unfoldable pub parent_of : Parents → String → Result Fault String
parent_of parent item = elim (Dict.get parent item) [ none ↦ raise key_error | some p ↦ ok p ]

-- The loop of `find`: the root, and the parents after the halvings.
unfoldable pub find : ℕ → Parents → String → Result Fault (String × Parents)
unfolding parent_of
find zero parent item = raise out_of_fuel
find (suc fuel) parent item = elim (Dict.get parent item) [
  | none ↦ raise key_error
  | some p ↦ elim (p == item) [
    | true ↦ ok (item, parent)
    | false ↦ elim (Dict.get parent p) [
      | none ↦ raise key_error
      | some pp ↦ find fuel (Dict.put parent item pp) pp
    ]
  ]
]

unfoldable pub union : ℕ → Parents → String → String → Result Fault Parents
unfolding find
union fuel parent a b = do
  (root_a, parent_a) ← find fuel parent a
  (root_b, parent_b) ← find fuel parent_a b
  ok (if root_a == root_b then parent_b else Dict.put parent_b root_a root_b)

abbrev pub Groups : Type 0
Groups = Dict String (List String)

-- `groups.setdefault(root, []).append(item)`
unfoldable pub add_member : Groups → String → String → Groups
add_member groups root item =
    Dict.put groups root (Option.get_or (Dict.get groups root) [] ++ (item ∷ []))

-- the loop of `clusters`
unfoldable pub group_all : ℕ → Parents → List String → Groups → Result Fault Groups
unfolding find add_member
group_all fuel parent [] groups = ok groups
group_all fuel parent (item ∷ items) groups = elim (find fuel parent item) [
  | raise e ↦ raise e
  | ok (root, parent') ↦ group_all fuel parent' items (add_member groups root item)
]

module _ {F : Type 0} ⦃fl : Float F⦄ where
  -- the loop over `pairs`
  unfoldable pub union_all : ℕ → F → Parents → List (String × String × F) → Result Fault Parents
  unfolding union
  union_all fuel threshold parent [] = ok parent
  union_all fuel threshold parent ((a, b, similarity) ∷ pairs) =
      elim (if fl.le threshold similarity then union fuel parent a b else ok parent) [
        | raise e ↦ raise e
        | ok parent' ↦ union_all fuel threshold parent' pairs
      ]

  -- Each union lengthens a path by one link at most, so `len(pairs) + 1` rounds end every `find`.
  unfoldable pub cluster_by_similarity :
      List String → List (String × String × F) → F → Result Fault (List (List String))
  unfolding union_all init group_all
  cluster_by_similarity memory_ids pairs threshold =
      let fuel = suc (length pairs) in
      do
        parent ← union_all fuel threshold (init memory_ids) pairs
        groups ← group_all fuel parent (keys parent) []
        ok (values groups)
