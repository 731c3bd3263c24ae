-- ===== src/Memory/Guarded/LinkedSet.antt =====
-- class linked_set of code/util/cust_memory_pool.cc: the chains of addresses that a buffer had.
use lab_cpp.Base.{
  ℕ, ◌+◌, ◌≡◌, ◌≢◌, Bool, true, false, List, [], ◌∷◌, ◌++◌, arith, weigh, length, length-append,
  leb, ◌==◌, if◌then◌else◌,
}
use lab_cpp.Base.Text.{Text, codes}
use lab_cpp.Base.Decimal.{print_ℕ}

-- An address, and the size that was asked for.
abbrev pub Node : Type 0
Node = ℕ × ℕ

-- `node_vect[node_vect.size() - 1].first == key`; the code keeps no empty chain.
unfoldable pub ends_in : ℕ → List Node → Bool
ends_in key [] = false
ends_in key (node ∷ []) = node.0 == key
ends_in key (node ∷ next ∷ rest) = ends_in key (next ∷ rest)

-- The body of `add`, compiled under ACTIVATE_ALLOCATION_LINKING.
unfoldable pub link : ℕ → ℕ → ℕ → List (List Node) → List (List Node)
unfolding ends_in
link old_key new_key value [] = ((new_key, value) ∷ []) ∷ []
link old_key new_key value (node_vect ∷ rest) =
    if ends_in old_key node_vect
    then (node_vect ++ (new_key, value) ∷ []) ∷ rest
    else node_vect ∷ link old_key new_key value rest

-- Without ACTIVATE_ALLOCATION_LINKING `add` does nothing.
unfoldable pub add : Bool → ℕ → ℕ → ℕ → List (List Node) → List (List Node)
unfolding link
add linking old_key new_key value vect_vect =
    if linking then link old_key new_key value vect_vect else vect_vect

-- A line of `print`: sizes, each behind its sign, which is doubled where the address has changed.
unfoldable pub print_chain : ℕ → ℕ → List Node → Text
print_chain prev_addr prev_size [] = []
print_chain prev_addr prev_size ((addr, size) ∷ rest) =
    let sep = if leb prev_size size then codes "+" else codes "-" in
    (if addr == prev_addr then sep else sep ++ sep) ++ print_ℕ size ++ print_chain addr size rest

unfoldable pub print : Bool → List (List Node) → List Text
unfolding print_chain
print linking [] = []
print linking (node_vect ∷ rest) =
    if linking then print_chain 0 0 node_vect ∷ print linking rest else []

-- Every chain has a node, so that its last one can be read.
abbrev pub IsLinked : List (List Node) → Type 0
IsLinked [] = Unit {0}
IsLinked (node_vect ∷ rest) = (node_vect ≢ []) × IsLinked rest

-- `add` keeps every chain non-empty, and with linking switched on it adds exactly one node to the
-- nodes of all chains.
pub add-IsLinked :
    (linking : Bool) (old_key new_key value : ℕ) (vect_vect : List (List Node))
    → IsLinked vect_vect
    → IsLinked (add linking old_key new_key value vect_vect)
      × (weigh length (add linking old_key new_key value vect_vect)
          ≡ (if linking then 1 else 0) + weigh length vect_vect)
unfolding add
add-IsLinked false old_key new_key value vect_vect h = (h, omega arith)
add-IsLinked true old_key new_key value [] h = ground arith
add-IsLinked true old_key new_key value (node_vect ∷ rest) h = ground (
  arith,
  add-IsLinked true old_key new_key value rest h.1,
  length-append node_vect ((new_key, value) ∷ []),
)
