-- ===== src/Framework/Collections.antt =====
-- core/framework/util/maps.go and arrays.go: maps and slices of strings. A map is read as an
-- association list; its order, which Go leaves open, is that of the list.
pub mod Laws
use kogito_operator.Common.{
  String, Bool, true, false, Option, none, some, List, [], ◌∷◌, ◌==◌, ◌||◌, if◌then◌else◌, is_empty,
  any,
}
use kogito_operator.Common.Dict.{Dict, lookup, insert, get}

-- The loop of `MapContainsMap`.
agrees : Dict String → Dict String → Bool
agrees source [] = true
agrees source ((k, v) ∷ expected) =
    let rest = agrees source expected in if get source k == v then rest else false

-- `len(m) == 0`
abbrev pub is_nil {ℓ} : {A : Type ℓ} → List A → Bool
is_nil [] = true
is_nil (_ ∷ _) = false

unfoldable pub map_contains_map : Dict String → Dict String → Bool
unfolding agrees lookup
map_contains_map source expected =
    if is_nil source || is_nil expected then false else agrees source expected

unfoldable pub append_to_string_map : Dict String → Dict String → Dict String
append_to_string_map [] dest = dest
append_to_string_map ((k, v) ∷ source) dest = append_to_string_map source (insert k v dest)

unfoldable pub add_to_map : String → String → Dict String → Dict String
add_to_map key value dest = insert key value dest

unfoldable pub map_contains : Dict String → String → String → Bool
unfolding lookup
map_contains source key value = get source key == value

unfoldable pub contains : String → List String → Bool
contains s array = if is_empty s then false else any (λ item. s == item) array

array_to_set_from : Dict Bool → List String → Dict Bool
array_to_set_from set [] = set
array_to_set_from set (e ∷ array) = array_to_set_from (insert e true set) array

unfoldable pub array_to_set : List String → Dict Bool
unfolding array_to_set_from insert
array_to_set array = array_to_set_from [] array

-- `set[e]` with the zero value of `bool`.
abbrev pub or_false : Option Bool → Bool
or_false none = false
or_false (some b) = b

all_in : Dict Bool → List String → Bool
all_in set [] = true
all_in set (e ∷ array) =
    let rest = all_in set array in if or_false (lookup e set) then rest else false

unfoldable pub contains_all : List String → List String → Bool
unfolding all_in lookup array_to_set
contains_all array1 array2 = all_in (array_to_set array1) array2

-- The loop of `Remove`, which takes out the first occurrence.
unfoldable pub remove_first : String → List String → List String × Bool
remove_first s [] = ([], false)
remove_first s (item ∷ items) =
    let (rest, removed) = remove_first s items in
    if s == item then (items, true) else (item ∷ rest, removed)

-- The new value of `*array` and the result; a nil pointer is `none`. Other slices that share the
-- backing array, which the code writes through, are not modelled.
unfoldable pub remove : String → Option (List String) → Option (List String) × Bool
unfolding remove_first
remove s none = (none, false)
remove s (some array) = let (items, removed) = remove_first s array in (some items, removed)
