-- ===== src/Framework/Collections/Laws.antt =====
-- What the operations on maps and slices decide and build.
use mathlib.Core.Option.{or_else}
use kogito_operator.Common.{
  String, ℕ, suc, ◌≡◌, refl, ◌∙◌, ◌≢◌, ◌↔◌, Bool, true, ◌&&◌, ◌||◌, some, List, [], ◌∷◌, ◌==◌,
  if◌then◌else◌, any, all, arith, eq_iff, eq_refl,
}
use kogito_operator.Common.Dict.{Dict, lookup, insert, lookup-insert, get, NodupKeys}
use kogito_operator.Framework.Collections.{
  agrees, map_contains_map, append_to_string_map, array_to_set_from, array_to_set, or_false, all_in,
  contains_all, remove_first, remove,
}

-- Every key of the second map has its value in the first; a key that the first map lacks counts as
-- the empty string.
abbrev pub Agrees : Dict String → Dict String → Type 0
Agrees source expected = (k v : String) → lookup k expected ≡ some v → get source k ≡ v

agrees_sound :
    (source expected : Dict String) → agrees source expected ≡ true → Agrees source expected
unfolding agrees lookup
agrees_sound source [] h k v l = cc
agrees_sound source ((j, w) ∷ expected) h k v l =
    ground
      (arith, eq_iff j k, eq_iff (get source j) w, agrees_sound source expected (ground arith) k v)

agrees_complete :
    (source expected : Dict String)
    → NodupKeys expected
    → Agrees source expected
    → agrees source expected ≡ true
unfolding agrees lookup
agrees_complete source [] u h = refl
agrees_complete source ((j, w) ∷ expected) (fresh, u) h =
    let rest : agrees source expected ≡ true =
      agrees_complete source expected u (λ k v l. h k v (ground (arith, eq_iff j k))) in
    rw ((eq_iff (get source j) w).1 (h j w (rw eq_refl))) rest

-- A map contains another, whose keys are distinct, exactly when neither is empty and every entry of
-- the other is the first map's value of that key, the empty string if it has none.
pub map_contains_map_iff :
    (source expected : Dict String)
    → NodupKeys expected
    → (map_contains_map source expected ≡ true)
      ↔ ((source ≢ []) × (expected ≢ []) × Agrees source expected)
unfolding map_contains_map
map_contains_map_iff [] expected u = (λ h. cc, λ h. absurd (h.0 refl))
map_contains_map_iff (e ∷ source) [] u = (λ h. cc, λ h. absurd (h.1 refl))
map_contains_map_iff (e ∷ source) (x ∷ expected) u = (
  λ h. (λ q. cc, λ q. cc, agrees_sound (e ∷ source) (x ∷ expected) h),
  λ h. agrees_complete (e ∷ source) (x ∷ expected) u h.2,
)

-- Appending a map with distinct keys: its entries win, all others of the target stay.
pub lookup-append_to_string_map :
    (k : String) (source dest : Dict String)
    → NodupKeys source
    → lookup k (append_to_string_map source dest) ≡ or_else (lookup k source) (lookup k dest)
unfolding append_to_string_map lookup or_else
lookup-append_to_string_map k [] dest u = refl
lookup-append_to_string_map k ((j, v) ∷ source) dest (fresh, u) =
    lookup-append_to_string_map k source (insert j v dest) u
    ∙ ground (arith, lookup-insert j k v dest, eq_iff j k)

abbrev pub member : String → List String → Bool
member e = any (λ x. x == e)

or_false-lookup-array_to_set_from :
    (e : String) (set : Dict Bool) (array : List String)
    → or_false (lookup e (array_to_set_from set array))
      ≡ (member e array || or_false (lookup e set))
unfolding array_to_set_from
or_false-lookup-array_to_set_from e set [] = refl
or_false-lookup-array_to_set_from e set (x ∷ array) =
    or_false-lookup-array_to_set_from e (insert x true set) array
    ∙ ground (arith, lookup-insert x e true set)

or_false-lookup-array_to_set :
    (e : String) (array : List String) → or_false (lookup e (array_to_set array)) ≡ member e array
unfolding array_to_set lookup
or_false-lookup-array_to_set e array = or_false-lookup-array_to_set_from e [] array ∙ ground arith

all_in_lem :
    (array1 array2 : List String)
    → all_in (array_to_set array1) array2 ≡ all (λ e. member e array1) array2
unfolding all_in
all_in_lem array1 [] = refl
all_in_lem array1 (e ∷ array2) =
    ground (arith, all_in_lem array1 array2, or_false-lookup-array_to_set e array1)

-- `ContainsAll` decides inclusion: every element of the second slice occurs in the first.
pub contains_all_lem :
    (array1 array2 : List String) → contains_all array1 array2 ≡ all (λ e. member e array1) array2
unfolding contains_all
contains_all_lem array1 array2 = all_in_lem array1 array2

abbrev pub count : String → List String → ℕ
count e [] = 0
count e (x ∷ xs) = let rest = count e xs in if x == e then suc rest else rest

remove_first_lem :
    (s e : String) (array : List String)
    → ((remove_first s array).1 ≡ member s array)
      × (count e array ≡ (
          if (remove_first s array).1 && s == e
          then suc (count e (remove_first s array).0)
          else count e (remove_first s array).0))
unfolding remove_first
remove_first_lem s e [] = (refl, refl)
remove_first_lem s e (item ∷ items) =
    ground
      (arith, eq_iff s item, eq_iff item s, eq_iff item e, eq_iff s e, remove_first_lem s e items)

-- `Remove` answers whether the element was there, takes exactly one occurrence of it out, and leaves
-- every other element as often as it was.
pub remove_lem :
    (s e : String) (array items : List String) (removed : Bool)
    → remove s (some array) ≡ (some items, removed)
    → (removed ≡ member s array)
      × (count e array ≡ (if removed && s == e then suc (count e items) else count e items))
unfolding remove
remove_lem s e array items removed h = ground (arith, remove_first_lem s e array)
