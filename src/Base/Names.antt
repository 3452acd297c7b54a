-- ===== src/Base/Names.antt =====
-- std::map<std::string, V> and std::set<std::string>, as lists in the order of their keys.
use Prim.Native.String.{String}
use mathlib.Core.Path.{◌≡◌, refl}
use mathlib.Core.Bool.{Bool, true, false, ◌&&◌, ◌||◌, not}
use mathlib.Core.Option.{Option, none, some}
use mathlib.Core.List.{List, [], ◌∷◌}
use text.Mathlib.TextEquality.{eq_iff}
use native.Mathlib.Omega.{arith}
use new_robot.Base.Tests.{str_eq, str_lt, if◌then◌else◌}

abbrev pub Map {ℓ} : Type ℓ → Type ℓ
Map V = List (String × V)

module _ {ℓ} {V : Type ℓ} where
  -- find.
  abbrev pub lookup : String → Map V → Option V
  lookup k [] = none
  lookup k ((j, v) ∷ m) = if str_eq j k then some v else lookup k m

  -- count.
  abbrev pub bound : String → Map V → Bool
  bound k [] = false
  bound k ((j, v) ∷ m) = str_eq j k || bound k m

  -- m[k] = v.
  unfoldable pub insert : String → V → Map V → Map V
  insert k v [] = (k, v) ∷ []
  insert k v ((j, w) ∷ m) =
      let rest = insert k v m in
      if str_eq j k then (k, v) ∷ m else if str_lt k j then (k, v) ∷ (j, w) ∷ m else (j, w) ∷ rest

  -- emplace: a key that is there keeps its value.
  unfoldable pub emplace : String → V → Map V → Map V
  emplace k v m = if bound k m then m else insert k v m

  unfoldable pub erase : String → Map V → Map V
  erase k [] = []
  erase k ((j, v) ∷ m) = if str_eq j k then erase k m else (j, v) ∷ erase k m

  -- A write through `at(k)`; a map without the key is left alone.
  unfoldable pub adjust : String → (V → V) → Map V → Map V
  adjust k f [] = []
  adjust k f ((j, v) ∷ m) = if str_eq j k then (j, f v) ∷ adjust k f m else (j, v) ∷ adjust k f m

  -- `for (auto & item : m)` that rewrites each value.
  unfoldable pub map_entries : (String → V → V) → Map V → Map V
  map_entries f [] = []
  map_entries f ((j, v) ∷ m) = (j, f j v) ∷ map_entries f m

  abbrev pub keys : Map V → List String
  keys [] = []
  keys ((j, v) ∷ m) = j ∷ keys m

  pub lookup-insert :
      (k j : String) (v : V) (m : Map V)
      → lookup j (insert k v m) ≡ (if str_eq k j then some v else lookup j m)
  unfolding insert
  lookup-insert k j v [] = refl
  lookup-insert k j v ((i, w) ∷ m) =
      ground (arith, eq_iff k j, eq_iff i k, eq_iff i j, lookup-insert k j v m)

  pub bound-lookup :
      (k : String) (m : Map V) → bound k m ≡ (elim (lookup k m) [ none ↦ false | some v ↦ true ])
  bound-lookup k [] = refl
  bound-lookup k ((j, v) ∷ m) = ground (arith, bound-lookup k m)

  pub lookup-erase :
      (k j : String) (m : Map V) → lookup j (erase k m) ≡ (if str_eq k j then none else lookup j m)
  unfolding erase
  lookup-erase k j [] = ground arith
  lookup-erase k j ((i, w) ∷ m) =
      ground (arith, eq_iff k j, eq_iff i k, eq_iff i j, lookup-erase k j m)

  pub lookup-emplace :
      (k j : String) (v : V) (m : Map V)
      → lookup j (emplace k v m)
        ≡ (elim (lookup j m) [ some w ↦ some w | none ↦ if str_eq k j then some v else none ])
  unfolding emplace
  lookup-emplace k j v m =
      ground (arith, lookup-insert k j v m, eq_iff k j, bound-lookup k m, bound-lookup j m)

  pub lookup-adjust :
      (k j : String) (f : V → V) (m : Map V)
      → lookup j (adjust k f m)
        ≡ (elim (lookup j m) [ none ↦ none | some v ↦ some (if str_eq k j then f v else v) ])
  unfolding adjust
  lookup-adjust k j f [] = refl
  lookup-adjust k j f ((i, w) ∷ m) =
      ground (arith, eq_iff k j, eq_iff i k, eq_iff i j, lookup-adjust k j f m)

  pub lookup-map_entries :
      (j : String) (f : String → V → V) (m : Map V)
      → lookup j (map_entries f m) ≡ (elim (lookup j m) [ none ↦ none | some v ↦ some (f j v) ])
  unfolding map_entries
  lookup-map_entries j f [] = refl
  lookup-map_entries j f ((i, w) ∷ m) = ground (arith, eq_iff i j, lookup-map_entries j f m)

  pub bound-adjust : (k j : String) (f : V → V) (m : Map V) → bound j (adjust k f m) ≡ bound j m
  unfolding adjust
  bound-adjust k j f [] = refl
  bound-adjust k j f ((i, w) ∷ m) = ground (arith, bound-adjust k j f m)

  pub bound-map_entries :
      (j : String) (f : String → V → V) (m : Map V) → bound j (map_entries f m) ≡ bound j m
  unfolding map_entries
  bound-map_entries j f [] = refl
  bound-map_entries j f ((i, w) ∷ m) = ground (arith, bound-map_entries j f m)

-- A std::set of names.
abbrev pub NameSet : Type 0
NameSet = List String

abbrev pub contains : String → NameSet → Bool
contains k [] = false
contains k (j ∷ s) = str_eq j k || contains k s

unfoldable pub add_name : String → NameSet → NameSet
add_name k [] = k ∷ []
add_name k (j ∷ s) =
    let rest = add_name k s in
    if str_eq j k then j ∷ s else if str_lt k j then k ∷ j ∷ s else j ∷ rest

unfoldable pub remove_name : String → NameSet → NameSet
remove_name k [] = []
remove_name k (j ∷ s) = if str_eq j k then remove_name k s else j ∷ remove_name k s

pub contains-add_name :
    (k j : String) (s : NameSet) → contains j (add_name k s) ≡ (str_eq k j || contains j s)
unfolding add_name
contains-add_name k j [] = refl
contains-add_name k j (i ∷ s) =
    ground (arith, eq_iff k j, eq_iff i k, eq_iff i j, contains-add_name k j s)

pub contains-remove_name :
    (k j : String) (s : NameSet) → contains j (remove_name k s) ≡ (not (str_eq k j) && contains j s)
unfolding remove_name
contains-remove_name k j [] = ground arith
contains-remove_name k j (i ∷ s) =
    ground (arith, eq_iff k j, eq_iff i k, eq_iff i j, contains-remove_name k j s)
