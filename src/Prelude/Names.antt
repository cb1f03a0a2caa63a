-- ===== src/Prelude/Names.antt =====
-- Texts as keys: their order, sorted sets of them, and dictionaries.
use Prim.Native.String.{String, compare, len, slice}
use Prim.Native.Nat.{Ordering, ◌-◌}
use mathlib.Core.Bool.{Bool, true, false}
use mathlib.Core.List.{List, [], ◌∷◌}
use mathlib.Core.Option.{Option, none, some}
use text.Mathlib.Text.{◌==◌}
use capital.Prelude.Tests.{leb, if◌then◌else◌}

-- `sorted({...})`, one name at a time.
abbrev pub insert_name : String → List String → List String
insert_name n [] = n ∷ []
insert_name n (m ∷ ms) = elim (compare n m) [
  | Ordering.lt ↦ n ∷ m ∷ ms
  | Ordering.eq ↦ m ∷ ms
  | Ordering.gt ↦ m ∷ insert_name n ms
]

abbrev pub sorted_names : List String → List String
sorted_names [] = []
sorted_names (n ∷ ns) = insert_name n (sorted_names ns)

-- `d.get(key)` of a dictionary as an association list.
abbrev pub lookup {ℓ} : {V : Type ℓ} → String → List (String × V) → Option V
lookup k [] = none
lookup k ((j, v) ∷ d) = if j == k then some v else lookup k d

-- `d[key] = value`: an old key keeps its place, a new one comes last.
abbrev pub put {ℓ} : {V : Type ℓ} → String → V → List (String × V) → List (String × V)
put k v [] = (k, v) ∷ []
put k v ((j, w) ∷ d) = if j == k then (k, v) ∷ d else (j, w) ∷ put k v d

abbrev pub or_else {ℓ} : {V : Type ℓ} → V → Option V → V
or_else v none = v
or_else v (some w) = w

-- `name in names`
abbrev pub contains : String → List String → Bool
contains n [] = false
contains n (m ∷ ms) = if m == n then true else contains n ms

-- `s.endswith(t)`, and `s[:-len(t)]` of a text that ends so; for ASCII texts.
abbrev pub ends_with : String → String → Bool
ends_with s t = if leb (len t) (len s) then slice s (len s - len t) (len s) == t else false

abbrev pub remove_suffix : String → String → String
remove_suffix s t = slice s 0 (len s - len t)
