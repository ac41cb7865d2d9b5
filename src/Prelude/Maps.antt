-- ===== src/Prelude/Maps.antt =====
-- Go maps as lists of their entries, and sets of names as lists of their keys.
use Prim.Native.String.{String}
use mathlib.Core.Path.{◌≡◌, refl}
use mathlib.Core.Logic.{◌↔◌, ◌⊎◌}
use mathlib.Core.Option.{Option, none, some}
use mathlib.Core.List.{List, [], ◌∷◌, Memᴰ}
use native.Mathlib.Omega.{arith}
use text.Mathlib.Text.{◌==◌}
use text.Mathlib.TextEquality.{eq_iff}
use cervo_rules.Prelude.Tests.{if◌then◌else◌}
use cervo_rules.Prelude.Lists.{elem, elem_iff, Memᴰ-cons}

-- `v, ok := m[key]`
unfoldable pub entry {ℓ} : {V : Type ℓ} → String → List (String × V) → Option V
entry key [] = none
entry key ((k, v) ∷ rest) = if k == key then some v else entry key rest

-- `m[k] = v`
unfoldable pub put {ℓ} : {V : Type ℓ} → String → V → List (String × V) → List (String × V)
put k v [] = (k, v) ∷ []
put k v ((j, u) ∷ rest) =
    let later = put k v rest in if j == k then (k, v) ∷ rest else (j, u) ∷ later

-- `for k, v := range entries { m[k] = v }`
unfoldable pub put_all {ℓ} :
    {V : Type ℓ} → List (String × V) → List (String × V) → List (String × V)
put_all m [] = m
put_all m ((k, v) ∷ rest) = put_all (put k v m) rest

-- `set[name] = struct{}{}`
unfoldable pub mark : String → List String → List String
mark name set = if elem name set then set else name ∷ set

pub entry-put {ℓ} :
    {V : Type ℓ} (k j : String) (v : V) (m : List (String × V))
    → entry j (put k v m) ≡ (if k == j then some v else entry j m)
unfolding entry put
entry-put k j v [] = refl
entry-put k j v ((i, u) ∷ rest) =
    ground (arith, eq_iff k j, eq_iff i k, eq_iff i j, entry-put k j v rest)

pub mark_iff :
    (a name : String) (set : List String) → Memᴰ a (mark name set) ↔ ((a ≡ name) ⊎ Memᴰ a set)
unfolding mark
mark_iff a name set = ground (arith, elem_iff name set, Memᴰ-cons a name set)
