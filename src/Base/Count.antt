-- ===== src/Base/Count.antt =====
-- How often a number stands in a list, and the list without it.
use Prim.Native.Nat.{ℕ, ◌+◌, ◌-◌}
use mathlib.Core.Path.{◌≡◌}
use mathlib.Core.Logic.{◌≢◌}
use mathlib.Core.List.{List, [], ◌∷◌, ◌++◌}
use native.Mathlib.Omega.{arith}
use prl_tools.Base.Tests.{◌==◌, if◌then◌else◌}

abbrev pub count : ℕ → List ℕ → ℕ
count i [] = 0
count i (j ∷ js) = (if j == i then 1 else 0) + count i js

pub count-append : (i : ℕ) (xs ys : List ℕ) → count i (xs ++ ys) ≡ count i xs + count i ys
count-append i [] ys = omega arith
count-append i (x ∷ xs) ys = omega (arith, count-append i xs ys)

-- `list_del`: the first one.
unfoldable pub delete : ℕ → List ℕ → List ℕ
delete i [] = []
delete i (j ∷ js) = if j == i then js else j ∷ delete i js

pub count-delete_self : (i : ℕ) (xs : List ℕ) → count i (delete i xs) ≡ count i xs - 1
unfolding delete
count-delete_self i [] = omega arith
count-delete_self i (x ∷ xs) = ground (arith, count-delete_self i xs)

pub count-delete_ne : (i j : ℕ) (xs : List ℕ) → j ≢ i → count j (delete i xs) ≡ count j xs
unfolding delete
count-delete_ne i j [] h = omega arith
count-delete_ne i j (x ∷ xs) h = ground (arith, count-delete_ne i j xs h)
