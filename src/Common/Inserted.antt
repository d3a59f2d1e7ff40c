-- ===== src/Common/Inserted.antt =====
-- A key put into a list of keys, or taken out of it.
use mathlib.Core.Path.{◌≡◌, refl}
use mathlib.Core.Bool.{true, false, ◌||◌}
use mathlib.Core.List.{List, [], ◌∷◌, ◌++◌}
use native.Mathlib.Omega.{arith}
use product_private_paas.Common.Texts.{Text, text_eq, text_eq_iff, mem, distinct}

pub mem-insert :
    (x k : Text) (xs ys : List Text) → mem x (xs ++ k ∷ ys) ≡ (text_eq x k || mem x (xs ++ ys))
unfolding mem
mem-insert x k [] ys = refl
mem-insert x k (y ∷ xs) ys = ground (arith, mem-insert x k xs ys)

pub distinct-insert :
    (k : Text) (xs ys : List Text)
    → distinct (xs ++ ys) ≡ true
    → mem k (xs ++ ys) ≡ false
    → distinct (xs ++ k ∷ ys) ≡ true
unfolding distinct mem
distinct-insert k [] ys d m = ground (arith, d, m)
distinct-insert k (y ∷ xs) ys d m =
    ground
      (arith, d, m, mem-insert y k xs ys, text_eq_iff y k, text_eq_iff k y, distinct-insert k xs ys)

pub distinct_of_insert :
    (k : Text) (xs ys : List Text) → distinct (xs ++ k ∷ ys) ≡ true → distinct (xs ++ ys) ≡ true
unfolding distinct mem
distinct_of_insert k [] ys d = ground (arith, d)
distinct_of_insert k (y ∷ xs) ys d =
    ground (arith, d, mem-insert y k xs ys, distinct_of_insert k xs ys)
