-- ===== src/Common/Texts.antt =====
-- A JavaScript string as the list of its code units, and strings as keys.
use Prim.Native.Nat.{ℕ, suc, ◌+◌, ◌≤◌}
use Prim.Native.Char.{code}
use Prim.Native.String.{String}
use mathlib.Core.Path.{◌≡◌, refl}
use mathlib.Core.Logic.{◌↔◌, inl, inr}
use mathlib.Core.Bool.{Bool, true, false, ◌&&◌, ◌||◌, not}
use mathlib.Core.List.{List, [], ◌∷◌, ◌++◌}
use native.Mathlib.Omega.{arith}
use product_private_paas.Common.Tests.{eqb, Bool-cases, if◌then◌else◌}

abbrev pub Text : Type 0
Text = List ℕ

-- The code units of a literal.
abbrev pub codes : String → Text
codes String.[] = []
codes (String.◌∷◌ c s) = code c ∷ codes s

unfoldable pub text_eq : Text → Text → Bool
text_eq [] [] = true
text_eq (a ∷ s) (b ∷ t) = eqb a b && text_eq s t
text_eq _ _ = false

pub text_eq_sound : (s t : Text) → text_eq s t ≡ true → s ≡ t
unfolding text_eq
text_eq_sound [] [] h = refl
text_eq_sound [] (b ∷ t) h = cc
text_eq_sound (a ∷ s) [] h = cc
text_eq_sound (a ∷ s) (b ∷ t) h = ground (arith, text_eq_sound s t)

pub text_eq_refl : (s : Text) → text_eq s s ≡ true
unfolding text_eq
text_eq_refl [] = refl
text_eq_refl (a ∷ s) = ground (arith, text_eq_refl s)

pub text_eq_complete : (s t : Text) → s ≡ t → text_eq s t ≡ true
text_eq_complete s t e = cc (text_eq_refl s, e)

pub text_eq_iff : (s t : Text) → (text_eq s t ≡ true) ↔ (s ≡ t)
text_eq_iff s t = (text_eq_sound s t, text_eq_complete s t)

unfoldable pub mem : Text → List Text → Bool
mem k [] = false
mem k (x ∷ xs) = text_eq k x || mem k xs

unfoldable pub distinct : List Text → Bool
unfolding mem
distinct [] = true
distinct (x ∷ xs) = not (mem x xs) && distinct xs

pub mem-append : (k : Text) (xs ys : List Text) → mem k (xs ++ ys) ≡ (mem k xs || mem k ys)
unfolding mem
mem-append k [] ys = refl
mem-append k (x ∷ xs) ys = ground (arith, mem-append k xs ys)

pub distinct-append :
    (xs ys : List Text)
    → distinct (xs ++ ys) ≡ true
    → (distinct xs ≡ true)
      × (distinct ys ≡ true)
      × ((k : Text) → mem k xs ≡ true → mem k ys ≡ false)
unfolding distinct
distinct-append [] ys h = (refl, h, λ k m. unfold mem in cc)
distinct-append (x ∷ xs) ys h =
    let (dx, dy, apart) = distinct-append xs ys (ground (arith, mem-append x xs ys)) in
    (
      ground (arith, mem-append x xs ys),
      dy,
      λ k m. unfold mem in ground (arith, mem-append x xs ys, apart k, text_eq_iff k x),
    )

pub mem_ne :
    (a k : Text) (xs : List Text) → mem a xs ≡ false → mem k xs ≡ true → text_eq a k ≡ false
mem_ne a k xs h m = elim (Bool-cases (text_eq a k)) [ inl e ↦ cc (text_eq_sound a k e) | inr e ↦ e ]

unfoldable pub count : Text → List Text → ℕ
count k [] = 0
count k (x ∷ xs) = if text_eq k x then suc (count k xs) else count k xs

unfoldable pub disjoint : List Text → List Text → Bool
disjoint [] ys = true
disjoint (x ∷ xs) ys = not (mem x ys) && disjoint xs ys

pub count-append : (k : Text) (xs ys : List Text) → count k (xs ++ ys) ≡ count k xs + count k ys
unfolding count
count-append k [] ys = omega arith
count-append k (x ∷ xs) ys = ground (arith, count-append k xs ys)

pub count_of_not_mem : (k : Text) (xs : List Text) → mem k xs ≡ false → count k xs ≡ 0
unfolding count mem
count_of_not_mem k [] h = refl
count_of_not_mem k (x ∷ xs) h = ground (arith, count_of_not_mem k xs)

pub not_mem_of_count : (k : Text) (xs : List Text) → count k xs ≡ 0 → mem k xs ≡ false
unfolding count mem
not_mem_of_count k [] h = refl
not_mem_of_count k (x ∷ xs) h = ground (arith, not_mem_of_count k xs)

pub count_of_distinct :
    (k : Text) (xs : List Text) → distinct xs ≡ true → mem k xs ≡ true → count k xs ≡ 1
unfolding count distinct mem
count_of_distinct k [] d m = cc
count_of_distinct k (x ∷ xs) d m =
    ground (arith, count_of_distinct k xs, count_of_not_mem k xs, text_eq_iff k x)

pub not_mem_of_disjoint :
    (k : Text) (xs ys : List Text) → disjoint xs ys ≡ true → mem k xs ≡ true → mem k ys ≡ false
unfolding disjoint mem
not_mem_of_disjoint k [] ys d m = cc
not_mem_of_disjoint k (x ∷ xs) ys d m = ground (arith, not_mem_of_disjoint k xs ys, text_eq_iff k x)

pub count_le_one_of_distinct : (k : Text) (xs : List Text) → distinct xs ≡ true → count k xs ≤ 1
unfolding count distinct
count_le_one_of_distinct k [] d = omega arith
count_le_one_of_distinct k (x ∷ xs) d =
    ground (arith, count_le_one_of_distinct k xs, count_of_not_mem k xs, text_eq_iff k x)

pub count_of_mem : (k : Text) (xs : List Text) → mem k xs ≡ true → 1 ≤ count k xs
unfolding count mem
count_of_mem k [] m = cc
count_of_mem k (x ∷ xs) m = ground (arith, count_of_mem k xs)

pub distinct_of_count : (xs : List Text) → ((k : Text) → count k xs ≤ 1) → distinct xs ≡ true
unfolding distinct count
distinct_of_count [] h = refl
distinct_of_count (x ∷ xs) h =
    let fresh = not_mem_of_count x xs (let c = h x in ground (arith, text_eq_refl x)) in
    let rest = distinct_of_count xs (λ k. let c = h k in ground arith) in ground arith
