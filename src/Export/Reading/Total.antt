-- ===== src/Export/Reading/Total.antt =====
-- How far the fuel of `reading` has to go.
use product_private_paas.Common.{
  ℕ, zero, suc, ◌≤◌, ◌<◌, Text, text_eq, text_eq_sound, text_eq_iff, mem, distinct, not, ◌&&◌, ◌||◌,
  ◌≡◌, refl, sym, ap, ◌∙◌, Bool, true, false, Option, none, some, List, [], ◌∷◌, arith, length,
  get_elem?, if◌then◌else◌, Bool-cases, Option-cases, inl, inr,
}
use product_private_paas.Forest.{Row, names_of, parent_key}
use product_private_paas.Forest.Linked.{get_elem?-names_of, zero_add}
use product_private_paas.Forest.Segments.{IsSegment, IsSegment-head, IsSegment-tail}
use product_private_paas.Forest.Trees.{Roses, nil, cons, node}
use product_private_paas.Objects.Index.{mem_of_get_elem?}
use product_private_paas.Export.{Entry, RawTree}
use product_private_paas.Export.Merge.{position_inj}
use product_private_paas.Export.Reading.{read_rows, reading}

-- Every row has a parent, as the rows of connections have.
unfoldable pub is_parented : RawTree → Bool
is_parented [] = true
is_parented (r ∷ rows) = (elim r.parent [ none ↦ false | some p ↦ true ]) && is_parented rows

unfoldable drop : Text → List Text → List Text
drop c [] = []
drop c (x ∷ xs) = let rest = drop c xs in if text_eq x c then rest else x ∷ rest

mem-drop : (c k : Text) (xs : List Text) → mem k (drop c xs) ≡ (mem k xs && not (text_eq k c))
unfolding mem drop
mem-drop c k [] = refl
mem-drop c k (x ∷ xs) =
    ground (arith, mem-drop c k xs, text_eq_iff k x, text_eq_iff x c, text_eq_iff k c)

length-drop_le : (c : Text) (xs : List Text) → length (drop c xs) ≤ length xs
unfolding drop
length-drop_le c [] = omega arith
length-drop_le c (x ∷ xs) = ground (arith, length-drop_le c xs)

length-drop_lt : (c : Text) (xs : List Text) → mem c xs ≡ true → length (drop c xs) < length xs
unfolding mem drop
length-drop_lt c [] m = cc
length-drop_lt c (x ∷ xs) m =
    ground (arith, length-drop_lt c xs, length-drop_le c xs, text_eq_iff c x, text_eq_iff x c)

mem-self_drop : (c : Text) (xs : List Text) → text_eq c c ≡ true → mem c (drop c xs) ≡ false
mem-self_drop c xs e = ground (arith, mem-drop c c xs, e)

module _ (rows : RawTree) (d : distinct (names_of rows) ≡ true) where
  same_row :
      (i j : ℕ) (r q : Row Entry)
      → get_elem? rows i ≡ some r
      → get_elem? rows j ≡ some q
      → q.name ≡ r.name
      → q ≡ r
  same_row i j r q at_i at_j e =
      let same : i ≡ j =
        position_inj (names_of rows) i j r.name d (get_elem?-names_of rows i r at_i)
          (get_elem?-names_of rows j q at_j ∙ ap some e) in
      cc (at_i, at_j, ap (get_elem? rows) same)

  -- The names of all rows below `n` and below each other are among `xs`.
  abbrev IsClosed : Text → List Text → Type 0
  IsClosed n xs =
      (i : ℕ) (r : Row Entry)
      → get_elem? rows i ≡ some r
      → (text_eq (parent_key r.parent) n || mem (parent_key r.parent) xs) ≡ true
      → mem r.name xs ≡ true

  IsClosed-child :
      (n : Text) (xs : List Text) (i : ℕ) (r : Row Entry)
      → mem n xs ≡ false
      → IsClosed n xs
      → get_elem? rows i ≡ some r
      → text_eq (parent_key r.parent) n ≡ true
      → IsClosed r.name (drop r.name xs)
  IsClosed-child n xs i r m closed at_i below j q at_j h =
      let known : mem r.name xs ≡ true = closed i r at_i (ground (arith, below)) in
      let parent_known : mem (parent_key q.parent) xs ≡ true = ground (
        arith,
        h,
        known,
        mem-drop r.name (parent_key q.parent) xs,
        text_eq_iff (parent_key q.parent) r.name,
      ) in
      let named : mem q.name xs ≡ true = closed j q at_j (ground (arith, parent_known)) in
      elim (Bool-cases (text_eq q.name r.name)) [
        | inr ne ↦ ground (arith, named, ne, mem-drop r.name q.name xs)
        | inl e ↦
            let same = same_row i j r q at_i at_j (text_eq_sound q.name r.name e) in
            let parent_n : parent_key q.parent ≡ n =
              ap (λ (x : Row Entry). parent_key x.parent) same
              ∙ text_eq_sound (parent_key r.parent) n below in
            cc (ap (λ k. mem k xs) parent_n, parent_known, m)
      ]

  read_rows_total :
      (f : Text → Option (Roses Entry)) (n : Text) (i : ℕ) (seg : RawTree)
      → IsSegment (λ j. get_elem? rows j) i seg
      → is_parented seg ≡ true
      → ((j : ℕ) (r : Row Entry)
          → get_elem? rows j ≡ some r
          → text_eq (parent_key r.parent) n ≡ true
          → (us : Roses Entry) × (f r.name ≡ some us))
      → (ts : Roses Entry) × (read_rows f n seg ≡ some ts)
  unfolding read_rows is_parented
  read_rows_total f n i [] s p below = (nil, refl)
  read_rows_total f n i (r ∷ seg) s p below =
      let (ts, rest) =
        read_rows_total f n (suc i) seg (IsSegment-tail (λ j. get_elem? rows j) i r seg s)
          (ground (arith, p)) below in
      elim (Option-cases r.parent) [
        | inl e ↦ absurd (ground (arith, e, p))
        | inr (m, e) ↦ elim (Bool-cases (text_eq m n)) [
          | inr t ↦ (ts, ground (arith, e, t, rest))
          | inl t ↦
              let (us, u) =
                below i r (IsSegment-head (λ j. get_elem? rows j) i r seg s)
                  (ap (λ q. text_eq (parent_key q) n) e ∙ t) in
              (cons (node r.name r.payload us) ts, ground (arith, e, t, u, rest))
        ]
      ]

  reading_closed :
      (fuel : ℕ) (n : Text) (xs : List Text)
      → is_parented rows ≡ true
      → length xs ≤ fuel
      → mem n xs ≡ false
      → IsClosed n xs
      → (ts : Roses Entry) × (reading rows fuel n ≡ some ts)
  unfolding reading
  reading_closed zero n (x ∷ xs) p le m closed = absurd (omega arith)
  reading_closed zero n [] p le m closed =
      read_rows_total (λ k. none) n 0 rows
        (λ j r at_j. ap (get_elem? rows) (sym (zero_add j)) ∙ at_j) p
        (λ j r at_j below.
          let known = closed j r at_j (ground (arith, below)) in absurd (unfold mem in cc known))
  reading_closed (suc fuel) n xs p le m closed =
      read_rows_total (λ k. reading rows fuel k) n 0 rows
        (λ j r at_j. ap (get_elem? rows) (sym (zero_add j)) ∙ at_j) p
        (λ j r at_j below.
          let known = closed j r at_j (ground (arith, below)) in
          reading_closed fuel r.name (drop r.name xs) p
            (omega (arith, length-drop_lt r.name xs known))
            (mem-self_drop r.name xs ((text_eq_iff r.name r.name).1 refl))
            (IsClosed-child n xs j r m closed at_j below))

  length-names_of : (rs : RawTree) → length (names_of rs) ≡ length rs
  length-names_of [] = refl
  length-names_of (r ∷ rs) = ap suc (length-names_of rs)

  -- From a node that no connection leads to, the forest below it is read with the number of rows as
  -- the fuel.
  pub reading_total :
      (base : Text)
      → is_parented rows ≡ true
      → mem base (names_of rows) ≡ false
      → (ts : Roses Entry) × (reading rows (length rows) base ≡ some ts)
  reading_total base p m =
      reading_closed (length rows) base (names_of rows) p (omega (arith, length-names_of rows)) m
        (λ i r at_i h. mem_of_get_elem? (names_of rows) i r.name (get_elem?-names_of rows i r at_i))
