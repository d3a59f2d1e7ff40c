-- ===== src/Export/Reading.antt =====
-- The forest that connections in any order stand for, read off by the names of the parents, and the
-- items that the exporters write for it.
pub mod Total
use product_private_paas.Common.{
  ℕ, zero, suc, Text, text_eq, text_eq_sound, ◌≡◌, ap, ◌∙◌, Bool, true, false, Option, none, some,
  List, [], ◌∷◌, arith, get_elem?, if◌then◌else◌, Bool-cases, Option-cases, inl, inr,
}
use product_private_paas.Json.{Json}
use product_private_paas.Forest.{Row, parent_key}
use product_private_paas.Forest.Segments.{IsSegment, IsSegment-head, IsSegment-tail}
use product_private_paas.Forest.Trees.{Roses, node, nil, cons}
use product_private_paas.Export.{Entry, RawTree, is_group}
use product_private_paas.Export.Assemble.{collect_items}
use product_private_paas.Export.Merge.{of_kind, same_kind}
use product_private_paas.Export.Pick.{kind_at}
use product_private_paas.Export.Walk.{component_json, items_of}

abbrev graft : Row Entry → Option (Roses Entry) → Option (Roses Entry) → Option (Roses Entry)
graft r none rest = none
graft r (some us) none = none
graft r (some us) (some ts) = some (cons (node r.name r.payload us) ts)

-- The trees of the rows below `n`, in the order of the rows, with `f` for what is below a row.
unfoldable pub read_rows : (Text → Option (Roses Entry)) → Text → RawTree → Option (Roses Entry)
read_rows f n [] = some nil
read_rows f n (r ∷ rows) =
    let rest = read_rows f n rows in
    elim r.parent [ none ↦ none | some m ↦ if text_eq m n then graft r (f r.name) rest else rest ]

-- The forest below the node `n`, as far as the fuel goes; none where it ends too early.
unfoldable pub reading : RawTree → ℕ → Text → Option (Roses Entry)
unfolding read_rows
reading rows zero n = read_rows (λ m. none) n rows
reading rows (suc fuel) n = read_rows (λ m. reading rows fuel m) n rows

module _ (rows : RawTree) (whole : Bool) (f : Text → Option (Roses Entry)) (part : ℕ → Option Json)
    (parts : (i : ℕ) (r : Row Entry) (us : Roses Entry)
      → get_elem? rows i ≡ some r
      → f r.name ≡ some us
      → part i ≡ some (component_json whole r.parent (node r.name r.payload us))) where
  read_cons :
      (g : Bool) (n : Text) (i : ℕ) (r : Row Entry) (is : List ℕ) (us ts : Roses Entry)
      → r.parent ≡ some n
      → part i ≡ some (component_json whole r.parent (node r.name r.payload us))
      → collect_items part is ≡ some (items_of g whole (some n) ts)
      → collect_items part (if same_kind g (is_group r.payload.dtype) then i ∷ is else is)
        ≡ some (items_of g whole (some n) (cons (node r.name r.payload us) ts))
  unfolding items_of kind_at
  read_cons g n i r is us ts q e rest =
      let at_n = ap (λ x. component_json whole x (node r.name r.payload us)) q in
      elim (Bool-cases (same_kind g (is_group r.payload.dtype))) [
        | inl k ↦ ground (arith, k, e, rest, at_n)
        | inr k ↦ ground (arith, k, rest)
      ]

  of_kind-cons :
      (g : Bool) (n : Text) (i : ℕ) (r : Row Entry) (seg : RawTree) (b : Bool)
      → text_eq (parent_key r.parent) n ≡ b
      → of_kind g n i (r ∷ seg) ≡ (
          if b
          then (if same_kind g (is_group r.payload.dtype)
              then i ∷ of_kind g n (suc i) seg
              else of_kind g n (suc i) seg)
          else of_kind g n (suc i) seg)
  unfolding of_kind
  of_kind-cons g n i r seg b e = ground (arith, e)

  pub read_items :
      (g : Bool) (n : Text) (i : ℕ) (seg : RawTree) (ts : Roses Entry)
      → IsSegment (λ j. get_elem? rows j) i seg
      → read_rows f n seg ≡ some ts
      → collect_items part (of_kind g n i seg) ≡ some (items_of g whole (some n) ts)
  unfolding read_rows
  read_items g n i [] ts s h =
      let e : nil ≡ ts = cc in
      unfold of_kind items_of in ap (λ t. some (items_of g whole (some n) t)) e
  read_items g n i (r ∷ seg) ts s h =
      let next = λ (us : Roses Entry) (e : read_rows f n seg ≡ some us).
        read_items g n (suc i) seg us (IsSegment-tail (λ j. get_elem? rows j) i r seg s) e in
      elim (Option-cases r.parent) [
        | inl e ↦ ground (arith, e, h)
        | inr (m, e) ↦
            let named : text_eq (parent_key r.parent) n ≡ text_eq m n =
              ap (λ q. text_eq (parent_key q) n) e in
            elim (Bool-cases (text_eq m n)) [
              | inr t ↦
                  ap (collect_items part) (of_kind-cons g n i r seg false (named ∙ t))
                  ∙ next ts (ground (arith, e, t, h))
              | inl t ↦ elim (Option-cases (f r.name)) [
                | inl u ↦ ground (arith, e, t, u, h)
                | inr (us, u) ↦ elim (Option-cases (read_rows f n seg)) [
                  | inl v ↦ ground (arith, e, t, u, v, h)
                  | inr (vs, v) ↦
                      let whole_forest : cons (node r.name r.payload us) vs ≡ ts =
                        ground (arith, e, t, u, v, h) in
                      ap (collect_items part) (of_kind-cons g n i r seg true (named ∙ t))
                      ∙ read_cons g n i r (of_kind g n (suc i) seg) us vs
                          (e ∙ ap some (text_eq_sound m n t))
                          (parts i r us (IsSegment-head (λ j. get_elem? rows j) i r seg s) u)
                          (next vs v)
                      ∙ ap (λ x. some (items_of g whole (some n) x)) whole_forest
                ]
              ]
            ]
      ]
