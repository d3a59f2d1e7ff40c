-- ===== src/Export/Pick.antt =====
-- The nodes of a kind below a parent, from where the nodes of a forest lie among the entries.
use product_private_paas.Common.{
  ℕ, suc, Text, text_eq, ◌≡◌, refl, ap, Bool, false, Option, none, some, List, [], ◌∷◌, arith,
  if◌then◌else◌, Bool-cases, inl, inr,
}
use product_private_paas.Forest.{Row, parent_key}
use product_private_paas.Forest.Attach.{named}
use product_private_paas.Forest.Segments.{IsSegment, IsSegment-head, IsSegment-tail}
use product_private_paas.Export.{Entry, RawTree, is_group}
use product_private_paas.Export.Merge.{same_kind, of_kind}

-- Is the entry at a place of the kind?
unfoldable pub kind_at : Bool → Option (Row Entry) → Bool
kind_at g none = false
kind_at g (some r) = same_kind g (is_group r.payload.dtype)

unfoldable pub pick : Bool → (ℕ → Option (Row Entry)) → List ℕ → List ℕ
pick g rows [] = []
pick g rows (i ∷ is) = let rest = pick g rows is in if kind_at g (rows i) then i ∷ rest else rest

pub of_kind-pick :
    (g : Bool) (n : Text) (rows : ℕ → Option (Row Entry)) (i : ℕ) (seg : RawTree)
    → IsSegment rows i seg
    → of_kind g n i seg ≡ pick g rows (named n i seg)
unfolding of_kind named pick kind_at
of_kind-pick g n rows i [] s = refl
of_kind-pick g n rows i (r ∷ seg) s =
    let here = IsSegment-head rows i r seg s in
    let rest = of_kind-pick g n rows (suc i) seg (IsSegment-tail rows i r seg s) in
    let kind = ap (kind_at g) here in
    elim (Bool-cases (text_eq (parent_key r.parent) n)) [
      | inl e ↦ rw e (ground (arith, rest, kind))
      | inr e ↦ rw e rest
    ]
