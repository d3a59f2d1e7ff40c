-- ===== src/Whiteboard/Ends.antt =====
-- The endpoints that the rows of a drawn group have.
use product_private_paas.Common.{
  Text, mem, mem-append, ◌≡◌, refl, sym, ap, ◌∙◌, true, Option, none, some, List, [], ◌∷◌, ◌++◌,
  arith, append_assoc, Bool-cases, inl, inr,
}
use product_private_paas.Forest.{Row, names_of}
use product_private_paas.GroupTree.{NodeType, groups, cartridges}
use product_private_paas.Whiteboard.Paths.{Shape}
use product_private_paas.Whiteboard.Plumbing.{
  End, EndpointOptions, bottom_connector_options, group_options,
  generated_cartridge_endpoint_options, generated_group_options,
}

abbrev pub end_of : EndpointOptions → Text → End
end_of options id = record { element = id; options = options }

-- A cartridge has one endpoint and a group two; only the node without a parent is a target.
abbrev pub ends_at : NodeType → Option Text → Text → List End
ends_at cartridges parent id = end_of generated_cartridge_endpoint_options id ∷ []
ends_at groups (some parent) id =
    end_of bottom_connector_options id ∷ end_of generated_group_options id ∷ []
ends_at groups none id = end_of bottom_connector_options id ∷ end_of group_options id ∷ []

unfoldable pub ends_of : List (Row (Shape NodeType)) → List End
ends_of [] = []
ends_of (r ∷ rows) = ends_at r.payload.kind r.parent r.name ++ ends_of rows

pub ends_of-append :
    (xs ys : List (Row (Shape NodeType))) → ends_of (xs ++ ys) ≡ ends_of xs ++ ends_of ys
unfolding ends_of
ends_of-append [] ys = refl
ends_of-append (r ∷ xs) ys =
    ap (λ es. ends_at r.payload.kind r.parent r.name ++ es) (ends_of-append xs ys)
    ∙ sym (append_assoc (ends_at r.payload.kind r.parent r.name) (ends_of xs) (ends_of ys))

abbrev pub elements : List End → List Text
elements [] = []
elements (e ∷ es) = e.element ∷ elements es

pub elements-append : (es fs : List End) → elements (es ++ fs) ≡ elements es ++ elements fs
elements-append [] fs = refl
elements-append (e ∷ es) fs = ap (λ l. e.element ∷ l) (elements-append es fs)

mem-ends_at :
    (x : Text) (kind : NodeType) (parent : Option Text) (id : Text)
    → mem x (elements (ends_at kind parent id)) ≡ true
    → mem x (id ∷ []) ≡ true
unfolding mem
mem-ends_at x cartridges parent id m = m
mem-ends_at x groups (some parent) id m = ground (arith, m)
mem-ends_at x groups none id m = ground (arith, m)

-- The endpoints are on the rows.
pub mem-ends_of :
    (x : Text) (rows : List (Row (Shape NodeType)))
    → mem x (elements (ends_of rows)) ≡ true
    → mem x (names_of rows) ≡ true
unfolding ends_of mem
mem-ends_of x [] m = cc m
mem-ends_of x (r ∷ rows) m =
    let own = ends_at r.payload.kind r.parent r.name in
    let both : mem x (elements own ++ elements (ends_of rows)) ≡ true =
      ap (mem x) (sym (elements-append own (ends_of rows))) ∙ m in
    elim (Bool-cases (mem x (elements own))) [
      | inl e ↦ ground (arith, mem-ends_at x r.payload.kind r.parent r.name e)
      | inr e ↦ ground (
        arith,
        mem-ends_of x rows
            (ground (arith, both, e, mem-append x (elements own) (elements (ends_of rows)))),
      )
    ]
