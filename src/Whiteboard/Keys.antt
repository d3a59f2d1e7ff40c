-- ===== src/Whiteboard/Keys.antt =====
-- The key by which `deleteNode` groups the nodes: the first two parts of an id, run together.
use product_private_paas.Common.{
  Text, codes, ◌≡◌, refl, ap, Bool, true, false, Option, none, some, [], ◌∷◌, ◌++◌, arith, eqb,
  if◌then◌else◌, Bool-cases, inl, inr,
}
use product_private_paas.Whiteboard.{dash}

-- `id.split("-")[0]`
unfoldable pub before_dash : Text → Text
before_dash [] = []
before_dash (c ∷ cs) = let rest = before_dash cs in if eqb c 45 then [] else c ∷ rest

-- What stands behind the first dash, if there is one.
unfoldable pub after_dash : Text → Option Text
after_dash [] = none
after_dash (c ∷ cs) = let rest = after_dash cs in if eqb c 45 then some cs else rest

-- `id.split("-")[0] + id.split("-")[1]`; a part that is not there reads "undefined".
unfoldable pub key : Text → Text
unfolding before_dash after_dash
key id =
    before_dash id ++ (elim (after_dash id) [ none ↦ codes "undefined" | some r ↦ before_dash r ])

abbrev pub has_dash : Text → Bool
has_dash id = elim (after_dash id) [ none ↦ false | some r ↦ true ]

pub before_dash-dash : (x n : Text) → before_dash (dash x n) ≡ before_dash x
unfolding before_dash
before_dash-dash [] n = refl
before_dash-dash (c ∷ x) n = ground (arith, before_dash-dash x n)

pub after_dash-dash :
    (x n r : Text) → after_dash x ≡ some r → after_dash (dash x n) ≡ some (dash r n)
unfolding after_dash
after_dash-dash [] n r h = cc
after_dash-dash (c ∷ x) n r h = elim (Bool-cases (eqb c 45)) [
  | inl e ↦
      let same : x ≡ r = ground (arith, e) in ground (arith, e, ap (λ y. some (dash y n)) same)
  | inr e ↦ ground (arith, e, after_dash-dash x n r)
]

pub after_dash-dash_absent : (x n : Text) → after_dash x ≡ none → after_dash (dash x n) ≡ some n
unfolding after_dash
after_dash-dash_absent [] n h = refl
after_dash-dash_absent (c ∷ x) n h = elim (Bool-cases (eqb c 45)) [
  | inl e ↦ ground (arith, e)
  | inr e ↦ ground (arith, e, after_dash-dash_absent x n)
]

pub before_dash_absent : (x : Text) → after_dash x ≡ none → before_dash x ≡ x
unfolding before_dash after_dash
before_dash_absent [] h = refl
before_dash_absent (c ∷ x) h = elim (Bool-cases (eqb c 45)) [
  | inl e ↦ ground (arith, e)
  | inr e ↦ ground (arith, e, before_dash_absent x)
]

-- Nodes below a node have its key.
pub key-below : (x n r : Text) → after_dash x ≡ some r → key (dash x n) ≡ key x
unfolding key
key-below x n r h =
    ground (arith, h, after_dash-dash x n r h, before_dash-dash x n, before_dash-dash r n)

-- The key of a node that stands on its own.
pub key-root :
    (counter n : Text) → after_dash counter ≡ none → key (dash counter n) ≡ counter ++ before_dash n
unfolding key
key-root counter n h = ground (
  arith,
  after_dash-dash_absent counter n h,
  before_dash-dash counter n,
  before_dash_absent counter h,
)
