-- ===== src/Forms/Linked/Left.antt =====
-- What stays of a page on which no two connections lead to the same node.
use product_private_paas.Common.{
  Text, text_eq, text_eq_iff, mem, distinct, ◌≡◌, refl, true, false, List, [], ◌∷◌, arith,
  Bool-cases, inl, inr,
}
use product_private_paas.Export.{Connection}
use product_private_paas.Forms.Clicks.{node_ids}
use product_private_paas.Whiteboard.{Node}
use product_private_paas.Whiteboard.Open.{open_ends}
use product_private_paas.Whiteboard.Plumbing.{End}
use product_private_paas.Whiteboard.Removal.{others, ids_with, without_all, ends_outside}
use product_private_paas.Whiteboard.Targets.{sources, targets}
use product_private_paas.Whiteboard.Ends.{elements}
use product_private_paas.Forms.Linked.{Linked, are_single}

-- A node with another key stays.
kept-others :
    (x k : Text) (ns : List Node)
    → mem x (node_ids ns) ≡ true
    → mem x (ids_with k ns) ≡ false
    → mem x (node_ids (others k ns)) ≡ true
unfolding others ids_with mem
kept-others x k [] m h = cc m
kept-others x k (n ∷ ns) m h = elim (Bool-cases (text_eq x n.id)) [
  | inl e ↦ ground (arith, e, h)
  | inr e ↦ ground (arith, e, m, h, kept-others x k ns)
]

mem-targets_left :
    (x : Text) (gone : List Text) (cs : List Connection)
    → mem x (targets (without_all gone cs)) ≡ true
    → (mem x (targets cs) ≡ true) × (mem x gone ≡ false)
unfolding without_all mem
mem-targets_left x gone [] m = cc m
mem-targets_left x gone (c ∷ cs) m = elim (Bool-cases (mem x (targets (without_all gone cs)))) [
  | inl e ↦ let (old, stays) = mem-targets_left x gone cs e in (ground (arith, old), stays)
  | inr e ↦ (ground (arith, e, m), ground (arith, e, m, text_eq_iff x c.target_id))
]

distinct-targets_left :
    (gone : List Text) (cs : List Connection)
    → distinct (targets cs) ≡ true
    → distinct (targets (without_all gone cs)) ≡ true
unfolding without_all distinct
distinct-targets_left gone [] d = refl
distinct-targets_left gone (c ∷ cs) d =
    elim (Bool-cases (mem c.target_id (targets (without_all gone cs)))) [
      | inl e ↦ let (old, stays) = mem-targets_left c.target_id gone cs e in ground (arith, d, old)
      | inr e ↦ ground (arith, d, e, distinct-targets_left gone cs)
    ]

mem-sources_left :
    (x : Text) (gone : List Text) (cs : List Connection)
    → mem x (sources (without_all gone cs)) ≡ true
    → (mem x (sources cs) ≡ true) × (mem x gone ≡ false)
unfolding without_all mem
mem-sources_left x gone [] m = cc m
mem-sources_left x gone (c ∷ cs) m = elim (Bool-cases (mem x (sources (without_all gone cs)))) [
  | inl e ↦ let (old, stays) = mem-sources_left x gone cs e in (ground (arith, old), stays)
  | inr e ↦ (ground (arith, e, m), ground (arith, e, m, text_eq_iff x c.source_id))
]

mem-elements_left :
    (x : Text) (gone : List Text) (es : List End)
    → mem x (elements (ends_outside gone es)) ≡ true
    → (mem x (elements es) ≡ true) × (mem x gone ≡ false)
unfolding ends_outside mem
mem-elements_left x gone [] m = cc m
mem-elements_left x gone (e ∷ es) m = elim (Bool-cases (mem x (elements (ends_outside gone es)))) [
  | inl old ↦ let (o, stays) = mem-elements_left x gone es old in (ground (arith, o), stays)
  | inr new ↦ (ground (arith, new, m), ground (arith, new, m, text_eq_iff x e.element))
]

-- No further endpoint is a target.
mem-open_left :
    (x : Text) (gone : List Text) (es : List End)
    → mem x (elements (open_ends es)) ≡ false
    → mem x (elements (open_ends (ends_outside gone es))) ≡ false
unfolding open_ends ends_outside mem
mem-open_left x gone [] m = m
mem-open_left x gone (e ∷ es) m = ground (arith, m, mem-open_left x gone es)

are_single-ends_outside :
    (gone : List Text) (es : List End)
    → are_single (open_ends es) ≡ true
    → are_single (open_ends (ends_outside gone es)) ≡ true
unfolding open_ends ends_outside are_single
are_single-ends_outside gone [] s = refl
are_single-ends_outside gone (e ∷ es) s = ground (arith, s, are_single-ends_outside gone es)

pub Linked-others :
    (base k : Text) (ns : List Node) (cs : List Connection) (es : List End)
    → Linked base (node_ids ns) cs es
    → Linked base
        (node_ids (others k ns))
        (without_all (ids_with k ns) cs)
        (ends_outside (ids_with k ns) es)
Linked-others base k ns cs es l = record {
  targets_apart = distinct-targets_left (ids_with k ns) cs l.targets_apart;
  targets_known = λ x m.
      let (old, stays) = mem-targets_left x (ids_with k ns) cs m in
      kept-others x k ns (l.targets_known x old) stays;
  base_free = elim (Bool-cases (mem base (targets (without_all (ids_with k ns) cs)))) [
    | inl m ↦ cc ((mem-targets_left base (ids_with k ns) cs m).0, l.base_free)
    | inr m ↦ m
  ];
  sources_known = λ x m.
      let (old, stays) = mem-sources_left x (ids_with k ns) cs m in
      kept-others x k ns (l.sources_known x old) stays;
  ends_known = λ x m.
      let (old, stays) = mem-elements_left x (ids_with k ns) es m in
      kept-others x k ns (l.ends_known x old) stays;
  base_closed = mem-open_left base (ids_with k ns) es l.base_closed;
  ends_single = are_single-ends_outside (ids_with k ns) es l.ends_single;
}
