-- ===== src/Forms/Linked.antt =====
-- Pages on which no two connections lead to the same node, and what is drawn on them.
pub mod Dragged
pub mod Left
use product_private_paas.Common.{
  ℕ, zero, suc, ◌<◌, Text, text_eq, text_eq_iff, mem, mem-append, mem-insert, distinct,
  distinct-insert, distinct_of_insert, count, not_mem_of_count, ◌≡◌, refl, sym, ap, subst, ◌∙◌,
  Bool, true, false, ◌&&◌, ◌||◌, some, List, [], ◌∷◌, ◌++◌, arith, eqb, eqb_iff, get_elem?,
  Bool-cases, inl, inr,
}
use product_private_paas.Export.{Connection}
use product_private_paas.Forms.Clicks.{node_ids}
use product_private_paas.Forms.Prefixes.{distinct_of_append}
use product_private_paas.Whiteboard.{Node}
use product_private_paas.Whiteboard.Keys.{key}
use product_private_paas.Whiteboard.Open.{open_ends, open_ends-append}
use product_private_paas.Whiteboard.Ends.{elements, elements-append}
use product_private_paas.Whiteboard.Plumbing.{End}
use product_private_paas.Whiteboard.Removal.{others, ids_with, without_all}
use product_private_paas.Whiteboard.Targets.{sources, sources-append, targets, targets-append}

-- Every endpoint takes one connection at most.
unfoldable pub are_single : List End → Bool
are_single [] = true
are_single (e ∷ es) = eqb e.options.max_connections 1 && are_single es

are_single-append :
    (es fs : List End) → are_single es ≡ true → are_single fs ≡ true → are_single (es ++ fs) ≡ true
unfolding are_single
are_single-append [] fs a b = b
are_single-append (e ∷ es) fs a b = ground (arith, a, b, are_single-append es fs)

-- The ids of a page's nodes, its connections and its endpoints.
pub record Linked (base : Text) (ids : List Text) (cs : List Connection) (es : List End)
    : Type 0 where
  pub targets_apart : distinct (targets cs) ≡ true
  pub targets_known : (x : Text) → mem x (targets cs) ≡ true → mem x ids ≡ true
  pub sources_known : (x : Text) → mem x (sources cs) ≡ true → mem x ids ≡ true
  pub base_free : mem base (targets cs) ≡ false
  pub ends_known : (x : Text) → mem x (elements es) ≡ true → mem x ids ≡ true
  pub base_closed : mem base (elements (open_ends es)) ≡ false
  pub ends_single : are_single (open_ends es) ≡ true

pub mem-open_ends :
    (x : Text) (es : List End) → mem x (elements (open_ends es)) ≡ true → mem x (elements es) ≡ true
unfolding open_ends mem
mem-open_ends x [] m = m
mem-open_ends x (e ∷ es) m = ground (arith, m, mem-open_ends x es)

mem_of_append :
    (x : Text) (xs ys zs ws : List Text)
    → (mem x xs ≡ true → mem x zs ≡ true)
    → (mem x ys ≡ true → mem x ws ≡ true)
    → mem x (xs ++ ys) ≡ true
    → mem x (zs ++ ws) ≡ true
mem_of_append x xs ys zs ws f g m = elim (Bool-cases (mem x xs)) [
  | inl e ↦ ground (arith, f e, mem-append x zs ws)
  | inr e ↦ ground (arith, g (ground (arith, e, m, mem-append x xs ys)), mem-append x zs ws)
]

-- Nodes, connections and endpoints are added.
pub Linked-append :
    (base : Text) (ids new : List Text) (cs ds : List Connection) (es gs : List End)
    → distinct (targets ds) ≡ true
    → ((x : Text) → mem x (targets ds) ≡ true → mem x ids ≡ false)
    → ((x : Text) → mem x (targets ds) ≡ true → mem x new ≡ true)
    → ((x : Text) → mem x (sources ds) ≡ true → mem x new ≡ true)
    → ((x : Text) → mem x (elements gs) ≡ true → mem x new ≡ true)
    → mem base new ≡ false
    → are_single (open_ends gs) ≡ true
    → Linked base ids cs es
    → Linked base (ids ++ new) (cs ++ ds) (es ++ gs)
Linked-append base ids new cs ds es gs d fresh known starts ends b one l =
    let absent : (xs : List Text)
        → ((x : Text) → mem x xs ≡ true → mem x new ≡ true)
        → mem base xs ≡ false =
      λ xs h. elim (Bool-cases (mem base xs)) [ inl m ↦ cc (h base m, b) | inr m ↦ m ] in
    let outside : (x : Text) → mem x (targets ds) ≡ true → mem x (targets cs) ≡ false = λ x m.
      elim (Bool-cases (mem x (targets cs))) [
        | inl t ↦ cc (l.targets_known x t, fresh x m)
        | inr t ↦ t
      ] in
    let split = targets-append cs ds in
    let closed : mem base (elements (open_ends gs)) ≡ false =
      absent (elements (open_ends gs)) (λ x m. ends x (mem-open_ends x gs m)) in
    let both : elements (open_ends (es ++ gs))
        ≡ elements (open_ends es) ++ elements (open_ends gs) =
      ap elements (open_ends-append es gs) ∙ elements-append (open_ends es) (open_ends gs) in
    record {
      targets_apart =
          ap distinct split
          ∙ distinct_of_append (targets cs) (targets ds) l.targets_apart d outside;
      targets_known = λ x m.
          mem_of_append x (targets cs) (targets ds) ids new (l.targets_known x) (known x)
            (ap (mem x) (sym split) ∙ m);
      sources_known = λ x m.
          mem_of_append x (sources cs) (sources ds) ids new (l.sources_known x) (starts x)
            (ap (mem x) (sym (sources-append cs ds)) ∙ m);
      base_free =
          ap (mem base) split
          ∙ mem-append base (targets cs) (targets ds)
          ∙ ground (arith, l.base_free, absent (targets ds) known);
      ends_known = λ x m.
          mem_of_append x (elements es) (elements gs) ids new (l.ends_known x) (ends x)
            (ap (mem x) (sym (elements-append es gs)) ∙ m);
      base_closed =
          ap (mem base) both
          ∙ mem-append base (elements (open_ends es)) (elements (open_ends gs))
          ∙ ground (arith, l.base_closed, closed);
      ends_single =
          ap are_single (open_ends-append es gs)
          ∙ are_single-append (open_ends es) (open_ends gs) l.ends_single one;
    }

-- The same page.
pub Linked-transport :
    (base : Text) (ids ids' : List Text) (cs cs' : List Connection) (es es' : List End)
    → ids ≡ ids'
    → cs ≡ cs'
    → es ≡ es'
    → Linked base ids cs es
    → Linked base ids' cs' es'
Linked-transport base ids ids' cs cs' es es' a b e l =
    subst (λ fs. Linked base ids' cs' fs) e
      (subst (λ ks. Linked base ks cs' es) a (subst (λ ds. Linked base ids ds es) b l))
