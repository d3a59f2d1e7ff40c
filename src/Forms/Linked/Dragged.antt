-- ===== src/Forms/Linked/Dragged.antt =====
-- Connections by hand, on a page on which no two connections lead to the same node.
use product_private_paas.Common.{
  ℕ, zero, suc, ◌<◌, Text, text_eq, text_eq_iff, mem, mem-insert, distinct, distinct-insert,
  distinct_of_insert, count, not_mem_of_count, ◌≡◌, sym, ap, ◌∙◌, true, false, ◌||◌, some, List, [],
  ◌∷◌, ◌++◌, arith, eqb_iff, get_elem?, Bool-cases, inl, inr,
}
use product_private_paas.Export.{Connection}
use product_private_paas.Whiteboard.Open.{open_ends}
use product_private_paas.Whiteboard.Plumbing.{End}
use product_private_paas.Whiteboard.Targets.{sources, sources-append, targets, targets-append}
use product_private_paas.Whiteboard.Ends.{elements}
use product_private_paas.Forms.Linked.{Linked, mem-open_ends, are_single}

-- An endpoint that is a target is one of the open ends.
open_end-known :
    (es : List End) (j : ℕ) (e : End)
    → get_elem? es j ≡ some e
    → e.options.is_target ≡ true
    → are_single (open_ends es) ≡ true
    → (mem e.element (elements (open_ends es)) ≡ true) × (e.options.max_connections ≡ 1)
unfolding open_ends mem are_single
open_end-known [] j e at_j t s = cc at_j
open_end-known (f ∷ es) zero e at_j t s =
    let same : f ≡ e = cc at_j in
    let ids : f.element ≡ e.element = ap (λ (x : End). x.element) same in
    let opts : f.options ≡ e.options = ap (λ (x : End). x.options) same in
    (
      ground (arith, t, opts, ids, text_eq_iff e.element f.element),
      ground (arith, t, opts, s, eqb_iff f.options.max_connections 1),
    )
open_end-known (f ∷ es) (suc j) e at_j t s =
    let (m, one) = open_end-known es j e at_j t (ground (arith, s)) in (ground (arith, m), one)

mem-targets_insert :
    (x : Text) (c : Connection) (xs ys : List Connection)
    → mem x (targets (xs ++ c ∷ ys)) ≡ (text_eq x c.target_id || mem x (targets (xs ++ ys)))
mem-targets_insert x c xs ys =
    ap (mem x) (targets-append xs (c ∷ ys))
    ∙ mem-insert x c.target_id (targets xs) (targets ys)
    ∙ ap (λ ts. text_eq x c.target_id || mem x ts) (sym (targets-append xs ys))

mem-sources_insert :
    (x : Text) (c : Connection) (xs ys : List Connection)
    → mem x (sources (xs ++ c ∷ ys)) ≡ (text_eq x c.source_id || mem x (sources (xs ++ ys)))
mem-sources_insert x c xs ys =
    ap (mem x) (sources-append xs (c ∷ ys))
    ∙ mem-insert x c.source_id (sources xs) (sources ys)
    ∙ ap (λ ts. text_eq x c.source_id || mem x ts) (sym (sources-append xs ys))

pub mem-elements :
    (es : List End) (i : ℕ) (e : End) → get_elem? es i ≡ some e → mem e.element (elements es) ≡ true
unfolding mem
mem-elements [] i e at_i = cc at_i
mem-elements (f ∷ es) zero e at_i =
    let same : f ≡ e = cc at_i in
    ground (arith, ap (λ (x : End). x.element) same, text_eq_iff e.element f.element)
mem-elements (f ∷ es) (suc i) e at_i = ground (arith, mem-elements es i e at_i)

pub Linked-attach :
    (base : Text) (ids : List Text) (xs ys : List Connection) (c : Connection) (es : List End)
    (j : ℕ) (to : End)
    → get_elem? es j ≡ some to
    → to.options.is_target ≡ true
    → c.target_id ≡ to.element
    → mem c.source_id (elements es) ≡ true
    → count to.element (targets (xs ++ ys)) < to.options.max_connections
    → Linked base ids (xs ++ ys) es
    → Linked base ids (xs ++ c ∷ ys) es
Linked-attach base ids xs ys c es j to at_j t named start few l =
    let (is_open, one) = open_end-known es j to at_j t l.ends_single in
    let absent : mem to.element (targets (xs ++ ys)) ≡ false =
      not_mem_of_count to.element (targets (xs ++ ys)) (omega (arith, one, few)) in
    let split = targets-append xs (c ∷ ys) ∙ ap (λ k. targets xs ++ k ∷ targets ys) named in
    let old = targets-append xs ys in
    let inserted : (x : Text)
        → mem x (targets (xs ++ c ∷ ys)) ≡ (text_eq x to.element || mem x (targets (xs ++ ys))) =
      λ x.
        mem-targets_insert x c xs ys ∙ ap (λ k. text_eq x k || mem x (targets (xs ++ ys))) named in
    record {
      targets_apart =
          ap distinct split
          ∙ distinct-insert to.element (targets xs) (targets ys)
              (ap distinct (sym old) ∙ l.targets_apart) (ap (mem to.element) (sym old) ∙ absent);
      ends_known = l.ends_known;
      base_closed = l.base_closed;
      ends_single = l.ends_single;
      targets_known = λ x m. elim (Bool-cases (text_eq x to.element)) [
        | inl e ↦
            l.ends_known x
              (mem-open_ends x es (ground (arith, e, is_open, text_eq_iff x to.element)))
        | inr e ↦ l.targets_known x (ground (arith, e, m, inserted x))
      ];
      sources_known = λ x m. elim (Bool-cases (text_eq x c.source_id)) [
        | inl e ↦ l.ends_known x (ground (arith, e, start, text_eq_iff x c.source_id))
        | inr e ↦ l.sources_known x (ground (arith, e, m, mem-sources_insert x c xs ys))
      ];
      base_free = elim (Bool-cases (text_eq base to.element)) [
        | inl e ↦ cc (l.base_closed, is_open, (text_eq_iff base to.element).0 e)
        | inr e ↦ ground (arith, e, l.base_free, inserted base)
      ];
    }

pub Linked-detach :
    (base : Text) (ids : List Text) (xs ys : List Connection) (c : Connection) (es : List End)
    → Linked base ids (xs ++ c ∷ ys) es
    → Linked base ids (xs ++ ys) es
Linked-detach base ids xs ys c es l =
    let split = targets-append xs (c ∷ ys) in
    let left = targets-append xs ys in
    record {
      targets_apart =
          ap distinct left
          ∙ distinct_of_insert c.target_id (targets xs) (targets ys)
              (ap distinct (sym split) ∙ l.targets_apart);
      ends_known = l.ends_known;
      base_closed = l.base_closed;
      ends_single = l.ends_single;
      targets_known = λ x m. l.targets_known x (ground (arith, m, mem-targets_insert x c xs ys));
      sources_known = λ x m. l.sources_known x (ground (arith, m, mem-sources_insert x c xs ys));
      base_free = ground (arith, l.base_free, mem-targets_insert base c xs ys);
    }
