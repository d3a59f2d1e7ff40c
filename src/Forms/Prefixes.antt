-- ===== src/Forms/Prefixes.antt =====
-- The first parts of ids, and lists of ids without repetition.
use product_private_paas.Common.{
  Text, text_eq, text_eq_sound, text_eq_complete, text_eq_refl, mem, distinct, mem-append, ◌≡◌,
  refl, ap, ◌∙◌, subst, Bool, true, false, ◌&&◌, ◌||◌, Option, some, List, [], ◌∷◌, ◌++◌, map,
  arith, Bool-cases, inl, inr,
}
use product_private_paas.Forest.{Row}
use product_private_paas.Forest.Layout.{flatten, flatten_all}
use product_private_paas.Forest.Trees.{Rose, Roses, node, nil, cons}
use product_private_paas.Forms.Clicks.{node_ids}
use product_private_paas.GroupTree.{NodeType}
use product_private_paas.Whiteboard.{Node, dash}
use product_private_paas.Whiteboard.Keys.{before_dash, before_dash-dash}
use product_private_paas.Whiteboard.Paths.{Shape, paths, paths_all, row_node}
use product_private_paas.Whiteboard.Removal.{others}

-- All texts start with the first part, before the first dash.
unfoldable pub begin_with : Text → List Text → Bool
begin_with k [] = true
begin_with k (x ∷ xs) = text_eq (before_dash x) k && begin_with k xs

begin_with-append :
    (k : Text) (xs ys : List Text) → begin_with k (xs ++ ys) ≡ (begin_with k xs && begin_with k ys)
unfolding begin_with
begin_with-append k [] ys = refl
begin_with-append k (x ∷ xs) ys = ground (arith, begin_with-append k xs ys)

pub begin_with_cons :
    (k x : Text) (xs : List Text)
    → before_dash x ≡ k
    → begin_with k xs ≡ true
    → begin_with k (x ∷ xs) ≡ true
unfolding begin_with
begin_with_cons k x xs e h =
    ap (λ b. b && begin_with k xs) (text_eq_complete (before_dash x) k e) ∙ h

pub mem-begin_with :
    (k x : Text) (xs : List Text) → begin_with k xs ≡ true → mem x xs ≡ true → before_dash x ≡ k
unfolding begin_with mem
mem-begin_with k x [] b m = cc m
mem-begin_with k x (y ∷ xs) b m = elim (Bool-cases (text_eq x y)) [
  | inl e ↦
      ap before_dash (text_eq_sound x y e) ∙ text_eq_sound (before_dash y) k (ground (arith, b))
  | inr e ↦ mem-begin_with k x xs (ground (arith, b)) (ground (arith, m, e))
]

pub node_ids-append : (xs ys : List Node) → node_ids (xs ++ ys) ≡ node_ids xs ++ node_ids ys
node_ids-append [] ys = refl
node_ids-append (n ∷ xs) ys = ap (λ l. n.id ∷ l) (node_ids-append xs ys)

abbrev pub row_ids : List (Row (Shape NodeType)) → List Text
row_ids rows = node_ids (map row_node rows)

row_ids-append :
    (xs ys : List (Row (Shape NodeType))) → row_ids (xs ++ ys) ≡ row_ids xs ++ row_ids ys
row_ids-append [] ys = refl
row_ids-append (r ∷ xs) ys = ap (λ l. r.name ∷ l) (row_ids-append xs ys)

mutual
  unfolding flatten paths begin_with

  pub begin_with-tree :
      (x : Text) (q : Option Text) (t : Rose NodeType)
      → begin_with (before_dash x) (row_ids (flatten q (paths x t))) ≡ true
  begin_with-tree x q (node n a ts) =
      begin_with_cons (before_dash x) (dash x n)
        (row_ids (flatten_all (some (dash x n)) (paths_all (dash x n) ts))) (before_dash-dash x n)
        (subst
          (λ k.
            begin_with k (row_ids (flatten_all (some (dash x n)) (paths_all (dash x n) ts))) ≡ true)
          (before_dash-dash x n) (begin_with-trees (dash x n) (some (dash x n)) ts))

  begin_with-trees :
      (x : Text) (q : Option Text) (ts : Roses NodeType)
      → begin_with (before_dash x) (row_ids (flatten_all q (paths_all x ts))) ≡ true
  begin_with-trees x q nil = refl
  begin_with-trees x q (cons t ts) =
      ap (begin_with (before_dash x))
        (row_ids-append (flatten q (paths x t)) (flatten_all q (paths_all x ts)))
      ∙ begin_with-append (before_dash x) (row_ids (flatten q (paths x t)))
          (row_ids (flatten_all q (paths_all x ts)))
      ∙ ap (λ b. b && begin_with (before_dash x) (row_ids (flatten_all q (paths_all x ts))))
          (begin_with-tree x q t)
      ∙ begin_with-trees x q ts

pub mem-others :
    (x k : Text) (ns : List Node)
    → mem x (node_ids ns) ≡ false
    → mem x (node_ids (others k ns)) ≡ false
unfolding others mem
mem-others x k [] h = refl
mem-others x k (n ∷ ns) h = ground (arith, h, mem-others x k ns)

pub distinct-others :
    (k : Text) (ns : List Node)
    → distinct (node_ids ns) ≡ true
    → distinct (node_ids (others k ns)) ≡ true
unfolding others distinct
distinct-others k [] h = refl
distinct-others k (n ∷ ns) h = ground (arith, h, mem-others n.id k ns, distinct-others k ns)

fresh_of_apart :
    (x : Text) (xs ys : List Text)
    → ((k : Text) → mem k ys ≡ true → mem k (x ∷ xs) ≡ false)
    → mem x ys ≡ false
unfolding mem
fresh_of_apart x xs ys h = elim (Bool-cases (mem x ys)) [
  | inl m ↦ let no : (text_eq x x || mem x xs) ≡ false = h x m in ground (arith, no, text_eq_refl x)
  | inr m ↦ m
]

apart_tail :
    (x : Text) (xs ys : List Text)
    → ((k : Text) → mem k ys ≡ true → mem k (x ∷ xs) ≡ false)
    → (k : Text) → mem k ys ≡ true
    → mem k xs ≡ false
unfolding mem
apart_tail x xs ys h k m = let no : (text_eq k x || mem k xs) ≡ false = h k m in ground (arith, no)

pub distinct_of_append :
    (xs ys : List Text)
    → distinct xs ≡ true
    → distinct ys ≡ true
    → ((k : Text) → mem k ys ≡ true → mem k xs ≡ false)
    → distinct (xs ++ ys) ≡ true
unfolding distinct
distinct_of_append [] ys dx dy h = dy
distinct_of_append (x ∷ xs) ys dx dy h =
    let rest = distinct_of_append xs ys (ground (arith, dx)) dy (apart_tail x xs ys h) in
    let fresh = fresh_of_apart x xs ys h in ground (arith, dx, rest, fresh, mem-append x xs ys)

pub mem_of_others :
    (x k : Text) (ns : List Node)
    → mem x (node_ids (others k ns)) ≡ true
    → mem x (node_ids ns) ≡ true
mem_of_others x k ns m = elim (Bool-cases (mem x (node_ids ns))) [
  | inl h ↦ h
  | inr h ↦ cc (mem-others x k ns h, m)
]
