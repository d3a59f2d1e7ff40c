-- ===== src/Theme/Registry.antt =====
-- What `register` leaves in the table of partials.
use product_private_paas.Common.{
  ◌-◌, Text, codes, text_eq, text_eq_sound, text_eq_refl, mem, ◌≡◌, refl, sym, ap, ◌∙◌, Bool, true,
  false, Option, none, some, List, [], ◌∷◌, ◌++◌, ◌&&◌, ◌||◌, arith, length, take, drop,
  take-length_append, drop-length_append, length-append, if◌then◌else◌, Bool-cases, inl, inr,
}
use product_private_paas.Json.{Fields}
use product_private_paas.Objects.{Object, get_key, put_key, get_key-put_key}
use product_private_paas.Export.{ok}
use product_private_paas.Renderers.{Partial, Page}
use product_private_paas.Renderers.Errors.{Renderer, render}
use product_private_paas.Theme.{
  FileTree, FileTrees, file, directory, no_files, add_file, file_name, extend, is_hbs_file,
  partial_name, register, register_all, partials,
}
use product_private_paas.Theme.Registered.{partial_files, names_in, areas_in, is_in, in-render}

abbrev pub or_else {ℓ} : {A : Type ℓ} → Option A → Option A → Option A
or_else none o = o
or_else (some a) o = some a

or_else_assoc {ℓ} :
    {A : Type ℓ} (a b c : Option A) → or_else a (or_else b c) ≡ or_else (or_else a b) c
or_else_assoc none b c = refl
or_else_assoc (some a) b c = refl

or_else-if {ℓ} :
    {A : Type ℓ} (b : Bool) (a : A) (o : Option A)
    → (if b then some a else o) ≡ or_else (if b then some a else none) o
or_else-if true a o = refl
or_else-if false a o = refl

get_key-file :
    (k prefix c : Text) (b : Bool) (m : Object Text)
    → get_key k (if b then put_key (partial_name prefix) c m else m)
      ≡ or_else (get_key k (if b then put_key (partial_name prefix) c [] else [])) (get_key k m)
unfolding get_key
get_key-file k prefix c true m =
    let j : Text = partial_name prefix in
    get_key-put_key j k c m
    ∙ or_else-if (text_eq k j) c (get_key k m)
    ∙ ap (λ o. or_else o (get_key k m)) (sym (get_key-put_key j k c []))
get_key-file k prefix c false m = refl

mutual
  unfolding register get_key

  get_key-register :
      (k prefix : Text) (f : FileTree) (m : Object Text)
      → get_key k (register prefix f m) ≡ or_else (get_key k (register prefix f [])) (get_key k m)
  get_key-register k prefix (file n c) m = get_key-file k prefix c (is_hbs_file n) m
  get_key-register k prefix (directory n fs) m = get_key-register_all k prefix fs m

  get_key-register_all :
      (k prefix : Text) (fs : FileTrees) (m : Object Text)
      → get_key k (register_all prefix fs m)
        ≡ or_else (get_key k (register_all prefix fs [])) (get_key k m)
  get_key-register_all k prefix no_files m = refl
  get_key-register_all k prefix (add_file f fs) m =
      let p : Text = extend prefix (file_name f) in
      get_key-register_all k prefix fs (register p f m)
      ∙ ap (or_else (get_key k (register_all prefix fs []))) (get_key-register k p f m)
      ∙ or_else_assoc (get_key k (register_all prefix fs [])) (get_key k (register p f []))
          (get_key k m)
      ∙ ap (λ o. or_else o (get_key k m)) (sym (get_key-register_all k prefix fs (register p f [])))

-- A partial is the theme's own, if the theme has one of the name, and otherwise that of the theme that
-- it is made from.
pub own_partials :
    (k : Text) (parent own : FileTree)
    → get_key k (partials parent own)
      ≡ or_else (get_key k (register [] own [])) (get_key k (register [] parent []))
unfolding partials
own_partials k parent own = get_key-register k [] own (register [] parent [])

-- The theme's folder holds the file of the name with the ending.
unfoldable pub has_file : Text → FileTrees → Bool
has_file n no_files = false
has_file n (add_file (file m c) fs) = text_eq n m || has_file n fs
has_file n (add_file (directory m gs) fs) = has_file n fs

unfoldable pub has_files : List Text → FileTrees → Bool
unfolding has_file
has_files [] fs = true
has_files (n ∷ ns) fs = has_file (n ++ codes ".hbs") fs && has_files ns fs

abbrev is_some {ℓ} : {A : Type ℓ} → Option A → Bool
is_some none = false
is_some (some a) = true

-- The names under which partials are registered.
abbrev pub keys : Object Text → List Text
keys [] = []
keys ((k, c) ∷ m) = k ∷ keys m

mem-keys : (k : Text) (m : Object Text) → mem k (keys m) ≡ is_some (get_key k m)
unfolding mem get_key
mem-keys k [] = refl
mem-keys k ((j, c) ∷ m) = ground (arith, mem-keys k m)

length-hbs : (n : Text) → length (n ++ codes ".hbs") - 4 ≡ length n
length-hbs n = omega (arith, length-append n (codes ".hbs"))

is_hbs_file-hbs : (n : Text) → is_hbs_file (n ++ codes ".hbs") ≡ true
unfolding is_hbs_file
is_hbs_file-hbs n =
    ap (λ i. text_eq (drop i (n ++ codes ".hbs")) (codes ".hbs")) (length-hbs n)
    ∙ ap (λ t. text_eq t (codes ".hbs")) (drop-length_append n (codes ".hbs"))
    ∙ text_eq_refl (codes ".hbs")

partial_name-hbs : (n : Text) → partial_name (n ++ codes ".hbs") ≡ n
unfolding partial_name
partial_name-hbs n =
    ap (λ i. take i (n ++ codes ".hbs")) (length-hbs n) ∙ take-length_append n (codes ".hbs")

is_some-or_else {ℓ} :
    {A : Type ℓ} (a b : Option A) → is_some (or_else a b) ≡ (is_some a || is_some b)
is_some-or_else none b = refl
is_some-or_else (some a) b = refl

is_some-register_all :
    (k : Text) (fs : FileTrees) (m : Object Text)
    → is_some (get_key k (register_all [] fs m))
      ≡ (is_some (get_key k (register_all [] fs [])) || is_some (get_key k m))
is_some-register_all k fs m =
    ap is_some (get_key-register_all k [] fs m)
    ∙ is_some-or_else (get_key k (register_all [] fs [])) (get_key k m)

get_key-hbs :
    (n c : Text) (m : Object Text)
    → get_key n (register (n ++ codes ".hbs") (file (n ++ codes ".hbs") c) m) ≡ some c
unfolding register
get_key-hbs n c m =
    rw (is_hbs_file-hbs n, partial_name-hbs n, get_key-put_key n n c m, text_eq_refl n) refl

or_true : (b : Bool) → (b || true) ≡ true
or_true true = refl
or_true false = refl

register_all_hbs :
    (n j c : Text) (fs : FileTrees) (m : Object Text)
    → n ++ codes ".hbs" ≡ j
    → is_some (get_key n (register_all [] fs (register j (file j c) m))) ≡ true
register_all_hbs n j c fs m e =
    is_some-register_all n fs (register j (file j c) m)
    ∙ ap
        (λ i.
          is_some (get_key n (register_all [] fs []))
          || is_some (get_key n (register i (file i c) m)))
        (sym e)
    ∙ ap (λ o. is_some (get_key n (register_all [] fs [])) || is_some o) (get_key-hbs n c m)
    ∙ or_true (is_some (get_key n (register_all [] fs [])))

register_all_has :
    (n : Text) (fs : FileTrees) (m : Object Text)
    → has_file (n ++ codes ".hbs") fs ≡ true
    → is_some (get_key n (register_all [] fs m)) ≡ true
unfolding has_file register
register_all_has n no_files m h = cc h
register_all_has n (add_file (directory d gs) fs) m h =
    register_all_has n fs (register_all (extend [] d) gs m) h
register_all_has n (add_file (file j c) fs) m h =
    elim (Bool-cases (text_eq (n ++ codes ".hbs") j)) [
      | inl e ↦ register_all_hbs n j c fs m (text_eq_sound (n ++ codes ".hbs") j e)
      | inr e ↦ register_all_has n fs (register j (file j c) m) (grind arith)
    ]

mem-partials :
    (n d : Text) (parent : FileTree) (fs : FileTrees)
    → has_file (n ++ codes ".hbs") fs ≡ true
    → mem n (keys (partials parent (directory d fs))) ≡ true
unfolding partials register
mem-partials n d parent fs h =
    mem-keys n (register_all [] fs (register [] parent []))
    ∙ register_all_has n fs (register [] parent []) h

unfoldable all_in : List Text → List Text → Bool
unfolding mem
all_in [] ms = true
all_in (n ∷ ns) ms = mem n ms && all_in ns ms

all_in-partials :
    (ns : List Text) (d : Text) (parent : FileTree) (fs : FileTrees)
    → has_files ns fs ≡ true
    → all_in ns (keys (partials parent (directory d fs))) ≡ true
unfolding has_files all_in
all_in-partials [] d parent fs h = refl
all_in-partials (n ∷ ns) d parent fs h =
    grind (arith, mem-partials n d parent fs, all_in-partials ns d parent fs)

mem-all_in :
    (k : Text) (ns ms : List Text) → all_in ns ms ≡ true → mem k ns ≡ true → mem k ms ≡ true
unfolding all_in mem
mem-all_in k [] ms a h = cc h
mem-all_in k (n ∷ ns) ms a h = grind (arith, text_eq_sound k n, mem-all_in k ns ms)

names_in_mono :
    (ps : List Partial) (ns ms : List Text)
    → all_in ns ms ≡ true
    → names_in ps ns ≡ true
    → names_in ps ms ≡ true
unfolding names_in
names_in_mono [] ns ms a h = refl
names_in_mono (p ∷ ps) ns ms a h = grind (arith, mem-all_in p.partial ns ms, names_in_mono ps ns ms)

areas_in_mono :
    (areas : Object (List Partial)) (ns ms : List Text)
    → all_in ns ms ≡ true
    → areas_in areas ns ≡ true
    → areas_in areas ms ≡ true
unfolding areas_in
areas_in_mono [] ns ms a h = refl
areas_in_mono ((k, ps) ∷ rest) ns ms a h =
    grind (arith, names_in_mono ps ns ms, areas_in_mono rest ns ms)

-- If the theme's folder of partials holds the 21 files, then every partial that a page of a renderer
-- names is registered, whatever the data are, whatever else the folder holds, and whatever theme this
-- one is made from.
pub partials_registered :
    (r : Renderer) (d : Fields) (p : Page) (n : Text) (parent : FileTree) (fs : FileTrees)
    → render r d ≡ ok p
    → has_files partial_files fs ≡ true
    → areas_in p.areas (keys (partials parent (directory n fs))) ≡ true
unfolding is_in
partials_registered r d p n parent fs h files =
    areas_in_mono p.areas partial_files (keys (partials parent (directory n fs)))
      (all_in-partials partial_files n parent fs files) (in-render r d p h)
