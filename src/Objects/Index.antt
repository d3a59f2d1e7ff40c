-- ===== src/Objects/Index.antt =====
-- The index that `data.reduce(function(map, node) { map[node.name] = node; … })` and
-- `lookupList[n.id] = n` build: from a key to the place of the last node that has it.
use product_private_paas.Common.{
  ℕ, zero, suc, ◌+◌, Text, text_eq_iff, mem, count, not_mem_of_count, ◌≡◌, refl, Bool-cases, inl,
  inr, true, false, some, List, [], ◌∷◌, arith, get_elem?,
}
use product_private_paas.Objects.{Object, get_key, put_key, get_key-put_key}

unfoldable pub index_from : ℕ → List Text → Object ℕ → Object ℕ
index_from i [] o = o
index_from i (k ∷ ks) o = index_from (suc i) ks (put_key k i o)

pub get_key-index_from_absent :
    (i : ℕ) (k : Text) (ks : List Text) (o : Object ℕ)
    → mem k ks ≡ false
    → get_key k (index_from i ks o) ≡ get_key k o
unfolding index_from mem
get_key-index_from_absent i k [] o h = refl
get_key-index_from_absent i k (x ∷ ks) o h =
    ground (arith, get_key-index_from_absent (suc i) k ks (put_key x i o), get_key-put_key x k i o)

pub mem_of_get_elem? :
    (ks : List Text) (j : ℕ) (k : Text) → get_elem? ks j ≡ some k → mem k ks ≡ true
unfolding mem
mem_of_get_elem? [] j k h = cc
mem_of_get_elem? (x ∷ ks) zero k h = ground (arith, text_eq_iff k x)
mem_of_get_elem? (x ∷ ks) (suc j) k h = ground (arith, mem_of_get_elem? ks j k)

-- A node with a key that no other node has is found under it.
pub get_key-index_from :
    (i j : ℕ) (k : Text) (ks : List Text) (o : Object ℕ)
    → count k ks ≡ 1
    → get_elem? ks j ≡ some k
    → get_key k (index_from i ks o) ≡ some (i + j)
unfolding index_from count
get_key-index_from i j k [] o d h = cc
get_key-index_from i zero k (x ∷ ks) o d h = ground (
  arith,
  get_key-index_from_absent (suc i) x ks (put_key x i o),
  not_mem_of_count x ks,
  get_key-put_key x x i o,
  text_eq_iff x x,
)
get_key-index_from i (suc j) k (x ∷ ks) o d h = ground (
  arith,
  get_key-index_from (suc i) j k ks (put_key x i o),
  mem_of_get_elem? ks j k,
  not_mem_of_count k ks,
)

-- What is found under a key has that key.
pub get_key-index_from_inv :
    (i j : ℕ) (k : Text) (ks : List Text) (o : Object ℕ)
    → get_key k (index_from i ks o) ≡ some j
    → mem k ks ≡ true
    → (d : ℕ) × (j ≡ i + d) × (get_elem? ks d ≡ some k)
unfolding index_from mem
get_key-index_from_inv i j k [] o h m = cc
get_key-index_from_inv i j k (x ∷ ks) o h m = elim (Bool-cases (mem k ks)) [
  | inl e ↦
      let (d, p, q) = get_key-index_from_inv (suc i) j k ks (put_key x i o) h e in
      (suc d, omega arith, q)
  | inr e ↦ (
    0,
    ground (arith, get_key-index_from_absent (suc i) k ks (put_key x i o), get_key-put_key x k i o),
    ground (arith, text_eq_iff k x),
  )
]
