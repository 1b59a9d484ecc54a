-- ===== src/Cache/Nodes.antt =====
-- The list and the index of the cache: what removal and insertion do to look-ups.
use behind.Base.{
  ℕ, ◌+◌, ◌<◌, ◌≡◌, ◌≢◌, ◌↔◌, inl, inr, refl, sym, ap, ◌∙◌, true, Option, none, some, List, [], ◌∷◌,
  arith, All, length, if◌then◌else◌, bytes_eq_iff, Bool-cases, ◌==◌,
}
use mathlib.Core.Path.{subst}
use behind.Cache.{Item, item_at, remove_node, index_find, index_erase, index_set}
use behind.Cache.Charge.{CacheKey, key_eq}

pub key_eq_iff : (a b : CacheKey) → (key_eq a b ≡ true) ↔ (a ≡ b)
unfolding key_eq
key_eq_iff a b = ground (arith, bytes_eq_iff a.name b.name)

-- ## The index

pub index_find-erase :
    (k j : CacheKey) (idx : List (CacheKey × ℕ))
    → index_find k (index_erase j idx) ≡ (if key_eq j k then none else index_find k idx)
unfolding index_find index_erase
index_find-erase k j [] = ground arith
index_find-erase k j ((i, n) ∷ idx) =
    ground (arith, index_find-erase k j idx, key_eq_iff i j, key_eq_iff i k, key_eq_iff j k)

pub index_find-set :
    (k j : CacheKey) (n : ℕ) (idx : List (CacheKey × ℕ))
    → index_find k (index_set j n idx) ≡ (if key_eq j k then some n else index_find k idx)
unfolding index_find index_set
index_find-set k j n idx = ground (arith, index_find-erase k j idx)

-- ## The list

-- Two entries share neither the key nor the node.
pub record Apart (i j : Item) : Type 0 where
  pub keys : i.key ≢ j.key
  pub nodes : i.node ≢ j.node

abbrev pub Distinct : List Item → Type 0
Distinct [] = Unit
Distinct (i ∷ is) = All (Apart i) is × Distinct is

-- The entry of a key.
unfoldable pub find_item : CacheKey → List Item → Option Item
find_item k [] = none
find_item k (i ∷ is) = if key_eq i.key k then some i else find_item k is

abbrev pub total : List Item → ℕ
total [] = 0
total (i ∷ is) = i.charge + total is

pub item_at-node : (n : ℕ) (is : List Item) {i : Item} → item_at n is ≡ some i → i.node ≡ n
unfolding item_at
item_at-node n [] h = absurd (cc)
item_at-node n (j ∷ is) {i} h = ground (arith, item_at-node n is {i = i})

pub find_item-key : (k : CacheKey) (is : List Item) {i : Item} → find_item k is ≡ some i → i.key ≡ k
unfolding find_item
find_item-key k [] h = absurd (cc)
find_item-key k (j ∷ is) {i} h = ground (arith, find_item-key k is {i = i}, key_eq_iff j.key k)

pub All-remove_node {κ} :
    (P : Item → Type κ) (n : ℕ) (is : List Item) → All P is → All P (remove_node n is)
unfolding remove_node
All-remove_node P n [] h = tt
All-remove_node P n (i ∷ is) h = elim (Bool-cases (i.node == n)) [
  | inl e ↦ rw e h.1
  | inr e ↦ rw e (h.0, All-remove_node P n is h.1)
]

pub Distinct-remove_node : (n : ℕ) (is : List Item) → Distinct is → Distinct (remove_node n is)
unfolding remove_node
Distinct-remove_node n [] h = tt
Distinct-remove_node n (i ∷ is) h = elim (Bool-cases (i.node == n)) [
  | inl e ↦ rw e h.1
  | inr e ↦ rw e (All-remove_node (Apart i) n is h.0, Distinct-remove_node n is h.1)
]

pub find_item-absent : (i : Item) (is : List Item) → All (Apart i) is → find_item i.key is ≡ none
unfolding find_item
find_item-absent i [] h = refl
find_item-absent i (j ∷ is) h =
    ground (arith, h.0.keys, key_eq_iff j.key i.key, find_item-absent i is h.1)

find_item-Apart :
    (i : Item) (k : CacheKey) (is : List Item)
    → All (Apart i) is
    → key_eq i.key k ≡ true
    → find_item k is ≡ none
find_item-Apart i k is h e =
    ap (λ x. find_item x is) (sym ((key_eq_iff i.key k).0 e)) ∙ find_item-absent i is h

pub item_at-Apart :
    (i : Item) (n : ℕ) (is : List Item) {j : Item}
    → All (Apart i) is
    → item_at n is ≡ some j
    → Apart i j
unfolding item_at
item_at-Apart i n [] h e = absurd (cc)
item_at-Apart i n (x ∷ is) {j} h e = elim (Bool-cases (x.node == n)) [
  | inl here ↦
      let same : x ≡ j = ground arith in
      record {
        keys = λ p. h.0.keys (p ∙ ap (λ y. y.key) (sym same));
        nodes = λ p. h.0.nodes (p ∙ ap (λ y. y.node) (sym same));
      }
  | inr later ↦ item_at-Apart i n is h.1 (ground arith)
]

-- Removal of a node removes its key, and no other.
pub find_item-remove_node :
    (k : CacheKey) (n : ℕ) (is : List Item) {i : Item}
    → Distinct is
    → item_at n is ≡ some i
    → find_item k (remove_node n is) ≡ (if key_eq i.key k then none else find_item k is)
unfolding find_item item_at remove_node
find_item-remove_node k n [] d h = absurd (cc)
find_item-remove_node k n (j ∷ is) {i} d h = elim (Bool-cases (j.node == n)) [
  | inl here ↦ ground (arith, find_item-Apart j k is d.0)
  | inr later ↦
      let at : item_at n is ≡ some i = ground arith in
      let apart = item_at-Apart j n is d.0 at in
      ground (
        arith,
        find_item-remove_node k n is d.1 at,
        key_eq_iff j.key k,
        key_eq_iff i.key k,
        apart.keys,
      )
]

-- The entry that a key finds is the one that its node finds.
pub item_at_of_find_item :
    (k : CacheKey) (is : List Item) {i : Item}
    → Distinct is
    → find_item k is ≡ some i
    → item_at i.node is ≡ some i
unfolding find_item item_at
item_at_of_find_item k [] d h = absurd (cc)
item_at_of_find_item k (j ∷ is) {i} d h = elim (Bool-cases (key_eq j.key k)) [
  | inl here ↦ ground arith
  | inr later ↦
      let at : find_item k is ≡ some i = ground arith in
      let node = item_at_of_find_item k is d.1 at in
      let apart = item_at-Apart j i.node is d.0 node in ground (arith, node, apart.nodes)
]

pub total-remove_node :
    (n : ℕ) (is : List Item) {i : Item}
    → item_at n is ≡ some i
    → total (remove_node n is) + i.charge ≡ total is
unfolding item_at remove_node
total-remove_node n [] h = absurd (cc)
total-remove_node n (j ∷ is) {i} h = ground (arith, total-remove_node n is {i = i})

pub length-remove_node :
    (n : ℕ) (is : List Item) {i : Item}
    → item_at n is ≡ some i
    → length (remove_node n is) + 1 ≡ length is
unfolding item_at remove_node
length-remove_node n [] h = absurd (cc)
length-remove_node n (j ∷ is) {i} h = ground (arith, length-remove_node n is {i = i})

pub item_at-All {κ} :
    (P : Item → Type κ) (n : ℕ) (is : List Item) {i : Item} → All P is → item_at n is ≡ some i → P i
unfolding item_at
item_at-All P n [] h e = absurd (cc)
item_at-All P n (j ∷ is) {i} h e = elim (Bool-cases (j.node == n)) [
  | inl here ↦ let same : j ≡ i = ground arith in subst P same h.0
  | inr later ↦ item_at-All P n is h.1 (ground arith)
]

-- An entry of a new key, in a new node, is apart from all the others.
pub Apart-of_absent :
    (i : Item) (is : List Item)
    → find_item i.key is ≡ none
    → All (λ j. j.node < i.node) is
    → All (Apart i) is
unfolding find_item
Apart-of_absent i [] h b = tt
Apart-of_absent i (j ∷ is) h b = (
  record {
    keys = λ e. ground (arith, key_eq_iff j.key i.key);
    nodes = λ e. let lt = b.0 in omega arith;
  },
  Apart-of_absent i is (ground arith) b.1,
)
