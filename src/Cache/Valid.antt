-- ===== src/Cache/Valid.antt =====
-- The invariant of the cache, and the steps that every operation is made of.
use behind.Base.{
  ℕ, ◌+◌, ◌^◌, ◌≤◌, ◌<◌, ◌≡◌, inl, inr, refl, sym, ap, ◌∙◌, Option, none, some, arith, All,
  All-mono, length, if◌then◌else◌, Option-cases,
}
use behind.Cache.{
  Item, Cache, item_at, remove_node, index_find, index_erase, erase, push_entry, fits,
}
use behind.Cache.Charge.{CacheKey, key_eq}
use behind.Message.{Message}
use behind.Cache.Nodes.{
  key_eq_iff, index_find-erase, index_find-set, Distinct, find_item, total, All-remove_node,
  Distinct-remove_node, find_item-remove_node, item_at_of_find_item, total-remove_node,
  length-remove_node, Apart-of_absent,
}

abbrev node_of : Option Item → Option ℕ
node_of none = none
node_of (some i) = some i.node

-- The entry of a key, as the list has it.
abbrev pub entry : Cache → CacheKey → Option Item
entry c k = find_item k c.items

-- The index finds for a key the node that the list holds it in, keys and nodes are distinct, and
-- the counter of bytes is the sum of the charges.
pub record IsCoherent (c : Cache) : Type 0 where
  pub agrees : (k : CacheKey) → index_find k c.index ≡ node_of (entry c k)
  pub distinct : Distinct c.items
  pub below : All (λ i. i.node < c.next) c.items
  pub counted : c.bytes ≡ total c.items

-- The bounds: of the bytes, of the entries, and of each entry.
pub record IsBounded (c : Cache) : Type 0 where
  pub bytes_le : c.bytes ≤ c.max_bytes
  pub entries_le : length c.items ≤ c.max_entries
  pub some_entry : 0 < c.max_entries
  pub max_bytes_lt : c.max_bytes < 2 ^ 64
  pub charges : All (λ i. i.charge ≤ c.max_entry_size) c.items

pub record IsValid (c : Cache) : Type 0 where
  pub coherent : IsCoherent c
  pub bounded : IsBounded c

module _ {c : Cache} (v : IsCoherent c) where
  -- The node that the index finds is in the list.
  pub index_find-some :
      (k : CacheKey) (n : ℕ)
      → index_find k c.index ≡ some n
      → (i : Item) × (entry c k ≡ some i) × (item_at n c.items ≡ some i) × (i.node ≡ n)
  index_find-some k n h = elim (Option-cases (entry c k)) [
    | inl e ↦ absurd (let a = v.agrees k in ground arith)
    | inr (i, e) ↦
        let same : i.node ≡ n = let a = v.agrees k in ground arith in
        (
          i,
          e,
          ap (λ m. item_at m c.items) (sym same) ∙ item_at_of_find_item k c.items v.distinct e,
          same,
        )
  ]

  pub index_find-none : (k : CacheKey) → index_find k c.index ≡ none → entry c k ≡ none
  index_find-none k h = let a = v.agrees k in ground arith

  erase-agrees :
      (n : ℕ) (i : Item) (k : CacheKey)
      → item_at n c.items ≡ some i
      → index_find k (index_erase i.key c.index) ≡ node_of (find_item k (remove_node n c.items))
  erase-agrees n i k h = ground (
    arith,
    v.agrees k,
    index_find-erase k i.key c.index,
    find_item-remove_node k n c.items v.distinct h,
  )

  -- `erase` of a node of the list.
  pub erase-IsCoherent : (n : ℕ) → IsCoherent (erase c n)
  unfolding erase
  erase-IsCoherent n = elim (Option-cases (item_at n c.items)) [
    | inl e ↦ rw (e, erase) v
    | inr (i, e) ↦
        rw (e, erase)
          (record {
            agrees = λ k. erase-agrees n i k e;
            distinct = Distinct-remove_node n c.items v.distinct;
            below = All-remove_node _ n c.items v.below;
            counted = ground (arith, v.counted, total-remove_node n c.items e);
          })
  ]

  pub entry-erase :
      (n : ℕ) (i : Item) (k : CacheKey)
      → item_at n c.items ≡ some i
      → entry (erase c n) k ≡ (if key_eq i.key k then none else entry c k)
  unfolding erase
  entry-erase n i k h = rw (h, erase) (find_item-remove_node k n c.items v.distinct h)

-- What an erasure leaves alone.
pub record SameLimits (c d : Cache) : Type 0 where
  pub max_bytes : d.max_bytes ≡ c.max_bytes
  pub max_entries : d.max_entries ≡ c.max_entries
  pub max_entry_size : d.max_entry_size ≡ c.max_entry_size
  pub max_ttl : d.max_ttl ≡ c.max_ttl
  pub next : d.next ≡ c.next

pub SameLimits-refl : (c : Cache) → SameLimits c c
SameLimits-refl c = record {
  max_bytes = refl;
  max_entries = refl;
  max_entry_size = refl;
  max_ttl = refl;
  next = refl;
}

pub SameLimits-trans : {a b c : Cache} → SameLimits a b → SameLimits b c → SameLimits a c
SameLimits-trans p q = record {
  max_bytes = q.max_bytes ∙ p.max_bytes;
  max_entries = q.max_entries ∙ p.max_entries;
  max_entry_size = q.max_entry_size ∙ p.max_entry_size;
  max_ttl = q.max_ttl ∙ p.max_ttl;
  next = q.next ∙ p.next;
}

pub erase-SameLimits : (c : Cache) (n : ℕ) → SameLimits c (erase c n)
unfolding erase
erase-SameLimits c n = elim (Option-cases (item_at n c.items)) [
  | inl e ↦ rw (e, erase) (SameLimits-refl c)
  | inr (i, e) ↦
      rw (e, erase)
        (record {
          max_bytes = refl;
          max_entries = refl;
          max_entry_size = refl;
          max_ttl = refl;
          next = refl;
        })
]

pub erase-items :
    (c : Cache) (n : ℕ) (i : Item)
    → item_at n c.items ≡ some i
    → (erase c n).items ≡ remove_node n c.items
unfolding erase
erase-items c n i h = ground arith

pub erase-IsBounded : (c : Cache) (n : ℕ) → IsBounded c → IsBounded (erase c n)
unfolding erase
erase-IsBounded c n b = elim (Option-cases (item_at n c.items)) [
  | inl e ↦ rw (e, erase) b
  | inr (i, e) ↦
      rw (e, erase)
        (record {
          bytes_le = ground (arith, b.bytes_le);
          entries_le = ground (arith, b.entries_le, length-remove_node n c.items e);
          some_entry = b.some_entry;
          max_bytes_lt = b.max_bytes_lt;
          charges = All-remove_node _ n c.items b.charges;
        })
]

pub erase-IsValid : (c : Cache) (n : ℕ) → IsValid c → IsValid (erase c n)
erase-IsValid c n v = record {
  coherent = erase-IsCoherent v.coherent n;
  bounded = erase-IsBounded c n v.bounded;
}

-- A new entry, of a key that has none, where there is room for it.
pub push_entry-IsValid :
    (c : Cache) (key : CacheKey) (expire charge : ℕ) (value : Message)
    → IsValid c
    → entry c key ≡ none
    → length c.items < c.max_entries
    → c.bytes + charge ≤ c.max_bytes
    → charge ≤ c.max_entry_size
    → IsValid (push_entry c key expire charge value)
unfolding push_entry
push_entry-IsValid c key expire charge value v absent room fits small = record {
  coherent = record {
    agrees = λ k.
        unfold find_item in
        ground (arith, v.coherent.agrees k, index_find-set k key c.next c.index, key_eq_iff key k);
    distinct = (Apart-of_absent _ c.items absent v.coherent.below, v.coherent.distinct);
    below = (
      omega arith,
      All-mono (λ i. i.node < c.next) (λ i. i.node < c.next + 1) c.items (λ i h. omega arith)
          v.coherent.below,
    );
    counted = omega (arith, v.coherent.counted, v.bounded.max_bytes_lt);
  };
  bounded = record {
    bytes_le = omega (arith, v.bounded.max_bytes_lt);
    entries_le = omega arith;
    some_entry = v.bounded.some_entry;
    max_bytes_lt = v.bounded.max_bytes_lt;
    charges = (small, v.bounded.charges);
  };
}
