-- ===== src/Cache/Insert.antt =====
-- `insert_with_ttl`: what it stores, and what it drops.
use behind.Base.{
  ℕ, ◌+◌, ◌≤◌, ◌<◌, ◌≡◌, ◌≢◌, ◌⊎◌, inl, inr, refl, sym, ap, ◌∙◌, true, false, none, some, List, [],
  ◌∷◌, arith, length, take, if◌then◌else◌, Option-cases, Bool-cases,
}
use mathlib.Core.Path.{subst}
use native.Mathlib.Decide.{ℕ_discrete}
use behind.Message.{Message}
use behind.Cache.{
  Item, Cache, remove_node, index_find, evict, push_entry, fits, forget, insert_with_ttl, stamped,
  expiry,
}
use behind.Cache.Charge.{CacheKey, key_eq, Sizes, message_size}
use behind.Cache.Nodes.{
  Distinct, find_item, key_eq_iff, item_at-Apart, item_at_of_find_item, find_item-key,
}
use behind.Cache.Valid.{
  entry, IsValid, SameLimits, SameLimits-refl, SameLimits-trans, erase-SameLimits, erase-IsValid,
  entry-erase, erase-items, index_find-some, index_find-none, push_entry-IsValid,
}
use behind.Cache.Evict.{IsCrowded, IsCrowded-limits, Evicted, evict-Evicted, needs_room_done}

-- The list without the entry of a key.
unfoldable pub remove_key : CacheKey → List Item → List Item
remove_key k [] = []
remove_key k (i ∷ is) = if key_eq i.key k then is else i ∷ remove_key k is

remove_key_absent : (k : CacheKey) (is : List Item) → find_item k is ≡ none → remove_key k is ≡ is
unfolding remove_key find_item
remove_key_absent k [] h = refl
remove_key_absent k (i ∷ is) h = ground (arith, remove_key_absent k is)

pub remove_node-remove_key :
    (k : CacheKey) (is : List Item) (i : Item)
    → Distinct is
    → find_item k is ≡ some i
    → remove_node i.node is ≡ remove_key k is
unfolding remove_key remove_node find_item
remove_node-remove_key k [] i d h = absurd (cc)
remove_node-remove_key k (j ∷ is) i d h = elim (Bool-cases (key_eq j.key k)) [
  | inl here ↦ ground arith
  | inr later ↦
      let found : find_item k is ≡ some i = ground arith in
      let apart = item_at-Apart j i.node is d.0 (item_at_of_find_item k is d.1 found) in
      ground (arith, apart.nodes, remove_node-remove_key k is i d.1 found)
]

-- ## The old entry of the key

record Forgot (c : Cache) (key : CacheKey) (d : Cache) : Type 0 where
  valid : IsValid d
  limits : SameLimits c d
  absent : entry d key ≡ none
  items_are : d.items ≡ remove_key key c.items

forget-Forgot : (c : Cache) (key : CacheKey) → IsValid c → Forgot c key (forget c key)
unfolding forget
forget-Forgot c key v = elim (Option-cases (index_find key c.index)) [
  | inl e ↦
      let absent = index_find-none v.coherent key e in
      rw (e, forget)
        (record {
          valid = v;
          limits = SameLimits-refl c;
          absent = absent;
          items_are = sym (remove_key_absent key c.items absent);
        })
  | inr (n, e) ↦
      let (i, found, at, node) = index_find-some v.coherent key n e in
      rw (e, forget)
        (record {
          valid = erase-IsValid c n v;
          limits = erase-SameLimits c n;
          absent = ground (
            arith,
            entry-erase v.coherent n i key at,
            find_item-key key c.items found,
            key_eq_iff i.key key,
          );
          items_are =
              erase-items c n i at
              ∙ ap (λ m. remove_node m c.items) (sym node)
              ∙ remove_node-remove_key key c.items i v.coherent.distinct found;
        })
]

-- ## The insertion

-- What an insertion leaves, where the message is one to keep. The new entry is in front of the
-- `kept` entries that were used last, and one entry more would not have left the room it needs.
pub record Inserted (c : Cache) (new : Item) (d : Cache) : Type 0 where
  pub valid : IsValid d
  pub limits_bytes : d.max_bytes ≡ c.max_bytes
  pub limits_ttl : d.max_ttl ≡ c.max_ttl
  pub limits_entries : d.max_entries ≡ c.max_entries
  pub limits_entry_size : d.max_entry_size ≡ c.max_entry_size
  pub kept : ℕ
  pub items_are : d.items ≡ new ∷ take kept (remove_key new.key c.items)
  pub needed :
      kept < length (remove_key new.key c.items)
      → IsCrowded c new.charge (take (kept + 1) (remove_key new.key c.items))

unfoldable pub new_item : Sizes → Cache → ℕ → CacheKey → Message → ℕ → Item
new_item z c now key m ttl =
    let expire = expiry c now ttl in
    let value = stamped c now expire m in
    record {
      node = c.next;
      key = key;
      expire = expire;
      charge = message_size z key value;
      value = value;
    }

push-Inserted :
    (c : Cache) (new : Item) {d e : Cache}
    → new.node ≡ c.next
    → fits c new.charge ≡ true
    → Forgot c new.key d
    → Evicted d new.charge e
    → Inserted c new (push_entry e new.key new.expire new.charge new.value)
push-Inserted c new {d} {e} node small f t =
    let limits = SameLimits-trans f.limits t.limits in
    let small' : (new.charge ≤ c.max_bytes) × (new.charge ≤ c.max_entry_size) = ground arith in
    let (room, spare) =
      needs_room_done e new.charge t.valid (omega (arith, t.limits.max_bytes, f.limits.max_bytes))
        t.done in
    record {
      valid =
          push_entry-IsValid e new.key new.expire new.charge new.value t.valid
            (t.keeps_absent new.key f.absent) room spare (omega (arith, limits.max_entry_size));
      limits_bytes = unfold push_entry in limits.max_bytes;
      limits_ttl = unfold push_entry in limits.max_ttl;
      limits_entries = unfold push_entry in limits.max_entries;
      limits_entry_size = unfold push_entry in limits.max_entry_size;
      kept = t.kept;
      items_are = pushed (limits.next ∙ sym node) (t.items_are ∙ ap (take t.kept) f.items_are);
      needed = λ below. IsCrowded-limits c d new.charge _ f.limits (
          subst (λ is. IsCrowded d new.charge (take (t.kept + 1) is)) f.items_are
            (t.needed (omega (arith, ap length f.items_are))));
    }
  where
    pushed :
        e.next ≡ new.node
        → {is : List Item} → e.items ≡ is
        → (push_entry e new.key new.expire new.charge new.value).items ≡ new ∷ is
    pushed p q = unfold push_entry in λ i. record new { node = p i } ∷ q i

insert_with_ttl_keeps :
    (z : Sizes) (c : Cache) (now : ℕ) (key : CacheKey) (m : Message) (ttl : ℕ)
    → ttl ≢ 0
    → fits c (new_item z c now key m ttl).charge ≡ true
    → insert_with_ttl z c now key m ttl ≡ (
        let new = new_item z c now key m ttl in
        let d = forget c key in
        push_entry (evict (length d.items) d new.charge) key new.expire new.charge new.value)
unfolding insert_with_ttl new_item
insert_with_ttl_keeps z c now key m ttl pos small = ground arith

-- A message with a time to live, that fits, becomes the front entry.
pub insert_with_ttl-Inserted :
    (z : Sizes) (c : Cache) (now : ℕ) (key : CacheKey) (m : Message) (ttl : ℕ)
    → IsValid c
    → ttl ≢ 0
    → fits c (new_item z c now key m ttl).charge ≡ true
    → Inserted c (new_item z c now key m ttl) (insert_with_ttl z c now key m ttl)
unfolding new_item
insert_with_ttl-Inserted z c now key m ttl v pos small =
    let new = new_item z c now key m ttl in
    let d = forget c key in
    let f = forget-Forgot c key v in
    subst (Inserted c new) (sym (insert_with_ttl_keeps z c now key m ttl pos small)) (
      push-Inserted c new refl small f
        (evict-Evicted (length d.items) d new.charge f.valid (omega arith)))

-- Any other message is not stored.
pub insert_with_ttl_drops :
    (z : Sizes) (c : Cache) (now : ℕ) (key : CacheKey) (m : Message) (ttl : ℕ)
    → (ttl ≡ 0) ⊎ (fits c (new_item z c now key m ttl).charge ≡ false)
    → insert_with_ttl z c now key m ttl ≡ c
unfolding insert_with_ttl new_item
insert_with_ttl_drops z c now key m ttl h = ground arith

pub insert_with_ttl-IsValid :
    (z : Sizes) (c : Cache) (now : ℕ) (key : CacheKey) (m : Message) (ttl : ℕ)
    → IsValid c
    → IsValid (insert_with_ttl z c now key m ttl)
insert_with_ttl-IsValid z c now key m ttl v = elim (ℕ_discrete ttl 0) [
  | yes e ↦ subst IsValid (sym (insert_with_ttl_drops z c now key m ttl (inl e))) v
  | no pos ↦ elim (Bool-cases (fits c (new_item z c now key m ttl).charge)) [
    | inl small ↦ (insert_with_ttl-Inserted z c now key m ttl v pos small).valid
    | inr big ↦ subst IsValid (sym (insert_with_ttl_drops z c now key m ttl (inr big))) v
  ]
]
