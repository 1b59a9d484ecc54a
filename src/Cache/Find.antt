-- ===== src/Cache/Find.antt =====
-- `find`: what it returns, and what it leaves.
use behind.Base.{
  ℕ, ◌≤◌, ◌<◌, ◌≡◌, ◌≢◌, inl, inr, refl, sym, ap, ◌∙◌, Bool, true, false, Option, none, some, List,
  [], ◌∷◌, arith, All, map, ltb, ◌-◌, ◌/◌, ◌%◌, ◌^◌, if◌then◌else◌, Option-cases, Bool-cases, leb,
  ◌&&◌, ◌==◌,
}
use mathlib.Core.Path.{subst}
use behind.Message.{Message, Record}
use behind.Cache.{
  Item, Cache, item_at, remove_node, index_find, index_set, erase, find_key, to_front, aged,
  age_record, update_ttls,
}
use behind.Cache.Charge.{CacheKey, key_eq}
use behind.Cache.Nodes.{
  Distinct, Apart, find_item, key_eq_iff, index_find-set, item_at-Apart, item_at_of_find_item,
  find_item-key, find_item-remove_node, Distinct-remove_node, All-remove_node, total-remove_node,
  length-remove_node, item_at-All,
}
use behind.Cache.Valid.{
  SameLimits, SameLimits-refl, erase-SameLimits, entry, IsValid, erase-IsValid, entry-erase,
  index_find-some, index_find-none,
}
use behind.Cache.Insert.{remove_key, remove_node-remove_key}

-- A record with what is left of its life, in whole seconds: `expire` is the time at which it ends.
abbrev pub with_rest : ℕ → Record → Record
with_rest now r = record r { ttl = (r.expire - now) / 1000 % 2 ^ 32 }

abbrev pub rest_of : ℕ → Message → Message
rest_of now m = record m {
  answers = map (with_rest now) m.answers;
  authorities = map (with_rest now) m.authorities;
}

record-with_rest : (now : ℕ) (r : Record) → age_record now r ≡ with_rest now r
unfolding age_record
record-with_rest now r = λ i. record r { ttl = left i }
  where
    left :
        (if ltb now r.expire then (r.expire - now) / 1000 % 2 ^ 32 else 0)
        ≡ (r.expire - now) / 1000 % 2 ^ 32
    left = ground arith

update_ttls-with_rest : (now : ℕ) (rs : List Record) → update_ttls rs now ≡ map (with_rest now) rs
unfolding update_ttls
update_ttls-with_rest now [] = refl
update_ttls-with_rest now (r ∷ rs) = λ i. record-with_rest now r i ∷ update_ttls-with_rest now rs i

aged-rest_of : (now : ℕ) (m : Message) → aged now m ≡ rest_of now m
unfolding aged
aged-rest_of now m = λ i. record m {
  answers = update_ttls-with_rest now m.answers i;
  authorities = update_ttls-with_rest now m.authorities i;
}

-- What a look-up finds in an entry.
unfoldable pub answer : ℕ → Option Item → Option Message
answer now none = none
answer now (some i) = if leb i.expire now then none else some (rest_of now i.value)

abbrev pub is_expired : ℕ → Option Item → Bool
is_expired now none = false
is_expired now (some i) = leb i.expire now

Apart-removed :
    (n : ℕ) (is : List Item) (i : Item)
    → Distinct is
    → item_at n is ≡ some i
    → All (Apart i) (remove_node n is)
unfolding item_at remove_node
Apart-removed n [] i d h = absurd (cc)
Apart-removed n (j ∷ is) i d h = elim (Bool-cases (j.node == n)) [
  | inl here ↦ let same : j ≡ i = ground arith in rw here (subst (λ x. All (Apart x) is) same d.0)
  | inr later ↦
      let at : item_at n is ≡ some i = ground arith in
      let apart = item_at-Apart j n is d.0 at in
      rw later (
        record { keys = λ e. apart.keys (sym e); nodes = λ e. apart.nodes (sym e) },
        Apart-removed n is i d.1 at,
      )
]

abbrev front : Cache → Item → Cache
front c i = record c { items = to_front i c.items; index = index_set i.key i.node c.index }

module _ (c : Cache) (v : IsValid c) (i : Item) (found : entry c i.key ≡ some i) where
  at_node : item_at i.node c.items ≡ some i
  at_node = item_at_of_find_item i.key c.items v.coherent.distinct found

  entry_same : (k : CacheKey) → i.key ≡ k → entry c k ≡ some i
  entry_same k e = subst (λ x. entry c x ≡ some i) e found

  entry-front : (k : CacheKey) → entry (front c i) k ≡ entry c k
  unfolding find_item
  entry-front k = elim (Bool-cases (key_eq i.key k)) [
    | inl same ↦ rw same (sym (entry_same k ((key_eq_iff i.key k).0 same)))
    | inr other ↦ ground (arith, find_item-remove_node k i.node c.items v.coherent.distinct at_node)
  ]

  front-IsValid : IsValid (front c i)
  front-IsValid = record {
    coherent = record {
      agrees = λ k. ground (
        arith,
        v.coherent.agrees k,
        index_find-set k i.key i.node c.index,
        entry-front k,
        key_eq_iff i.key k,
        entry_same k,
      );
      distinct = (
        Apart-removed i.node c.items i v.coherent.distinct at_node,
        Distinct-remove_node i.node c.items v.coherent.distinct,
      );
      below = (
        item_at-All (λ j. j.node < c.next) i.node c.items v.coherent.below at_node,
        All-remove_node _ i.node c.items v.coherent.below,
      );
      counted = omega (arith, v.coherent.counted, total-remove_node i.node c.items at_node);
    };
    bounded = record {
      bytes_le = v.bounded.bytes_le;
      entries_le = omega (arith, v.bounded.entries_le, length-remove_node i.node c.items at_node);
      some_entry = v.bounded.some_entry;
      max_bytes_lt = v.bounded.max_bytes_lt;
      charges = (
        item_at-All (λ j. j.charge ≤ c.max_entry_size) i.node c.items v.bounded.charges at_node,
        All-remove_node _ i.node c.items v.bounded.charges,
      );
    };
  }

-- What a look-up of `key` at the time `now` gives: the state after it, and the answer.
pub record Found (c : Cache) (now : ℕ) (key : CacheKey) (result : Cache × Option Message)
    : Type 0 where
  pub valid : IsValid result.0
  pub limits : SameLimits c result.0
  pub answer_is : result.1 ≡ answer now (entry c key)
  pub entries_are :
      (k : CacheKey)
      → entry result.0 k
        ≡ (if key_eq key k && is_expired now (entry c key) then none else entry c k)
  pub used :
      result.1 ≢ none
      → (i : Item) × (result.0.items ≡ i ∷ remove_key key c.items) × (entry c key ≡ some i)

Found-miss :
    (c : Cache) (now : ℕ) (key : CacheKey)
    → IsValid c
    → entry c key ≡ none
    → Found c now key (c, none)
unfolding answer
Found-miss c now key v absent = record {
  valid = v;
  limits = SameLimits-refl c;
  answer_is = ground arith;
  entries_are = λ k. ground arith;
  used = λ h. absurd (h refl);
}

Found-expired :
    (c : Cache) (now : ℕ) (key : CacheKey) (i : Item)
    → IsValid c
    → entry c key ≡ some i
    → leb i.expire now ≡ true
    → Found c now key (erase c i.node, none)
unfolding answer
Found-expired c now key i v found late =
    let at = item_at_of_find_item key c.items v.coherent.distinct found in
    record {
      valid = erase-IsValid c i.node v;
      limits = erase-SameLimits c i.node;
      answer_is = ground arith;
      entries_are = λ k.
          ground (arith, entry-erase v.coherent i.node i k at, find_item-key key c.items found);
      used = λ h. absurd (h refl);
    }

Found-hit :
    (c : Cache) (now : ℕ) (key : CacheKey) (i : Item)
    → IsValid c
    → entry c key ≡ some i
    → leb i.expire now ≡ false
    → Found c now key (front c i, some (aged now i.value))
unfolding answer
Found-hit c now key i v found fresh =
    let e = find_item-key key c.items found in
    let found' : entry c i.key ≡ some i = ap (λ k. entry c k) e ∙ found in
    record {
      valid = front-IsValid c v i found';
      limits = record {
        max_bytes = refl;
        max_entries = refl;
        max_entry_size = refl;
        max_ttl = refl;
        next = refl;
      };
      answer_is = ap some (aged-rest_of now i.value) ∙ ground arith;
      entries_are = λ k. ground (arith, entry-front c v i found' k);
      used = λ _.
          (i, ap (◌∷◌ i) (remove_node-remove_key key c.items i v.coherent.distinct found), found);
    }

find_key-run :
    (c : Cache) (now : ℕ) (key : CacheKey) (n : ℕ) (i : Item)
    → index_find key c.index ≡ some n
    → item_at n c.items ≡ some i
    → i.node ≡ n
    → i.key ≡ key
    → find_key c now key
      ≡ (if leb i.expire now then (erase c i.node, none) else (front c i, some (aged now i.value)))
unfolding find_key
find_key-run c now key n i h at node e = ground arith

-- A look-up returns the key's entry if that is not expired, with the rest of its life, in whole
-- seconds, as the time to live of each answer and authority; it moves a hit to the front, drops an
-- expired entry, and keeps every other entry and the limits.
pub find_key-Found :
    (c : Cache) (now : ℕ) (key : CacheKey) → IsValid c → Found c now key (find_key c now key)
find_key-Found c now key v = elim (Option-cases (index_find key c.index)) [
  | inl e ↦
      let run : find_key c now key ≡ (c, none) = unfold find_key in ground arith in
      subst (Found c now key) (sym run) (Found-miss c now key v (index_find-none v.coherent key e))
  | inr (n, e) ↦
      let (i, found, at, node) = index_find-some v.coherent key n e in
      let run = find_key-run c now key n i e at node (find_item-key key c.items found) in
      elim (Bool-cases (leb i.expire now)) [
        | inl late ↦
            subst (Found c now key) (sym (run ∙ rw late)) (Found-expired c now key i v found late)
        | inr fresh ↦
            subst (Found c now key) (sym (run ∙ rw fresh)) (Found-hit c now key i v found fresh)
      ]
]
