-- ===== src/Cache/Evict.antt =====
-- The loop that makes room: it drops entries from the back of the list, the least recently used
-- first, and no more of them than the new entry needs.
use behind.Base.{
  ℕ, zero, suc, ◌+◌, ◌-◌, ◌≤◌, ◌<◌, ◌≡◌, ◌≢◌, ◌⊎◌, inl, inr, refl, sym, ap, ◌∙◌, true, false, none,
  some, List, [], ◌∷◌, arith, length, take, Bool-cases, leb, ltb,
}
use mathlib.Core.Path.{subst}
use behind.Cache.{
  Item, Cache, item_at, remove_node, last_node, erase, erase_last, needs_room, evict,
}
use behind.Cache.Charge.{CacheKey}
use behind.Cache.Nodes.{Distinct, total, item_at-Apart}
use behind.Cache.Valid.{
  entry, IsValid, SameLimits, SameLimits-refl, SameLimits-trans, erase-SameLimits, erase-IsValid,
  entry-erase, erase-items,
}

-- ## The last entry

last_of :
    (i : Item) (is : List Item)
    → Distinct (i ∷ is)
    → (j : Item) × (last_node (i ∷ is) ≡ some j.node)
      × (item_at j.node (i ∷ is) ≡ some j)
      × (remove_node j.node (i ∷ is) ≡ take (length is) (i ∷ is))
unfolding last_node item_at remove_node
last_of i [] d = (i, refl, ground arith, ground arith)
last_of i (x ∷ xs) d =
    let (j, last, at, rest) = last_of x xs d.1 in
    let apart = item_at-Apart i j.node (x ∷ xs) d.0 at in
    (j, last, ground (arith, apart.nodes), ground (arith, apart.nodes))

take-take {ℓ} : {A : Type ℓ} (k n : ℕ) (xs : List A) → k ≤ n → take k (take n xs) ≡ take k xs
take-take zero n xs h = refl
take-take (suc k) zero xs h = absurd (omega arith)
take-take (suc k) (suc n) [] h = refl
take-take (suc k) (suc n) (x ∷ xs) h = ap (◌∷◌ x) (take-take k n xs (omega arith))

pub take-length {ℓ} : {A : Type ℓ} (xs : List A) → take (length xs) xs ≡ xs
take-length [] = refl
take-length (x ∷ xs) = ap (◌∷◌ x) (take-length xs)

length-take_of_le {ℓ} : {A : Type ℓ} (n : ℕ) (xs : List A) → n ≤ length xs → length (take n xs) ≡ n
length-take_of_le zero xs h = refl
length-take_of_le (suc n) [] h = absurd (omega arith)
length-take_of_le (suc n) (x ∷ xs) h = ap suc (length-take_of_le n xs (omega arith))

-- ## One round

-- Why the loop goes on, in numbers.
abbrev pub IsCrowded : Cache → ℕ → List Item → Type 0
IsCrowded c charge is = (c.max_entries ≤ length is) ⊎ (c.max_bytes < total is + charge)

needs_room-IsCrowded :
    (c : Cache) (charge : ℕ) → IsValid c → needs_room c charge ≡ true → IsCrowded c charge c.items
unfolding needs_room
needs_room-IsCrowded c charge v h = elim (Bool-cases (leb c.max_entries (length c.items))) [
  | inl full ↦ inl (ground arith)
  | inr room ↦ inr (ground (arith, v.bounded.bytes_le, v.bounded.max_bytes_lt, v.coherent.counted))
]

pub needs_room_done :
    (c : Cache) (charge : ℕ)
    → IsValid c
    → charge ≤ c.max_bytes
    → needs_room c charge ≡ false
    → (length c.items < c.max_entries) × (c.bytes + charge ≤ c.max_bytes)
unfolding needs_room
needs_room_done c charge v small h =
    ground
      (arith, v.bounded.bytes_le, v.bounded.max_bytes_lt, v.bounded.some_entry, v.coherent.counted)

-- An erasure at the back.
record ErasedLast (c d : Cache) : Type 0 where
  valid : IsValid d
  limits : SameLimits c d
  items_are : d.items ≡ take (length c.items - 1) c.items
  keeps_absent : (k : CacheKey) → entry c k ≡ none → entry d k ≡ none

erase_last-ErasedLast : (c : Cache) → IsValid c → c.items ≢ [] → ErasedLast c (erase_last c)
erase_last-ErasedLast c v h = go c.items refl
  where
    go : (is : List Item) → c.items ≡ is → ErasedLast c (erase_last c)
    go [] e = absurd (h e)
    go (i ∷ is) e =
        let (j, last, at, rest) = last_of i is (subst Distinct e v.coherent.distinct) in
        let at' : item_at j.node c.items ≡ some j = ap (item_at j.node) e ∙ at in
        let erased : erase_last c ≡ erase c j.node = unfold erase_last in ground (arith, last, e) in
        subst (ErasedLast c) (sym erased) (record {
          valid = erase-IsValid c j.node v;
          limits = erase-SameLimits c j.node;
          items_are =
              erase-items c j.node j at'
              ∙ subst (λ x. remove_node j.node x ≡ take (length x - 1) x) (sym e)
                  (rest ∙ ap (λ n. take n (i ∷ is)) (omega arith));
          keeps_absent = λ k none_there. ground (arith, entry-erase v.coherent j.node j k at');
        })

-- ## The loop

-- What the loop leaves: the first `kept` entries, with room for the new one, and not one entry
-- fewer than that needs.
pub record Evicted (c : Cache) (charge : ℕ) (d : Cache) : Type 0 where
  pub valid : IsValid d
  pub limits : SameLimits c d
  pub kept : ℕ
  pub kept_le : kept ≤ length c.items
  pub items_are : d.items ≡ take kept c.items
  pub keeps_absent : (k : CacheKey) → entry c k ≡ none → entry d k ≡ none
  pub done : needs_room d charge ≡ false
  pub needed : kept < length c.items → IsCrowded c charge (take (kept + 1) c.items)

Evicted-here :
    (c : Cache) (charge : ℕ) → IsValid c → needs_room c charge ≡ false → Evicted c charge c
Evicted-here c charge v done = record {
  valid = v;
  limits = SameLimits-refl c;
  kept = length c.items;
  kept_le = omega arith;
  items_are = sym (take-length c.items);
  keeps_absent = λ k h. h;
  done = done;
  needed = λ h. absurd (omega arith);
}

pub IsCrowded-limits :
    (c d : Cache) (charge : ℕ) (is : List Item)
    → SameLimits c d
    → IsCrowded d charge is
    → IsCrowded c charge is
IsCrowded-limits c d charge is s h = elim h [
  | inl full ↦ inl (omega (arith, s.max_entries))
  | inr big ↦ inr (omega (arith, s.max_bytes))
]

Evicted-next :
    (c : Cache) (charge : ℕ) {d e : Cache}
    → IsCrowded c charge c.items
    → 0 < length c.items
    → ErasedLast c d
    → Evicted d charge e
    → Evicted c charge e
Evicted-next c charge {d} {e} crowded pos r t =
    let n = length c.items in
    let shorter : length d.items ≡ n - 1 =
      ap length r.items_are ∙ length-take_of_le (n - 1) c.items (omega arith) in
    record {
      valid = t.valid;
      limits = SameLimits-trans r.limits t.limits;
      kept = t.kept;
      kept_le = omega (arith, t.kept_le);
      items_are =
          t.items_are
          ∙ ap (take t.kept) r.items_are
          ∙ take-take t.kept (n - 1) c.items (omega (arith, t.kept_le));
      keeps_absent = λ k h. t.keeps_absent k (r.keeps_absent k h);
      done = t.done;
      needed = λ below. elim (Bool-cases (ltb t.kept (length d.items))) [
        | inl more ↦
            subst (IsCrowded c charge)
              (ap (take (t.kept + 1)) r.items_are
                ∙ take-take (t.kept + 1) (n - 1) c.items (ground arith))
              (IsCrowded-limits c d charge _ r.limits (t.needed (ground arith)))
        | inr last ↦
            let all_kept : t.kept + 1 ≡ n = ground (arith, t.kept_le) in
            subst (IsCrowded c charge)
              (sym (ap (λ m. take m c.items) all_kept ∙ take-length c.items)) crowded
      ];
    }

needs_room-ne-nil : (c : Cache) (charge : ℕ) → needs_room c charge ≡ true → c.items ≢ []
unfolding needs_room
needs_room-ne-nil c charge h = λ e. ground arith

length-pos_of_ne {ℓ} : {A : Type ℓ} (xs : List A) → xs ≢ [] → 0 < length xs
length-pos_of_ne [] h = absurd (h refl)
length-pos_of_ne (x ∷ xs) h = omega arith

needs_room-nil : (c : Cache) (charge : ℕ) → length c.items ≤ 0 → needs_room c charge ≡ false
unfolding needs_room
needs_room-nil c charge h = ground arith

pub evict-Evicted :
    (fuel : ℕ) (c : Cache) (charge : ℕ)
    → IsValid c
    → length c.items ≤ fuel
    → Evicted c charge (evict fuel c charge)
unfolding evict
evict-Evicted zero c charge v enough = Evicted-here c charge v (needs_room-nil c charge enough)
evict-Evicted (suc fuel) c charge v enough = elim (Bool-cases (needs_room c charge)) [
  | inr done ↦ rw (done, evict) (Evicted-here c charge v done)
  | inl more ↦
      let ne = needs_room-ne-nil c charge more in
      let pos = length-pos_of_ne c.items ne in
      let r = erase_last-ErasedLast c v ne in
      rw (more, evict)
        (Evicted-next c charge (needs_room-IsCrowded c charge v more) pos r (
          evict-Evicted fuel (erase_last c) charge r.valid (
            omega (
              arith,
              ap length r.items_are,
              length-take_of_le (length c.items - 1) c.items (omega arith),
            ))))
]
