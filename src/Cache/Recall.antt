-- ===== src/Cache/Recall.antt =====
-- What a look-up behind an insertion returns.
use behind.Base.{
  ℕ, ◌+◌, ◌-◌, ◌*◌, ◌/◌, ◌^◌, ◌≤◌, ◌<◌, ◌≡◌, refl, ap, ◌∙◌, true, none, some, List, [], ◌∷◌, arith,
  Bytes, min, map,
}
use behind.Message.{Message, Record}
use behind.Misc.{strtolower}
use behind.Cache.{
  Item, Cache, find as look_up, find_key, insert as store, insert_with_ttl, stamped, expiry, fits,
  stamp_record, message_ttl, uint32_max,
}
use behind.Cache.Charge.{Sizes, make_key}
use behind.Cache.Nodes.{find_item, key_eq_iff}
use behind.Cache.Valid.{entry, IsValid}
use behind.Cache.Insert.{Inserted, new_item, insert_with_ttl-Inserted}
use behind.Cache.Find.{answer, find_key-Found, with_rest, rest_of}

-- ## A look-up behind an insertion

-- A record as it comes back after `elapsed` milliseconds: the same data, and as its time to live the
-- whole seconds that are left of its own, or of the limit `most` if that is less.
pub record Fades (most elapsed : ℕ) (r s : Record) : Type 0 where
  pub name : s.name ≡ r.name
  pub type : s.type ≡ r.type
  pub clas : s.clas ≡ r.clas
  pub bin : s.bin ≡ r.bin
  pub sp : s.sp ≡ r.sp
  pub ttl : s.ttl ≡ (min r.ttl most * 1000 - elapsed) / 1000

abbrev pub AllFade : ℕ → ℕ → List Record → List Record → Type 0
AllFade most elapsed [] [] = Unit
AllFade most elapsed (r ∷ rs) (s ∷ ss) = Fades most elapsed r s × AllFade most elapsed rs ss
AllFade most elapsed _ _ = ⊥

pub record Remembered (most elapsed : ℕ) (m n : Message) : Type 0 where
  pub header : n.header ≡ m.header
  pub questions : n.questions ≡ m.questions
  pub answers : AllFade most elapsed m.answers n.answers
  pub authorities : AllFade most elapsed m.authorities n.authorities
  pub additionals : n.additionals ≡ []

module _ (c : Cache) (now later ttl : ℕ) (forward : now ≤ later) (bound : c.max_ttl < 2 ^ 32)
    (clock : now + 2 ^ 42 < 2 ^ 64) where
  abbrev most : ℕ
  most = min ttl c.max_ttl

  record-Fades :
      (r : Record)
      → Fades most (later - now) r (with_rest later (stamp_record c now (expiry c now ttl) r))
  unfolding stamp_record
  record-Fades r = record {
    name = refl;
    type = refl;
    clas = refl;
    bin = refl;
    sp = refl;
    ttl = omega arith;
  }

  records-AllFade :
      (rs : List Record)
      → AllFade most
          (later - now)
          rs
          (map (with_rest later) (map (stamp_record c now (expiry c now ttl)) rs))
  records-AllFade [] = tt
  records-AllFade (r ∷ rs) = (record-Fades r, records-AllFade rs)

  stamped-Remembered :
      (m : Message)
      → Remembered most (later - now) m (rest_of later (stamped c now (expiry c now ttl) m))
  unfolding stamped
  stamped-Remembered m = record {
    header = refl;
    questions = refl;
    answers = records-AllFade m.answers;
    authorities = records-AllFade m.authorities;
    additionals = refl;
  }

entry-Inserted :
    (c : Cache) (new : Item) {d : Cache} → Inserted c new d → entry d new.key ≡ some new
unfolding find_item
entry-Inserted c new w =
    ap (find_item new.key) w.items_are ∙ ground (arith, key_eq_iff new.key new.key)

make_key_case :
    (name other : Bytes) (type clas : ℕ)
    → strtolower other ≡ strtolower name
    → make_key other type clas ≡ make_key name type clas
unfolding make_key
make_key_case name other type clas h = λ i. record { name = h i; type = type; clas = clas }

store-insert_with_ttl :
    (z : Sizes) (c : Cache) (now : ℕ) (name : Bytes) (type clas : ℕ) (m : Message) (ttl : ℕ)
    → message_ttl m ≡ some ttl
    → 0 < ttl
    → ttl < uint32_max
    → store z c now name type clas m ≡ insert_with_ttl z c now (make_key name type clas) m ttl
unfolding store
store-insert_with_ttl z c now name type clas m ttl h pos below = ground arith

-- The answer to a look-up of the key of a message that was just stored.
answer-store :
    (z : Sizes) (c : Cache) (now later : ℕ) (name other : Bytes) (type clas : ℕ) (m : Message)
    (ttl : ℕ)
    → IsValid c
    → message_ttl m ≡ some ttl
    → 0 < ttl
    → ttl < uint32_max
    → fits c (new_item z c now (make_key name type clas) m ttl).charge ≡ true
    → strtolower other ≡ strtolower name
    → (look_up (store z c now name type clas m) later other type clas).1
      ≡ answer later (some (new_item z c now (make_key name type clas) m ttl))
unfolding look_up new_item
answer-store z c now later name other type clas m ttl v h pos below small same =
    let key = make_key name type clas in
    let w = insert_with_ttl-Inserted z c now key m ttl v (λ e. omega arith) small in
    let d = insert_with_ttl z c now key m ttl in
    ap (λ x. (find_key x later (make_key other type clas)).1)
      (store-insert_with_ttl z c now name type clas m ttl h pos below)
    ∙ ap (λ k. (find_key d later k).1) (make_key_case name other type clas same)
    ∙ (find_key-Found d later key w.valid).answer_is
    ∙ ap (answer later) (entry-Inserted c (new_item z c now key m ttl) w)

-- A message that is stored is found under its name, in any case of the letters, as long as its
-- time to live has not run out: with the same header and questions and with no additional
-- records, and its answers and authorities with the same data and, as their time to live, with the
-- whole seconds that are left of the least of their own, the message's and the cache's limit. The
-- clock is 2^42 milliseconds at least from its end and does not go back.
pub find-insert :
    (z : Sizes) (c : Cache) (now later : ℕ) (name other : Bytes) (type clas : ℕ) (m : Message)
    (ttl : ℕ)
    → IsValid c
    → message_ttl m ≡ some ttl
    → 0 < ttl
    → ttl < uint32_max
    → fits c (new_item z c now (make_key name type clas) m ttl).charge ≡ true
    → strtolower other ≡ strtolower name
    → now ≤ later
    → c.max_ttl < 2 ^ 32
    → now + 2 ^ 42 < 2 ^ 64
    → later < now + min ttl c.max_ttl * 1000
    → (n : Message) × ((look_up (store z c now name type clas m) later other type clas).1 ≡ some n)
      × Remembered (min ttl c.max_ttl) (later - now) m n
unfolding new_item answer
find-insert z c now later name other type clas m ttl v h pos below small same forward bound clock
      fresh =
    (
      rest_of later (stamped c now (expiry c now ttl) m),
      answer-store z c now later name other type clas m ttl v h pos below small same ∙ ground arith,
      stamped-Remembered c now later ttl forward bound clock m,
    )

-- Once its time to live, or the cache's limit of it, has run out, it is not found.
pub find-insert_expired :
    (z : Sizes) (c : Cache) (now later : ℕ) (name other : Bytes) (type clas : ℕ) (m : Message)
    (ttl : ℕ)
    → IsValid c
    → message_ttl m ≡ some ttl
    → 0 < ttl
    → ttl < uint32_max
    → fits c (new_item z c now (make_key name type clas) m ttl).charge ≡ true
    → strtolower other ≡ strtolower name
    → c.max_ttl < 2 ^ 32
    → now + 2 ^ 42 < 2 ^ 64
    → now + min ttl c.max_ttl * 1000 ≤ later
    → (look_up (store z c now name type clas m) later other type clas).1 ≡ none
unfolding new_item answer
find-insert_expired z c now later name other type clas m ttl v h pos below small same bound clock
      late =
    answer-store z c now later name other type clas m ttl v h pos below small same ∙ ground arith
