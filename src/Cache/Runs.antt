-- ===== src/Cache/Runs.antt =====
-- Calls of the cache in sequence, and the invariant of every run.
use behind.Base.{
  ℕ, ◌^◌, ◌<◌, inl, inr, refl, List, [], ◌∷◌, arith, Bytes, Option-cases, Bool-cases, ◌||◌, ◌==◌,
  min, max,
}
use behind.Message.{Message}
use behind.Cache.{
  Cache, find as look_up, index_find, insert as store, insert_failure as store_failure, initial,
  set_max_bytes, set_max_entry_size, set_max_ttl, message_ttl, uint32_max,
}
use behind.Cache.Charge.{Sizes, make_key}
use behind.Cache.Nodes.{find_item}
use behind.Cache.Valid.{IsValid}
use behind.Cache.Insert.{insert_with_ttl-IsValid}
use behind.Cache.Find.{find_key-Found}

-- ## Runs

-- A call of a public operation, with the time at which it reads the clock.
pub data Call : Type 0 where
  insert : ℕ → Bytes → ℕ → ℕ → Message → Call
  insert_failure : ℕ → Bytes → ℕ → ℕ → Message → ℕ → Call
  find : ℕ → Bytes → ℕ → ℕ → Call

unfoldable pub call : Sizes → Cache → Call → Cache
call z c (Call.insert now name type clas m) = store z c now name type clas m
call z c (Call.insert_failure now name type clas m ttl) = store_failure z c now name type clas m ttl
call z c (Call.find now name type clas) = (look_up c now name type clas).0

unfoldable pub run : Sizes → Cache → List Call → Cache
unfolding call
run z c [] = c
run z c (x ∷ xs) = run z (call z c x) xs

-- The cache as the constructor of `Behind` sets it up.
unfoldable pub configured : ℕ → ℕ → ℕ → Cache
configured entry_size bytes ttl =
    set_max_ttl (set_max_bytes (set_max_entry_size initial entry_size) bytes) ttl

configured-IsValid :
    (entry_size bytes ttl : ℕ) → bytes < 2 ^ 64 → IsValid (configured entry_size bytes ttl)
unfolding configured set_max_bytes find_item
configured-IsValid entry_size bytes ttl h = record {
  coherent = record {
    agrees = λ k. unfold index_find in refl;
    distinct = tt;
    below = tt;
    counted = refl;
  };
  bounded = record {
    bytes_le = omega arith;
    entries_le = omega arith;
    some_entry = omega arith;
    max_bytes_lt = h;
    charges = tt;
  };
}

store-IsValid :
    (z : Sizes) (c : Cache) (now : ℕ) (name : Bytes) (type clas : ℕ) (m : Message)
    → IsValid c
    → IsValid (store z c now name type clas m)
unfolding store
store-IsValid z c now name type clas m v = elim (Option-cases (message_ttl m)) [
  | inl e ↦ rw (e, store) v
  | inr (ttl, e) ↦ elim (Bool-cases (ttl == uint32_max || ttl == 0)) [
    | inl skip ↦ rw (e, store) (rw skip v)
    | inr keep ↦
        rw (e, store) (rw keep (insert_with_ttl-IsValid z c now (make_key name type clas) m ttl v))
  ]
]

call-IsValid : (z : Sizes) (c : Cache) (x : Call) → IsValid c → IsValid (call z c x)
unfolding call store store_failure look_up
call-IsValid z c (Call.insert now name type clas m) v = store-IsValid z c now name type clas m v
call-IsValid z c (Call.insert_failure now name type clas m ttl) v =
    insert_with_ttl-IsValid z c now (make_key name type clas) m (min 300 (max 1 ttl)) v
call-IsValid z c (Call.find now name type clas) v =
    (find_key-Found c now (make_key name type clas) v).valid

run-IsValid' : (z : Sizes) (xs : List Call) (c : Cache) → IsValid c → IsValid (run z c xs)
unfolding run
run-IsValid' z [] c v = v
run-IsValid' z (x ∷ xs) c v = run-IsValid' z xs (call z c x) (call-IsValid z c x v)

-- After any calls, the cache is within its limits: of the bytes that it counts, which are the sum
-- of the entries' charges, of the number of entries and of the charge of each; and the index
-- finds for each key the one node that holds it.
pub run-IsValid :
    (z : Sizes) (entry_size bytes ttl : ℕ) (xs : List Call)
    → bytes < 2 ^ 64
    → IsValid (run z (configured entry_size bytes ttl) xs)
run-IsValid z entry_size bytes ttl xs h =
    run-IsValid' z xs (configured entry_size bytes ttl) (configured-IsValid entry_size bytes ttl h)
