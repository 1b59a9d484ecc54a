-- ===== src/MinTtl.antt =====
-- `Behind::min_ttl_override_for` and `Behind::modify_received` of src/Behind.cpp: the least time
-- to live that is configured for a name. `none` stands for the result -1.
pub mod Best
pub mod Raise
mod Tests
use behind.Base.{
  ℕ, ◌-◌, min, max, map, not, Bool, true, false, ◌&&◌, Option, none, some, List, [], ◌∷◌, Bytes,
  ltb, ◌==◌, if◌then◌else◌, length, drop, get_or, bytes_eq,
}
use behind.Misc.{strtolower}
use behind.Message.DnsType
use behind.Message.{Message, Record, Rdata, rcode, is_empty}

pub record MinTtlOverride : Type 0 where
  pub name : Bytes
  pub ttl : ℕ

-- The name ends in the override's, behind a dot.
abbrev pub is_below : Bytes → Bytes → Bool
is_below loname name =
    ltb (length name) (length loname)
    && get_or loname (length loname - length name - 1) 0 == b'.'
    && bytes_eq (drop (length loname - length name) loname) name

-- The loop, with the best override so far and the length of its name.
unfoldable pub best_override : Bytes → List MinTtlOverride → Option ℕ → ℕ → Option ℕ
best_override loname [] best best_len = best
best_override loname (o ∷ os) best best_len =
    let better = best_override loname os (some o.ttl) (length o.name) in
    let same = best_override loname os best best_len in
    if bytes_eq loname o.name
    then some o.ttl
    else if is_below loname o.name
    then (if ltb best_len (length o.name) then better else same)
    else same

unfoldable pub min_ttl_override_for : List MinTtlOverride → Bytes → Option ℕ
min_ttl_override_for os name = best_override (strtolower name) os none 0

-- ## modify_received

abbrev at_least : ℕ → Record → Record
at_least effective_min r = record r { ttl = max effective_min r.ttl }

abbrev minimum_at_least : ℕ → Rdata → Rdata
minimum_at_least effective_min (Rdata.soa s) =
    Rdata.soa (record s { minimum = max effective_min s.minimum })
minimum_at_least effective_min d = d

unfoldable pub apply_to_soa : ℕ → Record → Record
apply_to_soa effective_min r = record r {
  ttl = max effective_min r.ttl;
  sp = if r.type == DnsType.soa then minimum_at_least effective_min r.sp else r.sp;
}

unfoldable pub raise_ttls : ℕ → Message → Message
raise_ttls effective_min m =
    if rcode m == 0
    then record m {
      answers = map (at_least effective_min) m.answers;
      authorities = map (apply_to_soa effective_min) m.authorities;
    }
    else if rcode m == 3
    then record m { authorities = map (apply_to_soa effective_min) m.authorities }
    else m

unfoldable pub modify_received : List MinTtlOverride → ℕ → Message → Message
modify_received os max_ttl m = elim m.questions [
  | [] ↦ m
  | q ∷ qs ↦ if not (is_empty qs) then m else elim (min_ttl_override_for os q.name) [
    | none ↦ m
    | some ttl ↦ raise_ttls (min ttl max_ttl) m
  ]
]
