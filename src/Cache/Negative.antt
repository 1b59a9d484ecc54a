-- ===== src/Cache/Negative.antt =====
-- `normalize_negative_ttl`, and what the cache takes for the time to live of a negative response.
use behind.Base.{
  ℕ, ◌≡◌, refl, min, true, ◌&&◌, ◌||◌, Option, none, some, List, [], ◌∷◌, arith, ◌==◌, Option-cases,
  inl, inr,
}
use behind.Message.{
  Message, Record, get_soa, rcode, is_empty, normalize_soa, normalize_negative_ttl,
}
use behind.Cache.{negative_ttl, message_ttl}

-- The time to live of the first SOA record that carries its data.
abbrev pub soa_ttl : List Record → Option ℕ
soa_ttl [] = none
soa_ttl (r ∷ rs) = elim (get_soa r) [ none ↦ soa_ttl rs | some s ↦ some r.ttl ]

get_soa-ttl : (r : Record) (n : ℕ) → get_soa (record r { ttl = n }) ≡ get_soa r
unfolding get_soa
get_soa-ttl r n = refl

soa_ttl-normalize : (rs : List Record) → soa_ttl (normalize_soa rs) ≡ negative_ttl rs
unfolding normalize_soa negative_ttl
soa_ttl-normalize [] = refl
soa_ttl-normalize (r ∷ rs) = elim (Option-cases (get_soa r)) [
  | inl e ↦ ground (arith, e, soa_ttl-normalize rs)
  | inr (s, e) ↦ ground (arith, e, get_soa-ttl r (min r.ttl s.minimum))
]

negative_ttl-normalize : (rs : List Record) → negative_ttl (normalize_soa rs) ≡ negative_ttl rs
unfolding normalize_soa negative_ttl
negative_ttl-normalize [] = refl
negative_ttl-normalize (r ∷ rs) = elim (Option-cases (get_soa r)) [
  | inl e ↦ ground (arith, e, negative_ttl-normalize rs)
  | inr (s, e) ↦ ground (arith, e, get_soa-ttl r (min r.ttl s.minimum))
]

-- `normalize_negative_ttl` gives the first SOA record that carries its data, in a negative
-- response, the time to live that the cache keeps the response for, and does not change that time.
pub message_ttl-normalize_negative_ttl :
    (m : Message)
    → (rcode m == 3 || (rcode m == 0 && is_empty m.answers)) ≡ true
    → (soa_ttl (normalize_negative_ttl m).authorities ≡ message_ttl m)
      × (message_ttl (normalize_negative_ttl m) ≡ message_ttl m)
unfolding message_ttl normalize_negative_ttl
message_ttl-normalize_negative_ttl m h = (
  ground (arith, h, soa_ttl-normalize m.authorities),
  ground (arith, h, negative_ttl-normalize m.authorities),
)
