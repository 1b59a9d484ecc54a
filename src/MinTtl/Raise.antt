-- ===== src/MinTtl/Raise.antt =====
-- `Behind::modify_received` raises what the cache takes for the time to live of a response.
use behind.Base.{
  ℕ, ◌≤◌, ◌≡◌, refl, ap, ◌∙◌, sym, min, max, map, false, Option, none, some, List, [], ◌∷◌, arith,
  ◌==◌, Bool-cases, inl, inr,
}
use behind.Message.DnsType
use behind.Message.{Message, Record, Rdata, Soa, get_soa, soa_of, is_empty}
use behind.MinTtl.{at_least, minimum_at_least, apply_to_soa, raise_ttls}
use behind.Cache.{positive_ttl, negative_ttl, message_ttl, uint32_max}

positive_ttl-raise :
    (e s t : ℕ) (rs : List Record)
    → positive_ttl s rs ≡ some t
    → positive_ttl (max e s) (map (at_least e) rs) ≡ some (max e t)
unfolding positive_ttl
positive_ttl-raise e s t [] h = ap some (ground (arith, h))
positive_ttl-raise e s t (r ∷ rs) h =
    let live : (r.ttl == 0) ≡ false = ground (arith, h) in
    let raised : (max e r.ttl == 0) ≡ false = ground arith in
    let ih = positive_ttl-raise e (min s r.ttl) t rs (ground (arith, h)) in
    let least : min (max e s) (max e r.ttl) ≡ max e (min s r.ttl) = omega arith in
    rw raised (ap (λ n. positive_ttl n (map (at_least e) rs)) least ∙ ih)

-- What the accessor finds in a record, raised.
abbrev raised_soa : ℕ → Option Soa → Option Soa
raised_soa e none = none
raised_soa e (some s) = some (record s { minimum = max e s.minimum })

soa_of-raise : (e : ℕ) (d : Rdata) → soa_of (minimum_at_least e d) ≡ raised_soa e (soa_of d)
soa_of-raise e Rdata.null = refl
soa_of-raise e (Rdata.cname n) = refl
soa_of-raise e (Rdata.ptr n) = refl
soa_of-raise e (Rdata.ns n) = refl
soa_of-raise e (Rdata.mx p n) = refl
soa_of-raise e (Rdata.soa s) = refl
soa_of-raise e (Rdata.https p n d) = refl

get_soa-raise : (e : ℕ) (r : Record) → get_soa (apply_to_soa e r) ≡ raised_soa e (get_soa r)
unfolding get_soa apply_to_soa
get_soa-raise e r = elim (Bool-cases (r.type == DnsType.soa)) [
  | inl is ↦ rw is (soa_of-raise e r.sp)
  | inr other ↦ rw other refl
]

apply_to_soa-ttl : (e : ℕ) (r : Record) → (apply_to_soa e r).ttl ≡ max e r.ttl
unfolding apply_to_soa
apply_to_soa-ttl e r = refl

-- One record of the loop, over what the accessor finds.
negative_step :
    (e t ttl raised_ttl : ℕ) (o : Option Soa) (rest raised : Option ℕ)
    → raised_ttl ≡ max e ttl
    → (rest ≡ some t → raised ≡ some (max e t))
    → elim o [ none ↦ rest | some s ↦ some (min ttl s.minimum) ] ≡ some t
    → elim (raised_soa e o) [ none ↦ raised | some s ↦ some (min raised_ttl s.minimum) ]
      ≡ some (max e t)
negative_step e t ttl raised_ttl none rest raised k ih h = ih h
negative_step e t ttl raised_ttl (some s) rest raised k ih h = ap some (ground (arith, h, k))

negative_ttl-raise :
    (e t : ℕ) (rs : List Record)
    → negative_ttl rs ≡ some t
    → negative_ttl (map (apply_to_soa e) rs) ≡ some (max e t)
unfolding negative_ttl
negative_ttl-raise e t [] h = absurd (cc)
negative_ttl-raise e t (r ∷ rs) h =
    rw (get_soa-raise e r, negative_ttl)
      (negative_step e t r.ttl (apply_to_soa e r).ttl (get_soa r) (negative_ttl rs)
        (negative_ttl (map (apply_to_soa e) rs)) (apply_to_soa-ttl e r) (negative_ttl-raise e t rs)
        h)

is_empty-map : (f : Record → Record) (rs : List Record) → is_empty (map f rs) ≡ is_empty rs
is_empty-map f [] = refl
is_empty-map f (r ∷ rs) = refl

-- A response that the cache would keep for a time is kept for that time or for the least one that
-- is configured, whichever is longer, once its times to live have been raised.
pub message_ttl-raise_ttls :
    (e t : ℕ) (m : Message)
    → e ≤ uint32_max
    → message_ttl m ≡ some t
    → message_ttl (raise_ttls e m) ≡ some (max e t)
unfolding message_ttl raise_ttls
message_ttl-raise_ttls e t m small h =
    let top : max e uint32_max ≡ uint32_max = omega arith in
    let pos : positive_ttl uint32_max m.answers ≡ some t
        → positive_ttl uint32_max (map (at_least e) m.answers) ≡ some (max e t) =
      λ k.
        ap (λ n. positive_ttl n (map (at_least e) m.answers)) (sym top)
        ∙ positive_ttl-raise e uint32_max t m.answers k in
    ground (arith, pos, negative_ttl-raise e t m.authorities, is_empty-map (at_least e) m.answers)
