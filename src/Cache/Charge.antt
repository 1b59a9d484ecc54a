-- ===== src/Cache/Charge.antt =====
-- The keys of the cache and what an entry is charged: `CacheKey`, `make_key`, `add_size`,
-- `record_size` and `message_size` of src/Behind.cpp.
use behind.Base.{
  ℕ, ◌+◌, ◌-◌, ◌%◌, ◌^◌, Bool, ◌&&◌, Option, none, some, List, [], ◌∷◌, ◌++◌, Bytes, ltb, ◌==◌,
  if◌then◌else◌, length, bytes_eq,
}
use behind.Message.DnsType
use behind.Misc.{strtolower}
use behind.Message.{Rdata, null, cname, ptr, ns, mx, soa, https, Record, Message, Question}

-- ## Keys

pub record CacheKey : Type 0 where
  pub name : Bytes
  pub type : ℕ
  pub clas : ℕ

-- `CacheKey::operator==`
unfoldable pub key_eq : CacheKey → CacheKey → Bool
unfolding bytes_eq
key_eq a b = a.type == b.type && a.clas == b.clas && bytes_eq a.name b.name

unfoldable pub make_key : Bytes → ℕ → ℕ → CacheKey
unfolding strtolower
make_key name type clas = record { name = strtolower name; type = type; clas = clas }

-- ## Sizes

abbrev pub size_max : ℕ
size_max = 2 ^ 64 - 1

abbrev pub wrap : ℕ → ℕ
wrap n = n % 2 ^ 64

-- The sizes of the structs, which the platform fixes.
pub record Sizes : Type 0 where
  pub sizeof_item : ℕ
  pub sizeof_question : ℕ
  pub sizeof_record : ℕ
  pub sizeof_cname : ℕ
  pub sizeof_ptr : ℕ
  pub sizeof_ns : ℕ
  pub sizeof_mx : ℕ
  pub sizeof_soa : ℕ
  pub sizeof_https : ℕ

-- `add_size`; `none` is its result false.
unfoldable pub add_size : ℕ → ℕ → Option ℕ
add_size total value = if ltb (size_max - total) value then none else some (total + value)

unfoldable pub add_sizes : ℕ → List ℕ → Option ℕ
unfolding add_size
add_sizes total [] = some total
add_sizes total (v ∷ vs) = elim (add_size total v) [ none ↦ none | some t ↦ add_sizes t vs ]

-- What `record_size` adds for the value that the accessor of the record's type finds.
unfoldable pub rdata_sizes : Sizes → ℕ → Rdata → List ℕ
rdata_sizes z t null = []
rdata_sizes z t (cname n) = if t == DnsType.cname then wrap (z.sizeof_cname + length n) ∷ [] else []
rdata_sizes z t (ptr n) = if t == DnsType.ptr then wrap (z.sizeof_ptr + length n) ∷ [] else []
rdata_sizes z t (ns n) = if t == DnsType.ns then wrap (z.sizeof_ns + length n) ∷ [] else []
rdata_sizes z t (mx p n) = if t == DnsType.mx then wrap (z.sizeof_mx + length n) ∷ [] else []
rdata_sizes z t (soa s) =
    if t == DnsType.soa then z.sizeof_soa ∷ length s.nname ∷ length s.rname ∷ [] else []
rdata_sizes z t (https p n d) =
    if t == DnsType.https then z.sizeof_https ∷ length n ∷ length d ∷ [] else []

abbrev or_max : Option ℕ → ℕ
or_max none = size_max
or_max (some n) = n

unfoldable pub record_size : Sizes → Record → ℕ
unfolding add_sizes rdata_sizes
record_size z r =
    or_max (
      add_sizes (wrap (z.sizeof_record + length r.name + length r.bin)) (rdata_sizes z r.type r.sp))

-- The two loops of `message_size`; `none` is its early return of SIZE_MAX.
unfoldable pub questions_size : Sizes → ℕ → List Question → Option ℕ
unfolding add_sizes
questions_size z size [] = some size
questions_size z size (q ∷ qs) = elim (add_sizes size (z.sizeof_question ∷ length q.name ∷ [])) [
  | none ↦ none
  | some t ↦ questions_size z t qs
]

unfoldable pub records_size : Sizes → ℕ → List Record → Option ℕ
unfolding add_size record_size
records_size z size [] = some size
records_size z size (r ∷ rs) =
    if record_size z r == size_max
    then none
    else elim (add_size size (record_size z r)) [ none ↦ none | some t ↦ records_size z t rs ]

unfoldable pub message_size : Sizes → CacheKey → Message → ℕ
unfolding questions_size records_size
message_size z key m =
    or_max (elim (questions_size z (wrap (z.sizeof_item + length key.name)) m.questions) [
      | none ↦ none
      | some t ↦ records_size z t (m.answers ++ m.authorities)
    ])
