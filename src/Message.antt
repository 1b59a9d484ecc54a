-- ===== src/Message.antt =====
-- DNS messages in memory: the structs of namespace dns in src/Behind.cpp (Header, Question,
-- Record and its RDATA, Message), and the operations on a whole message.
pub mod DnsType
use behind.Base.{
  ℕ, ◌+◌, ◌-◌, ◌*◌, ◌/◌, ◌%◌, min, max, Bool, true, false, not, ◌&&◌, ◌||◌, Option, none, some,
  List, [], ◌∷◌, ◌++◌, Bytes, ltb, leb, ◌==◌, if◌then◌else◌, length, bytes_eq, to_lower, map, all,
  codes,
}

abbrev pub class_in : ℕ
class_in = 1

pub record Header : Type 0 where
  pub id : ℕ
  pub flags : ℕ
  pub qdcount : ℕ
  pub ancount : ℕ
  pub nscount : ℕ
  pub arcount : ℕ

pub record Question : Type 0 where
  pub name : Bytes
  pub type : ℕ
  pub clas : ℕ

pub record Soa : Type 0 where
  pub nname : Bytes
  pub rname : Bytes
  pub serial : ℕ
  pub refresh : ℕ
  pub retry : ℕ
  pub expire : ℕ
  pub minimum : ℕ

-- What the untyped pointer `sp` refers to.
pub data Rdata : Type 0 where
  null : Rdata
  cname : Bytes → Rdata
  ptr : Bytes → Rdata
  ns : Bytes → Rdata
  mx : ℕ → Bytes → Rdata
  soa : Soa → Rdata
  https : ℕ → Bytes → Bytes → Rdata

pub record Record : Type 0 where
  pub name : Bytes
  pub type : ℕ
  pub clas : ℕ
  pub ttl : ℕ
  pub expire : ℕ
  pub bin : Bytes
  pub sp : Rdata
  pub cacheable : Bool

pub record Message : Type 0 where
  pub header : Header
  pub questions : List Question
  pub answers : List Record
  pub authorities : List Record
  pub additionals : List Record

-- `Record::soa` and the other accessors: the value is there if the type says so and `sp` is set.
-- The source sets `sp` only to a value of the record's own type, so its cast is the match here.
abbrev pub soa_of : Rdata → Option Soa
soa_of (Rdata.soa s) = some s
soa_of _ = none

abbrev pub name_of_cname : Rdata → Option Bytes
name_of_cname (Rdata.cname n) = some n
name_of_cname _ = none

abbrev pub name_of_ptr : Rdata → Option Bytes
name_of_ptr (Rdata.ptr n) = some n
name_of_ptr _ = none

abbrev pub name_of_ns : Rdata → Option Bytes
name_of_ns (Rdata.ns n) = some n
name_of_ns _ = none

abbrev pub mx_of : Rdata → Option (ℕ × Bytes)
mx_of (Rdata.mx preference exchange) = some (preference, exchange)
mx_of _ = none

abbrev pub https_of : Rdata → Option (ℕ × Bytes × Bytes)
https_of (Rdata.https priority name params) = some (priority, name, params)
https_of _ = none

unfoldable pub get_soa : Record → Option Soa
get_soa r = if r.type == DnsType.soa then soa_of r.sp else none

-- `flags & 0x000f`.
abbrev pub rcode : Message → ℕ
rcode m = m.header.flags % 16

abbrev pub is_empty {ℓ} : {A : Type ℓ} → List A → Bool
is_empty [] = true
is_empty (x ∷ xs) = false

-- ## normalize_negative_ttl

-- The loop, which ends at the first SOA record that carries its data.
unfoldable pub normalize_soa : List Record → List Record
normalize_soa [] = []
normalize_soa (r ∷ rs) = elim (get_soa r) [
  | none ↦ r ∷ normalize_soa rs
  | some s ↦ record r { ttl = min r.ttl s.minimum } ∷ rs
]

unfoldable pub normalize_negative_ttl : Message → Message
normalize_negative_ttl m =
    if rcode m == 3 || (rcode m == 0 && is_empty m.answers)
    then record m { authorities = normalize_soa m.authorities }
    else m
