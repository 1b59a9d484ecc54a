-- ===== src/Packet/ReadRecord.antt =====
-- The loop body of `ParseRecord` on a record that stands in the packet.
use behind.Base.{
  ℕ, ◌+◌, ◌-◌, ◌^◌, ◌<◌, ◌≡◌, refl, sym, ap, ◌∙◌, some, List, [], ◌∷◌, ◌++◌, arith, Bytes, length,
  drop, inl, inr, Bool, true, false, Bool-cases, ltb, ◌==◌, ◌&&◌, ◌||◌, map, All,
}
use mathlib.Core.Path.{subst}
use behind.Message.DnsType
use behind.Message.{Record}
use behind.Packet.{u16_of, u32_of}
use behind.Packet.Parse.{read_name, set_sp, set_name, parse_rdata, parse_record, parse_records}
use behind.Packet.Pieces.{Piece, Sits, Sits-inside}
use behind.Packet.Records.{RecordAt, RecordAt-append}
use behind.Packet.Rdata.{rdata_pieces}
use behind.Packet.ReadBack.{
  u16_of-bytes, u32_of-bytes, cname-read, ptr-read, ns-read, mx-read, soa-read, https-read,
  bin-read, AreWords, lower_rdata, fresh, is_named, read_record, without_cacheable, IsReadBack,
  may_opt,
}

-- The numbers of a record are within their types.
pub record IsWords (r : Record) : Type 0 where
  pub type_fits : r.type < 65536
  pub clas_fits : r.clas < 65536
  pub ttl_fits : r.ttl < 2 ^ 32
  pub rdata_fits : AreWords r.sp

module _ (packet : Bytes) (at end rdlen : ℕ) (add seen : Bool) (name : Bytes) (r : Record)
    (ps : List Piece) where
  abbrev Parsed : Type 0
  Parsed =
      (r' : Record) × (parse_rdata packet at rdlen add seen (fresh name r) ≡ some r')
      × IsReadBack name r r'

  named :
      is_named r.type ≡ true
      → parse_rdata packet at rdlen add seen (fresh name r)
        ≡ some (record (fresh name r) { sp = lower_rdata r.sp })
      → Parsed
  named kind h = (record (fresh name r) { sp = lower_rdata r.sp }, h, rw kind refl)

  named-read :
      is_named r.type ≡ true
      → rdata_pieces r ≡ some ps
      → AreWords r.sp
      → Sits packet at ps end
      → end ≡ at + rdlen
      → parse_rdata packet at rdlen add seen (fresh name r)
        ≡ some (record (fresh name r) { sp = lower_rdata r.sp })
  unfolding parse_rdata set_sp set_name
  named-read kind h w s sized = elim (Bool-cases (r.type == DnsType.ptr)) [
    | inl t ↦
        let (n, v, read) = ptr-read packet at end r.sp ps (ground arith) s in
        ground (arith, v, read, sized)
    | inr t1 ↦ elim (Bool-cases (r.type == DnsType.cname)) [
      | inl t ↦
          let (n, v, read) = cname-read packet at end r.sp ps (ground arith) s in
          ground (arith, v, read, sized)
      | inr t2 ↦ elim (Bool-cases (r.type == DnsType.ns)) [
        | inl t ↦
            let (n, v, read) = ns-read packet at end r.sp ps (ground arith) s in
            ground (arith, v, read, sized)
        | inr t3 ↦ elim (Bool-cases (r.type == DnsType.mx)) [
          | inl t ↦
              let read = mx-read packet at end rdlen r.sp ps (ground arith) w s sized in
              ground (arith, read)
          | inr t4 ↦ elim (Bool-cases (r.type == DnsType.soa)) [
            | inl t ↦
                let read = soa-read packet at end rdlen r.sp ps (ground arith) w s sized in
                ground (arith, read)
            | inr t5 ↦
                let t : (r.type == DnsType.https) ≡ true = ground arith in
                let read = https-read packet at end rdlen r.sp ps (ground arith) w s sized in
                ground (arith, read)
          ]
        ]
      ]
    ]
  ]

pub parse_rdata-read :
    (packet : Bytes) (add seen : Bool) (name : Bytes) (r : Record) {at end : ℕ}
    → (v : RecordAt packet at name r end) → IsWords r
    → may_opt add seen name r ≡ true
    → Parsed packet v.middle end v.rdlen add seen name r v.pieces
parse_rdata-read packet add seen name r {at} {end} v w opt = elim (Bool-cases (is_named r.type)) [
  | inl kind ↦ named packet v.middle end v.rdlen add seen name r v.pieces kind (
      named-read packet v.middle end v.rdlen add seen name r v.pieces kind v.pieces_is w.rdata_fits
        v.body v.sized)
  | inr kind ↦
      bin-read packet v.middle end v.rdlen add seen name r v.pieces kind opt
        (let h = v.pieces_is in ground arith) v.body v.sized
]

-- Record by record, the reader finds what was written.
pub parse_record-read :
    (packet : Bytes) (add seen : Bool) (name : Bytes) (r : Record) {at end : ℕ}
    → RecordAt packet at name r end
    → IsWords r
    → may_opt add seen name r ≡ true
    → (r' : Record) × (parse_record packet add at seen
        ≡ some (r', end, seen || r.type == DnsType.opt))
      × IsReadBack name r r'
unfolding parse_record read_name
parse_record-read packet add seen name r {at} {end} v w opt =
    let (k, read, (here, fits, (ends, inside))) = v.head in
    let d = drop (at + k) packet in
    let type_is : u16_of d ≡ r.type = ap u16_of here ∙ u16_of-bytes r.type _ w.type_fits in
    let clas_is : u16_of (drop 2 d) ≡ r.clas =
      ap (λ x. u16_of (drop 2 x)) here ∙ u16_of-bytes r.clas _ w.clas_fits in
    let ttl_is : u32_of (drop 4 d) ≡ r.ttl =
      ap (λ x. u32_of (drop 4 x)) here ∙ u32_of-bytes r.ttl _ w.ttl_fits in
    let rdlen_is : u16_of (drop 8 d) ≡ v.rdlen =
      ap (λ x. u16_of (drop 8 x)) here ∙ u16_of-bytes v.rdlen _ (omega (arith, v.small)) in
    let (r', parsed, back) = parse_rdata-read packet add seen name r v w opt in
    let name_is : read_name packet at ≡ some (name, at + k) = ground (arith, read) in
    let inside = Sits-inside packet v.middle end v.pieces v.body in
    let room : ltb (length packet - (at + k)) 10 ≡ false = ground arith in
    let fits : ltb (length packet - (at + k + 10)) v.rdlen ≡ false = ground (arith, v.sized) in
    let end_is : at + k + 10 + u16_of (drop 8 d) ≡ end = omega (arith, v.sized, rdlen_is) in
    let here_parsed =
      subst (λ x. parse_rdata packet x v.rdlen add seen (fresh name r) ≡ some r') (sym ends)
        parsed in
    (
      r',
      rw (name_is, parse_record, type_is, clas_is, ttl_is, rdlen_is, room, fits, here_parsed)
          (λ i. some (r', end_is i, seen || type_is i == DnsType.opt)),
      back,
    )

-- ## Sections

-- The records stand one behind the other.
abbrev pub RecordsAt : Bytes → (Record → Bytes) → ℕ → List Record → ℕ → Type 0
RecordsAt packet owner at [] end = at ≡ end
RecordsAt packet owner at (r ∷ rs) end =
    (next : ℕ) × RecordAt packet at (owner r) r next × RecordsAt packet owner next rs end

pub RecordsAt-append :
    (packet more : Bytes) (owner : Record → Bytes) (at end : ℕ) (rs : List Record)
    → RecordsAt packet owner at rs end
    → RecordsAt (packet ++ more) owner at rs end
RecordsAt-append packet more owner at end [] h = h
RecordsAt-append packet more owner at end (r ∷ rs) (next, v, later) =
    (next, RecordAt-append packet more v, RecordsAt-append packet more owner next end rs later)

-- There is one OPT record at most, of the root, and only among the additional records.
abbrev pub may_opts : Bool → Bool → (Record → Bytes) → List Record → Bool
may_opts add seen owner [] = true
may_opts add seen owner (r ∷ rs) =
    may_opt add seen (owner r) r && may_opts add (seen || r.type == DnsType.opt) owner rs

abbrev pub AreReadBack : (Record → Bytes) → List Record → List Record → Type 0
AreReadBack owner rs rs' = map without_cacheable rs' ≡ map (λ r. read_record (owner r) r) rs

abbrev pub seen_after : Bool → List Record → Bool
seen_after seen [] = seen
seen_after seen (r ∷ rs) = seen_after (seen || r.type == DnsType.opt) rs

pub parse_records-read :
    (packet : Bytes) (add seen : Bool) (owner : Record → Bytes) (at end : ℕ) (rs : List Record)
    → RecordsAt packet owner at rs end
    → All IsWords rs
    → may_opts add seen owner rs ≡ true
    → (rs' : List Record) × (parse_records packet add (length rs) at seen
        ≡ some (rs', end, seen_after seen rs))
      × AreReadBack owner rs rs'
unfolding parse_records
parse_records-read packet add seen owner at end [] h w opts =
    ([], ap (λ x. some ([], x, seen)) h, refl)
parse_records-read packet add seen owner at end (r ∷ rs) (next, v, later) w opts =
    let (r', here, back) = parse_record-read packet add seen (owner r) r v w.0 (ground arith) in
    let (rs', rest, backs) =
      parse_records-read packet add (seen || r.type == DnsType.opt) owner next end rs later w.1
        (ground arith) in
    (r' ∷ rs', rw (here, parse_records, rest) refl, λ i. back i ∷ backs i)
