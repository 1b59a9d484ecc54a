-- ===== src/Packet/Rdata.antt =====
-- What `write_dns_answer_rr` leaves of RDATA in the packet: its pieces.
use behind.Base.{
  ℕ, ◌≡◌, refl, Option, none, some, List, [], ◌∷◌, ◌++◌, append-nil, arith, Bytes, length,
  Option-cases, inl, inr, Bool, true, false, ltb, ◌==◌, if◌then◌else◌,
}
use behind.Message.DnsType
use behind.Message.{Record, Soa, soa_of, name_of_cname, name_of_ptr, name_of_ns, mx_of, https_of}
use behind.Name.{u16_bytes, write_name}
use behind.Packet.{u32_bytes, are_params}
use behind.Packet.Make.{
  Output, put, write_rdata_name, write_mx, write_soa, write_https, is_valid_bin, write_rdata,
}
use behind.Packet.Pieces.{Piece, raw, dname, write_pieces}

-- ## The pieces of RDATA

abbrev pub name_pieces : Option Bytes → Option (List Piece)
name_pieces none = none
name_pieces (some n) = some (dname n ∷ [])

abbrev pub mx_pieces : Option (ℕ × Bytes) → Option (List Piece)
mx_pieces none = none
mx_pieces (some (preference, exchange)) = some (raw (u16_bytes preference) ∷ dname exchange ∷ [])

abbrev pub soa_numbers : Soa → Bytes
soa_numbers s =
    u32_bytes s.serial
    ++ (u32_bytes s.refresh ++ (u32_bytes s.retry ++ (u32_bytes s.expire ++ u32_bytes s.minimum)))

abbrev pub soa_pieces : Option Soa → Option (List Piece)
soa_pieces none = none
soa_pieces (some s) = some (dname s.nname ∷ dname s.rname ∷ raw (soa_numbers s) ∷ [])

abbrev pub https_pieces : Option (ℕ × Bytes × Bytes) → Option (List Piece)
https_pieces none = none
https_pieces (some (priority, name, params)) =
    if ltb 65535 (length params)
    then none
    else if are_params (length params) true 0 params
    then some (raw (u16_bytes priority) ∷ dname name ∷ raw params ∷ [])
    else none

abbrev pub bin_pieces : Record → Option (List Piece)
bin_pieces r =
    if ltb 65535 (length r.bin)
    then none
    else if is_valid_bin r
    then some (raw r.bin ∷ [])
    else none

abbrev pub rdata_pieces : Record → Option (List Piece)
rdata_pieces r =
    if r.type == DnsType.ptr
    then name_pieces (name_of_ptr r.sp)
    else if r.type == DnsType.cname
    then name_pieces (name_of_cname r.sp)
    else if r.type == DnsType.ns
    then name_pieces (name_of_ns r.sp)
    else if r.type == DnsType.mx
    then mx_pieces (mx_of r.sp)
    else if r.type == DnsType.soa
    then soa_pieces (soa_of r.sp)
    else if r.type == DnsType.https
    then https_pieces (https_of r.sp)
    else bin_pieces r

abbrev write_optional : Output → Option (List Piece) → Option Output
write_optional o none = none
write_optional o (some ps) = write_pieces o ps

write_rdata_name-pieces :
    (o : Output) (n : Option Bytes) → write_rdata_name o n ≡ write_optional o (name_pieces n)
unfolding write_rdata_name write_pieces
write_rdata_name-pieces o none = refl
write_rdata_name-pieces o (some n) = ground arith

write_mx-pieces :
    (o : Output) (v : Option (ℕ × Bytes)) → write_mx o v ≡ write_optional o (mx_pieces v)
unfolding write_mx write_pieces
write_mx-pieces o none = refl
write_mx-pieces o (some (k, n)) = ground arith

write_soa-pieces : (o : Output) (v : Option Soa) → write_soa o v ≡ write_optional o (soa_pieces v)
unfolding write_soa write_pieces
write_soa-pieces o none = refl
write_soa-pieces o (some s) = ground arith

write_https-pieces :
    (o : Output) (v : Option (ℕ × Bytes × Bytes))
    → write_https o v ≡ write_optional o (https_pieces v)
unfolding write_https write_pieces are_params
write_https-pieces o none = refl
write_https-pieces o (some (k, n, [])) =
    elim (Option-cases (write_name (o.0 ++ u16_bytes k) o.1 n)) [
      | inl e ↦ ground arith
      | inr (p, e) ↦ ground (arith, append-nil p.0)
    ]
write_https-pieces o (some (k, n, c ∷ cs)) =
    elim (Option-cases (write_name (o.0 ++ u16_bytes k) o.1 n)) [
      | inl e ↦
          rw (e, write_https)
            (params-none (ltb 65535 (length (c ∷ cs))) _
              (raw (u16_bytes k) ∷ dname n ∷ raw (c ∷ cs) ∷ []) (rw (e, write_pieces) refl))
      | inr (p, e) ↦
          rw (e, write_https)
            (params-some (ltb 65535 (length (c ∷ cs))) _
              (raw (u16_bytes k) ∷ dname n ∷ raw (c ∷ cs) ∷ []) (rw (e, write_pieces) refl))
    ]
  where
    params-none :
        (big ok : Bool) (ps : List Piece)
        → none ≡ write_optional o (some ps)
        → none ≡ write_optional o (if big then none else if ok then some ps else none)
    params-none true ok ps h = refl
    params-none false true ps h = h
    params-none false false ps h = refl

    params-some :
        (big ok : Bool) (ps : List Piece) {q : Output}
        → some q ≡ write_optional o (some ps)
        → (if big then none else if ok then some q else none)
          ≡ write_optional o (if big then none else if ok then some ps else none)
    params-some true ok ps h = refl
    params-some false true ps h = h
    params-some false false ps h = refl

write_bin-pieces :
    (o : Output) (r : Record)
    → (if ltb 65535 (length r.bin)
        then none
        else if is_valid_bin r
        then some (put o r.bin)
        else none)
      ≡ write_optional o (bin_pieces r)
unfolding write_pieces
write_bin-pieces o r = ground arith

-- RDATA is written as those pieces, or not at all.
pub write_rdata-pieces :
    (o : Output) (r : Record) → write_rdata o r ≡ write_optional o (rdata_pieces r)
unfolding write_rdata
write_rdata-pieces o r = ground (
  arith,
  write_rdata_name-pieces o (name_of_ptr r.sp),
  write_rdata_name-pieces o (name_of_cname r.sp),
  write_rdata_name-pieces o (name_of_ns r.sp),
  write_mx-pieces o (mx_of r.sp),
  write_soa-pieces o (soa_of r.sp),
  write_https-pieces o (https_of r.sp),
  write_bin-pieces o r,
)

pub write_rdata-some :
    (o : Output) (r : Record) (p : Output)
    → write_rdata o r ≡ some p
    → (ps : List Piece) × (rdata_pieces r ≡ some ps) × (write_pieces o ps ≡ some p)
write_rdata-some o r p h = elim (Option-cases (rdata_pieces r)) [
  | inl e ↦ absurd (let q = write_rdata-pieces o r in let f = rw e at q in cc)
  | inr (ps, e) ↦ (ps, e, let q = write_rdata-pieces o r in let f = rw e at q in cc)
]
