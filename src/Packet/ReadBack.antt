-- ===== src/Packet/ReadBack.antt =====
-- What `parse_dns_message` makes of a record that stands in the packet.
use behind.Base.{
  ℕ, ◌+◌, ◌-◌, ◌^◌, ◌≤◌, ◌<◌, ◌≡◌, refl, sym, ap, ◌∙◌, some, List, [], ◌∷◌, ◌++◌, arith, Bytes,
  length, take, drop, Bool, true, false, ◌==◌, ◌&&◌, ◌||◌, not, if◌then◌else◌, take-length-append,
  ==_iff,
}
use mathlib.Core.Path.{subst}
use behind.Message.DnsType
use behind.Message.{
  Record, Soa, Rdata, null, cname, ptr, ns, mx, soa, https, soa_of, name_of_cname, name_of_ptr,
  name_of_ns, mx_of, https_of, is_empty,
}
use behind.Misc.{strtolower}
use behind.Name.{name_ok, decode_name, u16_bytes}
use behind.Name.Exact.{decode_name_bounds}
use behind.Packet.{u16_of, u32_of, u32_bytes, are_params, are_strings, are_options}
use behind.Packet.Make.{is_valid_bin}
use behind.Packet.Parse.{
  decode_rdata_name, last_name, parse_mx, parse_soa, parse_https, has_pointer, parse_rdata,
}
use behind.Packet.Pieces.{Piece, raw, dname, Sits}
use behind.Packet.Rdata.{name_pieces, mx_pieces, soa_pieces, soa_numbers, https_pieces, bin_pieces}

-- ## Numbers

pub u16_of-bytes : (v : ℕ) (rest : Bytes) → v < 65536 → u16_of (u16_bytes v ++ rest) ≡ v
unfolding u16_of
u16_of-bytes v rest h = omega arith

pub u32_of-bytes : (v : ℕ) (rest : Bytes) → v < 2 ^ 32 → u32_of (u32_bytes v ++ rest) ≡ v
unfolding u32_of
u32_of-bytes v rest h = omega arith

-- ## Names

module _ (packet : Bytes) where
  decode_rdata_name-at :
      (at stop : ℕ) {n : Bytes} {k : ℕ}
      → decode_name packet at ≡ name_ok n k
      → at + k ≤ stop
      → decode_rdata_name packet stop at ≡ some (n, at + k)
  unfolding decode_rdata_name
  decode_rdata_name-at at stop {n} {k} h fits = ground arith

  last_name-Sits :
      (at end : ℕ) (n : Bytes)
      → Sits packet at (dname n ∷ []) end
      → last_name packet end at ≡ some (strtolower n)
  unfolding last_name
  last_name-Sits at end n (k, read, (ends, fits)) =
      ground (arith, decode_rdata_name-at at end read (omega arith))

  -- The types whose RDATA is one name.
  pub cname-read :
      (at end : ℕ) (v : Rdata) (ps : List Piece)
      → name_pieces (name_of_cname v) ≡ some ps
      → Sits packet at ps end
      → (n : Bytes) × (v ≡ cname n) × (last_name packet end at ≡ some (strtolower n))
  cname-read at end (cname n) ps h s = (
    n,
    refl,
    last_name-Sits at end n
        (subst (λ x. Sits packet at x end) (let e : ps ≡ dname n ∷ [] = cc in e) s),
  )
  cname-read at end _ ps h s = absurd (ground arith)

  pub ptr-read :
      (at end : ℕ) (v : Rdata) (ps : List Piece)
      → name_pieces (name_of_ptr v) ≡ some ps
      → Sits packet at ps end
      → (n : Bytes) × (v ≡ ptr n) × (last_name packet end at ≡ some (strtolower n))
  ptr-read at end (ptr n) ps h s = (
    n,
    refl,
    last_name-Sits at end n
        (subst (λ x. Sits packet at x end) (let e : ps ≡ dname n ∷ [] = cc in e) s),
  )
  ptr-read at end _ ps h s = absurd (ground arith)

  pub ns-read :
      (at end : ℕ) (v : Rdata) (ps : List Piece)
      → name_pieces (name_of_ns v) ≡ some ps
      → Sits packet at ps end
      → (n : Bytes) × (v ≡ ns n) × (last_name packet end at ≡ some (strtolower n))
  ns-read at end (ns n) ps h s = (
    n,
    refl,
    last_name-Sits at end n
        (subst (λ x. Sits packet at x end) (let e : ps ≡ dname n ∷ [] = cc in e) s),
  )
  ns-read at end _ ps h s = absurd (ground arith)

-- ## RDATA with names and numbers

-- The numbers of RDATA are within their types.
pub data AreWords : Rdata → Type 0 where
  null_words : AreWords null
  cname_words : {n : Bytes} → AreWords (cname n)
  ptr_words : {n : Bytes} → AreWords (ptr n)
  ns_words : {n : Bytes} → AreWords (ns n)
  mx_words : {k : ℕ} {n : Bytes} → k < 65536 → AreWords (mx k n)
  soa_words :
      {s : Soa}
      → s.serial < 2 ^ 32
      → s.refresh < 2 ^ 32
      → s.retry < 2 ^ 32
      → s.expire < 2 ^ 32
      → s.minimum < 2 ^ 32
      → AreWords (soa s)
  https_words : {k : ℕ} {n p : Bytes} → k < 65536 → AreWords (https k n p)

abbrev pub lower_soa : Soa → Soa
lower_soa s = record s { nname = strtolower s.nname; rname = strtolower s.rname }

-- The reader has the names of RDATA in lower case.
abbrev pub lower_rdata : Rdata → Rdata
lower_rdata null = null
lower_rdata (cname n) = cname (strtolower n)
lower_rdata (ptr n) = ptr (strtolower n)
lower_rdata (ns n) = ns (strtolower n)
lower_rdata (mx k n) = mx k (strtolower n)
lower_rdata (soa s) = soa (lower_soa s)
lower_rdata (https k n p) = https k (strtolower n) p

module _ (packet : Bytes) where
  pub mx-read :
      (at end rdlen : ℕ) (v : Rdata) (ps : List Piece)
      → mx_pieces (mx_of v) ≡ some ps
      → AreWords v
      → Sits packet at ps end
      → end ≡ at + rdlen
      → parse_mx packet at rdlen ≡ some (lower_rdata v)
  unfolding parse_mx
  mx-read at end rdlen (mx k n) ps h (mx_words word) s sized =
      let e : ps ≡ raw (u16_bytes k) ∷ dname n ∷ [] = cc in
      let (here, fits, name) = subst (λ x. Sits packet at x end) e s in
      let number : u16_of (drop at packet) ≡ k = ap u16_of here ∙ u16_of-bytes k _ word in
      let (m, read, (ends, _)) = name in
      let pos = decode_name_bounds packet (at + 2) n m read in
      let found = last_name-Sits packet (at + 2) end n name in ground (arith, number, found, pos)
  mx-read at end rdlen _ ps h w s sized = absurd (ground arith)

  pub soa-read :
      (at end rdlen : ℕ) (v : Rdata) (ps : List Piece)
      → soa_pieces (soa_of v) ≡ some ps
      → AreWords v
      → Sits packet at ps end
      → end ≡ at + rdlen
      → parse_soa packet at rdlen ≡ some (lower_rdata v)
  unfolding parse_soa
  soa-read at end rdlen (soa v) ps h (soa_words w1 w2 w3 w4 w5) s sized =
      let e : ps ≡ dname v.nname ∷ dname v.rname ∷ raw (soa_numbers v) ∷ [] = cc in
      let (k, read, (m, read', (here, fits, (ends, _)))) = subst (λ x. Sits packet at x end) e s in
      let first = decode_rdata_name-at packet at (at + rdlen) read (omega arith) in
      let second = decode_rdata_name-at packet (at + k) (at + rdlen) read' (omega arith) in
      let d = drop (at + k + m) packet in
      let n1 : u32_of d ≡ v.serial = ap u32_of here ∙ u32_of-bytes v.serial _ w1 in
      let n2 : u32_of (drop 4 d) ≡ v.refresh =
        ap (λ x. u32_of (drop 4 x)) here ∙ u32_of-bytes v.refresh _ w2 in
      let n3 : u32_of (drop 8 d) ≡ v.retry =
        ap (λ x. u32_of (drop 8 x)) here ∙ u32_of-bytes v.retry _ w3 in
      let n4 : u32_of (drop 12 d) ≡ v.expire =
        ap (λ x. u32_of (drop 12 x)) here ∙ u32_of-bytes v.expire _ w4 in
      let n5 : u32_of (drop 16 d) ≡ v.minimum =
        ap (λ x. u32_of (drop 16 x)) here ∙ u32_of-bytes v.minimum _ w5 in
      let left : (at + rdlen - (at + k + m) == 20) ≡ true = (==_iff _ _).1 (omega arith) in
      rw (first, parse_soa, second, left)
        λ i. some (
          soa (record {
            nname = strtolower v.nname;
            rname = strtolower v.rname;
            serial = n1 i;
            refresh = n2 i;
            retry = n3 i;
            expire = n4 i;
            minimum = n5 i;
          }))
  soa-read at end rdlen _ ps h w s sized = absurd (ground arith)

  pub https-read :
      (at end rdlen : ℕ) (v : Rdata) (ps : List Piece)
      → https_pieces (https_of v) ≡ some ps
      → AreWords v
      → Sits packet at ps end
      → end ≡ at + rdlen
      → parse_https packet at rdlen ≡ some (lower_rdata v)
  unfolding parse_https
  https-read at end rdlen (https k n p) ps h (https_words word) s sized =
      let valid : are_params (length p) true 0 p ≡ true = ground arith in
      let e : ps ≡ raw (u16_bytes k) ∷ dname n ∷ raw p ∷ [] = ground arith in
      let (here, fits, (m, read, (there, fits', (ends, _)))) =
        subst (λ x. Sits packet at x end) e s in
      let number : u16_of (drop at packet) ≡ k = ap u16_of here ∙ u16_of-bytes k _ word in
      let pos = decode_name_bounds packet (at + 2) n m read in
      let name = decode_rdata_name-at packet (at + 2) (at + rdlen) read (omega arith) in
      let params : take (at + rdlen - (at + 2 + m)) (drop (at + 2 + m) packet) ≡ p =
        ap (take (at + rdlen - (at + 2 + m))) there
        ∙ ap (λ x. take x (p ++ drop (at + 2 + m + length p) packet)) (omega arith)
        ∙ take-length-append p (drop (at + 2 + m + length p) packet) in
      ground (arith, number, name, params, pos)
  https-read at end rdlen _ ps h w s sized = absurd (ground arith)

-- ## Records

-- A record before its RDATA is read.
abbrev pub fresh : Bytes → Record → Record
fresh name r = record {
  name = name;
  type = r.type;
  clas = r.clas;
  ttl = r.ttl;
  expire = 0;
  bin = [];
  sp = null;
  cacheable = true;
}

abbrev pub is_named : ℕ → Bool
is_named t =
    t == DnsType.ptr
    || t == DnsType.cname
    || t == DnsType.ns
    || t == DnsType.mx
    || t == DnsType.soa
    || t == DnsType.https

-- The record as the reader has it, whether raw data may be copied aside.
abbrev pub read_record : Bytes → Record → Record
read_record name r =
    if is_named r.type
    then record (fresh name r) { sp = lower_rdata r.sp }
    else record (fresh name r) { bin = r.bin }

abbrev pub is_raw : ℕ → Bool
is_raw t = t == DnsType.a || t == DnsType.aaaa || t == DnsType.txt || t == DnsType.opt

-- A record of another type may get a different `cacheable` at another place.
abbrev pub without_cacheable : Record → Record
without_cacheable r = if is_named r.type || is_raw r.type then r else record r { cacheable = true }

abbrev pub IsReadBack : Bytes → Record → Record → Type 0
IsReadBack name r r' = without_cacheable r' ≡ read_record name r

abbrev pub may_opt : Bool → Bool → Bytes → Record → Bool
may_opt additional_section seen_opt name r =
    not (r.type == DnsType.opt) || (additional_section && is_empty name && not seen_opt)

raw-read :
    (packet : Bytes) (at end rdlen : ℕ) (bs : Bytes)
    → Sits packet at (raw bs ∷ []) end
    → end ≡ at + rdlen
    → (length bs ≡ rdlen) × (take rdlen (drop at packet) ≡ bs)
raw-read packet at end rdlen bs (here, fits, (ends, _)) sized =
    let same : length bs ≡ rdlen = omega arith in
    (
      same,
      ap (take rdlen) here
          ∙ ap (λ x. take x (bs ++ drop (at + length bs) packet)) (sym same)
          ∙ take-length-append bs (drop (at + length bs) packet),
    )

raw-without_cacheable :
    (name : Bytes) (r : Record) (b c : Bool)
    → (let r' : Record = record (fresh name r) { bin = r.bin; cacheable = b || c } in
        if b then r' else record r' { cacheable = true })
      ≡ record (fresh name r) { bin = r.bin }
raw-without_cacheable name r true c = refl
raw-without_cacheable name r false c = refl

pub bin-read :
    (packet : Bytes) (at end rdlen : ℕ) (add seen : Bool) (name : Bytes) (r : Record)
    (ps : List Piece)
    → is_named r.type ≡ false
    → may_opt add seen name r ≡ true
    → bin_pieces r ≡ some ps
    → Sits packet at ps end
    → end ≡ at + rdlen
    → (r' : Record) × (parse_rdata packet at rdlen add seen (fresh name r) ≡ some r')
      × IsReadBack name r r'
unfolding parse_rdata is_valid_bin are_strings are_options has_pointer
bin-read packet at end rdlen add seen name r ps kind opt h s sized =
    let valid : is_valid_bin r ≡ true = ground arith in
    let e : ps ≡ raw r.bin ∷ [] = ground arith in
    let (len, bytes) =
      raw-read packet at end rdlen r.bin (subst (λ x. Sits packet at x end) e s) sized in
    let c = is_raw r.type || not (has_pointer at r.bin) in
    (
      record (fresh name r) { bin = r.bin; cacheable = c },
      rw (parse_rdata, bytes) (ground arith),
      rw kind (raw-without_cacheable name r (is_raw r.type) (not (has_pointer at r.bin))),
    )
