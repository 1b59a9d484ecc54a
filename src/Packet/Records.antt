-- ===== src/Packet/Records.antt =====
-- What `write_dns_answer_rr` leaves in the packet: the pieces of the record, with the length of
-- its RDATA in front of it.
use behind.Base.{
  ℕ, ◌+◌, ◌-◌, ◌≤◌, ◌≡◌, sym, ap, ◌∙◌, some, List, [], ◌∷◌, ◌++◌, append_assoc, arith, Bytes,
  length, take, drop, length-append, Option-cases, inl, inr, Bool-cases, ltb, drop-length-append,
  take-length-append,
}
use mathlib.Core.Path.{subst}
use behind.Message.{Record}
use behind.Name.{NameMap, u16_bytes, write_name}
use behind.Name.RoundTrip.{IsTable}
use behind.Packet.Make.{Output, write_rdata, patch, patch_rdlen, record_head, write_dns_answer_rr}
use behind.Packet.Pieces.{Piece, raw, dname, write_pieces, Sits, Sits-append, Put}
use behind.Packet.Written.{write_pieces-Put, write_pieces-Alike}
use behind.Packet.Rdata.{rdata_pieces, write_rdata-some}

-- ## The record

pub record RecordAt (packet : Bytes) (at : ℕ) (name : Bytes) (r : Record) (end : ℕ) : Type 0 where
  pub rdlen : ℕ
  pub pieces : List Piece
  pub middle : ℕ
  pub pieces_is : rdata_pieces r ≡ some pieces
  pub head : Sits packet at (dname name ∷ raw (record_head r ++ u16_bytes rdlen) ∷ []) middle
  pub body : Sits packet middle pieces end
  pub sized : end ≡ middle + rdlen
  pub small : rdlen ≤ 65535

pub RecordAt-append :
    (packet more : Bytes) {at end : ℕ} {name : Bytes} {r : Record}
    → RecordAt packet at name r end
    → RecordAt (packet ++ more) at name r end
RecordAt-append packet more {at} {end} {name} {r} v = record {
  rdlen = v.rdlen;
  pieces = v.pieces;
  middle = v.middle;
  pieces_is = v.pieces_is;
  head =
      Sits-append packet more at v.middle
        (dname name ∷ raw (record_head r ++ u16_bytes v.rdlen) ∷ []) v.head;
  body = Sits-append packet more v.middle end v.pieces v.body;
  sized = v.sized;
  small = v.small;
}

pub record Recorded (header packet name : Bytes) (r : Record) (o : Output) : Type 0 where
  pub more : Bytes
  pub map : NameMap
  pub result_is : o ≡ (header ++ (packet ++ more), some map)
  pub stands : RecordAt (packet ++ more) (length packet) name r (length (packet ++ more))
  pub is_table : IsTable header (packet ++ more) map

pub patch-append :
    (head more : Bytes) (a b v : ℕ)
    → patch (length head) v ((head ++ (a ∷ b ∷ [])) ++ more) ≡ (head ++ u16_bytes v) ++ more
patch-append head more a b v =
    let bytes = a ∷ b ∷ [] in
    let e : length (head ++ bytes) ≡ length head + 2 = omega (arith, length-append head bytes) in
    let front : take (length head) ((head ++ bytes) ++ more) ≡ head =
      ap (take (length head)) (append_assoc head bytes more)
      ∙ take-length-append head (bytes ++ more) in
    let back : drop (length head + 2) ((head ++ bytes) ++ more) ≡ more =
      subst (λ n. drop n ((head ++ bytes) ++ more) ≡ more) e
        (drop-length-append (head ++ bytes) more) in
    (λ i. front i ++ (u16_bytes v ++ back i)) ∙ sym (append_assoc head (u16_bytes v) more)

-- The two runs, up to the RDATA and from there on, with the length of the second in the first.
Recorded-join :
    (header packet name : Bytes) (r : Record) (rdlen : ℕ) (ps : List Piece) {o p : Output}
    → rdata_pieces r ≡ some ps
    → rdlen ≤ 65535
    → length o.0 ≡ length p.0 + rdlen
    → (f : Put header packet (dname name ∷ raw (record_head r ++ u16_bytes rdlen) ∷ []) p)
    → Put header (packet ++ f.more) ps o
    → Recorded header packet name r o
Recorded-join header packet name r rdlen ps {o} {p} pieces_is small sized f b =
    let whole = append_assoc packet f.more b.more in
    let stands : RecordAt ((packet ++ f.more) ++ b.more) (length packet) name r
        (length ((packet ++ f.more) ++ b.more)) =
      record {
        rdlen = rdlen;
        pieces = ps;
        middle = length (packet ++ f.more);
        pieces_is = pieces_is;
        head =
            Sits-append (packet ++ f.more) b.more (length packet) (length (packet ++ f.more))
              (dname name ∷ raw (record_head r ++ u16_bytes rdlen) ∷ []) f.sits;
        body = b.sits;
        sized = omega (
          arith,
          sized,
          ap (λ x. length x.0) f.result_is,
          ap (λ x. length x.0) b.result_is,
          length-append header (packet ++ f.more),
          length-append header ((packet ++ f.more) ++ b.more),
          length-append (packet ++ f.more) b.more,
        );
        small = small;
      } in
    record {
      more = f.more ++ b.more;
      map = b.map;
      result_is = b.result_is ∙ ap (λ x. (header ++ x, some b.map)) whole;
      stands = subst (λ x. RecordAt x (length packet) name r (length x)) whole stands;
      is_table = subst (λ x. IsTable header x b.map) whole b.is_table;
    }

-- What is left of `patch_rdlen` where it succeeds.
pub patch_rdlen-some :
    (at : ℕ) (q o : Output)
    → patch_rdlen at (some q) ≡ some o
    → (length q.0 - at - 2 ≤ 65535) × (o ≡ (patch at (length q.0 - at - 2) q.0, q.1))
unfolding patch_rdlen
patch_rdlen-some at q o h = elim (Bool-cases (ltb 65535 (length q.0 - at - 2))) [
  | inl big ↦ absurd (ground arith)
  | inr fits ↦ (ground arith, sym (some-injective (rw (fits, patch_rdlen) at h)))
]
  where
    some-injective : {x y : Output} → some x ≡ some y → x ≡ y
    some-injective e = cc

write_dns_answer_rr-Patched :
    (header packet name : Bytes) (m : NameMap) (r : Record) (p q o : Output)
    → IsTable header packet m
    → write_name (header ++ packet) (some m) name ≡ some p
    → write_rdata ((p.0 ++ record_head r) ++ u16_bytes 0, p.1) r ≡ some q
    → patch_rdlen (length (p.0 ++ record_head r)) (some q) ≡ some o
    → Recorded header packet name r o
unfolding write_pieces
write_dns_answer_rr-Patched header packet name m r p q o t wrote rdata patched =
    let head = p.0 ++ record_head r in
    let (ps, pieces_is, run) = write_rdata-some (head ++ u16_bytes 0, p.1) r q rdata in
    let (small, o_is) = patch_rdlen-some (length head) q o patched in
    let rdlen = length q.0 - length head - 2 in
    let (q', run', (more, at_a, at_b)) =
      write_pieces-Alike (head ++ u16_bytes 0) (head ++ u16_bytes rdlen) p.1 ps q
        (omega (arith, length-append head (u16_bytes 0), length-append head (u16_bytes rdlen)))
        run in
    let same : o ≡ q' =
      o_is
      ∙ ap (λ x. (patch (length head) rdlen x, q.1)) at_a
      ∙ ap (λ x. (x, q.1)) (patch-append head more _ _ rdlen)
      ∙ sym at_b in
    let front = dname name ∷ raw (record_head r ++ u16_bytes rdlen) ∷ [] in
    let first : write_pieces (header ++ packet, some m) front
        ≡ some (head ++ u16_bytes rdlen, p.1) =
      rw (wrote, write_pieces)
        (ap (λ x. some (x, p.1)) (sym (append_assoc p.0 (record_head r) (u16_bytes rdlen)))) in
    let f = write_pieces-Put header packet m front (head ++ u16_bytes rdlen, p.1) t first in
    let b =
      write_pieces-Put header (packet ++ f.more) f.map ps q' f.is_table
        (subst (λ x. write_pieces x ps ≡ some q') f.result_is run') in
    let rdlen_is : length q'.0 ≡ length (head ++ u16_bytes rdlen) + rdlen = omega (
      arith,
      ap length at_a,
      length-append (head ++ u16_bytes 0) more,
      length-append head (u16_bytes 0),
      length-append head (u16_bytes rdlen),
      ap (λ x. length x.0) at_b,
      length-append (head ++ u16_bytes rdlen) more,
    ) in
    subst (Recorded header packet name r) (sym same)
      (Recorded-join header packet name r rdlen ps pieces_is small rdlen_is f b)

-- A record that is written stands in the packet.
pub write_dns_answer_rr-Recorded :
    (header packet name : Bytes) (m : NameMap) (r : Record) (o : Output)
    → IsTable header packet m
    → write_dns_answer_rr (header ++ packet, some m) name r ≡ some o
    → Recorded header packet name r o
unfolding write_dns_answer_rr patch_rdlen
write_dns_answer_rr-Recorded header packet name m r o t h =
    elim (Option-cases (write_name (header ++ packet) (some m) name)) [
      | inl failed ↦ absurd (ground arith)
      | inr (p, wrote) ↦
          let head = p.0 ++ record_head r in
          let h' : patch_rdlen (length head) (write_rdata (head ++ u16_bytes 0, p.1) r) ≡ some o =
            rw (wrote, write_dns_answer_rr) at h in
          elim (Option-cases (write_rdata (head ++ u16_bytes 0, p.1) r)) [
            | inl failed ↦ absurd (ground arith)
            | inr (q, rdata) ↦
                write_dns_answer_rr-Patched header packet name m r p q o t wrote rdata
                  (rw rdata at h')
          ]
    ]
