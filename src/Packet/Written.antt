-- ===== src/Packet/Written.antt =====
-- What `write_name` and plain writes leave in the buffer of `make_dns_packet`, for a list of pieces.
use behind.Base.{
  ◌+◌, ◌≡◌, ◌≢◌, refl, sym, ap, ◌∙◌, Option, none, some, List, [], ◌∷◌, ◌++◌, append_assoc,
  append-nil, arith, Bytes, length, true, length-append, Option-cases, inl, inr,
}
use mathlib.Core.Path.{subst}
use behind.Name.{
  NameMap, name_ok, decode_name, write_name, write_labels, note_suffix, usable_entry, join_dots,
  split_dots, check_labels, u16_bytes,
}
use behind.Name.Write.{AreEntries-append}
use behind.Name.RoundTrip.{IsTable, write_name-Wrote, write_name-IsEncodable_iff}
use behind.Packet.Make.{Output}
use behind.Packet.Pieces.{Piece, raw, dname, write_pieces, Sits, decode_name-append, Put, raw-sits}

pub IsTable-append :
    (header packet more : Bytes) (m : NameMap)
    → IsTable header packet m
    → IsTable header (packet ++ more) m
IsTable-append header packet more m t = record {
  at_start = t.at_start;
  entries = AreEntries-append packet more m.entries t.entries;
}

module _ (header packet : Bytes) (ps : List Piece) (o : Output) where
  Put-raw : (bs : Bytes) → Put header (packet ++ bs) ps o → Put header packet (raw bs ∷ ps) o
  Put-raw bs w =
      let whole = append_assoc packet bs w.more in
      record {
        more = bs ++ w.more;
        map = w.map;
        result_is = w.result_is ∙ ap (λ x. (header ++ x, some w.map)) whole;
        sits = (
          raw-sits packet bs w.more,
          omega (arith, length-append packet (bs ++ w.more), length-append bs w.more),
          subst (λ n. Sits (packet ++ (bs ++ w.more)) n ps (length (packet ++ (bs ++ w.more))))
              (length-append packet bs)
              (subst (λ x. Sits x (length (packet ++ bs)) ps (length x)) whole w.sits),
        );
        is_table = subst (λ x. IsTable header x w.map) whole w.is_table;
      }

  Put-dname :
      (name bs : Bytes)
      → decode_name (packet ++ bs) (length packet) ≡ name_ok name (length bs)
      → Put header (packet ++ bs) ps o
      → Put header packet (dname name ∷ ps) o
  Put-dname name bs read w =
      let whole = append_assoc packet bs w.more in
      record {
        more = bs ++ w.more;
        map = w.map;
        result_is = w.result_is ∙ ap (λ x. (header ++ x, some w.map)) whole;
        sits = (
          length bs,
          subst (λ x. decode_name x (length packet) ≡ name_ok name (length bs)) whole
              (decode_name-append (packet ++ bs) w.more (length packet) read),
          subst (λ n. Sits (packet ++ (bs ++ w.more)) n ps (length (packet ++ (bs ++ w.more))))
              (length-append packet bs)
              (subst (λ x. Sits x (length (packet ++ bs)) ps (length x)) whole w.sits),
        );
        is_table = subst (λ x. IsTable header x w.map) whole w.is_table;
      }

-- Whatever is written sits in the packet, and the table still names what sits there.
pub write_pieces-Put :
    (header packet : Bytes) (m : NameMap) (ps : List Piece) (o : Output)
    → IsTable header packet m
    → write_pieces (header ++ packet, some m) ps ≡ some o
    → Put header packet ps o
unfolding write_pieces
write_pieces-Put header packet m [] o t h = record {
  more = [];
  map = m;
  result_is =
      let e : o ≡ (header ++ packet, some m) = cc in
      e ∙ ap (λ x. (header ++ x, some m)) (sym (append-nil packet));
  sits = (ap length (sym (append-nil packet)), omega arith);
  is_table = IsTable-append header packet [] m t;
}
write_pieces-Put header packet m (raw bs ∷ ps) o t h = Put-raw header packet ps o bs (
    write_pieces-Put header (packet ++ bs) m ps o (IsTable-append header packet bs m t)
      (subst (λ x. write_pieces (x, some m) ps ≡ some o) (append_assoc header packet bs) h))
write_pieces-Put header packet m (dname name ∷ ps) o t h =
    let written : write_name (header ++ packet) (some m) name ≢ none = λ e. ground arith in
    let w =
      write_name-Wrote header packet name m t
        ((write_name-IsEncodable_iff (header ++ packet) (some m) name).0 written) in
    Put-dname header packet ps o name w.more w.read_back (
      write_pieces-Put header (packet ++ w.more) w.map ps o w.is_table
        (rw (w.result_is, write_pieces) at h))

-- ## Only the length of the buffer matters

-- Two runs from buffers of one length write the same.
abbrev pub Alike : Bytes → Bytes → Output → Output → Type 0
Alike a b o o' = (more : Bytes) × (o.0 ≡ a ++ more) × (o' ≡ (b ++ more, o.1))

note_suffix-length :
    (m : Option NameMap) (key a b : Bytes)
    → length a ≡ length b
    → note_suffix m key a ≡ note_suffix m key b
unfolding note_suffix
note_suffix-length none key a b h = refl
note_suffix-length (some m) key a b h = ground (arith, h)

pub Alike-cons : (a b bs : Bytes) {o o' : Output} → Alike (a ++ bs) (b ++ bs) o o' → Alike a b o o'
Alike-cons a b bs {o} (more, e, e') =
    (bs ++ more, e ∙ append_assoc a bs more, e' ∙ ap (λ x. (x, o.1)) (append_assoc b bs more))

write_labels-Alike :
    (a b : Bytes) (m : Option NameMap) (ls : List Bytes)
    → length a ≡ length b
    → Alike a b (write_labels a m ls) (write_labels b m ls)
unfolding write_labels
write_labels-Alike a b m [] h = (0 ∷ [], refl, refl)
write_labels-Alike a b m (l ∷ ls) h = elim (Option-cases (usable_entry m (join_dots (l ∷ ls)))) [
  | inr (off, e) ↦ rw (e, write_labels) (u16_bytes (0xc000 + off), refl, refl)
  | inl e ↦
      rw (e, write_labels, note_suffix-length m (join_dots (l ∷ ls)) a b h)
        (Alike-cons a b (length l ∷ l) (
          write_labels-Alike (a ++ (length l ∷ l)) (b ++ (length l ∷ l)) _ ls
            (omega (arith, length-append a (length l ∷ l), length-append b (length l ∷ l)))))
]

pub write_name-Alike :
    (a b : Bytes) (m : Option NameMap) (name : Bytes) (o : Output)
    → length a ≡ length b
    → write_name a m name ≡ some o
    → (o' : Output) × (write_name b m name ≡ some o') × Alike a b o o'
unfolding write_name
write_name-Alike a b m [] o h e =
    let same : (a ++ 0 ∷ [], m) ≡ o = cc in
    ((b ++ 0 ∷ [], m), refl, (0 ∷ [], sym (ap (λ x. x.0) same), ap (λ x. (b ++ 0 ∷ [], x.1)) same))
write_name-Alike a b m (c ∷ cs) o h e =
    let ls = split_dots (c ∷ cs) in
    let ok : check_labels 1 ls ≡ true = ground arith in
    let same : write_labels a m ls ≡ o = ground arith in
    rw ok (
      write_labels b m ls,
      refl,
      subst (λ x. Alike a b x (write_labels b m ls)) same (write_labels-Alike a b m ls h),
    )

pub write_pieces-Alike :
    (a b : Bytes) (m : Option NameMap) (ps : List Piece) (o : Output)
    → length a ≡ length b
    → write_pieces (a, m) ps ≡ some o
    → (o' : Output) × (write_pieces (b, m) ps ≡ some o') × Alike a b o o'
unfolding write_pieces
write_pieces-Alike a b m [] o h e =
    let same : (a, m) ≡ o = cc in
    (
      (b, m),
      refl,
      (
        [],
        sym (ap (λ x. x.0) same) ∙ sym (append-nil a),
        ap (λ x. (b, x.1)) same ∙ ap (λ x. (x, o.1)) (sym (append-nil b)),
      ),
    )
write_pieces-Alike a b m (raw bs ∷ ps) o h e =
    let (o', e', alike) =
      write_pieces-Alike (a ++ bs) (b ++ bs) m ps o
        (omega (arith, length-append a bs, length-append b bs)) e in
    (o', e', Alike-cons a b bs alike)
write_pieces-Alike a b m (dname name ∷ ps) o h e = elim (Option-cases (write_name a m name)) [
  | inl failed ↦ absurd (ground arith)
  | inr (p, wrote) ↦
      let (p', wrote', (bs, at_a, at_b)) = write_name-Alike a b m name p h wrote in
      let later : write_pieces p ps ≡ some o = rw (wrote, write_pieces) at e in
      let (o', e', alike) =
        write_pieces-Alike (a ++ bs) (b ++ bs) p.1 ps o
          (omega (arith, length-append a bs, length-append b bs))
          (subst (λ x. write_pieces (x, p.1) ps ≡ some o) at_a later) in
      let e'' = subst (λ x. write_pieces x ps ≡ some o') (sym at_b) e' in
      (o', rw (wrote', write_pieces) e'', Alike-cons a b bs alike)
]
