-- ===== src/Name/RoundTrip.antt =====
-- What `write_name` writes, `decode_name` reads.
use behind.Base.{
  ℕ, ◌*◌, ◌≤◌, ◌≡◌, ◌≢◌, ◌↔◌, refl, sym, ap, ◌∙◌, List, [], ◌∷◌, ◌++◌, append_assoc, arith, Bytes,
  length, All, All-append, Option, some, none, true,
}
use mathlib.Core.Path.{subst}
use behind.Name.{NameMap, join_dots, split_dots, write_name, check_labels, name_ok, decode_name}
use behind.Name.Labels.{
  IsLabel, labels_size, join-split, split-join, check_labels_sound, check_labels_complete,
}
use behind.Name.Wire.{Wire-IsLabel}
use behind.Name.Write.{AreEntries, AreEntries-append, root-Wire}
use behind.Name.Written.{Written}
use behind.Name.Loop.{ArePending-nil, write_labels-Written}
use behind.Name.Exact.{decode_name-Stands_iff}

-- A name that fits into a message: the root, or labels of 1 to 63 clean bytes, 254 bytes in all.
pub record IsEncodable (name : Bytes) : Type 0 where
  pub labels : List Bytes
  pub are_labels : All IsLabel labels
  pub name_is : name ≡ join_dots labels
  pub room : labels_size labels ≤ 254

-- A table whose entries name what stands in the packet; `header` is what stands in front of it.
pub record IsTable (header packet : Bytes) (m : NameMap) : Type 0 where
  pub at_start : m.offset ≡ length header
  pub entries : AreEntries packet m.entries

-- What a call leaves behind.
pub record Wrote (header packet name : Bytes) (result : Option (Bytes × Option NameMap))
    : Type 0 where
  pub more : Bytes
  pub map : NameMap
  pub result_is : result ≡ some (header ++ (packet ++ more), some map)
  pub read_back : decode_name (packet ++ more) (length packet) ≡ name_ok name (length more)
  pub is_table : IsTable header (packet ++ more) map

write_name-nil-Wrote :
    (header packet : Bytes) (m : NameMap)
    → IsTable header packet m
    → Wrote header packet [] (write_name (header ++ packet) (some m) [])
unfolding write_name
write_name-nil-Wrote header packet m t = record {
  more = 0 ∷ [];
  map = m;
  result_is = ap (λ x. some (x, some m)) (append_assoc header packet (0 ∷ []));
  read_back = (decode_name-Stands_iff _ _ [] 1).1 (record {
    labels = [];
    jumps = 0;
    wire = root-Wire packet;
    name_is = unfold join_dots in refl;
    few = omega arith;
    room = omega arith;
  });
  is_table = record {
    at_start = t.at_start;
    entries = AreEntries-append packet (0 ∷ []) m.entries t.entries;
  };
}

Written-Wrote :
    (header packet name : Bytes) (m : NameMap) (ls : List Bytes) {r : Bytes × Option NameMap}
    → IsTable header packet m
    → name ≡ join_dots ls
    → labels_size ls ≤ 254
    → length ls ≤ 127
    → Written header m.offset packet ls m.entries r
    → Wrote header packet name (some r)
Written-Wrote header packet name m ls {r} t name_is room short w = record {
  more = w.more;
  map = record { offset = m.offset; entries = w.fresh ++ m.entries };
  result_is = λ i. some (w.out_is i, w.map_is i);
  read_back = (decode_name-Stands_iff _ _ name (length w.more)).1 (record {
    labels = ls;
    jumps = w.jumps;
    wire = w.wire;
    name_is = name_is;
    few = omega (arith, w.few);
    room = room;
  });
  is_table = record {
    at_start = t.at_start;
    entries =
        All-append _ w.fresh m.entries w.valid
          (AreEntries-append packet w.more m.entries t.entries);
  };
}

length-le-half : (ls : List Bytes) → All IsLabel ls → 2 * length ls ≤ labels_size ls
length-le-half [] h = omega arith
length-le-half (l ∷ ls) h = omega (arith, length-le-half ls h.1, h.0.positive)

join_dots-nil-ne-cons : (c : ℕ) (cs : Bytes) → join_dots [] ≢ c ∷ cs
unfolding join_dots
join_dots-nil-ne-cons c cs = λ e. cc

encodable-labels :
    (c : ℕ) (cs : Bytes)
    → IsEncodable (c ∷ cs)
    → All IsLabel (split_dots (c ∷ cs)) × (labels_size (split_dots (c ∷ cs)) ≤ 254)
encodable-labels c cs h = go h.labels h.are_labels h.name_is h.room
  where
    go :
        (ls : List Bytes)
        → All IsLabel ls
        → c ∷ cs ≡ join_dots ls
        → labels_size ls ≤ 254
        → All IsLabel (split_dots (c ∷ cs)) × (labels_size (split_dots (c ∷ cs)) ≤ 254)
    go [] v e room = absurd (join_dots-nil-ne-cons c cs (sym e))
    go (l ∷ ls) v e room =
        let same : split_dots (c ∷ cs) ≡ l ∷ ls = ap split_dots e ∙ split-join l ls v in
        (subst (All IsLabel) (sym same) v, subst (λ x. labels_size x ≤ 254) (sym same) room)

-- A name that fits is written, for every packet and every table of what stands in it: the reader
-- finds it where the packet ended, in as many bytes as were added, and the table still names
-- what stands in the packet.
pub write_name-Wrote :
    (header packet name : Bytes) (m : NameMap)
    → IsTable header packet m
    → IsEncodable name
    → Wrote header packet name (write_name (header ++ packet) (some m) name)
unfolding write_name
write_name-Wrote header packet [] m t h = write_name-nil-Wrote header packet m t
write_name-Wrote header packet (c ∷ cs) m t h =
    let ls = split_dots (c ∷ cs) in
    let (labels, room) = encodable-labels c cs h in
    let ok = check_labels_complete 1 ls labels (omega arith) in
    rw ok (
      Written-Wrote header packet (c ∷ cs) m ls t (sym (join-split (c ∷ cs))) room
        (omega (arith, length-le-half ls labels))
        (write_labels-Written header m.offset t.at_start ls packet [] m.entries labels
          (ArePending-nil ls) t.entries))

-- A call succeeds exactly for the names that fit.
pub write_name-IsEncodable_iff :
    (out : Bytes) (m : Option NameMap) (name : Bytes)
    → (write_name out m name ≢ none) ↔ IsEncodable name
unfolding write_name
write_name-IsEncodable_iff out m [] = (
  λ _. record {
    labels = [];
    are_labels = tt;
    name_is = unfold join_dots in refl;
    room = omega arith;
  },
  λ _ e. ground arith,
)
write_name-IsEncodable_iff out m (c ∷ cs) =
    let ls = split_dots (c ∷ cs) in
    (
      λ h.
          let ok : check_labels 1 ls ≡ true = ground arith in
          let (labels, room) = check_labels_sound 1 ls (omega arith) ok in
          record {
            labels = ls;
            are_labels = labels;
            name_is = sym (join-split (c ∷ cs));
            room = omega arith;
          },
      λ h e.
          let (labels, room) = encodable-labels c cs h in
          ground (arith, check_labels_complete 1 ls labels (omega arith)),
    )

-- Whatever the reader accepts, the writer accepts.
pub decode_name-write_name :
    (packet : Bytes) (ptr : ℕ) (name : Bytes) (k : ℕ) (out : Bytes) (m : Option NameMap)
    → decode_name packet ptr ≡ name_ok name k
    → write_name out m name ≢ none
decode_name-write_name packet ptr name k out m h =
    let s = (decode_name-Stands_iff packet ptr name k).0 h in
    (write_name-IsEncodable_iff out m name).1 (record {
      labels = s.labels;
      are_labels = Wire-IsLabel s.wire;
      name_is = s.name_is;
      room = s.room;
    })
