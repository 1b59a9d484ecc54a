-- ===== src/Name/Exact.antt =====
-- `decode_name` reads exactly the names that stand in the packet.
use behind.Base.{
  ℕ, ◌+◌, ◌-◌, ◌≤◌, ◌<◌, ◌≡◌, ◌≢◌, refl, sym, ap, ◌∙◌, List, [], ◌∷◌, arith, Bytes, length,
  lt-length_of_get_elem?, ◌↔◌, length-append,
}
use mathlib.Core.Path.{subst}
use behind.Name.{
  name_ok, out_of_fuel, decode_loop, decode_name, cursor_at, join_dots, dotted, decode_fuel,
}
use behind.Name.Labels.{labels_size, append_labels-nil}
use behind.Name.Wire.{Wire, root, label, pointer, Wire-IsLabel}
use behind.Name.Decode.{complete}
use behind.Name.Sound.{sound, ends}

-- The name `name` stands at `ptr` in `extent` bytes, within the limits of the protocol and over
-- at most 128 pointers, each of them backward.
pub record Stands (packet : Bytes) (ptr : ℕ) (name : Bytes) (extent : ℕ) : Type 0 where
  pub labels : List Bytes
  pub jumps : ℕ
  pub wire : Wire packet ptr labels jumps extent
  pub name_is : name ≡ join_dots labels
  pub few : jumps ≤ 128
  pub room : labels_size labels ≤ 254

pub Wire-extent :
    {packet : Bytes} {off j s : ℕ} {ls : List Bytes}
    → Wire packet off ls j s
    → (0 < s) × (off + s ≤ length packet)
Wire-extent (root {off} h e) = (omega arith, omega (arith, lt-length_of_get_elem? _ off 0 h))
Wire-extent (label v h sits fits e w es) = (omega arith, let (p, q) = Wire-extent w in omega arith)
Wire-extent (pointer {off} {b = b} hn h3 hb e back w es) =
    (omega arith, omega (arith, lt-length_of_get_elem? _ (off + 1) b hb))

pub length-le-labels_size : (ls : List Bytes) → length ls ≤ labels_size ls
length-le-labels_size [] = omega arith
length-le-labels_size (l ∷ ls) = omega (arith, length-le-labels_size ls)

length-join_dots : (ls : List Bytes) → length (join_dots ls) ≤ labels_size ls - 1
unfolding join_dots
length-join_dots [] = omega arith
length-join_dots (l ∷ []) = omega arith
length-join_dots (l ∷ m ∷ ls) =
    omega (arith, length-join_dots (m ∷ ls), length-append {0} l (b'.' ∷ join_dots (m ∷ ls)))

module _ (packet : Bytes) (ptr : ℕ) where
  Stands-decode_name :
      {name : Bytes} {k : ℕ} → Stands packet ptr name k → decode_name packet ptr ≡ name_ok name k
  unfolding decode_name
  Stands-decode_name s =
      let (pos, fits) = Wire-extent s.wire in
      let run =
        complete decode_fuel packet (cursor_at ptr) s.wire refl
          (omega (arith, length-le-labels_size s.labels, s.few, s.room)) (omega (arith, s.few))
          (omega (arith, s.room)) (unfold dotted in omega arith) in
      ground (arith, run, append_labels-nil s.labels (Wire-IsLabel s.wire), s.name_is)

  decode_name-Stands :
      {name : Bytes} {k : ℕ} → decode_name packet ptr ≡ name_ok name k → Stands packet ptr name k
  unfolding decode_name
  decode_name-Stands {name} {k} h =
      let run : decode_loop decode_fuel packet (cursor_at ptr) ≡ name_ok name k = ground arith in
      let r = sound decode_fuel packet (cursor_at ptr) run (omega arith) (omega arith) in
      record {
        labels = r.labels;
        jumps = r.jumps;
        wire =
            subst (λ e. Wire packet ptr r.labels r.jumps e) (sym (ground (arith, r.consumed_is)))
              r.wire;
        name_is = r.name_is ∙ append_labels-nil r.labels (Wire-IsLabel r.wire);
        few = omega (arith, r.few);
        room = omega (arith, r.room);
      }

  -- The reader returns a name and a length exactly when that name stands at the offset, in so
  -- many bytes: as labels of 1 to 63 clean bytes, 255 bytes with the root, over at most 128
  -- pointers, all of them backward.
  pub decode_name-Stands_iff :
      (name : Bytes) (k : ℕ) → (decode_name packet ptr ≡ name_ok name k) ↔ Stands packet ptr name k
  decode_name-Stands_iff name k = (decode_name-Stands, Stands-decode_name)

  -- The loop of the reader ends for every packet and every offset, within the fuel.
  pub decode_name-ne-out_of_fuel : decode_name packet ptr ≢ out_of_fuel
  unfolding decode_name
  decode_name-ne-out_of_fuel =
      λ h. ground (arith, ends decode_fuel packet (cursor_at ptr) (omega arith))

  -- A name that is read has at most 253 bytes of text, and at least one byte of the packet is
  -- used, none of them behind its end.
  pub decode_name_bounds :
      (name : Bytes) (k : ℕ)
      → decode_name packet ptr ≡ name_ok name k
      → (length name ≤ 253) × (0 < k) × (ptr + k ≤ length packet)
  decode_name_bounds name k h =
      let s = decode_name-Stands h in
      let (pos, fits) = Wire-extent s.wire in
      (omega (arith, ap length s.name_is, length-join_dots s.labels, s.room), pos, fits)
