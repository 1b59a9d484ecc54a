-- ===== src/Name/Decode.antt =====
-- The rounds of `decode_name`, and its completeness: a name that stands in the packet is read.
use behind.Base.{
  ℕ, zero, suc, ◌+◌, ◌*◌, ◌/◌, ◌%◌, ◌≤◌, ◌<◌, ◌≡◌, refl, true, List, [], ◌∷◌, ◌++◌, arith, some,
  Bytes, length, get_elem?, get_or, take, drop, length-append, lt-length_of_get_elem?,
}
use behind.Name.{
  name_ok, Cursor, again, return, dotted, advance, read_pointer, read_label, decode_round,
  decode_loop,
}
use behind.Name.Labels.{IsLabel, labels_size, append_labels}
use behind.Name.Wire.{Wire, root, label, pointer}

get_or-get_elem? : (xs : Bytes) (i v : ℕ) → get_elem? xs i ≡ some v → get_or xs i 0 ≡ v
get_or-get_elem? [] i v h = ground arith
get_or-get_elem? (x ∷ xs) zero v h = ground arith
get_or-get_elem? (x ∷ xs) (suc i) v h = get_or-get_elem? xs i v h

length-dotted-append :
    (d l : Bytes) → length (dotted (dotted d ++ l)) ≤ length (dotted d) + length l + 1
unfolding dotted
length-dotted-append [] [] = omega arith
length-dotted-append [] (x ∷ l) = omega (arith, length-append {0} l (b'.' ∷ []))
length-dotted-append (c ∷ d) l = omega (
  arith,
  length-append {0} (d ++ b'.' ∷ []) l,
  length-append {0} ((d ++ b'.' ∷ []) ++ l) (b'.' ∷ []),
)

-- ## One round

module _ (packet : Bytes) (c : Cursor) where
  abbrev pub after_pointer : ℕ → Cursor
  after_pointer target = record c {
    pos = target;
    consumed = advance c 2;
    jumped = true;
    jumps = c.jumps + 1;
  }

  abbrev pub after_label : Bytes → Cursor
  after_label l = record c {
    pos = c.pos + 1 + length l;
    decoded = dotted c.decoded ++ l;
    consumed = advance c (1 + length l);
    wire_len = c.wire_len + 1 + length l;
  }

  round-root :
      get_elem? packet c.pos ≡ some 0
      → decode_round packet c ≡ return (name_ok c.decoded (advance c 1))
  unfolding decode_round
  round-root h =
      ground (arith, get_or-get_elem? packet c.pos 0 h, lt-length_of_get_elem? packet c.pos 0 h)

  round-label :
      (l : Bytes)
      → IsLabel l
      → get_elem? packet c.pos ≡ some (length l)
      → take (length l) (drop (c.pos + 1) packet) ≡ l
      → c.pos + 1 + length l ≤ length packet
      → c.wire_len + 1 + length l ≤ 255
      → length (dotted c.decoded) < c.wire_len
      → decode_round packet c ≡ again (after_label l)
  unfolding decode_round read_label
  round-label l v h sits fits room text = ground (
    arith,
    get_or-get_elem? packet c.pos (length l) h,
    lt-length_of_get_elem? packet c.pos (length l) h,
  )

  round-pointer :
      (n b target : ℕ)
      → get_elem? packet c.pos ≡ some n
      → n / 64 ≡ 3
      → get_elem? packet (c.pos + 1) ≡ some b
      → target ≡ n % 64 * 256 + b
      → target < c.pos
      → c.jumps < 128
      → decode_round packet c ≡ again (after_pointer target)
  unfolding decode_round read_pointer
  round-pointer n b target hn h3 hb e back few = ground (
    arith,
    get_or-get_elem? packet c.pos n hn,
    get_or-get_elem? packet (c.pos + 1) b hb,
    lt-length_of_get_elem? packet c.pos n hn,
    lt-length_of_get_elem? packet (c.pos + 1) b hb,
  )

-- ## Completeness

pub complete :
    (fuel : ℕ) (packet : Bytes) (c : Cursor) {off : ℕ} {ls : List Bytes} {j s : ℕ}
    → Wire packet off ls j s
    → off ≡ c.pos
    → length ls + j < fuel
    → c.jumps + j ≤ 128
    → c.wire_len + labels_size ls ≤ 255
    → length (dotted c.decoded) < c.wire_len
    → decode_loop fuel packet c ≡ name_ok (append_labels c.decoded ls) (advance c s)
unfolding decode_loop
complete zero packet c w at_pos enough few room text = absurd (omega arith)
complete (suc fuel) packet c (root h e) at_pos enough few room text =
    ground (arith, round-root packet c)
complete (suc fuel) packet c (label {l = l} v h sits fits e w es) at_pos enough few room text =
    ground (
      arith,
      round-label packet c l v,
      complete fuel packet (after_label packet c l) w (omega arith) (omega arith) (omega arith)
          (omega arith) (omega (arith, length-dotted-append c.decoded l)),
    )
complete (suc fuel) packet c (pointer {target} {n} {b} hn h3 hb e back w es) at_pos enough few room
      text =
    ground (
      arith,
      round-pointer packet c n b target,
      complete fuel packet (after_pointer packet c target) w refl (omega arith) (omega arith) room
          text,
    )
