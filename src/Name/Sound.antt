-- ===== src/Name/Sound.antt =====
-- What `decode_name` has read when it succeeds, that it is nothing else than what stands in the
-- packet, and that it comes to an end.
use behind.Base.{
  ℕ, zero, suc, ◌+◌, ◌-◌, ◌*◌, ◌/◌, ◌%◌, ◌≤◌, ◌<◌, ◌≡◌, ◌≢◌, refl, ap, ◌∙◌, List, [], ◌∷◌, arith,
  some, Bytes, length, get_elem?, get_or, take, drop, length-drop, ◌==◌, Bool-cases, ◌⊎◌, inl, inr,
}
use behind.Name.{
  NameResult, name_ok, out_of_fuel, Cursor, Round, again, return, advance, read_pointer, read_label,
  decode_round, decode_loop,
}
use behind.Name.Labels.{IsLabel, labels_size, append_labels}
use behind.Name.Wire.{Wire, root, label, pointer}
use behind.Name.Decode.{after_pointer, after_label}

get_elem?-get_or : (xs : Bytes) (i : ℕ) → i < length xs → get_elem? xs i ≡ some (get_or xs i 0)
get_elem?-get_or [] i h = absurd (omega arith)
get_elem?-get_or (x ∷ xs) zero h = refl
get_elem?-get_or (x ∷ xs) (suc i) h = get_elem?-get_or xs i (omega arith)

length-take_of_le : (n : ℕ) (xs : Bytes) → n ≤ length xs → length (take n xs) ≡ n
length-take_of_le zero xs h = refl
length-take_of_le (suc n) [] h = absurd (omega arith)
length-take_of_le (suc n) (x ∷ xs) h = ap suc (length-take_of_le n xs (omega arith))

-- What a round has read when the loop goes on.
pub record ReadLabel (packet : Bytes) (c d : Cursor) : Type 0 where
  text : Bytes
  is_label : IsLabel text
  sized : get_elem? packet c.pos ≡ some (length text)
  sits : take (length text) (drop (c.pos + 1) packet) ≡ text
  fits : c.pos + 1 + length text ≤ length packet
  room : c.wire_len + 1 + length text ≤ 255
  moved : d ≡ after_label packet c text

pub record ReadPointer (packet : Bytes) (c d : Cursor) : Type 0 where
  first : ℕ
  second : ℕ
  target : ℕ
  has_first : get_elem? packet c.pos ≡ some first
  is_pointer : first / 64 ≡ 3
  has_second : get_elem? packet (c.pos + 1) ≡ some second
  target_is : target ≡ first % 64 * 256 + second
  backward : target < c.pos
  few : c.jumps < 128
  moved : d ≡ after_pointer packet c target

module _ (packet : Bytes) (c : Cursor) where
  round-return :
      {name : Bytes} {k : ℕ}
      → decode_round packet c ≡ return (name_ok name k)
      → (get_elem? packet c.pos ≡ some 0) × (name ≡ c.decoded) × (k ≡ advance c 1)
  unfolding decode_round read_pointer read_label
  round-return h = ground (arith, get_elem?-get_or packet c.pos)

  round-ne-out_of_fuel : decode_round packet c ≢ return out_of_fuel
  unfolding decode_round read_pointer read_label
  round-ne-out_of_fuel = λ h. ground arith

  pointer-again :
      {d : Cursor}
      → read_pointer packet c (get_or packet c.pos 0) ≡ again d
      → get_or packet c.pos 0 / 64 ≡ 3
      → c.pos < length packet
      → ReadPointer packet c d
  unfolding read_pointer
  pointer-again h is3 inside = record {
    first = get_or packet c.pos 0;
    second = get_or packet (c.pos + 1) 0;
    target = get_or packet c.pos 0 % 64 * 256 + get_or packet (c.pos + 1) 0;
    has_first = get_elem?-get_or packet c.pos inside;
    is_pointer = is3;
    has_second = get_elem?-get_or packet (c.pos + 1) (ground arith);
    target_is = refl;
    backward = ground arith;
    few = ground arith;
    moved = ground arith;
  }

  label-again :
      {d : Cursor} (n : ℕ)
      → read_label packet c n ≡ again d
      → get_elem? packet c.pos ≡ some n
      → 0 < n
      → n < 64
      → ReadLabel packet c d
  unfolding read_label
  label-again n h here pos small =
      let l = take n (drop (c.pos + 1) packet) in
      let inside : c.pos + 1 + n ≤ length packet = ground arith in
      let sized : length l ≡ n =
        length-take_of_le n (drop (c.pos + 1) packet)
          (omega (arith, length-drop {0} (c.pos + 1) packet)) in
      record {
        text = l;
        is_label = record { positive = omega arith; short = omega arith; clean = ground arith };
        sized = ground arith;
        sits = ap (λ m. take m (drop (c.pos + 1) packet)) sized;
        fits = omega arith;
        room = ground arith;
        moved = ground arith;
      }

  round-again :
      {d : Cursor} → decode_round packet c ≡ again d → ReadLabel packet c d ⊎ ReadPointer packet c d
  unfolding decode_round
  round-again h = elim (Bool-cases (get_or packet c.pos 0 / 64 == 3)) [
    | inl is3 ↦ inr (pointer-again (ground arith) (ground arith) (ground arith))
    | inr not3 ↦ inl (
        label-again (get_or packet c.pos 0) (ground arith)
          (get_elem?-get_or packet c.pos (ground arith)) (ground arith) (ground arith))
  ]

-- What the loop has read when it succeeds.
pub record Reads (packet : Bytes) (c : Cursor) (name : Bytes) (k : ℕ) : Type 0 where
  pub labels : List Bytes
  pub jumps : ℕ
  pub extent : ℕ
  pub wire : Wire packet c.pos labels jumps extent
  pub name_is : name ≡ append_labels c.decoded labels
  pub consumed_is : k ≡ advance c extent
  pub few : c.jumps + jumps ≤ 128
  pub room : c.wire_len + labels_size labels ≤ 255

Reads-label :
    {packet : Bytes} {c : Cursor} {name : Bytes} {k : ℕ} {d : Cursor}
    → ReadLabel packet c d
    → Reads packet d name k
    → Reads packet c name k
Reads-label {packet} {c} {name} {k} {d} r t =
    let e : d.pos ≡ c.pos + 1 + length r.text = ap (λ x. x.pos) r.moved in
    record {
      labels = r.text ∷ t.labels;
      jumps = t.jumps;
      extent = 1 + length r.text + t.extent;
      wire = label r.is_label r.sized r.sits r.fits e t.wire refl;
      name_is = t.name_is ∙ ap (λ x. append_labels x t.labels) (ap (λ x. x.decoded) r.moved);
      consumed_is = ground (arith, t.consumed_is, r.moved);
      few = ground (arith, t.few, r.moved);
      room = ground (arith, t.room, r.moved);
    }

Reads-pointer :
    {packet : Bytes} {c : Cursor} {name : Bytes} {k : ℕ} {d : Cursor}
    → ReadPointer packet c d
    → Reads packet d name k
    → Reads packet c name k
Reads-pointer {packet} {c} {name} {k} {d} r t =
    let e : d.pos ≡ r.target = ap (λ x. x.pos) r.moved in
    record {
      labels = t.labels;
      jumps = suc t.jumps;
      extent = 2;
      wire =
          pointer r.has_first r.is_pointer r.has_second (e ∙ r.target_is) (ground arith) t.wire
            refl;
      name_is = t.name_is ∙ ap (λ x. append_labels x t.labels) (ap (λ x. x.decoded) r.moved);
      consumed_is = ground (arith, t.consumed_is, r.moved);
      few = ground (arith, t.few, r.moved);
      room = ground (arith, t.room, r.moved);
    }

Round-cases : (r : Round) → ((d : Cursor) × (r ≡ again d)) ⊎ ((res : NameResult) × (r ≡ return res))
Round-cases (again d) = inl (d, refl)
Round-cases (return res) = inr (res, refl)

pub sound :
    (fuel : ℕ) (packet : Bytes) (c : Cursor) {name : Bytes} {k : ℕ}
    → decode_loop fuel packet c ≡ name_ok name k
    → c.jumps ≤ 128
    → c.wire_len ≤ 255
    → Reads packet c name k
unfolding decode_loop
sound zero packet c h few room = absurd (cc)
sound (suc fuel) packet c {name} {k} h few room = elim (Round-cases (decode_round packet c)) [
  | inr (res, e) ↦
      let ret : decode_round packet c ≡ return (name_ok name k) = ground arith in
      let (at_root, n, s) = round-return packet c ret in
      record {
        labels = [];
        jumps = 0;
        extent = 1;
        wire = root at_root refl;
        name_is = n;
        consumed_is = s;
        few = omega arith;
        room = omega arith;
      }
  | inl (d, e) ↦
      let later : decode_loop fuel packet d ≡ name_ok name k = ground arith in
      elim (round-again packet c e) [
        | inl r ↦
            Reads-label r (
              sound fuel packet d later (ground (arith, r.moved)) (ground (arith, r.moved, r.room)))
        | inr r ↦
            Reads-pointer r
              (sound fuel packet d later (ground (arith, r.moved, r.few)) (ground (arith, r.moved)))
      ]
]

-- With fuel for the jumps and the bytes that are left, the loop comes to an end by itself.
pub ends :
    (fuel : ℕ) (packet : Bytes) (c : Cursor)
    → 255 - c.wire_len + (128 - c.jumps) < fuel
    → decode_loop fuel packet c ≢ out_of_fuel
unfolding decode_loop
ends zero packet c enough = absurd (omega arith)
ends (suc fuel) packet c enough = elim (Round-cases (decode_round packet c)) [
  | inr (res, e) ↦ λ h. ground (arith, round-ne-out_of_fuel packet c)
  | inl (d, e) ↦ elim (round-again packet c e) [
    | inl r ↦ λ h.
        ends fuel packet d (ground (arith, r.moved, r.room, r.is_label.positive)) (ground arith)
    | inr r ↦ λ h. ends fuel packet d (ground (arith, r.moved, r.few)) (ground arith)
  ]
]
