-- ===== src/Name/Tests.antt =====
-- Runs of the name codec, and the theorems at concrete packets.
use behind.Base.{
  ◌+◌, ◌≤◌, ◌<◌, ◌≡◌, ◌≢◌, ◌↔◌, refl, some, none, [], ◌∷◌, arith, Bytes, codes, length, bytes_eq,
}
use behind.Name.{
  name_ok, name_bad, out_of_fuel, NameMap, decode_name, decode_loop, decode_round, read_pointer,
  read_label, is_bad_label_byte, has_bad_byte, dotted, write_name, write_labels, check_labels,
  split_dots, cons_first, join_dots, find_entry, NameMap_set, usable_entry, note_suffix,
}
use behind.Name.Exact.{
  Stands, decode_name-Stands_iff, decode_name-ne-out_of_fuel, decode_name_bounds,
}
use behind.Name.RoundTrip.{
  IsEncodable, Wrote, write_name-Wrote, write_name-IsEncodable_iff, decode_name-write_name,
}

program : Unit {0}
unfolding decode_name decode_loop decode_round read_pointer read_label has_bad_byte
    is_bad_label_byte dotted write_name write_labels check_labels split_dots cons_first join_dots
    find_entry NameMap_set usable_entry note_suffix bytes_eq
program = tt

-- "a.lan" at 0, and "b.lan" at 7 with a pointer to "lan".
abbrev packet : Bytes
packet = 1 ∷ b'a' ∷ 3 ∷ b'l' ∷ b'a' ∷ b'n' ∷ 0 ∷ 1 ∷ b'b' ∷ 0xc0 ∷ 2 ∷ []

decode_direct : decode_name packet 0 ≡ name_ok (codes "a.lan") 7
unfolding program
decode_direct = refl

decode_jump : decode_name packet 7 ≡ name_ok (codes "b.lan") 4
unfolding program
decode_jump = refl

-- A pointer to itself, and a pointer forward, are refused.
decode_self : decode_name (0xc0 ∷ 0 ∷ []) 0 ≡ name_bad
unfolding program
decode_self = refl

decode_forward : decode_name (0xc0 ∷ 2 ∷ 0 ∷ []) 0 ≡ name_bad
unfolding program
decode_forward = refl

-- An embedded dot is refused.
decode_dot : decode_name (1 ∷ b'.' ∷ 0 ∷ []) 0 ≡ name_bad
unfolding program
decode_dot = refl

write_two_dots : write_name [] none (codes "a..b") ≡ none
unfolding program
write_two_dots = refl

abbrev empty_map : NameMap
empty_map = record { offset = 0; entries = [] }

abbrev lan_map : NameMap
lan_map = record { offset = 0; entries = (codes "lan", 2) ∷ (codes "a.lan", 0) ∷ [] }

write_direct :
    write_name [] (some empty_map) (codes "a.lan")
    ≡ some (1 ∷ b'a' ∷ 3 ∷ b'l' ∷ b'a' ∷ b'n' ∷ 0 ∷ [], some lan_map)
unfolding program
write_direct = refl

write_jump :
    write_name (1 ∷ b'a' ∷ 3 ∷ b'l' ∷ b'a' ∷ b'n' ∷ 0 ∷ []) (some lan_map) (codes "b.lan")
    ≡ some (packet, some (record lan_map { entries = (codes "b.lan", 7) ∷ lan_map.entries }))
unfolding program
write_jump = refl

lan-IsEncodable : IsEncodable (codes "b.lan")
unfolding program
lan-IsEncodable = record {
  labels = codes "b" ∷ codes "lan" ∷ [];
  are_labels = (
    record { positive = omega arith; short = omega arith; clean = refl },
    (record { positive = omega arith; short = omega arith; clean = refl }, tt),
  );
  name_is = refl;
  room = omega arith;
}

decode_name-Stands_iff_example :
    (decode_name packet 7 ≡ name_ok (codes "b.lan") 4) ↔ Stands packet 7 (codes "b.lan") 4
decode_name-Stands_iff_example = decode_name-Stands_iff packet 7 (codes "b.lan") 4

decode_name-ne-out_of_fuel_example : decode_name packet 7 ≢ out_of_fuel
decode_name-ne-out_of_fuel_example = decode_name-ne-out_of_fuel packet 7

decode_name_bounds_example : (length (codes "b.lan") ≤ 253) × (0 < 4) × (7 + 4 ≤ length packet)
decode_name_bounds_example = decode_name_bounds packet 7 (codes "b.lan") 4 decode_jump

write_name-Wrote_example :
    Wrote [] [] (codes "b.lan") (write_name [] (some empty_map) (codes "b.lan"))
write_name-Wrote_example =
    write_name-Wrote [] [] (codes "b.lan") empty_map (record { at_start = refl; entries = tt })
      lan-IsEncodable

write_name-IsEncodable_iff_example :
    (write_name [] none (codes "b.lan") ≢ none) ↔ IsEncodable (codes "b.lan")
write_name-IsEncodable_iff_example = write_name-IsEncodable_iff [] none (codes "b.lan")

decode_name-write_name_example : write_name [] none (codes "b.lan") ≢ none
decode_name-write_name_example =
    decode_name-write_name packet 7 (codes "b.lan") 4 [] none decode_jump
