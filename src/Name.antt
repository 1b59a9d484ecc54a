-- ===== src/Name.antt =====
-- Domain names on the wire: `Behind::NameMap`, `Behind::write_name` and `Behind::decode_name` of
-- src/Behind.h and src/Behind.cpp. A pointer into the packet is its offset from `begin`.
pub mod Labels
pub mod Wire
pub mod Decode
pub mod Sound
pub mod Exact
pub mod Write
pub mod Written
pub mod Loop
pub mod RoundTrip
mod Tests
use behind.Base.{
  ℕ, zero, suc, ◌+◌, ◌-◌, ◌*◌, ◌/◌, ◌%◌, Bool, true, false, not, ◌&&◌, ◌||◌, Option, none, some,
  List, [], ◌∷◌, ◌++◌, Bytes, ltb, leb, ◌==◌, if◌then◌else◌, length, get_or, take, drop, bytes_eq,
}

-- ## Reading

-- The return value and `*name`. `name_bad` is the return value 0, with `*name` empty.
pub data NameResult : Type 0 where
  name_ok : Bytes → ℕ → NameResult
  name_bad : NameResult
  out_of_fuel : NameResult

-- The variables of the loop. `jump_count` is tested after its increment.
pub record Cursor : Type 0 where
  pub pos : ℕ
  pub decoded : Bytes
  pub consumed : ℕ
  pub wire_len : ℕ
  pub jumped : Bool
  pub jumps : ℕ

-- One round: the loop goes on from a cursor, or returns.
pub data Round : Type 0 where
  again : Cursor → Round
  return : NameResult → Round

-- A byte that a label may not hold.
unfoldable pub is_bad_label_byte : ℕ → Bool
is_bad_label_byte c = c == 0 || c == b'.' || ltb c 0x20 || c == 0x7f

unfoldable pub has_bad_byte : Bytes → Bool
has_bad_byte [] = false
has_bad_byte (c ∷ cs) = is_bad_label_byte c || has_bad_byte cs

-- `decoded` with a dot behind it, unless it is empty.
unfoldable pub dotted : Bytes → Bytes
dotted [] = []
dotted (c ∷ cs) = (c ∷ cs) ++ b'.' ∷ []

-- `if (!jumped) consumed += k`.
abbrev pub advance : Cursor → ℕ → ℕ
advance c k = if c.jumped then c.consumed else c.consumed + k

-- The branch `bits == 0xc0`; `n & 0x3f` is `n % 64`, and `<< 8` is `* 256`.
unfoldable pub read_pointer : Bytes → Cursor → ℕ → Round
read_pointer packet c n =
    let offset = n % 64 * 256 + get_or packet (c.pos + 1) 0 in
    if ltb 128 (c.jumps + 1)
    then return name_bad
    else if ltb (length packet - c.pos) 2
    then return name_bad
    else if leb (length packet) offset || leb c.pos offset
    then return name_bad
    else again
        (record c { pos = offset; consumed = advance c 2; jumped = true; jumps = c.jumps + 1 })

-- A label of `n` bytes behind the length byte.
unfoldable pub read_label : Bytes → Cursor → ℕ → Round
read_label packet c n =
    let start = c.pos + 1 in
    let label = take n (drop start packet) in
    if ltb (length packet - start) n
    then return name_bad
    else if ltb 255 (c.wire_len + 1 + n)
    then return name_bad
    else if ltb 253 (length (dotted c.decoded) + n)
    then return name_bad
    else if has_bad_byte label
    then return name_bad
    else again (record c {
      pos = start + n;
      decoded = dotted c.decoded ++ label;
      consumed = advance c (1 + n);
      wire_len = c.wire_len + 1 + n;
    })

-- `n & 0xc0` of a byte is `n / 64 * 64`: 0xc0 where `n / 64` is 3, and 0 where it is 0.
unfoldable pub decode_round : Bytes → Cursor → Round
decode_round packet c =
    let n = get_or packet c.pos 0 in
    if not (ltb c.pos (length packet))
    then return name_bad
    else if n / 64 == 3
    then read_pointer packet c n
    else if not (n / 64 == 0)
    then return name_bad
    else if n == 0
    then return (name_ok c.decoded (advance c 1))
    else read_label packet c n

unfoldable pub decode_loop : ℕ → Bytes → Cursor → NameResult
decode_loop zero packet c = out_of_fuel
decode_loop (suc fuel) packet c = elim (decode_round packet c) [
  | again d ↦ decode_loop fuel packet d
  | return r ↦ r
]

abbrev pub cursor_at : ℕ → Cursor
cursor_at ptr = record {
  pos = ptr;
  decoded = [];
  consumed = 0;
  wire_len = 1;
  jumped = false;
  jumps = 0;
}

-- A round takes a jump, of 128 at most, or at least two bytes of the 254 that a name has left.
abbrev pub decode_fuel : ℕ
decode_fuel = 384

unfoldable pub decode_name : Bytes → ℕ → NameResult
decode_name packet ptr =
    if leb (length packet) ptr then name_bad else decode_loop decode_fuel packet (cursor_at ptr)

-- ## Writing

-- `NameMap`: offsets from `offset`, by the text of a suffix.
pub record NameMap : Type 0 where
  pub offset : ℕ
  pub entries : List (Bytes × ℕ)

unfoldable pub find_entry : Bytes → List (Bytes × ℕ) → Option ℕ
find_entry key [] = none
find_entry key ((k, v) ∷ rest) = if bytes_eq k key then some v else find_entry key rest

-- `NameMap::set`; a value below `offset` is kept as 0.
unfoldable pub NameMap_set : NameMap → Bytes → ℕ → NameMap
NameMap_set m key val = record m { entries = (key, val - m.offset) ∷ m.entries }

-- The pieces of a text between its dots, and the text of such pieces. The loops of `write_name`
-- look for the next dot from `pos`: `pos` is the start of a piece, and `name.substr(pos)` the
-- pieces from there on, joined.
unfoldable pub cons_first : ℕ → List Bytes → List Bytes
cons_first c [] = (c ∷ []) ∷ []
cons_first c (l ∷ ls) = (c ∷ l) ∷ ls

unfoldable pub split_dots : Bytes → List Bytes
split_dots [] = [] ∷ []
split_dots (c ∷ cs) = let rest = split_dots cs in if c == b'.' then [] ∷ rest else cons_first c rest

unfoldable pub join_dots : List Bytes → Bytes
join_dots [] = []
join_dots (l ∷ []) = l
join_dots (l ∷ m ∷ ls) = l ++ (b'.' ∷ join_dots (m ∷ ls))

-- The loop that checks the labels. An empty last piece is the trailing dot that it refuses.
unfoldable pub check_labels : ℕ → List Bytes → Bool
check_labels wire_len [] = true
check_labels wire_len (l ∷ ls) =
    let wire_len' = wire_len + 1 + length l in
    let rest = check_labels wire_len' ls in
    if ltb (length l) 1 || ltb 63 (length l)
    then false
    else if ltb 255 wire_len'
    then false
    else if has_bad_byte l
    then false
    else rest

abbrev pub u16_bytes : ℕ → Bytes
u16_bytes v = v / 256 % 256 ∷ v % 256 ∷ []

-- The offset that a suffix may be replaced by.
unfoldable pub usable_entry : Option NameMap → Bytes → Option ℕ
usable_entry none key = none
usable_entry (some m) key = elim (find_entry key m.entries) [
  | none ↦ none
  | some off ↦ if leb off 0x3fff then some off else none
]

-- The position of a label is noted before it is written, if a pointer can reach it.
unfoldable pub note_suffix : Option NameMap → Bytes → Bytes → Option NameMap
note_suffix none key out = none
note_suffix (some m) key out =
    if leb m.offset (length out) && leb (length out - m.offset) 0x3fff
    then some (NameMap_set m key (length out))
    else some m

-- The loop that writes the labels, or a pointer in place of the labels that are left.
unfoldable pub write_labels : Bytes → Option NameMap → List Bytes → Bytes × Option NameMap
write_labels out namemap [] = (out ++ 0 ∷ [], namemap)
write_labels out namemap (l ∷ ls) =
    let key = join_dots (l ∷ ls) in
    let rest = write_labels (out ++ (length l ∷ l)) (note_suffix namemap key out) ls in
    elim (usable_entry namemap key) [
      | some off ↦ (out ++ u16_bytes (0xc000 + off), namemap)
      | none ↦ rest
    ]

-- The new buffer and map; `none` is the result false, which writes nothing.
unfoldable pub write_name : Bytes → Option NameMap → Bytes → Option (Bytes × Option NameMap)
write_name out namemap [] = some (out ++ 0 ∷ [], namemap)
write_name out namemap (c ∷ cs) =
    let labels = split_dots (c ∷ cs) in
    if check_labels 1 labels then some (write_labels out namemap labels) else none
