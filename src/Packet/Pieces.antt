-- ===== src/Packet/Pieces.antt =====
-- What is written to a packet as a list of pieces, bytes and names, and where they sit in it.
use behind.Base.{
  ℕ, ◌+◌, ◌≤◌, ◌≡◌, sym, ap, ◌∙◌, Option, none, some, List, [], ◌∷◌, ◌++◌, append_assoc, arith,
  Bytes, length, drop, length-append, drop-append_of_le, drop-length-append,
}
use mathlib.Core.Path.{subst}
use behind.Name.{NameMap, name_ok, decode_name, write_name}
use behind.Name.Wire.{Wire-append}
use behind.Name.Exact.{decode_name-Stands_iff}
use behind.Name.RoundTrip.{IsTable}
use behind.Packet.Make.{Output, put}

pub data Piece : Type 0 where
  raw : Bytes → Piece
  dname : Bytes → Piece

unfoldable pub write_pieces : Output → List Piece → Option Output
write_pieces o [] = some o
write_pieces o (raw bs ∷ ps) = write_pieces (put o bs) ps
write_pieces o (dname n ∷ ps) = elim (write_name o.0 o.1 n) [
  | none ↦ none
  | some p ↦ write_pieces p ps
]

-- The pieces stand from `at` up to `end`, and the names are what the reader finds there.
abbrev pub Sits : Bytes → ℕ → List Piece → ℕ → Type 0
Sits packet at [] end = (at ≡ end) × (end ≤ length packet)
Sits packet at (raw bs ∷ ps) end =
    (drop at packet ≡ bs ++ drop (at + length bs) packet)
    × (at + length bs ≤ length packet)
    × Sits packet (at + length bs) ps end
Sits packet at (dname n ∷ ps) end =
    (k : ℕ) × (decode_name packet at ≡ name_ok n k) × Sits packet (at + k) ps end

pub decode_name-append :
    (packet more : Bytes) (at : ℕ) {name : Bytes} {k : ℕ}
    → decode_name packet at ≡ name_ok name k
    → decode_name (packet ++ more) at ≡ name_ok name k
decode_name-append packet more at {name} {k} h =
    let s = (decode_name-Stands_iff packet at name k).0 h in
    (decode_name-Stands_iff (packet ++ more) at name k).1 (record {
      labels = s.labels;
      jumps = s.jumps;
      wire = Wire-append packet more s.wire;
      name_is = s.name_is;
      few = s.few;
      room = s.room;
    })

pub Sits-append :
    (packet more : Bytes) (at end : ℕ) (ps : List Piece)
    → Sits packet at ps end
    → Sits (packet ++ more) at ps end
Sits-append packet more at end [] h = (h.0, omega (arith, h.1, length-append packet more))
Sits-append packet more at end (raw bs ∷ ps) (here, fits, later) = (
  drop-append_of_le at packet more (omega arith)
      ∙ ap (λ x. x ++ more) here
      ∙ append_assoc bs (drop (at + length bs) packet) more
      ∙ ap (◌++◌ bs) (sym (drop-append_of_le (at + length bs) packet more fits)),
  omega (arith, length-append packet more),
  Sits-append packet more (at + length bs) end ps later,
)
Sits-append packet more at end (dname n ∷ ps) (k, here, later) =
    (k, decode_name-append packet more at here, Sits-append packet more (at + k) end ps later)

pub Sits-inside :
    (packet : Bytes) (at end : ℕ) (ps : List Piece) → Sits packet at ps end → end ≤ length packet
Sits-inside packet at end [] h = h.1
Sits-inside packet at end (raw bs ∷ ps) h = Sits-inside packet (at + length bs) end ps h.2
Sits-inside packet at end (dname n ∷ ps) h = Sits-inside packet (at + h.0) end ps h.2

pub Sits-join :
    (packet : Bytes) (at middle end : ℕ) (ps qs : List Piece)
    → Sits packet at ps middle
    → Sits packet middle qs end
    → Sits packet at (ps ++ qs) end
Sits-join packet at middle end [] qs h k = subst (λ x. Sits packet x qs end) (sym h.0) k
Sits-join packet at middle end (raw bs ∷ ps) qs (here, fits, later) k =
    (here, fits, Sits-join packet (at + length bs) middle end ps qs later k)
Sits-join packet at middle end (dname n ∷ ps) qs (m, here, later) k =
    (m, here, Sits-join packet (at + m) middle end ps qs later k)

-- ## What is written

pub record Put (header packet : Bytes) (ps : List Piece) (result : Output) : Type 0 where
  pub more : Bytes
  pub map : NameMap
  pub result_is : result ≡ (header ++ (packet ++ more), some map)
  pub sits : Sits (packet ++ more) (length packet) ps (length (packet ++ more))
  pub is_table : IsTable header (packet ++ more) map

pub raw-sits :
    (packet bs more : Bytes)
    → drop (length packet) (packet ++ (bs ++ more))
      ≡ bs ++ drop (length packet + length bs) (packet ++ (bs ++ more))
raw-sits packet bs more =
    drop-length-append packet (bs ++ more)
    ∙ ap (◌++◌ bs) (
        sym (drop-length-append (packet ++ bs) more)
        ∙ ap2 (omega (arith, length-append packet bs)) (append_assoc packet bs more))
  where
    ap2 : {m n : ℕ} {xs ys : Bytes} → m ≡ n → xs ≡ ys → drop m xs ≡ drop n ys
    ap2 p q = λ i. drop (p i) (q i)
