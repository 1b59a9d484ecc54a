-- ===== src/Name/Wire.antt =====
-- What a packet says at an offset, as a relation: RFC 1035 labels and backward pointers.
use behind.Base.{
  ℕ, zero, suc, ◌+◌, ◌*◌, ◌/◌, ◌%◌, ◌≤◌, ◌<◌, ◌≡◌, ap, ◌∙◌, List, [], ◌∷◌, ◌++◌, some, arith, Bytes,
  length, get_elem?, take, drop, get_elem?-append_left, All, drop-append_of_le, take-append_of_le,
  length-drop, length-append,
}
use behind.Name.Labels.{IsLabel}

-- `Wire packet off ls jumps extent`: the labels `ls` stand at `off`, reached over so many
-- pointers, and `extent` bytes belong to the name there, up to its first pointer.
pub data Wire (packet : Bytes) : ℕ → List Bytes → ℕ → ℕ → Type 0 where
  root : {off s : ℕ} → get_elem? packet off ≡ some 0 → s ≡ 1 → Wire packet off [] zero s
  label :
      {off next s t j : ℕ} {l : Bytes} {ls : List Bytes}
      → IsLabel l
      → get_elem? packet off ≡ some (length l)
      → take (length l) (drop (off + 1) packet) ≡ l
      → off + 1 + length l ≤ length packet
      → next ≡ off + 1 + length l
      → Wire packet next ls j t
      → s ≡ 1 + length l + t
      → Wire packet off (l ∷ ls) j s
  pointer :
      {off target n b s t j : ℕ} {ls : List Bytes}
      → get_elem? packet off ≡ some n
      → n / 64 ≡ 3
      → get_elem? packet (off + 1) ≡ some b
      → target ≡ n % 64 * 256 + b
      → target < off
      → Wire packet target ls j t
      → s ≡ 2
      → Wire packet off ls (suc j) s

pub Wire-IsLabel :
    {packet : Bytes} {off j s : ℕ} {ls : List Bytes} → Wire packet off ls j s → All IsLabel ls
Wire-IsLabel (root h e) = tt
Wire-IsLabel (label v h sits fits e w es) = (v, Wire-IsLabel w)
Wire-IsLabel (pointer hn h3 hb e back w es) = Wire-IsLabel w

slice-append :
    (packet more l : Bytes) (k n : ℕ)
    → k + n ≤ length packet
    → take n (drop k packet) ≡ l
    → take n (drop k (packet ++ more)) ≡ l
slice-append packet more l k n h e =
    ap (take n) (drop-append_of_le k packet more (omega arith))
    ∙ take-append_of_le n (drop k packet) more (omega (arith, length-drop k packet))
    ∙ e

-- What stands in a packet is not changed by what is written behind it.
pub Wire-append :
    (packet more : Bytes) {off j s : ℕ} {ls : List Bytes}
    → Wire packet off ls j s
    → Wire (packet ++ more) off ls j s
Wire-append packet more (root {off} h e) = root (get_elem?-append_left packet more off 0 h) e
Wire-append packet more (label {off} {l = l} v h sits fits e w es) =
    label v (get_elem?-append_left packet more off (length l) h)
      (slice-append packet more l (off + 1) (length l) fits sits)
      (omega (arith, length-append packet more)) e (Wire-append packet more w) es
Wire-append packet more (pointer {off} {n = n} {b = b} hn h3 hb e back w es) =
    pointer (get_elem?-append_left packet more off n hn) h3
      (get_elem?-append_left packet more (off + 1) b hb) e back (Wire-append packet more w) es
