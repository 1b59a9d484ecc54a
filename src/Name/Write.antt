-- ===== src/Name/Write.antt =====
-- `write_name` with its table of suffixes: what it writes stands in the packet, and the table
-- keeps pointing at names that stand there.
use behind.Base.{
  ℕ, zero, suc, ◌+◌, ◌≤◌, ◌<◌, ◌≡◌, ◌≢◌, refl, sym, ap, ◌∙◌, List, [], ◌∷◌, ◌++◌, append_assoc,
  arith, Bytes, length, take, drop, All, All-mono, length-append, bytes_eq, bytes_eq_iff, some, inl,
  inr, Bool-cases, get_elem?-append_right, take-length-append,
}
use mathlib.Core.Path.{subst}
use behind.Name.{find_entry, join_dots, u16_bytes}
use behind.Name.Labels.{IsLabel}
use behind.Name.Wire.{Wire, root, label, pointer, Wire-append}
use behind.Name.Exact.{Wire-extent}

-- ## The table of suffixes

-- An entry names a suffix that stands at its offset. There are fewer pointers than labels, so a
-- chain of pointers never exceeds the limit of the reader.
pub record IsEntry (packet : Bytes) (e : Bytes × ℕ) : Type 0 where
  pub labels : List Bytes
  pub jumps : ℕ
  pub extent : ℕ
  pub key_is : e.0 ≡ join_dots labels
  pub wire : Wire packet e.1 labels jumps extent
  pub few : jumps < length labels

pub IsEntry-append :
    (packet more : Bytes) (e : Bytes × ℕ) → IsEntry packet e → IsEntry (packet ++ more) e
IsEntry-append packet more e v = record {
  labels = v.labels;
  jumps = v.jumps;
  extent = v.extent;
  key_is = v.key_is;
  wire = Wire-append packet more v.wire;
  few = v.few;
}

abbrev pub AreEntries : Bytes → List (Bytes × ℕ) → Type 0
AreEntries packet = All (IsEntry packet)

pub AreEntries-append :
    (packet more : Bytes) (es : List (Bytes × ℕ))
    → AreEntries packet es
    → AreEntries (packet ++ more) es
AreEntries-append packet more es =
    All-mono (IsEntry packet) (IsEntry (packet ++ more)) es (IsEntry-append packet more)

pub find_entry-IsEntry :
    (packet key : Bytes) (es : List (Bytes × ℕ)) (off : ℕ)
    → AreEntries packet es
    → find_entry key es ≡ some off
    → IsEntry packet (key, off)
unfolding find_entry
find_entry-IsEntry packet key [] off v h = absurd (cc)
find_entry-IsEntry packet key ((k, o) ∷ es) off v h = elim (Bool-cases (bytes_eq k key)) [
  | inl same ↦
      let e : k ≡ key = (bytes_eq_iff k key).0 same in
      let e' : o ≡ off = ground arith in
      record {
        labels = v.0.labels;
        jumps = v.0.jumps;
        extent = v.0.extent;
        key_is = sym e ∙ v.0.key_is;
        wire = subst (λ x. Wire packet x v.0.labels v.0.jumps v.0.extent) e' v.0.wire;
        few = v.0.few;
      }
  | inr other ↦ find_entry-IsEntry packet key es off v.1 (ground arith)
]

-- The keys of names that are being written are longer than the suffix at hand.
abbrev pub AreLonger : Bytes → List (Bytes × ℕ) → Type 0
AreLonger key = All (λ e. length key < length e.0)

pub find_entry-AreLonger :
    (key : Bytes) (ps es : List (Bytes × ℕ))
    → AreLonger key ps
    → find_entry key (ps ++ es) ≡ find_entry key es
unfolding find_entry
find_entry-AreLonger key [] es h = refl
find_entry-AreLonger key ((k, o) ∷ ps) es h =
    let differ : k ≢ key = λ e. let q = ap length e in absurd (omega (arith, h.0)) in
    ground (arith, bytes_eq_iff k key, find_entry-AreLonger key ps es h.1)

pub AreLonger-suffix :
    (l m : Bytes) (ls : List Bytes) (ps : List (Bytes × ℕ)) (at : ℕ)
    → AreLonger (join_dots (l ∷ m ∷ ls)) ps
    → AreLonger (join_dots (m ∷ ls)) ((join_dots (l ∷ m ∷ ls), at) ∷ ps)
unfolding join_dots
AreLonger-suffix l m ls ps at h =
    let grows = length-append {0} l (b'.' ∷ join_dots (m ∷ ls)) in
    (
      omega arith,
      All-mono (λ e. length (join_dots (l ∷ m ∷ ls)) < length e.0) _ ps (λ e k. omega arith) h,
    )

-- ## The pieces that are written

-- The bytes of a pointer, at the end of the packet.
pub pointer-Wire :
    (packet : Bytes) (off : ℕ) {ls : List Bytes} {j s : ℕ}
    → off ≤ 0x3fff
    → Wire packet off ls j s
    → Wire (packet ++ u16_bytes (0xc000 + off)) (length packet) ls (suc j) 2
pointer-Wire packet off small w =
    let bytes = u16_bytes (0xc000 + off) in
    let (pos, fits) = Wire-extent w in
    pointer (get_elem?-append_right packet bytes 0 (length packet) (omega arith)) (omega arith)
      (get_elem?-append_right packet bytes 1 (length packet + 1) refl) (omega arith) (omega arith)
      (Wire-append packet bytes w) refl

pub root-Wire : (packet : Bytes) → Wire (packet ++ 0 ∷ []) (length packet) [] 0 1
root-Wire packet =
    root (get_elem?-append_right packet (0 ∷ []) 0 (length packet) (omega arith)) refl

drop-suc-append :
    (xs : Bytes) (y : ℕ) (ys : Bytes) (n : ℕ) → n ≡ length xs + 1 → drop n (xs ++ (y ∷ ys)) ≡ ys
drop-suc-append [] y ys zero h = absurd (omega arith)
drop-suc-append [] y ys (suc n) h = ap (λ k. drop k ys) (let e : n ≡ 0 = omega arith in e)
drop-suc-append (x ∷ xs) y ys zero h = absurd (omega arith)
drop-suc-append (x ∷ xs) y ys (suc n) h = drop-suc-append xs y ys n (omega arith)

-- A label in front of what follows it.
pub label-Wire :
    (packet l more : Bytes) {ls : List Bytes} {j s : ℕ}
    → IsLabel l
    → Wire ((packet ++ (length l ∷ l)) ++ more) (length (packet ++ (length l ∷ l))) ls j s
    → Wire (packet ++ ((length l ∷ l) ++ more)) (length packet) (l ∷ ls) j (1 + length l + s)
label-Wire packet l more {ls} {j} {s} v w =
    let tail = (length l ∷ l) ++ more in
    let e = append_assoc packet (length l ∷ l) more in
    label v (get_elem?-append_right packet tail 0 (length packet) (omega arith))
      (ap (take (length l)) (drop-suc-append packet (length l) (l ++ more) (length packet + 1) refl)
        ∙ take-length-append l more)
      (omega (arith, length-append {0} packet tail, length-append {0} l more))
      (length-append packet (length l ∷ l) ∙ omega arith)
      (subst (λ p. Wire p (length (packet ++ (length l ∷ l))) ls j s) e w) refl
