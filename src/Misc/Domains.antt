-- ===== src/Misc/Domains.antt =====
-- `misc::is_valid_domain`, which scans the bytes once, against a description by labels.
use behind.Base.{
  ℕ, ◌+◌, ◌≡◌, ◌≢◌, refl, sym, ap, ◌∙◌, Bool, true, false, not, ◌&&◌, ◌||◌, List, [], ◌∷◌, arith,
  Bytes, ltb, leb, ◌==◌, if◌then◌else◌, length, all, bytes_eq, Bool-cases, inl, inr,
}
use behind.Name.{split_dots, cons_first}
use behind.Name.Labels.{split_dots-ne-nil}
use behind.Misc.{is_domain_byte, domain_loop, is_valid_domain, front_is, back_is, init}

-- A label of which `n` bytes stand in front: 1 to 63 bytes, of letters, digits, `-` and `_`, and
-- no `-` at its start.
abbrev pub is_domain_label : ℕ → Bytes → Bool
is_domain_label n l =
    leb 1 (n + length l)
    && leb (n + length l) 63
    && all is_domain_byte l
    && not (n == 0 && front_is b'-' l)

abbrev pub are_domain_labels : ℕ → List Bytes → Bool
are_domain_labels n [] = false
are_domain_labels n (l ∷ ls) = is_domain_label n l && all (is_domain_label 0) ls

-- The name without one trailing dot.
abbrev pub without_dot : Bytes → Bytes
without_dot s = if back_is b'.' s then init s else s

all-are : (ls : List Bytes) → ls ≢ [] → all (is_domain_label 0) ls ≡ are_domain_labels 0 ls
all-are [] h = absurd (h refl)
all-are (l ∷ ls) h = refl

label-cons :
    (n c : ℕ) (l : Bytes)
    → is_domain_label n (c ∷ l) ≡ (
        (is_domain_byte c && not (n == 0 && c == b'-') && leb (n + 1) 63)
        && is_domain_label (n + 1) l)
label-cons n c l = ground arith

and_assoc : (a b c : Bool) → ((a && b) && c) ≡ (a && (b && c))
and_assoc true b c = refl
and_assoc false b c = refl

labels-cons :
    (n c : ℕ) (ls : List Bytes)
    → ls ≢ []
    → are_domain_labels n (cons_first c ls) ≡ (
        (is_domain_byte c && not (n == 0 && c == b'-') && leb (n + 1) 63)
        && are_domain_labels (n + 1) ls)
unfolding cons_first
labels-cons n c [] h = absurd (h refl)
labels-cons n c (l ∷ ls) h =
    ap (λ b. b && all (is_domain_label 0) ls) (label-cons n c l)
    ∙ and_assoc _ (is_domain_label (n + 1) l) (all (is_domain_label 0) ls)

-- The tests of the loop at a dot and at another byte.
loop_dot :
    (n : ℕ) (a b : Bool)
    → a ≡ b
    → (if n == 0 || ltb 63 n then false else a) ≡ (leb 1 n && leb n 63 && b)
loop_dot n a b h = ground arith

loop_byte :
    (n c : ℕ) (a b : Bool)
    → a ≡ b
    → (if not (is_domain_byte c)
        then false
        else if n == 0 && c == b'-'
        then false
        else if ltb 63 (n + 1)
        then false
        else a)
      ≡ ((is_domain_byte c && not (n == 0 && c == b'-') && leb (n + 1) 63) && b)
loop_byte n c a b h = ground arith

labels-dot :
    (n : ℕ) (ls : List Bytes)
    → ls ≢ []
    → are_domain_labels n ([] ∷ ls) ≡ (leb 1 n && leb n 63 && are_domain_labels 0 ls)
labels-dot n [] h = absurd (h refl)
labels-dot n (l ∷ ls) h = ap (λ b. b && are_domain_labels 0 (l ∷ ls)) (empty-label n)
  where
    empty-label : (n : ℕ) → is_domain_label n [] ≡ (leb 1 n && leb n 63)
    empty-label n = ground arith

domain_loop-labels : (s : Bytes) (n : ℕ) → domain_loop n s ≡ are_domain_labels n (split_dots s)
unfolding domain_loop split_dots
domain_loop-labels [] n = ground arith
domain_loop-labels (c ∷ cs) n =
    let h0 = domain_loop-labels cs 0 in
    let h1 = domain_loop-labels cs (n + 1) in
    elim (Bool-cases (c == b'.')) [
      | inl dot ↦
          rw dot (loop_dot n _ _ h0 ∙ sym (labels-dot n (split_dots cs) (split_dots-ne-nil cs)))
      | inr other ↦
          rw other
            (loop_byte n c _ _ h1 ∙ sym (labels-cons n c (split_dots cs) (split_dots-ne-nil cs)))
    ]

domain_loop-cons :
    (n c : ℕ) (cs : Bytes)
    → domain_loop n (c ∷ cs) ≡ (
        if c == b'.'
        then (if n == 0 || ltb 63 n then false else domain_loop 0 cs)
        else if not (is_domain_byte c)
        then false
        else if n == 0 && c == b'-'
        then false
        else if ltb 63 (n + 1)
        then false
        else domain_loop (n + 1) cs)
unfolding domain_loop
domain_loop-cons n c cs = refl

domain_loop-nil : domain_loop 0 [] ≡ false
unfolding domain_loop
domain_loop-nil = refl

loop-back : (s : Bytes) (n : ℕ) → back_is b'.' s ≡ true → domain_loop n s ≡ false
loop-back [] n h = absurd (cc)
loop-back (c ∷ []) n h = ground (arith, domain_loop-cons n c [], domain_loop-nil)
loop-back (c ∷ d ∷ cs) n h =
    ground
      (arith, domain_loop-cons n c (d ∷ cs), loop-back (d ∷ cs) 0 h, loop-back (d ∷ cs) (n + 1) h)

loop-front : (s : Bytes) → front_is b'.' s ≡ true → domain_loop 0 s ≡ false
loop-front [] h = absurd (cc)
loop-front (c ∷ cs) h = ground (arith, domain_loop-cons 0 c cs)

loop-empty : (s : Bytes) → leb (length s) 0 ≡ true → domain_loop 0 s ≡ false
unfolding domain_loop
loop-empty [] h = refl
loop-empty (c ∷ cs) h = absurd (ground arith)

not_root : (s : Bytes) → leb (length s) 0 ≡ true → bytes_eq s (b'.' ∷ []) ≡ false
unfolding bytes_eq
not_root [] h = refl
not_root (c ∷ cs) h = absurd (ground arith)

empty-without_dot : (s : Bytes) → leb (length s) 0 ≡ true → leb (length (without_dot s)) 0 ≡ true
empty-without_dot [] h = refl
empty-without_dot (c ∷ cs) h = absurd (ground arith)

-- The tests in front of the loop, for any facts that the loop refuses by itself.
guards :
    (empty root none long front back loop : Bool)
    → (empty ≡ true → root ≡ false)
    → (empty ≡ true → none ≡ true)
    → (none ≡ true → loop ≡ false)
    → (front ≡ true → loop ≡ false)
    → (back ≡ true → loop ≡ false)
    → (if empty
        then false
        else if root
        then true
        else if none
        then false
        else if long
        then false
        else if front || back
        then false
        else loop)
      ≡ (root || (not long && loop))
guards empty root none long front back loop h0 h1 h2 h3 h4 = ground arith

not-ltb : (n : ℕ) → not (ltb 253 n) ≡ leb n 253
not-ltb n = ground arith

-- `is_valid_domain` accepts the root, and the names that, without one trailing dot, have at most
-- 253 bytes in labels of 1 to 63 letters, digits, `-` and `_` that do not start with `-`.
pub is_valid_domain-labels :
    (s : Bytes)
    → is_valid_domain s ≡ (
        bytes_eq s (b'.' ∷ [])
        || (leb (length (without_dot s)) 253 && are_domain_labels 0 (split_dots (without_dot s))))
unfolding is_valid_domain
is_valid_domain-labels s =
    let v = without_dot s in
    guards (leb (length s) 0) (bytes_eq s (b'.' ∷ [])) (leb (length v) 0) (ltb 253 (length v))
      (front_is b'.' v) (back_is b'.' v) (domain_loop 0 v) (not_root s) (empty-without_dot s)
      (loop-empty v) (loop-front v) (loop-back v 0)
    ∙ ap (λ b. bytes_eq s (b'.' ∷ []) || (b && domain_loop 0 v)) (not-ltb (length v))
    ∙ ap (λ b. bytes_eq s (b'.' ∷ []) || (leb (length v) 253 && b)) (domain_loop-labels v 0)
