-- ===== src/DomainFilter/Keys.antt =====
-- The keys of the suffix rules: a name shares its key with every domain above it that has at
-- least two labels.
use behind.Base.{ℕ, ◌≤◌, ◌≡◌, ◌≢◌, refl, sym, ap, ◌∙◌, List, [], ◌∷◌, ◌++◌, arith, Bytes, length}
use behind.Name.{split_dots, cons_first}
use behind.Name.Labels.{split_dots-ne-nil}
use behind.DomainFilter.{
  c_str, last_parts, two_parts, known_suffix, known_suffixes, domain_suffix_key,
}

-- A text without a zero byte.
abbrev pub IsText : Bytes → Type 0
IsText s = c_str s ≡ s

c_str-append : (x y : Bytes) → IsText x → c_str (x ++ y) ≡ x ++ c_str y
unfolding c_str
c_str-append [] y h = refl
c_str-append (c ∷ cs) y h = ground (arith, c_str-append cs y)

pub IsText-front : (x y : Bytes) → IsText (x ++ y) → IsText x
unfolding c_str
IsText-front [] y h = refl
IsText-front (c ∷ cs) y h = ground (arith, IsText-front cs y)

cons_first-append :
    (c : ℕ) (ls ms : List Bytes) → ls ≢ [] → cons_first c (ls ++ ms) ≡ cons_first c ls ++ ms
unfolding cons_first
cons_first-append c [] ms h = absurd (h refl)
cons_first-append c (l ∷ ls) ms h = refl

split_dots-append : (x d : Bytes) → split_dots (x ++ (b'.' ∷ d)) ≡ split_dots x ++ split_dots d
unfolding split_dots
split_dots-append [] d = refl
split_dots-append (c ∷ cs) d =
    let h = split_dots-append cs d in
    let k = cons_first-append c (split_dots cs) (split_dots d) (split_dots-ne-nil cs) in
    ground (arith, h, k)

last_parts-append : (ps qs : List Bytes) → 2 ≤ length qs → last_parts (ps ++ qs) ≡ last_parts qs
unfolding last_parts
last_parts-append ps [] h = absurd (omega arith)
last_parts-append ps (q ∷ []) h = absurd (omega arith)
last_parts-append [] (q ∷ r ∷ qs) h = refl
last_parts-append (p ∷ []) (q ∷ r ∷ qs) h = refl
last_parts-append (p ∷ p' ∷ []) (q ∷ r ∷ qs) h = refl
last_parts-append (p ∷ p' ∷ p'' ∷ ps) (q ∷ r ∷ qs) h =
    last_parts-append (p' ∷ p'' ∷ ps) (q ∷ r ∷ qs) h

two_parts-append : (ps qs : List Bytes) → 2 ≤ length qs → two_parts (ps ++ qs) ≡ ps ++ qs
two_parts-append ps [] h = absurd (omega arith)
two_parts-append ps (q ∷ []) h = absurd (omega arith)
two_parts-append [] (q ∷ r ∷ qs) h = refl
two_parts-append (p ∷ []) (q ∷ r ∷ qs) h = refl
two_parts-append (p ∷ p' ∷ ps) (q ∷ r ∷ qs) h = refl

pub subdomain-IsText : (x d : Bytes) → IsText x → IsText d → IsText (x ++ (b'.' ∷ d))
unfolding c_str
subdomain-IsText x d h k = c_str-append x (b'.' ∷ d) h ∙ ap (λ e. x ++ (b'.' ∷ e)) k

pub domain_suffix_key-subdomain :
    (x d : Bytes)
    → IsText x
    → IsText d
    → 2 ≤ length (split_dots d)
    → domain_suffix_key (x ++ (b'.' ∷ d)) ≡ domain_suffix_key d
unfolding domain_suffix_key
domain_suffix_key-subdomain x d h k two =
    let parts : split_dots (c_str (x ++ (b'.' ∷ d))) ≡ split_dots x ++ split_dots d =
      ap split_dots (subdomain-IsText x d h k) ∙ split_dots-append x d in
    let alone : split_dots (c_str d) ≡ split_dots d = ap split_dots k in
    ap (λ ps. known_suffix (last_parts ps) known_suffixes)
      (ap two_parts parts ∙ two_parts-append (split_dots x) (split_dots d) two)
    ∙ ap (λ l. known_suffix l known_suffixes) (last_parts-append (split_dots x) (split_dots d) two)
    ∙ ap (λ ps. known_suffix (last_parts ps) known_suffixes)
        (sym (two_parts-append [] (split_dots d) two) ∙ ap two_parts (sym alone))
