-- ===== src/DomainFilter/Only.antt =====
-- A filter whose only rule is a domain blocks nothing else.
use behind.Base.{
  ℕ, ◌≤◌, ◌≡◌, ◌↔◌, refl, sym, ap, ◌∙◌, Bool, true, false, Option, none, some, [], ◌∷◌, ◌++◌, arith,
  Bytes, if◌then◌else◌, inl, inr, length, bytes_eq, Bool-cases, ◌==◌, append_assoc,
}
use behind.Message.{is_empty}
use behind.Name.{split_dots}
use behind.Misc.{strtolower, is_valid_domain}
use behind.DomainFilter.{
  DomainFilter, Kind, Item, is_normal, suffix_rules, suffix_matches, c_str, find, bucket, push_item,
  domain_suffix_key, no_rules, from_dot, prefix_rules, prefix_matches, domain_prefix_key,
}
use behind.DomainFilter.Entry.{Added, add_entry}
use behind.DomainFilter.Keys.{IsText}
use behind.DomainFilter.Maps.{any}
use behind.DomainFilter.Blocks.{blocks, suffix_blocks, star_blocks, prefix_blocks, find-blocks}
use behind.DomainFilter.Rules.{with_suffix}
use behind.DomainFilter.Limits.{add_entry-IsValid, no_rules-IsValid}
use behind.DomainFilter.Suffix.{Under, suffix_matches-Under}
use behind.Misc.{domain_loop, is_domain_byte, init}
use behind.DomainFilter.Kinds.{HasKindOrKept-blocked}
use behind.DomainFilter.Forms.{is_plain, plain-added, find-Under}

any-none : (p : Item → Bool) (b : Bool) (k : Bytes) → any p (if b then [] else bucket k []) ≡ false
unfolding bucket
any-none p true k = refl
any-none p false k = refl

domain_loop-star : (s : Bytes) → domain_loop 0 (b'*' ∷ s) ≡ false
unfolding domain_loop is_domain_byte
domain_loop-star s = refl

not_root : (s : Bytes) → bytes_eq (b'*' ∷ s) (b'.' ∷ []) ≡ false
unfolding bytes_eq
not_root s = refl

is_valid_domain-star : (s : Bytes) → is_valid_domain (b'*' ∷ s) ≡ false
unfolding is_valid_domain
is_valid_domain-star [] = ground (arith, domain_loop-star [], not_root [])
is_valid_domain-star (c ∷ s) =
    ground (arith, domain_loop-star (c ∷ s), domain_loop-star (init (c ∷ s)), not_root (c ∷ s))

from_dot-append : (s p : Bytes) → from_dot s ≡ some p → (l : Bytes) × (s ≡ l ++ p)
unfolding from_dot
from_dot-append [] p h = absurd (cc)
from_dot-append (c ∷ s) p h = elim (Bool-cases (c == b'.')) [
  | inl dot ↦ ([], ground arith)
  | inr other ↦ let r = from_dot-append s p (ground arith) in (c ∷ r.0, ap (◌∷◌ c) r.1)
]

head_of : Bytes → ℕ
head_of [] = 0
head_of (c ∷ cs) = c

tail_of : Bytes → Bytes
tail_of [] = []
tail_of (c ∷ cs) = cs

-- A name under a domain, through the name with `*` for its first label.
Under-star :
    (d n p : Bytes)
    → is_valid_domain d ≡ true
    → from_dot n ≡ some p
    → Under d (b'*' ∷ p)
    → Under d n
unfolding head_of tail_of
Under-star d n p valid h (inl e) =
    absurd (ground (arith, is_valid_domain-star p, ap is_valid_domain e))
Under-star d n p valid h (inr ([], e)) = absurd (omega (arith, ap head_of e))
Under-star d n p valid h (inr (c ∷ x, e)) =
    let r = from_dot-append n p h in
    inr (r.0 ++ x, r.1 ∙ ap (λ q. r.0 ++ q) (ap tail_of e) ∙ sym (append_assoc r.0 x (b'.' ∷ d)))

module _ (Regex : Type 0) (d : Bytes) (kind : Kind) where
  abbrev one : Bytes → DomainFilter Regex
  one k = with_suffix (no_rules {Regex = Regex}) k d kind

  any-one :
      (p : Item → Bool) (k j : Bytes)
      → any p (if is_empty j then [] else bucket j (one k).suffix_map) ≡ true
      → p (record { name = d; kind = kind }) ≡ true
  unfolding bucket push_item
  any-one p k j h = ground arith

  suffix-Under : (k n : Bytes) → suffix_blocks (one k) n ≡ true → Under d n
  unfolding suffix_rules
  suffix-Under k n h =
      suffix_matches-Under n _ (any-one (suffix_matches n) k (domain_suffix_key n) h)

  prefix-none : (k n : Bytes) → prefix_blocks (one k) n ≡ false
  unfolding prefix_rules
  prefix-none k n =
      any-none (prefix_matches n) (is_empty (domain_prefix_key n)) (domain_prefix_key n)

  star-Under :
      (k n : Bytes) (o : Option Bytes)
      → is_valid_domain d ≡ true
      → from_dot n ≡ o
      → elim o [ none ↦ false | some p ↦ suffix_blocks (one k) (b'*' ∷ p) ] ≡ true
      → Under d n
  star-Under k n none valid e h = absurd (cc)
  star-Under k n (some p) valid e h = Under-star d n p valid e (suffix-Under k (b'*' ∷ p) h)

  searches-Under :
      (matches : Regex → Bytes → Option Bool) (k name : Bytes)
      → is_valid_domain d ≡ true
      → IsText (strtolower name)
      → blocks matches (one k) name ≡ true
      → Under d (strtolower name)
  unfolding blocks
  searches-Under matches k name valid text h =
      let n = strtolower name in
      elim (Bool-cases (suffix_blocks (one k) n)) [
        | inl hit ↦ suffix-Under k n hit
        | inr miss ↦
            let star : star_blocks (one k) n ≡ true = ground (arith, prefix-none k n) in
            star-Under k n (from_dot (c_str n)) valid (ap from_dot (sym text)) star
      ]

-- A filter whose only rule is a domain of two labels and more blocks that domain and the names
-- below it, and nothing else.
pub find_iff_Under :
    {Regex : Type 0} (compile : Bytes → Option Regex) (matches : Regex → Bytes → Option Bool)
    (g : DomainFilter Regex) (rule name : Bytes) (kind : Kind)
    → is_normal kind ≡ false
    → is_plain rule ≡ true
    → IsText (strtolower rule)
    → IsText (strtolower name)
    → 2 ≤ length (split_dots (strtolower rule))
    → add_entry compile no_rules rule kind ≡ Added.added g
    → (is_normal (find matches g name) ≡ false) ↔ Under (strtolower rule) (strtolower name)
find_iff_Under {Regex} compile matches g rule name kind set plain text text' two h =
    let (valid, named, g_is) = plain-added compile no_rules g rule kind plain h in
    let w = add_entry-IsValid compile no_rules g rule kind no_rules-IsValid set h in
    (
      λ blocked.
          searches-Under Regex (strtolower rule) kind matches (domain_suffix_key (strtolower rule))
            name valid text'
            (ap (λ g. blocks matches g name) (sym g_is)
              ∙ ground (arith, find-blocks g w.kinds matches name)),
      λ under. HasKindOrKept-blocked matches no_rules g name kind set (
          find-Under compile matches no_rules g rule name kind no_rules-IsValid set plain text text'
            two h under),
    )
