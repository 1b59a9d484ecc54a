-- ===== src/DomainFilter/Kinds.antt =====
-- The kind that a name has in a filter before and after a rule is added.
use behind.Base.{
  ◌≡◌, ◌⊎◌, inl, inr, refl, sym, ap, ◌∙◌, Bool, false, Option, none, some, List, [], ◌∷◌, ◌++◌,
  Bytes, if◌then◌else◌, Bool-cases,
}
use mathlib.Core.Path.{subst}
use behind.Message.{is_empty}
use behind.Misc.{strtolower}
use behind.DomainFilter.{
  DomainFilter, Kind, Item, RegexItem, Buckets, is_normal, from_dot, c_str, suffix_rules,
  suffix_matches, prefix_rules, prefix_matches, middle_matches, regex_matches, first_match,
  first_regex, if_blocked, or_else, or_normal, find_suffix, find_star, find_prefix, find, bucket,
  push_item, domain_suffix_key, domain_prefix_key,
}
use behind.DomainFilter.Entry.{Added, add_entry}
use behind.DomainFilter.Maps.{bucket-push_item_cases}
use behind.DomainFilter.Rules.{
  with_regex, with_middle, with_prefix, with_suffix, Grown, add_entry-added, add_form-Grown,
}

-- A search finds what it found, or `kind`.
abbrev pub Moves : Kind → Option Kind → Option Kind → Type 0
Moves kind o p = (p ≡ o) ⊎ (p ≡ some kind)

Moves-or_else :
    (kind : Kind) (o p l m : Option Kind)
    → Moves kind o p
    → Moves kind l m
    → Moves kind (or_else o l) (or_else p m)
Moves-or_else kind o p l m (inr e) k = inr (ap (λ x. or_else x m) e)
Moves-or_else kind none p l m (inl e) (inl k) = inl (ap (λ x. or_else x m) e ∙ k)
Moves-or_else kind none p l m (inl e) (inr k) = inr (ap (λ x. or_else x m) e ∙ k)
Moves-or_else kind (some x) p l m (inl e) k = inl (ap (λ x. or_else x m) e)

Moves-if_blocked :
    (kind : Kind) (o p : Option Kind)
    → is_normal kind ≡ false
    → Moves kind o p
    → Moves kind (if_blocked o) (if_blocked p)
Moves-if_blocked kind o p set (inl e) = inl (ap if_blocked e)
Moves-if_blocked kind o p set (inr e) = inr (ap if_blocked e ∙ rw set refl)

Moves-first_match :
    (p : Item → Bool) (is : List Item) (i : Item)
    → Moves i.kind (first_match p is) (first_match p (is ++ (i ∷ [])))
unfolding first_match
Moves-first_match p [] i = elim (Bool-cases (p i)) [
  | inl t ↦ inr (rw t refl)
  | inr f ↦ inl (rw f refl)
]
Moves-first_match p (j ∷ is) i = elim (Bool-cases (p j)) [
  | inl t ↦ rw t (inl refl)
  | inr f ↦ rw f (Moves-first_match p is i)
]

Moves-bucket :
    (p : Item → Bool) (k l : Bytes) (i : Item) (m : Buckets)
    → Moves i.kind
        (first_match p (if is_empty l then [] else bucket l m))
        (first_match p (if is_empty l then [] else bucket l (push_item k i m)))
Moves-bucket p k [] i m = inl refl
Moves-bucket p k (c ∷ cs) i m = elim (bucket-push_item_cases k (c ∷ cs) i m) [
  | inl e ↦ inl (ap (first_match p) e)
  | inr e ↦
      subst (λ is. Moves i.kind (first_match p (bucket (c ∷ cs) m)) (first_match p is)) (sym e)
        (Moves-first_match p (bucket (c ∷ cs) m) i)
]

module _ {Regex : Type 0} (matches : Regex → Bytes → Option Bool) where
  Moves-first_regex :
      (name : Bytes) (rs : List (RegexItem Regex)) (r : RegexItem Regex)
      → Moves r.kind (first_regex matches name rs) (first_regex matches name (rs ++ (r ∷ [])))
  unfolding first_regex
  Moves-first_regex name [] r = elim (Bool-cases (regex_matches matches name r)) [
    | inl t ↦ inr (rw t refl)
    | inr f ↦ inl (rw f refl)
  ]
  Moves-first_regex name (s ∷ rs) r = elim (Bool-cases (regex_matches matches name s)) [
    | inl t ↦ rw t (inl refl)
    | inr f ↦ rw f (Moves-first_regex name rs r)
  ]

  module _ (f : DomainFilter Regex) (kind : Kind) (set : is_normal kind ≡ false) where
    Moves-find_suffix :
        (k m n : Bytes) → Moves kind (find_suffix f n) (find_suffix (with_suffix f k m kind) n)
    unfolding find_suffix suffix_rules
    Moves-find_suffix k m n =
        Moves-if_blocked kind _ _ set
          (Moves-bucket (suffix_matches n) k (domain_suffix_key n) _ f.suffix_map)

    Moves-star :
        (k m : Bytes) (o : Option Bytes)
        → Moves kind
            (elim o [ none ↦ none | some p ↦ find_suffix f (b'*' ∷ p) ])
            (elim o [ none ↦ none | some p ↦ find_suffix (with_suffix f k m kind) (b'*' ∷ p) ])
    Moves-star k m none = inl refl
    Moves-star k m (some p) = Moves-find_suffix k m (b'*' ∷ p)

    Moves-find_star :
        (k m n : Bytes) → Moves kind (find_star f n) (find_star (with_suffix f k m kind) n)
    unfolding find_star
    Moves-find_star k m n = Moves-star k m (from_dot (c_str n))

    Moves-find_prefix :
        (k m n : Bytes) → Moves kind (find_prefix f n) (find_prefix (with_prefix f k m kind) n)
    unfolding find_prefix prefix_rules
    Moves-find_prefix k m n = Moves-bucket (prefix_matches n) k (domain_prefix_key n) _ f.prefix_map

    -- The whole search, with its first two, its third, its fourth and its last part.
    KeepsOr : DomainFilter Regex → Bytes → Type 0
    KeepsOr g name = (find matches g name ≡ find matches f name) ⊎ (find matches g name ≡ kind)

    searches-KeepsOr :
        (g : DomainFilter Regex) (name : Bytes)
        → Moves kind (find_suffix f (strtolower name)) (find_suffix g (strtolower name))
        → Moves kind (find_star f (strtolower name)) (find_star g (strtolower name))
        → Moves kind (find_prefix f (strtolower name)) (find_prefix g (strtolower name))
        → Moves kind
            (first_match (middle_matches (strtolower name)) f.middle_map)
            (first_match (middle_matches (strtolower name)) g.middle_map)
        → Moves kind
            (first_regex matches (strtolower name) f.regex_list)
            (first_regex matches (strtolower name) g.regex_list)
        → KeepsOr g name
    unfolding find KeepsOr
    searches-KeepsOr g name suffix star prefix middle regex =
        elim (Moves-or_else kind _ _ _ _ suffix (
          Moves-or_else kind _ _ _ _ star
            (Moves-or_else kind _ _ _ _ prefix (Moves-or_else kind _ _ _ _ middle regex)))) [
              | inl e ↦ inl (ap or_normal e)
              | inr e ↦ inr (ap or_normal e)
            ]

    Grown-KeepsOr : (g : DomainFilter Regex) (name : Bytes) → Grown f g kind → KeepsOr g name
    unfolding find_suffix suffix_rules find_star find_prefix prefix_rules
    Grown-KeepsOr g name (Grown.by_regex e few h) =
        subst (λ g. KeepsOr g name) (sym h)
          (searches-KeepsOr (with_regex f e kind) name (inl refl) (inl refl) (inl refl) (inl refl)
            (Moves-first_regex (strtolower name) f.regex_list _))
    Grown-KeepsOr g name (Grown.by_middle needle h) =
        subst (λ g. KeepsOr g name) (sym h)
          (searches-KeepsOr (with_middle f needle kind) name (inl refl) (inl refl) (inl refl)
            (Moves-first_match (middle_matches (strtolower name)) f.middle_map _) (inl refl))
    Grown-KeepsOr g name (Grown.by_prefix k m h) =
        subst (λ g. KeepsOr g name) (sym h)
          (searches-KeepsOr (with_prefix f k m kind) name (inl refl) (inl refl)
            (Moves-find_prefix k m (strtolower name)) (inl refl) (inl refl))
    Grown-KeepsOr g name (Grown.by_suffix k m h) =
        subst (λ g. KeepsOr g name) (sym h)
          (searches-KeepsOr (with_suffix f k m kind) name (Moves-find_suffix k m (strtolower name))
            (Moves-find_star k m (strtolower name)) (inl refl) (inl refl) (inl refl))

-- The name has the kind, or it keeps the one that it had, which blocks it.
abbrev pub HasKindOrKept :
    {Regex : Type 0}
    → (Regex → Bytes → Option Bool)
    → DomainFilter Regex
    → DomainFilter Regex
    → Bytes
    → Kind
    → Type 0
HasKindOrKept matches f g name kind =
    (find matches g name ≡ kind)
    ⊎ ((find matches g name ≡ find matches f name) × (is_normal (find matches f name) ≡ false))

-- A name that a filter blocks with one rule more has the kind of the rule or the one it had.
pub add_entry-HasKindOrKept :
    {Regex : Type 0} (compile : Bytes → Option Regex) (matches : Regex → Bytes → Option Bool)
    (f g : DomainFilter Regex) (rule name : Bytes) (kind : Kind)
    → is_normal kind ≡ false
    → add_entry compile f rule kind ≡ Added.added g
    → is_normal (find matches g name) ≡ false
    → HasKindOrKept matches f g name kind
unfolding KeepsOr
add_entry-HasKindOrKept compile matches f g rule name kind set h blocked =
    let a = add_entry-added compile f g rule kind h in
    elim (Grown-KeepsOr matches f kind set g name
      (add_form-Grown compile f g rule (strtolower rule) kind a.1)) [
        | inl e ↦ inr (e, sym (ap is_normal e) ∙ blocked)
        | inr e ↦ inl e
      ]

pub HasKindOrKept-blocked :
    {Regex : Type 0} (matches : Regex → Bytes → Option Bool) (f g : DomainFilter Regex)
    (name : Bytes) (kind : Kind)
    → is_normal kind ≡ false
    → HasKindOrKept matches f g name kind
    → is_normal (find matches g name) ≡ false
HasKindOrKept-blocked matches f g name kind set (inl e) = ap is_normal e ∙ set
HasKindOrKept-blocked matches f g name kind set (inr h) = ap is_normal h.0 ∙ h.1
