-- ===== src/DomainFilter/Searches.antt =====
-- The kind that an accepted rule of the other forms gives to names: `*needle*`, `prefix.*` and `/regex/`.
use behind.Base.{
  ◌-◌, ◌≡◌, refl, sym, ap, ◌∙◌, Bool, true, false, not, ◌||◌, Option, none, some, [], ◌∷◌, ◌++◌,
  arith, Bytes, if◌then◌else◌, ◌⊎◌, length, take, get_or, length-append, codes, take-length-append,
}
use behind.Message.{is_empty}
use behind.Misc.{strtolower, is_valid_domain}
use behind.DomainFilter.{
  DomainFilter, Kind, Item, is_normal, middle_matches, strstr, c_str, bucket, push_item,
  regex_matches, prefix_rules, prefix_matches, domain_prefix_key,
}
use behind.DomainFilter.Entry.{
  Added, add_entry, add_form, add_middle, add_regex, is_enclosed, ends_with_star, inner,
}
use behind.DomainFilter.Keys.{IsText, IsText-front}
use behind.DomainFilter.Maps.{any, any-append, bucket-push_item}
use behind.DomainFilter.Blocks.{blocks, prefix_blocks, middle_blocks, regex_blocks, find-blocks}
use behind.DomainFilter.Kinds.{HasKindOrKept, add_entry-HasKindOrKept}
use behind.DomainFilter.Rules.{
  with_regex, with_middle, add_entry-added, add_middle-added, add_regex-added,
}
use behind.DomainFilter.Limits.{IsValid, add_entry-IsValid}
use behind.DomainFilter.{strncmp_eq, to_dot, or_empty}
use behind.DomainFilter.Entry.{add_prefix}
use behind.DomainFilter.Rules.{with_prefix, add_prefix-added}
use behind.DomainFilter.Suffix.{get_or-append}

strncmp_eq-append : (t r : Bytes) → strncmp_eq (length t) (t ++ r) t ≡ true
unfolding strncmp_eq
strncmp_eq-append [] r = refl
strncmp_eq-append (c ∷ t) r = ground (arith, strncmp_eq-append t r)

strstr-append : (l t r : Bytes) → strstr (l ++ (t ++ r)) t ≡ true
unfolding strstr
strstr-append [] [] [] = unfold strncmp_eq in refl
strstr-append [] [] (c ∷ r) = unfold strncmp_eq in refl
strstr-append [] (c ∷ t) r = ground (arith, strncmp_eq-append (c ∷ t) r)
strstr-append (b ∷ l) t r = ground (arith, strstr-append l t r)

IsText-back : (l r : Bytes) → IsText (l ++ r) → IsText r
unfolding c_str
IsText-back [] r h = h
IsText-back (c ∷ cs) r h = ground (arith, IsText-back cs r)

to_dot-append : (p y z : Bytes) → to_dot (p ++ (b'.' ∷ y)) ≡ to_dot (p ++ (b'.' ∷ z))
unfolding to_dot
to_dot-append [] y z = refl
to_dot-append (c ∷ p) y z = ground (arith, to_dot-append p y z)

prefix_key-append :
    (n lo p y z : Bytes)
    → c_str n ≡ p ++ (b'.' ∷ y)
    → c_str lo ≡ p ++ (b'.' ∷ z)
    → domain_prefix_key n ≡ domain_prefix_key lo
unfolding domain_prefix_key
prefix_key-append n lo p y z h k =
    ap (λ s. or_empty (to_dot s)) h
    ∙ ap or_empty (to_dot-append p y z)
    ∙ ap (λ s. or_empty (to_dot s)) (sym k)

some_injective : {A : Type 0} {x y : A} → some x ≡ some y → x ≡ y
some_injective h = cc

or-false : (a b : Bool) → (a || b) ≡ false → b ≡ false
or-false true b h = absurd (cc)
or-false false b h = h

regex_hit :
    (o : Option Bool)
    → (o ≡ none) ⊎ (o ≡ some true)
    → (b : Bool) → (b || (elim o [ none ↦ true | some c ↦ c ] || false)) ≡ true
regex_hit o h b = ground arith

prefix_hit :
    {Regex : Type 0} (f : DomainFilter Regex) (n k p y : Bytes) (kind : Kind)
    → domain_prefix_key n ≡ k
    → is_empty k ≡ false
    → c_str n ≡ p ++ (b'.' ∷ y)
    → prefix_blocks (with_prefix f k p kind) n ≡ true
unfolding prefix_rules prefix_matches
prefix_hit f n k p y kind key named text =
    let item : Item = record { name = p; kind = kind } in
    let same : strncmp_eq (length p) (c_str n) p ≡ true =
      ap (λ s. strncmp_eq (length p) s p) text ∙ strncmp_eq-append p (b'.' ∷ y) in
    let dot : get_or (c_str n) (length p) 0 ≡ b'.' =
      ap (λ s. get_or s (length p) 0) text ∙ get_or-append p y b'.' in
    ap
      (λ j.
        any (prefix_matches n)
          (if is_empty j then [] else bucket j (push_item k item f.prefix_map)))
      key
    ∙ ap (λ b. any (prefix_matches n) (if b then [] else bucket k (push_item k item f.prefix_map)))
        named
    ∙ ap (any (prefix_matches n)) (bucket-push_item k item f.prefix_map)
    ∙ any-append (prefix_matches n) (bucket k f.prefix_map) (item ∷ [])
    ∙ ground (arith, same, dot)

module _ {Regex : Type 0} (compile : Bytes → Option Regex) (matches : Regex → Bytes → Option Bool)
    (f g : DomainFilter Regex) (rule name : Bytes) (kind : Kind) (v : IsValid f)
    (set : is_normal kind ≡ false) (h : add_entry compile f rule kind ≡ Added.added g) where
  middle_of :
      is_enclosed b'/' rule ≡ false
      → is_enclosed b'*' (strtolower rule) ≡ true
      → g ≡ with_middle f (inner (strtolower rule)) kind
  unfolding add_form
  middle_of slash star =
      let lo = strtolower rule in
      let form : add_form compile f rule lo kind ≡ add_middle f (inner lo) kind = ground arith in
      add_middle-added f g (inner lo) kind (sym form ∙ (add_entry-added compile f g rule kind h).1)

  regex_of :
      is_enclosed b'/' rule ≡ true
      → (e : Regex) × (compile (inner rule) ≡ some e) × (g ≡ with_regex f e kind)
  unfolding add_form
  regex_of slash =
      let form : add_form compile f rule (strtolower rule) kind
          ≡ add_regex compile f (inner rule) kind =
        ground arith in
      (add_regex-added compile f g (inner rule) kind
        (sym form ∙ (add_entry-added compile f g rule kind h).1)).1

  prefix_of :
      is_enclosed b'/' rule ≡ false
      → is_enclosed b'*' (strtolower rule) ≡ false
      → ends_with_star (strtolower rule) ≡ true
      → ((not (is_valid_domain (take (length (strtolower rule) - 2) (strtolower rule)))
            || is_empty (domain_prefix_key (strtolower rule)))
          ≡ false)
        × (g
            ≡ with_prefix f
                (domain_prefix_key (strtolower rule))
                (take (length (strtolower rule) - 2) (strtolower rule))
                kind)
  unfolding add_form
  prefix_of slash star dot_star =
      let lo = strtolower rule in
      let form : add_form compile f rule lo kind ≡ add_prefix f lo kind = ground arith in
      add_prefix-added f g lo kind (sym form ∙ (add_entry-added compile f g rule kind h).1)

  -- Behind an accepted rule `*needle*` every name that holds the needle has the kind of the rule,
  -- except for one that the other rules blocked already: it has the kind of the rule or the one
  -- that they gave it.
  pub find-middle :
      (l r : Bytes)
      → is_enclosed b'/' rule ≡ false
      → is_enclosed b'*' (strtolower rule) ≡ true
      → IsText (strtolower name)
      → strtolower name ≡ l ++ (inner (strtolower rule) ++ r)
      → HasKindOrKept matches f g name kind
  unfolding blocks middle_matches
  find-middle l r slash star text e =
      let w = add_entry-IsValid compile f g rule kind v set h in
      let needle = inner (strtolower rule) in
      let n = strtolower name in
      let item : Item = record { name = needle; kind = kind } in
      let whole : IsText needle =
        IsText-front needle r (IsText-back l (needle ++ r) (sym (ap c_str e) ∙ text ∙ e)) in
      let found : strstr (c_str n) (c_str needle) ≡ true =
        ap (λ s. strstr (c_str n) s) whole
        ∙ ap (λ s. strstr s needle) (text ∙ e)
        ∙ strstr-append l needle r in
      let hit : middle_blocks g n ≡ true =
        ap (λ g. middle_blocks g n) (middle_of slash star)
        ∙ any-append (middle_matches n) f.middle_map (item ∷ [])
        ∙ ground (arith, found) in
      let blocked : blocks matches g name ≡ true = ground (arith, hit) in
      add_entry-HasKindOrKept compile matches f g rule name kind set h
        (find-blocks g w.kinds matches name ∙ ap not blocked)

  -- Behind an accepted rule `/regex/` every name that the expression matches, or for which it cannot
  -- be evaluated, has the kind of the rule, except for one that the other rules blocked already: it
  -- has the kind of the rule or the one that they gave it.
  pub find-regex :
      (e : Regex)
      → is_enclosed b'/' rule ≡ true
      → compile (inner rule) ≡ some e
      → (matches e (strtolower name) ≡ none) ⊎ (matches e (strtolower name) ≡ some true)
      → HasKindOrKept matches f g name kind
  unfolding blocks
  find-regex e slash compiled result =
      let w = add_entry-IsValid compile f g rule kind v set h in
      let n = strtolower name in
      let (e', compiled', g_is) = regex_of slash in
      let same : e' ≡ e = some_injective (sym compiled' ∙ compiled) in
      let hit : regex_blocks g matches n ≡ true =
        ap (λ g. regex_blocks g matches n) (g_is ∙ ap (λ e. with_regex f e kind) same)
        ∙ any-append (regex_matches matches n) f.regex_list
            (record { expression = e; kind = kind } ∷ [])
        ∙ regex_hit (matches e n) result (any (regex_matches matches n) f.regex_list) in
      let blocked : blocks matches g name ≡ true = ground (arith, hit) in
      add_entry-HasKindOrKept compile matches f g rule name kind set h
        (find-blocks g w.kinds matches name ∙ ap not blocked)

  -- Behind an accepted rule `prefix.*` every name with labels behind the prefix has the kind of the
  -- rule, except for one that the other rules blocked already: it has the kind of the rule or the
  -- one that they gave it.
  pub find-prefix :
      (p y : Bytes)
      → is_enclosed b'/' rule ≡ false
      → is_enclosed b'*' (strtolower rule) ≡ false
      → ends_with_star (strtolower rule) ≡ true
      → strtolower rule ≡ p ++ codes ".*"
      → IsText (strtolower rule)
      → IsText (strtolower name)
      → strtolower name ≡ p ++ (b'.' ∷ y)
      → HasKindOrKept matches f g name kind
  unfolding blocks
  find-prefix p y slash star dot_star rule_is rule_text text e =
      let w = add_entry-IsValid compile f g rule kind v set h in
      let n = strtolower name in
      let lo = strtolower rule in
      let (named, g_is) = prefix_of slash star dot_star in
      let len : length lo - 2 ≡ length p =
        ap (λ s. length s - 2) rule_is ∙ omega (arith, length-append {0} p (codes ".*")) in
      let front : take (length lo - 2) lo ≡ p =
        ap (λ k. take k lo) len
        ∙ ap (take (length p)) rule_is
        ∙ take-length-append p (codes ".*") in
      let key : domain_prefix_key n ≡ domain_prefix_key lo =
        prefix_key-append n lo p y (b'*' ∷ []) (text ∙ e) (rule_text ∙ rule_is) in
      let named' : is_empty (domain_prefix_key lo) ≡ false = or-false _ _ named in
      let hit : prefix_blocks g n ≡ true =
        ap (λ g. prefix_blocks g n)
          (g_is ∙ ap (λ m. with_prefix f (domain_prefix_key lo) m kind) front)
        ∙ prefix_hit f n (domain_prefix_key lo) p y kind key named' (text ∙ e) in
      let blocked : blocks matches g name ≡ true = ground (arith, hit) in
      add_entry-HasKindOrKept compile matches f g rule name kind set h
        (find-blocks g w.kinds matches name ∙ ap not blocked)
