-- ===== src/DomainFilter/Forms.antt =====
-- The kind that an accepted rule for a domain gives to the names under it.
use behind.Base.{
  ◌≤◌, ◌≡◌, sym, ap, ◌∙◌, Bool, true, false, not, ◌&&◌, Option, [], ◌∷◌, arith, Bytes,
  if◌then◌else◌, inl, inr, length, drop,
}
use behind.Message.{is_empty}
use behind.Name.{split_dots}
use behind.Misc.{strtolower, is_valid_domain}
use behind.DomainFilter.{
  DomainFilter, Kind, Item, is_normal, suffix_rules, suffix_matches, c_str, bucket, push_item,
  domain_suffix_key,
}
use behind.DomainFilter.Entry.{
  Added, add_entry, add_form, add_suffix, is_enclosed, starts_with_star, ends_with_star,
}
use behind.DomainFilter.Keys.{IsText, IsText-front, domain_suffix_key-subdomain}
use behind.DomainFilter.Maps.{any, any-append, bucket-push_item}
use behind.DomainFilter.Blocks.{blocks, suffix_blocks, find-blocks}
use behind.DomainFilter.Kinds.{HasKindOrKept, add_entry-HasKindOrKept}
use behind.DomainFilter.Rules.{with_suffix, add_entry-added, add_suffix-added}
use behind.DomainFilter.Limits.{IsValid, add_entry-IsValid}
use behind.DomainFilter.Suffix.{Under, Under-suffix_matches}

-- A rule that is a domain: of no other form, and with no `*.` in front.
abbrev pub is_plain : Bytes → Bool
is_plain rule =
    not (is_enclosed b'/' rule)
    && not (is_enclosed b'*' (strtolower rule))
    && not (ends_with_star (strtolower rule))
    && not (starts_with_star (strtolower rule))

module _ {Regex : Type 0} (compile : Bytes → Option Regex) where
  pub plain-added :
      (f g : DomainFilter Regex) (rule : Bytes) (kind : Kind)
      → is_plain rule ≡ true
      → add_entry compile f rule kind ≡ Added.added g
      → (is_valid_domain (strtolower rule) ≡ true)
        × (is_empty (domain_suffix_key (strtolower rule)) ≡ false)
        × (g ≡ with_suffix f (domain_suffix_key (strtolower rule)) (strtolower rule) kind)
  unfolding add_form
  plain-added f g rule kind plain h =
      let lo = strtolower rule in
      let form : add_form compile f rule lo kind ≡ add_suffix f lo kind = ground arith in
      let k =
        add_suffix-added f g lo kind (sym form ∙ (add_entry-added compile f g rule kind h).1) in
      let name : (if starts_with_star lo then drop 2 lo else lo) ≡ lo = ground arith in
      (
        ground (arith, k.0, ap is_valid_domain name),
        k.1,
        k.2 ∙ ap (λ n. with_suffix f (domain_suffix_key lo) n kind) name,
      )

-- A name below a domain of two labels and more looks at the same rules.
Under-key :
    (d n : Bytes)
    → IsText d
    → IsText n
    → 2 ≤ length (split_dots d)
    → Under d n
    → domain_suffix_key n ≡ domain_suffix_key d
Under-key d n text text' two (inl e) = ap domain_suffix_key e
Under-key d n text text' two (inr (x, e)) =
    ap domain_suffix_key e
    ∙ domain_suffix_key-subdomain x d (IsText-front x (b'.' ∷ d) (sym (ap c_str e) ∙ text' ∙ e))
        text two

module _ {Regex : Type 0} (f : DomainFilter Regex) (d : Bytes) (kind : Kind)
    (named : is_empty (domain_suffix_key d) ≡ false) where
  Under-suffix_blocks :
      (n : Bytes)
      → domain_suffix_key n ≡ domain_suffix_key d
      → Under d n
      → suffix_blocks (with_suffix f (domain_suffix_key d) d kind) n ≡ true
  unfolding suffix_rules
  Under-suffix_blocks n key under =
      let item : Item = record { name = d; kind = kind } in
      let k = domain_suffix_key d in
      ap
        (λ j.
          any (suffix_matches n)
            (if is_empty j then [] else bucket j (push_item k item f.suffix_map)))
        key
      ∙ ap
          (λ b. any (suffix_matches n) (if b then [] else bucket k (push_item k item f.suffix_map)))
          named
      ∙ ap (any (suffix_matches n)) (bucket-push_item k item f.suffix_map)
      ∙ any-append (suffix_matches n) (bucket k f.suffix_map) (item ∷ [])
      ∙ ground (arith, Under-suffix_matches n item under)

module _ {Regex : Type 0} (compile : Bytes → Option Regex)
    (matches : Regex → Bytes → Option Bool) where
  -- Behind an accepted rule that is a domain of two labels and more, that domain and every name
  -- below it, in any case of the letters, have the kind of the rule, except for a name that the
  -- other rules blocked already: it has the kind of the rule or the one that they gave it.
  pub find-Under :
      (f g : DomainFilter Regex) (rule name : Bytes) (kind : Kind)
      → IsValid f
      → is_normal kind ≡ false
      → is_plain rule ≡ true
      → IsText (strtolower rule)
      → IsText (strtolower name)
      → 2 ≤ length (split_dots (strtolower rule))
      → add_entry compile f rule kind ≡ Added.added g
      → Under (strtolower rule) (strtolower name)
      → HasKindOrKept matches f g name kind
  unfolding blocks
  find-Under f g rule name kind v set plain text text' two h under =
      let k = plain-added compile f g rule kind plain h in
      let w = add_entry-IsValid compile f g rule kind v set h in
      let key = Under-key (strtolower rule) (strtolower name) text text' two under in
      let hit : suffix_blocks g (strtolower name) ≡ true =
        ap (λ g. suffix_blocks g (strtolower name)) k.2
        ∙ Under-suffix_blocks f (strtolower rule) kind k.1 (strtolower name) key under in
      let blocked : blocks matches g name ≡ true = ground (arith, hit) in
      add_entry-HasKindOrKept compile matches f g rule name kind set h
        (find-blocks g w.kinds matches name ∙ ap not blocked)
