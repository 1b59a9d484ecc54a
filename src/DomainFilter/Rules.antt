-- ===== src/DomainFilter/Rules.antt =====
-- What a rule that `DomainFilter::add_entry` accepts adds to the filter.
use behind.Base.{
  ◌+◌, ◌-◌, ◌<◌, ◌≡◌, refl, sym, ap, Bool, true, false, not, ◌||◌, Option, none, some, [], ◌∷◌,
  ◌++◌, arith, Bytes, if◌then◌else◌, length, leb, ltb, drop, take,
}
use behind.Message.{is_empty}
use behind.Misc.{strtolower, is_valid_domain}
use behind.DomainFilter.{DomainFilter, Kind, push_item, domain_suffix_key, domain_prefix_key}
use behind.DomainFilter.Entry.{
  is_enclosed, ends_with_star, Added, EntryRefusal, add_entry, add_regex, add_middle, add_prefix,
  add_suffix, inner, starts_with_star, add_form,
}

-- ## What a rule that is accepted adds

module _ {Regex : Type 0} where
  abbrev pub with_regex : DomainFilter Regex → Regex → Kind → DomainFilter Regex
  with_regex f e kind = record f {
    regex_list = f.regex_list ++ (record { expression = e; kind = kind } ∷ []);
    regex_count = f.regex_count + 1;
    entry_count = f.entry_count + 1;
  }

  abbrev pub with_middle : DomainFilter Regex → Bytes → Kind → DomainFilter Regex
  with_middle f needle kind = record f {
    middle_map = f.middle_map ++ (record { name = needle; kind = kind } ∷ []);
    entry_count = f.entry_count + 1;
  }

  abbrev pub with_prefix : DomainFilter Regex → Bytes → Bytes → Kind → DomainFilter Regex
  with_prefix f key name kind = record f {
    prefix_map = push_item key (record { name = name; kind = kind }) f.prefix_map;
    entry_count = f.entry_count + 1;
  }

  abbrev pub with_suffix : DomainFilter Regex → Bytes → Bytes → Kind → DomainFilter Regex
  with_suffix f key name kind = record f {
    suffix_map = push_item key (record { name = name; kind = kind }) f.suffix_map;
    entry_count = f.entry_count + 1;
  }

-- A filter and the one that a rule of a kind makes of it.
pub data Grown {Regex : Type 0} (f g : DomainFilter Regex) (kind : Kind) : Type 0 where
  by_regex : (e : Regex) → f.regex_count < 256 → g ≡ with_regex f e kind → Grown f g kind
  by_middle : (needle : Bytes) → g ≡ with_middle f needle kind → Grown f g kind
  by_prefix : (key name : Bytes) → g ≡ with_prefix f key name kind → Grown f g kind
  by_suffix : (key name : Bytes) → g ≡ with_suffix f key name kind → Grown f g kind

module _ {Regex : Type 0} where
  filter_or : DomainFilter Regex → Added Regex → DomainFilter Regex
  filter_or f (Added.refused r) = f
  filter_or f (Added.added g) = g

  added-inj : (f g : DomainFilter Regex) → Added.added f ≡ Added.added g → g ≡ f
  unfolding filter_or
  added-inj f g h = sym (ap (filter_or f) h)

  -- A guard in front of an addition that went well.
  pub if-added :
      (b : Bool) (r : EntryRefusal) (a : Added Regex) (g : DomainFilter Regex)
      → (if b then Added.refused r else a) ≡ Added.added g
      → (b ≡ false) × (a ≡ Added.added g)
  if-added true r a g h = absurd (cc)
  if-added false r a g h = (refl, h)

  -- Whichever branch the addition took.
  if-either :
      {P : Type 0} (b : Bool) (x y : Added Regex) (g : DomainFilter Regex)
      → (x ≡ Added.added g → P)
      → (y ≡ Added.added g → P)
      → (if b then x else y) ≡ Added.added g
      → P
  if-either true x y g p q h = p h
  if-either false x y g p q h = q h

  pub add_middle-added :
      (f g : DomainFilter Regex) (needle : Bytes) (kind : Kind)
      → add_middle f needle kind ≡ Added.added g
      → g ≡ with_middle f needle kind
  unfolding add_middle
  add_middle-added f g needle kind h = added-inj _ g (if-added _ _ _ g h).1

  pub add_prefix-added :
      (f g : DomainFilter Regex) (loname : Bytes) (kind : Kind)
      → add_prefix f loname kind ≡ Added.added g
      → ((not (is_valid_domain (take (length loname - 2) loname))
            || is_empty (domain_prefix_key loname))
          ≡ false)
        × (g ≡ with_prefix f (domain_prefix_key loname) (take (length loname - 2) loname) kind)
  unfolding add_prefix
  add_prefix-added f g loname kind h = let k = if-added _ _ _ g h in (k.0, added-inj _ g k.1)

  pub add_suffix-added :
      (f g : DomainFilter Regex) (loname : Bytes) (kind : Kind)
      → add_suffix f loname kind ≡ Added.added g
      → (not (is_valid_domain (if starts_with_star loname then drop 2 loname else loname)) ≡ false)
        × (is_empty (domain_suffix_key loname) ≡ false)
        × (g
            ≡ with_suffix f
                (domain_suffix_key loname)
                (if starts_with_star loname then drop 2 loname else loname)
                kind)
  unfolding add_suffix
  add_suffix-added f g loname kind h =
      let k = if-added _ _ _ g h in let l = if-added _ _ _ g k.1 in (k.0, l.0, added-inj _ g l.1)

module _ {Regex : Type 0} (compile : Bytes → Option Regex) where
  compiled :
      (f g : DomainFilter Regex) (o : Option Regex) (kind : Kind)
      → elim o [
        | none ↦ Added.refused EntryRefusal.invalid_regex
        | some e ↦ Added.added (with_regex f e kind)
      ]
        ≡ Added.added g
      → (e : Regex) × (o ≡ some e) × (g ≡ with_regex f e kind)
  compiled f g none kind h = absurd (cc)
  compiled f g (some e) kind h = (e, refl, added-inj _ g h)

  pub add_regex-added :
      (f g : DomainFilter Regex) (pattern : Bytes) (kind : Kind)
      → add_regex compile f pattern kind ≡ Added.added g
      → (f.regex_count < 256)
        × ((e : Regex) × (compile pattern ≡ some e) × (g ≡ with_regex f e kind))
  unfolding add_regex
  add_regex-added f g pattern kind h =
      let k = if-added (leb 256 f.regex_count) _ _ g (if-added _ _ _ g h).1 in
      (ground (arith, k.0), compiled f g (compile pattern) kind k.1)

  pub add_entry-added :
      (f g : DomainFilter Regex) (name : Bytes) (kind : Kind)
      → add_entry compile f name kind ≡ Added.added g
      → (f.entry_count < 100_000) × (add_form compile f name (strtolower name) kind ≡ Added.added g)
  unfolding add_entry
  add_entry-added f g name kind h =
      let form = add_form compile f name (strtolower name) kind in
      let long = if ltb 4096 (length name) then Added.refused EntryRefusal.too_long else form in
      let k0 = if-added (is_empty name) _ _ g h in
      let k1 = if-added (leb 100_000 f.entry_count) EntryRefusal.too_many_rules long g k0.1 in
      let k2 = if-added (ltb 4096 (length name)) EntryRefusal.too_long form g k1.1 in
      (ground (arith, k1.0), k2.1)

  pub add_form-Grown :
      (f g : DomainFilter Regex) (name loname : Bytes) (kind : Kind)
      → add_form compile f name loname kind ≡ Added.added g
      → Grown f g kind
  unfolding add_form
  add_form-Grown f g name loname kind h =
      let suffix = add_suffix f loname kind in
      let prefix = if ends_with_star loname then add_prefix f loname kind else suffix in
      let middle = if is_enclosed b'*' loname then add_middle f (inner loname) kind else prefix in
      if-either (is_enclosed b'/' name) (add_regex compile f (inner name) kind) middle g
        (λ k. let r = add_regex-added f g (inner name) kind k in Grown.by_regex r.1.0 r.0 r.1.2)
        (if-either (is_enclosed b'*' loname) (add_middle f (inner loname) kind) prefix g
          (λ k. Grown.by_middle (inner loname) (add_middle-added f g (inner loname) kind k))
          (if-either (ends_with_star loname) (add_prefix f loname kind) suffix g
            (λ k. Grown.by_prefix _ _ (add_prefix-added f g loname kind k).1)
            (λ k. Grown.by_suffix _ _ (add_suffix-added f g loname kind k).2)))
        h
