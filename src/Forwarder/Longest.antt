-- ===== src/Forwarder/Longest.antt =====
-- The longest zone that matches wins, and without a match the forwarders for every name do.
use behind.Base.{
  ℕ, ◌≤◌, ◌<◌, ◌≡◌, refl, sym, ap, ◌∙◌, max, Bool, true, false, ◌&&◌, List, [], ◌∷◌, ◌++◌, arith,
  Bytes, ltb, ◌==◌, if◌then◌else◌, length, append_assoc, append-nil, Bool-cases, inl, inr,
}
use behind.Message.{is_empty}
use behind.Forwarder.{Forwarder, Candidates, zone_matches, consider, consider_all, candidates}

-- A forwarder for one zone that holds the name.
abbrev pub is_match : Bytes → Forwarder → Bool
is_match name f = f.is_set && ltb 1 (length f.zone) && zone_matches name f.zone

abbrev pub is_default : Forwarder → Bool
is_default f = f.is_set && length f.zone == 1

abbrev pub select : (Forwarder → Bool) → List Forwarder → List Forwarder
select p [] = []
select p (f ∷ fs) = if p f then f ∷ select p fs else select p fs

-- The length of the longest zone that holds the name; 0 if none does.
abbrev pub longest : Bytes → List Forwarder → ℕ
longest name [] = 0
longest name (f ∷ fs) =
    if is_match name f then max (length f.zone) (longest name fs) else longest name fs

abbrev pub of_length : Bytes → ℕ → Forwarder → Bool
of_length name n f = is_match name f && length f.zone == n

-- What the loop makes of candidates.
record Considered (name : Bytes) (c : Candidates) (fs : List Forwarder) (d : Candidates)
    : Type 0 where
  best : d.best_zone_length ≡ max c.best_zone_length (longest name fs)
  defaults : d.default_forwarders ≡ c.default_forwarders ++ select is_default fs
  matched :
      d.matched_forwarders
      ≡ (if d.best_zone_length == c.best_zone_length then c.matched_forwarders else [])
        ++ select (of_length name d.best_zone_length) fs

module _ (name : Bytes) (c : Candidates) (f : Forwarder) where
  consider-best :
      (consider name c f).best_zone_length
      ≡ (if is_match name f then max c.best_zone_length (length f.zone) else c.best_zone_length)
  unfolding consider
  consider-best = ground arith

  consider-defaults :
      (consider name c f).default_forwarders
      ≡ (if is_default f then c.default_forwarders ++ (f ∷ []) else c.default_forwarders)
  unfolding consider
  consider-defaults = ground arith

  consider-matched : (consider name c f).matched_forwarders ≡ (
      if is_match name f && ltb c.best_zone_length (length f.zone)
      then f ∷ []
      else if is_match name f && length f.zone == c.best_zone_length
      then c.matched_forwarders ++ (f ∷ [])
      else c.matched_forwarders)
  unfolding consider
  consider-matched = ground arith

select-cons :
    (p : Forwarder → Bool) (f : Forwarder) (xs fs : List Forwarder)
    → (if p f then xs ++ (f ∷ []) else xs) ++ select p fs ≡ xs ++ select p (f ∷ fs)
select-cons p f xs fs = elim (Bool-cases (p f)) [
  | inl hit ↦ rw hit (append_assoc xs (f ∷ []) (select p fs))
  | inr miss ↦ rw miss refl
]

-- The first of the selected, over the cases of its length.
matched-cons :
    (f : Forwarder) (m : Bool) (n b r : ℕ) (xs ys zs d : List Forwarder)
    → zs ≡ (if m && ltb b n then f ∷ [] else if m && n == b then xs ++ (f ∷ []) else xs)
    → b ≤ r
    → ((m ≡ true) → n ≤ r)
    → d ≡ (if r == (if m then max b n else b) then zs else []) ++ ys
    → d ≡ (if r == b then xs else []) ++ (if m && n == r then f ∷ ys else ys)
matched-cons f m n b r xs ys zs d z le le' e = ground (arith, append_assoc xs (f ∷ []) ys)

consider_all-Considered :
    (name : Bytes) (fs : List Forwarder) (c : Candidates)
    → Considered name c fs (consider_all name c fs)
unfolding consider_all
consider_all-Considered name [] c = record {
  best = omega arith;
  defaults = sym (append-nil c.default_forwarders);
  matched = ground (arith, append-nil c.matched_forwarders);
}
consider_all-Considered name (f ∷ fs) c =
    let h = consider_all-Considered name fs (consider name c f) in
    record {
      best = ground (arith, h.best, consider-best name c f);
      defaults =
          h.defaults
          ∙ ap (λ x. x ++ select is_default fs) (consider-defaults name c f)
          ∙ select-cons is_default f c.default_forwarders fs;
      matched =
          matched-cons f (is_match name f) (length f.zone) c.best_zone_length
            (consider_all name (consider name c f) fs).best_zone_length c.matched_forwarders
            (select (of_length name (consider_all name (consider name c f) fs).best_zone_length) fs)
            (consider name c f).matched_forwarders
            (consider_all name (consider name c f) fs).matched_forwarders
            (consider-matched name c f) (ground (arith, h.best, consider-best name c f))
            (λ m. ground (arith, h.best, consider-best name c f))
            (h.matched
              ∙ ap
                  (λ b.
                    (if (consider_all name (consider name c f) fs).best_zone_length == b
                      then (consider name c f).matched_forwarders
                      else [])
                    ++ select
                        (of_length name (consider_all name (consider name c f) fs).best_zone_length)
                        fs)
                  (consider-best name c f));
    }

is_match-length : (name : Bytes) (f : Forwarder) → is_match name f ≡ true → 1 < length f.zone
is_match-length name f h = ground arith

select-none : (name : Bytes) (fs : List Forwarder) → select (of_length name 0) fs ≡ []
select-none name [] = refl
select-none name (f ∷ fs) = ground (arith, is_match-length name f, select-none name fs)

pub select-longest :
    (name : Bytes) (fs : List Forwarder) (r : ℕ)
    → longest name fs ≡ r
    → 0 < r
    → is_empty (select (of_length name r) fs) ≡ false
select-longest name [] r h pos = absurd (omega arith)
select-longest name (f ∷ fs) r h pos = ground (arith, select-longest name fs r)

-- The candidates are the forwarders of the longest zone that holds the name, in their order; if no
-- zone holds it, they are the forwarders of the root zone.
pub candidates-longest :
    (name : Bytes) (fs : List Forwarder)
    → candidates name fs ≡ (
        if longest name fs == 0
        then select is_default fs
        else select (of_length name (longest name fs)) fs)
unfolding candidates
candidates-longest name fs =
    let start : Candidates = record {
      default_forwarders = [];
      matched_forwarders = [];
      best_zone_length = 0;
    } in
    let h = consider_all-Considered name fs start in
    let matched : (consider_all name start fs).matched_forwarders
        ≡ select (of_length name (longest name fs)) fs =
      h.matched
      ∙ nil_either _ (select (of_length name (consider_all name start fs).best_zone_length) fs)
      ∙ ap (λ n. select (of_length name n) fs) (h.best ∙ omega arith) in
    ap (λ m. if is_empty m then (consider_all name start fs).default_forwarders else m) matched
    ∙ ap
        (λ d.
          if is_empty (select (of_length name (longest name fs)) fs)
          then d
          else select (of_length name (longest name fs)) fs)
        h.defaults
    ∙ choose (longest name fs) (select is_default fs) refl
  where
    nil_either : (b : Bool) (ys : List Forwarder) → (if b then [] else []) ++ ys ≡ ys
    nil_either true ys = refl
    nil_either false ys = refl

    choose :
        (r : ℕ) (d : List Forwarder)
        → longest name fs ≡ r
        → (if is_empty (select (of_length name r) fs) then d else select (of_length name r) fs)
          ≡ (if r == 0 then d else select (of_length name r) fs)
    choose r d e = elim (Bool-cases (r == 0)) [
      | inl zero_is ↦
          let none : select (of_length name r) fs ≡ [] =
            ap (λ n. select (of_length name n) fs) (ground arith) ∙ select-none name fs in
          rw none (rw zero_is refl)
      | inr pos ↦
          let some_left = select-longest name fs r e (ground arith) in rw some_left (rw pos refl)
    ]
