-- ===== src/Forwarder/Choose.antt =====
-- The forwarders that are chosen: as many as wanted, each once, of the longest zone.
use behind.Base.{
  ◌∙◌, sym, Bool, true, false, ◌↔◌, All, All-mono, if-rule, Bool-cases, inl, inr, ℕ, zero, suc, ◌+◌,
  ◌%◌, ◌^◌, ◌≤◌, ◌≡◌, refl, ap, List, [], ◌∷◌, ◌++◌, Bytes, length, min, ◌==◌, if◌then◌else◌, arith,
}
use mathlib.Core.List.{Perm}
use mathlib.Core.List.Perm
use mathlib.Core.Path.{subst}
use behind.Forwarder.{Forwarder, swap_in, swap_first, shuffle, candidates, choose_forwarder}
use behind.Forwarder.Longest.{
  longest, select, of_length, is_default, is_match, select-longest, candidates-longest,
}
use behind.Forwarder.Zones.{Holds, is_match-Holds}
use behind.Message.{is_empty}

module _ {ℓ} {A : Type ℓ} where
  swap_in-Perm :
      (j : ℕ) (x : A) (xs : List A) → Perm ((swap_in j x xs).0 ∷ (swap_in j x xs).1) (x ∷ xs)
  swap_in-Perm zero x [] = Perm.rfl
  swap_in-Perm (suc j) x [] = Perm.rfl
  swap_in-Perm zero x (y ∷ ys) = Perm.swap _ _ _
  swap_in-Perm (suc j) x (y ∷ ys) =
      Perm.trans (Perm.swap _ _ _)
        (Perm.trans (Perm.cons y (swap_in-Perm j x ys)) (Perm.swap _ _ _))

  swap_first-Perm :
      (j : ℕ) (x : A) (xs : List A) → Perm ((swap_first j x xs).0 ∷ (swap_first j x xs).1) (x ∷ xs)
  swap_first-Perm zero x xs = Perm.rfl
  swap_first-Perm (suc j) x xs = swap_in-Perm j x xs

  length-swap_in : (j : ℕ) (x : A) (xs : List A) → length (swap_in j x xs).1 ≡ length xs
  length-swap_in zero x [] = refl
  length-swap_in (suc j) x [] = refl
  length-swap_in zero x (y ∷ ys) = refl
  length-swap_in (suc j) x (y ∷ ys) = ap suc (length-swap_in j x ys)

  length-swap_first : (j : ℕ) (x : A) (xs : List A) → length (swap_first j x xs).1 ≡ length xs
  length-swap_first zero x xs = refl
  length-swap_first (suc j) x xs = length-swap_in j x xs

  -- `count` elements of the list, each as often as it is there at most.
  pub record IsChosen (count : ℕ) (from chosen : List A) : Type ℓ where
    pub others : List A
    pub all_of : Perm (chosen ++ others) from
    pub counted : length chosen ≡ count

  shuffle-IsChosen :
      (draw : ℕ → ℕ) (i count : ℕ) (xs : List A)
      → count ≤ length xs
      → IsChosen count xs (shuffle draw i count xs)
  shuffle-IsChosen draw i zero xs h = record { others = xs; all_of = Perm.rfl; counted = refl }
  shuffle-IsChosen draw i (suc count) [] h = absurd (omega arith)
  shuffle-IsChosen draw i (suc count) (x ∷ xs) h =
      let j = draw i % 2 ^ 32 % (length (x ∷ xs) % 2 ^ 32) in
      let ih =
        shuffle-IsChosen draw (i + 1) count (swap_first j x xs).1
          (omega (arith, length-swap_first j x xs)) in
      record {
        others = ih.others;
        all_of = Perm.trans (Perm.cons (swap_first j x xs).0 ih.all_of) (swap_first-Perm j x xs);
        counted = ap suc ih.counted;
      }

-- ## The forwarders of the longest zone

-- The elements of a list that have a property, in their order.
pub data Picks (P : Forwarder → Type 0) : List Forwarder → List Forwarder → Type 0 where
  nothing : Picks P [] []
  picked :
      {f : Forwarder} {fs gs : List Forwarder} → P f → Picks P fs gs → Picks P (f ∷ fs) (f ∷ gs)
  passed :
      {f : Forwarder} {fs gs : List Forwarder} → (P f → ⊥) → Picks P fs gs → Picks P (f ∷ fs) gs

abbrev IsRoot : Forwarder → Type 0
IsRoot f = (f.is_set ≡ true) × (length f.zone ≡ 1)

-- Those of the longest zone that holds the name, or those of the root zone if none holds it.
pub data AreBest (name : Bytes) (fs best : List Forwarder) : Type 0 where
  of_zone :
      (n : ℕ)
      → is_empty best ≡ false
      → Picks (λ f. Holds name f × (length f.zone ≡ n)) fs best
      → All (λ f. Holds name f → length f.zone ≤ n) fs
      → AreBest name fs best
  of_root : All (λ f. Holds name f → ⊥) fs → Picks IsRoot fs best → AreBest name fs best

select-Picks :
    (P : Forwarder → Type 0) (p : Forwarder → Bool) (fs : List Forwarder)
    → ((f : Forwarder) → (p f ≡ true) ↔ P f)
    → Picks P fs (select p fs)
select-Picks P p [] h = Picks.nothing
select-Picks P p (f ∷ fs) h = elim (Bool-cases (p f)) [
  | inl t ↦ rw t (Picks.picked ((h f).0 t) (select-Picks P p fs h))
  | inr e ↦ rw e (Picks.passed (λ x. true-ne-false (sym ((h f).1 x) ∙ e)) (select-Picks P p fs h))
]
  where
    true-ne-false : true ≡ false → ⊥
    true-ne-false e = absurd (cc)

longest-is_match :
    (name : Bytes) (fs : List Forwarder) (n : ℕ)
    → longest name fs ≤ n
    → All (λ f. Holds name f → length f.zone ≤ n) fs
longest-is_match name [] n h = tt
longest-is_match name (f ∷ fs) n h = elim (Bool-cases (is_match name f)) [
  | inl t ↦ (λ x. ground arith, longest-is_match name fs n (ground arith))
  | inr e ↦ (
    λ x. (let m = (is_match-Holds name f).1 x in absurd (ground arith)),
    longest-is_match name fs n (ground arith),
  )
]

of_length-Holds :
    (name : Bytes) (n : ℕ) (f : Forwarder)
    → (of_length name n f ≡ true) ↔ (Holds name f × (length f.zone ≡ n))
of_length-Holds name n f = (
  λ h. ((is_match-Holds name f).0 (ground arith), ground arith),
  λ h. let m = (is_match-Holds name f).1 h.0 in let l = h.1 in ground arith,
)

best-AreBest :
    (name : Bytes) (fs : List Forwarder)
    → AreBest name fs (
        if longest name fs == 0
        then select is_default fs
        else select (of_length name (longest name fs)) fs)
best-AreBest name fs =
    if-rule (AreBest name fs) (longest name fs == 0)
      (λ none_is.
        AreBest.of_root
          (All-mono _ _ fs (λ f h x. (let long = x.1 in let short = h x in absurd (omega arith)))
            (longest-is_match name fs 0 (ground arith)))
          (select-Picks IsRoot is_default fs (λ f. (
            λ h. (ground arith, ground arith),
            λ h. (let a = h.0 in let b = h.1 in ground arith),
          ))))
      (λ some_is.
        AreBest.of_zone (longest name fs)
          (select-longest name fs (longest name fs) refl (ground arith))
          (select-Picks _ (of_length name (longest name fs)) fs
            (of_length-Holds name (longest name fs)))
          (longest-is_match name fs (longest name fs) (omega arith)))

pub record Chosen (name : Bytes) (fs : List Forwarder) (most : ℕ) (chosen : List Forwarder)
    : Type 0 where
  pub best : List Forwarder
  pub are_best : AreBest name fs best
  pub are_chosen : IsChosen (min most (length best)) best chosen

-- Of the forwarders of the longest zone that holds the name, in any case of the letters, or of those
-- of the root zone if none does, as many are chosen as are wanted and there are, and none more often
-- than it is there.
pub choose_forwarder-Chosen :
    (draw : ℕ → ℕ) (name : Bytes) (fs : List Forwarder) (most : ℕ)
    → Chosen name fs most (choose_forwarder draw name fs most)
unfolding choose_forwarder
choose_forwarder-Chosen draw name fs most = record {
  best = candidates name fs;
  are_best = subst (AreBest name fs) (sym (candidates-longest name fs)) (best-AreBest name fs);
  are_chosen =
      shuffle-IsChosen draw 0 (min most (length (candidates name fs))) (candidates name fs)
        (omega arith);
}
