-- ===== src/DomainFilter/Suffix.antt =====
-- What a suffix rule of the filter blocks.
use behind.Base.{
  ℕ, suc, zero, ◌+◌, ◌-◌, ◌<◌, ◌≡◌, refl, sym, ap, ◌∙◌, Bool, true, false, ◌||◌, [], ◌∷◌, ◌++◌,
  arith, Bytes, inl, inr, ◌⊎◌, length, drop, take, get_or, bytes_eq, bytes_eq_iff, length-append,
  take-append-drop,
}
use behind.DomainFilter.{Item, suffix_matches}

-- `n` is the domain `d` or a name below it.
abbrev pub Under : Bytes → Bytes → Type 0
Under d n = (n ≡ d) ⊎ ((x : Bytes) × (n ≡ x ++ (b'.' ∷ d)))

pub drop-get_or : (k : ℕ) (s : Bytes) → k < length s → drop k s ≡ get_or s k 0 ∷ drop (suc k) s
drop-get_or k [] h = absurd (omega arith)
drop-get_or zero (c ∷ s) h = refl
drop-get_or (suc k) (c ∷ s) h = drop-get_or k s (omega arith)

pub get_or-append : (x d : Bytes) (c : ℕ) → get_or (x ++ (c ∷ d)) (length x) 0 ≡ c
get_or-append [] d c = refl
get_or-append (b ∷ x) d c = get_or-append x d c

pub drop-append-suc : (x d : Bytes) (c : ℕ) → drop (suc (length x)) (x ++ (c ∷ d)) ≡ d
drop-append-suc [] d c = refl
drop-append-suc (b ∷ x) d c = drop-append-suc x d c

pub suffix_matches-Under : (n : Bytes) (i : Item) → suffix_matches n i ≡ true → Under i.name n
unfolding suffix_matches
suffix_matches-Under n i h =
    let k = length n - length i.name - 1 in
    elim (or-true (bytes_eq i.name n) _ h) [
      | inl e ↦ inl (sym ((bytes_eq_iff i.name n).0 e))
      | inr e ↦
          let below : length i.name < length n = ground arith in
          let dot : get_or n k 0 ≡ b'.' = ground arith in
          let rest : drop (length n - length i.name) n ≡ i.name =
            (bytes_eq_iff (drop (length n - length i.name) n) i.name).0 (ground arith) in
          let here : suc k ≡ length n - length i.name = omega arith in
          inr (
            take k n,
            sym (take-append-drop k n)
                ∙ ap (λ x. take k n ++ x) (drop-get_or k n (omega arith))
                ∙ ap (λ c. take k n ++ (c ∷ drop (suc k) n)) dot
                ∙ ap (λ j. take k n ++ (b'.' ∷ drop j n)) here
                ∙ ap (λ x. take k n ++ (b'.' ∷ x)) rest,
          )
    ]
  where
    or-true : (a b : Bool) → (a || b) ≡ true → (a ≡ true) ⊎ (b ≡ true)
    or-true true b h = inl refl
    or-true false b h = inr h

pub Under-suffix_matches : (n : Bytes) (i : Item) → Under i.name n → suffix_matches n i ≡ true
unfolding suffix_matches
Under-suffix_matches n i (inl e) = ground (arith, bytes_eq_iff i.name n)
Under-suffix_matches n i (inr (x, e)) =
    let len : length n ≡ length x + suc (length i.name) =
      ap length e ∙ length-append x (b'.' ∷ i.name) in
    let at : length n - length i.name ≡ suc (length x) = omega arith in
    let before : length n - length i.name - 1 ≡ length x = omega arith in
    let rest : drop (length n - length i.name) n ≡ i.name =
      ap (λ k. drop k n) at ∙ ap (drop (suc (length x))) e ∙ drop-append-suc x i.name b'.' in
    let dot : get_or n (length n - length i.name - 1) 0 ≡ b'.' =
      ap (λ k. get_or n k 0) before
      ∙ ap (λ s. get_or s (length x) 0) e
      ∙ get_or-append x i.name b'.' in
    ground (arith, bytes_eq_iff (drop (length n - length i.name) n) i.name)
