-- ===== src/ChaCha20/Stream.antt =====
-- The sequence of the numbers that `next_u32` returns.
use behind.Base.{
  ℕ, zero, suc, ◌+◌, ◌/◌, ◌%◌, ◌^◌, ◌<◌, ◌≡◌, ◌≢◌, refl, sym, ap, ◌∙◌, List, [], ◌∷◌, arith, Bytes,
  ◌==◌, if◌then◌else◌, get_or, length, ◌++◌, length-append, Bool-cases, inl, inr, false,
}
use behind.ChaCha20.{
  ChaCha20, set_at, add, chacha20_block, refill, next_u32, chacha20_init_state, seeded, words,
}
use mathlib.Core.Path.{subst}

get_or-set_at : (i v : ℕ) (xs : List ℕ) → i < length xs → get_or (set_at i v xs) i 0 ≡ v
get_or-set_at i v [] h = absurd (omega arith)
get_or-set_at zero v (x ∷ xs) h = refl
get_or-set_at (suc i) v (x ∷ xs) h = get_or-set_at i v xs (omega arith)

set_at-set_at : (i v w : ℕ) (xs : List ℕ) → set_at i v (set_at i w xs) ≡ set_at i v xs
set_at-set_at i v w [] = refl
set_at-set_at zero v w (x ∷ xs) = refl
set_at-set_at (suc i) v w (x ∷ xs) = ap (◌∷◌ x) (set_at-set_at i v w xs)

-- The generator behind `n` numbers.
abbrev pub after : ℕ → ChaCha20 → ChaCha20
after zero r = r
after (suc n) r = (next_u32 (after n r)).1

-- The state at the start of block `k`.
abbrev pub at_block : List ℕ → ℕ → List ℕ
at_block state k = set_at 12 (k % 2 ^ 32) state

-- The generator behind 16 `k` and `j` numbers, of the state that it started in.
record Stands (state : List ℕ) (k j : ℕ) (r : ChaCha20) : Type 0 where
  index_is : r.index ≡ j
  state_is : r.state ≡ at_block state (if j == 0 then k else k + 1)
  buffer_is : j ≢ 0 → r.buffer ≡ chacha20_block (at_block state k)

-- The same with the buffer filled, if it was empty.
record Filled (state : List ℕ) (k j : ℕ) (r : ChaCha20) : Type 0 where
  index_is : r.index ≡ j
  state_is : r.state ≡ at_block state (k + 1)
  buffer_is : r.buffer ≡ chacha20_block (at_block state k)

module _ (state : List ℕ) (long : 12 < length state) where
  counter_next :
      (k : ℕ)
      → set_at 12 (add (get_or (at_block state k) 12 0) 1) (at_block state k)
        ≡ at_block state (k + 1)
  counter_next k =
      set_at-set_at 12 _ (k % 2 ^ 32) state
      ∙ ap (λ v. set_at 12 v state)
          (ap (λ c. add c 1) (get_or-set_at 12 (k % 2 ^ 32) state long) ∙ omega arith)

  refill-Filled : (k j : ℕ) (r : ChaCha20) → Stands state k j r → Filled state k j (refill r)
  unfolding refill
  refill-Filled k j r h = elim (Bool-cases (r.index == 0)) [
    | inl start ↦
        let first : j ≡ 0 = ground (arith, h.index_is) in
        let here : r.state ≡ at_block state k =
          h.state_is ∙ ap (λ j. at_block state (if j == 0 then k else k + 1)) first in
        rw start (record {
          index_is = h.index_is;
          state_is = ap (λ s. set_at 12 (add (get_or s 12 0) 1) s) here ∙ counter_next k;
          buffer_is = ap chacha20_block here;
        })
    | inr inside ↦
        let later : (j == 0) ≡ false = ground (arith, h.index_is) in
        rw inside (record {
          index_is = h.index_is;
          state_is = h.state_is ∙ ap (λ b. at_block state (if b then k else k + 1)) later;
          buffer_is = h.buffer_is (ground arith);
        })
  ]

  -- The number at the place `j` of block `k`, and the generator behind it.
  next_u32-Stands :
      (k j : ℕ) (r : ChaCha20)
      → j < 16
      → Stands state k j r
      → ((next_u32 r).0 ≡ get_or (chacha20_block (at_block state k)) j 0)
        × Stands state (if j == 15 then k + 1 else k) ((j + 1) % 16) (next_u32 r).1
  unfolding next_u32
  next_u32-Stands k j r small h =
      let f = refill-Filled k j r h in
      (
        ap (λ b. get_or b (refill r).index 0) f.buffer_is
            ∙ ap (λ i. get_or (chacha20_block (at_block state k)) i 0) f.index_is,
        record {
          index_is = ap (λ i. (i + 1) % 16) f.index_is;
          state_is = f.state_is ∙ ap (at_block state) (ground arith);
          buffer_is =
              λ inside. f.buffer_is ∙ ap (λ k. chacha20_block (at_block state k)) (ground arith);
        },
      )

  after-Stands :
      (r : ChaCha20) (n : ℕ) → Stands state 0 0 r → Stands state (n / 16) (n % 16) (after n r)
  after-Stands r zero h = h
  after-Stands r (suc n) h =
      let ih = after-Stands r n h in
      let next = (next_u32-Stands (n / 16) (n % 16) (after n r) (omega arith) ih).1 in
      let block : (if n % 16 == 15 then n / 16 + 1 else n / 16) ≡ suc n / 16 = ground arith in
      let place : (n % 16 + 1) % 16 ≡ suc n % 16 = omega arith in
      subst (λ k. Stands state k (suc n % 16) (after (suc n) r)) block
        (subst (λ j. Stands state (if n % 16 == 15 then n / 16 + 1 else n / 16) j (after (suc n) r))
          place next)

length-words : (bs : Bytes) → length (words bs) ≡ length bs / 4
unfolding words
length-words [] = refl
length-words (a ∷ []) = refl
length-words (a ∷ b ∷ []) = refl
length-words (a ∷ b ∷ c ∷ []) = refl
length-words (a ∷ b ∷ c ∷ d ∷ bs) = omega (arith, length-words bs)

set_at-append :
    (i v w : ℕ) (xs ys : List ℕ) → length xs ≡ i → set_at i v (xs ++ (w ∷ ys)) ≡ xs ++ (v ∷ ys)
set_at-append zero v w [] ys h = refl
set_at-append (suc i) v w [] ys h = absurd (omega arith)
set_at-append zero v w (x ∷ xs) ys h = absurd (omega arith)
set_at-append (suc i) v w (x ∷ xs) ys h = ap (◌∷◌ x) (set_at-append i v w xs ys (omega arith))

module _ (key nonce : Bytes) (sized : length key ≡ 32) where
  counter_at :
      (c : ℕ) → set_at 12 c (chacha20_init_state key nonce 0) ≡ chacha20_init_state key nonce c
  unfolding chacha20_init_state
  counter_at c =
      set_at-append 12 c 0 (0x61707865 ∷ 0x3320646e ∷ 0x79622d32 ∷ 0x6b206574 ∷ words key)
        (words nonce) (omega (arith, length-words key))

  long : 12 < length (chacha20_init_state key nonce 0)
  unfolding chacha20_init_state
  long = omega (arith, length-words key, length-append {0} (words key) (0 ∷ words nonce))

-- The number that is returned behind `n` others is the word `n % 16` of block `n / 16`: the block
-- of the seed whose counter is `n / 16`, of 32 bits.
pub next_u32-word :
    (key nonce : Bytes) (n : ℕ)
    → length key ≡ 32
    → (next_u32 (after n (seeded key nonce))).0
      ≡ get_or (chacha20_block (chacha20_init_state key nonce (n / 16 % 2 ^ 32))) (n % 16) 0
unfolding seeded
next_u32-word key nonce n sized =
    let state = chacha20_init_state key nonce 0 in
    let start : Stands state 0 0 (seeded key nonce) = record {
      index_is = refl;
      state_is = sym (counter_at key nonce sized 0);
      buffer_is = λ ne. absurd (ne refl);
    } in
    let big = long key nonce sized in
    (next_u32-Stands state big (n / 16) (n % 16) (after n (seeded key nonce)) (omega arith)
      (after-Stands state big (seeded key nonce) n start)).0
    ∙ ap (λ s. get_or (chacha20_block s) (n % 16) 0) (counter_at key nonce sized (n / 16 % 2 ^ 32))
