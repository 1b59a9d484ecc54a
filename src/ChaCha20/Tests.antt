-- ===== src/ChaCha20/Tests.antt =====
-- The block function at the test vectors of RFC 8439, and the theorem at a concrete seed.
use behind.Base.{◌≡◌, ◌/◌, ◌%◌, ◌^◌, refl, [], ◌∷◌, Bytes, get_or}
use behind.ChaCha20.{
  xor, rotl, add_to, mix_to, quarter_round, double_round, rounds, add_words, chacha20_block, words,
  chacha20_init_state, seeded, next_u32,
}
use behind.ChaCha20.Stream.{after, next_u32-word}

program : Unit {0}
unfolding xor rotl add_to mix_to quarter_round double_round rounds add_words chacha20_block words
    chacha20_init_state
program = tt

-- RFC 8439, section 2.1.1.
quarter_round_test :
    quarter_round 0 1 2 3 (0x11111111 ∷ 0x01020304 ∷ 0x9b8d6f43 ∷ 0x01234567 ∷ [])
    ≡ 0xea2a92f4 ∷ 0xcb1cf8ce ∷ 0x4581472e ∷ 0x5881c4bb ∷ []
unfolding program
quarter_round_test = refl

abbrev key : Bytes
key =
    0 ∷ 1 ∷ 2 ∷ 3 ∷ 4 ∷ 5 ∷ 6 ∷ 7 ∷ 8 ∷ 9 ∷ 10 ∷ 11 ∷ 12 ∷ 13 ∷ 14 ∷ 15 ∷ 16 ∷ 17 ∷ 18 ∷ 19 ∷ 20
    ∷ 21 ∷ 22 ∷ 23 ∷ 24 ∷ 25 ∷ 26 ∷ 27 ∷ 28 ∷ 29 ∷ 30 ∷ 31 ∷ []

abbrev nonce : Bytes
nonce = 0 ∷ 0 ∷ 0 ∷ 9 ∷ 0 ∷ 0 ∷ 0 ∷ 0x4a ∷ 0 ∷ 0 ∷ 0 ∷ 0 ∷ []

next_u32-word_example :
    (next_u32 (after 20 (seeded key nonce))).0
    ≡ get_or (chacha20_block (chacha20_init_state key nonce (20 / 16 % 2 ^ 32))) (20 % 16) 0
next_u32-word_example = next_u32-word key nonce 20 refl

-- RFC 8439, section 2.3.2, the first word.
chacha20_block_test : get_or (chacha20_block (chacha20_init_state key nonce 1)) 0 0 ≡ 0xe4e7f110
unfolding program
chacha20_block_test = refl
