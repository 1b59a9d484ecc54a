-- ===== src/ConfigParser/Quoted.antt =====
-- An assignment that is written out is read back, whatever its quoted value holds.
use behind.Base.{
  ℕ, suc, ◌+◌, ◌≡◌, refl, sym, ap, ◌∙◌, Bool, true, false, not, ◌&&◌, ◌||◌, some, [], ◌∷◌, ◌++◌,
  arith, Bytes, all, ◌==◌, if◌then◌else◌, length, take, drop, take-length-append, length-append,
  is_alnum, is_space, append_assoc,
}
use behind.Message.{is_empty}
use behind.Misc.{front_is, trimmed, skip_space, drop_space, keep_byte, init}
use behind.Misc.Trim.{front_is_clean, back_is_clean}
use behind.ConfigParser.{
  next, find_comment, find_unquoted, find_byte, is_allowed, Line, parse_value, parse_assignment,
  parse_content, parse_line, Refusal, parse_section,
}

-- Clean ends are kept.
drop_space-clean : (s : Bytes) → back_is_clean s ≡ true → drop_space s ≡ s
unfolding drop_space
drop_space-clean [] h = refl
drop_space-clean (c ∷ []) h = ground arith
drop_space-clean (c ∷ d ∷ cs) h = ap (keep_byte c) (drop_space-clean (d ∷ cs) h)

trimmed-clean : (s : Bytes) → front_is_clean s ≡ true → back_is_clean s ≡ true → trimmed s ≡ s
unfolding trimmed skip_space
trimmed-clean [] h k = unfold drop_space in refl
trimmed-clean (c ∷ cs) h k = ground (arith, drop_space-clean (c ∷ cs) k)

-- A byte of a key: no space and none that has a meaning.
abbrev pub is_key_byte : ℕ → Bool
is_key_byte c = is_alnum c || c == b'-' || c == b'_' || c == b'.'

-- A byte of a value in double quotes.
abbrev pub is_value_byte : ℕ → Bool
is_value_byte c = is_allowed c && not (c == b'"')

find_comment-key :
    (k s : Bytes) (n : ℕ)
    → all is_key_byte k ≡ true
    → find_comment 0 s ≡ some n
    → find_comment 0 (k ++ s) ≡ some (length k + n)
unfolding find_comment
find_comment-key [] s n h e = e ∙ ap some (omega arith)
find_comment-key (c ∷ k) s n h e = ground (arith, find_comment-key k s n)

find_comment-value :
    (v : Bytes)
    → all is_value_byte v ≡ true
    → find_comment b'"' (v ++ (b'"' ∷ [])) ≡ some (length v + 1)
unfolding find_comment
find_comment-value [] h = refl
find_comment-value (c ∷ v) h = ground (arith, find_comment-value v)

find_unquoted-key :
    (k s : Bytes)
    → all is_key_byte k ≡ true
    → find_unquoted b'=' 0 (k ++ (b'=' ∷ s)) ≡ some (length k)
unfolding find_unquoted
find_unquoted-key [] s h = refl
find_unquoted-key (c ∷ k) s h = ground (arith, find_unquoted-key k s)

find_byte-value :
    (v : Bytes) → all is_value_byte v ≡ true → find_byte b'"' (v ++ (b'"' ∷ [])) ≡ some (length v)
unfolding find_byte
find_byte-value [] h = refl
find_byte-value (c ∷ v) h = ground (arith, find_byte-value v)

find_comment-quoted :
    (s : Bytes) → find_comment 0 (b'=' ∷ b'"' ∷ s) ≡ next (next (find_comment b'"' s))
unfolding find_comment
find_comment-quoted s = refl

init-append : (v : Bytes) (c : ℕ) → init (v ++ (c ∷ [])) ≡ v
init-append [] c = refl
init-append (b ∷ []) c = refl
init-append (b ∷ d ∷ v) c = ap (◌∷◌ b) (init-append (d ∷ v) c)

all-append : (p : ℕ → Bool) (a b : Bytes) → all p (a ++ b) ≡ (all p a && all p b)
all-append p [] b = refl
all-append p (c ∷ a) b = ground (arith, all-append p a b)

back_is_clean-append :
    (s : Bytes) (c : ℕ) → not (is_space c) ≡ true → back_is_clean (s ++ (c ∷ [])) ≡ true
back_is_clean-append [] c h = h
back_is_clean-append (b ∷ []) c h = h
back_is_clean-append (b ∷ d ∷ s) c h = back_is_clean-append (d ∷ s) c h

key-back : (k : Bytes) → all is_key_byte k ≡ true → back_is_clean k ≡ true
key-back [] h = refl
key-back (c ∷ []) h = ground arith
key-back (c ∷ d ∷ k) h = key-back (d ∷ k) (ground arith)

key-front : (k : Bytes) → all is_key_byte k ≡ true → front_is_clean k ≡ true
key-front [] h = refl
key-front (c ∷ k) h = ground arith

key-allowed : (k : Bytes) → all is_key_byte k ≡ true → all is_allowed k ≡ true
key-allowed [] h = refl
key-allowed (c ∷ k) h = ground (arith, key-allowed k)

value-allowed : (v : Bytes) → all is_value_byte v ≡ true → all is_allowed v ≡ true
value-allowed [] h = refl
value-allowed (c ∷ v) h = ground (arith, value-allowed v)

take-length : (s : Bytes) → take (length s) s ≡ s
take-length [] = refl
take-length (c ∷ s) = ap (◌∷◌ c) (take-length s)

abbrev pub quoted : Bytes → Bytes
quoted v = b'"' ∷ (v ++ (b'"' ∷ []))

abbrev pub assign : Bytes → Bytes → Bytes
assign k v = k ++ (b'=' ∷ quoted v)

module _ (k v : Bytes) (key : all is_key_byte k ≡ true) (value : all is_value_byte v ≡ true) where
  parse_value-quoted : parse_value k (quoted v) ≡ Line.assignment k v
  unfolding parse_value
  parse_value-quoted =
      ground (arith, find_byte-value v value, length-append {0} v (b'"' ∷ []), init-append v b'"')

  quoted-trimmed : trimmed (quoted v) ≡ quoted v
  quoted-trimmed = trimmed-clean (quoted v) refl (back_is_clean-append (b'"' ∷ v) b'"' refl)

  parse_assignment-quoted : is_empty k ≡ false → parse_assignment (assign k v) ≡ Line.assignment k v
  unfolding parse_assignment
  parse_assignment-quoted some_key =
      let found = find_unquoted-key k (quoted v) key in
      let name : trimmed (take (length k) (assign k v)) ≡ k =
        ap trimmed (take-length-append k (b'=' ∷ quoted v))
        ∙ trimmed-clean k (key-front k key) (key-back k key) in
      let rest : trimmed (drop (suc (length k)) (assign k v)) ≡ quoted v =
        ap trimmed (drop-suc k) ∙ quoted-trimmed in
      rw (found, parse_assignment)
        (ap
            (λ n.
              if is_empty n
              then Line.refused Refusal.empty_key
              else parse_value n (trimmed (drop (suc (length k)) (assign k v))))
            name
          ∙ ap
              (λ b.
                if b
                then Line.refused Refusal.empty_key
                else parse_value k (trimmed (drop (suc (length k)) (assign k v))))
              some_key
          ∙ ap (parse_value k) rest
          ∙ parse_value-quoted)
    where
      drop-suc : (k : Bytes) → drop (suc (length k)) (assign k v) ≡ quoted v
      drop-suc [] = refl
      drop-suc (c ∷ k) = drop-suc k

  comment_free : find_comment 0 (assign k v) ≡ some (length (assign k v))
  comment_free =
      find_comment-key k (b'=' ∷ quoted v) (3 + length v) key behind
      ∙ ap some
          (omega (arith, length-append {0} k (b'=' ∷ quoted v), length-append {0} v (b'"' ∷ [])))
    where
      behind : find_comment 0 (b'=' ∷ quoted v) ≡ some (3 + length v)
      behind =
          find_comment-quoted (v ++ (b'"' ∷ []))
          ∙ ap (λ o. next (next o)) (find_comment-value v value)
          ∙ ap some (omega arith)

  all_allowed : all is_allowed (assign k v) ≡ true
  all_allowed =
      all-append is_allowed k (b'=' ∷ quoted v)
      ∙ ground
          (arith, key-allowed k key, all-append is_allowed v (b'"' ∷ []), value-allowed v value)

  line-trimmed : is_empty k ≡ false → trimmed (assign k v) ≡ assign k v
  line-trimmed some_key = trimmed-clean (assign k v) (front k some_key key) back
    where
      front :
          (k : Bytes)
          → is_empty k ≡ false
          → all is_key_byte k ≡ true
          → front_is_clean (assign k v) ≡ true
      front [] e h = absurd (cc)
      front (c ∷ k) e h = ground arith

      back : back_is_clean (assign k v) ≡ true
      back =
          ap back_is_clean (sym (append_assoc k (b'=' ∷ b'"' ∷ v) (b'"' ∷ [])))
          ∙ back_is_clean-append (k ++ (b'=' ∷ b'"' ∷ v)) b'"' refl

  not_section :
      is_empty k ≡ false → (is_empty (assign k v) ≡ false) × (front_is b'[' (assign k v) ≡ false)
  not_section some_key = start k some_key key
    where
      start :
          (k : Bytes)
          → is_empty k ≡ false
          → all is_key_byte k ≡ true
          → (is_empty (assign k v) ≡ false) × (front_is b'[' (assign k v) ≡ false)
      start [] e h = absurd (cc)
      start (c ∷ k) e h = (refl, ground arith)

-- A line `key="value"` is read as that assignment, for a key of letters, digits, `-`, `_` and `.`,
-- and a value of any bytes but control characters and the double quote, so also of `;`, `#`, `=`
-- and space.
pub parse_line-assign :
    (k v : Bytes)
    → is_empty k ≡ false
    → all is_key_byte k ≡ true
    → all is_value_byte v ≡ true
    → parse_line (assign k v) ≡ Line.assignment k v
unfolding parse_line parse_content
parse_line-assign k v some_key key value =
    let text = assign k v in
    let (full, plain) = not_section k v key value some_key in
    rw (comment_free k v key value, parse_line)
      (ap (λ t. parse_content (trimmed t)) (take-length text)
        ∙ ap parse_content (line-trimmed k v key value some_key)
        ∙ ap
            (λ b.
              if b
              then Line.blank
              else if not (all is_allowed text)
              then Line.refused Refusal.control_character
              else if front_is b'[' text
              then parse_section text
              else parse_assignment text)
            full
        ∙ ap
            (λ b.
              if not b
              then Line.refused Refusal.control_character
              else if front_is b'[' text
              then parse_section text
              else parse_assignment text)
            (all_allowed k v key value)
        ∙ ap (λ b. if b then parse_section text else parse_assignment text) plain
        ∙ parse_assignment-quoted k v key value some_key)
