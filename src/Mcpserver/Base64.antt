-- ===== src/Mcpserver/Base64.antt =====
-- `base64.StdEncoding`, as internal/mcpserver uses it for the content of files and of memory.
use qnx8_qconn_mcp.Prelude.{
  ℕ, ◌+◌, ◌-◌, ◌*◌, ◌/◌, ◌%◌, ◌<◌, ◌≡◌, ◌≢◌, refl, ap, ◌∙◌, ◌&&◌, ◌||◌, [], ◌∷◌, Option, none, some,
  Bytes, AreBytes, ltb, leb, ◌==◌, if◌then◌else◌, arith,
}

abbrev pub padding : ℕ
padding = b'='

-- The character of six bits.
unfoldable pub char_of : ℕ → ℕ
char_of v =
    if ltb v 26
    then 65 + v
    else if ltb v 52
    then 71 + v
    else if ltb v 62
    then v - 4
    else if v == 62
    then b'+'
    else b'/'

-- The six bits of a character.
unfoldable pub value_of : ℕ → Option ℕ
value_of c =
    if leb 65 c && leb c 90
    then some (c - 65)
    else if leb 97 c && leb c 122
    then some (c - 71)
    else if leb 48 c && leb c 57
    then some (c + 4)
    else if c == b'+'
    then some 62
    else if c == b'/'
    then some 63
    else none

unfoldable pub encode : Bytes → Bytes
encode [] = []
encode (x ∷ []) = char_of (x / 4) ∷ char_of (x % 4 * 16) ∷ padding ∷ padding ∷ []
encode (x ∷ (y ∷ [])) =
    char_of (x / 4) ∷ char_of (x % 4 * 16 + y / 16) ∷ char_of (y % 16 * 4) ∷ padding ∷ []
encode (x ∷ (y ∷ (z ∷ s))) =
    char_of (x / 4)
    ∷ char_of (x % 4 * 16 + y / 16)
    ∷ char_of (y % 16 * 4 + z / 64)
    ∷ char_of (z % 64)
    ∷ encode s

abbrev first_byte : ℕ → ℕ → ℕ
first_byte a b = a * 4 + b / 16

abbrev second_byte : ℕ → ℕ → ℕ
second_byte b c = b % 16 * 16 + c / 4

abbrev third_byte : ℕ → ℕ → ℕ
third_byte c d = c % 4 * 64 + d

-- The bytes of four, three and two values, in front of what was decoded; none where one is missing.
unfoldable pub of_four : Option ℕ → Option ℕ → Option ℕ → Option ℕ → Option Bytes → Option Bytes
of_four (some a) (some b) (some c) (some d) (some out) =
    some (first_byte a b ∷ second_byte b c ∷ third_byte c d ∷ out)
of_four _ _ _ _ _ = none

unfoldable pub of_three : Option ℕ → Option ℕ → Option ℕ → Option Bytes
of_three (some a) (some b) (some c) = some (first_byte a b ∷ second_byte b c ∷ [])
of_three _ _ _ = none

unfoldable pub of_two : Option ℕ → Option ℕ → Option Bytes
of_two (some a) (some b) = some (first_byte a b ∷ [])
of_two _ _ = none

-- The last group, which may end in padding.
unfoldable pub last_group : ℕ → ℕ → ℕ → ℕ → Option Bytes
last_group a b c d =
    if d == padding
    then if c == padding
      then of_two (value_of a) (value_of b)
      else of_three (value_of a) (value_of b) (value_of c)
    else of_four (value_of a) (value_of b) (value_of c) (value_of d) (some [])

-- The groups of a text without line breaks.
unfoldable pub decode_groups : Bytes → Option Bytes
decode_groups [] = some []
decode_groups (a ∷ []) = none
decode_groups (a ∷ (b ∷ [])) = none
decode_groups (a ∷ (b ∷ (c ∷ []))) = none
decode_groups (a ∷ (b ∷ (c ∷ (d ∷ [])))) = last_group a b c d
decode_groups (a ∷ (b ∷ (c ∷ (d ∷ (e ∷ s))))) =
    of_four (value_of a) (value_of b) (value_of c) (value_of d) (decode_groups (e ∷ s))

unfoldable pub without_breaks : Bytes → Bytes
without_breaks [] = []
without_breaks (c ∷ s) =
    let rest = without_breaks s in if c == 13 || c == 10 then rest else c ∷ rest

-- `DecodeString`, which skips line breaks.
unfoldable pub decode : Bytes → Option Bytes
decode s = decode_groups (without_breaks s)

-- A character that no break and no padding is.
abbrev IsDigit : ℕ → Type 0
IsDigit c = (c ≢ 13) × (c ≢ 10) × (c ≢ padding)

char_of-IsDigit : (v : ℕ) → v < 64 → IsDigit (char_of v)
unfolding char_of
char_of-IsDigit v h = ground arith

value_of-char_of : (v : ℕ) → v < 64 → value_of (char_of v) ≡ some v
unfolding char_of value_of
value_of-char_of v h = ground arith

decode_groups-four :
    (a b c d : ℕ) (s : Bytes)
    → d ≢ padding
    → decode_groups (a ∷ b ∷ c ∷ d ∷ s)
      ≡ of_four (value_of a) (value_of b) (value_of c) (value_of d) (decode_groups s)
unfolding decode_groups last_group
decode_groups-four a b c d [] h = ground arith
decode_groups-four a b c d (e ∷ s) h = refl

without_breaks-digit :
    (v : ℕ) (s : Bytes) → v < 64 → without_breaks (char_of v ∷ s) ≡ char_of v ∷ without_breaks s
unfolding without_breaks
without_breaks-digit v s h = let d = char_of-IsDigit v h in ground arith

-- Four characters without padding, in front of a text.
decode-four :
    (a b c d : ℕ) (s : Bytes)
    → a < 64
    → b < 64
    → c < 64
    → d < 64
    → decode (char_of a ∷ char_of b ∷ char_of c ∷ char_of d ∷ s)
      ≡ of_four (some a) (some b) (some c) (some d) (decode s)
unfolding decode
decode-four a b c d s ha hb hc hd =
    let kept =
      without_breaks-digit a _ ha
      ∙ ap (◌∷◌ (char_of a)) (
          without_breaks-digit b _ hb
          ∙ ap (◌∷◌ (char_of b))
              (without_breaks-digit c _ hc ∙ ap (◌∷◌ (char_of c)) (without_breaks-digit d s hd))) in
    ap decode_groups kept
    ∙ decode_groups-four (char_of a) (char_of b) (char_of c) (char_of d) (without_breaks s)
        (char_of-IsDigit d hd).2
    ∙ rw
        (value_of-char_of a ha, value_of-char_of b hb, value_of-char_of c hc, value_of-char_of d hd)
        refl

decode-three :
    (a b c : ℕ)
    → a < 64
    → b < 64
    → c < 64
    → decode (char_of a ∷ char_of b ∷ char_of c ∷ padding ∷ [])
      ≡ some (first_byte a b ∷ second_byte b c ∷ [])
unfolding decode without_breaks decode_groups last_group of_three
decode-three a b c ha hb hc =
    let kept =
      without_breaks-digit a (char_of b ∷ char_of c ∷ padding ∷ []) ha
      ∙ ap (◌∷◌ (char_of a)) (
          without_breaks-digit b (char_of c ∷ padding ∷ []) hb
          ∙ ap (◌∷◌ (char_of b)) (without_breaks-digit c (padding ∷ []) hc)) in
    let d = char_of-IsDigit c hc in
    let three : last_group (char_of a) (char_of b) (char_of c) padding
        ≡ of_three (value_of (char_of a)) (value_of (char_of b)) (value_of (char_of c)) =
      ground arith in
    ap decode_groups kept
    ∙ three
    ∙ rw (value_of-char_of a ha, value_of-char_of b hb, value_of-char_of c hc) refl

decode-two :
    (a b : ℕ)
    → a < 64
    → b < 64
    → decode (char_of a ∷ char_of b ∷ padding ∷ padding ∷ []) ≡ some (first_byte a b ∷ [])
unfolding decode without_breaks decode_groups last_group of_two
decode-two a b ha hb =
    let kept =
      without_breaks-digit a (char_of b ∷ padding ∷ padding ∷ []) ha
      ∙ ap (◌∷◌ (char_of a)) (without_breaks-digit b (padding ∷ padding ∷ []) hb) in
    ap decode_groups kept ∙ rw (value_of-char_of a ha, value_of-char_of b hb) refl

-- The bytes of an encoded text are read back.
pub decode-encode : (b : Bytes) → AreBytes b → decode (encode b) ≡ some b
unfolding encode of_four decode without_breaks decode_groups
decode-encode [] h = refl
decode-encode (x ∷ []) h =
    decode-two (x / 4) (x % 4 * 16) (omega arith) (omega arith)
    ∙ ap (λ u. some (u ∷ [])) (omega arith)
decode-encode (x ∷ (y ∷ [])) h =
    let e1 : first_byte (x / 4) (x % 4 * 16 + y / 16) ≡ x = omega arith in
    let e2 : second_byte (x % 4 * 16 + y / 16) (y % 16 * 4) ≡ y = omega arith in
    decode-three (x / 4) (x % 4 * 16 + y / 16) (y % 16 * 4) (omega arith) (omega arith)
      (omega arith)
    ∙ rw (e1, e2) refl
decode-encode (x ∷ (y ∷ (z ∷ s))) h =
    let a = x / 4 in
    let b = x % 4 * 16 + y / 16 in
    let c = y % 16 * 4 + z / 64 in
    let d = z % 64 in
    let e1 : first_byte a b ≡ x = omega arith in
    let e2 : second_byte b c ≡ y = omega arith in
    let e3 : third_byte c d ≡ z = omega arith in
    decode-four a b c d (encode s) (omega arith) (omega arith) (omega arith) (omega arith)
    ∙ rw (decode-encode s h.1.1.1, e1, e2, e3) refl
