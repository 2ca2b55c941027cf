-- ===== src/Qconn/Proc.antt =====
-- internal/qconn/proc.go: the addresses in a memory map's text.
use qnx8_qconn_mcp.Prelude.{
  ℕ, ◌+◌, ◌*◌, ◌^◌, ◌<◌, ◌≡◌, [], ◌∷◌, Option, none, some, Bytes, leb, if◌then◌else◌, drop, codes,
  has_prefix, cut_once, Parsed, number, bad_syntax, out_of_range, hex_value, hex_from, parse_hex,
  arith, Bool-cases, Option-cases, inl, inr,
}
use qnx8_qconn_mcp.Qconn.Noise.{trim_space}

-- `strings.TrimPrefix(s, start)` for a prefix of two bytes.
abbrev pub trim_prefix : Bytes → Bytes → Bytes
trim_prefix s start = if has_prefix s start then drop 2 s else s

unfoldable pub parse_hex_addr : Bytes → Parsed
parse_hex_addr s = parse_hex (trim_prefix (trim_prefix (trim_space s) (codes "0x")) (codes "0X"))

-- Both numbers, where both sides are read.
unfoldable pub both : Parsed → Parsed → Option (ℕ × ℕ)
both (number lo) (number hi) = some (lo, hi)
both _ _ = none

-- `i <= 0 || i >= len(tok)-1` is an empty side.
unfoldable pub sides : Bytes → Bytes → Option (ℕ × ℕ)
sides [] b = none
sides (c ∷ a) [] = none
sides (c ∷ a) (d ∷ b) = both (parse_hex_addr (c ∷ a)) (parse_hex_addr (d ∷ b))

unfoldable pub split_hex_range : Bytes → Option (ℕ × ℕ)
split_hex_range tok = elim (cut_once b'-' tok) [ none ↦ none | some (a, b) ↦ sides a b ]

hex_value-below : (c : ℕ) {d : ℕ} → hex_value c ≡ some d → d < 16
unfolding hex_value
hex_value-below c {d} h = ground arith

hex_from-below : (n : ℕ) (s : Bytes) {m : ℕ} → n < 2 ^ 64 → hex_from n s ≡ number m → m < 2 ^ 64
unfolding hex_from
hex_from-below n [] {m} h e = ground arith
hex_from-below n (c ∷ s) {m} h e = elim (Option-cases (hex_value c)) [
  | inl q ↦ absurd (cc (rw (q, hex_from) at e))
  | inr (d, q) ↦ elim (Bool-cases (leb (2 ^ 60) n)) [
    | inl b ↦ absurd (cc (rw (q, hex_from, b) at e))
    | inr b ↦
        let small : d < 16 = hex_value-below c q in
        let low : n < 2 ^ 60 = ground arith in
        hex_from-below (n * 16 + d) s (omega arith) (rw (q, hex_from, b) at e)
  ]
]

parse_hex-below : (s : Bytes) {m : ℕ} → parse_hex s ≡ number m → m < 2 ^ 64
unfolding parse_hex
parse_hex-below [] e = cc
parse_hex-below (c ∷ s) e = hex_from-below 0 (c ∷ s) (omega arith) e

parse_hex_addr-below : (s : Bytes) {m : ℕ} → parse_hex_addr s ≡ number m → m < 2 ^ 64
unfolding parse_hex_addr
parse_hex_addr-below s e = parse_hex-below _ e

both_sound :
    (x y : Parsed) {lo hi : ℕ} → both x y ≡ some (lo, hi) → (x ≡ number lo) × (y ≡ number hi)
unfolding both
both_sound (number a) (number b) h = (cc, cc)
both_sound (number a) bad_syntax h = cc
both_sound (number a) out_of_range h = cc
both_sound bad_syntax y h = cc
both_sound out_of_range y h = cc

sides-below : (a b : Bytes) {lo hi : ℕ} → sides a b ≡ some (lo, hi) → (lo < 2 ^ 64) × (hi < 2 ^ 64)
unfolding sides
sides-below [] b h = cc
sides-below (c ∷ a) [] h = cc
sides-below (c ∷ a) (d ∷ b) h =
    let (el, eh) = both_sound (parse_hex_addr (c ∷ a)) (parse_hex_addr (d ∷ b)) h in
    (parse_hex_addr-below (c ∷ a) el, parse_hex_addr-below (d ∷ b) eh)

-- Both ends that splitHexRange returns are 64-bit numbers, as an out-of-range one is refused.
pub split_hex_range-below :
    (tok : Bytes) {lo hi : ℕ} → split_hex_range tok ≡ some (lo, hi) → (lo < 2 ^ 64) × (hi < 2 ^ 64)
unfolding split_hex_range
split_hex_range-below tok {lo} {hi} h = elim (Option-cases (cut_once b'-' tok)) [
  | inl e ↦ absurd (cc (rw (e, split_hex_range) at h))
  | inr ((a, b), e) ↦ sides-below a b (rw (e, split_hex_range) at h)
]
