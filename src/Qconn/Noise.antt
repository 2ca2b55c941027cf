-- ===== src/Qconn/Noise.antt =====
-- internal/qconn/framing.go: the lines of a response, and the noise among them. Texts are ASCII
-- here, where `strings.TrimSpace` removes the six blanks below.
pub mod Trim
use qnx8_qconn_mcp.Prelude.{
  ℕ, ◌≡◌, ◌≢◌, refl, sym, ap, ◌∙◌, Bool, true, false, not, ◌||◌, ◌&&◌, List, [], ◌∷◌, ◌++◌, none,
  some, Bytes, ◌==◌, if◌then◌else◌, length, ◌<◌, ◌≤◌, codes, same, cut_once, cut_at, split, arith,
  Bool-cases, Option-cases, inl, inr,
}

abbrev pub is_blank : ℕ → Bool
is_blank c = c == b' ' || c == 9 || c == 10 || c == 11 || c == 12 || c == 13

abbrev pub is_cr : ℕ → Bool
is_cr c = c == 13

abbrev pub is_nil : Bytes → Bool
is_nil [] = true
is_nil (c ∷ s) = false

-- `strings.TrimRight` and `strings.TrimLeft` by a test.
unfoldable pub trim_right : (ℕ → Bool) → Bytes → Bytes
trim_right p [] = []
trim_right p (c ∷ s) = let t = trim_right p s in if p c && is_nil t then [] else c ∷ t

unfoldable pub trim_left : (ℕ → Bool) → Bytes → Bytes
trim_left p [] = []
trim_left p (c ∷ s) = if p c then trim_left p s else c ∷ s

-- The loop of `strings.Fields`: the field at hand, and the rest.
unfoldable pub fields_from : Bytes → Bytes → List Bytes
fields_from field [] = if is_nil field then [] else field ∷ []
fields_from field (c ∷ s) = elim (is_blank c) [
  | false ↦ fields_from (field ++ c ∷ []) s
  | true ↦ elim (is_nil field) [ true ↦ fields_from [] s | false ↦ field ∷ fields_from [] s ]
]

unfoldable pub fields : Bytes → List Bytes
fields s = fields_from [] s

unfoldable pub trim_space : Bytes → Bytes
trim_space s = trim_left is_blank (trim_right is_blank s)

abbrev pub benign_noise : Bytes
benign_noise = codes "error linemode-or-echo-not-supported"

unfoldable pub is_noise : Bytes → Bool
is_noise ln = same (trim_space ln) [] || same (trim_space ln) benign_noise

-- The loops of `firstLine` and `splitLines` over the lines.
unfoldable pub first_of : List Bytes → Bytes
first_of [] = []
first_of (ln ∷ lns) =
    let line = trim_right is_cr ln in
    let later = first_of lns in if not (is_noise line) then line else later

unfoldable pub first_line : Bytes → Bytes
first_line s = first_of (split 10 s)

unfoldable pub meaningful : List Bytes → List Bytes
meaningful [] = []
meaningful (ln ∷ lns) =
    let line = trim_right is_cr ln in
    let later = meaningful lns in if not (is_noise line) then line ∷ later else later

unfoldable pub split_lines : Bytes → List Bytes
split_lines s = meaningful (split 10 s)

-- The loop of `stripLeadingNoise` on fuel; each round that goes on drops one byte at least.
unfoldable pub strip_rounds : Bytes → Bytes → Bytes
strip_rounds [] s = s
strip_rounds (f ∷ fuel) s = elim (cut_once 10 s) [
  | none ↦ s
  | some (ln, rest) ↦ let later = strip_rounds fuel rest in if is_noise ln then later else s
]

unfoldable pub strip_leading_noise : Bytes → Bytes
strip_leading_noise s = strip_rounds s s

abbrev pub head_of : List Bytes → Bytes
head_of [] = []
head_of (l ∷ ls) = l

first_of-meaningful : (lns : List Bytes) → first_of lns ≡ head_of (meaningful lns)
unfolding first_of meaningful
first_of-meaningful [] = refl
first_of-meaningful (ln ∷ lns) = elim (Bool-cases (is_noise (trim_right is_cr ln))) [
  | inl e ↦ rw e (first_of-meaningful lns)
  | inr e ↦ rw e
]

-- firstLine is the first of splitLines, and empty where there is none.
pub first_line-split_lines : (s : Bytes) → first_line s ≡ head_of (split_lines s)
unfolding first_line split_lines
first_line-split_lines s = first_of-meaningful (split 10 s)

nil_of : (l : Bytes) → is_nil l ≡ true → l ≡ []
nil_of [] h = refl
nil_of (c ∷ l) h = cc

-- Trimming carriage returns first makes no difference to a trim of all blanks.
trim_right-trim_right :
    (s : Bytes) → trim_right is_blank (trim_right is_cr s) ≡ trim_right is_blank s
unfolding trim_right
trim_right-trim_right [] = refl
trim_right-trim_right (c ∷ s) = elim (Bool-cases (is_cr c && is_nil (trim_right is_cr s))) [
  | inl e ↦
      let empty = nil_of (trim_right is_cr s) (ground arith) in
      let empty' = sym (trim_right-trim_right s) ∙ ap (trim_right is_blank) empty in
      rw (e, empty') (ground arith)
  | inr e ↦ rw (e, trim_right-trim_right s)
]

is_noise-trim_right : (ln : Bytes) → is_noise (trim_right is_cr ln) ≡ is_noise ln
unfolding is_noise trim_space
is_noise-trim_right ln = rw (trim_right-trim_right ln)

-- A byte in front of the first line.
abbrev longer : ℕ → List Bytes → List Bytes
longer c [] = []
longer c (l ∷ ls) = (c ∷ l) ∷ ls

meaningful_noise :
    (ln : Bytes) (lns : List Bytes) → is_noise ln ≡ true → meaningful (ln ∷ lns) ≡ meaningful lns
unfolding meaningful
meaningful_noise ln lns h = rw (is_noise-trim_right ln ∙ h)

-- A cut at the first newline, as `split` sees it.
split-cut_once :
    (s : Bytes) {ln rest : Bytes}
    → cut_once 10 s ≡ some (ln, rest)
    → split 10 s ≡ ln ∷ split 10 rest
unfolding split cut_once cut_at
split-cut_once [] h = cc
split-cut_once (c ∷ s) {ln} {rest} h = elim (Bool-cases (c == 10)) [
  | inl e ↦
      let same_ : some ([], s) ≡ some (ln, rest) = rw (e, cut_once) at h in
      let first : [] ≡ ln = cc in let later : s ≡ rest = cc in rw (e, sym first, sym later)
  | inr e ↦ elim (Option-cases (cut_once 10 s)) [
    | inl q ↦ absurd (cc (rw (e, cut_once, q) at h))
    | inr ((ln', rest'), q) ↦
        let same_ : some (c ∷ ln', rest') ≡ some (ln, rest) = rw (e, cut_once, q) at h in
        let first : c ∷ ln' ≡ ln = cc in
        let later : rest' ≡ rest = cc in
        rw (e, sym first, sym later) (ap (longer c) (split-cut_once s q))
  ]
]

meaningful-strip_rounds :
    (fuel s : Bytes) → meaningful (split 10 (strip_rounds fuel s)) ≡ meaningful (split 10 s)
unfolding strip_rounds
meaningful-strip_rounds [] s = refl
meaningful-strip_rounds (f ∷ fuel) s = elim (Option-cases (cut_once 10 s)) [
  | inl e ↦ rw (e, strip_rounds)
  | inr ((ln, rest), e) ↦ elim (Bool-cases (is_noise ln)) [
    | inl n ↦
        rw (e, strip_rounds)
          (rw n (
            meaningful-strip_rounds fuel rest
            ∙ sym (ap meaningful (split-cut_once s e) ∙ meaningful_noise ln (split 10 rest) n)))
    | inr n ↦ rw (e, strip_rounds) (rw n)
  ]
]

-- stripLeadingNoise loses no meaningful line.
pub split_lines-strip_leading_noise :
    (s : Bytes) → split_lines (strip_leading_noise s) ≡ split_lines s
unfolding split_lines strip_leading_noise
split_lines-strip_leading_noise s = meaningful-strip_rounds s s

cut_once-length :
    (s : Bytes) {ln rest : Bytes} → cut_once 10 s ≡ some (ln, rest) → length rest < length s
unfolding cut_once
cut_once-length [] h = cc
cut_once-length (c ∷ s) {ln} {rest} h = elim (Bool-cases (c == 10)) [
  | inl e ↦
      let same_ : some ([], s) ≡ some (ln, rest) = rw (e, cut_once) at h in
      let later : s ≡ rest = cc in omega (arith, ap length later)
  | inr e ↦ elim (Option-cases (cut_once 10 s)) [
    | inl q ↦ absurd (cc (rw (e, cut_once, q) at h))
    | inr ((ln', rest'), q) ↦
        let same_ : some (c ∷ ln', rest') ≡ some (ln, rest) = rw (e, cut_once, q) at h in
        let later : rest' ≡ rest = cc in omega (arith, ap length later, cut_once-length s q)
  ]
]

cut_once_nil : {ln rest : Bytes} → cut_once 10 [] ≢ some (ln, rest)
unfolding cut_once
cut_once_nil h = cc

strip_rounds_clean :
    (fuel s : Bytes) {ln rest : Bytes}
    → length s ≤ length fuel
    → cut_once 10 (strip_rounds fuel s) ≡ some (ln, rest)
    → is_noise ln ≡ false
unfolding strip_rounds
strip_rounds_clean [] [] f h = absurd (cut_once_nil h)
strip_rounds_clean [] (c ∷ s) f h = absurd (omega arith)
strip_rounds_clean (x ∷ fuel) s {ln} {rest} f h = elim (Option-cases (cut_once 10 s)) [
  | inl e ↦ absurd (cc (rw (e, strip_rounds) at h))
  | inr ((ln', rest'), e) ↦ elim (Bool-cases (is_noise ln')) [
    | inl n ↦
        let shorter : length rest' ≤ length fuel = omega (arith, cut_once-length s e) in
        strip_rounds_clean fuel rest' shorter (rw (e, strip_rounds, n) at h)
    | inr n ↦
        let kept : cut_once 10 s ≡ some (ln, rest) = rw (e, strip_rounds, n) at h in
        let first : ln' ≡ ln = cc in rw (sym first) n
  ]
]

-- What stripLeadingNoise returns begins with no noise line.
pub strip_leading_noise_clean :
    (s : Bytes) {ln rest : Bytes}
    → cut_once 10 (strip_leading_noise s) ≡ some (ln, rest)
    → is_noise ln ≡ false
unfolding strip_leading_noise
strip_leading_noise_clean s h = strip_rounds_clean s s (omega arith) h
