-- ===== src/Qconn/Prompt.antt =====
-- internal/qconn/framing.go: the pattern of a prompt, `<qconn-(broker|launcher|file|cntl|sinfo)>\s*$`.
pub mod Find
use qnx8_qconn_mcp.Prelude.{
  ℕ, Bool, true, false, ◌||◌, ◌&&◌, List, [], ◌∷◌, Option, none, some, Bytes, ◌==◌, if◌then◌else◌,
  length, drop, codes, has_prefix,
}

-- `\s`: five blanks, without the vertical tab.
abbrev pub is_regexp_blank : ℕ → Bool
is_regexp_blank c = c == b' ' || c == 9 || c == 10 || c == 12 || c == 13

unfoldable pub all_blank : Bytes → Bool
all_blank [] = true
all_blank (c ∷ s) = is_regexp_blank c && all_blank s

abbrev pub prompts : List Bytes
prompts =
    codes "<qconn-broker>"
    ∷ codes "<qconn-launcher>"
    ∷ codes "<qconn-file>"
    ∷ codes "<qconn-cntl>"
    ∷ codes "<qconn-sinfo>"
    ∷ []

-- Whether `s` is one of the prompts and blanks behind it.
unfoldable pub is_one_of : List Bytes → Bytes → Bool
is_one_of [] s = false
is_one_of (p ∷ ps) s =
    let here = has_prefix s p && all_blank (drop (length p) s) in here || is_one_of ps s

unfoldable pub is_prompt : Bytes → Bool
is_prompt s = is_one_of prompts s

-- `promptRe.FindStringIndex(s)`: the text before the first place from which `s` is a prompt.
unfoldable pub before_prompt : Bytes → Option Bytes
before_prompt [] = none
before_prompt (c ∷ s) = elim (is_prompt (c ∷ s)) [
  | true ↦ some []
  | false ↦ elim (before_prompt s) [ none ↦ none | some t ↦ some (c ∷ t) ]
]
