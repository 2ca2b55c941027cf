-- ===== src/Qconn/Launcher.antt =====
-- internal/qconn/launcher.go: `escapeArg`.
use qnx8_qconn_mcp.Prelude.{
  ℕ, ◌≡◌, ◌≢◌, refl, true, false, ◌||◌, [], ◌∷◌, ◌++◌, append_assoc, All-append, Option, none, some,
  Bytes, ◌==◌, if◌then◌else◌, All, arith,
}

-- `strings.ReplaceAll` of one byte.
unfoldable pub replace_all : ℕ → Bytes → Bytes → Bytes
replace_all old new [] = []
replace_all old new (c ∷ s) =
    let rest = replace_all old new s in if c == old then new ++ rest else c ∷ rest

unfoldable pub escape_arg : Bytes → Bytes
escape_arg s = replace_all 13 (b' ' ∷ []) (
    replace_all 10 (b' ' ∷ [])
      (replace_all b'"' (b'\\' ∷ b'"' ∷ []) (replace_all b'\\' (b'\\' ∷ b'\\' ∷ []) s)))

-- A reader of a double-quoted argument: a backslash takes the byte behind it as it is, and a quote
-- ends the argument. What was read, and what follows the quote.
abbrev pub read_quoted : Bytes → Option (Bytes × Bytes)
read_quoted [] = none
read_quoted (c ∷ []) = if c == b'"' then some ([], []) else none
read_quoted (c ∷ (d ∷ s)) = elim (c == b'"') [
  | true ↦ some ([], d ∷ s)
  | false ↦ elim (c == b'\\') [
    | true ↦ elim (read_quoted s) [ none ↦ none | some (a, r) ↦ some (d ∷ a, r) ]
    | false ↦ elim (read_quoted (d ∷ s)) [ none ↦ none | some (a, r) ↦ some (c ∷ a, r) ]
  ]
]

-- A line break becomes a blank.
abbrev pub flat : ℕ → ℕ
flat c = if c == 10 || c == 13 then b' ' else c

abbrev pub flattened : Bytes → Bytes
flattened [] = []
flattened (c ∷ s) = flat c ∷ flattened s

-- What one byte becomes.
abbrev escaped_byte : ℕ → Bytes
escaped_byte c =
    if c == b'\\' then b'\\' ∷ b'\\' ∷ [] else if c == b'"' then b'\\' ∷ b'"' ∷ [] else flat c ∷ []

escape_arg_cons : (c : ℕ) (s : Bytes) → escape_arg (c ∷ s) ≡ escaped_byte c ++ escape_arg s
unfolding escape_arg replace_all
escape_arg_cons c s = ground arith

read_quoted-escaped_byte :
    (c : ℕ) (s a r : Bytes)
    → read_quoted s ≡ some (a, r)
    → read_quoted (escaped_byte c ++ s) ≡ some (flat c ∷ a, r)
read_quoted-escaped_byte c [] a r h = ground arith
read_quoted-escaped_byte c (d ∷ s) a r h = ground arith

-- Between the quotes of the launcher's command, an escaped argument is read back as one argument,
-- with its line breaks replaced by blanks, and what follows the closing quote stays outside.
pub read_quoted-escape_arg :
    (s rest : Bytes) → read_quoted (escape_arg s ++ b'"' ∷ rest) ≡ some (flattened s, rest)
read_quoted-escape_arg [] [] = unfold escape_arg replace_all in refl
read_quoted-escape_arg [] (c ∷ rest) = unfold escape_arg replace_all in refl
read_quoted-escape_arg (c ∷ s) rest =
    rw (escape_arg_cons c s, append_assoc (escaped_byte c) (escape_arg s) (b'"' ∷ rest))
      (read_quoted-escaped_byte c (escape_arg s ++ b'"' ∷ rest) (flattened s) rest
        (read_quoted-escape_arg s rest))

-- A byte that does not end the line.
abbrev pub IsInLine : ℕ → Type 0
IsInLine c = (c ≢ 10) × (c ≢ 13)

escaped_byte-IsInLine : (c : ℕ) → All IsInLine (escaped_byte c)
escaped_byte-IsInLine c = ground arith

-- No line break occurs in an escaped argument, so that it cannot end the command's line.
pub escape_arg-IsInLine : (s : Bytes) → All IsInLine (escape_arg s)
escape_arg-IsInLine [] = unfold escape_arg replace_all in tt
escape_arg-IsInLine (c ∷ s) = rw (escape_arg_cons c s) (
    All-append IsInLine (escaped_byte c) (escape_arg s) (escaped_byte-IsInLine c)
      (escape_arg-IsInLine s))
