-- ===== src/Mcpserver/Blocks/Strings.antt =====
-- What `printableStrings` finds.
use qnx8_qconn_mcp.Prelude.{
  ℕ, ◌≤◌, ◌<◌, ◌≡◌, ◌⊎◌, inl, inr, refl, arith, ap, ◌∙◌, sym, true, false, List, [], ◌∷◌, ◌++◌,
  append-nil, append_assoc, Bytes, All,
}
use qnx8_qconn_mcp.Mcpserver.Blocks.{is_printable, flush, strings_from, printable_strings}

abbrev pub IsPrintable : ℕ → Type 0
IsPrintable c = (32 ≤ c) × (c ≤ 126)

abbrev pub IsSeparator : ℕ → Type 0
IsSeparator c = (c < 32) ⊎ (126 < c)

-- A run of printable bytes, and the byte that ends it.
abbrev pub IsRun : Bytes × ℕ → Type 0
IsRun (run, sep) = All IsPrintable run × IsSeparator sep

-- A block: such runs, and a last one.
abbrev pub block_of : List (Bytes × ℕ) → Bytes → Bytes
block_of [] last = last
block_of ((run, sep) ∷ runs) last = run ++ sep ∷ block_of runs last

-- A run, if it has two bytes at least.
abbrev pub long_run : Bytes → List Bytes
long_run (c ∷ (d ∷ run)) = (c ∷ d ∷ run) ∷ []
long_run _ = []

-- The runs of two bytes at least, in order.
abbrev pub long_runs : List (Bytes × ℕ) → Bytes → List Bytes
long_runs [] last = long_run last
long_runs ((run, sep) ∷ runs) last = long_run run ++ long_runs runs last

is_printable-IsPrintable : (c : ℕ) → IsPrintable c → is_printable c ≡ true
is_printable-IsPrintable c h = ground arith

is_printable-IsSeparator : (c : ℕ) → IsSeparator c → is_printable c ≡ false
is_printable-IsSeparator c (inl h) = ground arith
is_printable-IsSeparator c (inr h) = ground arith

flush-long_run : (run : Bytes) (later : List Bytes) → flush run later ≡ long_run run ++ later
flush-long_run [] later = refl
flush-long_run (c ∷ []) later = refl
flush-long_run (c ∷ (d ∷ run)) later = ground arith

strings_from_run :
    (cur run rest : Bytes)
    → All IsPrintable run
    → strings_from cur (run ++ rest) ≡ strings_from (cur ++ run) rest
unfolding strings_from
strings_from_run cur [] rest h = ap (λ c. strings_from c rest) (sym (append-nil cur))
strings_from_run cur (c ∷ run) rest h =
    rw (is_printable-IsPrintable c h.0, strings_from)
      (strings_from_run (cur ++ c ∷ []) run rest h.1
        ∙ ap (λ t. strings_from t rest) (append_assoc cur (c ∷ []) run))

strings_from_end :
    (cur rest : Bytes) (sep : ℕ)
    → IsSeparator sep
    → strings_from cur (sep ∷ rest) ≡ flush cur (strings_from [] rest)
unfolding strings_from
strings_from_end cur rest sep h = rw (is_printable-IsSeparator sep h, strings_from)

strings_from_last : (last : Bytes) → All IsPrintable last → strings_from [] last ≡ flush last []
unfolding strings_from
strings_from_last last h =
    ap (strings_from []) (sym (append-nil last)) ∙ strings_from_run [] last [] h

-- Of a block, which is runs of the bytes 32 to 126 with one other byte between them,
-- printableStrings returns exactly the runs of two bytes at least, in order.
pub printable_strings-block_of :
    (runs : List (Bytes × ℕ)) (last : Bytes)
    → All IsRun runs
    → All IsPrintable last
    → printable_strings (block_of runs last) ≡ long_runs runs last
unfolding printable_strings
printable_strings-block_of [] last h p =
    strings_from_last last p ∙ flush-long_run last [] ∙ append-nil (long_run last)
printable_strings-block_of ((run, sep) ∷ runs) last h p =
    strings_from_run [] run (sep ∷ block_of runs last) h.0.0
    ∙ strings_from_end run (block_of runs last) sep h.0.1
    ∙ ap (flush run) (printable_strings-block_of runs last h.1 p)
    ∙ flush-long_run run (long_runs runs last)
