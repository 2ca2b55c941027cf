-- ===== src/Qconn/Telnet.antt =====
-- internal/qconn/framing.go: `stripIAC`, which takes telnet commands out of a response.
use qnx8_qconn_mcp.Prelude.{
  ℕ, ◌≤◌, ◌<◌, ◌≡◌, ◌≢◌, ◌⊎◌, inl, inr, refl, ap, ◌∙◌, Bool, true, false, ◌||◌, ◌&&◌, List, [], ◌∷◌,
  ◌++◌, Bytes, ◌==◌, if◌then◌else◌, All, arith,
}

abbrev pub iac : ℕ
iac = 255

abbrev pub dont : ℕ
dont = 254

abbrev pub doo : ℕ
doo = 253

abbrev pub wont : ℕ
wont = 252

abbrev pub will : ℕ
will = 251

abbrev pub sb : ℕ
sb = 250

abbrev pub se : ℕ
se = 240

-- The commands that an option byte follows.
abbrev pub has_option : ℕ → Bool
has_option c = c == doo || c == dont || c == will || c == wont

-- The loop of `stripIAC`; the flag says that a subnegotiation is being skipped.
unfoldable pub strip_from : Bool → Bytes → Bytes
strip_from false [] = []
strip_from false (b ∷ []) = if b == iac then [] else b ∷ []
strip_from false (b ∷ (c ∷ [])) = if b == iac then [] else if c == iac then b ∷ [] else b ∷ c ∷ []
strip_from false (b ∷ (c ∷ (o ∷ s))) = elim (b == iac) [
  | false ↦ b ∷ strip_from false (c ∷ (o ∷ s))
  | true ↦ elim (has_option c) [
    | true ↦ strip_from false s
    | false ↦ elim (c == sb) [ true ↦ strip_from true (o ∷ s) | false ↦ strip_from false (o ∷ s) ]
  ]
]
strip_from true [] = []
strip_from true (b ∷ []) = []
strip_from true (b ∷ (c ∷ s)) = elim (b == iac && c == se) [
  | true ↦ strip_from false s
  | false ↦ strip_from true (c ∷ s)
]

unfoldable pub strip_iac : Bytes → Bytes
strip_iac b = strip_from false b

-- A telnet stream, by the codes of RFC 854: data bytes, negotiations, subnegotiations, and other
-- commands.
pub data Piece : Type 0 where
  data_byte : ℕ → Piece
  negotiation : ℕ → ℕ → Piece
  subnegotiation : Bytes → Piece
  command : ℕ → Piece

abbrev pub on_wire : List Piece → Bytes
on_wire [] = []
on_wire (data_byte b ∷ ps) = b ∷ on_wire ps
on_wire (negotiation c o ∷ ps) = 255 ∷ c ∷ o ∷ on_wire ps
on_wire (subnegotiation body ∷ ps) = 255 ∷ 250 ∷ (body ++ 255 ∷ 240 ∷ on_wire ps)
on_wire (command c ∷ ps) = 255 ∷ c ∷ on_wire ps

-- The application's bytes of a stream.
abbrev pub data_of : List Piece → Bytes
data_of [] = []
data_of (data_byte b ∷ ps) = b ∷ data_of ps
data_of (_ ∷ ps) = data_of ps

abbrev pub IsPlain : ℕ → Type 0
IsPlain b = b ≢ 255

-- WILL, WONT, DO and DONT.
abbrev pub IsNegotiation : ℕ → Type 0
IsNegotiation c = (251 ≤ c) × (c ≤ 254)

-- A command that is neither of these nor the start of a subnegotiation.
abbrev pub IsBare : ℕ → Type 0
IsBare c = (c < 250) ⊎ (254 < c)

abbrev pub IsPiece : Piece → Type 0
IsPiece (data_byte b) = IsPlain b
IsPiece (negotiation c o) = IsNegotiation c
IsPiece (subnegotiation body) = All IsPlain body
IsPiece (command c) = IsBare c

pub has_option-IsNegotiation : (c : ℕ) → IsNegotiation c → has_option c ≡ true
has_option-IsNegotiation c h = ground arith

pub has_option-IsBare : (c : ℕ) → IsBare c → (has_option c ≡ false) × (c ≢ sb)
has_option-IsBare c (inl h) = (ground arith, omega arith)
has_option-IsBare c (inr h) = (ground arith, omega arith)

strip_plain : (b : ℕ) (s : Bytes) → b ≢ iac → strip_from false (b ∷ s) ≡ b ∷ strip_from false s
unfolding strip_from
strip_plain b [] h = ground arith
strip_plain b (c ∷ []) h = ground arith
strip_plain b (c ∷ (o ∷ s)) h = ground arith

strip_sub :
    (body s : Bytes)
    → All IsPlain body
    → strip_from true (body ++ iac ∷ se ∷ s) ≡ strip_from false s
unfolding strip_from
strip_sub [] s h = refl
strip_sub (b ∷ []) s h = ground arith
strip_sub (b ∷ (c ∷ body)) s h = ground (arith, strip_sub (c ∷ body) s h.1)

strip_start :
    (body s : Bytes)
    → strip_from false (iac ∷ sb ∷ (body ++ iac ∷ se ∷ s)) ≡ strip_from true (body ++ iac ∷ se ∷ s)
unfolding strip_from
strip_start [] s = refl
strip_start (b ∷ body) s = refl

strip_command :
    (c : ℕ) (s : Bytes)
    → has_option c ≡ false
    → c ≢ sb
    → strip_from false (iac ∷ c ∷ s) ≡ strip_from false s
unfolding strip_from
strip_command c [] h ne = refl
strip_command c (o ∷ s) h ne = ground arith

strip_option :
    (c o : ℕ) (s : Bytes)
    → has_option c ≡ true
    → strip_from false (iac ∷ c ∷ o ∷ s) ≡ strip_from false s
unfolding strip_from
strip_option c o s h = ground arith

-- stripIAC leaves exactly the data bytes of a telnet stream, in order: the negotiations 251 to 254 are
-- removed with their option, subnegotiations up to their end, and every other command with its byte;
-- for data and subnegotiations that hold no 0xFF.
pub strip_iac-on_wire : (ps : List Piece) → All IsPiece ps → strip_iac (on_wire ps) ≡ data_of ps
unfolding strip_iac
strip_iac-on_wire [] h = unfold strip_from in refl
strip_iac-on_wire (data_byte b ∷ ps) h =
    strip_plain b (on_wire ps) h.0 ∙ ap (◌∷◌ b) (strip_iac-on_wire ps h.1)
strip_iac-on_wire (negotiation c o ∷ ps) h =
    strip_option c o (on_wire ps) (has_option-IsNegotiation c h.0) ∙ strip_iac-on_wire ps h.1
strip_iac-on_wire (subnegotiation body ∷ ps) h =
    strip_start body (on_wire ps) ∙ strip_sub body (on_wire ps) h.0 ∙ strip_iac-on_wire ps h.1
strip_iac-on_wire (command c ∷ ps) h =
    let (no_option, no_sub) = has_option-IsBare c h.0 in
    strip_command c (on_wire ps) no_option no_sub ∙ strip_iac-on_wire ps h.1

-- A stream without telnet commands is left as it is.
pub strip_iac-IsPlain : (s : Bytes) → All IsPlain s → strip_iac s ≡ s
unfolding strip_iac
strip_iac-IsPlain [] h = unfold strip_from in refl
strip_iac-IsPlain (b ∷ s) h = strip_plain b s h.0 ∙ ap (◌∷◌ b) (strip_iac-IsPlain s h.1)
