-- ===== src/Qconn/Prompt/Find.antt =====
-- Where the pattern of a prompt matches.
use qnx8_qconn_mcp.Prelude.{
  ℕ, zero, suc, ◌≡◌, ◌≢◌, refl, ◌∙◌, Bool, true, false, ◌||◌, List, [], ◌∷◌, ◌++◌, none, some,
  Bytes, All, drop, codes, has_prefix, arith,
}
use qnx8_qconn_mcp.Qconn.Client.{Service, broker, launcher, file, cntl, sinfo, service_name}
use qnx8_qconn_mcp.Qconn.Prompt.{prompts, all_blank, is_one_of, is_prompt, before_prompt}

-- Whether `s` begins with one of the prompts.
abbrev pub starts_one : List Bytes → Bytes → Bool
starts_one [] s = false
starts_one (p ∷ ps) s = has_prefix s p || starts_one ps s

-- No prompt stands anywhere in a text.
abbrev pub HasNoPrompt : Bytes → Type 0
HasNoPrompt [] = Unit
HasNoPrompt (c ∷ s) = (starts_one prompts (c ∷ s) ≡ false) × HasNoPrompt s

-- The prompt of a service.
abbrev pub prompt_of : Service → Bytes
prompt_of s = codes "<qconn-" ++ (service_name s ++ codes ">")

is_one_of-false : (ps : List Bytes) (s : Bytes) → starts_one ps s ≡ false → is_one_of ps s ≡ false
unfolding is_one_of
is_one_of-false [] s h = refl
is_one_of-false (p ∷ ps) s h = ground (arith, is_one_of-false ps s)

is_prompt-false : (s : Bytes) → starts_one prompts s ≡ false → is_prompt s ≡ false
unfolding is_prompt
is_prompt-false s h = is_one_of-false prompts s h

before_prompt-later :
    (c : ℕ) (s t : Bytes)
    → is_prompt (c ∷ s) ≡ false
    → before_prompt s ≡ some t
    → before_prompt (c ∷ s) ≡ some (c ∷ t)
unfolding before_prompt
before_prompt-later c s t h e = rw (h, before_prompt) (rw e)

before_prompt-never :
    (c : ℕ) (s : Bytes)
    → is_prompt (c ∷ s) ≡ false
    → before_prompt s ≡ none
    → before_prompt (c ∷ s) ≡ none
unfolding before_prompt
before_prompt-never c s h e = rw (h, before_prompt) (rw e)

pub before_prompt-HasNoPrompt : (s : Bytes) → HasNoPrompt s → before_prompt s ≡ none
before_prompt-HasNoPrompt [] h = unfold before_prompt in refl
before_prompt-HasNoPrompt (c ∷ s) h =
    before_prompt-never c s (is_prompt-false (c ∷ s) h.0) (before_prompt-HasNoPrompt s h.1)

pub HasNoPrompt-drop : (n : ℕ) (s : Bytes) → HasNoPrompt s → HasNoPrompt (drop n s)
HasNoPrompt-drop zero s h = h
HasNoPrompt-drop (suc n) [] h = tt
HasNoPrompt-drop (suc n) (c ∷ s) h = HasNoPrompt-drop n s h.1

has_prefix-append_false : (s t p : Bytes) → has_prefix (s ++ t) p ≡ false → has_prefix s p ≡ false
unfolding has_prefix
has_prefix-append_false s t [] h = absurd (cc)
has_prefix-append_false [] t (x ∷ p) h = refl
has_prefix-append_false (c ∷ s) t (x ∷ p) h = ground (arith, has_prefix-append_false s t p)

starts_one-append_false :
    (ps : List Bytes) (s t : Bytes) → starts_one ps (s ++ t) ≡ false → starts_one ps s ≡ false
starts_one-append_false [] s t h = refl
starts_one-append_false (p ∷ ps) s t h =
    ground (arith, has_prefix-append_false s t p, starts_one-append_false ps s t)

-- The first part of a text without prompts has none.
pub HasNoPrompt-first : (s t : Bytes) → HasNoPrompt (s ++ t) → HasNoPrompt s
HasNoPrompt-first [] t h = tt
HasNoPrompt-first (c ∷ s) t h =
    (starts_one-append_false prompts (c ∷ s) t h.0, HasNoPrompt-first s t h.1)

abbrev IsNoMark : ℕ → Type 0
IsNoMark c = c ≢ b'<'

has_prefix_mark : (s q p : Bytes) → All IsNoMark p → has_prefix (s ++ b'<' ∷ q) p ≡ has_prefix s p
unfolding has_prefix
has_prefix_mark s q [] h = refl
has_prefix_mark [] q (x ∷ p) h = ground arith
has_prefix_mark (c ∷ s) q (x ∷ p) h = ground (arith, has_prefix_mark s q p)

-- A mark stands at the head of a prompt only.
abbrev IsHeaded : Bytes → Type 0
IsHeaded [] = ⊥
IsHeaded (x ∷ p) = All IsNoMark p

starts_one_mark :
    (ps : List Bytes) (c : ℕ) (s q : Bytes)
    → All IsHeaded ps
    → starts_one ps (c ∷ (s ++ b'<' ∷ q)) ≡ starts_one ps (c ∷ s)
unfolding has_prefix
starts_one_mark [] c s q h = refl
starts_one_mark ([] ∷ ps) c s q h = absurd h.0
starts_one_mark ((x ∷ p) ∷ ps) c s q h =
    rw (has_prefix_mark s q p h.0, starts_one_mark ps c s q h.1)

prompts-IsHeaded : All IsHeaded prompts
prompts-IsHeaded = omega arith

is_prompt-prompt_of : (svc : Service) → is_prompt (prompt_of svc) ≡ true
unfolding is_prompt is_one_of all_blank has_prefix
is_prompt-prompt_of broker = refl
is_prompt-prompt_of launcher = refl
is_prompt-prompt_of file = refl
is_prompt-prompt_of cntl = refl
is_prompt-prompt_of sinfo = refl

before_prompt-here :
    (c : ℕ) (s : Bytes) → is_prompt (c ∷ s) ≡ true → before_prompt (c ∷ s) ≡ some []
unfolding before_prompt
before_prompt-here c s h = rw (h, before_prompt)

-- Behind a text without prompts, the prompt is found where it stands.
pub before_prompt-prompt_of :
    (s : Bytes) (svc : Service) → HasNoPrompt s → before_prompt (s ++ prompt_of svc) ≡ some s
before_prompt-prompt_of [] svc h = before_prompt-here b'<' _ (is_prompt-prompt_of svc)
before_prompt-prompt_of (c ∷ s) svc h =
    let rest = codes "qconn-" ++ (service_name svc ++ codes ">") in
    let absent : starts_one prompts (c ∷ (s ++ b'<' ∷ rest)) ≡ false =
      starts_one_mark prompts c s rest prompts-IsHeaded ∙ h.0 in
    before_prompt-later c (s ++ prompt_of svc) s (is_prompt-false _ absent)
      (before_prompt-prompt_of s svc h.1)
