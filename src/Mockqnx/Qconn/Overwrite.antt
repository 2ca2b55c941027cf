-- ===== src/Mockqnx/Qconn/Overwrite.antt =====
-- internal/mockqnx/server.go: what `storeVfile` makes of a file, and what `readVfile` finds of it.
use qnx8_qconn_mcp.Prelude.{
  ℕ, zero, suc, ◌+◌, ◌-◌, ◌^◌, ◌≤◌, ◌<◌, ◌≡◌, refl, sym, ap, ◌∙◌, false, inl, inr, [], ◌∷◌, ◌++◌,
  append-nil, some, Bytes, leb, Bool-cases, length, take, drop, drop-length, take_nil, arith,
}
use qnx8_qconn_mcp.Mockqnx.Qconn.{overwrite, file_part}

-- A file with bytes written over it, place by place; what lies between its end and the first of
-- them is zero.
unfoldable pub splice : ℕ → Bytes → Bytes → Bytes
splice zero [] buf = buf
splice zero (b ∷ bytes) [] = b ∷ splice zero bytes []
splice zero (b ∷ bytes) (x ∷ buf) = b ∷ splice zero bytes buf
splice (suc off) bytes [] = 0 ∷ splice off bytes []
splice (suc off) bytes (x ∷ buf) = x ∷ splice off bytes buf

overwrite_nil :
    (off : ℕ) (bytes : Bytes) → overwrite (suc off) bytes [] ≡ 0 ∷ overwrite off bytes []
unfolding overwrite
overwrite_nil off bytes =
    let more : suc off + length bytes - 0 ≡ suc (off + length bytes - 0) = omega arith in
    let more' : suc off + length bytes ≡ suc (off + length bytes) = omega arith in rw (more, more')

overwrite_cons :
    (off x : ℕ) (bytes buf : Bytes)
    → overwrite (suc off) bytes (x ∷ buf) ≡ x ∷ overwrite off bytes buf
unfolding overwrite
overwrite_cons off x bytes buf =
    let same_ : suc off + length bytes - suc (length buf) ≡ off + length bytes - length buf =
      omega arith in
    let more : suc off + length bytes ≡ suc (off + length bytes) = omega arith in rw (same_, more)

overwrite_first : (b : ℕ) (bytes : Bytes) → overwrite 0 (b ∷ bytes) [] ≡ b ∷ overwrite 0 bytes []
unfolding overwrite
overwrite_first b bytes =
    let more : 0 + suc (length bytes) - 0 ≡ suc (0 + length bytes - 0) = omega arith in
    let more' : 0 + suc (length bytes) ≡ suc (0 + length bytes) = omega arith in rw (more, more')

overwrite_next :
    (b x : ℕ) (bytes buf : Bytes) → overwrite 0 (b ∷ bytes) (x ∷ buf) ≡ b ∷ overwrite 0 bytes buf
unfolding overwrite
overwrite_next b x bytes buf =
    let same_ : 0 + suc (length bytes) - suc (length buf) ≡ 0 + length bytes - length buf =
      omega arith in
    let more : 0 + suc (length bytes) ≡ suc (0 + length bytes) = omega arith in rw (same_, more)

overwrite_none : (buf : Bytes) → overwrite 0 [] buf ≡ buf
unfolding overwrite
overwrite_none buf = let none_ : 0 + 0 - length buf ≡ 0 = omega arith in rw none_ (append-nil buf)

-- What the mock does with its grown slice is to write place by place.
pub overwrite-splice :
    (off : ℕ) (bytes buf : Bytes) → overwrite off bytes buf ≡ splice off bytes buf
unfolding splice
overwrite-splice zero [] buf = overwrite_none buf
overwrite-splice zero (b ∷ bytes) [] =
    overwrite_first b bytes ∙ ap (◌∷◌ b) (overwrite-splice zero bytes [])
overwrite-splice zero (b ∷ bytes) (x ∷ buf) =
    overwrite_next b x bytes buf ∙ ap (◌∷◌ b) (overwrite-splice zero bytes buf)
overwrite-splice (suc off) bytes [] =
    overwrite_nil off bytes ∙ ap (◌∷◌ 0) (overwrite-splice off bytes [])
overwrite-splice (suc off) bytes (x ∷ buf) =
    overwrite_cons off x bytes buf ∙ ap (◌∷◌ x) (overwrite-splice off bytes buf)

-- Bytes written behind one another are written at once.
pub splice-append :
    (off : ℕ) (a b buf : Bytes)
    → splice (off + length a) b (splice off a buf) ≡ splice off (a ++ b) buf
unfolding splice
splice-append zero [] b buf = let bare : 0 + 0 ≡ 0 = omega arith in rw bare
splice-append zero (x ∷ a) b [] =
    let more : 0 + suc (length a) ≡ suc (0 + length a) = omega arith in
    rw more (ap (◌∷◌ x) (splice-append zero a b []))
splice-append zero (x ∷ a) b (y ∷ buf) =
    let more : 0 + suc (length a) ≡ suc (0 + length a) = omega arith in
    rw more (ap (◌∷◌ x) (splice-append zero a b buf))
splice-append (suc off) a b [] =
    let more : suc off + length a ≡ suc (off + length a) = omega arith in
    rw more (ap (◌∷◌ 0) (splice-append off a b []))
splice-append (suc off) a b (y ∷ buf) =
    let more : suc off + length a ≡ suc (off + length a) = omega arith in
    rw more (ap (◌∷◌ y) (splice-append off a b buf))

-- What was written stands where it was written.
pub take-drop-splice :
    (off : ℕ) (bytes buf : Bytes) → take (length bytes) (drop off (splice off bytes buf)) ≡ bytes
unfolding splice
take-drop-splice zero [] buf = refl
take-drop-splice zero (b ∷ bytes) [] = ap (◌∷◌ b) (take-drop-splice zero bytes [])
take-drop-splice zero (b ∷ bytes) (x ∷ buf) = ap (◌∷◌ b) (take-drop-splice zero bytes buf)
take-drop-splice (suc off) bytes [] = take-drop-splice off bytes []
take-drop-splice (suc off) bytes (x ∷ buf) = take-drop-splice off bytes buf

-- A file reaches behind what was written, and is not shorter than it was.
pub length-splice :
    (off : ℕ) (bytes buf : Bytes)
    → (off + length bytes ≤ length (splice off bytes buf))
      × (length buf ≤ length (splice off bytes buf))
unfolding splice
length-splice zero [] buf = omega arith
length-splice zero (b ∷ bytes) [] = omega (arith, length-splice zero bytes [])
length-splice zero (b ∷ bytes) (x ∷ buf) = omega (arith, length-splice zero bytes buf)
length-splice (suc off) bytes [] = omega (arith, length-splice off bytes [])
length-splice (suc off) bytes (x ∷ buf) = omega (arith, length-splice off bytes buf)

drop_nil : (n : ℕ) → drop {A = ℕ} n [] ≡ []
drop_nil zero = refl
drop_nil (suc n) = refl

pub length-splice_le :
    (off : ℕ) (bytes buf : Bytes) → length (splice off bytes buf) ≤ off + length bytes + length buf
unfolding splice
length-splice_le zero [] buf = omega arith
length-splice_le zero (b ∷ bytes) [] = omega (arith, length-splice_le zero bytes [])
length-splice_le zero (b ∷ bytes) (x ∷ buf) = omega (arith, length-splice_le zero bytes buf)
length-splice_le (suc off) bytes [] = omega (arith, length-splice_le off bytes [])
length-splice_le (suc off) bytes (x ∷ buf) = omega (arith, length-splice_le off bytes buf)

-- What is written at the front of a file leaves the rest of it.
pub splice_front : (bytes buf : Bytes) → splice 0 bytes buf ≡ bytes ++ drop (length bytes) buf
unfolding splice
splice_front [] buf = refl
splice_front (b ∷ bytes) [] =
    ap (◌∷◌ b) (splice_front bytes [] ∙ ap (λ t. bytes ++ t) (drop_nil (length bytes)))
splice_front (b ∷ bytes) (x ∷ buf) = ap (◌∷◌ b) (splice_front bytes buf)

-- A file with bytes written to it, if there are any: a write of no bytes is not made.
abbrev pub stored : ℕ → Bytes → Bytes → Bytes
stored off [] buf = buf
stored off (b ∷ bytes) buf = splice off (b ∷ bytes) buf

-- A part written behind what was stored.
pub splice-stored :
    (off : ℕ) (a part buf : Bytes)
    → 0 < length part
    → splice (off + length a) part (stored off a buf) ≡ stored off (a ++ part) buf
splice-stored off a [] buf h = absurd (omega arith)
splice-stored off [] (b ∷ part) buf h = let bare : off + 0 ≡ off = omega arith in rw bare
splice-stored off (x ∷ a) (b ∷ part) buf h = splice-append off (x ∷ a) (b ∷ part) buf

pub take-drop-stored :
    (off : ℕ) (bytes buf : Bytes) → take (length bytes) (drop off (stored off bytes buf)) ≡ bytes
take-drop-stored off [] buf = refl
take-drop-stored off (b ∷ bytes) buf = take-drop-splice off (b ∷ bytes) buf

pub length-stored_le :
    (off : ℕ) (bytes buf : Bytes) → length (stored off bytes buf) ≤ off + length bytes + length buf
length-stored_le off [] buf = omega arith
length-stored_le off (b ∷ bytes) buf = length-splice_le off (b ∷ bytes) buf

pub stored_front : (bytes buf : Bytes) → stored 0 bytes buf ≡ bytes ++ drop (length bytes) buf
stored_front [] buf = refl
stored_front (b ∷ bytes) buf = splice_front (b ∷ bytes) buf

-- A part of a file within the range of an `int64` is what stands there.
pub file_part_lem :
    (buf : Bytes) (off n : ℕ)
    → off + n < 2 ^ 63
    → file_part buf off n ≡ some (take n (drop off buf))
unfolding file_part
file_part_lem buf off n h = elim (Bool-cases (leb (length buf) off)) [
  | inl e ↦
      let past : length buf ≤ off = ground arith in
      rw e (ap some (sym (ap (take n) (drop-length off buf past) ∙ take_nil n)))
  | inr e ↦ let small : leb (2 ^ 63) (off + n) ≡ false = ground arith in rw (e, small)
]
