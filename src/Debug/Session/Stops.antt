-- ===== src/Debug/Session/Stops.antt =====
-- Stop packets: what `parseStop` reads, and where it panics.
use qnx8_qconn_mcp.Prelude.{
  ℕ, ◌≤◌, ◌≡◌, ◌≢◌, refl, ap, ◌∙◌, Bool, true, false, [], ◌∷◌, ◌++◌, Option, none, some, Bytes,
  IsByte, ◌==◌, ==_iff, le→leb, if◌then◌else◌, length, All, codes, same, split, cut_at, cut_once, ℤ,
  pos, negsuc, arith, passes_below, passes_below_at, parse_hex, hex_from, hex_value, hex_digit,
}
use qnx8_qconn_mcp.Debug.Codec.{hex_byte}
use qnx8_qconn_mcp.Debug.Session.{
  Values, assign, StopReply, number_of, negated, plain, parse_signal, add_pair, add_pairs,
  empty_stop, with_signal, with_pairs, parse_stop,
}

-- A `T` packet as a stub prints it: `T`, two digits, and a pair `k:v;` for each value.
abbrev pub print_pairs : Values → Bytes
print_pairs [] = []
print_pairs ((k, v) ∷ m) = k ++ b':' ∷ (v ++ b';' ∷ print_pairs m)

abbrev pub print_stop : ℕ → Values → Bytes
print_stop signal m = b'T' ∷ (hex_byte signal ++ print_pairs m)

-- A key holds neither separator, and a value not the outer one.
abbrev pub IsKey : ℕ → Type 0
IsKey c = (c ≢ b':') × (c ≢ b';')

abbrev pub IsValue : ℕ → Type 0
IsValue c = c ≢ b';'

abbrev pub IsPair : Bytes × Bytes → Type 0
IsPair (k, v) = All IsKey k × All IsValue v

-- The values one after the other: a later value of a key takes the place of an earlier one.
abbrev pub with_values : Values → StopReply → StopReply
with_values [] sr = sr
with_values ((k, v) ∷ m) sr = with_values m (record sr {
  thread = if same k (codes "thread") then v else sr.thread;
  values = assign k v sr.values;
})

cut_at_value : (v r : Bytes) → All IsValue v → cut_at b';' (v ++ b';' ∷ r) ≡ (v, split b';' r)
unfolding cut_at split
cut_at_value [] r h = refl
cut_at_value (c ∷ v) r h = ground (arith, cut_at_value v r h.1)

cut_at_pair :
    (k v r : Bytes)
    → All IsKey k
    → All IsValue v
    → cut_at b';' (k ++ b':' ∷ (v ++ b';' ∷ r)) ≡ (k ++ b':' ∷ v, split b';' r)
unfolding cut_at
cut_at_pair [] v r hk hv = rw (cut_at_value v r hv)
cut_at_pair (c ∷ k) v r hk hv = ground (arith, cut_at_pair k v r hk.1 hv)

cut_once_key : (k v : Bytes) → All IsKey k → cut_once b':' (k ++ b':' ∷ v) ≡ some (k, v)
unfolding cut_once
cut_once_key [] v h = refl
cut_once_key (c ∷ k) v h = ground (arith, cut_once_key k v h.1)

add_pair_printed :
    (k v : Bytes) (sr : StopReply)
    → All IsKey k
    → add_pair (k ++ b':' ∷ v) sr ≡ record sr {
      thread = if same k (codes "thread") then v else sr.thread;
      values = assign k v sr.values;
    }
unfolding add_pair
add_pair_printed k v sr h = rw (cut_once_key k v h, add_pair)

add_pairs_printed :
    (m : Values) (sr : StopReply)
    → All IsPair m
    → add_pairs (split b';' (print_pairs m)) sr ≡ with_values m sr
unfolding add_pairs split
add_pairs_printed [] sr h = unfold cut_at add_pair cut_once in refl
add_pairs_printed ((k, v) ∷ m) sr (hp, h) = rw (cut_at_pair k v (print_pairs m) hp.0 hp.1) (
    ap (add_pairs (split b';' (print_pairs m))) (add_pair_printed k v sr hp.0)
    ∙ add_pairs_printed m _ h)

-- Whether what two digits are read as is the signal `b`.
abbrev is_signal : ℕ → Option ℤ → Bool
is_signal b (some (pos n)) = n == b
is_signal b _ = false

is_signal_sound : (b : ℕ) (o : Option ℤ) → is_signal b o ≡ true → o ≡ some (pos b)
is_signal_sound b none h = cc
is_signal_sound b (some (pos n)) h = ap (λ x. some (pos x)) ((==_iff n b).0 h)
is_signal_sound b (some (negsuc n)) h = cc

signal_table : passes_below (λ b. is_signal b (parse_signal (hex_byte b))) 256 ≡ true
unfolding passes_below parse_signal negated plain number_of parse_hex hex_from hex_value hex_byte
    hex_digit
signal_table = refl

parse_signal-hex_byte : (b : ℕ) → IsByte b → parse_signal (hex_byte b) ≡ some (pos b)
parse_signal-hex_byte b h = is_signal_sound b _ (passes_below_at _ 256 h signal_table)

with_signal-print_stop :
    (signal : ℕ) (m : Values) (sr : StopReply)
    → IsByte signal
    → with_signal (print_stop signal m) sr ≡ record sr { signal = pos signal }
unfolding with_signal hex_byte
with_signal-print_stop signal m sr h =
    let long : 3 ≤ length (print_stop signal m) = omega arith in
    rw (parse_signal-hex_byte signal h, with_signal) (rw (le→leb 3 _ long))

-- parseStop reads back a T packet: its signal, a byte, and its pairs in order, a later value of a
-- key in place of an earlier one, and the value of `thread` as the thread; for keys that hold no
-- separator and values that hold no `;`.
pub parse_stop-print_stop :
    (signal : ℕ) (m : Values)
    → IsByte signal
    → All IsPair m
    → parse_stop (print_stop signal m)
      ≡ some (
          with_values m
            (record { signal = pos signal; thread = []; values = []; raw = print_stop signal m }))
unfolding parse_stop with_pairs hex_byte
parse_stop-print_stop signal m h hm =
    let long : 3 ≤ length (print_stop signal m) = omega arith in
    rw (with_signal-print_stop signal m (empty_stop (print_stop signal m)) h) (
      rw (
        add_pairs_printed m
            (record { signal = pos signal; thread = []; values = []; raw = print_stop signal m })
            hm,
        le→leb 3 _ long,
      ))
