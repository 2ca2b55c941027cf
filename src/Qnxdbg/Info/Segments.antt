-- ===== src/Qnxdbg/Info/Segments.antt =====
-- What `ParseMapInfo` finds in the entries of a map reply.
use qnx8_qconn_mcp.Prelude.{
  ℕ, ◌*◌, ◌/◌, ◌%◌, ◌^◌, ◌≤◌, ◌<◌, ◌≡◌, ◌≢◌, ◌⊎◌, inl, inr, Bool, true, false, refl, sym, ◌∙◌, List,
  [], ◌∷◌, ◌++◌, append_assoc, Bytes, if◌then◌else◌, length, length-append, drop, drop-append, All,
  u64, arith,
}
use qnx8_qconn_mcp.Qnxdbg.Client.{le64}
use qnx8_qconn_mcp.Qnxdbg.Client.Codec.{u64-le64}
use qnx8_qconn_mcp.Qnxdbg.Info.{MapSegment, plausible, parse_entries, parse_map_info}

-- An entry as the target sends it: eight bytes of its own, the address and the size. The mark says
-- whether it is a mapped segment.
pub record Entry : Type 0 where
  pub mapped : Bool
  pub own : Bytes
  pub segment : MapSegment

abbrev pub entry_bytes : Entry → Bytes
entry_bytes e = e.own ++ (le64 e.segment.vaddr ++ le64 e.segment.size)

abbrev pub entries_bytes : List Entry → Bytes
entries_bytes [] = []
entries_bytes (e ∷ es) = entry_bytes e ++ entries_bytes es

-- A segment that begins at a page, not at address 0, and is neither empty nor of a terabyte or more.
abbrev pub IsMapped : MapSegment → Type 0
IsMapped g = (g.vaddr ≢ 0) × (g.vaddr % 4096 ≡ 0) × (0 < g.size) × (g.size < 1099511627776)

abbrev pub IsUnmapped : MapSegment → Type 0
IsUnmapped g = (g.vaddr ≡ 0) ⊎ ((g.vaddr % 4096 ≢ 0) ⊎ ((g.size ≡ 0) ⊎ (1099511627776 ≤ g.size)))

-- The mark is right.
abbrev pub IsMarked : Bool → MapSegment → Type 0
IsMarked true = IsMapped
IsMarked false = IsUnmapped

abbrev pub IsEntry : Entry → Type 0
IsEntry e =
    (length e.own ≡ 8)
    × (e.segment.vaddr < 2 ^ 64)
    × (e.segment.size < 2 ^ 64)
    × IsMarked e.mapped e.segment

-- The segments of the entries that are mapped.
abbrev pub mapped_segments : List Entry → List MapSegment
mapped_segments [] = []
mapped_segments (e ∷ es) =
    let later = mapped_segments es in if e.mapped then e.segment ∷ later else later

plausible-IsMarked :
    (mark : Bool) (g : MapSegment) → IsMarked mark g → plausible g.vaddr g.size ≡ mark
unfolding plausible
plausible-IsMarked true g h = ground arith
plausible-IsMarked false g (inl h) = ground arith
plausible-IsMarked false g (inr (inl h)) = ground arith
plausible-IsMarked false g (inr (inr (inl h))) = ground arith
plausible-IsMarked false g (inr (inr (inr h))) = ground arith

-- What stands behind a part of known length.
behind : (n : ℕ) (a r : Bytes) → length a ≡ n → drop n (a ++ r) ≡ r
behind n a r h = rw (sym h) (drop-append a r)

entry-length : (e : Entry) → IsEntry e → length (entry_bytes e) ≡ 24
entry-length e h =
    omega (arith, length-append e.own (le64 e.segment.vaddr ++ le64 e.segment.size), h.0)

read_vaddr :
    (e : Entry) (r : Bytes) → IsEntry e → u64 (drop 8 (entry_bytes e ++ r)) ≡ e.segment.vaddr
read_vaddr e r h =
    let later = le64 e.segment.vaddr ++ le64 e.segment.size in
    rw (append_assoc e.own later r, behind 8 e.own (later ++ r) h.0)
      (u64-le64 e.segment.vaddr (le64 e.segment.size ++ r) h.1)

read_size :
    (e : Entry) (r : Bytes) → IsEntry e → u64 (drop 16 (entry_bytes e ++ r)) ≡ e.segment.size
read_size e r h =
    let front = e.own ++ le64 e.segment.vaddr in
    let later = le64 e.segment.size ++ r in
    let long : length front ≡ 16 = omega (arith, length-append e.own (le64 e.segment.vaddr), h.0) in
    let shape : entry_bytes e ++ r ≡ front ++ later =
      append_assoc e.own (le64 e.segment.vaddr ++ le64 e.segment.size) r
      ∙ sym (append_assoc e.own (le64 e.segment.vaddr) later) in
    rw (shape, behind 16 front later long) (u64-le64 e.segment.size r h.2)

parse_entries-entries_bytes :
    (es : List Entry) (tail : Bytes)
    → All IsEntry es
    → parse_entries (length es) (entries_bytes es ++ tail) ≡ mapped_segments es
unfolding parse_entries
parse_entries-entries_bytes [] tail h = refl
parse_entries-entries_bytes (e ∷ es) tail h =
    let r = entries_bytes es ++ tail in
    rw (
      append_assoc (entry_bytes e) (entries_bytes es) tail,
      read_vaddr e r h.0,
      read_size e r h.0,
      behind 24 (entry_bytes e) r (entry-length e h.0),
      plausible-IsMarked e.mapped e.segment h.0.3,
      parse_entries-entries_bytes es tail h.1,
    )

entries-length : (es : List Entry) → All IsEntry es → length (entries_bytes es) ≡ 24 * length es
entries-length [] h = refl
entries-length (e ∷ es) h = omega (
  arith,
  length-append (entry_bytes e) (entries_bytes es),
  entry-length e h.0,
  entries-length es h.1,
)

-- Of a map reply in entries of 24 bytes, ParseMapInfo returns the segments that begin at a page of 4096
-- bytes, not at address 0, and have a size of one byte at least and less than a terabyte, in order; it
-- passes over all others, and over less than a whole entry at the end.
pub parse_map_info-entries_bytes :
    (es : List Entry) (tail : Bytes)
    → All IsEntry es
    → length tail < 24
    → parse_map_info (entries_bytes es ++ tail) ≡ mapped_segments es
unfolding parse_map_info
parse_map_info-entries_bytes es tail h short =
    let count : length (entries_bytes es ++ tail) / 24 ≡ length es =
      omega (arith, length-append (entries_bytes es) tail, entries-length es h) in
    rw count (parse_entries-entries_bytes es tail h)
