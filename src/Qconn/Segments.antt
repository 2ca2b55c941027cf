-- ===== src/Qconn/Segments.antt =====
-- internal/qconn/proc.go: `parseMapSegments`, on ASCII text.
use qnx8_qconn_mcp.Prelude.{
  ℕ, ◌-◌, true, false, List, [], ◌∷◌, ◌++◌, Option, none, some, Bytes, leb, if◌then◌else◌, drop,
  codes, has_prefix, Parsed, number,
}
use qnx8_qconn_mcp.Qconn.Noise.{split_lines, fields}
use qnx8_qconn_mcp.Qconn.Proc.{parse_hex_addr, split_hex_range}
use qnx8_qconn_mcp.Qconn.Sysinfo.{join}

pub record MapSegment : Type 0 where
  pub start : ℕ
  pub end_ : ℕ
  pub size : ℕ
  pub flags : Bytes
  pub object : Bytes

-- A segment at a base address: the object is the first field, if the address is not the first.
abbrev based : Parsed → List Bytes → List Bytes → Option MapSegment
based (number addr) before after = some (record {
  start = addr;
  end_ = 0;
  size = 0;
  flags = join after;
  object = elim before [ [] ↦ [] | o ∷ os ↦ o ];
})
based _ before after = none

-- The first field with an `@`, whose address is read; only this one is tried.
unfoldable pub base_segment : List Bytes → List Bytes → Option MapSegment
base_segment before [] = none
base_segment before (tok ∷ after) = elim (has_prefix tok (codes "@")) [
  | true ↦ based (parse_hex_addr (drop 1 tok)) before after
  | false ↦ base_segment (before ++ tok ∷ []) after
]

unfoldable pub last_field : List Bytes → Bytes
last_field [] = []
last_field (f ∷ []) = f
last_field (f ∷ (g ∷ fs)) = last_field (g ∷ fs)

abbrev ranged : List Bytes → ℕ → ℕ → MapSegment
ranged f lo hi = record {
  start = lo;
  end_ = hi;
  size = if leb lo hi then hi - lo else 0;
  flags = [];
  object = if has_prefix (last_field f) (codes "/") then last_field f else [];
}

-- The first field that is a range.
unfoldable pub range_segment : List Bytes → List Bytes → Option MapSegment
range_segment f [] = none
range_segment f (tok ∷ toks) = elim (split_hex_range tok) [
  | none ↦ range_segment f toks
  | some (lo, hi) ↦ some (ranged f lo hi)
]

unfoldable pub line_segment : List Bytes → Option MapSegment
line_segment f = elim (base_segment [] f) [ some seg ↦ some seg | none ↦ range_segment f f ]

-- The loop of `parseMapSegments`.
unfoldable pub line_segments : List Bytes → List MapSegment
line_segments [] = []
line_segments (ln ∷ lns) = elim (line_segment (fields ln)) [
  | none ↦ line_segments lns
  | some seg ↦ seg ∷ line_segments lns
]

unfoldable pub parse_map_segments : Bytes → List MapSegment
parse_map_segments out = line_segments (split_lines out)
