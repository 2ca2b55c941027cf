-- ===== src/Qnxdbg/Scanner.antt =====
-- internal/qnxdbg/decode.go: `FrameScanner`.
pub mod Scan
pub mod Chunks
use qnx8_qconn_mcp.Prelude.{
  ℕ, zero, suc, ◌-◌, Bool, true, false, List, [], ◌∷◌, ◌++◌, Option, none, some, Bytes, ◌==◌, leb,
  if◌then◌else◌, length, take,
}
use qnx8_qconn_mcp.Qnxdbg.Protocol.{frame_char, unescape}

-- What one call of `Feed` returns, with the buffer that it leaves.
pub record Fed : Type 0 where
  pub buf : Bytes
  pub payloads : List Bytes
  pub raws : List Bytes

-- `for i < len(s.buf) && s.buf[i] == frameChar { i++ }`
unfoldable pub drop_delims : Bytes → Bytes
drop_delims [] = []
drop_delims (c ∷ s) = if c == frame_char then drop_delims s else c ∷ s

-- The content up to the closing delimiter, and what stands from that delimiter on.
unfoldable pub to_close : Bytes → Option (Bytes × Bytes)
to_close [] = none
to_close (c ∷ s) = elim (c == frame_char) [
  | true ↦ some ([], c ∷ s)
  | false ↦ elim (to_close s) [ none ↦ none | some (content, r) ↦ some (c ∷ content, r) ]
]

-- One frame in front of what the later rounds find: its payload without the last byte, unverified.
unfoldable pub add_frame : Bytes → Fed → Fed
add_frame content f =
    let dec = unescape content in
    if leb 1 (length dec)
    then record f {
      payloads = take (length dec - 1) dec ∷ f.payloads;
      raws = (frame_char ∷ (content ++ frame_char ∷ [])) ∷ f.raws;
    }
    else f

-- The loop of `Feed` on fuel; each round that goes on takes one byte of content at least.
unfoldable pub extract : ℕ → Bytes → Fed
extract zero buf = record { buf = buf; payloads = []; raws = [] }
extract (suc fuel) buf = elim (drop_delims buf) [
  | [] ↦ record { buf = []; payloads = []; raws = [] }
  | c ∷ s ↦ elim (to_close (c ∷ s)) [
    | none ↦ record { buf = c ∷ s; payloads = []; raws = [] }
    | some (content, r) ↦ add_frame content (extract fuel r)
  ]
]

unfoldable pub feed : Bytes → Bytes → Fed
feed buf bytes = extract (suc (length (buf ++ bytes))) (buf ++ bytes)
