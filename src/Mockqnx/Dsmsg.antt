-- ===== src/Mockqnx/Dsmsg.antt =====
-- internal/mockqnx/dsmsg.go: one mock pdebug connection. The loop of `ServeDSMSG` blocks in a read
-- until a whole frame is there; here the server is called with the bytes of one write, answers
-- every frame that is complete by then, and keeps the rest in its buffer.
pub mod Interop
pub mod Memory
use qnx8_qconn_mcp.Prelude.{
  ℕ, zero, suc, ◌+◌, ◌-◌, ◌/◌, ◌%◌, ◌^◌, bit_xor, ◌||◌, Bool, true, false, List, [], ◌∷◌, ◌++◌,
  Option, none, some, Bytes, codes, ◌==◌, ltb, leb, if◌then◌else◌, length, drop, replicate, u16,
  u32, u64,
}

abbrev pub fc : ℕ
fc = 0x7e

unfoldable pub cksum_from : ℕ → Bytes → ℕ
cksum_from s [] = s
cksum_from s (c ∷ b) = cksum_from ((s + c) % 256) b

unfoldable pub cksum : Bytes → ℕ
cksum b = 0xff - cksum_from 0 b

unfoldable pub esc : Bytes → Bytes
esc [] = []
esc (c ∷ b) = (if c == 0x7e || c == 0x7d then 0x7d ∷ bit_xor c 0x20 ∷ [] else c ∷ []) ++ esc b

-- What `writeFrame` writes.
unfoldable pub written : Bytes → Bytes
written payload = fc ∷ (esc payload ++ (esc (cksum payload ∷ []) ++ fc ∷ []))

unfoldable pub unesc : Bytes → Bytes
unesc [] = []
unesc (c ∷ []) = c ∷ []
unesc (c ∷ (d ∷ b)) = elim (c == 0x7d) [
  | true ↦ bit_xor d 0x20 ∷ unesc b
  | false ↦ c ∷ unesc (d ∷ b)
]

-- The loops of `readFrame`: the first byte that is no delimiter, then those up to the next one.
unfoldable pub first_byte : Bytes → Option (ℕ × Bytes)
first_byte [] = none
first_byte (b ∷ r) = if b == fc then first_byte r else some (b, r)

unfoldable pub to_delim : Bytes → Bytes → Option (Bytes × Bytes)
to_delim content [] = none
to_delim content (b ∷ r) =
    let more = to_delim (content ++ b ∷ []) r in if b == fc then some (content, r) else more

-- `out[:len(out)-1]`
unfoldable pub all_but_last : Bytes → Bytes
all_but_last [] = []
all_but_last (c ∷ []) = []
all_but_last (c ∷ (d ∷ b)) = c ∷ all_but_last (d ∷ b)

-- The payload of the next whole frame, and what follows it.
unfoldable pub next_frame : Bytes → Option (Bytes × Bytes)
next_frame input = elim (first_byte input) [
  | none ↦ none
  | some (first, r) ↦ elim (to_delim (first ∷ []) r) [
    | none ↦ none
    | some (content, rest) ↦ some (all_but_last (unesc content), rest)
  ]
]

pub record Server : Type 0 where
  pub buffer : Bytes
  pub attached_pid : ℕ
  pub brk_addr : ℕ

abbrev pub initial : Server
initial = record { buffer = []; attached_pid = 0x1000; brk_addr = 0 }

abbrev pub append_le32 : ℕ → Bytes
append_le32 v = v % 256 ∷ v / 2 ^ 8 % 256 ∷ v / 2 ^ 16 % 256 ∷ v / 2 ^ 24 % 256 ∷ []

abbrev pub append_le64 : ℕ → Bytes
append_le64 v =
    v % 256
    ∷ v / 2 ^ 8 % 256
    ∷ v / 2 ^ 16 % 256
    ∷ v / 2 ^ 24 % 256
    ∷ v / 2 ^ 32 % 256
    ∷ v / 2 ^ 40 % 256
    ∷ v / 2 ^ 48 % 256
    ∷ v / 2 ^ 56 % 256
    ∷ []

abbrev pub reply : ℕ → ℕ → Bytes → Bytes
reply code mid body = written (code ∷ 0x00 ∷ mid ∷ 0x01 ∷ body)

-- `data[i] = byte((addr + uint64(i)) & 0xff)`
unfoldable pub synthetic : ℕ → ℕ → Bytes
synthetic addr zero = []
synthetic addr (suc n) = addr % 256 ∷ synthetic (addr + 1) n

-- Case 9: the body is spare0[4] addr[8] size[2] spare[6].
unfoldable pub memrd : Bytes → Bytes
memrd body = if leb 14 (length body) then synthetic (u64 (drop 4 body)) (u16 (drop 12 body)) else []

-- `int32(size) < 0`
abbrev pub removes : Bytes → Bool
removes body = leb (2 ^ 31) (u32 body)

-- Case 14: the body is size:int32 addr:uint64.
unfoldable pub brk : Bytes → Server → Server
brk body s =
    if leb 12 (length body)
    then record s { brk_addr = if removes body then 0 else u64 (drop 4 body) }
    else s

-- Case 5.
unfoldable pub attach : Bytes → Server → Server
attach body s = if leb 4 (length body) then record s { attached_pid = u32 body } else s

-- Case 11: 0x110 bytes of registers, with pc at 0x100.
abbrev pub registers : Bytes
registers = replicate 0x100 0 ++ (append_le64 0x4000 ++ replicate 8 0)

-- Case 13: the notification that follows the reply.
unfoldable pub notification : ℕ → Server → Bytes
notification mid s = written (
    0x40
    ∷ 0x00
    ∷ mid
    ∷ 0x01
    ∷ (append_le32 s.attached_pid
        ++ (append_le32 1 ++ append_le64 (if s.brk_addr == 0 then 0x4000 else s.brk_addr))))

-- The cases of the switch in which the server stays as it is.
unfoldable pub answer : ℕ → ℕ → Bytes → Server → Bytes
answer cmd mid body s =
    if cmd == 0
    then reply 0x22 mid (0x20 ∷ 0x04 ∷ 0x00 ∷ 0x00 ∷ [])
    else if cmd == 23
    then reply 0x22 mid (0x01 ∷ 0x03 ∷ 0x00 ∷ 0x00 ∷ [])
    else if cmd == 27
    then reply 0x23 mid (
        append_le32 s.attached_pid
        ++ (append_le32 0 ++ (append_le64 0x400000 ++ append_le64 0x1000)))
    else if cmd == 11
    then reply 0x23 mid registers
    else if cmd == 9
    then reply 0x23 mid (memrd body)
    else if cmd == 13
    then reply 0x21 mid [] ++ notification mid s
    else if cmd == 24 || cmd == 21 || cmd == 2 || cmd == 12 || cmd == 10 || cmd == 6 || cmd == 8
    then reply 0x21 mid []
    else reply 0x20 mid (0x16 ∷ 0 ∷ 0 ∷ 0 ∷ [])

-- The switch: `cmd`, `mid` and the body behind the header.
unfoldable pub dispatch : ℕ → ℕ → Bytes → Server → Server × Bytes
dispatch cmd mid body s =
    if cmd == 4
    then (
      record s { attached_pid = 0x2000 },
      reply 0x23 mid (append_le32 0x2000 ++ (append_le32 1 ++ codes "mockproc")),
    )
    else if cmd == 5
    then (attach body s, reply 0x23 mid (replicate 8 0 ++ codes "mockproc"))
    else if cmd == 14
    then (brk body s, reply 0x21 mid [])
    else (s, answer cmd mid body s)

-- A payload below four bytes is a control or echo frame.
unfoldable pub handle : Bytes → Server → Server × Bytes
handle (cmd ∷ (sub ∷ (mid ∷ (ch ∷ body)))) s = dispatch cmd mid body s
handle _ s = (s, [])

-- The frames of the buffer, one after the other, on fuel; each takes two bytes at least.
unfoldable pub serve : ℕ → Server → Server × Bytes
serve zero s = (s, [])
serve (suc n) s = elim (next_frame s.buffer) [
  | none ↦ (s, [])
  | some (payload, rest) ↦
      let (s', out) = handle payload (record s { buffer = rest }) in
      let (s'', more) = serve n s' in (s'', out ++ more)
]

unfoldable pub react : Server → Bytes → Server × Bytes
react s bytes =
    let buffer = s.buffer ++ bytes in serve (length buffer) (record s { buffer = buffer })
