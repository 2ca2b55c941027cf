-- ===== src/Qnxdbg/Decode/Requests.antt =====
-- The analysis of frames reads what the client sends.
use qnx8_qconn_mcp.Prelude.{
  ℕ, ◌-◌, ◌^◌, ◌<◌, ◌≤◌, le→leb, ◌≡◌, false, append-nil, [], ◌++◌, Bytes, length, codes, to_decimal,
  arith,
}
use qnx8_qconn_mcp.Qnxdbg.Client.Codec.{u16-le16, u64-le64}
use qnx8_qconn_mcp.Qnxdbg.Memory.{memrd_body, memwr_body, cmd_memrd, cmd_memwr}
use qnx8_qconn_mcp.Qnxdbg.Decode.{hex_prefixed, memory_text, request_text, decode_body}

decode_body-memrd_body :
    (addr size : ℕ)
    → addr < 2 ^ 64
    → size < 2 ^ 16
    → decode_body cmd_memrd false (memrd_body addr size)
      ≡ codes "addr=" ++ (hex_prefixed addr ++ (codes " size=" ++ to_decimal size))
unfolding decode_body request_text memory_text
decode_body-memrd_body addr size ha hs =
    rw (u64-le64 addr [] ha, u16-le16 size [] hs, append-nil (to_decimal size))

decode_body-memwr_body :
    (addr : ℕ) (bytes : Bytes)
    → addr < 2 ^ 64
    → decode_body cmd_memwr false (memwr_body addr bytes)
      ≡ codes "addr=" ++ (hex_prefixed addr ++ (codes " datalen=" ++ to_decimal (length bytes)))
unfolding decode_body request_text memory_text
decode_body-memwr_body addr bytes ha =
    let size : length (memwr_body addr bytes) - 12 ≡ length bytes = omega arith in
    let long : 12 ≤ length (memwr_body addr bytes) = omega arith in
    rw (le→leb 12 _ long, u64-le64 addr [] ha, size)

-- decodeBody shows the address and the size of the reads that ReadMemory asks for, and the address
-- and the length of the writes of WriteMemory; for an address of 64 and a size of 16 bits.
decode_body-memory :
    (addr size : ℕ) (bytes : Bytes)
    → addr < 2 ^ 64
    → size < 2 ^ 16
    → (decode_body cmd_memrd false (memrd_body addr size)
        ≡ codes "addr=" ++ (hex_prefixed addr ++ (codes " size=" ++ to_decimal size)))
      × (decode_body cmd_memwr false (memwr_body addr bytes)
          ≡ codes "addr="
            ++ (hex_prefixed addr ++ (codes " datalen=" ++ to_decimal (length bytes))))
decode_body-memory addr size bytes ha hs =
    (decode_body-memrd_body addr size ha hs, decode_body-memwr_body addr bytes ha)
