-- ===== src/Qnxdbg/Decode.antt =====
-- internal/qnxdbg/decode.go: frame payloads as text.
pub mod Requests
use qnx8_qconn_mcp.Prelude.{
  ℕ, zero, suc, ◌+◌, ◌-◌, ◌/◌, ◌%◌, ◌^◌, Bool, true, false, not, ◌||◌, List, [], ◌∷◌, ◌++◌, Option,
  none, some, Bytes, ◌==◌, ltb, leb, if◌then◌else◌, length, take, drop, codes, ℤ, pos, negsuc, u16,
  u32, u64, hex_digit, to_hex, to_decimal, to_hex_number, signed,
}

-- A map from codes to names, as a list.
abbrev pub Names : Type 0
Names = List (ℕ × Bytes)

abbrev pub cmd_names : Names
cmd_names =
    (0, codes "Connect")
    ∷ (1, codes "Disconnect")
    ∷ (2, codes "Select")
    ∷ (3, codes "Mapinfo")
    ∷ (4, codes "Load")
    ∷ (5, codes "Attach")
    ∷ (6, codes "Detach")
    ∷ (7, codes "Kill")
    ∷ (8, codes "Stop")
    ∷ (9, codes "Memrd")
    ∷ (10, codes "Memwr")
    ∷ (11, codes "Regrd")
    ∷ (12, codes "Regwr")
    ∷ (13, codes "Run")
    ∷ (14, codes "Brk")
    ∷ (15, codes "Fileopen")
    ∷ (16, codes "Filerd")
    ∷ (17, codes "Filewr")
    ∷ (18, codes "Fileclose")
    ∷ (19, codes "Pidlist")
    ∷ (20, codes "Cwd")
    ∷ (21, codes "Env")
    ∷ (22, codes "Base")
    ∷ (23, codes "Protover")
    ∷ (24, codes "Handlesig")
    ∷ (25, codes "CPUInfo")
    ∷ (26, codes "TIDNames")
    ∷ []

abbrev pub resp_names : Names
resp_names =
    (0x20, codes "ERR")
    ∷ (0x21, codes "OK")
    ∷ (0x22, codes "OKStatus")
    ∷ (0x23, codes "OKData")
    ∷ (0x40, codes "NOTIFY")
    ∷ []

-- The name of a code, and what stands for it where it has none.
unfoldable pub name_in : Names → Bytes → ℕ → Bytes
name_in [] unknown b = unknown
name_in ((c, n) ∷ names) unknown b =
    let later = name_in names unknown b in if c == b then n else later

-- `%02x` of a byte.
abbrev pub hex2 : ℕ → Bytes
hex2 b = hex_digit (b / 16) ∷ hex_digit (b % 16) ∷ []

unfoldable pub cmd_name : ℕ → Bytes
cmd_name b = name_in cmd_names (codes "cmd?0x" ++ hex2 b) b

-- `%#x`
abbrev pub hex_prefixed : ℕ → Bytes
hex_prefixed n = codes "0x" ++ to_hex_number n

-- `int32(v)`
abbrev pub int32 : ℕ → ℤ
int32 v = if ltb v (2 ^ 31) then pos v else negsuc (2 ^ 32 - 1 - v)

unfoldable pub brk_text : ℤ → ℕ → Bytes
brk_text size addr =
    let op : Bytes = elim size [ pos n ↦ codes "set" | negsuc n ↦ codes "remove" ] in
    codes "BRK "
    ++ (op ++ (codes " addr=" ++ (hex_prefixed addr ++ (codes " size=" ++ signed to_decimal size))))

unfoldable pub memory_text : ℕ → Bytes → Bytes
memory_text code b =
    codes "addr="
    ++ (hex_prefixed (u64 (drop 4 b))
        ++ ((if code == 9
              then (if leb 14 (length b)
                  then codes " size=" ++ to_decimal (u16 (drop 12 b))
                  else [])
              else [])
            ++ (if code == 10 then codes " datalen=" ++ to_decimal (length b - 12) else [])))

-- The switch of `decodeBody` on a command's code.
unfoldable pub request_text : ℕ → Bytes → Bytes
request_text code b =
    if code == 5 || code == 6 || code == 7
    then if leb 4 (length b) then codes "pid=" ++ to_decimal (u32 b) else []
    else if code == 2
    then if leb 8 (length b)
      then codes "pid=" ++ (to_decimal (u32 b) ++ (codes " tid=" ++ to_decimal (u32 (drop 4 b))))
      else []
    else if code == 9 || code == 10
    then if leb 12 (length b) then memory_text code b else []
    else if code == 11
    then if leb 4 (length b)
      then codes "off=" ++ (hex_prefixed (u16 b) ++ (codes " size=" ++ to_decimal (u16 (drop 2 b))))
      else []
    else if code == 12
    then if leb 2 (length b)
      then codes "off="
        ++ (hex_prefixed (u16 b) ++ (codes " datalen=" ++ to_decimal (length b - 2)))
      else []
    else if code == 14
    then if leb 12 (length b) then brk_text (int32 (u32 b)) (u64 (drop 4 b)) else codes "BRK"
    else []

unfoldable pub decode_body : ℕ → Bool → Bytes → Bytes
decode_body code is_resp b = if is_resp then [] else request_text code b

unfoldable pub annotate : Bytes → Bytes
annotate (code ∷ (sub ∷ (mid ∷ (ch ∷ body)))) =
    let is_resp = leb 0x20 code in
    let name =
      if is_resp
      then codes "<-" ++ name_in resp_names (codes "resp?0x" ++ hex2 code) code
      else codes "->" ++ cmd_name code in
    let text = decode_body code is_resp body in
    name
    ++ (codes " sub="
        ++ (to_decimal sub
            ++ (codes " mid="
                ++ (to_decimal mid
                    ++ (codes " ch="
                        ++ (to_decimal ch
                            ++ ((if length text == 0 then [] else codes "  " ++ text)
                                ++ (if length body == 0
                                    then []
                                    else codes "  body=" ++ to_hex body))))))))
annotate payload = codes "control/short " ++ to_hex payload

-- The bytes are cut to 256, and the mark of a cut stands behind them.
unfoldable pub hex_dump : Bytes → Bytes
hex_dump b = if ltb 256 (length b) then to_hex (take 256 b) ++ codes "..." else to_hex b
