-- ===== src/Qconn/Transfer.antt =====
-- internal/qconn/file.go: the calls of the file service, on whole files and directories.
use Prim.Native.Nat.{bit_or}
use qnx8_qconn_mcp.Prelude.{
  ℕ, zero, suc, ◌+◌, ◌-◌, ◌%◌, ◌^◌, Bool, false, ◌&&◌, [], ◌∷◌, ◌++◌, Bytes, ◌==◌, ltb, leb,
  if◌then◌else◌, length, take, drop, codes, ℤ, pos, negsuc, hex_int64, Outcome, ok, err, ◌>>=◌,
  ◌>>◌,
}
use qnx8_qconn_mcp.Qconn.Noise.{first_line, trim_space}
use qnx8_qconn_mcp.Qconn.Frame.{Error, refused, spent, delete_op, chmod_op, proto_err}
use qnx8_qconn_mcp.Qconn.Client.{Client, C, on_frame, raw, ensure, file}
use qnx8_qconn_mcp.Qconn.File.{
  o_rdonly, o_wronly, o_rdwr, o_creat, o_trunc, s_ifdir, mode_rw_all, mode_dir, max_read_chunk,
  read_chunk, write_end, FileHandle, hex_of, in_quotes, open_file, expect_ok, close_file, read_at,
  write_at, deferring,
}

-- An error comes with the bytes read, or with the number of bytes written.
abbrev pub ReadResult : Type 0 → Type 0
ReadResult P = Outcome (Bytes × Error) (Client P) Bytes

abbrev pub WriteResult : Type 0 → Type 0
WriteResult P = Outcome (ℕ × Error) (Client P) ℕ

-- `h.size > 0 && off >= h.size`
abbrev pub is_end : ℤ → ℕ → Bool
is_end (pos n) off = ltb 0 n && leb n off
is_end (negsuc n) off = false

module _ {P : Type 0} where
  -- The service, and a handle of the path.
  unfoldable pub open_in : Bytes → ℕ → ℕ → C P FileHandle
  open_in path flags mode = ensure file >> open_file path flags mode

  unfoldable pub stat : Bytes → C P (ℤ × ℤ)
  stat path c = elim (open_in path o_rdonly 0 c) [
    | err e c' ↦ err e c'
    | ok h c' ↦ deferring (h.fd) (ok (h.mode, h.size) c')
  ]

  -- The loop of `ReadFile`, by the rounds left.
  unfoldable pub read_rounds : ℕ → FileHandle → ℕ → Bytes → Client P → ReadResult P
  read_rounds zero h off out c = err (out, spent) c
  read_rounds (suc k) h off out c = elim (on_frame (read_at h.fd off max_read_chunk) c) [
    | err e c' ↦ err (out, e) c'
    | ok chunk c' ↦
        let out' = out ++ chunk in
        let off' = off + length chunk in
        let more = read_rounds k h off' out' c' in
        if length chunk == 0 then ok out c' else if is_end h.size off' then ok out' c' else more
  ]

  unfoldable pub read_file : Bytes → Client P → ReadResult P
  read_file path c = elim (open_in path o_rdonly 0 c) [
    | err e c' ↦ err ([], e) c'
    | ok h c' ↦ deferring (h.fd) (read_rounds (c'.fc.rounds) h 0 [] c')
  ]

  -- The loop of `ReadFileRange` on fuel. A round that goes on has read one byte at least.
  unfoldable pub range_rounds : ℕ → ℤ → ℕ → ℕ → Bytes → Client P → ReadResult P
  range_rounds zero fd off n out c = err (out, spent) c
  range_rounds (suc k) fd off n out c =
      let at = (off + length out) % 2 ^ 64 in
      let next : ReadResult P = elim (on_frame (read_at fd at (read_chunk (n - length out))) c) [
        | err e c' ↦ err (out, e) c'
        | ok chunk c' ↦
            let more = range_rounds k fd off n (out ++ chunk) c' in
            if length chunk == 0 then ok out c' else more
      ] in
      if ltb (length out) n then next else ok out c

  -- A negative `n` reads nothing, as 0 does.
  unfoldable pub read_file_range : Bytes → ℕ → ℕ → Client P → ReadResult P
  read_file_range path off n c = elim (open_in path o_rdonly 0 c) [
    | err e c' ↦ err ([], e) c'
    | ok h c' ↦ deferring (h.fd) (range_rounds (suc n) h.fd off n [] c')
  ]

  -- The loop of `WriteFile` and `WriteFileAt` on fuel; a round that goes on adds one at least.
  unfoldable pub write_rounds : ℕ → ℤ → ℕ → Bytes → ℕ → Client P → WriteResult P
  write_rounds zero fd off bytes total c = err (total, spent) c
  write_rounds (suc k) fd off bytes total c =
      let part = take (write_end total (length bytes) - total) (drop total bytes) in
      let round = on_frame (write_at fd ((off + total) % 2 ^ 64) part) c in
      let next : WriteResult P = elim round [
        | err e c' ↦ err (total, e) c'
        | ok z c' ↦ elim z [
          | negsuc m ↦ ok total c'
          | pos nw ↦
              let more = write_rounds k fd off bytes (total + nw) c' in
              if ltb 0 nw then more else ok total c'
        ]
      ] in
      if ltb total (length bytes) then next else ok total c

  unfoldable pub write_opened : Bytes → ℕ → ℕ → ℕ → Bytes → Client P → WriteResult P
  write_opened path flags mode off bytes c = elim (open_in path flags mode c) [
    | err e c' ↦ err (0, e) c'
    | ok h c' ↦ deferring (h.fd) (write_rounds (suc (length bytes)) h.fd off bytes 0 c')
  ]

  unfoldable pub write_file : Bytes → Bytes → ℕ → Client P → WriteResult P
  write_file path bytes mode =
      let mode' = if mode == 0 then mode_rw_all else mode in
      write_opened path (o_creat + o_trunc + o_wronly) mode' 0 bytes

  unfoldable pub write_file_at : Bytes → ℕ → Bytes → Client P → WriteResult P
  write_file_at path off bytes = write_opened path o_rdwr 0 off bytes

  unfoldable pub delete : Bytes → C P (Unit {0})
  delete path = do
    ensure file
    resp ← raw (codes "d:" ++ (in_quotes path ++ codes ":1"))
    expect_ok (refused delete_op (trim_space (first_line resp))) resp

  unfoldable pub mkdir : Bytes → ℕ → C P (Unit {0})
  mkdir path mode = do
    let mode' = if mode == 0 then mode_dir else mode
    h ← open_in path (o_creat + o_wronly) (bit_or s_ifdir mode')
    close_file h.fd

  abbrev chmod_handle : ℤ → ℕ → C P (Unit {0})
  chmod_handle fd mode = do
    resp ← raw (codes "a:" ++ (hex_of fd ++ b':' ∷ hex_int64 mode))
    expect_ok (proto_err chmod_op resp) resp

  unfoldable pub chmod : Bytes → ℕ → C P (Unit {0})
  chmod path mode c = elim (open_in path o_rdonly 0 c) [
    | err e c' ↦ err e c'
    | ok h c' ↦ deferring (h.fd) (chmod_handle h.fd mode c')
  ]
