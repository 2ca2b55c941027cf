-- ===== src/Mcpserver/Tools/Files.antt =====
-- The file tools against the mock of qconn: content that goes out as base64 and comes back so.
use qnx8_qconn_mcp.Prelude.{
  ℕ, ◌+◌, ◌*◌, ◌^◌, ◌≤◌, ◌<◌, ◌≡◌, ◌≢◌, refl, ap, ◌∙◌, some, [], ◌∷◌, ◌++◌, Bytes, AreBytes, length,
  length-drop, drop, append-nil, ok, arith,
}
use qnx8_qconn_mcp.Qconn.Client.{Client, file}
use qnx8_qconn_mcp.Qconn.Transfer.{read_file, write_file}
use qnx8_qconn_mcp.Mcpserver.Base64.{encode, decode, decode-encode}
use qnx8_qconn_mcp.Mcpserver.Debug.{map_ok}
use qnx8_qconn_mcp.Mcpserver.Target.{Target, on_target, keep}
use qnx8_qconn_mcp.Mcpserver.Target.Keeps.{on_target-connected}
use qnx8_qconn_mcp.Mcpserver.Tools.{
  ReadFileOut, read_file_out, content_of, without_part, qconn_read_file, qconn_write_file,
}
use qnx8_qconn_mcp.Mockqnx.Qconn.{Session, contents}
use qnx8_qconn_mcp.Mockqnx.Qconn.Serve.{Daemon}
use qnx8_qconn_mcp.Mockqnx.Qconn.Calls.{IsClient}
use qnx8_qconn_mcp.Mockqnx.Qconn.Opened.{IsPlainFile}
use qnx8_qconn_mcp.Mockqnx.Qconn.RoundTrips.{read_file-write_file}

-- The content of a call that gives base64.
content_of-encode :
    (bytes text : Bytes) → AreBytes bytes → bytes ≢ [] → content_of (encode bytes) text ≡ some bytes
unfolding content_of encode
content_of-encode [] text h some_ = absurd (some_ refl)
content_of-encode (x ∷ []) text h some_ = decode-encode (x ∷ []) h
content_of-encode (x ∷ (y ∷ [])) text h some_ = decode-encode (x ∷ y ∷ []) h
content_of-encode (x ∷ (y ∷ (z ∷ s))) text h some_ = decode-encode (x ∷ y ∷ z ∷ s) h

-- Bytes that have no length are none.
empty : (s : Bytes) → length s ≡ 0 → s ≡ []
empty [] e = refl
empty (c ∷ s) e = absurd (omega arith)

drop-all : (n : ℕ) (s : Bytes) → length s ≤ n → drop n s ≡ []
drop-all n s h = let e = length-drop n s in empty (drop n s) (omega arith)

written :
    (mode : ℕ) (path bytes text : Bytes) (c c' : Client Daemon) (t : Target Daemon)
    → t.conn ≡ some c
    → AreBytes bytes
    → bytes ≢ []
    → write_file path bytes mode c ≡ ok (length bytes) c'
    → qconn_write_file path (encode bytes) text mode t ≡ ok (length bytes) (keep c' t)
unfolding qconn_write_file
written mode path bytes text c c' t e h some_ wrote =
    rw (content_of-encode bytes text h some_, qconn_write_file)
      (on_target-connected without_part (write_file path bytes mode) c t e ∙ rw wrote refl)

shown_back :
    (path bytes : Bytes) (c c' : Client Daemon) (t : Target Daemon)
    → t.conn ≡ some c
    → read_file path c ≡ ok bytes c'
    → qconn_read_file path t ≡ ok (read_file_out bytes) (keep c' t)
unfolding qconn_read_file
shown_back path bytes c c' t e read =
    let result : on_target without_part (read_file path) t ≡ ok bytes (keep c' t) =
      on_target-connected without_part (read_file path) c t e ∙ rw read refl in
    ap (map_ok read_file_out) result

-- Against the mock, content that is not empty and that qconn_write_file is given as base64 is
-- written, whatever text is given beside it, and qconn_read_file then shows its base64 and its size, if
-- the file held no more bytes before; for a server whose client is in the file service, a path outside
-- /proc/ that is not empty and holds no quote, line feed, byte 255 or <, a mode, file numbers and sizes
-- below 2^63, and a connection whose loops may take 128 rounds more than the path has bytes, and
-- more than twice as many as the content has.
pub qconn_read_file-qconn_write_file :
    (n mode : ℕ) (path bytes text : Bytes) (s : Session) (cl : Client Daemon) (t : Target Daemon)
    → t.conn ≡ some cl
    → IsPlainFile n path s
    → IsClient n file s cl
    → AreBytes bytes
    → bytes ≢ []
    → length (contents path s) ≤ length bytes
    → mode < 2 ^ 63
    → s.nfd + 4 < 2 ^ 63
    → 2 * length bytes + 2048 < 2 ^ 63
    → 2 * length bytes < n
    → (t1 : Target Daemon) × (t2 : Target Daemon) × (out : ReadFileOut) × (qconn_write_file path
          (encode bytes)
          text
          mode
          t
        ≡ ok (length bytes) t1)
      × (qconn_read_file path t1 ≡ ok out t2)
      × (out.size ≡ length bytes)
      × (decode out.base64 ≡ some bytes)
qconn_read_file-qconn_write_file n mode path bytes text s cl t e p h are some_ short hm more small
      enough =
    let (w, r) =
      read_file-write_file n mode path bytes s cl p h hm more (omega arith) (omega arith) in
    let none_left =
      ap (◌++◌ bytes) (drop-all (length bytes) (contents path s) short) ∙ append-nil bytes in
    let read = r.returned ∙ ap (λ b. ok b r.left) none_left in
    (
      keep w.call.left t,
      keep r.left t,
      read_file_out bytes,
      written mode path bytes text cl w.call.left t e are some_ w.call.returned,
      shown_back path bytes w.call.left r.left (keep w.call.left t) refl read,
      unfold read_file_out in refl,
      unfold read_file_out in decode-encode bytes are,
    )
