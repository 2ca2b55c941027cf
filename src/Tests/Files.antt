-- ===== src/Tests/Files.antt =====
-- Witnesses for the qconn connection, its services and its files.
use qnx8_qconn_mcp.Prelude.{
  ◌+◌, ◌^◌, ◌<◌, ◌≤◌, All, ◌≡◌, refl, true, List, [], ◌∷◌, ◌++◌, Bytes, codes, length, has_prefix,
  to_hex_number, hex_digits_onto, hex_digit, pos, none, ok, arith, inl,
}
use qnx8_qconn_mcp.Wire.{eof}
use qnx8_qconn_mcp.Qconn.Telnet.{
  Piece, negotiation, subnegotiation, command, doo, dont, will, on_wire,
}
use qnx8_qconn_mcp.Qconn.Noise.{trim_left}
use qnx8_qconn_mcp.Qconn.Prompt.Find.{prompt_of}
use qnx8_qconn_mcp.Qconn.Client.{Client, broker, file, launcher, ensure}
use qnx8_qconn_mcp.Qconn.Client.Services.{EndsIn, ensure-EndsIn}
use qnx8_qconn_mcp.Qconn.Frame.{FrameConn, is_space, drop_buffered, read_until_prompt, read_byte}
use qnx8_qconn_mcp.Qconn.Frame.Response.{read_until_prompt_response}
use qnx8_qconn_mcp.Qconn.Frame.Lines.{IsLineByte, InSync, indented, read_until_prompt-InSync}
use qnx8_qconn_mcp.Qconn.Frame.Refusals.{ReadByte, refusals, read_byte_refuses}
use qnx8_qconn_mcp.Qconn.File.{read_command, read_chunk, read_at}
use qnx8_qconn_mcp.Qconn.File.Status.{status_line}
use qnx8_qconn_mcp.Qconn.File.Replies.{served, line_of, Replies, Answers, read_at_reads}

-- A connection with `input` to read, whose remote end answers every write by `reply`, and of whose
-- input one byte is buffered.
abbrev connection : Bytes → Bytes → FrameConn (Unit {0})
connection input reply = record {
  conn = record {
    react = λ s b. (s, reply);
    peer = tt;
    input = input;
    sent = [];
    faults = [];
    ending = eof;
  };
  telnet = true;
  buffered = λ sent waiting. 1;
  rounds = 200;
}

abbrev listing : Bytes
listing = codes "a>" ++ 13 ∷ 10 ∷ []

abbrev two_blanks : Bytes
two_blanks = codes "  "

read_until_prompt_response_example :
    read_until_prompt (connection (listing ++ (prompt_of file ++ two_blanks)) [])
    ≡ ok (trim_left is_space listing) (drop_buffered (connection two_blanks []))
unfolding has_prefix
read_until_prompt_response_example =
    read_until_prompt_response file listing two_blanks
      (connection (listing ++ (prompt_of file ++ two_blanks)) []) (omega arith)
      (refl, (refl, (refl, (refl, tt)))) (omega arith) refl

abbrev two_responses : Bytes
two_responses = listing ++ (prompt_of launcher ++ indented 2 (codes "o" ++ (prompt_of file ++ [])))

read_until_prompt-InSync_example : InSync listing (codes "o") (connection two_responses [])
unfolding has_prefix
read_until_prompt-InSync_example =
    read_until_prompt-InSync launcher file listing (codes "o") [] 2 (connection two_responses [])
      (omega arith) (refl, (refl, (refl, (refl, tt)))) (omega arith) (refl, tt) (omega arith)
      (omega arith) (omega arith) refl

-- Two requests that are refused, one that is acknowledged by silence, a subnegotiation, a command.
abbrev requests : List Piece
requests =
    negotiation doo 3
    ∷ negotiation will 1
    ∷ negotiation dont 34
    ∷ subnegotiation (31 ∷ 240 ∷ [])
    ∷ command 241
    ∷ []

abbrev negotiated : FrameConn (Unit {0})
negotiated = connection (on_wire requests ++ b'a' ∷ codes "bc") (codes "!")

read_byte_refuses_example :
    ReadByte b'a' (codes "bc") (refusals requests) negotiated (read_byte negotiated)
read_byte_refuses_example =
    read_byte_refuses requests b'a' (codes "bc") negotiated
      (omega arith, (omega arith, (omega arith, (omega arith, (inl (omega arith), tt)))))
      (omega arith) refl refl (omega arith) refl

-- A payload that looks like a command and a prompt.
abbrev hostile_payload : Bytes
hostile_payload = 255 ∷ 253 ∷ prompt_of broker

abbrev reading : FrameConn (Unit {0})
reading = connection (codes " ") (
    status_line (length hostile_payload) (codes "0:0" ++ 13 ∷ [])
    ++ 10 ∷ (hostile_payload ++ ([] ++ (prompt_of file ++ codes " "))))

abbrev read_tail : Bytes
read_tail = codes "0:0" ++ 13 ∷ []

read_tail-IsLineByte : All IsLineByte read_tail
read_tail-IsLineByte = omega arith

read_small : length hostile_payload < 2 ^ 63
read_small = omega arith

read_fits : 1 + length (status_line (length hostile_payload) read_tail) < 200
unfolding to_hex_number hex_digits_onto hex_digit
read_fits = omega arith

prompt_fits : 0 + length (prompt_of file) ≤ 200
prompt_fits = omega arith

abbrev read_reply :
    Replies
      (length hostile_payload)
      hostile_payload
      reading
      (Answers reading (read_command (pos 3) 0 (read_chunk 2048)))
read_reply = record {
  next = tt;
  svc = file;
  leaked = 1;
  tail = read_tail;
  gap = [];
  rest = codes " ";
  quiet = refl;
  no_faults = refl;
  answers = refl;
  tail_is = read_tail-IsLineByte;
  gap_is = tt;
  unprompted = tt;
  small = read_small;
  line_fits = read_fits;
  gap_fits = prompt_fits;
}

read_at_reads_example :
    read_at (pos 3) 0 2048 reading
    ≡ ok hostile_payload (
        drop_buffered
          (served tt (line_of (read_command (pos 3) 0 (read_chunk 2048)) ∷ []) (codes " ") reading))
read_at_reads_example = read_at_reads (pos 3) 0 2048 hostile_payload reading read_reply

abbrev brokered : Client (Unit {0})
brokered = record {
  fc = connection [] (codes "OK" ++ 13 ∷ 10 ∷ prompt_of file);
  current = broker;
  info = none;
}

ensure-EndsIn_example : EndsIn broker file (ensure file brokered)
ensure-EndsIn_example = ensure-EndsIn file brokered
