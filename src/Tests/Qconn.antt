-- ===== src/Tests/Qconn.antt =====
-- Witnesses for the qconn client's text tools.
use qnx8_qconn_mcp.Qconn.Proc.{split_hex_range, sides, both, parse_hex_addr}
use qnx8_qconn_mcp.Prelude.{
  parse_hex, hex_from, hex_value, has_prefix, ◌≡◌, refl, List, [], ◌∷◌, ◌++◌, some, ℤ, Bytes, codes,
  cut_once, same, arith, inl,
}
use qnx8_qconn_mcp.Qconn.Sysinfo.{rows_of, parse_pidin_threads}
use qnx8_qconn_mcp.Qconn.Sysinfo.Grouping.{
  IsGrouped, threads_of, threads_in, parse_pidin_threads-IsGrouped,
}
use qnx8_qconn_mcp.Qconn.Telnet.{
  Piece, data_byte, negotiation, subnegotiation, command, doo, on_wire, data_of, strip_iac,
  strip_iac-on_wire,
}
use qnx8_qconn_mcp.Qconn.Noise.{
  is_noise, trim_space, trim_left, trim_right, split_lines, strip_leading_noise, strip_rounds,
}
use qnx8_qconn_mcp.Qconn.Launcher.{escape_arg, read_quoted, flattened, read_quoted-escape_arg}

-- Data between a negotiation, a subnegotiation and a command.
abbrev telnet_stream : List Piece
telnet_stream =
    data_byte b'a'
    ∷ negotiation doo 3
    ∷ data_byte b'b'
    ∷ subnegotiation (31 ∷ 240 ∷ [])
    ∷ command 241
    ∷ data_byte b'c'
    ∷ []

strip_iac-on_wire_example : strip_iac (on_wire telnet_stream) ≡ data_of telnet_stream
strip_iac-on_wire_example = strip_iac-on_wire telnet_stream (
  omega arith,
  (omega arith, (omega arith, (omega arith, (inl (omega arith), (omega arith, tt))))),
)

abbrev short_response : Bytes
short_response = 10 ∷ codes "OK" ++ 10 ∷ codes "x"

strip_short : cut_once 10 (strip_leading_noise short_response) ≡ some (codes "OK", codes "x")
unfolding strip_leading_noise strip_rounds cut_once is_noise trim_space trim_left trim_right same
strip_short = refl

-- A command with a quote, a backslash and a line break.
abbrev hostile : Bytes
hostile = codes "echo " ++ b'"' ∷ b'\\' ∷ b'"' ∷ 10 ∷ codes "rm"

read_quoted-escape_arg_example :
    read_quoted (escape_arg hostile ++ b'"' ∷ codes "end") ≡ some (flattened hostile, codes "end")
read_quoted-escape_arg_example = read_quoted-escape_arg hostile (codes "end")

abbrev range_text : Bytes
range_text = codes "0x1000-1fff"

range_read : split_hex_range range_text ≡ some (0x1000, 0x1fff)
unfolding split_hex_range sides both parse_hex_addr parse_hex hex_from hex_value cut_once has_prefix
    trim_space trim_left trim_right
range_read = refl

-- Two processes, one with two threads, and a header.
abbrev listing : Bytes
listing =
    codes "pid tid name prio STATE"
    ++ 10 ∷ codes "1 1 procnto 10r READY"
    ++ 10 ∷ codes "7 1 io 10o RECEIVE 1"
    ++ 10 ∷ codes "1 2 procnto 9r RUNNING"

parse_pidin_threads-IsGrouped_example :
    IsGrouped (parse_pidin_threads listing)
    × ((pid : ℤ)
        → threads_of pid (parse_pidin_threads listing)
          ≡ threads_in pid (rows_of (split_lines listing)))
parse_pidin_threads-IsGrouped_example = parse_pidin_threads-IsGrouped listing
