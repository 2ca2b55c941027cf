-- ===== src/Tests/Dbg.antt =====
-- Witnesses for the DSMSG client.
use qnx8_qconn_mcp.Prelude.{
  ◌%◌, ◌≤◌, ◌≡◌, refl, List, [], ◌∷◌, ◌++◌, Bytes, All, true, false, length, ok, state, arith, inl,
  inr, replicate,
}
use qnx8_qconn_mcp.Qnxdbg.Protocol.{frame_char, esc_char, frame}
use qnx8_qconn_mcp.Qnxdbg.Client.{Client, set_input, read_frame, read_response, transact_sub}
use qnx8_qconn_mcp.Qnxdbg.Client.Frames.{read_frame-frame}
use qnx8_qconn_mcp.Qnxdbg.Client.Sound.{FrameRead, read_frame_sound}
use qnx8_qconn_mcp.Qnxdbg.Client.Replies.{frames_of, after, read_response_passes}
use qnx8_qconn_mcp.Qnxdbg.Client.Exchange.{Requests, transact_sub-sent}
use qnx8_qconn_mcp.Qnxdbg.Memory.{read_memory, write_memory}
use qnx8_qconn_mcp.Qnxdbg.Memory.Bounds.{
  bytes_of, IsUnspent, Reports, read_memory_bounds, write_memory_bounds,
}
use qnx8_qconn_mcp.Qnxdbg.Memory.Refines.{IsUsable, read_memory_reads}
use qnx8_qconn_mcp.Qnxdbg.Info.{parse_map_info}
use qnx8_qconn_mcp.Qnxdbg.Info.Segments.{
  Entry, IsEntry, entries_bytes, mapped_segments, parse_map_info-entries_bytes,
}
use qnx8_qconn_mcp.Qnxdbg.Target.{bytes_at}
use qnx8_qconn_mcp.Mockqnx.Dsmsg.{Server}
use qnx8_qconn_mcp.Mockqnx.Dsmsg.Memory.{mock_target}
use qnx8_qconn_mcp.Tests.Clients.{silent, echoing, mock_client, mock_client-IsUsable}

-- Every byte that has a meaning in a frame.
abbrev specials : Bytes
specials = frame_char ∷ esc_char ∷ 0x5e ∷ 0x5d ∷ 0xff ∷ []

-- Two frames, the first behind two more delimiters.
abbrev two_frames : Bytes
two_frames = replicate 2 frame_char ++ (frame specials ++ frame (0x21 ∷ []))

read_frame-frame_example :
    read_frame (silent two_frames [])
    ≡ ok specials (set_input (frame (0x21 ∷ [])) (silent two_frames []))
read_frame-frame_example =
    read_frame-frame 2 specials (frame (0x21 ∷ [])) (silent two_frames []) (omega arith) refl

read_frame_sound_example :
    FrameRead (silent two_frames []) specials (set_input (frame (0x21 ∷ [])) (silent two_frames []))
read_frame_sound_example = read_frame_sound (silent two_frames []) read_frame-frame_example

-- A control frame, program output and a reply.
abbrev noisy : List Bytes
noisy = (0x00 ∷ []) ∷ (0x23 ∷ 0 ∷ 0 ∷ 2 ∷ b'h' ∷ b'i' ∷ []) ∷ []

abbrev ok_reply : Bytes
ok_reply = 0x21 ∷ 0 ∷ 1 ∷ 1 ∷ []

read_response_passes_example :
    read_response (silent (frames_of noisy ++ (frame ok_reply ++ [])) [])
    ≡ ok ok_reply (after noisy [] (silent (frames_of noisy ++ (frame ok_reply ++ [])) []))
read_response_passes_example =
    read_response_passes noisy ok_reply [] (silent (frames_of noisy ++ (frame ok_reply ++ [])) [])
      ((omega arith, inl (omega arith)), ((omega arith, inr (omega arith, refl)), tt)) (omega arith)
      (omega arith, omega arith) refl

transact_sub-sent_example :
    Requests
      (13 ∷ 1 ∷ 0 ∷ 1 ∷ 5 ∷ [])
      0
      (silent [] (false ∷ []))
      (state (transact_sub 13 1 (5 ∷ []) (silent [] (false ∷ []))))
transact_sub-sent_example =
    transact_sub-sent 13 1 (5 ∷ []) (silent [] (false ∷ [])) (omega arith) (omega arith)
      (omega arith)

read_memory_bounds_example :
    (length (bytes_of (read_memory 0x1000 2000 (echoing (frame ok_reply)))) ≤ 2000)
    × IsUnspent (read_memory 0x1000 2000 (echoing (frame ok_reply)))
read_memory_bounds_example = read_memory_bounds 0x1000 2000 (echoing (frame ok_reply))

write_memory_bounds_example :
    Reports 3 (write_memory 0x1000 (1 ∷ 2 ∷ 3 ∷ []) (echoing (frame ok_reply)))
    × IsUnspent (write_memory 0x1000 (1 ∷ 2 ∷ 3 ∷ []) (echoing (frame ok_reply)))
write_memory_bounds_example = write_memory_bounds 0x1000 (1 ∷ 2 ∷ 3 ∷ []) (echoing (frame ok_reply))

-- More than two chunks of the mock's memory, over the end of the address space.
read_memory_reads_example :
    (c' : Client Server) × (read_memory 0xffff_ffff_ffff_fff0 2500 mock_client
      ≡ ok (bytes_at (λ a. a % 256) 0xffff_ffff_ffff_fff0 2500) c')
    × IsUsable mock_target (λ a. a % 256) c'
read_memory_reads_example =
    read_memory_reads mock_target 0xffff_ffff_ffff_fff0 2500 mock_client mock_client-IsUsable

-- A mapped segment, one at address 0, and half an entry.
abbrev two_entries : List Entry
two_entries =
    record {
      mapped = true;
      own = replicate 8 1;
      segment = record { vaddr = 0x400000; size = 0x1000 };
    }
    ∷ record { mapped = false; own = replicate 8 2; segment = record { vaddr = 0; size = 0x1000 } }
    ∷ []

two_entries-IsEntry : All IsEntry two_entries
two_entries-IsEntry = (
  (refl, omega arith, omega arith, (omega arith, refl, omega arith, omega arith)),
  ((refl, omega arith, omega arith, inl refl), tt),
)

parse_map_info-entries_bytes_example :
    parse_map_info (entries_bytes two_entries ++ replicate 12 0) ≡ mapped_segments two_entries
parse_map_info-entries_bytes_example =
    parse_map_info-entries_bytes two_entries (replicate 12 0) two_entries-IsEntry (omega arith)
