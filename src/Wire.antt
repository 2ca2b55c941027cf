-- ===== src/Wire.antt =====
-- A byte stream to a remote end: what `net.Conn`, a serial port and `bufio.Reader` give the code.
-- The remote end is a parameter: a state, and what it sends back when bytes reach it. Deadlines
-- and logging are left out; a read that finds nothing returns the error that `ending` names.
use qnx8_qconn_mcp.Prelude.{Bool, true, false, List, [], ◌∷◌, ◌++◌, Bytes, if◌then◌else◌}

-- Why a read finds no more bytes: the remote end closed, or the deadline passed.
pub data End : Type 0 where
  eof timeout : End

pub record Conn (P : Type 0) : Type 0 where
  -- what the remote end does with one write, and the bytes that it sends in answer
  pub react : P → Bytes → P × Bytes
  pub peer : P
  -- sent by the remote end and not read yet
  pub input : Bytes
  -- the writes that went out, in order
  pub sent : List Bytes
  -- one entry for each coming write, true where it fails; behind the last entry none fails
  pub faults : List Bool
  pub ending : End

-- A write that goes out.
unfoldable pub deliver : {P : Type 0} → Bytes → Conn P → Conn P
deliver b c = record c {
  peer = (c.react c.peer b).0;
  input = c.input ++ (c.react c.peer b).1;
  sent = c.sent ++ b ∷ [];
}

abbrev pub write_fails : List Bool → Bool
write_fails [] = false
write_fails (f ∷ fs) = f

abbrev pub later_faults : List Bool → List Bool
later_faults [] = []
later_faults (f ∷ fs) = fs

-- `conn.Write(b)`: the new connection, and whether it went out.
unfoldable pub write : {P : Type 0} → Bytes → Conn P → Conn P × Bool
write b c =
    let c' = record c { faults = later_faults c.faults } in
    if write_fails c.faults then (c', false) else (deliver b c', true)
