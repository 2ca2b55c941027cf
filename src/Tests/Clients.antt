-- ===== src/Tests/Clients.antt =====
-- Connections and targets for the witnesses.
use qnx8_qconn_mcp.Prelude.{◌%◌, List, [], Bytes, Bool, refl}
use qnx8_qconn_mcp.Wire.{eof}
use qnx8_qconn_mcp.Qnxdbg.Client.{Client}
use qnx8_qconn_mcp.Qnxdbg.Memory.Refines.{IsUsable}
use qnx8_qconn_mcp.Mockqnx.Dsmsg.{Server, initial, react}
use qnx8_qconn_mcp.Mockqnx.Dsmsg.Memory.{mock_target}

-- A remote end that has sent `input` and answers nothing.
abbrev pub silent : Bytes → List Bool → Client (Unit {0})
silent input faults = record {
  conn = record {
    react = λ s b. (s, []);
    peer = tt;
    input = input;
    sent = [];
    faults = faults;
    ending = eof;
  };
  mid = 255;
  output = [];
}

-- A remote end that answers each write by the same bytes.
abbrev pub echoing : Bytes → Client (Unit {0})
echoing bytes = record {
  conn = record {
    react = λ s b. (s, bytes);
    peer = tt;
    input = [];
    sent = [];
    faults = [];
    ending = eof;
  };
  mid = 3;
  output = [];
}

-- A client of the mock pdebug behind its handshake.
abbrev pub mock_client : Client Server
mock_client = record {
  conn = record { react = react; peer = initial; input = []; sent = []; faults = []; ending = eof };
  mid = 1;
  output = [];
}

pub mock_client-IsUsable : IsUsable mock_target (λ a. a % 256) mock_client
mock_client-IsUsable = record {
  idle = record { quiet = refl; no_faults = refl; reacts = refl };
  ready = refl;
  mem_is = refl;
}
