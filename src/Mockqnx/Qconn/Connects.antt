-- ===== src/Mockqnx/Qconn/Connects.antt =====
-- A connection to the mock from its greeting on: `handshake`, and the first service.
use qnx8_qconn_mcp.Prelude.{
  ℕ, zero, suc, ◌≤◌, ◌≡◌, ◌≢◌, refl, ◌∙◌, ◌++◌, Bytes, ok, ◌>>=◌, ◌>>◌, codes, has_prefix, arith,
}
use qnx8_qconn_mcp.Qconn.Noise.{trim_left}
use qnx8_qconn_mcp.Qconn.Prompt.Find.{HasNoPrompt}
use qnx8_qconn_mcp.Qconn.Client.{
  Service, broker, launcher, file, cntl, sinfo, Client, on_frame, enter_service, ensure, handshake,
}
use qnx8_qconn_mcp.Qconn.Frame.{
  FrameConn, is_space, set_input, skip_blanks, drop_buffered, write_line, read_until_prompt,
}
use qnx8_qconn_mcp.Qconn.Frame.Response.{read_until_prompt_response}
use qnx8_qconn_mcp.Mockqnx.Shell.{crlf}
use qnx8_qconn_mcp.Mockqnx.Qconn.{greeting, set_svc}
use qnx8_qconn_mcp.Mockqnx.Qconn.Serve.{Daemon, accepted}
use qnx8_qconn_mcp.Mockqnx.Qconn.Link.{IsBehind, Frames, asks_behind}
use qnx8_qconn_mcp.Mockqnx.Qconn.Calls.{Calls, length-prompt}
use qnx8_qconn_mcp.Mockqnx.Qconn.Services.{
  IsServed, noise, ok_line, noise_first, service_command, service_command-IsRequest,
  dispatch-service_command, enter_service_lem,
}

-- A client of a connection that the daemon has just accepted and greeted.
pub record IsGreeted (n : ℕ) (cl : Client Daemon) : Type 0 where
  pub greeted : IsBehind n greeting accepted.session cl.fc
  pub current : cl.current ≡ broker

skip_blanks-noise : (k : ℕ) → skip_blanks k noise ≡ noise
unfolding skip_blanks
skip_blanks-noise zero = refl
skip_blanks-noise (suc k) = refl

abbrev pub banner : Bytes
banner = codes "QCONN" ++ crlf

banner_unprompted : HasNoPrompt banner
unfolding has_prefix
banner_unprompted = (refl, (refl, (refl, (refl, (refl, (refl, (refl, tt)))))))

-- Behind the handshake the daemon's complaint about the terminal is left to be read.
abbrev pub greeted_on : FrameConn Daemon → FrameConn Daemon
greeted_on f = drop_buffered (set_input noise f)

greeted_on-IsBehind :
    (n : ℕ) (f : FrameConn Daemon)
    → IsBehind n greeting accepted.session f
    → IsBehind n noise accepted.session (greeted_on f)
unfolding drop_buffered
greeted_on-IsBehind n f h = record {
  peer = h.peer;
  serves = h.serves;
  waits = skip_blanks-noise (f.buffered f.conn.sent noise);
  no_faults = h.no_faults;
  rounds = h.rounds;
}

noise_unprompted : HasNoPrompt (noise ++ ok_line)
unfolding has_prefix
noise_unprompted = search (tt)

-- The banner is read up to the first prompt.
pub reads_banner :
    (n : ℕ) (f : FrameConn Daemon)
    → IsBehind n greeting accepted.session f
    → 128 ≤ n
    → read_until_prompt f ≡ ok (trim_left is_space banner) (greeted_on f)
reads_banner n f h rounds =
    read_until_prompt_response broker banner noise f (omega arith) banner_unprompted
      (omega (arith, h.rounds)) h.waits

-- Behind it a service is entered, whose answer is read with the daemon's complaint.
pub asks_service :
    (n : ℕ) (svc : Service) (f : FrameConn Daemon)
    → IsBehind n greeting accepted.session f
    → IsServed svc
    → svc ≢ broker
    → 128 ≤ n
    → Frames n
        (set_svc svc accepted.session)
        (trim_left is_space (noise ++ ok_line))
        ((write_line (service_command svc) >> read_until_prompt) (greeted_on f))
unfolding set_svc
asks_service n svc f h v ne rounds =
    let s = accepted.session in
    asks_behind n noise (service_command svc) ok_line s (set_svc svc s) (greeted_on f)
      (greeted_on-IsBehind n f h) (service_command-IsRequest svc) (omega arith) noise_unprompted
      (omega (arith, length-prompt svc)) (dispatch-service_command svc s v ne refl)

handshake_lem :
    (n : ℕ) (cl : Client Daemon)
    → IsGreeted n cl
    → 128 ≤ n
    → handshake cl ≡ ok tt (record cl { fc = greeted_on cl.fc })
unfolding handshake
handshake_lem n cl h rounds =
    let read = reads_banner n cl.fc h.greeted rounds in
    let framed : on_frame read_until_prompt cl
        ≡ ok (trim_left is_space banner) (record cl { fc = greeted_on cl.fc }) =
      rw (read, on_frame) in
    rw (framed, ◌>>=◌)

enters :
    (svc : Service) (c : Client Daemon)
    → c.current ≡ broker
    → svc ≢ broker
    → ensure svc c ≡ enter_service svc c
unfolding ensure
enters broker c e ne = absurd (ne refl)
enters launcher c e ne = rw (e, ensure)
enters file c e ne = rw (e, ensure)
enters cntl c e ne = rw (e, ensure)
enters sinfo c e ne = rw (e, ensure)

-- From the mock's greeting on, the handshake and the first service succeed: the banner is read up to
-- the first prompt, the complaint that the daemon sends behind it is read with the first answer and
-- passed over, and client and daemon are in the wanted service, with nothing left to read; for each
-- service of the mock but the broker, and a connection whose loops may take 128 rounds.
pub handshake-ensure :
    (n : ℕ) (svc : Service) (cl : Client Daemon)
    → IsGreeted n cl
    → IsServed svc
    → svc ≢ broker
    → 128 ≤ n
    → Calls n svc (set_svc svc accepted.session) tt ((handshake >> ensure svc) cl)
handshake-ensure n svc cl h v ne rounds =
    let s = accepted.session in
    let c = record cl { fc = greeted_on cl.fc } in
    let fr = asks_service n svc cl.fc h.greeted v ne rounds in
    let entered = enter_service_lem n _ svc s c noise_first fr in
    record {
      left = entered.left;
      returned =
          rw (handshake_lem n cl h rounds, ◌>>=◌) (enters svc c h.current ne ∙ entered.returned);
      client = entered.client;
    }
