-- ===== src/Mockqnx/Qconn/Services.antt =====
-- The client and the mock switch services together: `handshake` and `ensure`.
use qnx8_qconn_mcp.Prelude.{
  ℕ, ◌≤◌, ◌≡◌, ◌≢◌, refl, sym, ap, ◌∙◌, true, false, inl, inr, Bool-cases, if◌then◌else◌, [], ◌++◌,
  Bytes, ok, ◌>>=◌, ◌>>◌, codes, same, has_prefix, split, cut_at, arith,
}
use qnx8_qconn_mcp.Qconn.Noise.{is_noise, trim_left, trim_right, trim_space, first_of, first_line}
use qnx8_qconn_mcp.Qconn.Prompt.Find.{HasNoPrompt}
use qnx8_qconn_mcp.Qconn.Client.{
  Service, broker, launcher, file, cntl, sinfo, service_name, same_service, leave_word, Client,
  on_frame, raw, enter, leave_service, enter_service, ensure,
}
use qnx8_qconn_mcp.Qconn.Client.Services.{same_service_sound}
use qnx8_qconn_mcp.Qconn.Frame.{is_space, write_line, read_until_prompt}
use qnx8_qconn_mcp.Mockqnx.Shell.{crlf}
use qnx8_qconn_mcp.Mockqnx.Qconn.{
  Session, goes_on, prompt, set_svc, dispatch, broker_line, launcher_line, cntl_line, file_line,
}
use qnx8_qconn_mcp.Mockqnx.Qconn.Serve.{Daemon}
use qnx8_qconn_mcp.Mockqnx.Qconn.Exchange.{IsRequest}
use qnx8_qconn_mcp.Mockqnx.Qconn.Link.{Frames, asks}
use qnx8_qconn_mcp.Mockqnx.Qconn.Calls.{IsClient, Calls, length-prompt}

-- A service that the mock has.
abbrev pub IsServed : Service → Type 0
IsServed sinfo = ⊥
IsServed _ = Unit {0}

-- Each service is left by its word.
dispatch-leave_word :
    (svc : Service) (s : Session)
    → IsServed svc
    → svc ≢ broker
    → s.svc ≡ svc
    → dispatch (leave_word svc) s ≡ goes_on ([] ++ prompt broker) (set_svc broker s)
unfolding dispatch launcher_line file_line cntl_line same set_svc
dispatch-leave_word broker s v ne e = absurd (ne refl)
dispatch-leave_word launcher s v ne e = rw e
dispatch-leave_word file s v ne e = rw e
dispatch-leave_word cntl s v ne e = rw e
dispatch-leave_word sinfo s v ne e = absurd v

leave_word-IsRequest : (svc : Service) → IsRequest (leave_word svc)
unfolding trim_right
leave_word-IsRequest broker = record { some_ = refl; whole = omega arith; kept = refl }
leave_word-IsRequest launcher = record { some_ = refl; whole = omega arith; kept = refl }
leave_word-IsRequest file = record { some_ = refl; whole = omega arith; kept = refl }
leave_word-IsRequest cntl = record { some_ = refl; whole = omega arith; kept = refl }
leave_word-IsRequest sinfo = record { some_ = refl; whole = omega arith; kept = refl }

abbrev pub service_command : Service → Bytes
service_command svc = codes "service " ++ service_name svc

pub service_command-IsRequest : (svc : Service) → IsRequest (service_command svc)
unfolding trim_right
service_command-IsRequest broker = record { some_ = refl; whole = omega arith; kept = refl }
service_command-IsRequest launcher = record { some_ = refl; whole = omega arith; kept = refl }
service_command-IsRequest file = record { some_ = refl; whole = omega arith; kept = refl }
service_command-IsRequest cntl = record { some_ = refl; whole = omega arith; kept = refl }
service_command-IsRequest sinfo = record { some_ = refl; whole = omega arith; kept = refl }

-- A service is entered from the broker.
pub dispatch-service_command :
    (svc : Service) (s : Session)
    → IsServed svc
    → svc ≢ broker
    → s.svc ≡ broker
    → dispatch (service_command svc) s
      ≡ goes_on ((codes "OK" ++ crlf) ++ prompt svc) (set_svc svc s)
unfolding dispatch broker_line same has_prefix set_svc
dispatch-service_command broker s v ne e = absurd (ne refl)
dispatch-service_command launcher s v ne e = rw e
dispatch-service_command file s v ne e = rw e
dispatch-service_command cntl s v ne e = rw e
dispatch-service_command sinfo s v ne e = absurd v

-- A call of the framed connection that changes the daemon's service.
raw-Frames :
    (n : ℕ) (cmd got : Bytes) (s' : Session) (c : Client Daemon)
    → (fr : Frames n s' got ((write_line cmd >> read_until_prompt) c.fc))
    → raw cmd c ≡ ok got (record c { fc = fr.left })
unfolding raw
raw-Frames n cmd got s' c fr = rw (fr.returned, on_frame)

leave_service_lem :
    (n : ℕ) (svc : Service) (s : Session) (cl : Client Daemon)
    → IsClient n svc s cl
    → IsServed svc
    → svc ≢ broker
    → 128 ≤ n
    → Calls n broker (set_svc broker s) tt (leave_service cl)
unfolding leave_service set_svc
leave_service_lem n svc s cl h v ne rounds =
    let fr =
      asks n (leave_word svc) [] s (set_svc broker s) cl.fc h.linked (leave_word-IsRequest svc) tt
        tt (omega (arith, length-prompt broker)) (dispatch-leave_word svc s v ne h.agreed) in
    let left = raw-Frames n (leave_word svc) _ (set_svc broker s) cl fr in
    record {
      left = record cl { fc = fr.left; current = broker };
      returned = ap (λ v. (raw (leave_word v) >> enter broker) cl) h.current ∙ rw (left, ◌>>=◌);
      client = record { linked = fr.linked; current = refl; agreed = refl };
    }

-- The answer to a service that is entered, and the noise that may stand before it.
abbrev pub noise : Bytes
noise = codes "error linemode-or-echo-not-supported" ++ crlf

abbrev pub ok_line : Bytes
ok_line = codes "OK" ++ crlf

ok_first : has_prefix (first_line (trim_left is_space ok_line)) (codes "OK") ≡ true
unfolding has_prefix trim_left trim_right trim_space first_line first_of split cut_at is_noise same
ok_first = refl

pub noise_first :
    has_prefix (first_line (trim_left is_space (noise ++ ok_line))) (codes "OK") ≡ true
unfolding has_prefix trim_left trim_right trim_space first_line first_of split cut_at is_noise same
noise_first = refl

-- A connection that has read no more than the first prompt, or more.
pub enter_service_lem :
    (n : ℕ) (got : Bytes) (svc : Service) (s : Session) (cl : Client Daemon)
    → has_prefix (first_line got) (codes "OK") ≡ true
    → (fr : Frames n
        (set_svc svc s)
        got
        ((write_line (service_command svc) >> read_until_prompt) cl.fc))
    → Calls n svc (set_svc svc s) tt (enter_service svc cl)
unfolding enter_service set_svc
enter_service_lem n got svc s cl fine fr =
    let entered = raw-Frames n (service_command svc) got (set_svc svc s) cl fr in
    record {
      left = record cl { fc = fr.left; current = svc };
      returned = rw (entered, ◌>>=◌) (rw fine);
      client = record { linked = fr.linked; current = refl; agreed = refl };
    }

from_broker :
    (n : ℕ) (svc : Service) (s : Session) (cl : Client Daemon)
    → IsClient n broker s cl
    → IsServed svc
    → svc ≢ broker
    → 128 ≤ n
    → Calls n svc (set_svc svc s) tt (enter_service svc cl)
unfolding set_svc
from_broker n svc s cl h v ne rounds =
    let unprompted : HasNoPrompt ok_line =
      unfold has_prefix in (refl, (refl, (refl, (refl, tt)))) in
    let fr =
      asks n (service_command svc) ok_line s (set_svc svc s) cl.fc h.linked
        (service_command-IsRequest svc) (omega arith) unprompted (omega (arith, length-prompt svc))
        (dispatch-service_command svc s v ne h.agreed) in
    enter_service_lem n _ svc s cl ok_first fr

set_svc_same : (svc : Service) (s : Session) → s.svc ≡ svc → s ≡ set_svc svc s
unfolding set_svc
set_svc_same svc s e = ap (λ v. record s { svc = v }) e

-- A client that is where it wants to be.
stays :
    (n : ℕ) (svc svc' : Service) (s : Session) (cl : Client Daemon)
    → IsClient n svc s cl
    → svc ≡ svc'
    → IsClient n svc' (set_svc svc' s) cl
stays n svc svc' s cl h e =
    let there = rw e at h in let kept = set_svc_same svc' s there.agreed in rw kept at there

set_svc_twice : (a b : Service) (s : Session) → set_svc a (set_svc b s) ≡ set_svc a s
unfolding set_svc
set_svc_twice a b s = refl

not_broker : (svc : Service) → same_service svc broker ≡ false → svc ≢ broker
not_broker svc h e = let same_ : same_service svc broker ≡ true = rw e refl in cc

at_broker :
    (n : ℕ) (svc : Service) (s : Session) (cl : Client Daemon)
    → IsClient n broker s cl
    → IsServed svc
    → 128 ≤ n
    → Calls n svc
        (set_svc svc s)
        tt
        (if same_service svc broker then ok tt cl else enter_service svc cl)
at_broker n svc s cl h v rounds = elim (Bool-cases (same_service svc broker)) [
  | inl q ↦
      let there = sym (same_service_sound svc broker q) in
      record { left = cl; returned = rw q; client = stays n broker svc s cl h there }
  | inr q ↦ rw q (from_broker n svc s cl h v (not_broker svc q) rounds)
]

-- Against the mock, ensure reaches every service that the mock has from every other: it returns no
-- error, the client records the wanted service and the daemon is in it, and nothing else of the
-- daemon has changed; for a connection whose loops may take 128 rounds.
pub ensure-IsClient :
    (n : ℕ) (svc svc' : Service) (s : Session) (cl : Client Daemon)
    → IsClient n svc s cl
    → IsServed svc
    → IsServed svc'
    → 128 ≤ n
    → Calls n svc' (set_svc svc' s) tt (ensure svc' cl)
unfolding ensure
ensure-IsClient n svc svc' s cl h v v' rounds = elim (Bool-cases (same_service cl.current svc')) [
  | inl q ↦
      let there = sym h.current ∙ same_service_sound cl.current svc' q in
      record { left = cl; returned = rw q; client = stays n svc svc' s cl h there }
  | inr q ↦ elim (Bool-cases (same_service cl.current broker)) [
    | inl b ↦
        let there = sym h.current ∙ same_service_sound cl.current broker b in
        rw q (rw b (at_broker n svc' s cl (rw there at h) v' rounds))
    | inr b ↦
        let away : same_service svc broker ≡ false =
          ap (λ x. same_service x broker) (sym h.current) ∙ b in
        let left = leave_service_lem n svc s cl h v (not_broker svc away) rounds in
        let rest = at_broker n svc' (set_svc broker s) left.left left.client v' rounds in
        rw q (rw b (rw left.returned (rw (set_svc_twice svc' broker s) at rest)))
  ]
]
