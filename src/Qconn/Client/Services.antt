-- ===== src/Qconn/Client/Services.antt =====
-- Which service a connection is in: `ensure`.
use qnx8_qconn_mcp.Prelude.{
  ◌≡◌, ◌⊎◌, inl, inr, refl, sym, ◌∙◌, true, ◌++◌, Bytes, if◌then◌else◌, codes, has_prefix, Outcome,
  ok, err, state, ◌>>=◌, ◌>>◌, Bool-cases, Outcome-cases,
}
use qnx8_qconn_mcp.Qconn.Noise.{first_line}
use qnx8_qconn_mcp.Qconn.Frame.{Error, write_line, read_until_prompt}
use qnx8_qconn_mcp.Qconn.Client.{
  Service, broker, launcher, file, cntl, sinfo, same_service, service_name, Client, raw, leave_word,
  leave_service, enter_service, ensure,
}

-- The service that a call ends in: the wanted one, or beside an error the one it began in, or the
-- broker behind it.
abbrev pub EndsIn : {P : Type 0} → Service → Service → Outcome Error (Client P) (Unit {0}) → Type 0
EndsIn old s (ok u c) = c.current ≡ s
EndsIn old s (err e c) = (c.current ≡ old) ⊎ (c.current ≡ broker)

pub same_service_sound : (a b : Service) → same_service a b ≡ true → a ≡ b
same_service_sound broker broker h = refl
same_service_sound launcher launcher h = refl
same_service_sound file file h = refl
same_service_sound cntl cntl h = refl
same_service_sound sinfo sinfo h = refl
same_service_sound broker launcher h = cc
same_service_sound broker file h = cc
same_service_sound broker cntl h = cc
same_service_sound broker sinfo h = cc
same_service_sound launcher broker h = cc
same_service_sound launcher file h = cc
same_service_sound launcher cntl h = cc
same_service_sound launcher sinfo h = cc
same_service_sound file broker h = cc
same_service_sound file launcher h = cc
same_service_sound file cntl h = cc
same_service_sound file sinfo h = cc
same_service_sound cntl broker h = cc
same_service_sound cntl launcher h = cc
same_service_sound cntl file h = cc
same_service_sound cntl sinfo h = cc
same_service_sound sinfo broker h = cc
same_service_sound sinfo launcher h = cc
same_service_sound sinfo file h = cc
same_service_sound sinfo cntl h = cc

module _ {P : Type 0} where
  raw-current : (cmd : Bytes) (c : Client P) → (state (raw cmd c)).current ≡ c.current
  unfolding raw
  raw-current cmd c = elim (Outcome-cases ((write_line cmd >> read_until_prompt) c.fc)) [
    | inl (a, f, e) ↦ rw (e, raw, state)
    | inr (x, f, e) ↦ rw (e, raw, state)
  ]

  leave_service-EndsIn : (c : Client P) → EndsIn c.current broker (leave_service c)
  unfolding leave_service
  leave_service-EndsIn c = elim (Outcome-cases (raw (leave_word c.current) c)) [
    | inl (a, c', e) ↦ rw (e, ◌>>=◌) refl
    | inr (x, c', e) ↦ rw (e, ◌>>=◌) (inl (rw e at (raw-current (leave_word c.current) c)))
  ]

  enter_service-EndsIn : (s : Service) (c : Client P) → EndsIn c.current s (enter_service s c)
  unfolding enter_service
  enter_service-EndsIn s c = elim (Outcome-cases (raw (codes "service " ++ service_name s) c)) [
    | inr (x, c', e) ↦
        rw (e, ◌>>=◌) (inl (rw e at (raw-current (codes "service " ++ service_name s) c)))
    | inl (resp, c', e) ↦ elim (Bool-cases (has_prefix (first_line resp) (codes "OK"))) [
      | inl q ↦ rw (e, ◌>>=◌) (rw q refl)
      | inr q ↦
          rw (e, ◌>>=◌) (rw q (inl (rw e at (raw-current (codes "service " ++ service_name s) c))))
    ]
  ]

  from_broker :
      (old s : Service) (c : Client P) (o : Outcome Error (Client P) (Unit {0}))
      → c.current ≡ broker
      → EndsIn c.current s o
      → EndsIn old s o
  from_broker old s c (ok u c') b h = h
  from_broker old s c (err e c') b (inl h) = inr (h ∙ b)
  from_broker old s c (err e c') b (inr h) = inr h

  -- What follows once the broker is reached.
  at_broker :
      (old s : Service) (c : Client P)
      → c.current ≡ broker
      → EndsIn old s (if same_service s broker then ok tt c else enter_service s c)
  at_broker old s c b = elim (Bool-cases (same_service s broker)) [
    | inl q ↦ rw q (b ∙ sym (same_service_sound s broker q))
    | inr q ↦ rw q (from_broker old s c (enter_service s c) b (enter_service-EndsIn s c))
  ]

  -- On every outcome ensure keeps track of the service: without an error the client records the
  -- wanted one, and beside an error the one that it was in, or the broker.
  pub ensure-EndsIn : (s : Service) (c : Client P) → EndsIn c.current s (ensure s c)
  unfolding ensure
  ensure-EndsIn s c = elim (Bool-cases (same_service c.current s)) [
    | inl q ↦ rw q (same_service_sound c.current s q)
    | inr q ↦ elim (Bool-cases (same_service c.current broker)) [
      | inl b ↦ rw q (rw b (at_broker c.current s c (same_service_sound c.current broker b)))
      | inr b ↦ elim (Outcome-cases (leave_service c)) [
        | inl (u, c', e) ↦
            let there : c'.current ≡ broker = rw e at (leave_service-EndsIn c) in
            rw q (rw b (rw e (at_broker c.current s c' there)))
        | inr (x, c', e) ↦ rw q (rw b (rw e (rw e at (leave_service-EndsIn c))))
      ]
    ]
  ]
