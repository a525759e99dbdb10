-- ===== src/Um980/Sent.antt =====
-- What the receiver was told when a sequence of commands of main/um980.cpp ends.
use gps_base_station.Prelude.{
  codes, map, digits, ℕ, ◌≡◌, ◌≢◌, refl, ap, sym, subst, ◌∙◌, ◌⊎◌, inl, inr, List, [], ◌∷◌, ◌++◌,
  Bool, true, false, leb, length, crlf, append-nil, append_assoc, arith, if_cases,
}
use gps_base_station.Survey.Text.{is_empty}
use gps_base_station.Um980.{
  UartApi, Error, ok, invalid_arg, invalid_size, failed, took_all, Command, fixed, formatted,
  sent_ok, end_line, write_line, command, commandf, run_command, next_command, run_commands,
  base_commands, configure_base,
}

-- `sent` is what went over the wire: all of a text, where `write` says so.
pub record Wire (api : UartApi) : Type 0 where
  pub sent : api.Uart → List ℕ
  pub sent-write :
      (u : api.Uart) (text : List ℕ)
      → took_all text (api.write u text).1 ≡ true
      → sent (api.write u text).0 ≡ sent u ++ text
  pub sent-wait : (u : api.Uart) → sent (api.wait_tx_done u).0 ≡ sent u

abbrev pub text_of : Command → List ℕ
text_of (fixed text) = text
text_of (formatted text) = text

abbrev pub lines : List Command → List ℕ
lines [] = []
lines (c ∷ cs) = (text_of c ++ crlf) ++ lines cs

lines-append : (cs ds : List Command) → lines (cs ++ ds) ≡ lines cs ++ lines ds
lines-append [] ds = refl
lines-append (c ∷ cs) ds =
    ap (λ l. (text_of c ++ crlf) ++ l) (lines-append cs ds)
    ∙ sym (append_assoc (text_of c ++ crlf) (lines cs) (lines ds))

-- The lines of a base station, as the receiver is to get them.
abbrev pub antenna_lines : List ℕ → List (List ℕ)
antenna_lines [] = []
antenna_lines (c ∷ model) =
    (codes "CONFIG BASEANTENNAMODEL \"" ++ (c ∷ model) ++ codes "\" a0001 0 USER") ∷ []

abbrev pub base_lines : List ℕ → List ℕ → List (List ℕ)
base_lines position model =
    codes "UNLOGALL COM2"
    ∷ codes "UNLOGALL COM3"
    ∷ codes "CONFIG UNDULATION AUTO"
    ∷ codes "CONFIG PVTALG MULTI"
    ∷ (antenna_lines model
        ++ ((codes "MODE BASE " ++ position)
            ∷ codes "LOG COM3 RTCM1006 ONTIME 5"
            ∷ codes "LOG COM3 RTCM1033 ONTIME 10"
            ∷ codes "LOG COM3 RTCM1077 ONTIME 1"
            ∷ codes "LOG COM3 RTCM1087 ONTIME 1"
            ∷ codes "LOG COM3 RTCM1097 ONTIME 1"
            ∷ codes "LOG COM3 RTCM1117 ONTIME 1"
            ∷ codes "LOG COM3 RTCM1127 ONTIME 1"
            ∷ codes "LOG COM3 RTCM1137 ONTIME 1"
            ∷ codes "LOG COM3 RTCM1230 ONTIME 30"
            ∷ codes "LOG COM2 GNGSA ONTIME 10"
            ∷ codes "LOG COM2 GPGSV ONTIME 10"
            ∷ codes "LOG COM2 GLGSV ONTIME 10"
            ∷ codes "LOG COM2 GAGSV ONTIME 10"
            ∷ codes "LOG COM2 GBGSV ONTIME 10"
            ∷ codes "SAVECONFIG"
            ∷ []))

base_commands-lines :
    (position model : List ℕ)
    → map text_of (base_commands position model) ≡ base_lines position model
unfolding digits
base_commands-lines position [] = refl
base_commands-lines position (c ∷ model) = refl

-- Each text with its line end.
abbrev pub joined : List (List ℕ) → List ℕ
joined [] = []
joined (text ∷ texts) = (text ++ crlf) ++ joined texts

lines-joined : (cs : List Command) → lines cs ≡ joined (map text_of cs)
lines-joined [] = refl
lines-joined (c ∷ cs) = ap (λ l. (text_of c ++ crlf) ++ l) (lines-joined cs)

map-append : (cs ds : List Command) → map text_of (cs ++ ds) ≡ map text_of cs ++ map text_of ds
map-append [] ds = refl
map-append (c ∷ cs) ds = ap (λ l. text_of c ∷ l) (map-append cs ds)

module _ (api : UartApi) (wire : Wire api) where
  open api use {Uart, write, wait_tx_done}

  sent_ok-sent :
      (r : Uart × Bool) → (sent_ok api r).1 ≡ ok → wire.sent (sent_ok api r).0 ≡ wire.sent r.0
  sent_ok-sent (u, true) e = refl
  sent_ok-sent (u, false) e = refl

  -- Where it went well, the text was sent.
  abbrev Told : Uart → List ℕ → Uart × Error → Type 0
  Told u text r = r.1 ≡ ok → wire.sent r.0 ≡ wire.sent u ++ text

  end_line-Told : (u : Uart) → Told u crlf (end_line api (write u crlf))
  unfolding end_line
  end_line-Told u =
      if_cases (Told u crlf) (took_all crlf (write u crlf).1) _ _
        (λ took e.
          sent_ok-sent (wait_tx_done (write u crlf).0) e
          ∙ (wire.sent-wait (write u crlf).0 ∙ wire.sent-write u crlf took))
        (λ short e. absurd (ground arith))

  write_line-Told :
      (u : Uart) (text : List ℕ) → Told u (text ++ crlf) (write_line api text (write u text))
  unfolding write_line
  write_line-Told u text =
      if_cases (Told u (text ++ crlf)) (took_all text (write u text).1) _ _
        (λ took e.
          end_line-Told (write u text).0 e
          ∙ (ap (λ t. t ++ crlf) (wire.sent-write u text took)
              ∙ append_assoc (wire.sent u) text crlf))
        (λ short e. absurd (ground arith))

  command-Told : (u : Uart) (text : List ℕ) → Told u (text ++ crlf) (command api u text)
  unfolding command
  command-Told u text =
      if_cases (Told u (text ++ crlf)) (is_empty text) _ _ (λ nothing e. absurd (ground arith))
        (λ some_ e. write_line-Told u text e)

  run_command-Told : (u : Uart) (c : Command) → Told u (text_of c ++ crlf) (run_command api u c)
  unfolding run_command commandf
  run_command-Told u (fixed text) = command-Told u text
  run_command-Told u (formatted text) =
      if_cases (Told u (text ++ crlf)) (leb 160 (length text)) _ _ (λ long e. absurd (ground arith))
        (λ fits e. command-Told u text e)

  -- All commands were sent, or the first that failed ended the sequence.
  abbrev pub Outcome : Uart → List Command → Uart × Error → Type 0
  Outcome u cs r =
      ((r.1 ≡ ok) × (wire.sent r.0 ≡ wire.sent u ++ lines cs))
      ⊎ ((pre : List Command) × (c : Command) × (post : List Command) × (v : Uart) × (cs
            ≡ pre ++ c ∷ post)
          × (wire.sent v ≡ wire.sent u ++ lines pre)
          × (r ≡ run_command api v c)
          × (r.1 ≢ ok))

  further :
      (u v : Uart) (c : Command) (cs : List Command) (r : Uart × Error)
      → wire.sent v ≡ wire.sent u ++ (text_of c ++ crlf)
      → Outcome v cs r
      → Outcome u (c ∷ cs) r
  further u v c cs r told (inl (fine, all)) = inl (
    fine,
    all
        ∙ (ap (λ t. t ++ lines cs) told
            ∙ append_assoc (wire.sent u) (text_of c ++ crlf) (lines cs)),
  )
  further u v c cs r told (inr (pre, d, post, w, split, before, last, bad)) = inr (
    c ∷ pre,
    d,
    post,
    w,
    ap (λ l. c ∷ l) split,
    before
        ∙ (ap (λ t. t ++ lines pre) told
            ∙ append_assoc (wire.sent u) (text_of c ++ crlf) (lines pre)),
    last,
    bad,
  )

  stopped :
      (u : Uart) (c : Command) (cs : List Command) (r : Uart × Error)
      → r ≡ run_command api u c
      → r.1 ≢ ok
      → Outcome u (c ∷ cs) r
  stopped u c cs r last bad = inr ([], c, cs, u, refl, sym (append-nil (wire.sent u)), last, bad)

  next-Outcome :
      (u : Uart) (c : Command) (cs : List Command) (r : Uart × Error)
      → ((v : Uart) → Outcome v cs (run_commands api v cs))
      → run_command api u c ≡ r
      → Outcome u (c ∷ cs) (next_command api (λ v. run_commands api v cs) r)
  next-Outcome u c cs (v, ok) rest e =
      further u v c cs (run_commands api v cs)
        (subst (Told u (text_of c ++ crlf)) e (run_command-Told u c) refl) (rest v)
  next-Outcome u c cs (v, invalid_arg) rest e =
      stopped u c cs (v, invalid_arg) (sym e) (λ x. ground arith)
  next-Outcome u c cs (v, invalid_size) rest e =
      stopped u c cs (v, invalid_size) (sym e) (λ x. ground arith)
  next-Outcome u c cs (v, failed) rest e = stopped u c cs (v, failed) (sym e) (λ x. ground arith)

  pub run_commands-Outcome : (cs : List Command) (u : Uart) → Outcome u cs (run_commands api u cs)
  unfolding run_commands
  run_commands-Outcome [] u = inl (refl, sym (append-nil (wire.sent u)))
  run_commands-Outcome (c ∷ cs) u =
      next-Outcome u c cs (run_command api u c) (λ v. run_commands-Outcome cs v) refl

  -- The same, told by the texts of the commands.
  abbrev pub TextOutcome : Uart → List (List ℕ) → Uart × Error → Type 0
  TextOutcome u texts r =
      ((r.1 ≡ ok) × (wire.sent r.0 ≡ wire.sent u ++ joined texts))
      ⊎ ((pre : List (List ℕ)) × (text : List ℕ) × (post : List (List ℕ)) × (v : Uart) × (texts
            ≡ pre ++ text ∷ post)
          × (wire.sent v ≡ wire.sent u ++ joined pre)
          × ((r ≡ command api v text) ⊎ (r ≡ commandf api v text))
          × (r.1 ≢ ok))

  ran_text :
      (v : Uart) (c : Command) (r : Uart × Error)
      → r ≡ run_command api v c
      → (r ≡ command api v (text_of c)) ⊎ (r ≡ commandf api v (text_of c))
  unfolding run_command
  ran_text v (fixed text) r e = inl e
  ran_text v (formatted text) r e = inr e

  texts_of :
      (u : Uart) (cs : List Command) (r : Uart × Error)
      → Outcome u cs r
      → TextOutcome u (map text_of cs) r
  texts_of u cs r (inl (fine, all)) = inl (fine, all ∙ ap (λ t. wire.sent u ++ t) (lines-joined cs))
  texts_of u cs r (inr (pre, c, post, v, split, before, last, bad)) = inr (
    map text_of pre,
    text_of c,
    map text_of post,
    v,
    ap (map text_of) split ∙ map-append pre (c ∷ post),
    before ∙ ap (λ t. wire.sent u ++ t) (lines-joined pre),
    ran_text v c r last,
    bad,
  )

  -- A base configuration that reports success has sent every line of `base_lines`, from the stop of the
  -- outputs to `SAVECONFIG`, in order and whole; one that reports an error has sent the lines before the
  -- command that failed, and ends with that command.
  pub configure_base-TextOutcome :
      (u : Uart) (position model : List ℕ)
      → TextOutcome u (base_lines position model) (configure_base api u position model)
  configure_base-TextOutcome u position model =
      subst (λ ls. TextOutcome u ls (configure_base api u position model))
        (base_commands-lines position model)
        (texts_of u (base_commands position model) (configure_base api u position model)
          (run_commands-Outcome (base_commands position model) u))
