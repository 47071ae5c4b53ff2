-- ===== src/Logger/Printing.antt =====
-- Which messages the logger of internal/logger/logger.go prints.
use tunnel_agent.Base.{
  ◌≡◌, refl, sym, ap, ◌∙◌, append_assoc, inl, inr, Bool, List, [], ◌∷◌, ◌++◌, some, Bytes, leb,
  Bool-cases, map, if◌then◌else◌, append-nil,
}
use tunnel_agent.Logger.{
  Level, level_debug, level_info, level_warn, level_error, severity, Logger, Printed, Logging,
  init_logger, level_of, get_logger, log_with, debug, info, warn, error, got,
}

-- A message at a level, as a call of one of the four functions.
unfoldable pub log_call : Level × Bytes → Logging → Logging
log_call (level_debug, message) g = debug message g
log_call (level_info, message) g = info message g
log_call (level_warn, message) g = warn message g
log_call (level_error, message) g = error message g

unfoldable pub log_calls : List (Level × Bytes) → Logging → Logging
log_calls [] g = g
log_calls (c ∷ cs) g = log_calls cs (log_call c g)

-- The calls whose level is at least the given one.
abbrev pub severe : Level → List (Level × Bytes) → List (Level × Bytes)
severe level [] = []
severe level ((l, message) ∷ cs) =
    if leb (severity level) (severity l) then (l, message) ∷ severe level cs else severe level cs

-- What a logger with this level and format prints of a call.
abbrev pub printed_of : Level × Bool → Level × Bytes → Printed
printed_of (least, json) (level, message) = record {
  level = level;
  json = json;
  message = message;
  attributes = [];
}

log_call-with :
    (level : Level) (message : Bytes) (l : Logger) (out : List Printed)
    → log_call (level, message) (record { default_logger = some l; output = out })
      ≡ log_with level message (record { default_logger = some l; output = out }, l)
unfolding log_call debug info warn error get_logger got
log_call-with level_debug message l out = refl
log_call-with level_info message l out = refl
log_call-with level_warn message l out = refl
log_call-with level_error message l out = refl

-- With a default logger.
abbrev logging_at : Level → Bool → List Printed → Logging
logging_at level json out = record {
  default_logger = some (record { level = level; json = json; attributes = [] });
  output = out;
}

log_with-severe :
    (l level : Level) (message : Bytes) (json : Bool) (out : List Printed)
    → log_with l message
        (logging_at level json out, record { level = level; json = json; attributes = [] })
      ≡ logging_at level json
          (out ++ map (printed_of (level, json)) (severe level ((l, message) ∷ [])))
unfolding log_with
log_with-severe l level message json out = elim (Bool-cases (leb (severity level) (severity l))) [
  | inl enough ↦ rw enough refl
  | inr low ↦ rw (low, append-nil out) refl
]

severe-cons :
    (c : Level × Bytes) (cs : List (Level × Bytes)) (level : Level) (json : Bool)
    → map (printed_of (level, json)) (severe level (c ∷ cs))
      ≡ map (printed_of (level, json)) (severe level (c ∷ []))
        ++ map (printed_of (level, json)) (severe level cs)
severe-cons (l, message) cs level json = elim (Bool-cases (leb (severity level) (severity l))) [
  | inl enough ↦ rw enough refl
  | inr low ↦ rw low refl
]

log_calls-severe :
    (cs : List (Level × Bytes)) (level : Level) (json : Bool) (out : List Printed)
    → (log_calls cs (logging_at level json out)).output
      ≡ out ++ map (printed_of (level, json)) (severe level cs)
unfolding log_calls
log_calls-severe [] level json out = sym (append-nil out)
log_calls-severe ((l, message) ∷ cs) level json out =
    let shown = map (printed_of (level, json)) (severe level ((l, message) ∷ [])) in
    ap (λ (g : Logging). (log_calls cs g).output)
      (log_call-with l message (record { level = level; json = json; attributes = [] }) out
        ∙ log_with-severe l level message json out)
    ∙ log_calls-severe cs level json (out ++ shown)
    ∙ append_assoc out shown (map (printed_of (level, json)) (severe level cs))
    ∙ ap (◌++◌ out) (sym (severe-cons (l, message) cs level json))

-- After InitLogger the messages of a level that is at least the configured one are printed in the
-- order of the calls, and no others; a level that is none of the four counts as `info`.
pub log_calls-init_logger :
    (text : Bytes) (json : Bool) (cs : List (Level × Bytes)) (g : Logging)
    → (log_calls cs (init_logger text json g)).output
      ≡ g.output ++ map (printed_of (level_of text, json)) (severe (level_of text) cs)
unfolding init_logger
log_calls-init_logger text json cs g = log_calls-severe cs (level_of text) json g.output
