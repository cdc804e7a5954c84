-- ===== src/Control/Response/RoundTrip.antt =====
-- `Response::parse` after `Response::as_line`.
use fractal_d.Base.{◌≡◌, refl, text_eq, is_whitespace, trim, trim_start, trim_end, strip_prefix}
use fractal_d.Control.Types.{ok}
use fractal_d.Control.Response.{
  Response, status, stopping, pong, subscribed, event, services, service, transaction, accepted,
  enabled, disabled, enabled_status, reloaded, reset, error, line, as_line, parse_line, parse,
}
use fractal_d.Control.Response.Fields.{IsReportable}
use fractal_d.Control.Response.Answers.{
  parse-status, parse-transaction, parse-accepted, parse-enabled, parse-disabled,
}
use fractal_d.Control.Response.States.{
  parse-service, parse-enabled_status, parse-services, parse-event, parse-error,
}

-- An answer whose fields a line can carry is understood: `parse` reads from its line the answer
-- itself.
pub parse-as_line_answer : (r : Response) → IsReportable r → parse (as_line r) ≡ ok r
unfolding line parse parse_line trim trim_start trim_end is_whitespace strip_prefix text_eq
parse-as_line_answer (status pid uptime_ms) h = parse-status pid uptime_ms h
parse-as_line_answer stopping h = refl
parse-as_line_answer pong h = refl
parse-as_line_answer subscribed h = refl
parse-as_line_answer (event text) h = parse-event text h
parse-as_line_answer (services names) h = parse-services names h
parse-as_line_answer (service s) h = parse-service s h
parse-as_line_answer (transaction t) h = parse-transaction t h
parse-as_line_answer (accepted id operation name) h = parse-accepted id operation name h
parse-as_line_answer (enabled name) h = parse-enabled name h
parse-as_line_answer (disabled name) h = parse-disabled name h
parse-as_line_answer (enabled_status name on) h = parse-enabled_status name on h
parse-as_line_answer reloaded h = refl
parse-as_line_answer reset h = refl
parse-as_line_answer (error message) h = parse-error message h
