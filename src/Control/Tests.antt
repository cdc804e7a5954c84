-- ===== src/Control/Tests.antt =====
-- The protocol and the markers of the tests in crates/fractald-control/src/lib.rs, and the theorems
-- about them there.
use fractal_d.Base.{
  ◌≡◌, ◌&&◌, refl, true, none, some, List, [], ◌∷◌, arith, Text, codes, text_eq, is_whitespace,
  words, words_from, strip_suffix, parse_number,
}
use fractal_d.BTree.Set.{contains, IsAscending}
use fractal_d.BTree.Map.{get, keys}
use fractal_d.Control.Types.{ok, err, unknown_request}
use fractal_d.Control.Request as Request
use fractal_d.Control.Request.{start_service, transaction_status}
use fractal_d.Control.Request.RoundTrip.{IsSendable, parse-as_line}
use fractal_d.Control.Request.Accepts.{parse_accepts}
use fractal_d.Control.Response as Response
use fractal_d.Control.Response.{ServiceStatus, Response, service}
use fractal_d.Control.Response.Fields as Fields
use fractal_d.Control.Response.RoundTrip.{parse-as_line_answer}
use fractal_d.Control.Markers.{
  Directory, StatePaths, Kind, file, Io, is_valid_name, native_service_name, is_enabled, is_masked,
  enabled_names, service_is_enabled, service_enabled_names, first_decides, symlink_metadata,
}
use fractal_d.Control.Markers as Markers
use fractal_d.Control.Markers.Effects.{
  Order, enabling, disabling, masking, Represents, IsProper, carry_out, carry_out-Represents,
  update, update_all, run_orders, fresh, no_sets, run_orders-is_enabled,
}
use fractal_d.Control.Markers.Listing.{enabled_names_lem, service_enabled_names-lists}

abbrev web : Text
web = codes "web.svc"

bogus : Request.parse (codes "BOGUS") ≡ err (unknown_request (codes "BOGUS"))
unfolding Request.parse Request.parse_fields words words_from is_whitespace
bogus = refl

web-IsSendable : IsSendable (start_service web)
unfolding is_whitespace
web-IsSendable = ground arith

parse-as_line_example : Request.parse (Request.as_line (start_service web)) ≡ ok (start_service web)
parse-as_line_example = parse-as_line (start_service web) web-IsSendable

-- A plus sign, and white space around.
understood : Request.parse (codes " TRANSACTION_STATUS\t+41 ") ≡ ok (transaction_status 41)
unfolding Request.parse Request.parse_fields words words_from is_whitespace parse_number
understood = refl

parse_accepts_example :
    IsSendable (transaction_status 41)
    × (Request.parse (Request.as_line (transaction_status 41)) ≡ ok (transaction_status 41))
parse_accepts_example =
    parse_accepts (codes " TRANSACTION_STATUS\t+41 ") (transaction_status 41) understood

abbrev web_status : ServiceStatus
web_status = record {
  name = web;
  state = codes "defined";
  pid = none;
  generation = 2;
  restart_count = 0;
}

web-IsReportable : Fields.IsReportable (service web_status)
unfolding is_whitespace
web-IsReportable = (ground arith, ground arith, (λ n e. cc), omega arith, omega arith)

parse-as_line_answer_example :
    Response.parse (Response.as_line (service web_status)) ≡ ok (service web_status)
parse-as_line_answer_example = parse-as_line_answer (service web_status) web-IsReportable

-- The markers.
abbrev demo : Text
demo = codes "demo"

demo-IsProper : IsProper demo
unfolding is_valid_name native_service_name is_whitespace text_eq strip_suffix
demo-IsProper = (refl, refl)

suffixed-IsProper : IsProper (codes "demo.svc")
unfolding is_valid_name native_service_name is_whitespace text_eq strip_suffix
suffixed-IsProper = (refl, refl)

carry_out-Represents_example :
    ((carry_out (enabling demo) fresh).1 ≡ Markers.ok tt)
    × Represents (carry_out (enabling demo) fresh).0 (update (enabling demo) no_sets)
carry_out-Represents_example =
    carry_out-Represents (enabling demo) fresh no_sets demo-IsProper ((λ n. refl), (λ n. refl))

abbrev session : List Order
session = enabling demo ∷ masking demo ∷ disabling (codes "demo.svc") ∷ []

run_orders-is_enabled_example :
    (is_enabled demo (run_orders session fresh)
      ≡ Markers.ok ((update_all session no_sets).enabled (native_service_name demo)))
    × (is_masked demo (run_orders session fresh)
        ≡ Markers.ok ((update_all session no_sets).masked (native_service_name demo)))
run_orders-is_enabled_example =
    run_orders-is_enabled session demo (demo-IsProper, (demo-IsProper, (suffixed-IsProper, tt)))
      demo-IsProper

abbrev one_enabled : StatePaths
one_enabled = record { enabled = some ((demo, file) ∷ []); masked = none }

enabled_names_lem_example :
    IsAscending (enabled_names one_enabled)
    × ((n : Text) → contains (enabled_names one_enabled) n ≡ (text_eq demo n && is_valid_name n))
unfolding get keys
enabled_names_lem_example = enabled_names_lem one_enabled (text_eq demo) ((tt, tt), (λ n. refl))

abbrev layers : List Directory
layers = none ∷ some ((codes "demo.enabled", file) ∷ []) ∷ []

demo_enabled : service_is_enabled (codes "demo.svc") layers ≡ Markers.ok true
unfolding service_is_enabled is_valid_name native_service_name is_whitespace text_eq strip_suffix
    get
demo_enabled = refl

service_enabled_names-lists_example :
    contains (service_enabled_names layers []) (native_service_name (codes "demo.svc")) ≡ true
service_enabled_names-lists_example =
    service_enabled_names-lists (codes "demo.svc") layers demo_enabled
