-- ===== src/Record/Create.antt =====
-- crates/fractald-core/src/lib.rs: `ServiceRecord::new`.
use fractal_d.Base.{◌≡◌, subst, ◌⊎◌, inl, inr, none, some, List, arith}
use fractal_d.Record.Invariant.{IsValid}
use fractal_d.Record.Runs.{run, initial-IsValid, run-IsValid}
use fractal_d.Record.Types.{Event, ServiceRecord, initial}
use fractal_d.Spec.{ServiceSpec}
use fractal_d.Spec.Validate.{SpecError, validate}
use fractal_d.Spec.Validate.Sound.{IsSound, validate-IsSound}

-- `Err` is on the left.
unfoldable pub create : ServiceSpec → SpecError ⊎ ServiceRecord
create spec = elim (validate spec) [ none ↦ inr (initial spec) | some e ↦ inl e ]

create-initial :
    (spec : ServiceSpec) (r : ServiceRecord)
    → create spec ≡ inr r
    → (validate spec ≡ none) × (initial spec ≡ r)
unfolding create
create-initial spec r h = ground arith

-- A service comes to be only for a sound descriptor, and whatever events it then meets, its record
-- is valid.
pub create-IsValid :
    (spec : ServiceSpec) (r : ServiceRecord) (es : List Event)
    → create spec ≡ inr r
    → IsSound spec × IsValid (run r es)
create-IsValid spec r es h =
    let (accepted, same) = create-initial spec r h in
    (validate-IsSound spec accepted, run-IsValid r es (subst IsValid same (initial-IsValid spec)))
