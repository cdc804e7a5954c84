-- ===== src/Spec/Tests.antt =====
-- A descriptor as the tests of lib.rs make it passes `ServiceSpec::validate`.
use fractal_d.Base.{◌≡◌, refl, none, codes, text_eq, is_whitespace, is_control}
use fractal_d.Spec.New.{new}
use fractal_d.Spec.Types.{ServiceSpec}
use fractal_d.Spec.Validate.{
  validate, is_blank, is_unsafe_name, find_bad_credential, find_bad_import, ◌or_else◌, report,
  fails_if,
}
use fractal_d.Spec.Validate.Sound.{IsSound, validate-IsSound}

abbrev demo : ServiceSpec
demo = new (codes "demo") (codes "/usr/libexec/demo")

accepted : validate demo ≡ none
unfolding validate is_blank is_unsafe_name text_eq is_whitespace is_control find_bad_credential
    find_bad_import ◌or_else◌ report fails_if
accepted = refl

validate-IsSound_example : IsSound demo
validate-IsSound_example = validate-IsSound demo accepted
