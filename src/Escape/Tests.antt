-- ===== src/Escape/Tests.antt =====
-- The escaping of the tests in crates/fractald-escape/src/main.rs, and its theorems at such texts.
use fractal_d.Base.{
  ◌≡◌, ◌≢◌, refl, true, some, [], ◌∷◌, ◌++◌, arith, Text, codes, text_eq, is_ascii_alphanumeric,
  join, split_at, strip_prefix, split_once, rsplit_once, ◌⊎◌,
}
use fractal_d.Escape.Utf8.{is_utf8, utf8_from, utf8_step}
use fractal_d.Escape.Encode.{escape, components, path_escape, trim_start_at}
use fractal_d.Escape.Decode.{
  done, panics, decode, unescape, unescape_all, path_unescape, instance_part,
}
use fractal_d.Escape.RoundTrip.{unescape-escape}
use fractal_d.Escape.Paths.{path_unescape-path_escape}
use fractal_d.Escape.Panics.{unescape_ascii, unescape_panics}
use fractal_d.Escape.Options.{
  Options, default, parsed, parse_args, parse_loop, transform, IsConsistent,
  parse_args-IsConsistent,
}

escape_test : escape (codes "foo bar") ≡ codes "foo\\x20bar"
unfolding escape is_ascii_alphanumeric
escape_test = refl

path_escape_test : path_escape (codes "/var/lib/foo-bar") ≡ codes "var-lib-foo\\x2dbar"
unfolding path_escape escape is_ascii_alphanumeric
path_escape_test = refl

path_unescape_test : path_unescape (codes "var-lib-foo\\x2dbar") ≡ done (codes "/var/lib/foo-bar")
unfolding path_unescape unescape_all unescape decode split_at join text_eq utf8_from utf8_step
path_unescape_test = refl

instance_test : instance_part (codes "worker@alpha.svc") ≡ codes "alpha"
unfolding instance_part rsplit_once
instance_test = refl

template_test :
    transform (codes "alpha") (record default { template = some (codes "worker@.svc") })
    ≡ done (codes "worker@alpha.svc")
unfolding transform escape is_ascii_alphanumeric strip_prefix split_once trim_start_at
template_test = refl

-- An e with an acute accent, in its two bytes.
abbrev accent : Text
accent = 0xc3 ∷ 0xa9 ∷ []

abbrev coffee : Text
coffee = codes "/caf" ++ accent ++ codes "//au lait/"

coffee_utf8 : is_utf8 coffee ≡ true
unfolding utf8_from utf8_step
coffee_utf8 = refl

unescape-escape_example : unescape (escape coffee) ≡ done coffee
unescape-escape_example = unescape-escape coffee coffee_utf8

path_unescape-path_escape_example :
    path_unescape (path_escape coffee) ≡ done (b'/' ∷ join b'/' (components coffee))
path_unescape-path_escape_example = path_unescape-path_escape coffee coffee_utf8

unescape_ascii_example : unescape (codes "a\\x2") ≢ panics
unescape_ascii_example = unescape_ascii (codes "a\\x2") (omega arith)

-- The text is well-formed, and `unescape` cuts its last character.
broken_utf8 : is_utf8 (codes "a" ++ b'\\' ∷ b'x' ∷ b'2' ∷ accent) ≡ true
unfolding utf8_from utf8_step
broken_utf8 = refl

unescape_panics_example : unescape (codes "a" ++ b'\\' ∷ b'x' ∷ b'2' ∷ accent) ≡ panics
unescape_panics_example = unescape_panics (codes "a") b'2' 0xc3 0xa9 [] (refl, tt) refl

abbrev decoding : Options
decoding = record default { unescape = true; instance_only = true }

arguments_read :
    parse_args (codes "-u" ∷ codes "--instance" ∷ codes "a" ∷ []) ≡ parsed decoding (codes "a" ∷ [])
unfolding parse_args parse_loop text_eq strip_prefix
arguments_read = refl

parse_args-IsConsistent_example : (decoding.exit ≡ true) ⊎ IsConsistent decoding
parse_args-IsConsistent_example =
    parse_args-IsConsistent (codes "-u" ∷ codes "--instance" ∷ codes "a" ∷ []) decoding
      (codes "a" ∷ []) arguments_read
