-- ===== src/Config/Tests.antt =====
-- The declarations and the values of the tests in crates/fractald-config/src/lib.rs, and more, run
-- through the parser; and the theorems about it there.
use fractal_d.Base.{
  words_from, pos, to_ascii_uppercase, ◌≡◌, refl, true, some, [], ◌∷◌, arith, Text, codes, length,
  words, text_eq, text_lt, is_whitespace, parse_number, split_once, split_at, strip_suffix,
  strip_prefix, trim, trim_start, trim_end, is_ascii_alphanumeric, to_ascii_lowercase,
}
use fractal_d.BTree.Map.{keys, get}
use fractal_d.BTree.Set.{contains}
use fractal_d.Config.Error.{ok, err, at}
use fractal_d.Config.Words.{split_words}
use fractal_d.Config.Words.Quoted.{quote_words, split_words-quote_words, split_words-words}
use fractal_d.Config.Schema.{validate_schema}
use fractal_d.Config.File.{NativeFile, value, merge, directives, directives_of}
use fractal_d.Config.File.Merge.{value-merge, answer}
use fractal_d.Config.Reader.{parse, lines}
use fractal_d.Config.Reader.Lawful.{IsLawful, parse-IsLawful}
use fractal_d.Config.Values.{parse_limit_range}
use fractal_d.Config.Values.Bounds.{parse_limit_range-IsBelow, IsU64, IsBelow}
use fractal_d.Spec.{LimitRange, max}
use fractal_d.Spec as Spec
use fractal_d.Config.Groups.{expand_group}
use fractal_d.Config.Masks.{parse_device_access}
use fractal_d.Config.Signals.{parse_exit_status, parse_signal}
use fractal_d.Config.Conditions.{condition_prefix}

command_line :
    split_words (codes "/bin/sh -c 'a b'\\x41\" \"") 3
    ≡ ok (codes "/bin/sh" ∷ codes "-c" ∷ codes "a bA " ∷ [])
unfolding split_words is_whitespace
command_line = refl

unterminated : split_words (codes "\"a") 3 ≡ err (at 3 (codes "value has an unterminated quote"))
unfolding split_words
unterminated = refl

split_words-quote_words_example :
    split_words (quote_words (codes "it's" ∷ [] ∷ codes "a\"\\b" ∷ [])) 7
    ≡ ok (codes "it's" ∷ [] ∷ codes "a\"\\b" ∷ [])
split_words-quote_words_example =
    split_words-quote_words (codes "it's" ∷ [] ∷ codes "a\"\\b" ∷ []) 7

split_words-words_example : split_words (codes " a\tbc ") 1 ≡ ok (words (codes " a\tbc "))
split_words-words_example = split_words-words (codes " a\tbc ") 1 (ground arith)

abbrev declaration : Text
declaration = codes "# web\n[Service]\nexec = /bin/web \\\n  --port 80\nUser=www\n"

abbrev declared : NativeFile
declared = record {
  sections =
      (
        codes "service",
        record {
          section = codes "service";
          key = codes "exec";
          value = codes "/bin/web   --port 80";
          line = 3;
        }
            ∷ record {
              section = codes "service";
              key = codes "user";
              value = codes "www";
              line = 5;
            }
            ∷ [],
      )
      ∷ [];
}

accepted : parse declaration ≡ ok declared
unfolding parse is_whitespace split_once split_at strip_suffix strip_prefix trim trim_start trim_end
    is_ascii_alphanumeric to_ascii_lowercase text_eq text_lt contains validate_schema get
    directives_of
accepted = refl

parse-IsLawful_example : IsLawful (length (lines declaration)) declared
parse-IsLawful_example = parse-IsLawful declaration declared accepted

abbrev overlay : NativeFile
overlay = record {
  sections =
      (
        codes "service",
        record { section = codes "service"; key = codes "user"; value = codes "web"; line = 2 }
            ∷ [],
      )
      ∷ [];
}

value-merge_example :
    value (codes "Service") (codes "User") (merge declared overlay)
    ≡ answer
        (directives (codes "Service") (codes "User") overlay)
        (value (codes "Service") (codes "User") declared)
        (value (codes "Service") (codes "User") overlay)
unfolding keys
value-merge_example = value-merge declared overlay (codes "Service") (codes "User") (tt, tt)

overridden : value (codes "Service") (codes "User") (merge declared overlay) ≡ some (codes "web")
unfolding value merge to_ascii_lowercase text_eq text_lt contains get
overridden = refl

abbrev range : LimitRange
range = record { soft = Spec.value 2048; hard = max }

limits_read : parse_limit_range (codes "2KiB:max") (codes "memlock") true ≡ ok range
unfolding parse_limit_range split_once trim trim_start trim_end is_whitespace strip_suffix text_eq
    to_ascii_lowercase parse_number
limits_read = refl

parse_limit_range-IsBelow_example :
    IsU64 range.soft × IsU64 range.hard × IsBelow range.soft range.hard
parse_limit_range-IsBelow_example =
    parse_limit_range-IsBelow (codes "2KiB:max") (codes "memlock") true range limits_read

swap_calls : expand_group (codes "@swap") ≡ some (codes "swapoff" ∷ codes "swapon" ∷ [])
unfolding expand_group text_eq words words_from is_whitespace
swap_calls = refl

access : parse_device_access (codes "rm") 1 ≡ ok 3
unfolding parse_device_access
access = refl

status : parse_exit_status (codes "EX_CONFIG") (codes "success_exit_status") ≡ ok (pos 78)
unfolding parse_exit_status parse_signal trim trim_start trim_end is_whitespace to_ascii_uppercase
    text_eq strip_prefix get
status = refl

negated : condition_prefix (codes "|!!!/etc") ≡ (true, true, codes "/etc")
unfolding condition_prefix
negated = refl
