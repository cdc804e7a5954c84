-- ===== src/Config/Security.antt =====
-- `parse_security` and `parse_limits`.
use fractal_d.Base.{
  ℕ, Bool, true, false, Option, none, some, List, [], ◌∷◌, ◌++◌, Text, codes, ℤ, pos, negsuc, leb,
  ltb, join, to_ascii_lowercase, if◌then◌else◌,
}
use fractal_d.BTree.Map.{TextMap, get}
use fractal_d.Config.Error.{at, Parsed, ok, err, ◌>>=◌}
use fractal_d.Config.Schema.{Directive}
use fractal_d.Config.File.{NativeFile, value, effective_directives, is_empty}
use fractal_d.Config.Values.{invalid, or_invalid, parse_mode, parse_limit_range}
use fractal_d.Config.Words.{split_words}
use fractal_d.Config.Lookup.{bool_value, paths}
use fractal_d.Config.SyscallFilter.{parse_syscall_filter}
use fractal_d.Config.Signals.{parse_i32, parse_errno}
use fractal_d.Config.Masks.{
  parse_device_access, parse_namespace_list, parse_capabilities, parse_address_families,
}
use fractal_d.Config.Choices.{
  parse_private_tmp, parse_device_policy, parse_delegate, parse_private_users, parse_protect_system,
  parse_protect_home, parse_protect_proc, parse_proc_subset, parse_architectures,
}
use fractal_d.Spec.{ServiceSpec, LimitRange}
use fractal_d.Spec.Modes as Modes
use fractal_d.Spec.Modes.{
  OomPolicy, DeviceAccessRule, SystemCallRule, SystemCallRuleAction, SystemCallFilter, allow, deny,
  deny_with_errno,
}

-- A change of a descriptor by the directives
abbrev pub Change : Type 0
Change = ServiceSpec → Parsed ServiceSpec

-- `if let Some(value) = file.value(section, key) { ... parse(value)? ... }`
abbrev pub changed {ℓ} :
    {A : Type ℓ} → (Text → Parsed A) → (A → ServiceSpec → ServiceSpec) → Option Text → Change
changed parse set none spec = ok spec
changed parse set (some text) spec = parse text >>= λ a. ok (set a spec)

-- `if let Some(value) = bool_value(file, section, key)? { *destination = value; }`
abbrev pub switched : NativeFile → Text → (Bool → ServiceSpec → ServiceSpec) → Change
switched file key set spec = bool_value (codes "security") key file >>= λ found.
    ok (elim found [ none ↦ spec | some b ↦ set b spec ])

abbrev pub security : NativeFile → Text → Option Text
security file key = value (codes "security") key file

-- One change after another
abbrev pub all_of : List Change → Change
all_of [] spec = ok spec
all_of (change ∷ rest) spec = change spec >>= all_of rest

-- `(-low..=high).contains(&number)`
abbrev pub is_within : ℕ → ℕ → ℤ → Bool
is_within low high (pos n) = leb n high
is_within low high (negsuc n) = ltb n low

unfoldable pub parse_within : ℕ → ℕ → Text → Text → Parsed ℤ
unfolding parse_i32
parse_within low high key text = or_invalid key text (parse_i32 text) >>= λ number.
    if is_within low high number then ok number else invalid key text

abbrev pub oom_policies : TextMap OomPolicy
oom_policies =
    (codes "continue", Modes.continue)
    ∷ (codes "stop", Modes.stop)
    ∷ (codes "kill", Modes.kill)
    ∷ []

unfoldable pub parse_oom_policy : Text → Parsed OomPolicy
unfolding get to_ascii_lowercase
parse_oom_policy text =
    or_invalid (codes "oom_policy") text (get oom_policies (to_ascii_lowercase text))

-- `values.pop()`: the words before the last, and the last
unfoldable pub pop : List Text → Option (List Text × Text)
pop [] = none
pop (word ∷ rest) = elim (pop rest) [
  | none ↦ some ([], word)
  | some (before, last) ↦ some (word ∷ before, last)
]

unfoldable pub parse_device_rule : Directive → Parsed DeviceAccessRule
unfolding pop join
parse_device_rule d = split_words d.value d.line >>= λ words. elim (pop words) [
  | none ↦ err (at d.line (codes "device_allow has no access mode"))
  | some (before, access) ↦
      if is_empty (join b' ' before)
      then err (at d.line (codes "device_allow has no device"))
      else (parse_device_access access d.line >>= λ bits.
          ok (record { device = join b' ' before; access = bits }))
]

-- The loop over the directives `device_allow`
unfoldable pub allow_devices : List Directive → Change
unfolding parse_device_rule
allow_devices [] spec = ok spec
allow_devices (d ∷ ds) spec = parse_device_rule d >>= λ rule.
    allow_devices ds (record spec { device_allow = spec.device_allow ++ rule ∷ [] })

abbrev pub listed : NativeFile → Text → (List Text → ServiceSpec → ServiceSpec) → Change
listed file key set spec = paths (codes "security") key file >>= λ found. ok (set found spec)

abbrev pub filtered : NativeFile → Change
filtered file spec =
    parse_syscall_filter file >>= λ filter. ok (record spec { system_call_filter = filter })

abbrev pub security_changes : NativeFile → List Change
security_changes file =
    switched file (codes "no_new_privileges") (λ b s. record s { no_new_privileges = b })
    ∷ switched file (codes "memory_deny_write_execute")
        (λ b s. record s { memory_deny_write_execute = b })
    ∷ switched file (codes "restrict_realtime") (λ b s. record s { restrict_realtime = b })
    ∷ switched file (codes "restrict_suid_sgid") (λ b s. record s { restrict_suid_sgid = b })
    ∷ switched file (codes "protect_control_groups")
        (λ b s. record s { protect_control_groups = b })
    ∷ switched file (codes "protect_kernel_modules")
        (λ b s. record s { protect_kernel_modules = b })
    ∷ switched file (codes "protect_kernel_tunables")
        (λ b s. record s { protect_kernel_tunables = b })
    ∷ switched file (codes "protect_kernel_logs") (λ b s. record s { protect_kernel_logs = b })
    ∷ switched file (codes "protect_clock") (λ b s. record s { protect_clock = b })
    ∷ switched file (codes "protect_hostname") (λ b s. record s { protect_hostname = b })
    ∷ switched file (codes "lock_personality") (λ b s. record s { lock_personality = b })
    ∷ changed (λ text. parse_mode text (codes "umask")) (λ a s. record s { umask = some a })
        (security file (codes "umask"))
    ∷ changed (parse_within 20 19 (codes "nice")) (λ a s. record s { nice = some a })
        (security file (codes "nice"))
    ∷ changed (parse_within 1000 1000 (codes "oom_score_adjust"))
        (λ a s. record s { oom_score_adjust = some a }) (security file (codes "oom_score_adjust"))
    ∷ changed parse_oom_policy (λ a s. record s { oom_policy = a })
        (security file (codes "oom_policy"))
    ∷ changed parse_private_tmp (λ a s. record s { private_tmp = a })
        (security file (codes "private_tmp"))
    ∷ switched file (codes "private_devices") (λ b s. record s { private_devices = b })
    ∷ switched file (codes "private_mounts") (λ b s. record s { private_mounts = b })
    ∷ switched file (codes "private_ipc") (λ b s. record s { private_ipc = b })
    ∷ switched file (codes "private_network") (λ b s. record s { private_network = b })
    ∷ changed parse_device_policy (λ a s. record s { device_policy = a })
        (security file (codes "device_policy"))
    ∷ allow_devices (effective_directives (codes "security") (codes "device_allow") file)
    ∷ changed parse_delegate (λ a s. record s { delegate = a }) (security file (codes "delegate"))
    ∷ changed parse_private_users (λ a s. record s { private_users = a })
        (security file (codes "private_users"))
    ∷ changed parse_namespace_list (λ a s. record s { restrict_namespaces = some a })
        (security file (codes "restrict_namespaces"))
    ∷ changed parse_protect_system (λ a s. record s { protect_system = a })
        (security file (codes "protect_system"))
    ∷ changed parse_protect_home (λ a s. record s { protect_home = a })
        (security file (codes "protect_home"))
    ∷ changed parse_protect_proc (λ a s. record s { protect_proc = a })
        (security file (codes "protect_proc"))
    ∷ changed parse_proc_subset (λ a s. record s { proc_subset = a })
        (security file (codes "proc_subset"))
    ∷ listed file (codes "read_write") (λ found s. record s { read_write_paths = found })
    ∷ listed file (codes "read_only") (λ found s. record s { read_only_paths = found })
    ∷ listed file (codes "inaccessible") (λ found s. record s { inaccessible_paths = found })
    ∷ changed parse_capabilities (λ a s. record s { capability_bounding_set = some a })
        (security file (codes "capability_bounding_set"))
    ∷ changed parse_capabilities (λ a s. record s { ambient_capabilities = some a })
        (security file (codes "ambient_capabilities"))
    ∷ changed parse_address_families (λ a s. record s { restrict_address_families = some a })
        (security file (codes "address_families"))
    ∷ changed parse_architectures (λ a s. record s { system_call_architectures = some a })
        (security file (codes "syscall_architectures"))
    ∷ changed (λ text. parse_errno text (codes "syscall_error_number"))
        (λ a s. record s { system_call_error_number = some a })
        (security file (codes "syscall_error_number"))
    ∷ filtered file
    ∷ []

unfoldable pub parse_security : NativeFile → ServiceSpec → Parsed ServiceSpec
unfolding parse_within parse_oom_policy allow_devices parse_syscall_filter
parse_security file spec = all_of (security_changes file) spec

abbrev pub ranged : NativeFile → Text → Bool → (LimitRange → ServiceSpec → ServiceSpec) → Change
ranged file key bytes set =
    changed (λ text. parse_limit_range text key bytes) (λ range. set range)
      (value (codes "resources") key file)

unfoldable pub parse_limits : NativeFile → ServiceSpec → Parsed ServiceSpec
parse_limits file spec =
    all_of
      (ranged file (codes "nofile") false (λ range s. record s { nofile = some range })
        ∷ ranged file (codes "memlock") true (λ range s. record s { memlock = some range })
        ∷ ranged file (codes "nproc") false (λ range s. record s { nproc = some range })
        ∷ [])
      spec
