-- ===== src/Config/Choices.antt =====
-- The values that are one of a few words, whatever the case of their letters.
use fractal_d.Base.{
  none, some, List, [], ◌∷◌, ◌++◌, Text, codes, text_eq, any, is_absolute, trim, strip_prefix,
  starts_with, split_once, to_ascii_lowercase, if◌then◌else◌,
}
use fractal_d.BTree.Map.{TextMap, get}
use fractal_d.BTree.Set.{TextSet, insert}
use fractal_d.Config.Error.{message_only, Parsed, ok, err, ◌>>=◌}
use fractal_d.Config.Values.{invalid, or_invalid, is_one_of}
use fractal_d.Config.Words.{split_words}
use fractal_d.Spec.Modes as Modes
use fractal_d.Spec.Modes.{
  ManagerAction, NotifyAccess, PrivateTmpMode, ProtectSystemMode, ProtectHomeMode, ProtectProcMode,
  ProcSubsetMode, DevicePolicy, PrivateUsersMode, OutputMode, InputMode, DelegateMode,
  SystemCallArchitectures,
}

-- `match value.trim().to_ascii_lowercase().as_str()` with a word for each value
unfoldable pub choose_word {ℓ} : {A : Type ℓ} → Text → TextMap A → Text → Parsed A
unfolding trim to_ascii_lowercase get
choose_word key table text =
    let lower = to_ascii_lowercase (trim text) in or_invalid key lower (get table lower)

abbrev pub manager_action_words : TextMap ManagerAction
manager_action_words =
    (codes "none", Modes.none)
    ∷ (codes "exit", Modes.exit)
    ∷ (codes "halt", Modes.halt)
    ∷ (codes "halt_force", Modes.halt_force)
    ∷ (codes "poweroff", Modes.poweroff)
    ∷ (codes "poweroff_force", Modes.poweroff_force)
    ∷ (codes "reboot", Modes.reboot)
    ∷ (codes "reboot_force", Modes.reboot_force)
    ∷ (codes "kexec", Modes.kexec)
    ∷ (codes "kexec_force", Modes.kexec_force)
    ∷ (codes "soft_reboot", Modes.soft_reboot)
    ∷ (codes "soft_reboot_force", Modes.soft_reboot_force)
    ∷ []

unfoldable pub parse_manager_action : Text → Text → Parsed ManagerAction
unfolding choose_word
parse_manager_action text key = choose_word key manager_action_words text

abbrev pub notify_access_words : TextMap NotifyAccess
notify_access_words =
    (codes "none", Modes.none)
    ∷ (codes "main", Modes.main)
    ∷ (codes "exec", Modes.exec)
    ∷ (codes "all", Modes.all)
    ∷ []

unfoldable pub parse_notify_access : Text → Parsed NotifyAccess
unfolding choose_word
parse_notify_access text = choose_word (codes "notify_access") notify_access_words text

abbrev pub private_tmp_words : TextMap PrivateTmpMode
private_tmp_words =
    (codes "yes", Modes.yes)
    ∷ (codes "true", Modes.yes)
    ∷ (codes "on", Modes.yes)
    ∷ (codes "1", Modes.yes)
    ∷ (codes "no", Modes.no)
    ∷ (codes "false", Modes.no)
    ∷ (codes "off", Modes.no)
    ∷ (codes "0", Modes.no)
    ∷ (codes "disconnected", Modes.disconnected)
    ∷ []

unfoldable pub parse_private_tmp : Text → Parsed PrivateTmpMode
unfolding choose_word
parse_private_tmp text = choose_word (codes "private_tmp") private_tmp_words text

abbrev pub protect_system_words : TextMap ProtectSystemMode
protect_system_words =
    (codes "no", Modes.no)
    ∷ (codes "false", Modes.no)
    ∷ (codes "off", Modes.no)
    ∷ (codes "0", Modes.no)
    ∷ (codes "yes", Modes.yes)
    ∷ (codes "true", Modes.yes)
    ∷ (codes "on", Modes.yes)
    ∷ (codes "1", Modes.yes)
    ∷ (codes "full", Modes.full)
    ∷ (codes "strict", Modes.strict)
    ∷ []

unfoldable pub parse_protect_system : Text → Parsed ProtectSystemMode
unfolding choose_word
parse_protect_system text = choose_word (codes "protect_system") protect_system_words text

abbrev pub protect_home_words : TextMap ProtectHomeMode
protect_home_words =
    (codes "no", Modes.no)
    ∷ (codes "false", Modes.no)
    ∷ (codes "off", Modes.no)
    ∷ (codes "0", Modes.no)
    ∷ (codes "yes", Modes.yes)
    ∷ (codes "true", Modes.yes)
    ∷ (codes "on", Modes.yes)
    ∷ (codes "1", Modes.yes)
    ∷ (codes "read_only", Modes.read_only)
    ∷ (codes "tmpfs", Modes.tmpfs)
    ∷ []

unfoldable pub parse_protect_home : Text → Parsed ProtectHomeMode
unfolding choose_word
parse_protect_home text = choose_word (codes "protect_home") protect_home_words text

abbrev pub protect_proc_words : TextMap ProtectProcMode
protect_proc_words =
    (codes "default", Modes.default)
    ∷ (codes "no_access", Modes.no_access)
    ∷ (codes "invisible", Modes.invisible)
    ∷ (codes "ptraceable", Modes.ptraceable)
    ∷ []

unfoldable pub parse_protect_proc : Text → Parsed ProtectProcMode
unfolding choose_word
parse_protect_proc text = choose_word (codes "protect_proc") protect_proc_words text

abbrev pub proc_subset_words : TextMap ProcSubsetMode
proc_subset_words = (codes "all", Modes.all) ∷ (codes "pid", Modes.pid) ∷ []

unfoldable pub parse_proc_subset : Text → Parsed ProcSubsetMode
unfolding choose_word
parse_proc_subset text = choose_word (codes "proc_subset") proc_subset_words text

abbrev pub device_policy_words : TextMap DevicePolicy
device_policy_words =
    (codes "auto", Modes.auto)
    ∷ (codes "closed", Modes.closed)
    ∷ (codes "strict", Modes.strict)
    ∷ []

unfoldable pub parse_device_policy : Text → Parsed DevicePolicy
unfolding choose_word
parse_device_policy text = choose_word (codes "device_policy") device_policy_words text

abbrev pub private_users_words : TextMap PrivateUsersMode
private_users_words =
    (codes "yes", Modes.self_mapping)
    ∷ (codes "true", Modes.self_mapping)
    ∷ (codes "self", Modes.self_mapping)
    ∷ (codes "identity", Modes.identity)
    ∷ (codes "full", Modes.full)
    ∷ (codes "no", Modes.no)
    ∷ (codes "false", Modes.no)
    ∷ []

unfoldable pub parse_private_users : Text → Parsed PrivateUsersMode
unfolding choose_word
parse_private_users text = choose_word (codes "private_users") private_users_words text

abbrev pub output_words : TextMap OutputMode
output_words =
    (codes "journal", Modes.journal)
    ∷ (codes "null", Modes.null)
    ∷ (codes "inherit", Modes.inherit)
    ∷ (codes "tty", Modes.tty)
    ∷ (codes "socket", Modes.socket)
    ∷ []

-- `split_once(':').map_or("", |(_, path)| path)`
abbrev pub after_colon : Text → Text
after_colon text = elim (split_once text b':') [ none ↦ [] | some pair ↦ pair.1 ]

unfoldable pub parse_output_mode : Text → Text → Parsed OutputMode
unfolding get split_once strip_prefix
parse_output_mode text key = elim (get output_words text) [
  | some mode ↦ ok mode
  | none ↦
      if any (λ prefix. starts_with prefix text) (codes "file:" ∷ codes "append:" ∷ [])
      then (if is_absolute (after_colon text)
          then ok (Modes.file (after_colon text) (starts_with (codes "append:") text))
          else invalid key text)
      else invalid key text
]

abbrev pub input_words : TextMap InputMode
input_words =
    (codes "null", Modes.null)
    ∷ (codes "inherit", Modes.inherit)
    ∷ (codes "tty", Modes.tty)
    ∷ (codes "socket", Modes.socket)
    ∷ []

unfoldable pub parse_input_mode : Text → Text → Parsed InputMode
unfolding get strip_prefix
parse_input_mode text key = elim (get input_words text) [
  | some mode ↦ ok mode
  | none ↦ elim (strip_prefix (codes "file:") text) [
    | none ↦ invalid key text
    | some path ↦ if is_absolute path then ok (Modes.file path) else invalid key text
  ]
]

abbrev pub delegate_controllers : List Text
delegate_controllers =
    codes "cpu"
    ∷ codes "cpuset"
    ∷ codes "io"
    ∷ codes "memory"
    ∷ codes "pids"
    ∷ codes "hugetlb"
    ∷ codes "rdma"
    ∷ codes "misc"
    ∷ codes "dmem"
    ∷ []

-- The loop over the words
unfoldable pub read_controllers : List Text → TextSet → Parsed DelegateMode
unfolding insert
read_controllers [] controllers = ok (Modes.controllers controllers)
read_controllers (word ∷ rest) controllers =
    let more = read_controllers rest (insert word controllers) in
    if is_one_of delegate_controllers word
    then more
    else err (message_only (codes "invalid delegate controller " ++ word))

unfoldable pub parse_delegate : Text → Parsed DelegateMode
unfolding trim read_controllers
parse_delegate text =
    if is_one_of (codes "yes" ∷ codes "true" ∷ codes "all" ∷ []) (trim text)
    then ok Modes.all
    else if is_one_of (codes "no" ∷ codes "false" ∷ codes "none" ∷ []) (trim text)
    then ok Modes.no
    else (split_words (trim text) 0 >>= λ words. read_controllers words [])

abbrev pub architecture_words : TextMap SystemCallArchitectures
architecture_words =
    (codes "native", Modes.native)
    ∷ (codes "x86_64", Modes.x86_64)
    ∷ (codes "x86-64", Modes.x86_64)
    ∷ []

abbrev pub first_architecture : Text → List Text → Parsed SystemCallArchitectures
first_architecture text [] = invalid (codes "syscall_architectures") text
first_architecture text (word ∷ rest) =
    or_invalid (codes "syscall_architectures") text (get architecture_words word)

unfoldable pub parse_architectures : Text → Parsed SystemCallArchitectures
parse_architectures text = split_words text 0 >>= λ words.
    if any (λ word. text_eq word (codes "all")) words
    then ok Modes.all
    else first_architecture text words
