-- ===== src/Config/Masks.antt =====
-- The sets that are written as words and kept as bits.
use fractal_d.Base.{
  ℕ, ◌+◌, ◌-◌, ◌^◌, Bool, Option, none, some, List, [], ◌∷◌, ◌++◌, Text, codes, text_eq, ◌==◌,
  to_ascii_uppercase, if◌then◌else◌,
}
use Prim.Native.Nat.{◌/◌, ◌%◌}
use fractal_d.BTree.Map.{TextMap, get}
use fractal_d.Config.Error.{at, message_only, Parsed, ok, err, ◌>>=◌}
use fractal_d.Config.Words.{split_words}

-- `mask & bit != 0` and `mask | bit`, where `bit` is a power of 2.
unfoldable pub has_bit : ℕ → ℕ → Bool
has_bit mask bit = mask / bit % 2 == 1

unfoldable pub with_bit : ℕ → ℕ → ℕ
unfolding has_bit
with_bit mask bit = if has_bit mask bit then mask else mask + bit

abbrev pub access_bit : ℕ → Option ℕ
access_bit c =
    if c == b'r' then some 2 else if c == b'w' then some 4 else if c == b'm' then some 1 else none

-- The loop over the characters of `value`
unfoldable pub access_loop : Text → ℕ → Text → ℕ → Parsed ℕ
unfolding with_bit
access_loop text line [] access =
    if access == 0 then err (at line (codes "device access is empty")) else ok access
access_loop text line (c ∷ cs) access = elim (access_bit c) [
  | none ↦ err (at line (codes "invalid device access " ++ text))
  | some bit ↦
      let more = access_loop text line cs (with_bit access bit) in
      if has_bit access bit then err (at line (codes "duplicate device access " ++ text)) else more
]

unfoldable pub parse_device_access : Text → ℕ → Parsed ℕ
unfolding access_loop
parse_device_access text line = access_loop text line text 0

abbrev pub namespaces : TextMap ℕ
namespaces =
    (codes "cgroup", 33554432)
    ∷ (codes "ipc", 134217728)
    ∷ (codes "net", 1073741824)
    ∷ (codes "mnt", 131072)
    ∷ (codes "pid", 536870912)
    ∷ (codes "time", 128)
    ∷ (codes "user", 268435456)
    ∷ (codes "uts", 67108864)
    ∷ []

unfoldable pub namespace_loop : List Text → ℕ → Parsed ℕ
unfolding with_bit get
namespace_loop [] flags = ok flags
namespace_loop (name ∷ rest) flags = elim (get namespaces name) [
  | none ↦ err (message_only (codes "invalid namespace " ++ name))
  | some flag ↦ namespace_loop rest (with_bit flags flag)
]

unfoldable pub parse_namespace_list : Text → Parsed ℕ
unfolding namespace_loop
parse_namespace_list text = split_words text 0 >>= λ names. namespace_loop names 0

abbrev pub capabilities : TextMap ℕ
capabilities =
    (codes "CAP_CHOWN", 0)
    ∷ (codes "CAP_DAC_OVERRIDE", 1)
    ∷ (codes "CAP_DAC_READ_SEARCH", 2)
    ∷ (codes "CAP_FOWNER", 3)
    ∷ (codes "CAP_FSETID", 4)
    ∷ (codes "CAP_KILL", 5)
    ∷ (codes "CAP_SETGID", 6)
    ∷ (codes "CAP_SETUID", 7)
    ∷ (codes "CAP_SETPCAP", 8)
    ∷ (codes "CAP_LINUX_IMMUTABLE", 9)
    ∷ (codes "CAP_NET_BIND_SERVICE", 10)
    ∷ (codes "CAP_NET_BROADCAST", 11)
    ∷ (codes "CAP_NET_ADMIN", 12)
    ∷ (codes "CAP_NET_RAW", 13)
    ∷ (codes "CAP_IPC_LOCK", 14)
    ∷ (codes "CAP_IPC_OWNER", 15)
    ∷ (codes "CAP_SYS_MODULE", 16)
    ∷ (codes "CAP_SYS_RAWIO", 17)
    ∷ (codes "CAP_SYS_CHROOT", 18)
    ∷ (codes "CAP_SYS_PTRACE", 19)
    ∷ (codes "CAP_SYS_PACCT", 20)
    ∷ (codes "CAP_SYS_ADMIN", 21)
    ∷ (codes "CAP_SYS_BOOT", 22)
    ∷ (codes "CAP_SYS_NICE", 23)
    ∷ (codes "CAP_SYS_RESOURCE", 24)
    ∷ (codes "CAP_SYS_TIME", 25)
    ∷ (codes "CAP_SYS_TTY_CONFIG", 26)
    ∷ (codes "CAP_MKNOD", 27)
    ∷ (codes "CAP_LEASE", 28)
    ∷ (codes "CAP_AUDIT_WRITE", 29)
    ∷ (codes "CAP_AUDIT_CONTROL", 30)
    ∷ (codes "CAP_SETFCAP", 31)
    ∷ (codes "CAP_MAC_OVERRIDE", 32)
    ∷ (codes "CAP_MAC_ADMIN", 33)
    ∷ (codes "CAP_SYSLOG", 34)
    ∷ (codes "CAP_WAKE_ALARM", 35)
    ∷ (codes "CAP_BLOCK_SUSPEND", 36)
    ∷ (codes "CAP_AUDIT_READ", 37)
    ∷ (codes "CAP_PERFMON", 38)
    ∷ (codes "CAP_BPF", 39)
    ∷ (codes "CAP_CHECKPOINT_RESTORE", 40)
    ∷ []

abbrev pub address_families : TextMap ℕ
address_families =
    (codes "AF_UNIX", 1)
    ∷ (codes "AF_LOCAL", 1)
    ∷ (codes "AF_INET", 2)
    ∷ (codes "AF_INET6", 10)
    ∷ (codes "AF_PACKET", 17)
    ∷ (codes "AF_NETLINK", 16)
    ∷ (codes "AF_ALG", 38)
    ∷ (codes "AF_VSOCK", 40)
    ∷ (codes "AF_QIPCRTR", 42)
    ∷ []

-- The loops of `parse_capabilities` and `parse_address_families`: the bit of each name, unless one of
-- them is `ALL`.
unfoldable pub bits_loop : TextMap ℕ → ℕ → Text → List Text → ℕ → Parsed ℕ
unfolding with_bit get to_ascii_uppercase
bits_loop table every message [] mask = ok mask
bits_loop table every message (name ∷ rest) mask =
    let upper = to_ascii_uppercase name in
    elim (get table upper) [
      | some bit ↦ bits_loop table every message rest (with_bit mask (2 ^ bit))
      | none ↦
          if text_eq upper (codes "ALL") then ok every else err (message_only (message ++ upper))
    ]

unfoldable pub parse_capabilities : Text → Parsed ℕ
unfolding bits_loop
parse_capabilities text = split_words text 0 >>= λ names.
    bits_loop capabilities (2 ^ 41 - 1) (codes "invalid capability ") names 0

unfoldable pub parse_address_families : Text → Parsed ℕ
unfolding bits_loop
parse_address_families text = split_words text 0 >>= λ names.
    bits_loop address_families (2 ^ 45 - 1) (codes "invalid address family ") names 0
