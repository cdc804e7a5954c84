-- ===== src/Lib.antt =====
-- Models of the service core of FractalD, a service manager: the crate crates/fractald-core, which
-- decides what a service descriptor may say, in which order services start and stop, and how one
-- service lives; the parser of the declarations that describe services; the protocol and the markers
-- by which they are controlled; and the escaping of unit names. The supervisor and the tools stand
-- around them.
--
-- The parts, and how they meet:
-- - Base: the names of the library that the models share, lists, the `i32` as ℤ, the text functions
--   of Rust that the source calls (searching and cutting, words and white space, decimal numbers),
--   and the order of the texts. A `String`, a path or an OS string is a `Text`, the list of its
--   character codes.
-- - BTree: the `BTreeSet` and the `BTreeMap` over texts, as ascending lists.
-- - Spec: `ServiceSpec` with every type that it is made of, `ServiceSpec::new`, and
--   `ServiceSpec::validate` (Spec/Validate). All of it is crates/fractald-core/src/lib.rs.
-- - Record: `ServiceRecord` of the same file. `transition` takes a record and an event to the next
--   record and to `Result<Vec<Action>, TransitionError>`; each handler is a function of its own, in
--   Start, Stop and Exit after the part of a service's life it belongs to. `exited` is called
--   `process_exited`, since the constructor of `ExitReason` has that name. `ServiceRecord::new` is
--   `create`. Restart says which events call for a restart without the functions that decide it.
-- - Graph: `DependencyGraph` of crates/fractald-core/src/graph.rs. Model has the registry and the
--   dependencies it derives, Paths the mount paths and their specifiers, Closure the two walks over
--   the requirements, Ordering the edges, Sorting the topological sort, Plan the plans,
--   BestEffort the plan that stops every service although the constraints have a cycle.
-- - Control: crates/fractald-control/src/lib.rs. Request and Response have the two enumerations, the
--   line of each value (`as_line`) and the parsers of the lines (`parse`, one function for each arm);
--   `Request::parse` keeps its order of refusals. Markers is `StatePaths` and the functions
--   `service_is_enabled`, `service_is_masked` and `service_enabled_names`: a directory is the map of
--   its entries to their kinds, and each operation takes it to the next.
-- - Config: crates/fractald-config/src/lib.rs. Words is `split_words`, Schema the tables and the check
--   of `validate_schema`, File `NativeFile` with its questions and `merge`, Reader
--   `NativeFile::parse`, and Values, Choices, Signals, Masks and Conditions the parsers of the values.
--   Lookup has what the sections ask of a file; Conditions/Sections, Security and SyscallFilter fill a
--   `ServiceSpec` from theirs, with Groups for crates/fractald-config/src/syscall_groups.rs.
--   A loop keeps its variables in a record (`Cut`, `Reader`), and each round is a function of it.
-- - Escape: crates/fractald-escape/src/main.rs. Here a text is the bytes of a `str`, since the code
--   escapes byte by byte; Utf8 says which of them are UTF-8. `index..index + 4` cuts a `str`, so the
--   model panics where that is no boundary of characters.
-- - Fixtures: a descriptor to test with. The test modules run the models at concrete inputs.
-- A client sends a `Request` over the control socket and reads a `Response`; enabling and masking
-- go through the markers. The supervisor, which is not modelled, keeps a `DependencyGraph` of the
-- descriptors and one `ServiceRecord` for each; it asks the graph for a plan and drives the records
-- along it.
--
-- Errors, panics and bounds. A planning function returns a `Run`: a result, a `GraphError`, a
-- panic, or no end within the fuel. Each `expect`, each index and each `-= 1` of the source is a
-- place where the model can panic. The walks have as fuel two more than the number of names that
-- the registry can put on the queue, counted with repetitions; the sort and the loop of
-- `plan_all_stop_best_effort` have one round more than there are selected services, and each
-- round puts one service in order. The generation of a record is a `u64`, and its wrap to 1 is
-- written out; a process id and a restart count stay numbers, since the code only compares the
-- first and bounds the second by the `u32` restart limit. A `Duration` is its nanoseconds.
--
-- A number of the protocol is below its type's limit by `parse_number`, which refuses what is above.
-- The operations of the markers fail for what is stored under a name, and not for permissions or a
-- full disk.
--
-- Parameters. `expand_mount_path` reads five environment variables: `Environment` holds them, and
-- every theorem on plans holds for each value of it.
--
-- Not modelled: of the crates of Control and Escape the socket, the environment that chooses the
-- directories, and the printing; of the parser the functions that fill a `ServiceSpec` from the
-- sections other than conditions, assertions, security and the limits of resources, and
-- `parse_duration` and `parse_cpu_quota`, which compute in floating point; of the other crates the
-- supervisor with its processes, sockets and timers, and the tools, most of which is I/O.
pub mod Base
pub mod BTree
pub mod Spec
pub mod Fixtures
pub mod Record
pub mod Graph
pub mod Control
pub mod Config
pub mod Escape
