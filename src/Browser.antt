-- ===== src/Browser.antt =====
-- src/oauth2_browser.cpp: the port search, and the search for a browser and its start on Linux. The
-- environment, the file system and the child process are parameters; the variants for Windows and
-- macOS, which the preprocessor leaves out, are not modelled but for what they throw on Linux.
pub mod Ports
pub mod Session
pub mod Launch
use datazoo_oauth.Base.{
  ℕ, zero, suc, ◌+◌, Bool, true, false, not, ◌&&◌, ◌||◌, Option, none, some, List, [], ◌++◌, ◌∷◌,
  Bytes, codes, is_empty, take_until, after_first, length, ltb, ◌==◌, if◌then◌else◌, Result, Error,
  ok, err, runtime_error,
}
use datazoo_oauth.Base.Decimal.{to_string}

-- The tests of a port on the three platforms are stubs.
is_port_available_windows : ℕ → Bool
is_port_available_windows port = true

is_port_available_mac_os : ℕ → Bool
is_port_available_mac_os port = true

is_port_available_linux : ℕ → Bool
is_port_available_linux port = true

unfoldable pub is_port_available : ℕ → Bool
unfolding is_port_available_linux
is_port_available port = is_port_available_linux port

pub range_error : ℕ → Result ℕ
range_error start_port = err (
    runtime_error (
      codes "No available ports found in range "
      ++ (to_string start_port ++ (codes "-" ++ to_string (start_port + 99)))))

-- The loop over the ports, with the ports left.
pub port_loop : (ℕ → Bool) → ℕ → ℕ → ℕ → Result ℕ
port_loop available start_port zero port = range_error start_port
port_loop available start_port (suc left) port =
    let rest = port_loop available start_port left (port + 1) in
    if available port then ok port else rest

unfoldable pub find_available_port : ℕ → Result ℕ
unfolding port_loop is_port_available
find_available_port start_port = port_loop is_port_available start_port 100 start_port

-- What `CanOpenBrowser` reads: three variables, and whether a file can be executed.
pub record Environment : Type 0 where
  pub display : Option Bytes
  pub wayland_display : Option Bytes
  pub path : Option Bytes
  pub access : Bytes → Bool

pub is_set : Option Bytes → Bool
is_set none = false
is_set (some v) = not (is_empty v)

unfoldable pub get_default_browser : Bytes
get_default_browser = codes "xdg-open"

-- The directory holds the opener.
pub has_opener : (Bytes → Bool) → Bytes → Bool
has_opener access dir = not (is_empty dir) && access (dir ++ codes "/xdg-open")

-- `while (start <= path.size())`, on what follows `start`.
pub path_loop : (Bytes → Bool) → ℕ → Bytes → Bool
path_loop access zero rest = false
path_loop access (suc fuel) rest = elim (has_opener access (take_until (λ c. c == b':') rest)) [
  | true ↦ true
  | false ↦ elim (after_first (codes ":") rest) [
    | none ↦ false
    | some next ↦ path_loop access fuel next
  ]
]

pub search_path : (Bytes → Bool) → Option Bytes → Bool
unfolding path_loop
search_path access none = false
search_path access (some path) = path_loop access (suc (length path)) path

unfoldable pub can_open_browser : Environment → Bool
unfolding is_set search_path has_opener
can_open_browser e =
    if not (is_set e.display || is_set e.wayland_display)
    then false
    else search_path e.access e.path

-- What `waitpid` with WNOHANG reports of the child.
pub data WaitStatus : Type 0 where
  running : WaitStatus
  exited : ℕ → WaitStatus
  signalled : WaitStatus
  failed : WaitStatus

could_not_open : Bytes → Result (Unit {0})
could_not_open status = err (
    runtime_error (
      codes "xdg-open could not open the URL (exit status "
      ++ (status ++ codes "). There is usually no browser reachable from this session.")))

-- How the call ends once a poll finds the child no longer running; `none` for another poll.
pub verdict : WaitStatus → Option (Result (Unit {0}))
unfolding could_not_open
verdict running = none
verdict (exited status) = some (if status == 0 then ok tt else could_not_open (to_string status))
verdict signalled = some (could_not_open (codes "-1"))
verdict failed = some (ok tt)

-- The poll loop in the parent; `waitpid` by the milliseconds waited, which stand beside the result.
pub poll_loop : (ℕ → WaitStatus) → ℕ → ℕ → Option (ℕ × Result (Unit {0}))
unfolding verdict
poll_loop waitpid zero waited = none
poll_loop waitpid (suc fuel) waited = elim (ltb waited 2000) [
  | false ↦ some (waited, ok tt)
  | true ↦ elim (verdict (waitpid waited)) [
    | some r ↦ some (waited, r)
    | none ↦ poll_loop waitpid fuel (waited + 50)
  ]
]

-- `forked` is false where fork fails; 41 rounds are enough.
unfoldable pub open_url_linux : Bool → (ℕ → WaitStatus) → Option (ℕ × Result (Unit {0}))
unfolding poll_loop
open_url_linux false waitpid =
    some (0, err (runtime_error (codes "Failed to fork process for opening browser")))
open_url_linux true waitpid = poll_loop waitpid 41 0

-- `OpenUrl` as it is compiled on Linux, and what is compiled there of the other two openers.
unfoldable pub open_url : Bool → (ℕ → WaitStatus) → Option (ℕ × Result (Unit {0}))
unfolding open_url_linux
open_url forked waitpid = open_url_linux forked waitpid

unfoldable pub open_url_windows : Bytes → Result (Unit {0})
open_url_windows url =
    err (runtime_error (codes "Windows-specific browser opening not available on this platform"))

unfoldable pub open_url_mac_os : Bytes → Result (Unit {0})
open_url_mac_os url =
    err (runtime_error (codes "macOS-specific browser opening not available on this platform"))
