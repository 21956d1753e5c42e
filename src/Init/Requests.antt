-- ===== src/Init/Requests.antt =====
-- cmd/k0smos/init_linux.go: what the node answers to a request of the host.
-- The file system, the boot record, the kernel log and the k0s command are a parameter.
use k0smos.Base.{ℕ, ◌*◌, ◌^◌, Bool, false, not, ◌||◌, List, [], ◌∷◌, ◌++◌, if◌then◌else◌, ltb}
use k0smos.Base.Text.{Text, codes, text_eq, is_empty, cut, has_prefix, trim_space, split, join}
use k0smos.Base.Paths.{path_base}
use k0smos.Base.Decimal.{decimal}
use k0smos.Base.Io.{Result, ok, err}
use k0smos.Config.{Config}
use k0smos.Control.{Bytes}
use k0smos.Control.Port.{Responder, quote}

-- What os.Stat tells of a file.
pub record FileInfo : Type 0 where
  pub is_dir : Bool
  pub size : ℕ

-- The error of a command, and what it wrote to standard error.
pub record CommandError : Type 0 where
  pub message : Text
  pub stderr : Text

pub record Node : Type 0 where
  pub stat : Text → Result Text FileInfo
  pub read_file : Text → Result Text Bytes
  pub record_json : Result Text Bytes
  pub kernel_log : Result Text Bytes
  -- a command with its arguments and its environment
  pub output : List Text → List Text → Result CommandError Bytes

-- 4 << 20
abbrev pub max_served_file : ℕ
max_served_file = 4 * 2 ^ 20

abbrev pub of_size : Node → Text → ℕ → Result Text Bytes
of_size node path size =
    if ltb max_served_file size
    then err (
        path
        ++ (codes " is "
            ++ (decimal size ++ codes " bytes, over the 4194304-byte limit for a reply")))
    else node.read_file path

abbrev pub of_info : Node → Text → Result Text FileInfo → Result Text Bytes
of_info node path (err e) = err e
of_info node path (ok info) =
    if info.is_dir then err (path ++ codes " is a directory") else of_size node path info.size

-- readForHost(path)
unfoldable pub read_for_host : Node → Text → Result Text Bytes
read_for_host node path =
    if is_empty path
    then err (codes "no path given; use \"cat /path\"")
    else if not (has_prefix path (codes "/"))
    then err (codes "path must be absolute: " ++ quote path)
    else of_info node path (node.stat path)

abbrev pub kubeconfig_path : Text
kubeconfig_path = codes "/var/lib/k0s/pki/admin.conf"

abbrev pub kubeconfig_of : Result Text Bytes → Result Text Bytes
kubeconfig_of (ok content) = ok content
kubeconfig_of (err e) =
    err
      (kubeconfig_path ++ (codes " is not readable yet; the cluster may still be starting: " ++ e))

-- readKubeconfig()
unfoldable pub read_kubeconfig : Node → Result Text Bytes
read_kubeconfig node = kubeconfig_of (node.read_file kubeconfig_path)

abbrev pub is_join_role : Text → Bool
is_join_role role = text_eq (codes "controller") role || text_eq (codes "worker") role

unfoldable pub last_nonempty : Text → List Text → Text
last_nonempty found [] = found
last_nonempty found (l ∷ ls) =
    last_nonempty (if is_empty (trim_space l) then found else trim_space l) ls

-- lastLine(s)
unfoldable pub last_line : Text → Text
last_line s = last_nonempty (codes "no output") (split (trim_space s) b'\n')

abbrev pub is_k0s : List Text → Bool
is_k0s [] = false
is_k0s (k0s ∷ args) = text_eq (path_base k0s) (codes "k0s")

-- fmt's %v of a list of strings
abbrev pub list_text : List Text → Text
list_text l = b'[' ∷ (join l b' ' ++ codes "]")

abbrev pub token_of : Text → Result CommandError Bytes → Result Text Bytes
token_of role (ok out) = ok (trim_space out)
token_of role (err e) = err (
    codes "k0s token create --role="
    ++ (role ++ (codes ": " ++ (e.message ++ (codes ": " ++ last_line e.stderr)))))

abbrev pub token_command : List Text → Text → List Text
token_command [] role = []
token_command (k0s ∷ args) role =
    k0s ∷ codes "token" ∷ codes "create" ∷ (codes "--role=" ++ role) ∷ []

-- createJoinToken(cfg, role)
unfoldable pub create_join_token : Node → Config → Text → Result Text Bytes
create_join_token node c role =
    if not (is_join_role role)
    then err (codes "role must be one of [controller worker], got " ++ quote role)
    else if not (is_k0s c.exec)
    then err (
        codes "this node is not running k0s ("
        ++ (list_text c.exec ++ codes "), so it cannot mint a join token"))
    else token_of role (
        node.output (token_command c.exec role)
          ((codes "PATH=" ++ c.path) ∷ codes "HOME=/root" ∷ []))

-- answerRequest(s, cfg, request)
unfoldable pub answer_request : Node → Config → Responder
answer_request node c request =
    let (verb, arg, found) = cut request b' ' in
    if text_eq verb (codes "kubeconfig")
    then read_kubeconfig node
    else if text_eq verb (codes "token")
    then create_join_token node c (trim_space arg)
    else if text_eq verb (codes "status")
    then node.record_json
    else if text_eq verb (codes "dmesg")
    then node.kernel_log
    else if text_eq verb (codes "cat")
    then read_for_host node (trim_space arg)
    else err (codes "unknown request " ++ quote request)

abbrev pub is_port_name : Text → Result Text Text → Bool
is_port_name name (err e) = false
is_port_name name (ok got) = text_eq (trim_space got) name

unfoldable pub find_port_among : (Text → Result Text Text) → Text → List Text → Text
find_port_among name_of name [] = []
find_port_among name_of name (e ∷ es) =
    let rest = find_port_among name_of name es in
    if is_port_name name (name_of e) then codes "/dev/" ++ e else rest

-- findControlPort(name): over the entries of /sys/class/virtio-ports, with the content of their
-- `name` files; empty where there is none
unfoldable pub find_control_port : (Text → Result Text Text) → Result Text (List Text) → Text → Text
find_control_port name_of (err e) name = []
find_control_port name_of (ok entries) name = find_port_among name_of name entries
