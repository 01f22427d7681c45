-- ===== src/Main.antt =====
-- main.go: the choice of what to do, from the arguments and the configuration.
--
-- The flags are what the package flag has parsed. A run ends with an exit status, prints the
-- statistics of a key, or serves. Main.Launch has what is set up for that. The lines that are
-- printed on an error are not part of the model.
pub mod Modes
pub mod HeaderFlags
pub mod Launch
pub mod Program
use mcp_content_guard.Base.{
  ℕ, Bool, true, false, not, ◌&&◌, ◌||◌, Option, none, some, List, [], ◌∷◌, ◌++◌, ◌==◌,
  if◌then◌else◌,
}
use mcp_content_guard.Base.Bytes.{Bytes, codes, bytes_eq}
use mcp_content_guard.Base.Int64.{Int64, lt64}
use mcp_content_guard.Base.Lines.{join}
use mcp_content_guard.Base.Space.{trim_space}
use mcp_content_guard.Base.Dictionary.{Dictionary, put}

abbrev pub default_threshold : Int64
default_threshold = 10240

pub record Config : Type 0 where
  pub threshold : Int64
  pub max_body_bytes : Int64
  pub cache_max_bytes : Int64
  pub upstream_url : Bytes
  pub upstream_headers : Dictionary Bytes

pub record Flags : Type 0 where
  pub threshold : Int64
  pub max_body_bytes : Int64
  pub cache_max_bytes : Int64
  pub upstream_url : Bytes
  pub listen_addr : Bytes
  pub raw_headers : List Bytes
  pub enable_stats : Bool

-- What is left of the arguments behind the flags.
pub record Arguments : Type 0 where
  pub subcommand : Bytes
  pub command : List Bytes

unfoldable pub is_subcommand : Bytes → Bool
is_subcommand arg = bytes_eq arg (codes "start") || bytes_eq arg (codes "stats")

unfoldable pub take_subcommand : List Bytes → Arguments
unfolding is_subcommand
take_subcommand [] = record { subcommand = codes "start"; command = [] }
take_subcommand (arg ∷ args) =
    if is_subcommand arg
    then record { subcommand = arg; command = args }
    else record { subcommand = codes "start"; command = arg ∷ args }

unfoldable pub drop_separator : List Bytes → List Bytes
drop_separator [] = []
drop_separator (arg ∷ args) = if bytes_eq arg (codes "--") then args else arg ∷ args

unfoldable pub arguments : List Bytes → Arguments
unfolding take_subcommand drop_separator
arguments args =
    let a = take_subcommand args in
    record { subcommand = a.subcommand; command = drop_separator a.command }

unfoldable pub override : Int64 → Int64 → Int64
override flag value = if lt64 0 flag then flag else value

-- The text before the first colon, and the text behind it.
unfoldable pub cut_colon : Bytes → Option (Bytes × Bytes)
cut_colon [] = none
cut_colon (c ∷ s) =
    let later = cut_colon s in
    if c == b':'
    then some ([], s)
    else (elim later [ none ↦ none | some (before, after) ↦ some (c ∷ before, after) ])

-- One header flag, `none` for a fatal error.
unfoldable pub parse_header : Bytes → Option (Bytes × Bytes)
unfolding cut_colon
parse_header h = elim (cut_colon h) [
  | none ↦ none
  | some (before, after) ↦
      if bytes_eq (trim_space before) [] then none else some (trim_space before, trim_space after)
]

-- `headerFlags.Set`, for each flag in order.
unfoldable pub header_flags_set : List Bytes → Bytes → List Bytes
header_flags_set h v = h ++ (v ∷ [])

unfoldable pub merge_headers : List Bytes → Dictionary Bytes → Option (Dictionary Bytes)
unfolding parse_header
merge_headers [] headers = some headers
merge_headers (h ∷ hs) headers = elim (parse_header h) [
  | none ↦ none
  | some (k, v) ↦ merge_headers hs (put k v headers)
]

pub data Decision : Type 0 where
  -- log.Fatalf, or os.Exit(1) behind a message
  exits : Decision
  prints_stats : Bytes → Decision
  -- the URL, the address, the headers, the threshold, the limits of bodies and of the cache, and the
  -- key of the statistics
  serves : Bytes → Bytes → Dictionary Bytes → Config → Option Bytes → Decision
  -- the command, the threshold and the limits, and the key of the statistics
  runs : List Bytes → Config → Option Bytes → Decision

unfoldable pub effective_url : Flags → Config → Bytes
effective_url flags cfg =
    if bytes_eq flags.upstream_url [] then cfg.upstream_url else flags.upstream_url

unfoldable pub config_key : Bytes → Bytes → List Bytes → Bytes
config_key listen_addr url command =
    if not (bytes_eq listen_addr []) && not (bytes_eq url [])
    then codes "http:" ++ url
    else (elim command [ [] ↦ [] | arg ∷ args ↦ codes "local:" ++ join b' ' (arg ∷ args) ])

unfoldable pub has_command : List Bytes → Bool
has_command [] = false
has_command (arg ∷ args) = true

-- The flags over the configuration.
unfoldable pub overridden : Flags → Config → Config
unfolding override
overridden flags cfg = record cfg {
  threshold = override flags.threshold cfg.threshold;
  max_body_bytes = override flags.max_body_bytes cfg.max_body_bytes;
  cache_max_bytes = override flags.cache_max_bytes cfg.cache_max_bytes;
}

-- From the arguments and the parsed configuration to what runs.
unfoldable pub choose : Flags → List Bytes → Config → Decision
unfolding arguments overridden merge_headers effective_url config_key has_command
choose flags args read =
    let a = arguments args in
    let cfg = overridden flags read in
    let url = effective_url flags cfg in
    let has_listen = not (bytes_eq flags.listen_addr []) in
    let has_url = not (bytes_eq url []) in
    let key = config_key flags.listen_addr url a.command in
    let stats_key = if flags.enable_stats then some key else none in
    elim (merge_headers flags.raw_headers cfg.upstream_headers) [
      | none ↦ exits
      | some headers ↦
          if bytes_eq a.subcommand (codes "stats")
          then (if bytes_eq key [] then exits else prints_stats key)
          else if has_url && not has_listen
          then exits
          else if has_listen && not has_url
          then exits
          else if has_listen && has_command a.command
          then exits
          else if not has_listen && not (has_command a.command)
          then exits
          else if has_listen
          then serves url flags.listen_addr headers cfg stats_key
          else runs a.command cfg stats_key
    ]
