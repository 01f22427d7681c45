-- ===== src/Main/Modes.antt =====
-- Which combinations of flags, command and configuration start what.
use mcp_content_guard.Base.{
  ◌≡◌, ◌⊎◌, inl, inr, refl, sym, ap, ◌∙◌, Bool, true, false, not, ◌&&◌, Option, none, some, List,
  [], ◌∷◌, arith, if◌then◌else◌,
}
use mcp_content_guard.Base.Bytes.{Bytes, codes, bytes_eq}
use mcp_content_guard.Base.Dictionary.{Dictionary}
use mcp_content_guard.Main.{
  Config, Flags, Decision, exits, prints_stats, serves, runs, arguments, merge_headers,
  effective_url, config_key, has_command, overridden, choose,
}

-- A misuse of the program.
pub data IsMisuse (flags : Flags) (args : List Bytes) (cfg : Config) : Type 0 where
  bad_header : merge_headers flags.raw_headers cfg.upstream_headers ≡ none → IsMisuse flags args cfg
  stats_of_nothing :
      bytes_eq (arguments args).subcommand (codes "stats") ≡ true
      → (bytes_eq flags.listen_addr [] ≡ true) ⊎ (bytes_eq (effective_url flags cfg) [] ≡ true)
      → has_command (arguments args).command ≡ false
      → IsMisuse flags args cfg
  url_without_listen :
      bytes_eq (arguments args).subcommand (codes "stats") ≡ false
      → bytes_eq (effective_url flags cfg) [] ≡ false
      → bytes_eq flags.listen_addr [] ≡ true
      → IsMisuse flags args cfg
  listen_without_url :
      bytes_eq (arguments args).subcommand (codes "stats") ≡ false
      → bytes_eq flags.listen_addr [] ≡ false
      → bytes_eq (effective_url flags cfg) [] ≡ true
      → IsMisuse flags args cfg
  listen_and_command :
      bytes_eq (arguments args).subcommand (codes "stats") ≡ false
      → bytes_eq flags.listen_addr [] ≡ false
      → has_command (arguments args).command ≡ true
      → IsMisuse flags args cfg
  nothing_to_run :
      bytes_eq (arguments args).subcommand (codes "stats") ≡ false
      → bytes_eq flags.listen_addr [] ≡ true
      → has_command (arguments args).command ≡ false
      → IsMisuse flags args cfg

-- The key of the statistics that a session collects.
abbrev pub session_key : Flags → List Bytes → Config → Option Bytes
session_key flags args cfg =
    if flags.enable_stats
    then some (config_key flags.listen_addr (effective_url flags cfg) (arguments args).command)
    else none

-- What must hold for each decision, and what it is made of.
pub data IsAllowed (flags : Flags) (args : List Bytes) (cfg : Config) : Decision → Type 0 where
  exit : IsMisuse flags args cfg → IsAllowed flags args cfg exits
  stats :
      (key : Bytes)
      → bytes_eq (arguments args).subcommand (codes "stats") ≡ true
      → key ≡ config_key flags.listen_addr (effective_url flags cfg) (arguments args).command
      → bytes_eq key [] ≡ false
      → IsAllowed flags args cfg (prints_stats key)
  http :
      (headers : Dictionary Bytes)
      → bytes_eq (arguments args).subcommand (codes "stats") ≡ false
      → bytes_eq (effective_url flags cfg) [] ≡ false
      → bytes_eq flags.listen_addr [] ≡ false
      → has_command (arguments args).command ≡ false
      → merge_headers flags.raw_headers cfg.upstream_headers ≡ some headers
      → IsAllowed flags args cfg (
          serves
            (effective_url flags cfg)
            flags.listen_addr
            headers
            (overridden flags cfg)
            (session_key flags args cfg))
  local :
      bytes_eq (arguments args).subcommand (codes "stats") ≡ false
      → has_command (arguments args).command ≡ true
      → bytes_eq flags.listen_addr [] ≡ true
      → bytes_eq flags.upstream_url [] ≡ true
      → bytes_eq cfg.upstream_url [] ≡ true
      → IsAllowed flags args cfg
          (runs (arguments args).command (overridden flags cfg) (session_key flags args cfg))

if_holds :
    (P : Decision → Type 0) (b : Bool) (x y : Decision)
    → (b ≡ true → P x)
    → (b ≡ false → P y)
    → P (if b then x else y)
if_holds P true x y h k = h refl
if_holds P false x y h k = k refl

not-true : (b : Bool) → not b ≡ true → b ≡ false
not-true true h = cc
not-true false h = refl

not-false : (b : Bool) → not b ≡ false → b ≡ true
not-false true h = refl
not-false false h = cc

merged_holds :
    (P : Decision → Type 0) (merged : Option (Dictionary Bytes)) (f : Dictionary Bytes → Decision)
    → (merged ≡ none → P exits)
    → ((headers : Dictionary Bytes) → merged ≡ some headers → P (f headers))
    → P (elim merged [ none ↦ exits | some headers ↦ f headers ])
merged_holds P none f h k = h refl
merged_holds P (some headers) f h k = k headers refl

-- The checks of the mode, for whether there is a URL, an address, and a command.
mode_holds :
    (P : Decision → Type 0) (url listen command : Bool) (x y : Decision)
    → (url ≡ true → listen ≡ false → P exits)
    → (listen ≡ true → url ≡ false → P exits)
    → (listen ≡ true → command ≡ true → P exits)
    → (listen ≡ false → command ≡ false → P exits)
    → (url ≡ true → listen ≡ true → command ≡ false → P x)
    → (url ≡ false → listen ≡ false → command ≡ true → P y)
    → P (
        if url && not listen
        then exits
        else if listen && not url
        then exits
        else if listen && command
        then exits
        else if not listen && not command
        then exits
        else if listen
        then x
        else y)
mode_holds P true true true x y a b c d h k = c refl refl
mode_holds P true true false x y a b c d h k = h refl refl refl
mode_holds P true false command x y a b c d h k = a refl refl
mode_holds P false true command x y a b c d h k = b refl refl
mode_holds P false false true x y a b c d h k = k refl refl refl
mode_holds P false false false x y a b c d h k = d refl refl

effective_url-nil :
    (flags : Flags) (cfg : Config)
    → not (bytes_eq (effective_url flags cfg) []) ≡ false
    → (bytes_eq flags.upstream_url [] ≡ true) × (bytes_eq cfg.upstream_url [] ≡ true)
unfolding effective_url
effective_url-nil flags cfg h = (ground arith, ground arith)

-- Without a key there is neither a server nor a command.
config_key-nil :
    (listen url : Bytes) (command : List Bytes)
    → bytes_eq (config_key listen url command) [] ≡ true
    → ((bytes_eq listen [] ≡ true) ⊎ (bytes_eq url [] ≡ true)) × (has_command command ≡ false)
unfolding config_key has_command bytes_eq
config_key-nil [] url [] h = (inl refl, refl)
config_key-nil [] url (arg ∷ args) h = cc
config_key-nil (c ∷ listen) [] [] h = (inr refl, refl)
config_key-nil (c ∷ listen) [] (arg ∷ args) h = cc
config_key-nil (c ∷ listen) (d ∷ url) command h = cc

stats-IsAllowed :
    (flags : Flags) (args : List Bytes) (cfg : Config) (key : Bytes)
    → key ≡ config_key flags.listen_addr (effective_url flags cfg) (arguments args).command
    → bytes_eq (arguments args).subcommand (codes "stats") ≡ true
    → IsAllowed flags args cfg (if bytes_eq key [] then exits else prints_stats key)
stats-IsAllowed flags args cfg key k s =
    if_holds (IsAllowed flags args cfg) (bytes_eq key []) exits (prints_stats key)
      (λ nothing.
        let (mode, none_there) =
          config_key-nil flags.listen_addr (effective_url flags cfg) (arguments args).command
            (ap (λ t. bytes_eq t []) (sym k) ∙ nothing) in
        exit (stats_of_nothing s mode none_there))
      (stats key s k)

-- The HTTP server starts only with an address and an upstream URL, without a command, and with every
-- header flag well-formed; a command is run only if there is one, and neither an address nor a URL;
-- statistics are printed only for the subcommand "stats" and for a key that is not empty; each gets
-- the flags over the configuration; and the program exits only for a misuse.
pub choose-IsAllowed :
    (flags : Flags) (args : List Bytes) (cfg : Config)
    → IsAllowed flags args cfg (choose flags args cfg)
unfolding choose effective_url
choose-IsAllowed flags args cfg =
    merged_holds (IsAllowed flags args cfg) (merge_headers flags.raw_headers cfg.upstream_headers) _
      (λ bad. exit (bad_header bad))
      λ headers merged.
        if_holds (IsAllowed flags args cfg) (bytes_eq (arguments args).subcommand (codes "stats")) _
          _
          (stats-IsAllowed flags args cfg
            (config_key flags.listen_addr (effective_url flags cfg) (arguments args).command) refl)
          (λ starts.
            mode_holds (IsAllowed flags args cfg) (not (bytes_eq (effective_url flags cfg) []))
              (not (bytes_eq flags.listen_addr [])) (has_command (arguments args).command) _ _
              (λ u l. exit (url_without_listen starts (not-true _ u) (not-false _ l)))
              (λ l u. exit (listen_without_url starts (not-true _ l) (not-false _ u)))
              (λ l c. exit (listen_and_command starts (not-true _ l) c))
              (λ l c. exit (nothing_to_run starts (not-false _ l) c))
              (λ u l c. http headers starts (not-true _ u) (not-true _ l) c merged)
              (λ u l c.
                let (no_flag, no_config) = effective_url-nil flags cfg u in
                local starts c (not-false _ l) no_flag no_config))
