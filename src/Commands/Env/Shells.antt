-- ===== src/Commands/Env/Shells.antt =====
-- commands/env.go: how each shell writes its settings, and the hint that is printed for it.
use p2box.Base.{
  ℤ, Bool, false, String, Text, codes, contains, List, [], ◌∷◌, ◌++◌, ◌||◌, if◌then◌else◌, str_eq,
}

pub record ShellConfig : Type 0 where
  pub prefix : Text
  pub delimiter : Text
  pub suffix : Text
  pub podman_user : Text
  pub podman_host : Text
  pub podman_port : ℤ
  pub identity_file : Text
  pub known_hosts : Text
  pub varlink_bridge : Text
  pub usage_hint : Text
  pub machine_name : Text
  pub no_proxy_var : Text
  pub no_proxy_value : Text
  pub compose_paths_var : Bool

-- The zero value of `ShellConfig`.
abbrev pub empty_config : ShellConfig
empty_config = record {
  prefix = [];
  delimiter = [];
  suffix = [];
  podman_user = [];
  podman_host = [];
  podman_port = ℤ.pos 0;
  identity_file = [];
  known_hosts = [];
  varlink_bridge = [];
  usage_hint = [];
  machine_name = [];
  no_proxy_var = [];
  no_proxy_value = [];
  compose_paths_var = false;
}

-- Prefix, delimiter and suffix of a shell.
abbrev pub with_syntax : String → String → String → ShellConfig → ShellConfig
with_syntax prefix delimiter suffix c = record c {
  prefix = codes prefix;
  delimiter = codes delimiter;
  suffix = codes suffix;
}

unfoldable pub set_syntax : String → ShellConfig → ShellConfig
set_syntax user_shell =
    if str_eq user_shell "fish"
    then with_syntax "set -gx " " \"" "\";\n"
    else if str_eq user_shell "powershell"
    then with_syntax "$Env:" " = \"" "\"\n"
    else if str_eq user_shell "cmd"
    then with_syntax "SET " "=" "\n"
    else if str_eq user_shell "tcsh"
    then with_syntax "setenv " " \"" "\";\n"
    else if str_eq user_shell "emacs"
    then with_syntax "(setenv \"" "\" \"" "\")\n"
    else with_syntax "export " "=\"" "\"\n"

unfoldable pub unset_syntax : String → ShellConfig → ShellConfig
unset_syntax user_shell =
    if str_eq user_shell "fish"
    then with_syntax "set -e " "" ";\n"
    else if str_eq user_shell "powershell"
    then with_syntax "Remove-Item Env:\\\\" "" "\n"
    else if str_eq user_shell "cmd"
    then with_syntax "SET " "=" "\n"
    else if str_eq user_shell "emacs"
    then with_syntax "(setenv \"" "\" nil" ")\n"
    else if str_eq user_shell "tcsh"
    then with_syntax "unsetenv " "" ";\n"
    else with_syntax "unset " "" "\n"

-- strings.Join(words, " ")
abbrev pub words : List Text → Text
words [] = []
words (w ∷ []) = w
words (w ∷ v ∷ rest) = w ++ (b' ' ∷ words (v ∷ rest))

abbrev pub quoted_path : Text → Text
quoted_path path =
    if contains path (codes " ") || contains path (codes "\\")
    then b'"' ∷ (path ++ (b'"' ∷ []))
    else path

-- `args[0]` without arguments is a panic, which a process never meets.
abbrev pub command_line : List Text → Text
command_line [] = []
command_line (path ∷ args) = words (quoted_path path ∷ args)

abbrev pub hint_of : String → Text → Text
hint_of comment cmd =
    codes comment
    ++ (codes " Run this command to configure your shell: \n"
        ++ (codes comment ++ (b' ' ∷ (cmd ++ codes "\n"))))

unfoldable pub generate_usage_hint : String → List Text → Text
generate_usage_hint user_shell args =
    let line = command_line args in
    if str_eq user_shell "fish"
    then hint_of "#" (codes "eval (" ++ (line ++ codes ")"))
    else if str_eq user_shell "powershell"
    then hint_of "#" (codes "& " ++ (line ++ codes " | Invoke-Expression"))
    else if str_eq user_shell "cmd"
    then hint_of "REM" (codes "\t@FOR /f \"tokens=*\" %i IN ('" ++ (line ++ codes "') DO @%i"))
    else if str_eq user_shell "emacs"
    then hint_of ";;" (
        codes "(with-temp-buffer (shell-command \""
        ++ (line ++ codes "\" (current-buffer)) (eval-buffer))"))
    else if str_eq user_shell "tcsh"
    then hint_of ":" (codes "eval `" ++ (line ++ codes "`"))
    else hint_of "#" (codes "eval $(" ++ (line ++ codes ")"))
