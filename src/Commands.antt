-- ===== src/Commands.antt =====
-- commands/rm.go and the parts of commands/commands.go that every command on machines shares.
pub mod Rm
pub mod Actions
pub mod Done
pub mod Env
pub mod Ls
pub mod Scp
pub mod Active
pub mod Create
use p2box.Base.{
  Bool, true, false, not, String, List, [], ◌∷◌, ◌++◌, Option, none, some, ◌<>◌, if◌then◌else◌,
  ◌||◌, ◌&&◌,
}
use p2box.Go.{Error, message, wrap, Result, ok, err, Go, pure, fail, ◌>>=◌, ◌>>◌, wrap_with}
use p2box.Drivers.{Driver}
use p2box.Host.{Host}
use p2box.Persist.Hosts.{Store}

-- What a command ends with: nothing, one error, or several errors joined into one.
pub data Outcome : Type 0 where
  done : Outcome
  failed : Error → Outcome
  joined : List Error → Outcome

abbrev pub no_default : Error
no_default = message "Error: No machine name(s) specified and no \"box\" machine exists"

abbrev pub no_machine_specified : Error
no_machine_specified = message "Error: Expected to get one or more machine names as arguments"

abbrev pub default_machine_name : String
default_machine_name = "box"

module _ {W H : Type 0} (api : Store W H) where
  -- The first argument, or the default machine if it exists.
  unfoldable pub target_host : List String → Go W String
  target_host [] = do
    default_exists ←
        wrap_with (wrap "Error checking if host \"box\" exists") (api.exists default_machine_name)
    if default_exists then pure default_machine_name else fail no_default
  target_host (arg ∷ args) = pure arg

-- The flags of `rm`, and the answer to its question, if one is asked and given.
pub record RmFlags : Type 0 where
  pub force : Bool
  pub y : Bool

abbrev pub confirmed : Option Bool → Bool
confirmed none = false
confirmed (some sure) = sure

-- `answer` is what `confirmInput` gives: `none` is an error of the input.
abbrev pub user_confirm : Bool → Bool → Option Bool → Bool
user_confirm confirm force answer = if confirm || force then true else confirmed answer

abbrev pub is_ok : {A : Type 0} → Result A → Bool
is_ok (ok _) = true
is_ok (err _) = false

-- The error of a call, if it has one, behind those so far.
abbrev pub collect : {A : Type 0} → (Error → Error) → Result A → List Error → List Error
collect f (ok _) errors = errors
collect f (err e) errors = errors ++ (f e ∷ [])

module _ {W : Type 0} (api : Store W (Host W)) where
  unfoldable pub remove_remote_machine : String → Go W Unit
  remove_remote_machine host_name = do current_host ← api.load host_name; current_host.driver.remove

  -- An error of `Exists` counts as "does not exist".
  abbrev exists_for_sure : Result Bool → Bool
  exists_for_sure (ok b) = b
  exists_for_sure (err _) = false

  unfoldable pub remove_local_machine : String → Go W Unit
  remove_local_machine host_name w =
      let (r, w') = api.exists host_name w in
      if exists_for_sure r
      then api.remove host_name w'
      else (err (message (host_name <> " does not exist.")), w')

  -- One round of the loop over the names.
  unfoldable pub remove_machine : Bool → String → List Error → W → List Error × W
  remove_machine force host_name errors w =
      let (r, w') = remove_remote_machine host_name w in
      let errors' = collect (wrap ("Error removing host \"" <> host_name <> "\"")) r errors in
      let (r', w'') = remove_local_machine host_name w' in
      if is_ok r || force
      then (collect (λ e. message ("Can't remove \"" <> host_name <> "\"")) r' errors', w'')
      else (errors', w')

  unfoldable pub remove_machines : Bool → List String → List Error → W → List Error × W
  remove_machines force [] errors w = (errors, w)
  remove_machines force (host_name ∷ rest) errors w =
      let (errors', w') = remove_machine force host_name errors w in
      remove_machines force rest errors' w'

  -- Errors are only reported without `--force`.
  abbrev pub rm_outcome : Bool → List Error → Outcome
  rm_outcome force [] = done
  rm_outcome true errors = done
  rm_outcome false errors = joined errors

  -- The part of `cmdRm` after the question.
  abbrev pub removal : Bool → List String → W → Outcome × W
  removal force names w =
      let (errors, w') = remove_machines force names [] w in (rm_outcome force errors, w')

  unfoldable pub cmd_rm : List String → RmFlags → Option Bool → W → Outcome × W
  cmd_rm [] flags answer w = (failed no_machine_specified, w)
  cmd_rm (arg ∷ args) flags answer w =
      if user_confirm flags.y flags.force answer
      then removal flags.force (arg ∷ args) w
      else (done, w)
