-- ===== src/Workspace/Actions.antt =====
-- internal/workspace/action_capabilities.go; Go's string enumerations are data types, with `other`
-- for a string that names no constant.
pub mod Laws
mod Tests
use kode_stream.Prelude.{
  ℕ, Bool, true, false, not, ◌&&◌, ◌||◌, Option, none, some, List, [], ◌∷◌, ◌++◌, String, Text,
  text_eq, ◌==◌, trim_space, if◌then◌else◌,
}

pub data Topology : Type 0 where
  local_application cloud_control_plane : Topology

pub data ContentProvider : Type 0 where
  local_checkout agent_checkout provider_snapshot : ContentProvider
  other : String → ContentProvider

-- `unset` is the empty string, `no_provider` the string "none".
pub data ExecutionProvider : Type 0 where
  local_process cloud_agent no_provider unset : ExecutionProvider
  other : String → ExecutionProvider

pub data Datastore : Type 0 where
  data_dir sqlite postgres : Datastore

pub record ProviderAxes : Type 0 where
  pub topology : Topology
  pub content_provider : ContentProvider
  pub execution_provider : ExecutionProvider
  pub datastore : Datastore

pub data RuntimeMode : Type 0 where
  local_mode cloud_mode : RuntimeMode
  other : String → RuntimeMode

pub data AccessMode : Type 0 where
  remote_snapshot agent_backed : AccessMode
  other : String → AccessMode

pub data Location : Type 0 where
  cloud_remote_snapshot cloud_agent_checkout : Location
  other : String → Location

pub data Capability : Type 0 where
  read write workspace_registration git system terminal ai runtime verification : Capability

pub data WorkspaceAction : Type 0 where
  layout_move repository_read git_status terminal_launch verification_run : WorkspaceAction

pub data CapabilityState : Type 0 where
  available unavailable unsupported forbidden conflicted : CapabilityState

pub record RecoveryAction : Type 0 where
  pub action : String
  pub label : String

pub record ActionCapability : Type 0 where
  pub action : WorkspaceAction
  pub state : CapabilityState
  pub reason_code : String
  pub message : String
  pub recovery_actions : List RecoveryAction

-- `authorization` is `none` for a nil map; a key that the map lacks reads as false.
pub record ActionCapabilityInput : Type 0 where
  pub axes : ProviderAxes
  pub authorization : Option (Capability → Bool)
  pub content_available : Bool
  pub execution_available : Bool
  pub writable : Bool
  pub current_branch : Text
  pub target_branch : Text

abbrev is_cloud : RuntimeMode → Bool
is_cloud cloud_mode = true
is_cloud _ = false

abbrev is_remote_snapshot : AccessMode → Bool
is_remote_snapshot remote_snapshot = true
is_remote_snapshot _ = false

abbrev is_agent_backed : AccessMode → Bool
is_agent_backed agent_backed = true
is_agent_backed _ = false

abbrev in_remote_snapshot : Location → Bool
in_remote_snapshot cloud_remote_snapshot = true
in_remote_snapshot _ = false

abbrev in_cloud_agent : Location → Bool
in_cloud_agent cloud_agent_checkout = true
in_cloud_agent _ = false

unfoldable pub provider_axes : RuntimeMode → Datastore → AccessMode → Location → ProviderAxes
provider_axes mode datastore access location =
    let axes : ProviderAxes = record {
      topology = if is_cloud mode then cloud_control_plane else local_application;
      content_provider = local_checkout;
      execution_provider = local_process;
      datastore = datastore;
    } in
    if is_remote_snapshot access || in_remote_snapshot location
    then record axes { content_provider = provider_snapshot; execution_provider = no_provider }
    else if in_cloud_agent location || (is_cloud mode && is_agent_backed access)
    then record axes { content_provider = agent_checkout; execution_provider = cloud_agent }
    else axes

abbrev pub authorized : Option (Capability → Bool) → Capability → Bool
authorized none capability = true
authorized (some policy) capability = policy capability

abbrev pub content_supported : ContentProvider → Bool
content_supported (other _) = false
content_supported _ = true

abbrev pub execution_supported : ExecutionProvider → Bool
execution_supported local_process = true
execution_supported cloud_agent = true
execution_supported _ = false

abbrev is_snapshot : ContentProvider → Bool
is_snapshot provider_snapshot = true
is_snapshot _ = false

abbrev is_missing : ExecutionProvider → Bool
is_missing no_provider = true
is_missing unset = true
is_missing _ = false

abbrev allow : WorkspaceAction → ActionCapability
allow action = record {
  action = action;
  state = available;
  reason_code = "";
  message = "";
  recovery_actions = [];
}

abbrev denied : WorkspaceAction → CapabilityState → String → String → ActionCapability
denied action state reason message = record {
  action = action;
  state = state;
  reason_code = reason;
  message = message;
  recovery_actions = [];
}

abbrev with_recovery : ActionCapability → String → String → ActionCapability
with_recovery c action label = record c {
  recovery_actions = c.recovery_actions ++ record { action = action; label = label } ∷ [];
}

resolve_layout_move : ActionCapabilityInput → ActionCapability
resolve_layout_move i =
    if not (authorized i.authorization write)
    then denied layout_move forbidden "layout_write_forbidden"
        "Your role cannot change this Canvas layout."
    else allow layout_move

resolve_repository_read : ActionCapabilityInput → ActionCapability
resolve_repository_read i =
    if not (content_supported i.axes.content_provider)
    then denied repository_read unsupported "content_provider_unsupported"
        "This workspace has no readable content provider."
    else if not i.content_available
    then with_recovery
        (denied repository_read unavailable "content_provider_unavailable"
          "Workspace content is temporarily unavailable.")
        "refresh" "Refresh workspace"
    else if not (authorized i.authorization read)
    then denied repository_read forbidden "repository_read_forbidden"
        "Your role cannot read this workspace."
    else allow repository_read

resolve_git_status : ActionCapabilityInput → ActionCapability
resolve_git_status i =
    if is_snapshot i.axes.content_provider
    then denied git_status unsupported "git_status_unsupported"
        "Git working-tree status is not available for this content provider."
    else if not (content_supported i.axes.content_provider)
    then denied git_status unsupported "content_provider_unsupported"
        "This workspace has no Git-capable content provider."
    else if not i.content_available
    then with_recovery
        (denied git_status unavailable "content_provider_unavailable"
          "Git status is temporarily unavailable.")
        "refresh" "Refresh workspace"
    else if not (authorized i.authorization git)
    then denied git_status forbidden "git_status_forbidden" "Your role cannot inspect Git status."
    else allow git_status

-- `current != "" && target != "" && current != target`, on trimmed names.
abbrev branch_mismatch : Text → Text → Bool
branch_mismatch current target =
    not (current == []) && not (target == []) && not (current == target)

resolve_terminal_launch : ActionCapabilityInput → ActionCapability
resolve_terminal_launch i =
    if is_missing i.axes.execution_provider
    then with_recovery
        (denied terminal_launch unsupported "execution_provider_missing"
          "This workspace has no terminal execution provider.")
        "choose_executable_workspace" "Choose executable workspace"
    else if not (execution_supported i.axes.execution_provider)
    then denied terminal_launch unsupported "execution_provider_unsupported"
        "This terminal execution provider is unsupported."
    else if not i.execution_available
    then with_recovery
        (denied terminal_launch unavailable "execution_provider_unavailable"
          "The terminal execution provider is temporarily unavailable.")
        "reconnect_execution_provider" "Reconnect execution provider"
    else if not (authorized i.authorization terminal)
    then denied terminal_launch forbidden "terminal_launch_forbidden"
        "Your role cannot launch terminal sessions."
    else if not i.writable
    then denied terminal_launch conflicted "workspace_read_only"
        "Terminal launch requires an editable workspace checkout."
    else if branch_mismatch (trim_space i.current_branch) (trim_space i.target_branch)
    then with_recovery
        (denied terminal_launch conflicted "branch_mismatch"
          "The plan branch does not match the current checkout branch.")
        "open_branch_controls" "Open branch controls"
    else allow terminal_launch

resolve_verification_run : ActionCapabilityInput → ActionCapability
resolve_verification_run i =
    if is_missing i.axes.execution_provider
    then with_recovery
        (denied verification_run unsupported "execution_provider_missing"
          "This workspace has no verification execution provider.")
        "choose_executable_workspace" "Choose executable workspace"
    else if not (execution_supported i.axes.execution_provider)
    then denied verification_run unsupported "execution_provider_unsupported"
        "This verification execution provider is unsupported."
    else if not i.execution_available
    then with_recovery
        (denied verification_run unavailable "execution_provider_unavailable"
          "The verification execution provider is temporarily unavailable.")
        "reconnect_execution_provider" "Reconnect execution provider"
    else if not (authorized i.authorization verification)
    then denied verification_run forbidden "verification_run_forbidden"
        "Your role cannot run verification."
    else allow verification_run

-- The map that `ResolveActionCapabilities` builds has exactly these five keys.
unfoldable pub resolve : ActionCapabilityInput → WorkspaceAction → ActionCapability
unfolding resolve_layout_move resolve_repository_read resolve_git_status resolve_terminal_launch
    resolve_verification_run
resolve i layout_move = resolve_layout_move i
resolve i repository_read = resolve_repository_read i
resolve i git_status = resolve_git_status i
resolve i terminal_launch = resolve_terminal_launch i
resolve i verification_run = resolve_verification_run i
