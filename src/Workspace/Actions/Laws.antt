-- ===== src/Workspace/Actions/Laws.antt =====
-- When an action is available, and what a remote snapshot never allows.
use kode_stream.Prelude.{
  ◌≡◌, ◌≢◌, ◌↔◌, ◌⊎◌, Bool, true, none, some, [], Text, String, text_eq, text_beq_iff, trim_space,
  arith,
}
use kode_stream.Workspace.Actions.{
  provider_snapshot, Datastore, RuntimeMode, local_mode, AccessMode, remote_snapshot, Location,
  cloud_remote_snapshot, Capability, read, write, git, terminal, verification, WorkspaceAction,
  layout_move, repository_read, git_status, terminal_launch, verification_run, available,
  unsupported, ActionCapabilityInput, provider_axes, authorized, content_supported,
  execution_supported, resolve,
}

-- The branches agree, or one of them is not given.
abbrev pub BranchesAgree : Text → Text → Type 0
BranchesAgree current target =
    (trim_space current ≡ []) ⊎ (trim_space target ≡ []) ⊎ (trim_space current ≡ trim_space target)

-- What each action needs.
abbrev pub Permits : ActionCapabilityInput → WorkspaceAction → Type 0
Permits i layout_move = authorized i.authorization write ≡ true
Permits i repository_read =
    (content_supported i.axes.content_provider ≡ true)
    × (i.content_available ≡ true)
    × (authorized i.authorization read ≡ true)
Permits i git_status =
    (content_supported i.axes.content_provider ≡ true)
    × (i.axes.content_provider ≢ provider_snapshot)
    × (i.content_available ≡ true)
    × (authorized i.authorization git ≡ true)
Permits i terminal_launch =
    (execution_supported i.axes.execution_provider ≡ true)
    × (i.execution_available ≡ true)
    × (authorized i.authorization terminal ≡ true)
    × (i.writable ≡ true)
    × BranchesAgree i.current_branch i.target_branch
Permits i verification_run =
    (execution_supported i.axes.execution_provider ≡ true)
    × (i.execution_available ≡ true)
    × (authorized i.authorization verification ≡ true)

-- An action is reported as available exactly when its provider supports it and is up, the role is
-- authorized for it, and, for a terminal, the checkout is writable and the branches agree.
pub resolve-available_iff :
    (i : ActionCapabilityInput) (a : WorkspaceAction)
    → ((resolve i a).state ≡ available) ↔ Permits i a
unfolding resolve
resolve-available_iff i layout_move = ground arith
resolve-available_iff i repository_read = ground arith
resolve-available_iff i git_status = ground arith
resolve-available_iff i terminal_launch =
    let current = trim_space i.current_branch in
    let target = trim_space i.target_branch in
    ground (arith, text_beq_iff current [], text_beq_iff target [], text_beq_iff current target)
resolve-available_iff i verification_run = ground arith

-- A workspace with remote snapshot access, or at the cloud's remote snapshot location, can neither
-- launch a terminal nor run verification nor show a Git status: each is reported as unsupported,
-- whatever the mode, the role and the availability.
pub snapshot-unsupported :
    (i : ActionCapabilityInput) (mode : RuntimeMode) (d : Datastore) (access : AccessMode)
    (location : Location)
    → i.axes ≡ provider_axes mode d access location
    → (access ≡ remote_snapshot) ⊎ (location ≡ cloud_remote_snapshot)
    → ((resolve i terminal_launch).state ≡ unsupported)
      × ((resolve i verification_run).state ≡ unsupported)
      × ((resolve i git_status).state ≡ unsupported)
unfolding resolve provider_axes
snapshot-unsupported i mode d access location e h = ground arith

-- A local checkout, in local mode and with no cloud access mode or location, allows whatever its
-- availability and the branches allow when no policy is given.
pub local-available :
    (i : ActionCapabilityInput) (d : Datastore) (a l : String)
    → i.axes ≡ provider_axes local_mode d (AccessMode.other a) (Location.other l)
    → i.authorization ≡ none
    → i.content_available ≡ true
    → i.execution_available ≡ true
    → ((resolve i repository_read).state ≡ available)
      × ((resolve i git_status).state ≡ available)
      × ((resolve i verification_run).state ≡ available)
unfolding resolve provider_axes
local-available i d a l e p c x = ground arith

-- Taking an authorization away never makes an action available.
pub resolve_mono :
    (i : ActionCapabilityInput) (less more : Capability → Bool) (a : WorkspaceAction)
    → ((c : Capability) → less c ≡ true → more c ≡ true)
    → (resolve (record i { authorization = some less }) a).state ≡ available
    → (resolve (record i { authorization = some more }) a).state ≡ available
resolve_mono i less more a grows h =
    (resolve-available_iff (record i { authorization = some more }) a).1
      (Permits_mono a ((resolve-available_iff (record i { authorization = some less }) a).0 h))
  where
    Permits_mono :
        (b : WorkspaceAction)
        → Permits (record i { authorization = some less }) b
        → Permits (record i { authorization = some more }) b
    Permits_mono layout_move p = grows write p
    Permits_mono repository_read p = ground (arith, grows read)
    Permits_mono git_status p = ground (arith, grows git)
    Permits_mono terminal_launch (e, x, p, w, b) = (e, x, grows terminal p, w, b)
    Permits_mono verification_run p = ground (arith, grows verification)
