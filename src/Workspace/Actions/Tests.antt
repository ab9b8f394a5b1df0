-- ===== src/Workspace/Actions/Tests.antt =====
-- Actions at concrete workspaces.
use kode_stream.Prelude.{◌≡◌, refl, Bool, true, false, none, some, inl, codes}
use kode_stream.Workspace.Actions.{
  ActionCapabilityInput, Capability, read, terminal, cloud_mode, local_mode, sqlite, postgres,
  AccessMode, remote_snapshot, Location, provider_axes, resolve, repository_read, git_status,
  terminal_launch, verification_run, available, unsupported,
}
use kode_stream.Workspace.Actions.Laws.{resolve-available_iff, Permits, snapshot-unsupported}
use kode_stream.Prelude.{◌↔◌}

abbrev snapshot : ActionCapabilityInput
snapshot = record {
  axes = provider_axes cloud_mode postgres remote_snapshot (Location.other "");
  authorization = none;
  content_available = true;
  execution_available = true;
  writable = true;
  current_branch = codes "main";
  target_branch = codes " main ";
}

abbrev checkout : ActionCapabilityInput
checkout = record snapshot {
  axes = provider_axes local_mode sqlite (AccessMode.other "") (Location.other "");
}

resolve-available_iff_example :
    ((resolve checkout terminal_launch).state ≡ available) ↔ Permits checkout terminal_launch
resolve-available_iff_example = resolve-available_iff checkout terminal_launch

snapshot-unsupported_example :
    ((resolve snapshot terminal_launch).state ≡ unsupported)
    × ((resolve snapshot verification_run).state ≡ unsupported)
    × ((resolve snapshot git_status).state ≡ unsupported)
snapshot-unsupported_example =
    snapshot-unsupported snapshot cloud_mode postgres remote_snapshot (Location.other "") refl
      (inl refl)

abbrev may_read : Capability → Bool
may_read read = true
may_read _ = false

abbrev may_read_and_launch : Capability → Bool
may_read_and_launch read = true
may_read_and_launch terminal = true
may_read_and_launch _ = false

may_read-le : (c : Capability) → may_read c ≡ true → may_read_and_launch c ≡ true
may_read-le read h = refl
may_read-le terminal h = refl
may_read-le _ h = h

reads :
    (resolve (record checkout { authorization = some may_read }) repository_read).state ≡ available
unfolding resolve provider_axes
reads = refl
