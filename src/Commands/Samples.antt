-- ===== src/Commands/Samples.antt =====
-- Worlds for the runs of the commands of src/main.rs.
use iroh_proxy.Common.{ℕ, Bool, true, false, none, []}
use iroh_proxy.Common.Text.{Text}
use iroh_proxy.Config.Files.{Os}
use iroh_proxy.Daemon.Start.{fresh}
use iroh_proxy.Commands.Persistent.{World}

abbrev pub faultless : Os
faultless = record {
  process_id = 7;
  stat_fails = false;
  read_fails = false;
  create_dir_fails = false;
  open_fails = false;
  write_fails = none;
  sync_fails = false;
  rename_fails = false;
  remove_fails = false;
}

-- The new configuration cannot be renamed into place.
abbrev pub no_rename : Os
no_rename = record faultless { rename_fails = true }

abbrev pub idle : World ℕ
idle = record { daemon = fresh 0; disk = record { files = []; temp_counter = 0 } }

abbrev pub anywhere : Text → Bool
anywhere address = true
