-- ===== src/Examples/Fleets.antt =====
-- A runtime of a fleet, and the theorems on its names.
use conda_ship.Prelude.{some, Text, codes, list_beq, ◌≡◌, ◌↔◌, refl, split_on}
use conda_ship.Fs.FilePath.{join, join_text, parent, file_name}
use conda_ship.Fs.Checked.{accepted}
use conda_ship.Config.Store.{
  metadata_path_for, temporary_metadata_path_for, backup_metadata_path_for,
}
use conda_ship.Config.Holds.{AreDistinct}
use conda_ship.BootstrapState.Marker.{path}
use conda_ship.Fleet.Names.{validate_safe_name, validate_runtime_id, metadata_file_for, prefix_for}
use conda_ship.Fleet.Paths.{IsSafeName, validate_safe_name-IsSafeName, prefix_for_below}
use conda_ship.Fleet.Separation.{metadata_file_for-AreDistinct, metadata_file_is_marker}
use conda_ship.Cs.Names.{
  validate_artifact_component, validate_artifact_component-validate_safe_name,
}
use conda_ship.Examples.Updates.{prefix}

abbrev id : Text
id = codes "demo-1.0"

accepted_prefix : prefix_for prefix id ≡ accepted (join prefix id)
unfolding prefix_for validate_safe_name join_text split_on list_beq
accepted_prefix = refl

validate_safe_name-IsSafeName_example : (validate_safe_name id ≡ accepted tt) ↔ IsSafeName id
validate_safe_name-IsSafeName_example = validate_safe_name-IsSafeName id

prefix_for_below_example :
    (join prefix id ≡ join prefix id)
    × (parent (join prefix id) ≡ some prefix)
    × (file_name (join prefix id) ≡ some id)
prefix_for_below_example = prefix_for_below prefix (join prefix id) id accepted_prefix

metadata_file_for-AreDistinct_example :
    AreDistinct
      (metadata_path_for prefix (metadata_file_for id))
      (temporary_metadata_path_for prefix (metadata_file_for id))
      (backup_metadata_path_for prefix (metadata_file_for id))
metadata_file_for-AreDistinct_example = metadata_file_for-AreDistinct prefix id

bootstrap_accepted : validate_runtime_id (codes "conda-ship-bootstrap") ≡ accepted tt
unfolding validate_runtime_id validate_safe_name list_beq
bootstrap_accepted = refl

metadata_file_is_marker_example :
    (validate_runtime_id (codes "conda-ship-bootstrap") ≡ accepted tt)
    × ((metadata_path_for prefix (metadata_file_for (codes "conda-ship-bootstrap")) ≡ path prefix)
        ↔ (codes "conda-ship-bootstrap" ≡ codes "conda-ship-bootstrap"))
metadata_file_is_marker_example =
    metadata_file_is_marker prefix (codes "conda-ship-bootstrap") bootstrap_accepted

validate_artifact_component-validate_safe_name_example :
    (validate_artifact_component id ≡ accepted tt) ↔ (validate_safe_name id ≡ accepted tt)
validate_artifact_component-validate_safe_name_example =
    validate_artifact_component-validate_safe_name id
