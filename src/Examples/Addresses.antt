-- ===== src/Examples/Addresses.antt =====
-- A library of URLs, and the theorem on published addresses.
use conda_ship.Prelude.{none, some, [], Text, codes, ◌≡◌, ◌↔◌, inl, refl}
use conda_ship.Fs.Checked.{Checked, accepted}
use conda_ship.Http.{
  UrlLibrary, IsPublishable, validate_artifact_url, validate_artifact_url-IsPublishable,
}

-- Every text is an address without user, query and fragment, and nothing is encoded.
abbrev pub urls : UrlLibrary
urls = record {
  parse_channel = λ t. some (record {
    scheme = codes "https";
    username = [];
    password = none;
    query = none;
    fragment = none;
  });
  percent_decode = λ b. b;
  length-percent_decode = λ b. inl refl;
}

abbrev address : Text
address = codes "https://example.test/channel"

validate_artifact_url-IsPublishable_example :
    (r : Checked Unit) × (validate_artifact_url urls address ≡ some r)
    × ((r ≡ accepted tt) ↔ IsPublishable urls address)
validate_artifact_url-IsPublishable_example = validate_artifact_url-IsPublishable urls address
