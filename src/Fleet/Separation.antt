-- ===== src/Fleet/Separation.antt =====
-- The files that src/fleet.rs, src/config.rs and src/bootstrap_state.rs keep in one prefix, by name.
use conda_ship.Prelude.{
  false, [], ◌∷◌, ◌++◌, Text, codes, ◌==◌, list_eq, number_eq, list_beq, ◌≡◌, ◌≢◌, ◌↔◌, refl, sym,
  ap, ◌∙◌, arith, length, length-append, take-append, take, drop, drop-append, eq_apart,
}
use conda_ship.Fs.FilePath.{FilePath, join}
use conda_ship.Fs.Checked.{accepted}
use conda_ship.Config.Store.{
  metadata_path_for, temporary_metadata_path_for, backup_metadata_path_for,
}
use conda_ship.Config.Holds.{AreDistinct}
use conda_ship.BootstrapState.Marker.{path}
use conda_ship.Fleet.Names.{validate_runtime_id, metadata_file_for}
use conda_ship.Fleet.Paths.{plain_json, validate_safe_name-IsTested}
use conda_ship.Fleet.LastPart.{join_text_json, stem_of, with_extension-json}

append_cancel : (xs ys zs : Text) → xs ++ zs ≡ ys ++ zs → xs ≡ ys
append_cancel xs ys zs h =
    let same : length xs ≡ length ys =
      omega (arith, length-append xs zs, length-append ys zs, ap length h) in
    sym (take-append xs zs)
    ∙ ap (take (length xs)) h
    ∙ ap (λ n. take n (ys ++ zs)) same
    ∙ take-append ys zs

append_cancel_left : (xs ys zs : Text) → xs ++ ys ≡ xs ++ zs → ys ≡ zs
append_cancel_left xs ys zs h =
    sym (drop-append xs ys) ∙ ap (drop (length xs)) h ∙ drop-append xs zs

abbrev part_name : FilePath → Text
part_name p = elim p.parts [ [] ↦ [] | name ∷ _ ↦ name ]

join_eq : (p : FilePath) (a b : Text) → join p a ≡ join p b → a ≡ b
join_eq p a b h = ap part_name h

ends-ne : (xs a b : Text) → (a == b) ≡ false → xs ++ a ≢ xs ++ b
ends-ne xs a b differ e = eq_apart a b differ (append_cancel_left xs a b e)

-- The three endings of one name.
json-tmp : (seg : Text) → seg ++ codes ".json" ≢ stem_of seg ++ codes ".tmp"
unfolding list_beq
json-tmp [] = eq_apart _ _ refl
json-tmp (c ∷ seg) = ends-ne (c ∷ seg) (codes ".json") (codes ".tmp") refl

json-bak : (seg : Text) → seg ++ codes ".json" ≢ stem_of seg ++ codes ".bak"
unfolding list_beq
json-bak [] = eq_apart _ _ refl
json-bak (c ∷ seg) = ends-ne (c ∷ seg) (codes ".json") (codes ".bak") refl

tmp-bak : (stem : Text) → stem ++ codes ".tmp" ≢ stem ++ codes ".bak"
unfolding list_beq
tmp-bak stem = ends-ne stem (codes ".tmp") (codes ".bak") refl

-- For every id and every prefix, the metadata file, its temporary file and its backup are three
-- different paths.
pub metadata_file_for-AreDistinct :
    (prefix : FilePath) (id : Text)
    → AreDistinct
        (metadata_path_for prefix (metadata_file_for id))
        (temporary_metadata_path_for prefix (metadata_file_for id))
        (backup_metadata_path_for prefix (metadata_file_for id))
unfolding metadata_path_for temporary_metadata_path_for backup_metadata_path_for metadata_file_for
metadata_file_for-AreDistinct prefix id =
    let (dir, (seg, e)) = join_text_json prefix (b'.' ∷ id) in
    rw e (
      let tmp = with_extension-json dir seg (codes "tmp") in
      let bak = with_extension-json dir seg (codes "bak") in
      record {
        path_tmp = λ same. json-tmp seg (join_eq dir _ _ (same ∙ tmp));
        path_bak = λ same. json-bak seg (join_eq dir _ _ (same ∙ bak));
        tmp_bak = λ same. tmp-bak (stem_of seg) (join_eq dir _ _ (sym tmp ∙ (same ∙ bak)));
      })

-- The metadata file of an accepted id is an entry of the prefix.
entry :
    (prefix : FilePath) (id : Text)
    → validate_runtime_id id ≡ accepted tt
    → metadata_path_for prefix (metadata_file_for id) ≡ join prefix (metadata_file_for id)
unfolding validate_runtime_id metadata_path_for metadata_file_for
entry prefix id h = plain_json prefix id ((validate_safe_name-IsTested id).0 h)

-- The id conda-ship-bootstrap is accepted, and among the accepted ids it is, in every prefix, the
-- one whose metadata file is the bootstrap marker.
pub metadata_file_is_marker :
    (prefix : FilePath) (id : Text)
    → validate_runtime_id id ≡ accepted tt
    → (validate_runtime_id (codes "conda-ship-bootstrap") ≡ accepted tt)
      × ((metadata_path_for prefix (metadata_file_for id) ≡ path prefix)
          ↔ (id ≡ codes "conda-ship-bootstrap"))
unfolding validate_runtime_id metadata_file_for path list_beq
metadata_file_is_marker prefix id ok = (
  refl,
  (
    λ e.
        append_cancel id (codes "conda-ship-bootstrap") (codes ".json")
          (ap tail_of (join_eq prefix _ _ (sym (entry prefix id ok) ∙ e))),
    λ e. entry prefix id ok ∙ ap (λ i. join prefix (b'.' ∷ (i ++ codes ".json"))) e,
  ),
)
  where
    tail_of : Text → Text
    tail_of [] = []
    tail_of (_ ∷ s) = s
