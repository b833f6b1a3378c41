-- ===== src/Manifest/Examples.antt =====
-- Runs of crates/runtime/src/manifest.rs and format.rs.
use openforge_aio.Prelude.{◌≡◌, refl, true, some, none, [], ◌∷◌, ◌↔◌}
use openforge_aio.Prelude.Result.{ok}
use openforge_aio.Prelude.Int.{pos}
use openforge_aio.Prelude.Text.{codes}
use openforge_aio.Manifest.{
  glacier2, ron, as_str, from_manifest_str, from_extension, default_engine, GameManifest, ends_with,
  validate,
}
use openforge_aio.Manifest.Valid.{IsManifest, from_manifest_str-as_str, validate_iff}

abbrev legacy : GameManifest
legacy = record {
  engine = default_engine;
  game = record {
    id = codes "legacy-game";
    display_name = codes "Legacy Game";
    tagline = [];
    process_names = codes "legacy.exe" ∷ [];
    primary_module = none;
    supported_versions = [];
    forbidden_services = [];
    requires_admin = true;
    sort_order = pos 1000;
    dll_file_name = codes "legacy.dll";
  };
  icon = none;
}

validate_iff_example : (validate legacy ≡ ok tt) ↔ IsManifest legacy
validate_iff_example = validate_iff legacy

legacy_is_valid : validate legacy ≡ ok tt
unfolding validate ends_with
legacy_is_valid = refl

from_manifest_str-as_str_example :
    (from_manifest_str (codes "glacier2") ≡ some glacier2) ↔ (codes "glacier2" ≡ as_str glacier2)
from_manifest_str-as_str_example = from_manifest_str-as_str (codes "glacier2") glacier2

reads_extension : from_extension (codes "RON") ≡ some ron
unfolding from_extension
reads_extension = refl
