-- ===== src/Manifest.antt =====
-- crates/runtime/src/manifest.rs and format.rs: the engine kinds, the checks of a game's manifest,
-- and the config format that a file's extension names. The parsers of TOML and RON are serde's.
pub mod Valid
pub mod Examples
use openforge_aio.Prelude.{
  ℕ, ◌+◌, ◌-◌, Bool, true, false, not, ◌&&◌, ◌||◌, Option, none, some, List, [], ◌∷◌, map, length,
  drop, leb, ltb, ◌==◌, if◌then◌else◌,
}
use openforge_aio.Prelude.Result.{Result, ok, err, fail_if, ◌>>=◌, ◌>>◌}
use openforge_aio.Prelude.Int.{ℤ}
use openforge_aio.Prelude.Text.{Text, codes, text_eq, all_chars, between}

pub data EngineKind : Type 0 where
  ue5 glacier2 : EngineKind

unfoldable pub as_str : EngineKind → Text
as_str ue5 = codes "ue5"
as_str glacier2 = codes "glacier2"

unfoldable pub from_manifest_str : Text → Option EngineKind
from_manifest_str s =
    if text_eq s (codes "ue5")
    then some ue5
    else if text_eq s (codes "glacier2")
    then some glacier2
    else none

pub data ConfigFormat : Type 0 where
  toml ron : ConfigFormat

abbrev pub to_ascii_lowercase : ℕ → ℕ
to_ascii_lowercase c = if between b'A' b'Z' c then c + 32 else c

-- `eq_ignore_ascii_case`
abbrev pub same_letters : Text → Text → Bool
same_letters s t = text_eq (map to_ascii_lowercase s) (map to_ascii_lowercase t)

unfoldable pub from_extension : Text → Option ConfigFormat
from_extension ext =
    if same_letters ext (codes "toml")
    then some toml
    else if same_letters ext (codes "ron")
    then some ron
    else none

pub record EngineDecl : Type 0 where
  pub schema : ℕ
  pub kind : Option EngineKind
  pub config_format : ConfigFormat
  pub dll : Option Text

-- `EngineDecl::default()`
abbrev pub default_engine : EngineDecl
default_engine = record { schema = 1; kind = none; config_format = toml; dll = none }

pub record GameManifestBody : Type 0 where
  pub id : Text
  pub display_name : Text
  pub tagline : Text
  pub process_names : List Text
  pub primary_module : Option Text
  pub supported_versions : List Text
  pub forbidden_services : List Text
  pub requires_admin : Bool
  pub sort_order : ℤ
  pub dll_file_name : Text

pub record GameManifest : Type 0 where
  pub engine : EngineDecl
  pub game : GameManifestBody
  -- The path of the icon.
  pub icon : Option Text

-- The reasons of `SignatureInvalid`, which also names the game.
pub data Reason : Type 0 where
  kind_required bad_game_id no_process_name bad_dll_name : Reason

pub data RuntimeError (R : Type 0) : Type 0 where
  signature_invalid : Text → R → RuntimeError R

abbrev pub is_none : {A : Type 0} → Option A → Bool
is_none none = true
is_none (some a) = false

abbrev pub is_some : {A : Type 0} → Option A → Bool
is_some o = not (is_none o)

abbrev pub if_some : {A B : Type 0} → Option A → B → B → B
if_some none x y = y
if_some (some a) x y = x

abbrev pub is_empty : {A : Type 0} → List A → Bool
is_empty [] = true
is_empty (a ∷ rest) = false

abbrev pub id_char : ℕ → Bool
id_char c = between b'a' b'z' c || between b'0' b'9' c || c == b'_' || c == b'-'

-- `str::ends_with`
unfoldable pub ends_with : Text → Text → Bool
ends_with s suffix =
    leb (length suffix) (length s) && text_eq (drop (length s - length suffix) s) suffix

unfoldable pub validate : GameManifest → Result (RuntimeError Reason) (Unit {0})
validate m =
    let invalid : Reason → RuntimeError Reason = signature_invalid m.game.id in
    do
      fail_if (leb 2 m.engine.schema && is_none m.engine.kind) (invalid kind_required)
      fail_if (is_empty m.game.id || not (all_chars id_char m.game.id)) (invalid bad_game_id)
      fail_if (is_empty m.game.process_names) (invalid no_process_name)
      fail_if
          (not (is_empty m.game.dll_file_name)
            && not (ends_with m.game.dll_file_name (codes ".dll")))
          (invalid bad_dll_name)
      ok tt
