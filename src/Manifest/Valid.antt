-- ===== src/Manifest/Valid.antt =====
-- What `validate` of crates/runtime/src/manifest.rs accepts, and the names of the engines.
use openforge_aio.Prelude.{
  ◌<◌, ◌≡◌, ◌≢◌, refl, Bool, true, false, not, ◌&&◌, ◌||◌, Option, none, some, List, [], ◌∷◌, leb,
  arith, ◌⊎◌, ◌↔◌,
}
use openforge_aio.Prelude.Result.{ok, check_iff}
use openforge_aio.Prelude.Text.{Text, codes, text_eq, all_chars}
use openforge_aio.Prelude.Dict.{text_eq_iff}
use openforge_aio.Manifest.{
  EngineKind, ue5, glacier2, as_str, from_manifest_str, GameManifest, is_none, is_empty, id_char,
  ends_with, validate,
}

-- The name of an engine is read back as the engine, and no other name is read.
pub from_manifest_str-as_str :
    (s : Text) (k : EngineKind) → (from_manifest_str s ≡ some k) ↔ (s ≡ as_str k)
unfolding from_manifest_str as_str
from_manifest_str-as_str s ue5 =
    let is_ue5 = text_eq_iff s (codes "ue5") in
    (λ h. ground (arith, h, is_ue5), λ h. ground (arith, h, is_ue5))
from_manifest_str-as_str s glacier2 =
    let is_ue5 = text_eq_iff s (codes "ue5") in
    let is_glacier2 = text_eq_iff s (codes "glacier2") in
    let apart : text_eq (codes "glacier2") (codes "ue5") ≡ false = refl in
    (λ h. ground (arith, h, is_ue5, is_glacier2), λ h. ground (arith, h, is_glacier2, apart))

-- A later schema names its engine, the id is a nonempty slug, there is a process to look for, and
-- the library, if one is named, is a `.dll`.
pub record IsManifest (m : GameManifest) : Type 0 where
  pub declared : (m.engine.schema < 2) ⊎ (m.engine.kind ≢ none)
  pub named : m.game.id ≢ []
  pub slug : all_chars id_char m.game.id ≡ true
  pub runs : m.game.process_names ≢ []
  pub loads : (m.game.dll_file_name ≡ []) ⊎ (ends_with m.game.dll_file_name (codes ".dll") ≡ true)

is_empty_iff : {A : Type 0} (xs : List A) → (is_empty xs ≡ true) ↔ (xs ≡ [])
is_empty_iff [] = (λ e. refl, λ e. refl)
is_empty_iff (a ∷ rest) = (λ e. cc e, λ e. cc e)

is_none_iff : {A : Type 0} (o : Option A) → (is_none o ≡ true) ↔ (o ≡ none)
is_none_iff none = (λ e. refl, λ e. refl)
is_none_iff (some a) = (λ e. cc e, λ e. cc e)

-- The validation of a manifest succeeds exactly on the manifests that meet all conditions.
pub validate_iff : (m : GameManifest) → (validate m ≡ ok tt) ↔ IsManifest m
unfolding validate
validate_iff m =
    let kind = is_none_iff m.engine.kind in
    let id = is_empty_iff m.game.id in
    let names = is_empty_iff m.game.process_names in
    let dll = is_empty_iff m.game.dll_file_name in
    let t1 : Bool = leb 2 m.engine.schema && is_none m.engine.kind in
    let t2 : Bool = is_empty m.game.id || not (all_chars id_char m.game.id) in
    let t3 : Bool = is_empty m.game.process_names in
    let t4 : Bool =
      not (is_empty m.game.dll_file_name) && not (ends_with m.game.dll_file_name (codes ".dll")) in
    (
      λ h.
          let (a, h1) = (check_iff t1 _ _ tt).0 h in
          let (b, h2) = (check_iff t2 _ _ tt).0 h1 in
          let (c, h3) = (check_iff t3 _ _ tt).0 h2 in
          let (d, h4) = (check_iff t4 _ _ tt).0 h3 in
          record {
            declared = ground (arith, a, kind);
            named = λ e. ground (arith, b, id, e);
            slug = ground (arith, b);
            runs = λ e. ground (arith, c, names, e);
            loads = ground (arith, d, dll);
          },
      λ v.
          let a : t1 ≡ false = ground (arith, v.declared, kind) in
          let b : t2 ≡ false = ground (arith, v.named, v.slug, id) in
          let c : t3 ≡ false = ground (arith, v.runs, names) in
          let d : t4 ≡ false = ground (arith, v.loads, dll) in rw (a, b, c, d) refl,
    )
