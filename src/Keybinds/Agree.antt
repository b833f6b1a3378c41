-- ===== src/Keybinds/Agree.antt =====
-- The two indices of crates/app/src-tauri/src/keybinds.rs never disagree.
use openforge_aio.Prelude.{◌≡◌, ◌↔◌, some, arith}
use openforge_aio.Prelude.Text.{Text}
use openforge_aio.Prelude.Dict.{text_eq_iff}
use openforge_aio.Keybinds.{KeybindStore, lookup_feature, lookup_chord, set, clear}
use openforge_aio.Keybinds.Laws.{
  same_feature_iff, holds_iff, is_holder_iff, prev-set, lookup_feature-set, lookup_chord-set,
  lookup_feature-clear, lookup_chord-clear,
}

-- A feature is bound to a chord exactly if the chord leads to the feature.
abbrev pub Agree : KeybindStore → Type 0
Agree s = (g f c : Text) → (lookup_feature s g f ≡ some c) ↔ (lookup_chord s c ≡ some (g, f))

-- If the two indices agree, they agree after `clear`.
pub clear-Agree : (s : KeybindStore) (g f : Text) → Agree s → Agree (clear s g f).1
clear-Agree s g f h g' f' c =
    let (down, up) = h g' f' c in
    let (down', up') = h g f c in
    let feature_law = lookup_feature-clear s g f g' f' in
    let chord_law = lookup_chord-clear s g f c in
    let (same_down, same_up) = same_feature_iff g f g' f' in
    let (holds_down, holds_up) = holds_iff (lookup_feature s g f) c in
    (λ bound. ground arith, λ leads. ground arith)

-- If the two indices agree, they agree after `set`, whoever held the chord and whatever the
-- feature held.
pub set-Agree : (s : KeybindStore) (g f c : Text) → Agree s → Agree (set s g f c).1
set-Agree s g f c h g' f' c' =
    let (down, up) = h g' f' c' in
    let (down_old, up_old) = h g' f' c in
    let (down_prev, up_prev) = h g f c' in
    let prev_law = prev-set s g f c in
    let feature_law = lookup_feature-set s g f c g' f' in
    let chord_law = lookup_chord-set s g f c c' in
    let (same_down, same_up) = same_feature_iff g f g' f' in
    let (chord_down, chord_up) = text_eq_iff c c' in
    let (holds_down, holds_up) = holds_iff (set s g f c).0 c' in
    let (holder_down, holder_up) = is_holder_iff (lookup_chord s c) g' f' in
    let (own_down, own_up) = is_holder_iff (lookup_chord s c) g f in
    (λ bound. ground arith, λ leads. ground arith)
