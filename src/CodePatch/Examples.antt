-- ===== src/CodePatch/Examples.antt =====
-- Runs of crates/glacier-007-dll/src/code_patch.rs in a flat address space, and the theorems there.
use openforge_aio.Prelude.{ℕ, zero, suc, ◌<◌, ◌≡◌, ◌≢◌, ◌⊎◌, refl, List, [], ◌∷◌, length, In}
use openforge_aio.Prelude.Dict.{insert, remove, nat_eq}
use openforge_aio.Memory.{Os, looks_readable, read_bytes, write_bytes}
use openforge_aio.Memory.Bytes.{overwrite, slice}
use openforge_aio.Memory.Flat.{flat, flat-OsLaws}
use openforge_aio.CodePatch.{
  write_ok, code_patch_error, PatchError, original_mismatch, write_bytes_at, apply, Patcher,
  code_patch, restore_patch, restore_all,
}
use openforge_aio.CodePatch.Apply.{SameBytes, Overwritten, code_patch_lem}
use openforge_aio.CodePatch.Detach.{
  Tracks, PatcherTracks, AllRestored, code_patch-Tracks, restore_patch-Tracks, restore_all-first,
}
use openforge_aio.CodePatch.Stacked.{code_patch-stacked}

abbrev os : Os
os = flat 0x10000 0x20000

-- Every byte is 0x90.
abbrev fresh : Patcher os
fresh = record { mem = λ x. 0x90; patches = [] }

abbrev addr : ℕ
addr = 0x12000

abbrev two : List ℕ
two = 0x90 ∷ 0x90 ∷ []

abbrev once : Patcher os
once = (code_patch os fresh addr two (0xeb ∷ 0x05 ∷ [])).1

patched_once : (code_patch os fresh addr two (0xeb ∷ 0x05 ∷ [])).0 ≡ write_ok
unfolding code_patch apply write_bytes_at write_bytes read_bytes looks_readable slice overwrite
patched_once = refl

patched_twice :
    (code_patch os
      (code_patch os fresh addr two (0xeb ∷ 0x05 ∷ [])).1
      addr
      (0xeb ∷ 0x05 ∷ [])
      (0xcc ∷ 0xcc ∷ [])).0
    ≡ write_ok
unfolding code_patch apply write_bytes_at write_bytes read_bytes looks_readable slice overwrite
patched_twice = refl

updated_game :
    (code_patch os fresh addr (0x74 ∷ 0x05 ∷ []) two).0
    ≡ code_patch_error addr (original_mismatch (0x74 ∷ 0x05 ∷ []) two)
unfolding code_patch apply write_bytes_at write_bytes read_bytes looks_readable slice overwrite
updated_game = refl

code_patch_lem_example :
    (((code_patch os fresh addr two (0xeb ∷ 0x05 ∷ [])).0 ≡ write_ok)
      × (two ≡ slice (λ x. 0x90) addr 2)
      × (0 < length two)
      × (length {A = ℕ} (0xeb ∷ 0x05 ∷ []) ≡ length two)
      × Overwritten os (flat-OsLaws 0x10000 0x20000) fresh.mem addr (0xeb ∷ 0x05 ∷ []) once.mem
      × (once.patches ≡ insert addr two []))
    ⊎ ((e : PatchError) × ((code_patch os fresh addr two (0xeb ∷ 0x05 ∷ [])).0
          ≡ code_patch_error addr e)
        × SameBytes os (flat-OsLaws 0x10000 0x20000) fresh.mem once.mem
        × (once.patches ≡ []))
code_patch_lem_example =
    code_patch_lem os (flat-OsLaws 0x10000 0x20000) fresh addr two (0xeb ∷ 0x05 ∷ [])

fresh-Tracks : PatcherTracks os (flat-OsLaws 0x10000 0x20000) (λ x. 0x90) fresh
fresh-Tracks = record { originals = λ a o m. cc (m.1); elsewhere = λ x away. refl }

code_patch-Tracks_example : PatcherTracks os (flat-OsLaws 0x10000 0x20000) (λ x. 0x90) once
code_patch-Tracks_example =
    code_patch-Tracks os (flat-OsLaws 0x10000 0x20000) (λ x. 0x90) fresh addr two (0xeb ∷ 0x05 ∷ [])
      fresh-Tracks (λ x within. refl)

once_entries : once.patches ≡ (addr, two) ∷ []
unfolding code_patch apply write_bytes_at write_bytes read_bytes looks_readable slice overwrite
    insert remove
once_entries = refl

once_restored : AllRestored os (flat-OsLaws 0x10000 0x20000) (λ x. 0x90) once.mem ((addr, two) ∷ [])
unfolding code_patch apply write_bytes_at write_bytes read_bytes looks_readable slice overwrite
once_restored = (refl, tt)

restore_all-first_example :
    ((x : ℕ) → (restore_all os once ((addr, two) ∷ [])).mem x ≡ 0x90)
    × ((restore_all os once ((addr, two) ∷ [])).patches ≡ [])
restore_all-first_example =
    restore_all-first os (flat-OsLaws 0x10000 0x20000) (λ x. 0x90) once ((addr, two) ∷ [])
      code_patch-Tracks_example (λ p. rw once_entries (λ m. m, λ m. m)) once_restored

two_differ : two ≢ 0xeb ∷ 0x05 ∷ []
two_differ e = cc e

code_patch-stacked_example :
    ¬ Tracks
      (λ x. 0x90)
      (code_patch os once addr (0xeb ∷ 0x05 ∷ []) (0xcc ∷ 0xcc ∷ [])).1.mem
      (code_patch os once addr (0xeb ∷ 0x05 ∷ []) (0xcc ∷ 0xcc ∷ [])).1.patches
code_patch-stacked_example =
    code_patch-stacked os (flat-OsLaws 0x10000 0x20000) fresh addr two (0xeb ∷ 0x05 ∷ [])
      (0xcc ∷ 0xcc ∷ []) patched_once patched_twice two_differ

only_two : (o : List ℕ) → In {A = ℕ × List ℕ} (addr, o) ((addr, two) ∷ []) → o ≡ two
only_two o (zero, e) = cc e
only_two o (suc i, e) = cc e

restore_patch-Tracks_example :
    PatcherTracks os (flat-OsLaws 0x10000 0x20000) (λ x. 0x90) (restore_patch os once addr two).1
restore_patch-Tracks_example =
    restore_patch-Tracks os (flat-OsLaws 0x10000 0x20000) (λ x. 0x90) once addr two
      code_patch-Tracks_example (rw once_entries (0, refl))
      (λ o m. only_two o (rw once_entries at m))
