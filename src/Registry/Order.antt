-- ===== src/Registry/Order.antt =====
-- The order in which `games` of crates/runtime/src/registry.rs lists the games.
use openforge_aio.Prelude.Int.{ℤ, pos, negsuc, zlt}
use openforge_aio.Prelude.{
  ℕ, suc, ◌<◌, ◌≡◌, refl, sym, ap, ap₂, ◌∙◌, ◌++◌, ltb, true, false, Option, none, some, List, [],
  ◌∷◌, if◌then◌else◌, arith, Bool-cases, inl, inr, ◌⊎◌,
}
use openforge_aio.Prelude.Text.{Text, text_eq}
use openforge_aio.Prelude.Dict.{Dict, lookup, remove, insert, text_key, text_eq_iff, lookup-insert}
use openforge_aio.Registry.{
  Game, CustomFeatureEntry, Registry, text_le, key_le, game_key, insert_sorted, sort_by_key, keys,
  collect_games, collect_internal, game,
}

text_le_total : (s t : Text) → (text_le s t ≡ true) ⊎ (text_le t s ≡ true)
text_le_total [] t = inl refl
text_le_total (c ∷ s) [] = inr refl
text_le_total (c ∷ s) (d ∷ t) = ground (arith, text_le_total s t)

key_le_total : (a b : ℤ × Text) → (key_le a b ≡ true) ⊎ (key_le b a ≡ true)
unfolding key_le
key_le_total (pos m, s) (pos n, t) = ground (arith, text_le_total s t)
key_le_total (pos m, s) (negsuc n, t) = inr refl
key_le_total (negsuc m, s) (pos n, t) = inl refl
key_le_total (negsuc m, s) (negsuc n, t) = ground (arith, text_le_total s t)

-- How often the id stands in the list.
abbrev pub count : Text → List Text → ℕ
count id [] = 0
count id (x ∷ xs) = if text_eq x id then suc (count id xs) else count id xs

module _ (key : Text → ℤ × Text) where
  -- No key is above the next one's.
  abbrev KeysAscend : List Text → Type 0
  KeysAscend [] = Unit
  KeysAscend (x ∷ []) = Unit
  KeysAscend (x ∷ y ∷ xs) = (key_le (key x) (key y) ≡ true) × KeysAscend (y ∷ xs)

  insert_sorted-KeysAscend :
      (id : Text) (xs : List Text) → KeysAscend xs → KeysAscend (insert_sorted key id xs)
  unfolding insert_sorted
  insert_sorted-KeysAscend id [] h = tt
  insert_sorted-KeysAscend id (x ∷ []) h = elim (Bool-cases (key_le (key id) (key x))) [
    | inl low ↦ rw low (low, tt)
    | inr high ↦ rw high (ground (arith, high, key_le_total (key id) (key x)), tt)
  ]
  insert_sorted-KeysAscend id (x ∷ y ∷ xs) h = elim (Bool-cases (key_le (key id) (key x))) [
    | inl low ↦ rw low (low, h)
    | inr high ↦ elim (Bool-cases (key_le (key id) (key y))) [
      | inl low ↦ rw (high, low) (ground (arith, high, key_le_total (key id) (key x)), (low, h.1))
      | inr higher ↦
          let rest = insert_sorted-KeysAscend id (y ∷ xs) h.1 in
          rw (high, higher) (h.0, rw higher at rest)
    ]
  ]

  sort_by_key-KeysAscend : (xs : List Text) → KeysAscend (sort_by_key key xs)
  unfolding sort_by_key
  sort_by_key-KeysAscend [] = tt
  sort_by_key-KeysAscend (x ∷ xs) =
      insert_sorted-KeysAscend x (sort_by_key key xs) (sort_by_key-KeysAscend xs)

  count-insert_sorted :
      (id x : Text) (xs : List Text) → count id (insert_sorted key x xs) ≡ count id (x ∷ xs)
  unfolding insert_sorted
  count-insert_sorted id x [] = refl
  count-insert_sorted id x (y ∷ xs) = ground (arith, count-insert_sorted id x xs)

  count-sort_by_key : (id : Text) (xs : List Text) → count id (sort_by_key key xs) ≡ count id xs
  unfolding sort_by_key
  count-sort_by_key id [] = refl
  count-sort_by_key id (x ∷ xs) =
      count-insert_sorted id x (sort_by_key key xs) ∙ ground (arith, count-sort_by_key id xs)

abbrev pub present : Option Game → ℕ
present none = 0
present (some g) = 1

-- A map in which each key has one entry.
abbrev OneEach : Dict Text Game → Type 0
OneEach d = (id : Text) → count id (keys d) ≡ present (lookup id d)

count-keys-remove :
    (k id : Text) (d : Dict Text Game)
    → count id (keys (remove k d)) ≡ (if text_eq k id then 0 else count id (keys d))
unfolding keys remove
count-keys-remove k id [] = ground arith
count-keys-remove k id ((j, g) ∷ d) =
    ground (arith, count-keys-remove k id d, text_eq_iff j k, text_eq_iff j id, text_eq_iff k id)

insert-OneEach : (k : Text) (g : Game) (d : Dict Text Game) → OneEach d → OneEach (insert k g d)
unfolding insert keys
insert-OneEach k g d h id =
    ground (arith, count-keys-remove k id d, lookup-insert {V = Game} k id g d, h id)

collect_games-OneEach :
    (gs : List Game) (d : Dict Text Game) → OneEach d → OneEach (collect_games gs d)
unfolding collect_games
collect_games-OneEach [] d h = h
collect_games-OneEach (g ∷ gs) d h =
    collect_games-OneEach gs (insert g.id g d) (insert-OneEach g.id g d h)

-- The key by which the registry sorts a game.
abbrev registry_key : Registry → Text → ℤ × Text
registry_key r id = game_key (game r id)

abbrev pub Less : ℤ → ℤ → Type 0
Less (pos m) (pos n) = m < n
Less (pos m) (negsuc n) = ⊥
Less (negsuc m) (pos n) = Unit
Less (negsuc m) (negsuc n) = n < m

-- A name is a prefix of the other, or has the lower code point where they first differ.
abbrev pub NameLe : Text → Text → Type 0
NameLe s t =
    ((rest : Text) × (t ≡ s ++ rest))
    ⊎ ((prefix : Text) × (c : ℕ) × (d : ℕ) × (s' : Text) × (t' : Text) × (s ≡ prefix ++ c ∷ s')
        × (t ≡ prefix ++ d ∷ t')
        × (c < d))

-- The game has the lower sort order, or the same one and a name that comes no later.
abbrev pub NotAfter : Game → Game → Type 0
NotAfter g h =
    Less g.sort_order h.sort_order
    ⊎ ((g.sort_order ≡ h.sort_order) × NameLe g.display_name h.display_name)

abbrev pub Follow : Option Game → Option Game → Type 0
Follow (some g) (some h) = NotAfter g h
Follow (some g) none = Unit
Follow none h = Unit

-- The games of neighbouring ids follow each other.
abbrev pub Ascends : Registry → List Text → Type 0
Ascends r [] = Unit
Ascends r (x ∷ []) = Unit
Ascends r (x ∷ y ∷ xs) = Follow (game r x) (game r y) × Ascends r (y ∷ xs)

text_le-NameLe : (s t : Text) → text_le s t ≡ true → NameLe s t
text_le-NameLe [] t h = inl (t, refl)
text_le-NameLe (c ∷ s) [] h = absurd (cc h)
text_le-NameLe (c ∷ s) (d ∷ t) h = elim (Bool-cases (ltb c d)) [
  | inl low ↦ inr ([], c, d, s, t, refl, refl, ground (arith, low))
  | inr other ↦
      let same : c ≡ d = ground (arith, h, other) in
      elim (text_le-NameLe s t (ground (arith, h, other))) [
        | inl (rest, e) ↦ inl (rest, ap₂ ◌∷◌ (sym same) e)
        | inr (prefix, a, b, s', t', e, f, less) ↦
            inr (c ∷ prefix, a, b, s', t', ap (λ r. c ∷ r) e, ap₂ ◌∷◌ (sym same) f, less)
      ]
]

zlt-Less : (a b : ℤ) → (zlt a b ≡ true) → Less a b
zlt-Less (pos m) (pos n) h = ground (arith, h)
zlt-Less (pos m) (negsuc n) h = absurd (cc h)
zlt-Less (negsuc m) (pos n) h = tt
zlt-Less (negsuc m) (negsuc n) h = ground (arith, h)

zlt_antisym : (a b : ℤ) → zlt a b ≡ false → zlt b a ≡ false → a ≡ b
zlt_antisym (pos m) (pos n) h k = let same : m ≡ n = ground (arith, h, k) in ap pos same
zlt_antisym (pos m) (negsuc n) h k = absurd (cc k)
zlt_antisym (negsuc m) (pos n) h k = absurd (cc h)
zlt_antisym (negsuc m) (negsuc n) h k = let same : m ≡ n = ground (arith, h, k) in ap negsuc same

key_le-Follow : (g h : Option Game) → key_le (game_key g) (game_key h) ≡ true → Follow g h
unfolding key_le
key_le-Follow none h e = tt
key_le-Follow (some g) none e = tt
key_le-Follow (some g) (some h) e = elim (Bool-cases (zlt g.sort_order h.sort_order)) [
  | inl low ↦ inl (zlt-Less g.sort_order h.sort_order low)
  | inr other ↦
      let back : zlt h.sort_order g.sort_order ≡ false = ground (arith, e, other) in
      inr (
        zlt_antisym g.sort_order h.sort_order other back,
        text_le-NameLe g.display_name h.display_name (ground (arith, e, other)),
      )
]

KeysAscend-Ascends : (r : Registry) (xs : List Text) → KeysAscend (registry_key r) xs → Ascends r xs
KeysAscend-Ascends r [] h = tt
KeysAscend-Ascends r (x ∷ []) h = tt
KeysAscend-Ascends r (x ∷ y ∷ xs) h =
    (key_le-Follow (game r x) (game r y) h.0, KeysAscend-Ascends r (y ∷ xs) h.1)

-- Each registered game stands once in the sorted list, and nothing else does, so that the lookup of
-- each listed id succeeds; and the list ascends by sort order and then by name.
pub sorted_game_ids_lem :
    (entries : List Game) (customs : List CustomFeatureEntry)
    → let r = collect_internal entries customs in
      ((id : Text) → count id r.sorted_game_ids ≡ present (game r id)) × Ascends r r.sorted_game_ids
unfolding collect_internal game
sorted_game_ids_lem entries customs =
    let r = collect_internal entries customs in
    let one = collect_games-OneEach entries [] (λ id. unfold keys in unfold lookup in refl) in
    (
      λ id. count-sort_by_key (registry_key r) id (keys r.games) ∙ one id,
      KeysAscend-Ascends r r.sorted_game_ids
          (sort_by_key-KeysAscend (registry_key r) (keys r.games)),
    )
