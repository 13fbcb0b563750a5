-- ===== src/Base/Maps.antt =====
-- A `HashMap` with byte-string keys, as the association list of its entries in the order in which
-- the map happens to iterate.
pub mod Laws
pub mod Queues
use iridium_stomp.Base.Bools.{if◌then◌else◌}
use iridium_stomp.Base.Text.Utf8.{Bytes, bytes_eq}
use mathlib.Core.List.{List, [], ◌∷◌}
use mathlib.Core.Option.{Option, none, some}

abbrev pub Map {ℓ} : Type ℓ → Type ℓ
Map V = List (Bytes × V)

module _ {ℓ} {V : Type ℓ} where
  unfoldable pub get : Bytes → Map V → Option V
  get k [] = none
  get k ((j, v) ∷ m) = if bytes_eq j k then some v else get k m

  unfoldable pub remove : Bytes → Map V → Map V
  remove k [] = []
  remove k ((j, v) ∷ m) = let rest = remove k m in if bytes_eq j k then rest else (j, v) ∷ rest

  -- `insert`, and a write through `get_mut` or `entry`
  unfoldable pub insert : Bytes → V → Map V → Map V
  insert k v [] = (k, v) ∷ []
  insert k v ((j, w) ∷ m) = if bytes_eq j k then (j, v) ∷ m else (j, w) ∷ insert k v m
