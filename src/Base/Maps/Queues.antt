-- ===== src/Base/Maps/Queues.antt =====
-- Maps to lists, and what holds of every member of every list in one.
use mathlib.Core.Bool.{Bool}
use mathlib.Core.List.{List, [], ◌∷◌, ◌++◌}
use native.Mathlib.Omega.{arith}
use Prim.Native.Nat.{ℕ, zero, suc}
use iridium_stomp.Base.Bools.{unwrap_or}
use iridium_stomp.Base.Lists.{All, All-append, drop, retain}
use iridium_stomp.Base.Maps.{Map, get, remove, insert}
use iridium_stomp.Base.Text.Utf8.{Bytes}

module _ {ℓ κ} {A : Type ℓ} (P : A → Type κ) where
  abbrev pub AllIn : Map (List A) → Type κ
  AllIn [] = Unit
  AllIn ((k, q) ∷ m) = All P q × AllIn m

  pub All-retain : (p : A → Bool) (xs : List A) → All P xs → All P (retain p xs)
  All-retain p [] h = tt
  All-retain p (x ∷ xs) h = ground (arith, All-retain p xs h.1)

  pub All-drop : (n : ℕ) (xs : List A) → All P xs → All P (drop n xs)
  All-drop zero xs h = h
  All-drop (suc n) [] h = tt
  All-drop (suc n) (x ∷ xs) h = All-drop n xs h.1

  pub AllIn-get : (k : Bytes) (m : Map (List A)) → AllIn m → All P (unwrap_or (get k m) [])
  unfolding get
  AllIn-get k [] h = tt
  AllIn-get k ((j, q) ∷ m) h = ground (arith, AllIn-get k m h.1)

  pub AllIn-insert :
      (k : Bytes) (q : List A) (m : Map (List A)) → All P q → AllIn m → AllIn (insert k q m)
  unfolding insert
  AllIn-insert k q [] hq h = (hq, tt)
  AllIn-insert k q ((j, r) ∷ m) hq h = ground (arith, AllIn-insert k q m hq h.1)

  pub AllIn-remove : (k : Bytes) (m : Map (List A)) → AllIn m → AllIn (remove k m)
  unfolding remove
  AllIn-remove k [] h = tt
  AllIn-remove k ((j, r) ∷ m) h = ground (arith, AllIn-remove k m h.1)

  pub AllIn-retain : (p : Bytes × List A → Bool) (m : Map (List A)) → AllIn m → AllIn (retain p m)
  AllIn-retain p [] h = tt
  AllIn-retain p ((j, r) ∷ m) h = ground (arith, AllIn-retain p m h.1)

  -- Appending to the list of a key, which starts empty.
  pub AllIn-push :
      (k : Bytes) (x : A) (m : Map (List A))
      → P x
      → AllIn m
      → AllIn (insert k (unwrap_or (get k m) [] ++ x ∷ []) m)
  AllIn-push k x m hx h =
      AllIn-insert k _ m (All-append P (unwrap_or (get k m) []) (x ∷ []) (AllIn-get k m h) (hx, tt))
        h
