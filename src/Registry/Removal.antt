-- ===== src/Registry/Removal.antt =====
-- Removing a subscription by its id.
use iridium_stomp.Base.{
  ◌≤◌, Bool-cases, inl, inr, false, List, [], ◌∷◌, ◌≡◌, ◌⊎◌, ◌∙◌, arith, if◌then◌else◌, any, All,
}
use iridium_stomp.Base.Text.Bytes.{bytes_eq_iff}
use iridium_stomp.Base.Text.Utf8.{Bytes, bytes_eq}
use iridium_stomp.Delivery.{SubscriptionEntry}
use iridium_stomp.Registry.{
  Subscriptions, has_id, entries, remove_first, remove_in_each, remove_subscription, is_registered,
}
use iridium_stomp.Registry.Copies.{copies_in, copies}
use iridium_stomp.Registry.Endings.{any-append, is_registered-drop_empty}

module _ {S : Type 0} where
  -- No two entries of the list have this id.
  abbrev pub Once : Bytes → List (SubscriptionEntry S) → Type 0
  Once id [] = Unit
  Once id (e ∷ es) = ((has_id id e ≡ false) ⊎ (any (has_id id) es ≡ false)) × Once id es

  -- No two entries of a destination have this id.
  abbrev pub OnceEach : Bytes → Subscriptions S → Type 0
  OnceEach id m = All (λ d. Once id d.1) m

  any-remove_first :
      (id j : Bytes) (es : List (SubscriptionEntry S))
      → Once id es
      → any (has_id j) (remove_first id es) ≡ (if bytes_eq j id then false else any (has_id j) es)
  unfolding remove_first
  any-remove_first id j [] h = ground arith
  any-remove_first id j (e ∷ es) h = ground (
    arith,
    any-remove_first id j es h.1,
    bytes_eq_iff j id,
    bytes_eq_iff e.id id,
    bytes_eq_iff e.id j,
    h.0,
  )

  is_registered-remove_in_each :
      (id j : Bytes) (m : Subscriptions S)
      → OnceEach id m
      → is_registered j (remove_in_each id m) ≡ (if bytes_eq j id then false else is_registered j m)
  unfolding is_registered remove_in_each entries
  is_registered-remove_in_each id j [] h = ground arith
  is_registered-remove_in_each id j ((dest, vec) ∷ m) h = ground (
    arith,
    any-append (has_id j) (remove_first id vec) (entries (remove_in_each id m)),
    any-append (has_id j) vec (entries m),
    any-remove_first id j vec h.0,
    is_registered-remove_in_each id j m h.1,
  )

  pub is_registered-remove_subscription :
      (id j : Bytes) (m : Subscriptions S)
      → OnceEach id m
      → is_registered j (remove_subscription id m)
        ≡ (if bytes_eq j id then false else is_registered j m)
  unfolding remove_subscription
  is_registered-remove_subscription id j m h =
      is_registered-drop_empty j (remove_in_each id m) ∙ is_registered-remove_in_each id j m h

  any-copies_in :
      (id : Bytes) (es : List (SubscriptionEntry S))
      → copies_in id es ≡ 0
      → any (has_id id) es ≡ false
  any-copies_in id [] h = ground arith
  any-copies_in id (e ∷ es) h = ground (arith, any-copies_in id es)

  Once-copies_in : (id : Bytes) (es : List (SubscriptionEntry S)) → copies_in id es ≤ 1 → Once id es
  Once-copies_in id [] h = tt
  Once-copies_in id (e ∷ es) h = elim (Bool-cases (has_id id e)) [
    | inl same ↦
        let rest = rw same at h in
        (
          inr (any-copies_in id es (omega (arith, rest))),
          Once-copies_in id es (omega (arith, rest)),
        )
    | inr other ↦
        let rest = rw other at h in (inl other, Once-copies_in id es (omega (arith, rest)))
  ]

  -- An id that the registry has at most once no destination has twice.
  pub OnceEach-copies : (id : Bytes) (m : Subscriptions S) → copies id m ≤ 1 → OnceEach id m
  OnceEach-copies id [] h = tt
  OnceEach-copies id ((dest, vec) ∷ m) h =
      (Once-copies_in id vec (omega arith), OnceEach-copies id m (omega arith))
