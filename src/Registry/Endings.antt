-- ===== src/Registry/Endings.antt =====
-- Why subscriptions ended.
use iridium_stomp.Base.{
  Bool, false, not, ◌||◌, List, [], ◌∷◌, ◌++◌, ◌≡◌, refl, inl, inr, ◌∙◌, some, arith, if◌then◌else◌,
  any, retain, unwrap_or, Option-cases,
}
use iridium_stomp.Base.Maps
use iridium_stomp.Base.Maps.Laws.{get-insert}
use iridium_stomp.Base.Text.Bytes.{bytes_eq_iff}
use iridium_stomp.Base.Text.Utf8.{Bytes, bytes_eq}
use iridium_stomp.Delivery.{SubscriptionEntry}
use iridium_stomp.Registry.{
  Ends, end_subscription, Subscriptions, has_id, entries, drop_empty, retain_in_each, retain_others,
  is_registered,
}
use iridium_stomp.Subscription.{SubscriptionEnd}

pub get-end_subscription :
    (id j : Bytes) (reason : SubscriptionEnd) (ends : Ends)
    → Maps.get j (end_subscription id reason ends)
      ≡ (if bytes_eq id j then some (unwrap_or (Maps.get j ends) reason) else Maps.get j ends)
unfolding end_subscription
get-end_subscription id j reason ends = elim (Option-cases (Maps.get id ends)) [
  | inl e ↦
      rw (e, end_subscription) (ground (arith, get-insert id j reason ends, bytes_eq_iff id j))
  | inr (r, e) ↦ rw (e, end_subscription) (ground (arith, bytes_eq_iff id j))
]

pub any-append {ℓ} :
    {A : Type ℓ} (p : A → Bool) (xs ys : List A) → any p (xs ++ ys) ≡ (any p xs || any p ys)
any-append p [] ys = refl
any-append p (x ∷ xs) ys = ground (arith, any-append p xs ys)

module _ {S : Type 0} where
  any-retain_others :
      (id j : Bytes) (es : List (SubscriptionEntry S))
      → any (has_id j) (retain (λ e. not (has_id id e)) es)
        ≡ (if bytes_eq j id then false else any (has_id j) es)
  any-retain_others id j [] = ground arith
  any-retain_others id j (e ∷ es) = ground (
    arith,
    any-retain_others id j es,
    bytes_eq_iff j id,
    bytes_eq_iff e.id id,
    bytes_eq_iff e.id j,
  )

  pub is_registered-drop_empty :
      (j : Bytes) (m : Subscriptions S) → is_registered j (drop_empty m) ≡ is_registered j m
  unfolding is_registered drop_empty entries
  is_registered-drop_empty j [] = refl
  is_registered-drop_empty j ((dest, []) ∷ m) = is_registered-drop_empty j m
  is_registered-drop_empty j ((dest, e ∷ es) ∷ m) = ground (
    arith,
    any-append (has_id j) es (entries m),
    any-append (has_id j) es (entries (drop_empty m)),
    is_registered-drop_empty j m,
  )

  is_registered-retain_in_each :
      (id j : Bytes) (m : Subscriptions S)
      → is_registered j (retain_in_each id m) ≡ (if bytes_eq j id then false else is_registered j m)
  unfolding is_registered retain_in_each entries
  is_registered-retain_in_each id j [] = ground arith
  is_registered-retain_in_each id j ((dest, vec) ∷ m) = ground (
    arith,
    any-append (has_id j) (retain (λ e. not (has_id id e)) vec) (entries (retain_in_each id m)),
    any-append (has_id j) vec (entries m),
    any-retain_others id j vec,
    is_registered-retain_in_each id j m,
  )

  -- Dropping a handle takes every entry of its id from the registry, and no other.
  pub is_registered-retain_others :
      (id j : Bytes) (m : Subscriptions S)
      → is_registered j (retain_others id m) ≡ (if bytes_eq j id then false else is_registered j m)
  unfolding retain_others
  is_registered-retain_others id j m =
      is_registered-drop_empty j (retain_in_each id m) ∙ is_registered-retain_in_each id j m
