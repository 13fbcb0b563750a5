-- ===== src/Registry/Copies.antt =====
-- How many entries of the registry have an id.
use iridium_stomp.Base.{
  ℕ, ◌+◌, ◌≤◌, Bool, not, List, [], ◌∷◌, ◌++◌, ◌≡◌, refl, arith, if◌then◌else◌, map, retain,
  unwrap_or,
}
use iridium_stomp.Base.Maps
use iridium_stomp.Base.Text.Utf8.{Bytes}
use iridium_stomp.Delivery.{SubscriptionEntry}
use iridium_stomp.Registry.{
  Subscriptions, add_entry, has_id, drop_empty, remove_first, remove_in_each, retain_in_each,
  remove_subscription, retain_others, discard, discard_parked,
}

module _ {S : Type 0} (id : Bytes) where
  abbrev pub one : SubscriptionEntry S → ℕ
  one e = if has_id id e then 1 else 0

  abbrev pub copies_in : List (SubscriptionEntry S) → ℕ
  copies_in [] = 0
  copies_in (e ∷ es) = one e + copies_in es

  abbrev pub copies : Subscriptions S → ℕ
  copies [] = 0
  copies ((dest, vec) ∷ m) = copies_in vec + copies m

  copies_in-append :
      (es fs : List (SubscriptionEntry S)) → copies_in (es ++ fs) ≡ copies_in es + copies_in fs
  copies_in-append [] fs = omega arith
  copies_in-append (e ∷ es) fs = omega (arith, copies_in-append es fs)

  pub copies-insert :
      (dest : Bytes) (vec : List (SubscriptionEntry S)) (m : Subscriptions S)
      → copies (Maps.insert dest vec m) + copies_in (unwrap_or (Maps.get dest m) [])
        ≡ copies m + copies_in vec
  unfolding Maps.insert Maps.get
  copies-insert dest vec [] = omega arith
  copies-insert dest vec ((d, w) ∷ m) = ground (arith, copies-insert dest vec m)

  pub copies-remove_le :
      (dest : Bytes) (m : Subscriptions S) → copies (Maps.remove dest m) ≤ copies m
  unfolding Maps.remove
  copies-remove_le dest [] = omega arith
  copies-remove_le dest ((d, w) ∷ m) = ground (arith, copies-remove_le dest m)

  pub copies-add_entry :
      (dest : Bytes) (e : SubscriptionEntry S) (m : Subscriptions S)
      → copies (add_entry dest e m) ≡ copies m + one e
  unfolding add_entry
  copies-add_entry dest e m =
      let vec = unwrap_or (Maps.get dest m) [] in
      omega (arith, copies-insert dest (vec ++ e ∷ []) m, copies_in-append vec (e ∷ []))

  pub copies-drop_empty_le : (m : Subscriptions S) → copies (drop_empty m) ≤ copies m
  unfolding drop_empty
  copies-drop_empty_le [] = omega arith
  copies-drop_empty_le ((dest, vec) ∷ m) = ground (arith, copies-drop_empty_le m)

  copies_in-remove_first_le :
      (j : Bytes) (es : List (SubscriptionEntry S)) → copies_in (remove_first j es) ≤ copies_in es
  unfolding remove_first
  copies_in-remove_first_le j [] = omega arith
  copies_in-remove_first_le j (e ∷ es) = ground (arith, copies_in-remove_first_le j es)

  copies-remove_in_each_le :
      (j : Bytes) (m : Subscriptions S) → copies (remove_in_each j m) ≤ copies m
  unfolding remove_in_each
  copies-remove_in_each_le j [] = omega arith
  copies-remove_in_each_le j ((dest, vec) ∷ m) =
      omega (arith, copies_in-remove_first_le j vec, copies-remove_in_each_le j m)

  pub copies-remove_subscription_le :
      (j : Bytes) (m : Subscriptions S) → copies (remove_subscription j m) ≤ copies m
  unfolding remove_subscription
  copies-remove_subscription_le j m =
      omega (arith, copies-drop_empty_le (remove_in_each j m), copies-remove_in_each_le j m)

  copies_in-retain_le :
      (p : SubscriptionEntry S → Bool) (es : List (SubscriptionEntry S))
      → copies_in (retain p es) ≤ copies_in es
  copies_in-retain_le p [] = omega arith
  copies_in-retain_le p (e ∷ es) = ground (arith, copies_in-retain_le p es)

  copies-retain_in_each_le :
      (j : Bytes) (m : Subscriptions S) → copies (retain_in_each j m) ≤ copies m
  unfolding retain_in_each
  copies-retain_in_each_le j [] = omega arith
  copies-retain_in_each_le j ((dest, vec) ∷ m) =
      omega (arith, copies_in-retain_le (λ e. not (has_id j e)) vec, copies-retain_in_each_le j m)

  pub copies-retain_others_le :
      (j : Bytes) (m : Subscriptions S) → copies (retain_others j m) ≤ copies m
  unfolding retain_others
  copies-retain_others_le j m =
      omega (arith, copies-drop_empty_le (retain_in_each j m), copies-retain_in_each_le j m)

  one-discard : (e : SubscriptionEntry S) → one (discard e) ≡ one e
  one-discard e = ground arith

  copies_in-discard : (es : List (SubscriptionEntry S)) → copies_in (map discard es) ≡ copies_in es
  copies_in-discard [] = refl
  copies_in-discard (e ∷ es) = omega (arith, one-discard e, copies_in-discard es)

  pub copies-discard_parked : (m : Subscriptions S) → copies (discard_parked m) ≡ copies m
  unfolding discard_parked
  copies-discard_parked [] = refl
  copies-discard_parked ((dest, vec) ∷ m) =
      omega (arith, copies_in-discard vec, copies-discard_parked m)
