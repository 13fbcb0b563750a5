-- ===== src/Task/Abandoning.antt =====
-- Errors that the broker repeats for a destination.
use iridium_stomp.Base.{
  ℕ, ◌+◌, ◌%◌, ◌^◌, ◌<◌, ◌≡◌, refl, inl, inr, ap, ◌∙◌, Option, none, arith, if◌then◌else◌, leb,
  unwrap_or, Bool-cases, Option-cases,
}
use iridium_stomp.Base.Maps
use iridium_stomp.Base.Maps.Laws.{get-insert, get-remove}
use iridium_stomp.Base.Text.Bytes.{bytes_eq_iff}
use iridium_stomp.Base.Text.Utf8.{Bytes, bytes_eq}
use iridium_stomp.Client.{Links}
use iridium_stomp.Frame.{Frame}
use iridium_stomp.Task.{Task, forward_inbound}
use iridium_stomp.Task.Errors.{subscription_error_threshold, abandon, count_error}

module _ (l : Links) where
  -- How many errors were counted for a destination.
  abbrev pub errors_of : Bytes → Task l → ℕ
  errors_of dest t = unwrap_or (Maps.get dest t.subscription_errors) 0

  abandon-removes :
      (f : Frame) (sub_id : Option Bytes) (dest j : Bytes) (count : ℕ) (t : Task l)
      → (Maps.get j (abandon l f sub_id dest count t).client.subscriptions
          ≡ (if bytes_eq dest j then none else Maps.get j t.client.subscriptions))
        × ((abandon l f sub_id dest count t).subscription_errors ≡ t.subscription_errors)
  unfolding abandon forward_inbound
  abandon-removes f sub_id dest j count t =
      elim (Option-cases (Maps.get dest t.client.subscriptions)) [
        | inl e ↦ rw (e, abandon) (ground (arith, bytes_eq_iff dest j), refl)
        | inr (vec, e) ↦ rw (e, abandon) (get-remove dest j t.client.subscriptions, refl)
      ]

  counts_one :
      (dest j : Bytes) (n : ℕ) (t : Task l)
      → unwrap_or (Maps.get j (Maps.insert dest n t.subscription_errors)) 0
        ≡ (if bytes_eq dest j then n else errors_of j t)
  counts_one dest j n t = ground (arith, get-insert dest j n t.subscription_errors)

  -- An error of a destination is counted for it, and for no other. From the third on, until the
  -- counter would overflow, nothing is subscribed to the destination afterwards; before that every
  -- subscription stays. The other destinations keep theirs.
  pub count_error_lem :
      (f : Frame) (sub_id : Option Bytes) (dest j : Bytes) (t : Task l)
      → errors_of dest t + 1 < 2 ^ 32
      → (errors_of j (count_error l f sub_id dest t)
          ≡ (if bytes_eq dest j then errors_of dest t + 1 else errors_of j t))
        × (Maps.get j (count_error l f sub_id dest t).client.subscriptions ≡ (
            if leb 3 (errors_of dest t + 1)
            then (if bytes_eq dest j then none else Maps.get j t.client.subscriptions)
            else Maps.get j t.client.subscriptions))
  unfolding count_error
  count_error_lem f sub_id dest j t h =
      let n : ℕ = errors_of dest t + 1 in
      let small : n % 2 ^ 32 ≡ n = omega arith in
      let counted : Task l = record t {
        subscription_errors = Maps.insert dest n t.subscription_errors;
      } in
      let given_up = abandon-removes f sub_id dest j n counted in
      elim (Bool-cases (leb subscription_error_threshold n)) [
        | inl third ↦
            rw (small, third, count_error)
              (ap (λ m. unwrap_or (Maps.get j m) 0) given_up.1 ∙ counts_one dest j n t, given_up.0)
        | inr fewer ↦ rw (small, fewer, count_error) (counts_one dest j n t, refl)
      ]
