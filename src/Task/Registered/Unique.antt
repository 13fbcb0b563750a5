-- ===== src/Task/Registered/Unique.antt =====
-- That no two subscriptions have the same id.
use iridium_stomp.Base.{ℕ, ◌+◌, ◌≤◌, ◌≡◌, refl, sym, ◌∙◌, inl, inr, arith, Bool-cases}
use iridium_stomp.Base.Text.Bytes.{bytes_eq_iff}
use iridium_stomp.Base.Text.Decimal.{to_string}
use iridium_stomp.Base.Text.Numerals.{to_string_injective}
use iridium_stomp.Base.Text.Utf8.{Bytes, bytes_eq}
use iridium_stomp.Delivery.{SubscriptionEntry}
use iridium_stomp.Registry.Copies.{one, copies, copies-add_entry}
use iridium_stomp.Registry.{Subscriptions, add_entry}
use mathlib.Core.Path.{subst}

module _ {S : Type 0} where
  -- No id is there twice, and those from the counter on are not there.
  abbrev pub Fresh : Subscriptions S → ℕ → Type 0
  Fresh m n = ((id : Bytes) → copies id m ≤ 1) × ((j : ℕ) → copies (to_string (n + j)) m ≡ 0)

  pub Fresh-le :
      (m k : Subscriptions S) (n : ℕ)
      → ((id : Bytes) → copies id k ≤ copies id m)
      → Fresh m n
      → Fresh k n
  Fresh-le m k n le h =
      ((λ id. omega (arith, le id, h.0 id)), (λ j. omega (arith, le (to_string (n + j)), h.1 j)))

  one-other :
      (n j : ℕ) (e : SubscriptionEntry S) → e.id ≡ to_string n → one (to_string (n + 1 + j)) e ≡ 0
  one-other n j e h = elim (Bool-cases (bytes_eq e.id (to_string (n + 1 + j)))) [
    | inl same ↦ omega (
      arith,
      to_string_injective n (n + 1 + j)
          (sym h ∙ (bytes_eq_iff e.id (to_string (n + 1 + j))).0 same),
    )
    | inr other ↦ rw other refl
  ]

  next_absent : (m : Subscriptions S) (n : ℕ) → Fresh m n → copies (to_string n) m ≡ 0
  next_absent m n h = subst (λ k. copies (to_string k) m ≡ 0) same (h.1 0)
    where
      same : n + 0 ≡ n
      same = omega arith

  later_absent : (m : Subscriptions S) (n j : ℕ) → Fresh m n → copies (to_string (n + 1 + j)) m ≡ 0
  later_absent m n j h = subst (λ k. copies (to_string k) m ≡ 0) same (h.1 (1 + j))
    where
      same : n + (1 + j) ≡ n + 1 + j
      same = omega arith

  one_le : (id : Bytes) (e : SubscriptionEntry S) → one id e ≤ 1
  one_le id e = ground arith

  pub Fresh-add_entry :
      (dest : Bytes) (e : SubscriptionEntry S) (m : Subscriptions S) (n : ℕ)
      → e.id ≡ to_string n
      → Fresh m n
      → Fresh (add_entry dest e m) (n + 1)
  Fresh-add_entry dest e m n he h = (
    (λ id. elim (Bool-cases (bytes_eq e.id id)) [
      | inl same ↦
          let absent =
            subst (λ i. copies i m ≡ 0) (sym he ∙ (bytes_eq_iff e.id id).0 same)
              (next_absent m n h) in
          omega (arith, copies-add_entry id dest e m, absent, one_le id e)
      | inr other ↦ rw (copies-add_entry id dest e m, other) (omega (arith, h.0 id))
    ]),
    (λ j. omega (
      arith,
      copies-add_entry (to_string (n + 1 + j)) dest e m,
      one-other n j e he,
      later_absent m n j h,
    )),
  )
