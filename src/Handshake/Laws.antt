-- ===== src/Handshake/Laws.antt =====
-- The retries of the first connection.
use iridium_stomp.Base.{
  ℕ, zero, suc, ◌≤◌, true, false, List, [], ◌∷◌, ◌++◌, ◌≡◌, ◌⊎◌, inl, inr, refl, ap, Option, some,
  Result, ok, err, arith, length, All,
}
use iridium_stomp.Base.Text.Utf8.{Bytes}
use iridium_stomp.ServerError.{ConnError}
use iridium_stomp.Handshake.{
  Attempt, attempt_result, next_backoff, is_final, Intervals, agreed_intervals, connect_loop,
}

-- The attempt failed in a way that is retried.
abbrev pub IsRetried : Attempt → Type 0
IsRetried a = (e : ConnError) × (attempt_result a ≡ err e) × (is_final e ≡ false)

-- The attempt connected, or the server refused it.
abbrev pub IsDecisive : Attempt → Type 0
IsDecisive a =
    ((hb : Bytes) × (attempt_result a ≡ ok hb))
    ⊎ ((e : ConnError) × (attempt_result a ≡ err e) × (is_final e ≡ true))

abbrev pub outcome_of : Bytes → Result Bytes ConnError → Result Intervals ConnError
outcome_of client_hb (ok server_hb) = ok (agreed_intervals client_hb server_hb)
outcome_of client_hb (err e) = err e

-- The first `n` waits, from a back-off of `b` seconds.
abbrev pub doubling : ℕ → ℕ → List ℕ
doubling b zero = []
doubling b (suc n) = b ∷ doubling (next_backoff b) n

pub doubling_bounds : (b n : ℕ) → 1 ≤ b → b ≤ 30 → All (λ w. (1 ≤ w) × (w ≤ 30)) (doubling b n)
doubling_bounds b zero h k = tt
doubling_bounds b (suc n) h k =
    ((h, k), doubling_bounds (next_backoff b) n (omega arith) (omega arith))

-- After any number of attempts that failed otherwise, the first that connects or that the server
-- refuses decides what `connect` returns, whatever would have come behind it, and the waits
-- between the attempts have doubled each time, up to 30 seconds.
pub connect_loop-decides :
    (client_hb : Bytes) (b : ℕ) (last : Option ConnError) (before : List Attempt) (a : Attempt)
    (rest : List Attempt)
    → All IsRetried before
    → IsDecisive a
    → ((connect_loop client_hb b last (before ++ (a ∷ rest))).result
        ≡ outcome_of client_hb (attempt_result a))
      × ((connect_loop client_hb b last (before ++ (a ∷ rest))).waits ≡ doubling b (length before))
unfolding connect_loop
connect_loop-decides client_hb b last [] a rest h (inl (hb, e)) = rw (e, connect_loop) (refl, refl)
connect_loop-decides client_hb b last [] a rest h (inr (x, e, final)) =
    rw (e, final, connect_loop) (refl, refl)
connect_loop-decides client_hb b last (x ∷ before) a rest ((e, failed, again), h) d =
    let later = connect_loop-decides client_hb (next_backoff b) (some e) before a rest h d in
    rw (failed, again, connect_loop) (later.0, ap (◌∷◌ b) later.1)
