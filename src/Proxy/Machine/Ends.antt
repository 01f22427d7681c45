-- ===== src/Proxy/Machine/Ends.antt =====
-- `Run` always returns when both inputs end: no deadlock, and no endless execution.
use mcp_content_guard.Base.{
  ℕ, zero, suc, ◌<◌, ◌≡◌, ◌⊎◌, refl, ap, true, false, none, List, [], ◌∷◌, length, arith, inl, inr,
  Bool-cases,
}
use mcp_content_guard.Base.Bytes.{Bytes}
use mcp_content_guard.Intercept.{State, Environment, Setup}
use mcp_content_guard.Proxy.Machine.{
  Input, ended, open_forever, line, Worker, busy, finished, Machine, start, Step, client_line,
  upstream_line, client_send, upstream_send, client_ends, upstream_ends, closes, writes, returns,
}
use mcp_content_guard.Proxy.Machine.Work.{Ends, work, CanEnd, step-CanEnd, step-work}

module _ (setup : Setup) (tool : Bytes) where
  -- Something can happen.
  abbrev pub CanStep : Machine → Type 0
  CanStep m = (n : Machine) × Step setup tool m n

  some_env : Environment
  some_env = record {
    random = none;
    disk = record { can_read = true; write_failure = none; can_rename = true };
    expired = λ k. none;
  }

  upstream-CanStep :
      (m : Machine) (i : Input) (w : Worker)
      → m.upstream_input ≡ i
      → m.upstream ≡ w
      → Ends i
      → m.buffered ≡ []
      → CanStep m ⊎ (m.upstream ≡ finished)
  upstream-CanStep m i finished p q e b = inr q
  upstream-CanStep m i (busy (x ∷ xs)) p q e b =
      inl (_, upstream_send x xs q (omega (arith, ap (length {0}) b)))
  upstream-CanStep m ended (busy []) p q e b = inl (_, upstream_ends q p)
  upstream-CanStep m open_forever (busy []) p q e b = absurd e
  upstream-CanStep m (line l rest) (busy []) p q e b = inl (_, upstream_line some_env l rest q p)

  client-CanStep :
      (m : Machine) (i : Input) (w : Worker)
      → m.client_input ≡ i
      → m.client ≡ w
      → Ends i
      → m.buffered ≡ []
      → CanStep m ⊎ (m.client ≡ finished)
  client-CanStep m i finished p q e b = inr q
  client-CanStep m i (busy (x ∷ xs)) p q e b =
      inl (_, client_send x xs q (omega (arith, ap (length {0}) b)))
  client-CanStep m ended (busy []) p q e b = inl (_, client_ends q p)
  client-CanStep m open_forever (busy []) p q e b = absurd e
  client-CanStep m (line l rest) (busy []) p q e b = inl (_, client_line some_env l rest q p)

  finished-CanStep :
      (m : Machine)
      → m.returned ≡ false
      → m.buffered ≡ []
      → m.client ≡ finished
      → m.upstream ≡ finished
      → CanStep m
  finished-CanStep m r b c u = elim (Bool-cases m.closed) [
    | inl is_closed ↦ (_, returns b is_closed r)
    | inr is_open ↦ (_, closes c u is_open)
  ]

  -- A machine whose inputs end does not come to a halt before it returns.
  can_step :
      (m : Machine) (l : List Bytes)
      → m.buffered ≡ l
      → CanEnd setup tool m
      → m.returned ≡ false
      → CanStep m
  can_step m (b ∷ bs) e c r = (_, writes b bs e)
  can_step m [] e c r = elim (client-CanStep m m.client_input m.client refl refl c.client e) [
    | inl s ↦ s
    | inr client_done ↦
        elim (upstream-CanStep m m.upstream_input m.upstream refl refl c.upstream e) [
          | inl s ↦ s
          | inr upstream_done ↦ finished-CanStep m r e client_done upstream_done
        ]
  ]

  -- Whichever goroutine moves at each step, a state with the property comes, after finitely many.
  pub data Inevitably (P : Machine → Type 0) : Machine → Type 0 where
    now : {m : Machine} → P m → Inevitably P m
    later :
        {m : Machine}
        → CanStep m
        → ((n : Machine) → Step setup tool m n → Inevitably P n)
        → Inevitably P m

  abbrev pub HasReturned : Machine → Type 0
  HasReturned m = m.returned ≡ true

  ends_within :
      (fuel : ℕ) (m : Machine) → CanEnd setup tool m → work m < fuel → Inevitably HasReturned m
  ends_within zero m c h = absurd (omega arith)
  ends_within (suc fuel) m c h = elim (Bool-cases m.returned) [
    | inl r ↦ now r
    | inr r ↦ later (can_step m m.buffered refl c r) (λ n s.
        ends_within fuel n (step-CanEnd setup tool m n s c)
          (omega (arith, step-work setup tool m n s c.empty)))
  ]

  -- If both inputs end, and every write to either side does, `Run` returns, whichever goroutine moves at
  -- each step: there is no deadlock on the channel and no endless execution.
  pub start-HasReturned :
      (shared : State) (client_input upstream_input : Input)
      → Ends client_input
      → Ends upstream_input
      → Inevitably HasReturned (start shared client_input upstream_input)
  unfolding start
  start-HasReturned shared ci ui c u =
      ends_within (suc (work (start shared ci ui))) (start shared ci ui)
        (record { client = c; upstream = u; empty = refl }) (omega arith)
