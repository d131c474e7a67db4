-- ===== src/Apt/Overbook.antt =====
-- proj2/aptsim.c: the limit of tenants for each agent, and the tenants who wait for the next agent.
use cs.Prelude.{
  ℕ, ◌+◌, ◌≤◌, ◌≡◌, ◌≢◌, refl, arith, some, Option-cases, inl, inr, if◌then◌else◌, ◌==◌,
}
use cs.Semaphore.{Semaphores}
use cs.Apt.{Place, World, Reach, Shared, run_arrival, arriving, moves}

module _ (sys : Semaphores) where
  open sys use {Sem, value, down, up, down_none, down_value, up_value}

  down-takes : (s : Sem) → value s ≢ 0 → (t : Sem) × (down s ≡ some t)
  down-takes s h = elim (Option-cases (down s)) [
    | inl e ↦ absurd (h (down_none s e))
    | inr found ↦ found
  ]

  -- Process `i` takes its next step in tenantArrives.
  abbrev goes : World sys → ℕ → Shared sys → Place → World sys
  goes w i s p = record { shared = s; place = λ k. if k == i then p else w.place k }

  goes-at : (w : World sys) (i : ℕ) (s : Shared sys) (p : Place) → (goes w i s p).place i ≡ p
  goes-at w i s p = ground arith

  goes-Reach :
      {u : World sys} (w : World sys) (i : ℕ) (p : Place) {s' : Shared sys} {p' : Place}
      → Reach sys u w
      → w.place i ≡ p
      → run_arrival sys w.shared p ≡ some (s', p')
      → Reach sys u (goes w i s' p')
  goes-Reach w i p path at e = Reach.next path (moves i (arriving (rw at e)))

  -- When the mutex is free, a permit for waiting tenants is left, and the current agent has 10
  -- tenants or more, a tenant who arrives can run on to where the agent has one more.
  pub tenant_overbooks :
      (w : World sys) (i : ℕ)
      → w.place i ≡ Place.tenant_arrives
      → value w.shared.mutex ≡ 1
      → value w.shared.waiting_for_agent ≢ 0
      → 10 ≤ w.shared.current_agent_tenants
      → (v : World sys) × Reach sys w v
        × (v.shared.current_agent_tenants ≡ w.shared.current_agent_tenants + 1)
  tenant_overbooks w i at one permit full =
      let s = w.shared in
      let (m, took) = down-takes s.mutex (omega (arith, one)) in
      let (t, woken) = down-takes s.waiting_for_agent permit in
      let (n, again) = down-takes (up m) (omega (arith, up_value m)) in
      let s1 : Shared sys = record s { mutex = m } in
      let s2 : Shared sys = record s { mutex = up m } in
      let s3 : Shared sys = record s { mutex = up m; waiting_for_agent = t } in
      let s4 : Shared sys = record s { mutex = n; waiting_for_agent = t } in
      let w1 = goes w i s1 Place.tenant_checks in
      let w2 = goes w1 i s2 Place.tenant_queues in
      let w3 = goes w2 i s3 Place.tenant_woken in
      let w4 = goes w3 i s4 Place.tenant_joins in
      let r1 = goes-Reach w i Place.tenant_arrives Reach.here at (ground (arith, took)) in
      let r2 = goes-Reach w1 i Place.tenant_checks r1 (goes-at w i s1 _) (ground arith) in
      let r3 = goes-Reach w2 i Place.tenant_queues r2 (goes-at w1 i s2 _) (ground (arith, woken)) in
      let r4 = goes-Reach w3 i Place.tenant_woken r3 (goes-at w2 i s3 _) (ground (arith, again)) in
      let r5 = goes-Reach w4 i Place.tenant_joins r4 (goes-at w3 i s4 _) refl in
      (
        goes w4 i (record s4 { current_agent_tenants = s.current_agent_tenants + 1 })
            Place.tenant_wakes,
        r5,
        refl,
      )
