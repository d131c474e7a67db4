-- ===== src/Apt.antt =====
-- proj2/aptsim.c: agents who show an apartment to tenants. Each step is one statement on the shared
-- memory; the messages and the sleeps are left out.
pub mod Exclusion
pub mod Deadlock
pub mod Overbook
pub mod Args
mod Tests
use cs.Prelude.{ℕ, zero, suc, ◌+◌, ◌-◌, Option, none, some, ltb, ◌==◌, ◌≡◌, if◌then◌else◌}
use cs.Semaphore.{Semaphores}

abbrev pub max_tenants_per_agent : ℕ
max_tenants_per_agent = 10

-- Where a process stands: in agentProcess or in tenantProcess.
pub data Place : Type 0 where
  -- agentArrives, from its first `down (mutex)`; an agent comes with its `agent_id`.
  agent_arrives agent_checks : ℕ → Place
  agent_queues agent_locks agent_wakes agent_enters agent_signals agent_waits : Place
  -- openApt and agentLeaves.
  agent_opens agent_shows agent_returns agent_frees agent_resets agent_leaves agent_gone : Place
  -- tenantArrives.
  tenant_arrives tenant_checks tenant_queues tenant_woken tenant_joins tenant_wakes : Place
  tenant_enters tenant_tells tenant_releases tenant_waits tenant_meets tenant_resets
        tenant_unlocks :
      Place
  -- viewApt and tenantLeaves.
  tenant_views tenant_inspects tenant_leaves tenant_counts tenant_decides tenant_closes : Place
  tenant_drains tenant_shuts tenant_gone : Place

module _ (sys : Semaphores) where
  open sys use {Sem, new, down, up}

  -- "SHARED DATA"
  pub record Shared : Type 0 where
    pub mutex : Sem
    pub waiting_for_agent : Sem
    pub tenant_arrived : Sem
    pub agent_arrived : Sem
    pub apt_lock : Sem
    pub tenants_leave : Sem
    pub agent_apt_lock : Sem
    pub current_agent_tenants : ℕ
    pub tenants_in_apt : ℕ

  abbrev pub init_shared_variables : Shared
  init_shared_variables = record {
    mutex = new 1;
    waiting_for_agent = new 0;
    tenant_arrived = new 0;
    agent_arrived = new 0;
    apt_lock = new 0;
    tenants_leave = new 0;
    agent_apt_lock = new 1;
    current_agent_tenants = 0;
    tenants_in_apt = 0;
  }

  -- A `down` that gives the new semaphore, or at which the process sleeps.
  abbrev pub takes : Option Sem → (Sem → Shared) → Place → Option (Shared × Place)
  takes none f p = none
  takes (some m) f p = some (f m, p)

  -- agentProcess.
  abbrev pub run_agent : Shared → Place → Option (Shared × Place)
  run_agent s (agent_arrives id) =
      takes (down s.mutex) (λ m. record s { mutex = m }) (agent_checks id)
  run_agent s (agent_checks zero) =
      takes (down s.agent_apt_lock) (λ m. record s { agent_apt_lock = m }) agent_enters
  run_agent s (agent_checks (suc id)) = some (record s { mutex = up s.mutex }, agent_queues)
  run_agent s agent_queues =
      takes (down s.agent_apt_lock) (λ m. record s { agent_apt_lock = m }) agent_locks
  run_agent s agent_locks = takes (down s.mutex) (λ m. record s { mutex = m }) agent_wakes
  run_agent s agent_wakes =
      some (record s { waiting_for_agent = up s.waiting_for_agent }, agent_enters)
  run_agent s agent_enters = some (record s { mutex = up s.mutex }, agent_signals)
  run_agent s agent_signals = some (record s { agent_arrived = up s.agent_arrived }, agent_waits)
  run_agent s agent_waits =
      takes (down s.tenant_arrived) (λ m. record s { tenant_arrived = m }) agent_opens
  run_agent s agent_opens = some (record s { apt_lock = up s.apt_lock }, agent_shows)
  run_agent s agent_shows =
      takes (down s.tenants_leave) (λ m. record s { tenants_leave = m }) agent_returns
  run_agent s agent_returns = takes (down s.mutex) (λ m. record s { mutex = m }) agent_frees
  run_agent s agent_frees = some (record s { agent_apt_lock = up s.agent_apt_lock }, agent_resets)
  run_agent s agent_resets = some (record s { current_agent_tenants = 0 }, agent_leaves)
  run_agent s agent_leaves = some (record s { mutex = up s.mutex }, agent_gone)
  run_agent s _ = none

  abbrev pub one_more : Shared → Shared
  one_more s = record s { current_agent_tenants = s.current_agent_tenants + 1 }

  -- tenantArrives.
  abbrev pub run_arrival : Shared → Place → Option (Shared × Place)
  run_arrival s tenant_arrives = takes (down s.mutex) (λ m. record s { mutex = m }) tenant_checks
  run_arrival s tenant_checks = some (
      if ltb s.current_agent_tenants max_tenants_per_agent
      then (one_more s, tenant_enters)
      else (record s { mutex = up s.mutex }, tenant_queues))
  run_arrival s tenant_queues =
      takes (down s.waiting_for_agent) (λ m. record s { waiting_for_agent = m }) tenant_woken
  run_arrival s tenant_woken = takes (down s.mutex) (λ m. record s { mutex = m }) tenant_joins
  run_arrival s tenant_joins = some (one_more s, tenant_wakes)
  run_arrival s tenant_wakes = some (
    if ltb s.current_agent_tenants max_tenants_per_agent
        then record s { waiting_for_agent = up s.waiting_for_agent }
        else s,
    tenant_enters,
  )
  run_arrival s tenant_enters =
      some (record s { tenants_in_apt = s.tenants_in_apt + 1 }, tenant_tells)
  run_arrival s tenant_tells = some (
    if s.current_agent_tenants == 1 then record s { tenant_arrived = up s.tenant_arrived } else s,
    tenant_releases,
  )
  run_arrival s tenant_releases = some (record s { mutex = up s.mutex }, tenant_waits)
  run_arrival s tenant_waits =
      takes (down s.agent_arrived) (λ m. record s { agent_arrived = m }) tenant_meets
  run_arrival s tenant_meets = takes (down s.mutex) (λ m. record s { mutex = m }) tenant_resets
  run_arrival s tenant_resets =
      some (record s { agent_arrived = up s.agent_arrived }, tenant_unlocks)
  run_arrival s tenant_unlocks = some (record s { mutex = up s.mutex }, tenant_views)
  run_arrival s _ = none

  -- viewApt and tenantLeaves. The tenant itself is counted in `tenants_in_apt`, which is not 0.
  abbrev pub run_visit : Shared → Place → Option (Shared × Place)
  run_visit s tenant_views =
      takes (down s.apt_lock) (λ m. record s { apt_lock = m }) tenant_inspects
  run_visit s tenant_inspects = some (record s { apt_lock = up s.apt_lock }, tenant_leaves)
  run_visit s tenant_leaves = takes (down s.mutex) (λ m. record s { mutex = m }) tenant_counts
  run_visit s tenant_counts =
      some (record s { tenants_in_apt = s.tenants_in_apt - 1 }, tenant_decides)
  run_visit s tenant_decides = some (
      if s.tenants_in_apt == 0
      then (
        record s {
          current_agent_tenants = max_tenants_per_agent;
          tenants_leave = up s.tenants_leave;
        },
        tenant_closes,
      )
      else (record s { mutex = up s.mutex }, tenant_gone))
  run_visit s tenant_closes = some (record s { mutex = up s.mutex }, tenant_drains)
  run_visit s tenant_drains =
      takes (down s.agent_arrived) (λ m. record s { agent_arrived = m }) tenant_shuts
  run_visit s tenant_shuts = takes (down s.apt_lock) (λ m. record s { apt_lock = m }) tenant_gone
  run_visit s _ = none

  -- A process takes its next step in one of the functions.
  pub data Runs (s : Shared) (p : Place) : Shared → Place → Type 0 where
    as_agent : {s' : Shared} {p' : Place} → run_agent s p ≡ some (s', p') → Runs s p s' p'
    arriving : {s' : Shared} {p' : Place} → run_arrival s p ≡ some (s', p') → Runs s p s' p'
    visiting : {s' : Shared} {p' : Place} → run_visit s p ≡ some (s', p') → Runs s p s' p'

  pub record World : Type 0 where
    pub shared : Shared
    pub place : ℕ → Place

  pub data Step (w : World) : World → Type 0 where
    moves :
        {s : Shared} {p : Place} (i : ℕ)
        → Runs w.shared (w.place i) s p
        → Step w (record { shared = s; place = λ k. if k == i then p else w.place k })

  pub data Reach (w : World) : World → Type 0 where
    here : Reach w w
    next : {v u : World} → Reach w v → Step v u → Reach w u

  -- main: the agents and the tenants are created one after the other, which is when they first move.
  abbrev pub begin : (ℕ → Place) → World
  begin place = record { shared = init_shared_variables; place = place }
