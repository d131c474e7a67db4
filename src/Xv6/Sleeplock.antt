-- ===== src/Xv6/Sleeplock.antt =====
-- lab3/xv6-public/sleeplock.c: a lock that its waiters sleep on. Each call runs under `lk->lk`.
pub mod Exclusion
use cs.Prelude.{ℕ, Bool, true, false, ◌&&◌, if◌then◌else◌, ◌==◌, Option, none, some}

pub record Sleeplock : Type 0 where
  pub locked : Bool
  pub pid : ℕ

abbrev pub unlocked : Sleeplock
unlocked = record { locked = false; pid = 0 }

-- One round of the loop of acquiresleep by the process `pid`: `none` where it sleeps.
unfoldable pub acquiresleep : ℕ → Sleeplock → Option Sleeplock
acquiresleep pid lk = if lk.locked then none else some (record { locked = true; pid = pid })

-- releasesleep, which also wakes the sleepers.
unfoldable pub releasesleep : Sleeplock → Sleeplock
releasesleep lk = unlocked

unfoldable pub holdingsleep : ℕ → Sleeplock → Bool
holdingsleep pid lk = lk.locked && (lk.pid == pid)
