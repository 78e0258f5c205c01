-- ===== src/Kmod/Steady.antt =====
-- A module that has started stays in order: its table, its lock and its interfaces.
use eoblock.Prelude.{◌≡◌, Option, none, some, length}
use eoblock.System.{Outcome, ok}
use eoblock.Sysfs.{Code}
use eoblock.Sysfs.Orderly.{IsOrderly}
use eoblock.Sysfs.Attributes.{Sysfs}
use eoblock.Kmod.{Module}
use eoblock.Kmod.Life.{Loaded, Life, max_eob_devices}

-- Between two calls: the table has its size, the lock is free, and the interfaces are in order.
pub record IsSteady (m : Module) : Type 0 where
  pub size : length m.ctx.devices ≡ max_eob_devices
  pub free : m.locked ≡ m.unlocked

unfoldable pub Steady : Option Module → Type 0
Steady none = ⊥
Steady (some m) = IsSteady m

pub record IsRunning (l : Loaded) : Type 0 where
  pub steady : Steady l.eob_ctx
  pub orderly : IsOrderly l.sysfs.state

-- The result of a call that comes to an end.
abbrev Ends : Outcome Code × Module → Type 0
Ends (ok r, m) = IsSteady m
Ends _ = Unit
