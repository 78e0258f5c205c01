-- ===== src/Device/Close.antt =====
-- lib/liboblock.c: the end of an open device.
use eoblock.System.{M, pure, undefined}
use eoblock.Device.{Device}

-- A pointer to a device: to one that is open, or to memory that was freed.
pub data Handle : Type 0 where
  opened : Device → Handle
  freed : Handle

-- The descriptor is closed and the memory freed; a device that was freed is not there to close.
unfoldable pub eob_device_close : Handle → M Handle
eob_device_close (opened dev) = pure freed
eob_device_close freed = undefined
