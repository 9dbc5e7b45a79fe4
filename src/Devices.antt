-- ===== src/Devices.antt =====
-- src/workserver/work_handler.hpp: the registered devices and how a worker takes one.
pub mod Acquire
pub mod Busy
pub mod Scan
pub mod Available
pub mod Moves
pub mod Safety
mod Tests
use pow_server.Prelude.{
  ℕ, zero, suc, ◌≡◌, Bool, true, false, not, List, [], ◌∷◌, Error, Result, ok, err, if◌then◌else◌,
}
use pow_server.Config.{Device, DeviceType}

-- The driver objects have no members; only their class is kept.
pub data Driver : Type 0 where
  cpp_driver opencl_driver : Driver

pub record RegisteredDevice : Type 0 where
  pub device_config : Device
  pub driver : Driver
  pub busy : Bool

-- The loop of the constructor of work_handler; both device types have a driver.
unfoldable pub driver_of : DeviceType → Driver
driver_of DeviceType.cpu = cpp_driver
driver_of DeviceType.gpu = opencl_driver

unfoldable pub register_devices : List Device → List RegisteredDevice
unfolding driver_of
register_devices [] = []
register_devices (d ∷ ds) =
    record { device_config = d; driver = driver_of d.device_type; busy = false }
    ∷ register_devices ds

-- busy.exchange (true), which gives the flag that was there
unfoldable pub try_aquire : RegisteredDevice → RegisteredDevice × Bool
try_aquire d = (record d { busy = true }, d.busy)

-- busy.exchange (false)
unfoldable pub release : RegisteredDevice → RegisteredDevice × Bool
release d = (record d { busy = false }, d.busy)

-- std::find_if over the devices with `!driver.try_aquire ()`: the devices after the calls, and the
-- index of the device that was found.
unfoldable pub find_device : List RegisteredDevice → ℕ → List RegisteredDevice × Result ℕ
unfolding try_aquire
find_device [] i = ([], err Error.no_available_devices)
find_device (d ∷ ds) i =
    let (tried, was_busy) = try_aquire d in
    let (others, found) = find_device ds (suc i) in
    if not was_busy then (tried ∷ ds, ok i) else (tried ∷ others, found)

unfoldable pub aquire_first_available_device :
    List RegisteredDevice → List RegisteredDevice × Result ℕ
unfolding find_device
aquire_first_available_device devices = find_device devices 0

-- device.release () on the device with this index
unfoldable pub release_at : List RegisteredDevice → ℕ → List RegisteredDevice
unfolding release
release_at [] i = []
release_at (d ∷ ds) zero = (release d).0 ∷ ds
release_at (d ∷ ds) (suc i) = d ∷ release_at ds i
