-- ===== src/Bus/Mapping.antt =====
-- Which device an address belongs to.
use pugputer6309_emulator.Base.{
  ℕ, ◌≡◌, refl, Bool, true, false, List, [], ◌∷◌, ◌++◌, none, some, if◌then◌else◌,
}
use pugputer6309_emulator.Bus.Device.{IrqLine}
use pugputer6309_emulator.Bus.Types.{Bus, DeviceMapping, DevicePtr}
use pugputer6309_emulator.Bus.Access.{covers, find_mapping, map_device, unmap_device}

find_mapping-append :
    (addr : ℕ) (ms : List DeviceMapping) (m : DeviceMapping)
    → find_mapping addr (ms ++ (m ∷ [])) ≡ (if covers m addr then some m else find_mapping addr ms)
unfolding find_mapping
find_mapping-append addr [] m = refl
find_mapping-append addr (k ∷ ms) m = rw (find_mapping-append addr ms m) (push (covers m addr))
  where
    push :
        (b : Bool)
        → (elim (if b then some m else find_mapping addr ms) [
          | some found ↦ some found
          | none ↦ if covers k addr then some k else none
        ])
          ≡ (if b then some m else find_mapping addr (k ∷ ms))
    push true = refl
    push false = refl

module _ {D : Type 0} where
  -- A new mapping takes every address of its window, whatever was mapped there, and every other
  -- address is decoded as it was without the mappings of the same name.
  pub find_mapping-map_device :
      (addr : ℕ) (name : List ℕ) (base size : ℕ) (device : DevicePtr) (line : IrqLine) (b : Bus D)
      → find_mapping addr (map_device name base size device line b).devices ≡ (
          let m : DeviceMapping = record {
            name = name;
            base = base;
            size = size;
            device = device;
            line = line;
          } in
          if covers m addr then some m else find_mapping addr (unmap_device name b).devices)
  unfolding map_device unmap_device
  find_mapping-map_device addr name base size device line b = find_mapping-append addr _ _
