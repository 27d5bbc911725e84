-- ===== src/Net/Device.antt =====
-- The devices of net/inet/devinet.c and include/linux/netdevice.h. The loops go from `dev_base` to the
-- next place in memory with `dev++`: the devices are a function of the place, and a loop takes fuel.
-- Addresses are in host order.
use prettyos.Common.{
  ℕ, zero, suc, ◌+◌, bit_and, bit_xor, Bool, not, ◌&&◌, ◌||◌, Option, none, some, ◌==◌,
  if◌then◌else◌,
}

pub record NetDevice : Type 0 where
  pub pa_addr : ℕ
  pub pa_mask : ℕ
  pub pa_broadcast : ℕ
  pub flags : ℕ

abbrev pub is_myaddr : ℕ
is_myaddr = 1

abbrev pub is_broadcast : ℕ
is_broadcast = 3

abbrev pub is_multicast : ℕ
is_multicast = 4

unfoldable pub is_up : NetDevice → Bool
is_up dev = not (bit_and dev.flags 0x1 == 0)

unfoldable pub can_broadcast : NetDevice → Bool
can_broadcast dev = not (bit_and dev.flags 0x2 == 0)

unfoldable pub is_loopback : NetDevice → Bool
is_loopback dev = not (bit_and dev.flags 0x8 == 0)

unfoldable pub ip_get_mask : ℕ → ℕ
ip_get_mask addr =
    if addr == 0
    then 0
    else if bit_and addr 0x80000000 == 0
    then 0xff000000
    else if bit_and addr 0x40000000 == 0
    then 0xffff0000
    else if bit_and addr 0x20000000 == 0
    then 0xffffff00
    else 0

-- What a device says of an address, if the loop ends there
unfoldable pub answer : ℕ → NetDevice → Option ℕ
answer addr dev =
    if not (is_up dev)
    then none
    else if dev.pa_addr == 0
    then some is_myaddr
    else if addr == dev.pa_addr
    then some is_myaddr
    else if can_broadcast dev && (addr == dev.pa_broadcast)
    then some is_broadcast
    else none

unfoldable pub or_later : Option ℕ → Option ℕ → Option ℕ
or_later (some a) later = some a
or_later none later = later

-- `none` means that the fuel ran out; the place after a device is never NULL.
unfoldable pub chk_loop : ℕ → (ℕ → NetDevice) → ℕ → ℕ → Option ℕ
chk_loop zero devices addr dev = none
chk_loop (suc fuel) devices addr dev =
    let later = chk_loop fuel devices addr (dev + 1) in or_later (answer addr (devices dev)) later

-- `no_base` says that `dev_base` is NULL.
unfoldable pub ip_chk_addr : ℕ → Bool → (ℕ → NetDevice) → ℕ → Option ℕ
ip_chk_addr fuel no_base devices addr =
    if (addr == 0) || (addr == 0xffffffff) || (addr == 0x7fffffff)
    then some is_broadcast
    else if bit_and addr (ip_get_mask addr) == 0x7f000000
    then some is_myaddr
    else if no_base
    then some 0
    else chk_loop fuel devices addr 0

unfoldable pub my_addr_loop : ℕ → (ℕ → NetDevice) → ℕ → Option ℕ
my_addr_loop zero devices dev = none
my_addr_loop (suc fuel) devices dev =
    let later = my_addr_loop fuel devices (dev + 1) in
    if is_loopback (devices dev) then some (devices dev).pa_addr else later

unfoldable pub ip_my_addr : ℕ → Bool → (ℕ → NetDevice) → Option ℕ
ip_my_addr fuel no_base devices = if no_base then some 0 else my_addr_loop fuel devices 0

unfoldable pub is_on_net : ℕ → NetDevice → Bool
is_on_net addr dev = is_up dev && (bit_and (bit_xor addr dev.pa_addr) dev.pa_mask == 0)

-- The place of the device; `some none` is NULL.
unfoldable pub dev_check_loop : ℕ → (ℕ → NetDevice) → ℕ → ℕ → Option (Option ℕ)
dev_check_loop zero devices addr dev = none
dev_check_loop (suc fuel) devices addr dev =
    let later = dev_check_loop fuel devices addr (dev + 1) in
    if is_on_net addr (devices dev) then some (some dev) else later

unfoldable pub ip_dev_check : ℕ → Bool → (ℕ → NetDevice) → ℕ → Option (Option ℕ)
ip_dev_check fuel no_base devices addr =
    if no_base then some none else dev_check_loop fuel devices addr 0
