-- ===== src/Device/Alloc.antt =====
-- tun_device.cpp: how a tun device is opened. The system calls and what they answer are parameters.
pub mod Names
pub mod Opened
mod Tests
use tunator.Prelude.{
  ℕ, zero, suc, ◌+◌, ◌-◌, Bool, true, false, List, [], ◌∷◌, ◌++◌, ℤ, pos, negsuc, if◌then◌else◌,
}
use tunator.Text.{Text, codes, to_decimal}
use tunator.Device.Threads.{is_minus_one}

-- The calls. A descriptor is the number that `open` or `socket` returned.
pub record TunCalls : Type 1 where
  pub State : Type 0
  -- `open("/dev/net/tun", O_RDWR)`
  pub open_tun : State → ℤ × State
  -- `ioctl(fd, TUNSETIFF, &ifr)` with a name, and the name that is left in `ifr`
  pub tun_set_iff : State → ℤ → Text → (ℤ × Text) × State
  -- `socket(PF_SYSTEM, SOCK_DGRAM, SYSPROTO_CONTROL)`
  pub socket : State → ℤ × State
  -- whether `UTUN_CONTROL_NAME` is too long for `ctl_name`
  pub name_too_long : Bool
  -- `ioctl(fd, CTLIOCGINFO, &ctlInfo)`: its result and the `ctl_id`
  pub ctl_info : State → ℤ → (ℤ × ℕ) × State
  -- `connect` to a `ctl_id` and an `sc_unit`
  pub connect : State → ℤ → ℕ → ℕ → ℤ × State
  pub close : State → ℤ → State

-- The name that is tried.
abbrev pub tun_name : ℕ → Text
tun_name i = codes "tun" ++ to_decimal i

module _ (sys : TunCalls) where
  -- The loop, with the numbers `i` to `i + n - 1` still to try.
  unfoldable pub try_names : ℕ → ℕ → ℤ → Text → sys.State → (ℤ × Text) × sys.State
  try_names zero i fd dev s = ((negsuc 0, dev), sys.close s fd)
  try_names (suc n) i fd dev s =
      let ((e, name), s') = sys.tun_set_iff s fd (tun_name i) in
      let next = try_names n (i + 1) fd dev s' in
      elim e [ pos _ ↦ ((fd, name), s') | negsuc _ ↦ next ]

  unfoldable pub tun_alloc_linux : Text → sys.State → (ℤ × Text) × sys.State
  unfolding try_names
  tun_alloc_linux dev s =
      let (fd, s') = sys.open_tun s in
      elim fd [ negsuc _ ↦ ((negsuc 0, dev), s') | pos n ↦ try_names 255 0 (pos n) dev s' ]

  abbrev sc_unit : ℕ
  sc_unit = 2

  unfoldable pub tun_alloc_apple : Text → sys.State → (ℤ × Text) × sys.State
  tun_alloc_apple dev s =
      let (fd, s1) = sys.socket s in
      let ((e, ctl_id), s2) = sys.ctl_info s1 fd in
      let (e', s3) = sys.connect s2 fd ctl_id sc_unit in
      if is_minus_one fd
      then ((negsuc 0, dev), s1)
      else if sys.name_too_long
      then ((negsuc 0, dev), sys.close s1 fd)
      else if is_minus_one e
      then ((negsuc 0, dev), sys.close s2 fd)
      else if is_minus_one e'
      then ((negsuc 0, dev), sys.close s3 fd)
      else ((fd, codes "utun" ++ to_decimal (sc_unit - 1)), s3)
