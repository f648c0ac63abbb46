-- ===== src/Device/Alloc/Tests.antt =====
-- The opening of devices over a small system.
use tunator.Prelude.{ℕ, ◌≡◌, refl, ap, false, List, [], ◌∷◌, ℤ, pos, negsuc, if◌then◌else◌}
use tunator.Text.{codes, text_eq, to_decimal}
use tunator.Device.Alloc.{TunCalls, tun_alloc_linux, tun_alloc_apple}
use tunator.Device.Alloc.Names.{Tried, tun_alloc_linux-Tried}
use tunator.Device.Alloc.Opened.{opened, TunCallsLaws, LeavesOpen, tun_alloc-LeavesOpen}

abbrev drop_first : List ℕ → List ℕ
drop_first [] = []
drop_first (x ∷ xs) = xs

abbrev close_number : List ℕ → ℤ → List ℕ
close_number s (pos fd) = drop_first s
close_number s (negsuc n) = s

-- The name tun0 is in use, and there is no device of macOS to connect to.
abbrev small : TunCalls
small = record {
  State = List ℕ;
  open_tun = λ s. (pos 3, 3 ∷ s);
  tun_set_iff =
      λ s fd name. (if text_eq name (codes "tun0") then (negsuc 0, name) else (pos 0, name), s);
  socket = λ s. (pos 4, 4 ∷ s);
  name_too_long = false;
  ctl_info = λ s fd. ((pos 0, 7), s);
  connect = λ s fd id unit. (negsuc 0, s);
  close = close_number;
}

close_number-opened : (s : List ℕ) (fd : ℤ) (l : List ℕ) → s ≡ opened fd l → close_number s fd ≡ l
close_number-opened s (pos fd) l e = ap drop_first e
close_number-opened s (negsuc n) l e = e

socket_works : (s : List ℕ) (n : ℕ) → pos 4 ≡ negsuc n → n ≡ 0
socket_works s n e = cc

abbrev small_laws : TunCallsLaws small
small_laws = record {
  fds = λ s. s;
  open_tun_fds = λ s. refl;
  socket_fds = λ s. refl;
  tun_set_iff_fds = λ s fd name. refl;
  ctl_info_fds = λ s fd. refl;
  connect_fds = λ s fd id unit. refl;
  socket_error = socket_works;
  close_fds = close_number-opened;
}

tun_alloc-LeavesOpen_example :
    LeavesOpen small small_laws [] (0 ∷ []) (tun_alloc_linux small [] (0 ∷ []))
    × LeavesOpen small small_laws [] (0 ∷ []) (tun_alloc_apple small [] (0 ∷ []))
tun_alloc-LeavesOpen_example = tun_alloc-LeavesOpen small small_laws [] (0 ∷ [])

tun_alloc_linux-Tried_example : Tried small (pos 3) 0 255 [] (3 ∷ []) (tun_alloc_linux small [] [])
tun_alloc_linux-Tried_example = tun_alloc_linux-Tried small [] [] 3 refl

second_name : (tun_alloc_linux small [] []).0 ≡ (pos 3, codes "tun1")
unfolding tun_alloc_linux text_eq to_decimal
second_name = refl
