-- ===== src/Device/Alloc/Opened.antt =====
-- Opened: which descriptors are left open.
use tunator.Prelude.{
  ℕ, ◌+◌, ◌≡◌, refl, sym, ap, subst, ◌∙◌, ◌⊎◌, inl, inr, Bool, true, false, List, ◌∷◌, ℤ, pos,
  negsuc, arith, if◌then◌else◌,
}
use tunator.Text.{Text, codes, to_decimal, print_digits}
use tunator.Device.Threads.{is_minus_one}
use tunator.Device.Alloc.{TunCalls, tun_name, try_names, tun_alloc_linux, tun_alloc_apple}
use tunator.Device.Alloc.Names.{Refused, none_tried, one_more, Tried, try_names-Tried}

-- The open descriptors after a call that opens one.
abbrev pub opened : ℤ → List ℕ → List ℕ
opened (pos fd) fds = fd ∷ fds
opened (negsuc n) fds = fds

-- What the documentation says of the calls and the open descriptors.
pub record TunCallsLaws (sys : TunCalls) : Type 0 where
  pub fds : sys.State → List ℕ
  pub open_tun_fds : (s : sys.State) → fds (sys.open_tun s).1 ≡ opened (sys.open_tun s).0 (fds s)
  pub socket_fds : (s : sys.State) → fds (sys.socket s).1 ≡ opened (sys.socket s).0 (fds s)
  pub tun_set_iff_fds :
      (s : sys.State) (fd : ℤ) (name : Text) → fds (sys.tun_set_iff s fd name).1 ≡ fds s
  pub ctl_info_fds : (s : sys.State) (fd : ℤ) → fds (sys.ctl_info s fd).1 ≡ fds s
  pub connect_fds :
      (s : sys.State) (fd : ℤ) (id unit : ℕ) → fds (sys.connect s fd id unit).1 ≡ fds s
  pub socket_error : (s : sys.State) (n : ℕ) → (sys.socket s).0 ≡ negsuc n → n ≡ 0
  pub close_fds :
      (s : sys.State) (fd : ℤ) (l : List ℕ) → fds s ≡ opened fd l → fds (sys.close s fd) ≡ l

opened_minus_one : (z : ℤ) (fds : List ℕ) → is_minus_one z ≡ true → opened z fds ≡ fds
opened_minus_one (pos n) fds e = absurd (ground arith)
opened_minus_one (negsuc n) fds e = refl

socket_number :
    (z : ℤ) → ((n : ℕ) → z ≡ negsuc n → n ≡ 0) → is_minus_one z ≡ false → (fd : ℕ) × (z ≡ pos fd)
socket_number (pos fd) h e = (fd, refl)
socket_number (negsuc n) h e =
    absurd (ground (arith, subst (λ k. is_minus_one (negsuc k) ≡ false) (h n refl) e))

module _ (sys : TunCalls) where
  module _ (laws : TunCallsLaws sys) where
    Refused-fds :
        (fd : ℤ) (i j : ℕ) (s t : sys.State) → Refused sys fd i j s t → laws.fds t ≡ laws.fds s
    Refused-fds fd i j s t (none_tried _ _) = refl
    Refused-fds fd i j s t (one_more _ _ _ _ neg h) =
        Refused-fds fd (i + 1) j (sys.tun_set_iff s fd (tun_name i)).1 t h
        ∙ laws.tun_set_iff_fds s fd (tun_name i)

    -- What `tun_alloc` promises: a descriptor that is left open, or -1 with the name as it was and no
    -- descriptor left open.
    abbrev pub LeavesOpen : Text → sys.State → (ℤ × Text) × sys.State → Type 0
    LeavesOpen dev s r =
        ((fd : ℕ) × (r.0.0 ≡ pos fd) × (laws.fds r.1 ≡ fd ∷ laws.fds s))
        ⊎ ((r.0 ≡ (negsuc 0, dev)) × (laws.fds r.1 ≡ laws.fds s))

    Tried-LeavesOpen :
        (fd i bound : ℕ) (dev : Text) (s s' : sys.State) (r : (ℤ × Text) × sys.State)
        → laws.fds s' ≡ fd ∷ laws.fds s
        → Tried sys (pos fd) i bound dev s' r
        → LeavesOpen dev s r
    Tried-LeavesOpen fd i bound dev s s' r e (inl t) = inl (
      fd,
      t.returned,
      ap (λ x. laws.fds x.1) (sym t.answer)
          ∙ laws.tun_set_iff_fds t.asked (pos fd) (tun_name t.j)
          ∙ Refused-fds (pos fd) i t.j s' t.asked t.refused
          ∙ e,
    )
    Tried-LeavesOpen fd i bound dev s s' r e (inr x) = inr (
      ap (λ y. y.0) x.result,
      ap (λ y. laws.fds y.1) x.result
          ∙ laws.close_fds x.last (pos fd) (laws.fds s)
              (Refused-fds (pos fd) i bound s' x.last x.refused ∙ e),
    )

    tun_alloc_linux-LeavesOpen :
        (dev : Text) (s : sys.State) → LeavesOpen dev s (tun_alloc_linux sys dev s)
    unfolding tun_alloc_linux
    tun_alloc_linux-LeavesOpen dev s =
        let (fd, s') = sys.open_tun s in
        elim fd
            as (λ z.
              fd ≡ z
              → LeavesOpen dev s (elim z [
                | negsuc _ ↦ ((negsuc 0, dev), s')
                | pos n ↦ try_names sys 255 0 (pos n) dev s'
              ])) [
                | negsuc n ↦
                    λ e. inr (refl, laws.open_tun_fds s ∙ ap (λ z. opened z (laws.fds s)) e)
                | pos n ↦ λ e.
                    Tried-LeavesOpen n 0 255 dev s s' (try_names sys 255 0 (pos n) dev s')
                      (laws.open_tun_fds s ∙ ap (λ z. opened z (laws.fds s)) e)
                      (try_names-Tried sys 255 0 255 (pos n) dev s' refl)
              ]
          refl

    abbrev apple_rest : Bool → Bool → Bool → Bool → Text → sys.State → (ℤ × Text) × sys.State
    apple_rest no_fd long no_info no_connection dev s =
        let (fd, s1) = sys.socket s in
        let ((e, ctl_id), s2) = sys.ctl_info s1 fd in
        let (e', s3) = sys.connect s2 fd ctl_id 2 in
        if no_fd
        then ((negsuc 0, dev), s1)
        else if long
        then ((negsuc 0, dev), sys.close s1 fd)
        else if no_info
        then ((negsuc 0, dev), sys.close s2 fd)
        else if no_connection
        then ((negsuc 0, dev), sys.close s3 fd)
        else ((fd, codes "utun1"), s3)

    connected_fds :
        (s : sys.State)
        → (let (fd, s1) = sys.socket s in
            let ((e, ctl_id), s2) = sys.ctl_info s1 fd in laws.fds (sys.connect s2 fd ctl_id 2).1)
          ≡ opened (sys.socket s).0 (laws.fds s)
    connected_fds s =
        let (fd, s1) = sys.socket s in
        let ((e, ctl_id), s2) = sys.ctl_info s1 fd in
        laws.connect_fds s2 fd ctl_id 2 ∙ laws.ctl_info_fds s1 fd ∙ laws.socket_fds s

    apple_rest-LeavesOpen :
        (no_fd long no_info no_connection : Bool) (dev : Text) (s : sys.State)
        → is_minus_one (sys.socket s).0 ≡ no_fd
        → LeavesOpen dev s (apple_rest no_fd long no_info no_connection dev s)
    apple_rest-LeavesOpen true long no_info no_connection dev s e =
        inr (refl, laws.socket_fds s ∙ opened_minus_one (sys.socket s).0 (laws.fds s) e)
    apple_rest-LeavesOpen false true no_info no_connection dev s e =
        let (fd, s1) = sys.socket s in
        inr (refl, laws.close_fds s1 fd (laws.fds s) (laws.socket_fds s))
    apple_rest-LeavesOpen false false true no_connection dev s e =
        let (fd, s1) = sys.socket s in
        inr (refl, laws.close_fds _ fd (laws.fds s) (laws.ctl_info_fds s1 fd ∙ laws.socket_fds s))
    apple_rest-LeavesOpen false false false true dev s e =
        let (fd, s1) = sys.socket s in
        inr (refl, laws.close_fds _ fd (laws.fds s) (connected_fds s))
    apple_rest-LeavesOpen false false false false dev s e =
        let (fd, e') = socket_number (sys.socket s).0 (laws.socket_error s) e in
        inl (fd, e', connected_fds s ∙ ap (λ z. opened z (laws.fds s)) e')

    -- `tun_alloc`, on Linux and on macOS, either returns a descriptor, which is the only one that it leaves
    -- open, or -1: then the name is as before, and so are the open descriptors.
    pub tun_alloc-LeavesOpen :
        (dev : Text) (s : sys.State)
        → LeavesOpen dev s (tun_alloc_linux sys dev s)
          × LeavesOpen dev s (tun_alloc_apple sys dev s)
    unfolding tun_alloc_apple to_decimal print_digits
    tun_alloc-LeavesOpen dev s =
        let (fd, s1) = sys.socket s in
        let ((e, ctl_id), s2) = sys.ctl_info s1 fd in
        let (e', s3) = sys.connect s2 fd ctl_id 2 in
        (
          tun_alloc_linux-LeavesOpen dev s,
          apple_rest-LeavesOpen (is_minus_one fd) sys.name_too_long (is_minus_one e)
              (is_minus_one e') dev s refl,
        )
