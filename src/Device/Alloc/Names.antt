-- ===== src/Device/Alloc/Names.antt =====
-- Names: which name is found.
use tunator.Prelude.{
  ℕ, zero, suc, ◌+◌, ◌<◌, ◌≡◌, refl, ap, subst, ◌⊎◌, inl, inr, ℤ, pos, negsuc, arith,
}
use tunator.Text.{Text}
use tunator.Device.Alloc.{TunCalls, tun_name, try_names, tun_alloc_linux}

module _ (sys : TunCalls) where
  abbrev pub IsNegative : ℤ → Type 0
  IsNegative z = (n : ℕ) × (z ≡ negsuc n)

  -- From `i` on, the names up to `j` are refused one after another, from the first state to the second.
  pub data Refused (fd : ℤ) : ℕ → ℕ → sys.State → sys.State → Type 0 where
    none_tried : (i : ℕ) (s : sys.State) → Refused fd i i s s
    one_more :
        (i j : ℕ) (s t : sys.State)
        → IsNegative (sys.tun_set_iff s fd (tun_name i)).0.0
        → Refused fd (i + 1) j (sys.tun_set_iff s fd (tun_name i)).1 t
        → Refused fd i j s t

  -- The names before `j` were refused, and `j` was taken with the name in the result.
  pub record Taken (fd : ℤ) (i bound : ℕ) (s : sys.State) (r : (ℤ × Text) × sys.State)
      : Type 0 where
    pub j : ℕ
    pub below : j < bound
    pub asked : sys.State
    pub refused : Refused fd i j s asked
    pub code : ℕ
    pub answer : sys.tun_set_iff asked fd (tun_name j) ≡ ((pos code, r.0.1), r.1)
    pub returned : r.0.0 ≡ fd

  -- All were refused, and the descriptor is closed.
  pub record Exhausted (fd : ℤ) (i bound : ℕ) (dev : Text) (s : sys.State)
      (r : (ℤ × Text) × sys.State) : Type 0 where
    pub last : sys.State
    pub refused : Refused fd i bound s last
    pub result : r ≡ ((negsuc 0, dev), sys.close last fd)

  abbrev pub Tried : ℤ → ℕ → ℕ → Text → sys.State → (ℤ × Text) × sys.State → Type 0
  Tried fd i bound dev s r = Taken fd i bound s r ⊎ Exhausted fd i bound dev s r

  Tried-refused :
      (fd : ℤ) (i bound : ℕ) (dev : Text) (s : sys.State) (r : (ℤ × Text) × sys.State)
      → IsNegative (sys.tun_set_iff s fd (tun_name i)).0.0
      → Tried fd (i + 1) bound dev (sys.tun_set_iff s fd (tun_name i)).1 r
      → Tried fd i bound dev s r
  Tried-refused fd i bound dev s r neg (inl t) = inl (record {
    j = t.j;
    below = t.below;
    asked = t.asked;
    refused = one_more i t.j s t.asked neg t.refused;
    code = t.code;
    answer = t.answer;
    returned = t.returned;
  })
  Tried-refused fd i bound dev s r neg (inr x) = inr (record {
    last = x.last;
    refused = one_more i bound s x.last neg x.refused;
    result = x.result;
  })

  pub try_names-Tried :
      (n i bound : ℕ) (fd : ℤ) (dev : Text) (s : sys.State)
      → i + n ≡ bound
      → Tried fd i bound dev s (try_names sys n i fd dev s)
  unfolding try_names
  try_names-Tried zero i bound fd dev s eq =
      let all : i ≡ bound = omega arith in
      inr (record {
        last = s;
        refused = subst (λ j. Refused fd i j s s) all (none_tried i s);
        result = refl;
      })
  try_names-Tried (suc n) i bound fd dev s eq =
      let x = sys.tun_set_iff s fd (tun_name i) in
      let next = try_names sys n (i + 1) fd dev x.1 in
      let ih = try_names-Tried n (i + 1) bound fd dev x.1 (omega arith) in
      elim x.0.0
          as (λ e.
            x.0.0 ≡ e
            → Tried fd i bound dev s (elim e [ pos _ ↦ ((fd, x.0.1), x.1) | negsuc _ ↦ next ])) [
              | pos code ↦ λ h. inl (record {
                j = i;
                below = omega arith;
                asked = s;
                refused = none_tried i s;
                code = code;
                answer = ap (λ e. ((e, x.0.1), x.1)) h;
                returned = refl;
              })
              | negsuc m ↦ λ h. Tried-refused fd i bound dev s next (m, h) ih
            ]
        refl

  -- Where /dev/net/tun could be opened, `tun_alloc` on Linux tries the names from tun0 on: it returns the
  -- descriptor and the name that the first request left that was not refused, of at most 255; when all
  -- 255 were refused, it closes the descriptor and returns -1 with the name as it was.
  pub tun_alloc_linux-Tried :
      (dev : Text) (s : sys.State) (fd : ℕ)
      → (sys.open_tun s).0 ≡ pos fd
      → Tried (pos fd) 0 255 dev (sys.open_tun s).1 (tun_alloc_linux sys dev s)
  unfolding tun_alloc_linux
  tun_alloc_linux-Tried dev s fd e =
      rw (e, tun_alloc_linux) (try_names-Tried 255 0 255 (pos fd) dev (sys.open_tun s).1 refl)
