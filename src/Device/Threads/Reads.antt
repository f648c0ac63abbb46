-- ===== src/Device/Threads/Reads.antt =====
-- Reads: the loop of the thread that reads the device.
use tunator.Prelude.{
  ℕ, zero, suc, ◌≡◌, ◌≢◌, refl, ap, sym, ◌∙◌, subst, ◌⊎◌, inl, inr, Bool, true, false, List, [],
  ◌∷◌, Option, none, some, ℤ, pos, negsuc, arith, Option-cases, if◌then◌else◌,
}
use tunator.Text.{Text}
use tunator.Device.Driver.{Tun, tun_read}
use tunator.Device.Threads.{
  Poll, Read, read_packet, read_ended, after_poll, tun_dev_error, is_minus_one,
}

-- The device has something to read after all.
abbrev pub is_ready : Poll → Bool
is_ready p =
    if p.would_block then (elim p.selected [ pos (suc n) ↦ p.is_set | _ ↦ false ]) else false

-- Some poll sends the loop on no further.
abbrev pub Settles : List Poll → Type 0
Settles [] = ⊥
Settles (p ∷ ps) = (is_ready p ≡ false) ⊎ Settles ps

pub some_eq : {A : Type 0} {x y : A} → some x ≡ some y → x ≡ y
some_eq e = cc

some-ne-none : {A : Type 0} (x : A) → some x ≢ none
some-ne-none x e = cc (e)

round_ends :
    {A : Type 0} (b : Bool) (x y : Option A) → x ≢ none → y ≢ none → (if b then x else y) ≢ none
round_ends true x y h k = h
round_ends false x y h k = k

pub if_some :
    {A : Type 0} (P : A → Type 0) (b : Bool) (y : A) (w : Option A) (x : A)
    → (w ≡ some x → P x)
    → P y
    → (if b then w else some y) ≡ some x
    → P x
if_some P true y w x h k e = h e
if_some P false y w x h k e = subst P (some_eq e) k

-- How the loop ends after a `read` with its result, by the polls that are left: what the action
-- returns, and whether the device still runs.
pub data Ends : ℤ → List Poll → ℤ → Bool → Type 0 where
  got : {n : ℕ} {ps : List Poll} → Ends (pos (suc n)) ps (pos (suc n)) true
  failed : {n : ℕ} {ps : List Poll} → Ends (negsuc (suc n)) ps (negsuc (suc n)) true
  -- the end of the file
  closed : {ps : List Poll} → Ends (pos 0) ps (pos 0) false
  -- an error other than that there is nothing to read
  broken :
      {p : Poll} {ps : List Poll} → p.would_block ≡ false → Ends (negsuc 0) (p ∷ ps) (pos 0) false
  select_failed :
      {n : ℕ} {p : Poll} {ps : List Poll}
      → p.would_block ≡ true
      → p.selected ≡ negsuc n
      → Ends (negsuc 0) (p ∷ ps) (pos 0) false
  timed_out :
      {p : Poll} {ps : List Poll}
      → p.would_block ≡ true
      → p.selected ≡ pos 0
      → Ends (negsuc 0) (p ∷ ps) (pos 0) true
  not_set :
      {n : ℕ} {p : Poll} {ps : List Poll}
      → p.would_block ≡ true
      → p.selected ≡ pos (suc n)
      → p.is_set ≡ false
      → Ends (negsuc 0) (p ∷ ps) (negsuc 0) true

if_on : {A : Type 0} (b : Bool) (y w v : A) → b ≡ true → (if b then y else w) ≡ v → y ≡ v
if_on b y w v h e = ground (arith, h, e)

if_off : {A : Type 0} (b : Bool) (y w v : A) → b ≡ false → (if b then y else w) ≡ v → w ≡ v
if_off b y w v h e = ground (arith, h, e)

module _ (tun : Tun) where
  after_poll_settled :
      (p : Poll) (stored : Text) (st : tun.State) (again : Option (Read tun))
      → is_ready p ≡ false
      → after_poll tun p stored st again ≢ none
  unfolding after_poll
  after_poll_settled p stored st again h = ground arith

  after_poll_cases :
      (p : Poll) (stored : Text) (st : tun.State) (again : Option (Read tun))
      → again ≢ none
      → after_poll tun p stored st again ≢ none
  unfolding after_poll
  after_poll_cases p stored st again h = ground arith

  read_packet_returns :
      (room : ℕ) (ps : List Poll) (st : tun.State) → Settles ps → read_packet tun room ps st ≢ none
  unfolding read_packet
  read_packet_returns room [] st h = elim h [ ]
  read_packet_returns room (p ∷ ps) st (inl e) =
      round_ends _ _ _ (after_poll_settled p _ _ _ e) (some-ne-none _)
  read_packet_returns room (p ∷ ps) st (inr h) =
      round_ends _ _ _ (after_poll_cases p _ _ _ (read_packet_returns room ps _ h)) (some-ne-none _)

  -- The rounds that find nothing, each sent on by a poll, lead from a device and the polls to come to
  -- another device and the polls that are left.
  pub data Waits (room : ℕ) : tun.State → List Poll → tun.State → List Poll → Type 0 where
    here : {st : tun.State} {ps : List Poll} → Waits room st ps st ps
    next :
        {st st' u : tun.State} {stored : Text} {p : Poll} {ps rest : List Poll}
        → tun_read tun st room ≡ ((negsuc 0, stored), st')
        → is_ready p ≡ true
        → Waits room st' ps u rest
        → Waits room st (p ∷ ps) u rest

  -- What the action returns after a last `read` with its result, and whether the device still runs.
  abbrev pub IsRead : ℕ → List Poll → tun.State → Read tun → Type 0
  IsRead room ps st x =
      (u : tun.State) × (rest : List Poll) × (ret : ℤ) × Waits room st ps u rest
      × (tun_read tun u room ≡ ((ret, x.stored), x.device))
      × Ends ret rest x.result x.running

  read_ended-Ends :
      (ret : ℤ) (stored : Text) (st : tun.State) (ps : List Poll)
      → is_minus_one ret ≡ false
      → Ends ret ps (read_ended tun ret stored st).result (read_ended tun ret stored st).running
  unfolding read_ended tun_dev_error
  read_ended-Ends (pos zero) stored st ps h = closed
  read_ended-Ends (pos (suc n)) stored st ps h = got
  read_ended-Ends (negsuc zero) stored st ps h = cc (h)
  read_ended-Ends (negsuc (suc n)) stored st ps h = failed

  read_ended_keeps :
      (ret : ℤ) (stored : Text) (st : tun.State)
      → ◌≡◌ {A = (ℤ × Text) × tun.State}
          ((ret, stored), st)
          ((ret, (read_ended tun ret stored st).stored), (read_ended tun ret stored st).device)
  unfolding read_ended tun_dev_error
  read_ended_keeps (pos zero) stored st = refl
  read_ended_keeps (pos (suc n)) stored st = refl
  read_ended_keeps (negsuc n) stored st = refl

  -- A poll ends the loop, with what the `read` before it left, or sends it on.
  Settled : Poll → List Poll → Text → tun.State → Option (Read tun) → Read tun → Type 0
  Settled p ps stored st again x =
      ((Ends (negsuc 0) (p ∷ ps) x.result x.running × (x.stored ≡ stored)) × (x.device ≡ st))
      ⊎ ((is_ready p ≡ true) × (again ≡ some x))

  after_poll-Settled :
      (b : Bool) (z : ℤ) (c : Bool) (ps : List Poll) (stored : Text) (st : tun.State)
      (again : Option (Read tun)) (x : Read tun)
      → (let p : Poll = record { would_block = b; selected = z; is_set = c } in
          after_poll tun p stored st again ≡ some x)
      → Settled (record { would_block = b; selected = z; is_set = c }) ps stored st again x
  unfolding after_poll tun_dev_error Settled
  after_poll-Settled false z c ps stored st again x e =
      subst (Settled _ ps stored st again) (some_eq e) (inl ((broken refl, refl), refl))
  after_poll-Settled true (negsuc n) c ps stored st again x e =
      subst (Settled _ ps stored st again) (some_eq e) (inl ((select_failed refl refl, refl), refl))
  after_poll-Settled true (pos zero) c ps stored st again x e =
      subst (Settled _ ps stored st again) (some_eq e) (inl ((timed_out refl refl, refl), refl))
  after_poll-Settled true (pos (suc n)) true ps stored st again x e = inr (refl, e)
  after_poll-Settled true (pos (suc n)) false ps stored st again x e =
      subst (Settled _ ps stored st again) (some_eq e) (inl ((not_set refl refl refl, refl), refl))

  module _ (room : ℕ) (st st' : tun.State) (ret : ℤ) (stored : Text)
      (came : tun_read tun st room ≡ ((ret, stored), st')) where
    ended-IsRead :
        (ps : List Poll) (x : Read tun)
        → is_minus_one ret ≡ false
        → read_ended tun ret stored st' ≡ x
        → IsRead room ps st x
    ended-IsRead ps x h e = subst (IsRead room ps st) e (
      st,
      ps,
      ret,
      here,
      came ∙ read_ended_keeps ret stored st',
      read_ended-Ends ret stored st' ps h,
    )

    polled-IsRead :
        (p : Poll) (ps : List Poll) (again : Option (Read tun)) (x : Read tun)
        → ret ≡ negsuc 0
        → ((y : Read tun) → again ≡ some y → IsRead room ps st' y)
        → Settled p ps stored st' again x
        → IsRead room (p ∷ ps) st x
    unfolding Settled
    polled-IsRead p ps again x m h (inl ((e, same), left)) =
        (st, p ∷ ps, negsuc 0, here, came ∙ cc (m, same, left), e)
    polled-IsRead p ps again x m h (inr (ready, e)) =
        let (u, rest, got_ret, waits, last, ends) = h x e in
        (u, rest, got_ret, next {stored = stored} (came ∙ cc (m)) ready waits, last, ends)

  minus_one : (ret : ℤ) → (ret ≡ negsuc 0) ⊎ (is_minus_one ret ≡ false)
  minus_one (pos n) = inr refl
  minus_one (negsuc zero) = inl refl
  minus_one (negsuc (suc n)) = inr refl

  read_packet-IsRead :
      (room : ℕ) (ps : List Poll) (st : tun.State) (x : Read tun)
      → read_packet tun room ps st ≡ some x
      → IsRead room ps st x
  unfolding read_packet
  read_packet-IsRead room [] st x e = elim (minus_one (tun_read tun st room).0.0) [
    | inl m ↦ absurd (
        some-ne-none x (
          sym (
            if_on (is_minus_one (tun_read tun st room).0.0) none _ (some x) (ap is_minus_one m) e)))
    | inr h ↦
        ended-IsRead room st _ _ _ refl [] x h
          (some_eq (if_off (is_minus_one (tun_read tun st room).0.0) none _ (some x) h e))
  ]
  read_packet-IsRead room (p ∷ ps) st x e = elim (minus_one (tun_read tun st room).0.0) [
    | inl m ↦
        polled-IsRead room st _ _ _ refl p ps (read_packet tun room ps (tun_read tun st room).1) x m
          (read_packet-IsRead room ps (tun_read tun st room).1)
          (after_poll-Settled p.would_block p.selected p.is_set ps _ _ _ x
            (if_on (is_minus_one (tun_read tun st room).0.0) _ _ (some x) (ap is_minus_one m) e))
    | inr h ↦
        ended-IsRead room st _ _ _ refl (p ∷ ps) x h
          (some_eq (if_off (is_minus_one (tun_read tun st room).0.0) _ _ (some x) h e))
  ]

  -- As soon as one of the answers of the system does not say that there is something to read, the loop
  -- of fromTunThread's action returns, after reads that found nothing and a last read. A result above 0
  -- or below -1 of that read is returned, with the device running; of 0, the end of the file, 0 is
  -- returned and the device stops. Where it is -1, the next answer decides: 0 and a stop for another
  -- error than that there is nothing to read or for a failed select, 0 and no stop for a timeout, and
  -- -1 and no stop where select says that something is there but FD_ISSET does not. What is stored,
  -- and the device, are what the last read left.
  pub read_packet_lem :
      (room : ℕ) (ps : List Poll) (st : tun.State)
      → Settles ps
      → (x : Read tun) × (read_packet tun room ps st ≡ some x) × IsRead room ps st x
  read_packet_lem room ps st h = elim (Option-cases (read_packet tun room ps st)) [
    | inl e ↦ absurd (read_packet_returns room ps st h e)
    | inr (x, e) ↦ (x, e, read_packet-IsRead room ps st x e)
  ]
