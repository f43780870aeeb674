-- ===== src/AuthLimit/Slots.antt =====
-- The slots for password work, under any interleaving of requests.
use our_ne_zt_core.Common.{
  ℕ, ◌+◌, ◌-◌, ◌≤◌, ◌<◌, ◌≡◌, ◌↔◌, refl, ltb, Option, none, some, arith, ap, Bool-cases, inl, inr,
}
use our_ne_zt_core.Errors.{Error, ok, err, limited}
use our_ne_zt_core.AuthLimit.{Config, Limiter, new, with_defaults, acquire, release, second}

-- The limiter, and how many requests hold a slot.
pub record Work : Type 0 where
  pub limiter : Limiter
  pub holders : ℕ

-- A request takes a slot, is refused, or gives its slot back.
pub data Step : Work → Work → Type 0 where
  start :
      (w : Work) {l : Limiter}
      → acquire none w.limiter ≡ (l, ok tt)
      → Step w (record { limiter = l; holders = w.holders + 1 })
  refuse :
      (w : Work) (ctx : Option Error) {l : Limiter} {e : Error}
      → acquire ctx w.limiter ≡ (l, err e)
      → Step w (record { limiter = l; holders = w.holders })
  finish :
      (w : Work)
      → 0 < w.holders
      → Step w (record { limiter = release w.limiter; holders = w.holders - 1 })

pub data Reach (s : Work) : Work → Type 0 where
  here : Reach s s
  next : {t u : Work} → Reach s t → Step t u → Reach s u

abbrev pub idle : Config → Work
idle cfg = record { limiter = new cfg; holders = 0 }

record IsHeld (cfg : Config) (w : Work) : Type 0 where
  counted : w.limiter.slots ≡ w.holders
  within : w.holders ≤ (with_defaults cfg).max_concurrent
  configured : w.limiter.cfg ≡ with_defaults cfg

Step-IsHeld : (cfg : Config) {v w : Work} → Step v w → IsHeld cfg v → IsHeld cfg w
unfolding acquire release
Step-IsHeld cfg (start v e) h = ground (arith, h.configured)
Step-IsHeld cfg (refuse v none e) h = ground arith
Step-IsHeld cfg (refuse v (some c) e) h = ground arith
Step-IsHeld cfg (finish v held) h = ground arith

Reach-IsHeld : (cfg : Config) {w : Work} → Reach (idle cfg) w → IsHeld cfg w
unfolding new
Reach-IsHeld cfg here = record { counted = refl; within = omega arith; configured = refl }
Reach-IsHeld cfg (next r s) = Step-IsHeld cfg s (Reach-IsHeld cfg r)

-- From a new limiter, under every interleaving of requests, at most `MaxConcurrent` requests hold a
-- slot, and a request whose context is live gets one exactly when fewer hold one; otherwise it is
-- refused at once, with a second to wait, and the limiter stays as it was.
pub Reach-acquire :
    (cfg : Config) (w : Work)
    → Reach (idle cfg) w
    → let r = acquire none w.limiter in
      let most = (with_defaults cfg).max_concurrent in
      (w.holders ≤ most)
      × ((r.1 ≡ ok tt) ↔ (w.holders < most))
      × ((r ≡ (w.limiter, err (limited second))) ↔ (w.holders ≡ most))
unfolding acquire
Reach-acquire cfg w r =
    let h = Reach-IsHeld cfg r in
    let cap : w.limiter.cfg.max_concurrent ≡ (with_defaults cfg).max_concurrent =
      ap (λ c. c.max_concurrent) h.configured in
    elim (Bool-cases (ltb w.limiter.slots w.limiter.cfg.max_concurrent)) [
      | inl room ↦ (
        h.within,
        (λ _. ground (arith, h.counted), λ _. ground (arith, room)),
        (λ e. ground (arith, room), λ e. absurd (ground (arith, h.counted))),
      )
      | inr full ↦ (
        h.within,
        (λ e. ground (arith, full), λ lt. absurd (ground (arith, h.counted))),
        (λ _. ground (arith, h.counted, h.within), λ _. ground (arith, full)),
      )
    ]
