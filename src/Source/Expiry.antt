-- ===== src/Source/Expiry.antt =====
-- When an enabled source of src/ccevents-sources-base.c has expired, in microseconds of the clock.
use ccevents.Base.{
  ℕ, ◌≡◌, refl, ◌≢◌, suc, if◌then◌else◌, Bool, true, false, not, Bool-cases, inl, inr, ==_of_ne,
  arith,
}
use ccevents.Base.Int.{ltb_ℤ, pos}
use ccevents.Memory.{Ptr, null}
use ccevents.Outcome.{long_max}
use ccevents.Timeval.{Timeval, is_infinite_timeout, is_expired_timeout}
use ccevents.Timeval.Meaning.{micros, IsNormalised}
use ccevents.World.{World, done, Prog, return, ◌>>◌, ◌>>=◌, Env}
use ccevents.Source.{
  do_one_event, servicing_is_enabled, is_expired_now, handle_expiration, query, handle_event,
  call_handler,
}

-- A test, and a call whose return means that an event was served.
abbrev pub served_if : Prog Bool → Prog (Unit {0}) → Prog Bool
served_if test serve = test >>= λ b. if b then serve >> return true else return false

-- `serve` exactly if there is something to find.
abbrev pub served_when : (World → Bool) → Prog (Unit {0}) → Prog Bool
served_when finds serve w = if finds w then (serve >> return true) w else done false w

-- `serve` if the clock has passed the time, and else `otherwise`; the clock is not read for a time of
-- `LONG_MAX` seconds, which it never passes.
abbrev pub served_after : Env → Timeval → Prog (Unit {0}) → Prog Bool → Prog Bool
served_after env t serve otherwise w =
    let w' : World = record w { clock_reads = suc w.clock_reads } in
    if ltb_ℤ t.tv_sec (pos long_max)
    then (if ltb_ℤ (micros t) (micros (env.time_at w.clock_reads))
        then (serve >> return true) w'
        else otherwise w')
    else otherwise w

-- Programs that agree where only the clock was read.
pub served_after-cong :
    (env : Env) (t : Timeval) (serve serve' : Prog (Unit {0})) (otherwise otherwise' : Prog Bool)
    (w : World)
    → ((n : ℕ) → serve (record w { clock_reads = n }) ≡ serve' (record w { clock_reads = n }))
    → ((n : ℕ)
        → otherwise (record w { clock_reads = n }) ≡ otherwise' (record w { clock_reads = n }))
    → served_after env t serve otherwise w ≡ served_after env t serve' otherwise' w
served_after-cong env t serve serve' otherwise otherwise' w e f =
    elim (Bool-cases (ltb_ℤ t.tv_sec (pos long_max))) [
      | inl l ↦ elim (Bool-cases (ltb_ℤ (micros t) (micros (env.time_at w.clock_reads)))) [
        | inl p ↦ rw (l, p, e (suc w.clock_reads)) refl
        | inr p ↦ rw (l, p, f (suc w.clock_reads)) refl
      ]
      | inr l ↦ rw (l, f w.clock_reads) refl
    ]

is_infinite_timeout-normalised :
    (t : Timeval) → IsNormalised t → is_infinite_timeout t ≡ not (ltb_ℤ t.tv_sec (pos long_max))
unfolding is_infinite_timeout
is_infinite_timeout-normalised t k = ground arith

is_expired_timeout-micros :
    (now t : Timeval)
    → IsNormalised now
    → IsNormalised t
    → ltb_ℤ t.tv_sec (pos long_max) ≡ true
    → is_expired_timeout now t ≡ ltb_ℤ (micros t) (micros now)
unfolding is_expired_timeout is_infinite_timeout micros
is_expired_timeout-micros now t hn ht l = ground arith

module _ (env : Env) {src : Ptr} (ne : src ≢ null) where
  -- An enabled source is asked for its event unless it has expired.
  pub do_one_event-enabled :
      (w : World)
      → (w.sources src).enabled ≡ true
      → IsNormalised (w.sources src).expiration_time
      → IsNormalised (env.time_at w.clock_reads)
      → do_one_event env src w
        ≡ served_after env
            (w.sources src).expiration_time
            (call_handler env (w.sources src).expiration_handler src)
            (served_if (query env src) (handle_event env src))
            w
  unfolding do_one_event servicing_is_enabled is_expired_now handle_expiration
  do_one_event-enabled w e k n =
      let t = (w.sources src).expiration_time in
      elim (Bool-cases (ltb_ℤ t.tv_sec (pos long_max))) [
        | inl l ↦ elim (Bool-cases (ltb_ℤ (micros t) (micros (env.time_at w.clock_reads)))) [
          | inl p ↦
              rw
                (
                  ==_of_ne ne,
                  e,
                  is_infinite_timeout-normalised t k,
                  l,
                  is_expired_timeout-micros (env.time_at w.clock_reads) t n k l,
                  p,
                  ==_of_ne ne,
                )
                refl
          | inr p ↦
              rw
                (
                  ==_of_ne ne,
                  e,
                  is_infinite_timeout-normalised t k,
                  l,
                  is_expired_timeout-micros (env.time_at w.clock_reads) t n k l,
                  p,
                )
                refl
        ]
        | inr l ↦ rw (==_of_ne ne, e, is_infinite_timeout-normalised t k, l) refl
      ]
