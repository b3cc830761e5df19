-- ===== src/Group/Enter.antt =====
-- `ccevents_group_enter` of src/ccevents-groups.c: it ends, without a fault and without an exit to a
-- location, whatever the events of its sources do.
use ccevents.Base.{
  ℕ, zero, suc, ◌+◌, ◌%◌, ◌≤◌, ◌<◌, ◌≡◌, refl, ◌≢◌, ◌⊎◌, inl, inr, if◌then◌else◌, Bool, true, false,
  not, Bool-cases, ltb, arith, List, [], ◌∷◌, ==_of_ne, ==_of_eq, ◌==◌, ◌&&◌,
}
use ccevents.Memory.{Ptr, null, update}
use ccevents.Memory.Access.{load_queue-ok}
use ccevents.Queue
use ccevents.Queue.{size_mod}
use ccevents.Queue.Holds.{Holds}
use ccevents.Queue.Inspect.{inspect-Holds, is_cons}
use ccevents.World.{World, Result, done, raised, fault, out_of_fuel, on_memory, Returned, ◌>>◌, Env}
use ccevents.World.Rules.{Keeps, Returned-and_then, Contract}
use ccevents.Source
use ccevents.Source.Events.{do_one_event-Keeps}
use ccevents.Group.{
  put_group, set_request, queue_is_not_empty, loop_allows, no_request_to_leave,
  watermark_not_reached, goes_on, caught, service, enter_loop, enter,
}

-- What a group needs of a property of the world: it says that the group's queue is well-formed and its
-- watermark at most `top`, and is kept by the environment and by what the group itself writes.
pub record Serves (env : Env) (I : World → Type 0) (grp : Ptr) (top : ℕ) : Type 0 where
  pub contract : Contract env I
  pub queue : (w : World) → I w → (xs : List Ptr) × Holds w.memory grp xs
  pub watermark : (w : World) → I w → (w.groups grp).servicing_attempts_watermark ≤ top
  pub advance : (w : World) → I w → Returned (λ _. I) (on_memory (Queue.advance_current grp) w)
  pub request :
      (w : World) (b : Bool)
      → I w
      → I (put_group grp (record (w.groups grp) { request_to_leave = b }) w)

-- Whether neither the group nor its loop is asked to leave.
abbrev pub is_free : Ptr → World → Bool
is_free grp w =
    let loop : Ptr = (w.memory.nodes grp).base in
    if (w.groups grp).request_to_leave
    then false
    else if loop == null
    then true
    else not (w.loops loop).request_to_leave

-- Whether the group goes on, given its sources.
abbrev pub wants_more : Ptr → ℕ → List Ptr → World → Bool
wants_more grp count xs w =
    is_free grp w && is_cons xs && ltb count (w.groups grp).servicing_attempts_watermark

no_request_to_leave-is_free :
    {grp : Ptr} (w : World) → grp ≢ null → no_request_to_leave grp w ≡ done (is_free grp w) w
unfolding no_request_to_leave loop_allows
no_request_to_leave-is_free {grp} w ne = elim (Bool-cases (w.groups grp).request_to_leave) [
  | inl e ↦ rw (==_of_ne ne, e) refl
  | inr e ↦ elim (Bool-cases ((w.memory.nodes grp).base == null)) [
    | inl f ↦ rw (==_of_ne ne, e, f) refl
    | inr f ↦ rw (==_of_ne ne, e, f) refl
  ]
]

pub queue_is_not_empty-Holds :
    {grp : Ptr} {xs : List Ptr} (w : World)
    → Holds w.memory grp xs
    → queue_is_not_empty grp w ≡ done (is_cons xs) w
unfolding queue_is_not_empty
queue_is_not_empty-Holds {grp} {xs} w k = rw (inspect-Holds xs grp k k.queue_ne).1 refl

pub goes_on-wants_more :
    {grp : Ptr} {xs : List Ptr} (count : ℕ) (w : World)
    → Holds w.memory grp xs
    → goes_on grp count w ≡ done (wants_more grp count xs w) w
unfolding goes_on watermark_not_reached
goes_on-wants_more {grp} {xs} count w k = elim (Bool-cases (is_free grp w)) [
  | inl e ↦ elim (Bool-cases (is_cons xs)) [
    | inl f ↦ rw (no_request_to_leave-is_free w k.queue_ne, e, queue_is_not_empty-Holds w k, f) refl
    | inr f ↦ rw (no_request_to_leave-is_free w k.queue_ne, e, queue_is_not_empty-Holds w k, f) refl
  ]
  | inr e ↦ rw (no_request_to_leave-is_free w k.queue_ne, e) refl
]

pub current_node-Holds :
    {grp x : Ptr} {xs : List Ptr} (w : World)
    → Holds w.memory grp (x ∷ xs)
    → on_memory (Queue.current_node grp) w ≡ done x w
unfolding Queue.current_node
current_node-Holds w k = rw (load_queue-ok k.queue_ne, k.current) refl

Returned-caught :
    (env : Env) {I : World → Type 0} (c : Contract env I) (r : Result Bool)
    → Keeps I r
    → Returned (λ _. I) (caught env r)
unfolding caught
Returned-caught env c (done b w) k = c.on_success w k
Returned-caught env c (raised w) k = c.on_error w k
Returned-caught env c fault k = k
Returned-caught env c out_of_fuel k = k

module _ (env : Env) {grp : Ptr} {xs : List Ptr} (fuel count : ℕ) (w : World) where
  pub enter_loop-stops :
      Holds w.memory grp xs
      → wants_more grp count xs w ≡ false
      → enter_loop env (suc fuel) grp count w ≡ done tt w
  unfolding enter_loop
  enter_loop-stops k e = rw (goes_on-wants_more count w k, e) refl

  pub enter_loop-round :
      {x : Ptr}
      → Holds w.memory grp (x ∷ xs)
      → wants_more grp count (x ∷ xs) w ≡ true
      → enter_loop env (suc fuel) grp count w
        ≡ (on_memory (Queue.advance_current grp)
              >> (service env x >> enter_loop env fuel grp ((count + 1) % size_mod)))
            w
  unfolding enter_loop
  enter_loop-round {x} k e =
      rw (goes_on-wants_more count w k, e, current_node-Holds w k, ==_of_ne (x_ne k)) refl
    where
      x_ne : Holds w.memory grp (x ∷ xs) → x ≢ null
      x_ne k = ground (arith, k.null_out)

module _ (env : Env) {I : World → Type 0} {grp : Ptr} {top : ℕ} (s : Serves env I grp top) where
  service-Returned :
      {src : Ptr} (w : World) → src ≢ null → I w → Returned (λ _. I) (service env src w)
  unfolding service
  service-Returned {src} w ne k =
      Returned-caught env s.contract (Source.do_one_event env src w)
        (do_one_event-Keeps env s.contract w ne k)

  -- One round, and the rounds after it if the watermark is not reached yet.
  round-Returned :
      (fuel count : ℕ) (w : World)
      → I w
      → ((w' : World)
          → I w'
          → count < top
          → Returned (λ _. I) (enter_loop env fuel grp ((count + 1) % size_mod) w'))
      → Returned (λ _. I) (enter_loop env (suc fuel) grp count w)
  round-Returned fuel count w k rest =
      let (xs, h) = s.queue w k in go xs h (Bool-cases (wants_more grp count xs w))
    where
      go :
          (xs : List Ptr)
          → Holds w.memory grp xs
          → (wants_more grp count xs w ≡ true) ⊎ (wants_more grp count xs w ≡ false)
          → Returned (λ _. I) (enter_loop env (suc fuel) grp count w)
      go xs h (inr e) = rw (enter_loop-stops env fuel count w h e) k
      go [] h (inl e) = absurd (ground arith)
      go (x ∷ xs) h (inl e) =
          let l : count < top = ground (arith, s.watermark w k) in
          rw (enter_loop-round env fuel count w h e) (
            Returned-and_then (λ _. I) (λ _. I) _ _ (s.advance w k)
              λ u w1 k1.
                Returned-and_then (λ _. I) (λ _. I) _ _
                  (service-Returned w1 (ground (arith, h.null_out)) k1) λ u w2 k2. rest w2 k2 l)

  -- The watermark is reached after at most `top` rounds.
  enter_loop-Returned :
      (fuel count : ℕ) (w : World)
      → top < size_mod
      → count ≤ top
      → top < fuel + count
      → I w
      → Returned (λ _. I) (enter_loop env fuel grp count w)
  enter_loop-Returned zero count w t l m k = absurd (omega arith)
  enter_loop-Returned (suc fuel) count w t l m k = round-Returned fuel count w k λ w' k' c.
      enter_loop-Returned fuel ((count + 1) % size_mod) w' t (omega arith) (omega arith) k'

  set_request-ok :
      (b : Bool) (w : World)
      → I w
      → set_request grp b w
        ≡ done tt (put_group grp (record (w.groups grp) { request_to_leave = b }) w)
  unfolding set_request
  set_request-ok b w k = rw (==_of_ne (s.queue w k).1.queue_ne) refl

  set_request-Returned :
      (b : Bool) (w : World)
      → I w
      → Returned (λ _ w'. I w' × ((w'.groups grp).request_to_leave ≡ b)) (set_request grp b w)
  unfolding update
  set_request-Returned b w k =
      rw (set_request-ok b w k) (s.request w b k, rw (==_of_eq {a = grp} refl) refl)

  -- Let a property of the world make the queue of a group well-formed, its watermark at most some
  -- number below 2 ^ 64 and every source set up, with what its methods call and with a signal
  -- number or a descriptor in bounds, and let the callbacks, the clock, cleared flags and the
  -- writes of the group itself keep it. Then entering the group with more fuel than that number
  -- returns: it does not fault, it lets no exceptional condition out, the property holds again and
  -- no request to leave is pending.
  pub enter-Returned :
      (fuel : ℕ) (w : World)
      → top < size_mod
      → top < fuel
      → I w
      → Returned (λ _ w'. I w' × ((w'.groups grp).request_to_leave ≡ false)) (enter env fuel grp w)
  unfolding enter
  enter-Returned fuel w t m k =
      Returned-and_then _ _ (set_request grp false w) _ (set_request-Returned false w k) λ u w1 k1.
        Returned-and_then (λ _. I) _ (enter_loop env fuel grp 0 w1) _
          (enter_loop-Returned fuel 0 w1 t (omega arith) (omega arith) k1.0)
          λ u w2 k2. set_request-Returned false w2 k2
