-- ===== src/Ring/Threads/Progress.antt =====
-- Neither thread waits for the other.
use native.Mathlib.Decide.{ℕ_discrete}
use lob_market_maker.Prelude.{ℕ, suc, ◌+◌, ◌≤◌, ◌<◌, ◌≡◌, ◌≢◌, refl, arith}
use lob_market_maker.Ring.{IsCapacity}
use lob_market_maker.Ring.Threads.{
  PushPc, outside, push_test, push_refresh, push_fill, push_publish, PopPc, away, pop_test,
  pop_refresh, pop_take, pop_publish, System, start, Thread, producing, consuming, own_load, Step,
  Steps, call_push, call_pop, see_full, see_room, load_full, load_room, fill, publish, see_none,
  see_some, load_none, load_some, take, release,
}
use lob_market_maker.Ring.Threads.Invariant.{Inv}
use lob_market_maker.Ring.Threads.Safety.{Steps-Inv}

module _ {T : Type 0} where
  -- How many own steps a call has left, at most.
  push_rank : PushPc T → ℕ
  push_rank outside = 0
  push_rank (push_test value head next) = 4
  push_rank (push_refresh value head next) = 3
  push_rank (push_fill value head next) = 2
  push_rank (push_publish value head next) = 1

  pop_rank : PopPc T → ℕ
  pop_rank away = 0
  pop_rank (pop_test tail) = 4
  pop_rank (pop_refresh tail) = 3
  pop_rank (pop_take tail) = 2
  pop_rank (pop_publish value tail) = 1

  unfoldable pub steps_left : Thread → System T → ℕ
  unfolding push_rank pop_rank
  steps_left producing s = push_rank s.producer
  steps_left consuming s = pop_rank s.consumer

module _ {T : Type 0} (moved : T → T) (bits : ℕ) where
  -- A run of both threads during one call of a thread, with the number of that thread's steps.
  pub data During (who : Thread) (s : System T) : ℕ → System T → Type 0 where
    begin : During who s 0 s
    own :
        {n : ℕ} {t u : System T}
        → During who s n t
        → 0 < steps_left who t
        → Step moved bits t who u
        → During who s (suc n) u
    other :
        {n : ℕ} {t u : System T} {them : Thread}
        → During who s n t
        → 0 < steps_left who t
        → who ≢ them
        → Step moved bits t them u
        → During who s n u

  -- A thread that is inside a call has a step, whatever the other one does.
  next_push :
      (s : System T) (pc : PushPc T)
      → s.producer ≡ pc
      → s.tail_seen ≤ s.tail.latest
      → 0 < push_rank pc
      → (t : System T) × Step moved bits s producing t
  unfolding push_rank
  next_push s outside e old busy = absurd (omega arith)
  next_push s (push_test value head next) e old busy = elim (ℕ_discrete next s.cached_tail) [
    | yes same ↦ (_, see_full e same)
    | no apart ↦ (_, see_room e apart)
  ]
  next_push s (push_refresh value head next) e old busy = elim (ℕ_discrete next (own_load s.tail)) [
    | yes same ↦ (_, load_full s.tail.latest e old (omega arith) same)
    | no apart ↦ (_, load_room s.tail.latest e old (omega arith) apart)
  ]
  next_push s (push_fill value head next) e old busy = (_, fill e)
  next_push s (push_publish value head next) e old busy = (_, publish e)

  next_pop :
      (s : System T) (pc : PopPc T)
      → s.consumer ≡ pc
      → s.head_seen ≤ s.head.latest
      → 0 < pop_rank pc
      → (t : System T) × Step moved bits s consuming t
  unfolding pop_rank
  next_pop s away e old busy = absurd (omega arith)
  next_pop s (pop_test tail) e old busy = elim (ℕ_discrete tail s.cached_head) [
    | yes same ↦ (_, see_none e same)
    | no apart ↦ (_, see_some e apart)
  ]
  next_pop s (pop_refresh tail) e old busy = elim (ℕ_discrete tail (own_load s.head)) [
    | yes same ↦ (_, load_none s.head.latest e old (omega arith) same)
    | no apart ↦ (_, load_some s.head.latest e old (omega arith) apart)
  ]
  next_pop s (pop_take tail) e old busy = (_, take e)
  next_pop s (pop_publish value tail) e old busy = (_, release e)

  next_step :
      (who : Thread) {s : System T}
      → Inv bits s
      → 0 < steps_left who s
      → (t : System T) × Step moved bits s who t
  unfolding steps_left
  next_step producing {s} inv busy = next_push s s.producer refl inv.tail_old busy
  next_step consuming {s} inv busy = next_pop s s.consumer refl inv.head_old busy

  -- Each own step leaves fewer to go, and a step of the other thread as many.
  Step-own :
      {who : Thread} {s t : System T}
      → Step moved bits s who t
      → 0 < steps_left who s
      → steps_left who t < steps_left who s
  unfolding steps_left push_rank pop_rank
  Step-own (call_push value e) busy = ground arith
  Step-own (see_room e d) busy = ground arith
  Step-own (see_full e d) busy = ground arith
  Step-own (load_room n e a b d) busy = ground arith
  Step-own (load_full n e a b d) busy = ground arith
  Step-own (fill e) busy = ground arith
  Step-own (publish e) busy = ground arith
  Step-own (call_pop e) busy = ground arith
  Step-own (see_some e d) busy = ground arith
  Step-own (see_none e d) busy = ground arith
  Step-own (load_some n e a b d) busy = ground arith
  Step-own (load_none n e a b d) busy = ground arith
  Step-own (take e) busy = ground arith
  Step-own (release e) busy = ground arith

  Step-other :
      {who them : Thread} {s t : System T}
      → Step moved bits s them t
      → who ≢ them
      → steps_left who t ≡ steps_left who s
  unfolding steps_left push_rank pop_rank
  Step-other (fill e) differ = ground arith
  Step-other step differ = ground arith

  During-le :
      {who : Thread} {s t : System T} {n : ℕ}
      → During who s n t
      → n + steps_left who t ≤ steps_left who s
  During-le begin = omega arith
  During-le (own before busy step) = omega (arith, During-le before, Step-own step busy)
  During-le (other before busy differ step) =
      omega (arith, During-le before, Step-other step differ)

  steps_left-le : (who : Thread) (s : System T) → steps_left who s ≤ 4
  unfolding steps_left push_rank pop_rank
  steps_left-le producing s = ground arith
  steps_left-le consuming s = ground arith

  -- Wait freedom, for a capacity of 2 ^ bits elements with 0 < bits < 64. In every state that the two
  -- threads reach from a new ring, a thread that is inside a call has a step to take, and a call takes
  -- at most four more steps of its own thread, however many steps the other thread takes meanwhile.
  pub wait_free :
      (v : IsCapacity bits) (fresh : T) {s : System T} (who : Thread)
      → Steps moved bits (start fresh) s
      → 0 < steps_left who s
      → ((t : System T) × Step moved bits s who t)
        × ((n : ℕ) (t : System T) → During who s n t → n + steps_left who t ≤ 4)
  wait_free v fresh {s} who run busy = (
    next_step who (Steps-Inv moved bits v fresh run) busy,
    λ n t during. omega (arith, During-le during, steps_left-le who s),
  )
