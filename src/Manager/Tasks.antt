-- ===== src/Manager/Tasks.antt =====
-- The wait group over the messages of one connection.
use mathlib.Core.Path.{subst}
use rewardcalculator.Base.{
  ℕ, ◌+◌, ◌≡◌, ◌≢◌, ◌↔◌, refl, sym, ap, ◌∙◌, arith, Bool, true, false, List, [], ◌∷◌, ◌++◌, ◌==◌,
  if◌then◌else◌, length, length-append, Bool-cases, inl, inr,
}
use rewardcalculator.Base.Bytes.{Bytes}
use rewardcalculator.Manager.{
  Message, Manager, new_manager, gets_request, begin, begin_rollback, handle_message, done,
  has_handler, msg_roll_back,
}

both : true ≢ false
both h = cc

module _ (decodes : ℕ → Bytes → Bool) where
  -- A handler that cannot decode its request.
  abbrev pub undecoded : Message → ℕ
  undecoded m = if gets_request decodes m then 0 else 1

  abbrev pub undecoded_now : Manager → Message → ℕ
  undecoded_now s m =
      if has_handler s.monitor_mode m.msg
      then (if m.msg == msg_roll_back then undecoded m else 0)
      else 0

  -- A step, and how many handlers could not decode in it. Goroutines begin and end in any order; a
  -- message is read when no rollback is at work on the connection and none has failed.
  pub data Step : Manager → Manager → ℕ → Type 0 where
    received :
        (s : Manager) (m : Message)
        → s.rolling_back ≡ false
        → s.failed ≡ false
        → Step s (handle_message decodes m s) (undecoded_now s m)
    begun :
        (s : Manager) (before : List Message) (m : Message) (behind : List Message)
        → s.starting ≡ before ++ m ∷ behind
        → Step s (begin decodes m (record s { starting = before ++ behind })) (undecoded m)
    finished :
        (s : Manager) (before : List Message) (m : Message) (behind : List Message)
        → s.working ≡ before ++ m ∷ behind
        → Step s (done decodes (record s { working = before ++ behind })) 0
    rolled_back :
        (s : Manager)
        → s.rolling_back ≡ true
        → Step s (done decodes (record s { rolling_back = false })) 0

  pub data Reach (a : Manager) : Manager → ℕ → Type 0 where
    here : Reach a a 0
    next : {b c : Manager} {n k : ℕ} → Reach a b n → Step b c k → Reach a c (n + k)

  abbrev pub rollbacks : Manager → ℕ
  rollbacks s = if s.rolling_back then 1 else 0

  -- The counter has the handlers at work, and those that returned without DoneMsgTask.
  abbrev pub Counts : Manager → ℕ → Type 0
  Counts s n = s.tasks ≡ length s.working + rollbacks s + n

  begin-Counts :
      (m : Message) (s : Manager) (n : ℕ)
      → Counts s n
      → Counts (begin decodes m s) (n + undecoded m)
  unfolding begin
  begin-Counts m s n h = elim (Bool-cases (gets_request decodes m)) [
    | inl request ↦ rw request (omega (arith, h))
    | inr no_request ↦ rw no_request (omega (arith, h))
  ]

  begin_rollback-Counts :
      (m : Message) (s : Manager) (n : ℕ)
      → s.rolling_back ≡ false
      → Counts s n
      → Counts (begin_rollback decodes m s) (n + undecoded m)
  unfolding begin_rollback
  begin_rollback-Counts m s n idle h =
      let none_at_work : rollbacks s ≡ 0 = rw idle refl in
      elim (Bool-cases (gets_request decodes m)) [
        | inl request ↦ rw request (omega (arith, h, none_at_work))
        | inr no_request ↦ rw no_request (omega (arith, h, none_at_work))
      ]

  handle_message-Counts :
      (m : Message) (s : Manager) (n : ℕ)
      → s.rolling_back ≡ false
      → Counts s n
      → Counts (handle_message decodes m s) (n + undecoded_now s m)
  unfolding handle_message
  handle_message-Counts m s n idle h = elim (Bool-cases (has_handler s.monitor_mode m.msg)) [
    | inr no_handler ↦ rw no_handler (omega (arith, h))
    | inl handler ↦ elim (Bool-cases (m.msg == msg_roll_back)) [
      | inl rollback ↦ rw (handler, rollback) (begin_rollback-Counts m s n idle h)
      | inr other ↦ rw (handler, other) (omega (arith, h))
    ]
  ]

  length-between :
      (before : List Message) (m : Message) (behind : List Message)
      → length (before ++ m ∷ behind) ≡ length (before ++ behind) + 1
  length-between before m behind =
      omega (arith, length-append before (m ∷ behind), length-append before behind)

  Step-Counts : {a b : Manager} (n : ℕ) {k : ℕ} → Counts a n → Step a b k → Counts b (n + k)
  unfolding done
  Step-Counts n h (received s m idle not_failed) = handle_message-Counts m s n idle h
  Step-Counts n h (begun s before m behind e) =
      begin-Counts m (record s { starting = before ++ behind }) n h
  Step-Counts n h (finished s before m behind e) =
      let one : length s.working ≡ length (before ++ behind) + 1 =
        ap length e ∙ length-between before m behind in
      omega (arith, h, one)
  Step-Counts n h (rolled_back s at_work) =
      let one : rollbacks s ≡ 1 = rw at_work refl in omega (arith, h, one)

  Reach-Counts :
      {monitor_mode : Bool} {s : Manager} {n : ℕ}
      → Reach (new_manager monitor_mode) s n
      → Counts s n
  Reach-Counts here = refl
  Reach-Counts (next {n = n} r st) = Step-Counts n (Reach-Counts r) st

  -- What is left when all handlers at work have ended, those that have not begun yet left alone.
  abbrev pub drained : ℕ → Manager → Manager
  drained n s = record s { tasks = n; working = []; rolling_back = false }

  none_left : (l : List Message) → length l ≡ 0 → l ≡ []
  none_left [] h = refl
  none_left (m ∷ l) h = absurd (omega (arith, h))

  front : {a b c : Manager} {k : ℕ} → Step a b 0 → Reach b c k → Reach a c k
  front st here = next here st
  front st (next r more) = next (front st r) more

  finish_all :
      (n : ℕ) (l : List Message) (s : Manager)
      → s.working ≡ l
      → s.rolling_back ≡ false
      → s.tasks ≡ length l + n
      → Reach s (drained n s) 0
  unfolding done
  finish_all n [] s e idle h =
      let counter : s.tasks ≡ n = omega (arith, h) in
      let same : s ≡ drained n s =
        λ i. record s { tasks = counter i; working = e i; rolling_back = idle i } in
      subst (λ t. Reach s t 0) same here
  finish_all n (m ∷ l) s e idle h =
      front (finished s [] m l e)
        (finish_all n l (done decodes (record s { working = l })) refl idle (omega (arith, h)))

  -- Of any messages on a connection, the beginnings and ends of their handlers in any order: the
  -- counter of the wait group is 0 exactly when no handler is at work and every message that was
  -- handled could be decoded; and when the handlers at work have ended, which they can from any state,
  -- it is the number of the messages that could not be decoded.
  pub tasks_when_done :
      {monitor_mode : Bool} {s : Manager} {n : ℕ}
      → Reach (new_manager monitor_mode) s n
      → ((s.tasks ≡ 0) ↔ ((s.working ≡ []) × (s.rolling_back ≡ false) × (n ≡ 0)))
        × Reach s (drained n s) 0
  unfolding done
  tasks_when_done {s = s} {n = n} r =
      let counts = Reach-Counts r in
      elim (Bool-cases s.rolling_back) [
        | inl at_work ↦
            let one : rollbacks s ≡ 1 = rw at_work refl in
            (
              (
                (λ zero_tasks. absurd (omega (arith, counts, one, zero_tasks))),
                (λ h. absurd (both (sym at_work ∙ h.1))),
              ),
              front (rolled_back s at_work) (
                  finish_all n s.working (done decodes (record s { rolling_back = false })) refl
                    refl (omega (arith, counts, one))),
            )
        | inr idle ↦
            let none_at_work : rollbacks s ≡ 0 = rw idle refl in
            (
              (
                (λ zero_tasks. (
                  none_left s.working (omega (arith, counts, none_at_work, zero_tasks)),
                  idle,
                  omega (arith, counts, none_at_work, zero_tasks),
                )),
                (λ h.
                    let empty : length s.working ≡ 0 = ap length h.0 in
                    omega (arith, counts, none_at_work, empty, h.2)),
              ),
              finish_all n s.working s refl idle (omega (arith, counts, none_at_work)),
            )
      ]
