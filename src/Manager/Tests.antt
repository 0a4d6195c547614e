-- ===== src/Manager/Tests.antt =====
-- Two messages on a connection, of which one cannot be decoded.
use rewardcalculator.Base.{ℕ, ◌≡◌, ◌↔◌, refl, Bool, true, false, [], ◌∷◌}
use rewardcalculator.Base.Bytes.{Bytes}
use rewardcalculator.Manager.{
  Message, Manager, new_manager, begin, handle_message, msg_query, msg_claim, has_handler,
}
use rewardcalculator.Manager.Tasks.{Reach, here, next, received, begun, drained, tasks_when_done}

-- Any bytes decode but none.
abbrev decodes : ℕ → Bytes → Bool
decodes msg [] = false
decodes msg (b ∷ bs) = true

abbrev query : Message
query = record { msg = msg_query; contents = 1 ∷ [] }

abbrev empty_claim : Message
empty_claim = record { msg = msg_claim; contents = [] }

-- The claim is received and begins, then a query.
abbrev after_claim : Manager
after_claim = record (new_manager false) { starting = empty_claim ∷ [] }

abbrev without_claim : Manager
without_claim = record (new_manager false) { tasks = 1 }

abbrev with_query : Manager
with_query = record without_claim { starting = query ∷ [] }

abbrev querying : Manager
querying = record without_claim { tasks = 2; working = query ∷ [] }

reached : Reach decodes (new_manager false) querying 1
unfolding handle_message begin has_handler
reached =
    next
      (next
        (next (next here (received (new_manager false) empty_claim refl refl))
          (begun after_claim [] empty_claim [] refl))
        (received without_claim query refl refl))
      (begun with_query [] query [] refl)

tasks_when_done_example :
    ((querying.tasks ≡ 0)
      ↔ ((querying.working ≡ []) × (querying.rolling_back ≡ false) × (◌≡◌ {A = ℕ} 1 0)))
    × Reach decodes querying (drained decodes 1 querying) 0
tasks_when_done_example = tasks_when_done decodes reached
