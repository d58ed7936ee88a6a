-- ===== src/Tests/Ticks.antt =====
-- The scheduler's ticks: for the dealer on the round after a stand, and for a player whose time is up.
use blackjack.Usecase.DealerTurn.{dealer_turn}
use blackjack.Usecase.DealerStep.{Ticked, dealer_turn-Ticked}
use blackjack.Prelude.{some}
use blackjack.Tests.Memory.{Db, memory_laws}
use blackjack.Tests.Requests.{service, opened, stood, moment, idle}

dealer_turn-Ticked_example :
    Ticked service memory_laws moment "s" stood
      (idle stood)
      (dealer_turn service idle moment "s" stood)
dealer_turn-Ticked_example = dealer_turn-Ticked service memory_laws moment "s" idle stood

abbrev overdue : Db
overdue = record opened { session = record (opened.session) { turn_deadline_at = some 4 } }
