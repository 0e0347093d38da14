-- ===== src/Tests/Stateless.antt =====
-- An engine of a rule over single packets, and the theorem about its bootstrap machine.
use mmt_security.Prelude.{◌≡◌, refl, IfOk}
use mmt_security.Fsm.{reset}
use mmt_security.Rule.{Rule}
use mmt_security.Engine.Process.{process_single_packet}
use mmt_security.Engine.Stateless.{IsRestored, process_single_packet-IsRestored}
use mmt_security.Tests.Fsm.{message, single_states, bootstrap}
use mmt_security.Tests.Engine.{rule, engine}

abbrev single_rule : Rule
single_rule = record rule { states = single_states }

bootstrap-reset : reset bootstrap ≡ bootstrap
unfolding reset
bootstrap-reset = refl

process_single_packet-IsRestored_example :
    IfOk
      (process_single_packet single_rule (message 1 1000 1) engine)
      (λ s. IsRestored engine bootstrap s.1)
process_single_packet-IsRestored_example =
    process_single_packet-IsRestored single_rule (message 1 1000 1) engine bootstrap refl
      bootstrap-reset
