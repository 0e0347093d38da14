-- ===== src/Tests/Handler.antt =====
-- A handler of the rule of Tests.Engine, and the theorems about handlers at it.
use mmt_security.Prelude.{◌≡◌, refl, none, some, [], ◌∷◌, true, false, Ensures, IfOk, inl}
use mmt_security.Handler.{
  Entry, Handler, single_sec_process, ignore_flows, combine_masks, combine_rules,
}
use mmt_security.Handler.Rules.{remove_rules}
use mmt_security.Handler.Alerts.{IsCounted, single_sec_process-IsCounted}
use mmt_security.Handler.Ignored.{IsIgnoring, last_flow, ignore_flows-IsIgnoring}
use mmt_security.Handler.Consistent.{IsConsistent}
use mmt_security.Handler.Removal.{IsRemoved, remove_rules-IsRemoved}
use mmt_security.Tests.Fsm.{message}
use mmt_security.Tests.Engine.{rule, engine}
use mmt_security.Tests.Flows.{fresh, fresh-IsFlowSet}

abbrev pub entry : Entry
entry = record { rule = rule; single = false; engine = engine; alerts_count = 0; rule_hash = 6 }

abbrev handler : Handler
handler = record {
  entries = entry ∷ [];
  has_callback = true;
  hash = 6;
  messages_count = 0;
  flow_ids_to_ignore = some fresh;
}

handler-IsConsistent : IsConsistent handler
unfolding combine_masks combine_rules
handler-IsConsistent = record { rules = (refl, tt); all = refl }

single_sec_process-IsCounted_example :
    IfOk (single_sec_process handler (message 1 1000 1)) (IsCounted handler (message 1 1000 1))
single_sec_process-IsCounted_example = single_sec_process-IsCounted handler (message 1 1000 1) refl

remove_rules-IsRemoved_example :
    Ensures
      (remove_rules [] handler)
      λ r. IsRemoved [] handler.entries r.1.entries r.0 × (r.1.hash ≡ combine_rules 0 r.1.entries)
remove_rules-IsRemoved_example = remove_rules-IsRemoved [] handler handler-IsConsistent.all

ignore_flows-IsIgnoring_example :
    Ensures
      (ignore_flows
        (none ∷ some (message 1 1000 1) ∷ some (message 2 1050 2) ∷ [])
        18446744073709551615
        fresh)
      (IsIgnoring (
        last_flow
          (none ∷ some (message 1 1000 1) ∷ some (message 2 1050 2) ∷ [])
          18446744073709551615))
ignore_flows-IsIgnoring_example =
    ignore_flows-IsIgnoring (none ∷ some (message 1 1000 1) ∷ some (message 2 1050 2) ∷ [])
      18446744073709551615 fresh (([], fresh-IsFlowSet), inl refl)
