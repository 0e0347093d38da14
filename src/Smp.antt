-- ===== src/Smp.antt =====
-- The verification by several threads (src/lib/mmt_smp_security.h, src/lib/mmt_smp_security.c): the
-- distribution of the rules and of the messages to the threads, and the work of each.
pub mod Special
pub mod Partition
pub mod Bursts
pub mod Lanes
pub mod Work
pub mod Follow
pub mod OneHandler
pub mod Agreement
pub mod Registered
pub mod Equivalence
pub mod Totals
pub mod Waiting
pub mod Delivery
use Prim.Native.Nat.{bit_and}
use mmt_security.Prelude.{
  ℕ, zero, suc, ◌+◌, ◌-◌, ◌/◌, ◌==◌, Option, none, some, List, [], ◌∷◌, ◌++◌, Bool, true, false,
  not, ◌&&◌, if◌then◌else◌, ltb, length, Run, ok, fault, wild, halted, ◌>>=◌,
}
use mmt_security.Prelude.Bits.{u64}
use mmt_security.Message.{Message}
use mmt_security.Rule.{Rule, ProtoAttribute}
use mmt_security.Utils.Masks.{Text, get_special_rules_for_thread, numbers_of}
use mmt_security.Handler.{
  Handler, Call, single_sec_register, single_sec_process, set_ignore_remain_flow,
  is_ignore_remain_flow, total_alerts,
}
use mmt_security.Handler.Rules.{add_rules, remove_rules}

-- The swap of `first`, at the beginning of the remaining rules, with the first later rule that has the
-- id: this rule, and the later rules afterwards.
unfoldable pub swap_first : ℕ → Rule → List Rule → Option (Rule × List Rule)
swap_first id first [] = none
swap_first id first (r ∷ rs) =
    let rest = swap_first id first rs in
    if id == r.id
    then some (r, first ∷ rs)
    else elim rest [ none ↦ none | some (found, others) ↦ some (found, r ∷ others) ]

-- The rule with the id moves to the beginning. If there is none, the assertion `k <= rules_count`
-- holds all the same, and the rule at the beginning stays.
unfoldable pub bring_first : ℕ → Rule → List Rule → Rule × List Rule
unfolding swap_first
bring_first id r rs =
    if id == r.id
    then (r, rs)
    else elim (swap_first id r rs) [ none ↦ (r, rs) | some found ↦ found ]

-- The loop over the ids that a mask gives to a thread: the rules for the thread and those that
-- remain. With more ids than rules the assertion fails, or the thread reads beyond the array.
unfoldable pub take_special : List ℕ → List Rule → Run (List Rule × List Rule)
take_special [] rules = ok ([], rules)
take_special (id ∷ []) [] = fault wild
take_special (id ∷ next ∷ ids) [] = fault halted
take_special (id ∷ ids) (r ∷ rs) = do
  let (found, others) = bring_first id r rs
  (taken, rest) ← take_special ids others
  ok (found ∷ taken, rest)

-- What the distribution leaves: the rules of each thread, `none` for those that have none yet, the
-- remaining rules and the number of the remaining threads.
pub record Shares : Type 0 where
  pub shares : List (Option (List Rule))
  pub rules : List Rule
  pub threads : ℕ

-- The first loop over the threads, from thread `i` on, with `n` of them to come.
unfoldable pub share_special : Text → ℕ → ℕ → List Rule → ℕ → Run Shares
share_special mask i zero rules threads =
    ok (record { shares = []; rules = rules; threads = threads })
share_special mask i (suc n) rules threads = do
  ids ← get_special_rules_for_thread (i + 1) mask
  elim (numbers_of ids) [
    | [] ↦ do
      s ← share_special mask (i + 1) n rules threads
      ok (record s { shares = none ∷ s.shares })
    | id ∷ more ↦ do
      (taken, rest) ← take_special (id ∷ more) rules
      s ← share_special mask (i + 1) n rest (threads - 1)
      ok (record s { shares = some taken ∷ s.shares })
  ]

-- `rule_ptr` moves on by `n` rules.
unfoldable pub split_rules : ℕ → List Rule → Run (List Rule × List Rule)
split_rules zero rules = ok ([], rules)
split_rules (suc n) [] = fault wild
split_rules (suc n) (r ∷ rs) = do (first, rest) ← split_rules n rs; ok (r ∷ first, rest)

-- The second loop: the remaining rules go equally to the threads without rules. It gives the rules of
-- all threads and what is left over.
unfoldable pub share_equally :
    List (Option (List Rule)) → List Rule → ℕ → Run (List (List Rule) × List Rule)
share_equally [] rules threads = ok ([], rules)
share_equally (some taken ∷ shares) rules threads = do
  (all, rest) ← share_equally shares rules threads
  ok (taken ∷ all, rest)
share_equally (none ∷ shares) rules threads = do
  (first, others) ← split_rules (length rules / threads) rules
  (all, rest) ← share_equally shares others (threads - 1)
  ok (first ∷ all, rest)

-- The rules of each thread, and what is left over. A null mask is an empty one.
unfoldable pub distribute : ℕ → Text → List Rule → Run (List (List Rule) × List Rule)
unfolding share_special share_equally
distribute threads mask rules = do
  s ← share_special mask 0 threads rules threads
  share_equally s.shares s.rules s.threads

unfoldable pub register_all : List ProtoAttribute → ℕ → Bool → List (List Rule) → Run (List Handler)
register_all registered max_instances has_callback [] = ok []
register_all registered max_instances has_callback (rules ∷ all) = do
  h ← single_sec_register registered max_instances rules has_callback
  hs ← register_all registered max_instances has_callback all
  ok (h ∷ hs)

-- `mmt_smp_sec_register`: the handler of each thread. The rings and the threads are made with them.
unfoldable pub smp_sec_register :
    List ProtoAttribute → ℕ → List Rule → ℕ → Text → Bool → Run (List Handler)
smp_sec_register registered max_instances rules threads_count rule_mask has_callback =
    if length rules == 0 then fault halted else do
      let threads = if ltb (length rules) threads_count then length rules else threads_count
      (all, rest) ← distribute threads rule_mask rules
      register_all registered max_instances has_callback all

-- The bit of a thread in the mask of `mmt_smp_sec_process`, once the loop over the threads is done:
-- whether the message is for it. `none` is the null message, which is for all.
unfoldable pub concerns : ℕ → Option Message → Bool
concerns hash none = true
concerns hash (some m) = not (bit_and m.hash hash == 0)

-- The work of a thread on what one call of `ring_pop_burst` returned: the loop that processes all
-- messages but the last, where a null message is a wild access, and then the last. It tells whether
-- the thread stops.
unfoldable pub process_burst : Handler → List (Option Message) → Run (Handler × List Call × Bool)
process_burst h [] = ok (h, [], false)
process_burst h (none ∷ []) = ok (h, [], true)
process_burst h (none ∷ x ∷ xs) = fault wild
process_burst h (some m ∷ xs) = do
  (h', calls) ← single_sec_process h m
  (h'', calls', stop) ← process_burst h' xs
  ok (h'', calls ++ calls', stop)

-- The loop of `_process_one_thread` over the bursts that it gets; an empty one is waited over.
unfoldable pub process_one_thread :
    Handler → List (List (Option Message)) → Run (Handler × List Call × Bool)
process_one_thread h [] = ok (h, [], false)
process_one_thread h (b ∷ bs) = do
  (h', calls, stop) ← process_burst h b
  if stop
      then ok (h', calls, true)
      else do (h'', calls', stop') ← process_one_thread h' bs; ok (h'', calls ++ calls', stop')

-- `mmt_smp_sec_set_ignore_remain_flow`; each handler has a memory of its own.
unfoldable pub smp_set_ignore_remain_flow :
    Bool → ℕ → List (Option (List ℕ)) → List Handler → List Handler
smp_set_ignore_remain_flow ignore buffer_size (memory ∷ memories) (h ∷ hs) =
    set_ignore_remain_flow h ignore buffer_size memory
    ∷ smp_set_ignore_remain_flow ignore buffer_size memories hs
smp_set_ignore_remain_flow ignore buffer_size memories hs = hs

-- `mmt_smp_is_ignore_remain_flow`
unfoldable pub smp_is_ignore_remain_flow : List Handler → ℕ → Run Bool
smp_is_ignore_remain_flow [] flow_id = ok true
smp_is_ignore_remain_flow (h ∷ hs) flow_id = do
  let rest = smp_is_ignore_remain_flow hs flow_id
  ignored ← is_ignore_remain_flow h.flow_ids_to_ignore flow_id
  if ignored then rest else ok false

-- What `mmt_smp_sec_unregister` returns, once the threads have stopped.
unfoldable pub smp_total_alerts : List Handler → ℕ
smp_total_alerts [] = 0
smp_total_alerts (h ∷ hs) = u64 (total_alerts h.entries + smp_total_alerts hs)

-- `mmt_smp_sec_add_rules`, from thread `i` on; `rules` are those registered in the library.
unfoldable pub smp_add_rules :
    List ProtoAttribute → ℕ → List Rule → Text → ℕ → List Handler → Run (List Handler)
smp_add_rules registered max_instances rules mask i [] = ok []
smp_add_rules registered max_instances rules mask i (h ∷ hs) = do
  ids ← get_special_rules_for_thread (i + 1) mask
  (added, h') ← add_rules registered max_instances rules (numbers_of ids) h
  hs' ← smp_add_rules registered max_instances rules mask (i + 1) hs
  ok (h' ∷ hs')

-- `mmt_smp_sec_remove_rules`
unfoldable pub smp_remove_rules : List Rule → List Handler → Run (List Handler)
smp_remove_rules rules [] = ok []
smp_remove_rules rules (h ∷ hs) = do
  (removed, h') ← remove_rules rules h
  hs' ← smp_remove_rules rules hs
  ok (h' ∷ hs')
