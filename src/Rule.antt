-- ===== src/Rule.antt =====
-- What a plugin tells of a rule (src/lib/plugin_header.h), and verdicts (src/lib/mmt_security.h).
use Prim.Native.Nat.{bit_or}
use mmt_security.Prelude.{ℕ, ◌^◌, List, Bool, Run, ok, fault, halted}
use mmt_security.Fsm.{Fsm, State, Value, final_state_reached, error_state_reached}

-- `enum verdict_type`
pub data Verdict : Type 0 where
  detected not_detected respected not_respected unknown : Verdict

-- The type of a rule; `other` is a number that is none of the named ones.
pub data RuleType : Type 0 where
  attack security evasion test forward other : RuleType

-- `proto_attribute_t`, by the two numbers that identify it
pub record ProtoAttribute : Type 0 where
  pub proto_id : ℕ
  pub att_id : ℕ

-- `rule_info_t`. The arrays of each event hold indices into `proto_atts`, which the source holds
-- pointers into. `states` is the table of the state machine and `instance` the machine that
-- `create_instance` returns, both generated with the rule.
pub record Rule : Type 0 where
  pub id : ℕ
  pub type_id : RuleType
  pub events_count : ℕ
  pub proto_atts : List ProtoAttribute
  pub proto_atts_events : List (List ℕ)
  pub excluded_filter : List (List ℕ)
  pub states : List State
  pub instance : Fsm
  pub has_callback : Bool

abbrev pub is_unknown : Verdict → Bool
is_unknown unknown = Bool.true
is_unknown _ = Bool.false

-- `_get_verdict`
unfoldable pub get_verdict : RuleType → Value → Run Verdict
get_verdict test error_state_reached = ok not_respected
get_verdict test final_state_reached = ok respected
get_verdict test _ = ok unknown
get_verdict security error_state_reached = ok not_respected
get_verdict security _ = ok unknown
get_verdict attack final_state_reached = ok detected
get_verdict attack _ = ok unknown
get_verdict evasion final_state_reached = ok detected
get_verdict evasion _ = ok unknown
get_verdict forward final_state_reached = ok detected
get_verdict forward _ = ok unknown
get_verdict other _ = fault halted

-- `BIT_SET` on a `uint64_t`, for an index below 64
abbrev pub bit_set : ℕ → ℕ → ℕ
bit_set number i = bit_or number (2 ^ i)
