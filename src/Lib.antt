-- ===== src/Lib.antt =====
-- A model of MMT-Security, a C library that verifies network messages against rules. A rule is
-- compiled to a table of states; an engine runs many instances of the resulting state machine at
-- once, and reports a verdict when an instance reaches one of the marked states. A handler runs the
-- engines of a set of rules, counts their alerts, calls back, and may ignore the flows that were
-- found out. Several threads, each with the rules of a handler of its own, receive their messages
-- over rings.
--
-- The definitions follow the functions of the source under their names, without the prefixes `_`,
-- `fsm_` and `mmt_`. A function that changes what it is given returns the new state; a call that
-- may halt, go wild (an access out of bounds, a dangling pointer, a division by zero) or run deeper
-- than a bound is a `Run` (Prelude.Faults). Numbers are natural numbers, and the wrap-around of a
-- width is written out (Prelude.Bits).
--
--   Prelude: the names that the modules share; lists as arrays, faults, predicates, machine
--     widths.
--   Message: `message_t` (src/lib/message_t.h) as the library is given it.
--   Input: the building of a message in its buffer (src/lib/message_t.c): `create_message_t`,
--     `set_element_data_message_t`, `get_element_data_message_t`. A header in the buffer is a cell
--     that tells the size of its segment. Input.Cells is about the cells, Input.Stored about the
--     form of a message, Input.Reading about what is read.
--   Fsm: the state machine of an instance (src/lib/mmt_fsm.c): `fsm_handle_event`, `_update_fsm`,
--     `fsm_handle_single_packet`. Fsm.Valid says what a table of states must satisfy, Fsm.Returns
--     and Fsm.Total are about the termination of its calls, Fsm.Firing about what they fire,
--     Fsm.Deadline about the delays; Fsm.Single compares the fast path for one packet with the
--     general machine.
--   Rule, Attribute: what a plugin tells of a rule (src/lib/plugin_header.h), verdicts, and the
--     numbers of attributes (src/lib/mmt_security.c).
--   Engine: the engine of a rule (src/lib/rule_verif_engine.c). Engine.Store is its state,
--     Engine.Reset the removal of instances and the choice of ids, Engine.Process the handling of a
--     message, Engine.Init the construction. Engine.Safe, SafeInstance, SafeProcess, SafeNode and
--     SafeMessage carry the invariant of the heap through every step, Engine.Started from the
--     construction on; Engine.Stateless follows the bootstrap machine of the fast path; Engine.Kept
--     says what no step changes.
--   Flows: the set of flows to ignore (src/lib/mmt_set_uint64.h) and its parts: Bit (mmt_bit.h),
--     Filter (mmt_filter.h), Ring and Queue (mmt_ring.h), Table (mmt_set.h), FlowSet.
--   Map: the map on a binary tree (src/lib/mmt_map_t.c). Map.Order says what is asked of a
--     comparison, Map.Lookup what is found after an insertion, Map.Listing reads the tree as a list
--     of entries in the order of the keys, Map.Indices, Places and Clones follow its iteration.
--   Utils: routines of src/lib/mmt_utils.h: Search, Sorting, BinarySearch, Codes (two numbers in
--     one) and Masks (`expand_number_range`, `get_special_rules_for_thread`); Masks.Grammar says how
--     a mask is written, Masks.Written and Masks.Groups are about masks that are, Masks.Numbers
--     about any text.
--   Security: initialisation of the library (src/lib/mmt_security.c): the rules that are filtered
--     out (Security.Filtering) and the numbers of the attributes (Security.Collecting, Positions and
--     Numbering).
--   Handler: the verification against a set of rules in one thread
--     (src/lib/mmt_single_security.c), with Handler.Rules for rules added and removed at run time.
--     Handler.Consistent and Handler.Told are about the masks.
--   Smp: the verification by several threads (src/lib/mmt_smp_security.c): Smp.Special and
--     Smp.Partition are about the rules of the threads, Smp.Lanes is the relation of the steps by
--     which messages are given, pushed and popped, with the mask of 64 bits that says which threads
--     still wait for a message, and Smp.Waiting is about this mask; Smp.Delivery and Smp.Bursts say
--     what the threads get and make of it. Smp.Equivalence compares the threads with one handler:
--     Smp.Work is the algebra of what is done in any order, Smp.Follow lets each rule follow all
--     messages by itself, Smp.OneHandler and Smp.Agreement take the handlers apart into their rules,
--     Smp.Registered starts from the registration, and Smp.Totals is about the alerts that are
--     counted in the end. Smp takes a ring as the bounded queue that Spsc.Fifo reads it as.
--   Spsc: the ring between two threads (src/lib/lock_free_spsc_ring.h). Spsc.Steps is the relation
--     of the steps of both threads, and Spsc.Fifo, Checks and Traces prove about it.
--
-- State. A pointer to a state of a rule is an index into the table of its states. The machines of
-- an engine stand in a heap, a function from addresses; the nodes of its lists have addresses of
-- their own, so that a node that was freed while its address is still held is a wild access.
-- Messages are held by value: the library does not change a message once it has it. The guards of
-- transitions, which are generated code, are functions from a message and a machine; hypotheses on
-- them say what the generated code reads.
--
-- Bounds. The calls of `fsm_handle_event` from a temporary state take fuel; Engine.Process gives it
-- two levels more than the table has states, since a chain of different temporary states is
-- shorter. Fsm.Total shows that two levels are enough on tables in which a temporary state leads to
-- one that is not (Fsm.Valid.IsTable); nested operators with the delay 0 generate longer chains, of
-- which it says nothing. The loops over a mask take the length of its text, of which each round
-- reads at least one character (Utils.Masks). The loop over the nodes that wait for an event has as
-- much fuel as there are nodes when it starts.
--
-- Not modelled: the counts of references and the release of memory, but for machines and nodes,
-- whose release the engine's invariant is about; locks, taken as free; printing; the parser of
-- rules and the generator of plugins, which work before the library runs; the creation of threads.
-- The memory behind the rings is an argument, since it is not initialised.
pub mod Prelude
pub mod Message
pub mod Fsm
pub mod Rule
pub mod Map
pub mod Attribute
pub mod Input
pub mod Engine
pub mod Flows
pub mod Utils
pub mod Security
pub mod Handler
pub mod Spsc
pub mod Smp
mod Tests
