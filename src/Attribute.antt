-- ===== src/Attribute.antt =====
-- The numbers of the registered protocol attributes (src/lib/mmt_security.c).
use mmt_security.Prelude.{
  ℕ, ◌+◌, List, [], ◌∷◌, Bool, ◌&&◌, ◌==◌, if◌then◌else◌, Run, ok, fault, halted,
}
use mmt_security.Prelude.Bits.{u16}
use mmt_security.Rule.{ProtoAttribute}

abbrev pub same_attribute : ℕ → ℕ → ProtoAttribute → Bool
same_attribute proto_id att_id p = p.att_id == att_id && p.proto_id == proto_id

-- The loop of `_mmt_sec_hash_proto_attribute_without_lock`, from index `i` on.
unfoldable pub hash_from : List ProtoAttribute → ℕ → ℕ → ℕ → Run ℕ
hash_from [] proto_id att_id i = fault halted
hash_from (p ∷ ps) proto_id att_id i =
    if same_attribute proto_id att_id p then ok (u16 i) else hash_from ps proto_id att_id (i + 1)

unfoldable pub hash_proto_attribute : List ProtoAttribute → ℕ → ℕ → Run ℕ
unfolding hash_from
hash_proto_attribute atts proto_id att_id = hash_from atts proto_id att_id 0
